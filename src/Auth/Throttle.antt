-- ===== src/Auth/Throttle.antt =====
-- `LoginThrottleService` of apps/api/src/auth/login-throttle.service.ts. A lock for each key orders the
-- transactions: a call runs alone. Times are in milliseconds.
use elder_interview_ai.Prelude.{
  ℕ, ◌+◌, ◌-◌, Bool, true, false, not, ◌&&◌, ◌||◌, String, List, [], ◌∷◌, ◌++◌, Option, none, some,
  if◌then◌else◌, eqb, ltb, leb, any, keep, ◌==◌,
}
use elder_interview_ai.Prelude.Rows.{find, update_where}

abbrev pub window_ms : ℕ
window_ms = 900000

pub data AuthThrottleKeyKind : Type 0 where
  identity_ip ip : AuthThrottleKeyKind

abbrev pub limit : AuthThrottleKeyKind → ℕ
limit identity_ip = 5
limit ip = 30

pub record ThrottleKey : Type 0 where
  pub hash : String
  pub kind : AuthThrottleKeyKind

-- A row of the table; `id` is its hash and its kind, which are unique together.
pub record AuthLoginThrottle : Type 0 where
  pub key_hash : String
  pub key_kind : AuthThrottleKeyKind
  pub failure_count : ℕ
  pub window_started_at : ℕ
  pub blocked_until : Option ℕ

pub record ReservedCounts : Type 0 where
  pub identity_ip : ℕ
  pub ip : ℕ

pub record LoginAttemptReservation : Type 0 where
  pub allowed : Bool
  pub reserved_counts : Option ReservedCounts

-- The keyed digest of texts that are joined by a NUL, and the order of the locale.
pub record Platform : Type 0 where
  pub digest : List String → String
  pub is_after : String → String → Bool

abbrev pub same_kind : AuthThrottleKeyKind → AuthThrottleKeyKind → Bool
same_kind identity_ip identity_ip = true
same_kind ip ip = true
same_kind identity_ip ip = false
same_kind ip identity_ip = false

abbrev pub is_row : ThrottleKey → AuthLoginThrottle → Bool
is_row k r = r.key_hash == k.hash && same_kind r.key_kind k.kind

abbrev pub find_row : ThrottleKey → List AuthLoginThrottle → Option AuthLoginThrottle
find_row k rows = find (is_row k) rows

abbrev pub is_blocked_until : ℕ → Option ℕ → Bool
is_blocked_until now none = false
is_blocked_until now (some t) = ltb now t

abbrev pub is_blocked : ℕ → Option AuthLoginThrottle → Bool
is_blocked now none = false
is_blocked now (some r) = is_blocked_until now r.blocked_until

-- `expired`; a clock that went back leaves the window open, as the difference is then negative.
abbrev pub is_expired : ℕ → Option AuthLoginThrottle → Bool
is_expired now none = true
is_expired now (some r) = leb window_ms (now - r.window_started_at)

abbrev pub failures : Option AuthLoginThrottle → ℕ
failures none = 0
failures (some r) = r.failure_count

abbrev pub next_count : ℕ → Option AuthLoginThrottle → ℕ
next_count now existing = if is_expired now existing then 1 else failures existing + 1

abbrev pub reached_limit : AuthThrottleKeyKind → (count : ℕ) → Bool
reached_limit kind count = leb (limit kind) count

abbrev pub blocked_from : ℕ → Bool → Option ℕ
blocked_from now reached = if reached then some (now + window_ms) else none

abbrev pub new_row : ℕ → ThrottleKey → (count : ℕ) → AuthLoginThrottle
new_row now k count = record {
  key_hash = k.hash;
  key_kind = k.kind;
  failure_count = count;
  window_started_at = now;
  blocked_until = blocked_from now (reached_limit k.kind count);
}

abbrev pub updated_row :
    ℕ → ThrottleKey → (count : ℕ) → (expired : Bool) → AuthLoginThrottle → AuthLoginThrottle
updated_row now k count expired r = record r {
  blocked_until = blocked_from now (reached_limit k.kind count);
  failure_count = count;
  window_started_at = if expired then now else r.window_started_at;
}

-- `upsert`
unfoldable pub upsert :
    ThrottleKey
    → AuthLoginThrottle
    → (AuthLoginThrottle → AuthLoginThrottle)
    → List AuthLoginThrottle
    → List AuthLoginThrottle
upsert k created update rows =
    if any (is_row k) rows then update_where (is_row k) update rows else rows ++ created ∷ []

-- One round of the loop, with the row that was read before the loop.
unfoldable pub reserve_key :
    ℕ → ThrottleKey → Option AuthLoginThrottle → List AuthLoginThrottle → List AuthLoginThrottle
reserve_key now k existing rows =
    upsert k (new_row now k (next_count now existing))
      (updated_row now k (next_count now existing) (is_expired now existing)) rows

module _ (p : Platform) where
  abbrev pub identity_key : (email address : String) → ThrottleKey
  identity_key email address = record {
    hash = p.digest ("identity_ip" ∷ email ∷ address ∷ []);
    kind = identity_ip;
  }

  abbrev pub ip_key : (address : String) → ThrottleKey
  ip_key address = record { hash = p.digest ("ip" ∷ address ∷ []); kind = ip }

  -- The two keys are taken in the order of their hashes.
  abbrev pub is_swapped : (email address : String) → Bool
  is_swapped email address = p.is_after (identity_key email address).hash (ip_key address).hash

  abbrev pub in_order : {A : Type 0} → (email address : String) → (identity ip : A → A) → A → A
  in_order email address f g x = if is_swapped email address then f (g x) else g (f x)

  unfoldable pub reserve_attempt :
      (email address : String)
      → ℕ
      → List AuthLoginThrottle
      → LoginAttemptReservation × List AuthLoginThrottle
  reserve_attempt email address now rows =
      let identity : ThrottleKey = identity_key email address in
      let of_address : ThrottleKey = ip_key address in
      let existing : Option AuthLoginThrottle = find_row identity rows in
      let existing_ip : Option AuthLoginThrottle = find_row of_address rows in
      if is_blocked now existing || is_blocked now existing_ip
      then (record { allowed = false; reserved_counts = none }, rows)
      else (
        record {
          allowed =
              not (reached_limit identity_ip (next_count now existing))
              && not (reached_limit ip (next_count now existing_ip));
          reserved_counts =
              some
                (record { identity_ip = next_count now existing; ip = next_count now existing_ip });
        },
        in_order email address (reserve_key now identity existing)
            (reserve_key now of_address existing_ip) rows,
      )

  abbrev pub counted_off : AuthThrottleKeyKind → ReservedCounts → ℕ → ℕ
  counted_off identity_ip c n = n - c.identity_ip
  counted_off ip c n = n - 1

  abbrev pub settle : ThrottleKey → (count : ℕ) → List AuthLoginThrottle → List AuthLoginThrottle
  settle k n rows =
      if eqb n 0
      then keep (λ r. not (is_row k r)) rows
      else update_where (is_row k)
          (λ (r : AuthLoginThrottle). record r { blocked_until = none; failure_count = n }) rows

  abbrev pub finalize_found :
      ThrottleKey
      → ReservedCounts
      → List AuthLoginThrottle
      → Option AuthLoginThrottle
      → List AuthLoginThrottle
  finalize_found k c rows none = rows
  finalize_found k c rows (some r) = settle k (counted_off k.kind c r.failure_count) rows

  -- One round of the loop of `finalizeSuccess`.
  unfoldable pub finalize_key :
      ReservedCounts → ThrottleKey → List AuthLoginThrottle → List AuthLoginThrottle
  finalize_key c k rows = finalize_found k c rows (find_row k rows)

  abbrev pub finalize_counts :
      (email address : String)
      → Option ReservedCounts
      → List AuthLoginThrottle
      → List AuthLoginThrottle
  finalize_counts email address none rows = rows
  finalize_counts email address (some c) rows =
      in_order email address (finalize_key c (identity_key email address))
        (finalize_key c (ip_key address)) rows

  unfoldable pub finalize_success :
      (email address : String)
      → LoginAttemptReservation
      → List AuthLoginThrottle
      → List AuthLoginThrottle
  finalize_success email address r rows = finalize_counts email address r.reserved_counts rows
