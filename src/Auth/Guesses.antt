-- ===== src/Auth/Guesses.antt =====
-- How many guesses apps/api/src/auth/login-throttle.service.ts allows in a window.
use elder_interview_ai.Auth.Counted.{row_kind}
use text.Mathlib.TextPositions.{eq_refl}
use elder_interview_ai.Prelude.{
  ◌<◌, ◌==◌, ◌∙◌, ap, eq_iff, ℕ, ◌+◌, ◌-◌, ◌≤◌, ◌≡◌, refl, sym, subst, Bool, Bool-cases, true,
  false, not, ◌&&◌, ◌||◌, inl, inr, String, List, [], ◌∷◌, Option, none, some, arith, if◌then◌else◌,
  if_elim, leb, any, All,
}
use elder_interview_ai.Prelude.Rows.{
  find-update_where-other, find-append-other, find-append-new, find-update_where-same,
  any-find-none, any-find-some,
}
use elder_interview_ai.Auth.Throttle.{
  window_ms, AuthThrottleKeyKind, identity_ip, ip, ThrottleKey, AuthLoginThrottle, Platform,
  same_kind, is_row, find_row, is_blocked, is_expired, next_count, reached_limit, new_row,
  updated_row, upsert, reserve_key, identity_key, ip_key, is_swapped, reserve_attempt,
}

-- A guess at a password.
pub record Attempt : Type 0 where
  pub now : ℕ
  pub email : String
  pub address : String

abbrev count_if : Bool → ℕ
count_if c = if c then 1 else 0

-- The attempts for a login's key that are allowed, when the attempts are made one after the other.
unfoldable pub allowed_count :
    Platform → (hash : String) → List Attempt → List AuthLoginThrottle → ℕ
allowed_count p h [] rows = 0
allowed_count p h (a ∷ rest) rows =
    let (reservation, rows') = reserve_attempt p a.email a.address a.now rows in
    let later = allowed_count p h rest rows' in
    count_if ((identity_key p a.email a.address).hash == h && reservation.allowed) + later

same_kind_refl : (k : AuthThrottleKeyKind) → same_kind k k ≡ true
same_kind_refl identity_ip = refl
same_kind_refl ip = refl

-- The key of a login.
abbrev login : String → ThrottleKey
login h = record { hash = h; kind = identity_ip }

-- A round for an address leaves the row of a login, and a round for another login does.
module _ (h : String) (now : ℕ) (k : ThrottleKey) where
  other_round :
      (existing : Option AuthLoginThrottle) (rows : List AuthLoginThrottle)
      → ((r : AuthLoginThrottle) → is_row k r ≡ true → is_row (login h) r ≡ false)
      → find_row (login h) (reserve_key now k existing rows) ≡ find_row (login h) rows
  unfolding reserve_key upsert
  other_round existing rows apart =
      let n : ℕ = next_count now existing in
      if_elim (λ (l : List AuthLoginThrottle). find_row (login h) l ≡ find_row (login h) rows)
        (any (is_row k) rows)
        (find-update_where-other (is_row (login h)) (is_row k)
          (updated_row now k n (is_expired now existing)) rows (λ r e. (apart r e, apart r e)))
        (find-append-other (is_row (login h)) rows (new_row now k n)
          (apart (new_row now k n) (ground (arith, eq_refl k.hash, same_kind_refl k.kind))))

apart_by_kind :
    (h a : String) (r : AuthLoginThrottle)
    → is_row (record { hash = a; kind = ip }) r ≡ true
    → is_row (login h) r ≡ false
apart_by_kind h a r e = ground (arith, row_kind (record { hash = a; kind = ip }) r e)

apart_by_hash :
    (h g : String) (r : AuthLoginThrottle)
    → (g == h) ≡ false
    → is_row (login g) r ≡ true
    → is_row (login h) r ≡ false
apart_by_hash h g r n e = ground (arith, eq_iff r.key_hash g, n)

-- A round of the login writes its row.
own_round-none :
    (h : String) (now : ℕ) (rows : List AuthLoginThrottle)
    → find_row (login h) rows ≡ none
    → find_row (login h) (reserve_key now (login h) none rows) ≡ some (new_row now (login h) 1)
unfolding reserve_key upsert
own_round-none h now rows e = rw (any-find-none (is_row (login h)) rows e) (
    find-append-new (is_row (login h)) rows (new_row now (login h) 1) e (ground (arith, eq_refl h)))

own_round-some :
    (h : String) (now : ℕ) (rows : List AuthLoginThrottle) (r : AuthLoginThrottle)
    → find_row (login h) rows ≡ some r
    → find_row (login h) (reserve_key now (login h) (some r) rows)
      ≡ some (updated_row now (login h) (next_count now (some r)) (is_expired now (some r)) r)
unfolding reserve_key upsert
own_round-some h now rows r e = rw (any-find-some (is_row (login h)) rows r e) (
    find-update_where-same (is_row (login h))
      (updated_row now (login h) (next_count now (some r)) (is_expired now (some r))) rows r
      (λ y q. q) e)

abbrev written : ℕ → String → Option AuthLoginThrottle → AuthLoginThrottle
written now h none = new_row now (login h) 1
written now h (some r) =
    updated_row now (login h) (next_count now (some r)) (is_expired now (some r)) r

own_round :
    (h : String) (now : ℕ) (o : Option AuthLoginThrottle) (rows : List AuthLoginThrottle)
    → find_row (login h) rows ≡ o
    → find_row (login h) (reserve_key now (login h) o rows) ≡ some (written now h o)
own_round h now none rows e = own_round-none h now rows e
own_round h now (some r) rows e = own_round-some h now rows r e

module _ (p : Platform) (h : String) (now : ℕ) (a : String)
    (existing_ip : Option AuthLoginThrottle) where
  by_address : List AuthLoginThrottle → List AuthLoginThrottle
  by_address rows = reserve_key now (ip_key p a) existing_ip rows

  by_address-login :
      (rows : List AuthLoginThrottle)
      → find_row (login h) (by_address rows) ≡ find_row (login h) rows
  unfolding by_address
  by_address-login rows =
      other_round h now (ip_key p a) existing_ip rows (apart_by_kind h (ip_key p a).hash)

  -- Both rounds, in either order.
  rounds-other :
      (g : String) (o : Option AuthLoginThrottle) (swapped : Bool) (rows : List AuthLoginThrottle)
      → (g == h) ≡ false
      → find_row (login h) (
          if swapped
          then reserve_key now (login g) o (by_address rows)
          else by_address (reserve_key now (login g) o rows))
        ≡ find_row (login h) rows
  rounds-other g o true rows n =
      other_round h now (login g) o (by_address rows) (λ r. apart_by_hash h g r n)
      ∙ by_address-login rows
  rounds-other g o false rows n =
      by_address-login (reserve_key now (login g) o rows)
      ∙ other_round h now (login g) o rows (λ r. apart_by_hash h g r n)

  rounds-own :
      (o : Option AuthLoginThrottle) (swapped : Bool) (rows : List AuthLoginThrottle)
      → find_row (login h) rows ≡ o
      → find_row (login h) (
          if swapped
          then reserve_key now (login h) o (by_address rows)
          else by_address (reserve_key now (login h) o rows))
        ≡ some (written now h o)
  rounds-own o true rows e = own_round h now o (by_address rows) (by_address-login rows ∙ e)
  rounds-own o false rows e =
      by_address-login (reserve_key now (login h) o rows) ∙ own_round h now o rows e

-- So many failures are counted at least, in a window that is open until then.
abbrev Within : (until n : ℕ) → Option AuthLoginThrottle → Type 0
Within until n none = n ≡ 0
Within until n (some r) = (n ≤ r.failure_count) × (until ≤ r.window_started_at + window_ms)

written-Within :
    (start n now : ℕ) (h : String) (o : Option AuthLoginThrottle) (free : Bool)
    → start ≤ now
    → now < start + window_ms
    → Within (start + window_ms) n o
    → Within (start + window_ms) (n + 1) (some (written now h o))
      × (count_if (not (reached_limit identity_ip (next_count now o)) && free) + (4 - (n + 1))
          ≤ 4 - n)
written-Within start n now h none free late early w =
    ((omega (arith, w), omega (arith, late)), ground (arith, w))
written-Within start n now h (some r) free late early (fewer, long) =
    let same : leb window_ms (now - r.window_started_at) ≡ false = ground (arith, early, long) in
    ((ground (arith, same, fewer), ground (arith, same, long)), ground (arith, same, fewer))

-- What an attempt leaves, and how many more can be allowed.
attempt-Within :
    (p : Platform) (h : String) (a : Attempt) (start n : ℕ) (rows : List AuthLoginThrottle)
    → start ≤ a.now
    → a.now < start + window_ms
    → Within (start + window_ms) n (find_row (login h) rows)
    → (m : ℕ) × Within
        (start + window_ms)
        m
        (find_row (login h) (reserve_attempt p a.email a.address a.now rows).1)
      × (count_if (
              (identity_key p a.email a.address).hash == h
              && (reserve_attempt p a.email a.address a.now rows).0.allowed)
            + (4 - m)
          ≤ 4 - n)
unfolding reserve_attempt by_address
attempt-Within p h a start n rows late early w =
    let g : String = (identity_key p a.email a.address).hash in
    let o : Option AuthLoginThrottle = find_row (login g) rows in
    let o' : Option AuthLoginThrottle = find_row (ip_key p a.address) rows in
    let swapped : Bool = is_swapped p a.email a.address in
    elim (Bool-cases (is_blocked a.now o || is_blocked a.now o')) [
      | inl e ↦ rw e (n, w, ground arith)
      | inr e ↦ elim (Bool-cases (g == h)) [
        | inl f ↦
            let same : g ≡ h = (eq_iff g h).0 f in
            let (room, le) =
              written-Within start n a.now h o (not (reached_limit ip (next_count a.now o'))) late
                early
                (subst (λ z. Within (start + window_ms) n (find_row (login z) rows)) (sym same)
                  w) in
            let row =
              subst
                (λ z.
                  find_row (login h) (
                    if swapped
                    then reserve_key a.now (login z) o (by_address p h a.now a.address o' rows)
                    else by_address p h a.now a.address o' (reserve_key a.now (login z) o rows))
                  ≡ some (written a.now h o))
                (sym same)
                (rounds-own p h a.now a.address o' o swapped rows
                  (ap (λ z. find_row (login z) rows) (sym same))) in
            rw (e, f) (n + 1, subst (Within (start + window_ms) (n + 1)) (sym row) room, le)
        | inr f ↦
            rw (e, f)
              (
                n,
                subst (Within (start + window_ms) n)
                    (sym (rounds-other p h a.now a.address o' g o swapped rows f)) w,
                omega arith,
              )
      ]
    ]

abbrev IsBetween : (start end : ℕ) → Attempt → Type 0
IsBetween start end a = (start ≤ a.now) × (a.now < end)

allowed_count-Within :
    (p : Platform) (h : String) (attempts : List Attempt) (start n : ℕ)
    (rows : List AuthLoginThrottle)
    → All (IsBetween start (start + window_ms)) attempts
    → Within (start + window_ms) n (find_row (login h) rows)
    → allowed_count p h attempts rows ≤ 4 - n
unfolding allowed_count
allowed_count-Within p h [] start n rows times w = omega arith
allowed_count-Within p h (a ∷ rest) start n rows ((late, early), times) w =
    let (m, w', le) = attempt-Within p h a start n rows late early w in
    omega (
      arith,
      le,
      allowed_count-Within p h rest start m (reserve_attempt p a.email a.address a.now rows).1 times
          w',
    )

-- Of any attempts at any logins within a quarter of an hour, in any order of their times, at most four
-- are allowed for one email and address, if there was no row for them before and no attempt succeeds
-- in between.
pub allowed_count-bounded :
    (p : Platform) (email address : String) (attempts : List Attempt) (start : ℕ)
    (rows : List AuthLoginThrottle)
    → All (IsBetween start (start + window_ms)) attempts
    → find_row (identity_key p email address) rows ≡ none
    → allowed_count p (identity_key p email address).hash attempts rows ≤ 4
allowed_count-bounded p email address attempts start rows times new =
    allowed_count-Within p (identity_key p email address).hash attempts start 0 rows times
      (subst (λ o. Within (start + window_ms) 0 o) (sym new) refl)
