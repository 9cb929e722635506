-- ===== src/Auth/Attempts.antt =====
-- Any order of the calls of apps/api/src/auth/login-throttle.service.ts: attempts, and successes of
-- attempts that were reserved.
use elder_interview_ai.Prelude.{
  get_elem?, All-get_elem?, All-map, ℕ, ◌+◌, ◌≤◌, sym, subst, Bool-cases, not, ◌||◌, inl, inr,
  String, List, [], ◌∷◌, Option, Option-cases, none, some, arith, if_elim, eqb, All, All-keep,
}
use elder_interview_ai.Prelude.Rows.{find-holds}
use elder_interview_ai.Auth.Throttle.{
  AuthThrottleKeyKind, identity_ip, ip, limit, ThrottleKey, AuthLoginThrottle, ReservedCounts,
  LoginAttemptReservation, Platform, is_row, find_row, is_blocked, reserve_key, identity_key,
  ip_key, is_swapped, in_order, reserve_attempt, counted_off, settle, finalize_found, finalize_key,
  finalize_counts, finalize_success,
}
use elder_interview_ai.Auth.Counted.{
  IsCounted, IsCounted-later, AreCounted, All-update_where, All-find, row_kind, next_count-bounded,
  reserve_key-AreCounted,
}

-- The counts of a reservation.
abbrev IsReserved : Option ReservedCounts → Type 0
IsReserved none = Unit {0}
IsReserved (some c) = 1 ≤ c.identity_ip

module _ (p : Platform) where
  in_order-AreCounted :
      (email address : String) (now : ℕ) (f g : List AuthLoginThrottle → List AuthLoginThrottle)
      → ((rows : List AuthLoginThrottle) → AreCounted now rows → AreCounted now (f rows))
      → ((rows : List AuthLoginThrottle) → AreCounted now rows → AreCounted now (g rows))
      → (rows : List AuthLoginThrottle) → AreCounted now rows
      → AreCounted now (in_order p email address f g rows)
  in_order-AreCounted email address now f g hf hg rows h =
      if_elim (λ (l : List AuthLoginThrottle). AreCounted now l) (is_swapped p email address)
        (hf (g rows) (hg rows h)) (hg (f rows) (hf rows h))

  reserve_attempt-AreCounted :
      (email address : String) (now : ℕ) (rows : List AuthLoginThrottle)
      → AreCounted now rows
      → AreCounted now (reserve_attempt p email address now rows).1
        × IsReserved (reserve_attempt p email address now rows).0.reserved_counts
  unfolding reserve_attempt
  reserve_attempt-AreCounted email address now rows h =
      let k : ThrottleKey = identity_key p email address in
      let k' : ThrottleKey = ip_key p address in
      let o : Option AuthLoginThrottle = find_row k rows in
      let o' : Option AuthLoginThrottle = find_row k' rows in
      elim (Bool-cases (is_blocked now o || is_blocked now o')) [
        | inl e ↦ rw e (h, tt)
        | inr e ↦
            let (low, high) = next_count-bounded now k rows h (ground arith) in
            let (low', high') = next_count-bounded now k' rows h (ground arith) in
            rw e (
              in_order-AreCounted email address now (reserve_key now k o) (reserve_key now k' o')
                  (λ l g. reserve_key-AreCounted now k o l low high g)
                  (λ l g. reserve_key-AreCounted now k' o' l low' high' g) rows h,
              low,
            )
      ]

  settle-AreCounted :
      (now : ℕ) (k : ThrottleKey) (n : ℕ) (rows : List AuthLoginThrottle)
      → n + 1 ≤ limit k.kind
      → AreCounted now rows
      → AreCounted now (settle p k n rows)
  settle-AreCounted now k n rows below h = elim (Bool-cases (eqb n 0)) [
    | inl e ↦ rw e (All-keep (IsCounted now) (λ r. not (is_row k r)) rows h)
    | inr e ↦ rw e (
        All-update_where (IsCounted now) (is_row k)
          (λ (r : AuthLoginThrottle). record r { blocked_until = none; failure_count = n }) rows
          (λ r q g.
            let low : n + 1 ≤ limit r.key_kind = ground (arith, below, row_kind k r q) in
            record {
              positive = ground (arith, e);
              bounded = omega (arith, low);
              started = g.started;
              blocked = λ z. omega (arith, low, z);
            })
          h)
  ]

  counted_off-below :
      (kind : AuthThrottleKeyKind) (c : ReservedCounts) (n m : ℕ)
      → 1 ≤ c.identity_ip
      → 1 ≤ n
      → n ≤ m
      → counted_off p kind c n + 1 ≤ m
  counted_off-below identity_ip c n m a b d = omega (arith, a, b, d)
  counted_off-below ip c n m a b d = omega (arith, a, b, d)

  finalize_key-AreCounted :
      (now : ℕ) (c : ReservedCounts) (k : ThrottleKey) (rows : List AuthLoginThrottle)
      → 1 ≤ c.identity_ip
      → AreCounted now rows
      → AreCounted now (finalize_key p c k rows)
  unfolding finalize_key
  finalize_key-AreCounted now c k rows one h = elim (Option-cases (find_row k rows)) [
    | inl e ↦ subst (λ o. AreCounted now (finalize_found p k c rows o)) (sym e) h
    | inr (r, e) ↦
        let g = All-find (IsCounted now) (is_row k) rows r h e in
        let bound : r.failure_count ≤ limit k.kind =
          ground (arith, g.bounded, row_kind k r (find-holds (is_row k) rows r e)) in
        subst (λ o. AreCounted now (finalize_found p k c rows o)) (sym e)
          (settle-AreCounted now k (counted_off p k.kind c r.failure_count) rows
            (counted_off-below k.kind c r.failure_count (limit k.kind) one g.positive bound) h)
  ]

  finalize_success-AreCounted :
      (email address : String) (now : ℕ) (counts : Option ReservedCounts)
      (rows : List AuthLoginThrottle)
      → IsReserved counts
      → AreCounted now rows
      → AreCounted now (finalize_counts p email address counts rows)
  finalize_success-AreCounted email address now none rows one h = h
  finalize_success-AreCounted email address now (some c) rows one h =
      in_order-AreCounted email address now (finalize_key p c (identity_key p email address))
        (finalize_key p c (ip_key p address))
        (λ l g. finalize_key-AreCounted now c (identity_key p email address) l one g)
        (λ l g. finalize_key-AreCounted now c (ip_key p address) l one g) rows h

-- A login whose password is being compared.
pub record Reserved : Type 0 where
  pub email : String
  pub address : String
  pub reservation : LoginAttemptReservation

pub record Logins : Type 0 where
  pub now : ℕ
  pub rows : List AuthLoginThrottle
  pub reserved : List Reserved

-- Some time passes and a login is tried; a login that was reserved succeeds. It may do so again, which
-- the callers of the service do not.
pub data Event : Type 0 where
  tries : (elapsed : ℕ) → (email address : String) → Event
  succeeds : (index : ℕ) → Event

abbrev tried : Platform → ℕ → String → String → Logins → Logins
tried p now email address l = record {
  now = now;
  rows = (reserve_attempt p email address now l.rows).1;
  reserved =
      record {
        email = email;
        address = address;
        reservation = (reserve_attempt p email address now l.rows).0;
      }
      ∷ l.reserved;
}

abbrev succeeded : Platform → Option Reserved → Logins → Logins
succeeded p none l = l
succeeded p (some r) l = record l {
  rows = finalize_success p r.email r.address r.reservation l.rows;
}

abbrev pub perform : Platform → Event → Logins → Logins
perform p (tries elapsed email address) l = tried p (l.now + elapsed) email address l
perform p (succeeds index) l = succeeded p (get_elem? l.reserved index) l

unfoldable pub run : Platform → List Event → Logins → Logins
run p [] l = l
run p (e ∷ es) l = run p es (perform p e l)

pub record IsThrottled (l : Logins) : Type 0 where
  pub counted : AreCounted l.now l.rows
  pub reservations : All (λ (r : Reserved). IsReserved r.reservation.reserved_counts) l.reserved

perform-IsThrottled :
    (p : Platform) (e : Event) (l : Logins) → IsThrottled l → IsThrottled (perform p e l)
unfolding finalize_success
perform-IsThrottled p (tries d email address) l h =
    let (rows, given) = reserve_attempt-AreCounted p email address (l.now + d) l.rows (
      All-map (IsCounted l.now) (IsCounted (l.now + d)) l.rows
        (IsCounted-later l.now (l.now + d) (omega arith)) h.counted) in
    record { counted = rows; reservations = (given, h.reservations) }
perform-IsThrottled p (succeeds i) l h = elim (Option-cases (get_elem? l.reserved i)) [
  | inl e ↦ subst (λ o. IsThrottled (succeeded p o l)) (sym e) h
  | inr (r, e) ↦
      subst (λ o. IsThrottled (succeeded p o l)) (sym e)
        (record {
          counted = after r (
              All-get_elem? (λ (r : Reserved). IsReserved r.reservation.reserved_counts) l.reserved
                i r h.reservations e);
          reservations = h.reservations;
        })
]
  where
    after :
        (r : Reserved)
        → IsReserved r.reservation.reserved_counts
        → AreCounted l.now (finalize_success p r.email r.address r.reservation l.rows)
    after r one =
        finalize_success-AreCounted p r.email r.address l.now r.reservation.reserved_counts l.rows
          one h.counted

-- After any attempts, at whatever times, and any successes of attempts that were reserved, in any
-- order, each row of the throttle counts at least one failure and at most as many as its kind allows,
-- and one that has reached the limit is blocked until the end of its window at least; if this was so
-- before and each reservation counts itself.
pub run-IsThrottled :
    (p : Platform) (es : List Event) (l : Logins) → IsThrottled l → IsThrottled (run p es l)
unfolding run
run-IsThrottled p [] l h = h
run-IsThrottled p (e ∷ es) l h = run-IsThrottled p es (perform p e l) (perform-IsThrottled p e l h)
