-- ===== src/Auth/Counted.antt =====
-- The rows of apps/api/src/auth/login-throttle.service.ts: their counts and their blocks.
use elder_interview_ai.Prelude.{
  ℕ, ◌+◌, ◌-◌, ◌≤◌, ◌≡◌, refl, sym, subst, Bool, Bool-cases, true, false, inl, inr, List, [], ◌∷◌,
  Option, Option-cases, none, some, arith, if◌then◌else◌, if_elim, leb, any, or_else, All,
  All-append,
}
use elder_interview_ai.Prelude.Rows.{find, update_where, find-holds}
use elder_interview_ai.Auth.Throttle.{
  window_ms, AuthThrottleKeyKind, identity_ip, ip, limit, ThrottleKey, AuthLoginThrottle, same_kind,
  is_row, find_row, is_blocked_until, is_blocked, is_expired, next_count, reached_limit,
  blocked_from, new_row, updated_row, upsert, reserve_key,
}

-- A row counts at least one and at most so many failures as its kind allows; one that has reached the
-- limit is blocked until its window is over, at least.
pub record IsCounted (now : ℕ) (r : AuthLoginThrottle) : Type 0 where
  pub positive : 1 ≤ r.failure_count
  pub bounded : r.failure_count ≤ limit r.key_kind
  pub started : r.window_started_at ≤ now
  pub blocked :
      r.failure_count ≡ limit r.key_kind
      → r.window_started_at + window_ms ≤ or_else r.blocked_until 0

abbrev pub AreCounted : ℕ → List AuthLoginThrottle → Type 0
AreCounted now rows = All (IsCounted now) rows

pub IsCounted-later : (n m : ℕ) → n ≤ m → (r : AuthLoginThrottle) → IsCounted n r → IsCounted m r
IsCounted-later n m le r k = record {
  positive = k.positive;
  bounded = k.bounded;
  started = omega (arith, le, k.started);
  blocked = k.blocked;
}

module _ {A : Type 0} (P : A → Type 0) where
  pub All-update_where :
      (q : A → Bool) (f : A → A) (xs : List A)
      → ((x : A) → q x ≡ true → P x → P (f x))
      → All P xs
      → All P (update_where q f xs)
  unfolding update_where
  All-update_where q f [] k h = tt
  All-update_where q f (x ∷ xs) k (h, hs) = elim (Bool-cases (q x)) [
    | inl e ↦ (rw e (k x e h), All-update_where q f xs k hs)
    | inr e ↦ (rw e h, All-update_where q f xs k hs)
  ]

  pub All-find : (q : A → Bool) (xs : List A) (x : A) → All P xs → find q xs ≡ some x → P x
  unfolding find
  All-find q [] x h e = absurd (ground arith)
  All-find q (y ∷ ys) x (h, hs) e = elim (Bool-cases (q y)) [
    | inl f ↦ subst P (ground arith) h
    | inr f ↦ All-find q ys x hs (ground arith)
  ]

same_kind-eq : (a b : AuthThrottleKeyKind) → same_kind a b ≡ true → a ≡ b
same_kind-eq identity_ip identity_ip h = refl
same_kind-eq ip ip h = refl
same_kind-eq identity_ip ip h = cc
same_kind-eq ip identity_ip h = cc

pub row_kind : (k : ThrottleKey) (r : AuthLoginThrottle) → is_row k r ≡ true → r.key_kind ≡ k.kind
row_kind k r h = same_kind-eq r.key_kind k.kind (ground arith)

pub limit_positive : (kind : AuthThrottleKeyKind) → 1 ≤ limit kind
limit_positive identity_ip = omega arith
limit_positive ip = omega arith

block_over : (now : ℕ) (o : Option ℕ) → is_blocked_until now o ≡ false → or_else o 0 ≤ now
block_over now none h = omega arith
block_over now (some t) h = ground arith

-- The row that was read, if its key is not blocked, may count one more.
pub next_count-bounded :
    (now : ℕ) (k : ThrottleKey) (rows : List AuthLoginThrottle)
    → AreCounted now rows
    → is_blocked now (find_row k rows) ≡ false
    → (1 ≤ next_count now (find_row k rows)) × (next_count now (find_row k rows) ≤ limit k.kind)
next_count-bounded now k rows h b = elim (Option-cases (find_row k rows)) [
  | inl e ↦
      subst (λ o. (1 ≤ next_count now o) × (next_count now o ≤ limit k.kind)) (sym e)
        (omega arith, limit_positive k.kind)
  | inr (r, e) ↦
      subst (λ o. (1 ≤ next_count now o) × (next_count now o ≤ limit k.kind)) (sym e)
        (counted r (All-find (IsCounted now) (is_row k) rows r h e)
          (row_kind k r (find-holds (is_row k) rows r e))
          (subst (λ o. is_blocked now o ≡ false) e b))
]
  where
    counted :
        (r : AuthLoginThrottle)
        → IsCounted now r
        → r.key_kind ≡ k.kind
        → is_blocked now (some r) ≡ false
        → (1 ≤ next_count now (some r)) × (next_count now (some r) ≤ limit k.kind)
    counted r g same free =
        let over : or_else r.blocked_until 0 ≤ now = block_over now r.blocked_until free in
        elim (Bool-cases (leb window_ms (now - r.window_started_at))) [
          | inl e ↦ (ground (arith, e), ground (arith, e, limit_positive k.kind))
          | inr e ↦
              let below : r.failure_count + 1 ≤ limit r.key_kind =
                ground (arith, over, e, g.bounded, g.started, g.blocked) in
              (ground (arith, e, g.positive), ground (arith, e, below, same))
        ]

-- What a round writes.
blocked_from-IsCounted :
    (now : ℕ) (kind : AuthThrottleKeyKind) (n started : ℕ)
    → started ≤ now
    → n ≡ limit kind
    → started + window_ms ≤ or_else (blocked_from now (reached_limit kind n)) 0
blocked_from-IsCounted now kind n started le e = ground (arith, le, e)

pub reserve_key-AreCounted :
    (now : ℕ) (k : ThrottleKey) (existing : Option AuthLoginThrottle)
    (rows : List AuthLoginThrottle)
    → 1 ≤ next_count now existing
    → next_count now existing ≤ limit k.kind
    → AreCounted now rows
    → AreCounted now (reserve_key now k existing rows)
unfolding reserve_key upsert
reserve_key-AreCounted now k existing rows low high h =
    let n : ℕ = next_count now existing in
    let expired : Bool = is_expired now existing in
    if_elim (λ (l : List AuthLoginThrottle). AreCounted now l) (any (is_row k) rows)
      (All-update_where (IsCounted now) (is_row k) (updated_row now k n expired) rows
        (λ r e g.
          let same = row_kind k r e in
          let started : (if expired then now else r.window_started_at) ≤ now =
            ground (arith, g.started) in
          record {
            positive = low;
            bounded = subst (λ kind. n ≤ limit kind) (sym same) high;
            started = started;
            blocked = λ q.
                blocked_from-IsCounted now k.kind n (if expired then now else r.window_started_at)
                  started (subst (λ kind. n ≡ limit kind) same q);
          })
        h)
      (All-append (IsCounted now) rows (new_row now k n ∷ []) h (
        record {
          positive = low;
          bounded = high;
          started = omega arith;
          blocked = blocked_from-IsCounted now k.kind n now (omega arith);
        },
        tt,
      ))
