-- ===== src/Prelude/Rows.antt =====
-- Rows of a table, as Prisma's `findUnique`, `findFirst` and `updateMany` read and write them.
use mathlib.Core.Bool.{Bool, true, false}
use mathlib.Core.List.{List, [], ◌∷◌, ◌++◌}
use elder_interview_ai.Prelude.Tests.{Bool-cases}
use elder_interview_ai.Prelude.Lists.{any}
use mathlib.Core.Logic.{◌⊎◌, inl, inr}
use mathlib.Core.Option.{Option, none, some}
use mathlib.Core.Path.{◌≡◌, refl}
use native.Mathlib.Omega.{arith}

module _ {A : Type 0} where
  -- The first row that passes.
  unfoldable pub find : (A → Bool) → List A → Option A
  find p [] = none
  find p (x ∷ xs) = elim (p x) [ true ↦ some x | false ↦ find p xs ]

  -- Every row that passes, changed.
  unfoldable pub update_where : (A → Bool) → (A → A) → List A → List A
  update_where p f [] = []
  update_where p f (x ∷ xs) = elim (p x) [ true ↦ f x | false ↦ x ] ∷ update_where p f xs

  -- What is found passes.
  pub find-holds : (q : A → Bool) (xs : List A) (x : A) → find q xs ≡ some x → q x ≡ true
  unfolding find
  find-holds q [] x h = cc
  find-holds q (y ∷ ys) x h = ground (arith, find-holds q ys x)

  pub find-update_where-other :
      (q q' : A → Bool) (f : A → A) (xs : List A)
      → ((x : A) → q' x ≡ true → (q x ≡ false) × (q (f x) ≡ false))
      → find q (update_where q' f xs) ≡ find q xs
  unfolding find update_where
  find-update_where-other q q' f [] k = refl
  find-update_where-other q q' f (x ∷ xs) k = elim (Bool-cases (q' x)) [
    | inl e ↦ let (a, b) = k x e in ground (arith, e, a, b, find-update_where-other q q' f xs k)
    | inr e ↦ ground (arith, e, find-update_where-other q q' f xs k)
  ]

  pub find-append-other :
      (q : A → Bool) (xs : List A) (y : A) → q y ≡ false → find q (xs ++ y ∷ []) ≡ find q xs
  unfolding find
  find-append-other q [] y h = ground (arith, h)
  find-append-other q (x ∷ xs) y h = ground (arith, find-append-other q xs y h)

  pub find-append-new :
      (q : A → Bool) (xs : List A) (y : A)
      → find q xs ≡ none
      → q y ≡ true
      → find q (xs ++ y ∷ []) ≡ some y
  unfolding find
  find-append-new q [] y h e = ground (arith, e)
  find-append-new q (x ∷ xs) y h e = ground (arith, find-append-new q xs y, e, h)

  pub find-update_where-same :
      (q : A → Bool) (f : A → A) (xs : List A) (x : A)
      → ((y : A) → q y ≡ true → q (f y) ≡ true)
      → find q xs ≡ some x
      → find q (update_where q f xs) ≡ some (f x)
  unfolding find update_where
  find-update_where-same q f [] x k h = cc
  find-update_where-same q f (y ∷ ys) x k h = elim (Bool-cases (q y)) [
    | inl e ↦ ground (arith, e, k y e, h)
    | inr e ↦ ground (arith, e, h, find-update_where-same q f ys x k)
  ]

  pub any-find-none : (q : A → Bool) (xs : List A) → find q xs ≡ none → any q xs ≡ false
  unfolding find
  any-find-none q [] h = refl
  any-find-none q (x ∷ xs) h = ground (arith, any-find-none q xs)

  pub any-find-some : (q : A → Bool) (xs : List A) (x : A) → find q xs ≡ some x → any q xs ≡ true
  unfolding find
  any-find-some q [] x h = cc
  any-find-some q (y ∷ ys) x h = ground (arith, any-find-some q ys x)

  pub find-append :
      (q : A → Bool) (xs ys : List A) (x : A) → find q xs ≡ some x → find q (xs ++ ys) ≡ some x
  unfolding find
  find-append q [] ys x h = cc
  find-append q (y ∷ xs) ys x h = ground (arith, find-append q xs ys x)

  -- A row that was found is found, as it was or changed.
  pub found-updated :
      (q q' : A → Bool) (f : A → A) (xs : List A) (x : A)
      → ((y : A) → q (f y) ≡ q y)
      → find q xs ≡ some x
      → (y : A) × (find q (update_where q' f xs) ≡ some y) × ((y ≡ x) ⊎ (y ≡ f x))
  unfolding find update_where
  found-updated q q' f [] x k h = cc
  found-updated q q' f (z ∷ zs) x k h = elim (Bool-cases (q z)) [
    | inl e ↦ elim (Bool-cases (q' z)) [
      | inl e' ↦ (f z, ground (arith, k z), inr (ground arith))
      | inr e' ↦ (z, ground arith, inl (ground arith))
    ]
    | inr e ↦
        let (y, g, w) = found-updated q q' f zs x k (ground arith) in (y, ground (arith, k z), w)
  ]

  -- A row that is found was found before, and is as it was or was to be changed.
  pub updated-found :
      (q q' : A → Bool) (f : A → A) (xs : List A) (y : A)
      → ((x : A) → q (f x) ≡ q x)
      → find q (update_where q' f xs) ≡ some y
      → (x : A) × (find q xs ≡ some x) × ((y ≡ x) ⊎ ((y ≡ f x) × (q' x ≡ true)))
  unfolding find update_where
  updated-found q q' f [] y k h = cc
  updated-found q q' f (z ∷ zs) y k h = elim (Bool-cases (q z)) [
    | inl e ↦ elim (Bool-cases (q' z)) [
      | inl e' ↦ (z, ground arith, inr (ground (arith, k z), e'))
      | inr e' ↦ (z, ground arith, inl (ground arith))
    ]
    | inr e ↦
        let (x, g, w) = updated-found q q' f zs y k (ground (arith, k z)) in (x, ground arith, w)
  ]
