-- ===== src/Prelude/Action.antt =====
-- Calls that keep a state and may throw. What was written before a throw stays written; a
-- transaction takes it back.
use elder_interview_ai.Prelude.Tests.{if◌then◌else◌}
use mathlib.Core.Path.{◌≡◌, refl, subst}
use mathlib.Core.Bool.{Bool, true, false}
use mathlib.Core.Logic.{◌⊎◌, inl, inr}
use mathlib.Core.Option.{Option, none, some}

pub data Result (E A : Type 0) : Type 0 where
  ok : A → Result E A
  err : E → Result E A

abbrev pub Action : Type 0 → Type 0 → Type 0 → Type 0
Action S E A = S → Result E A × S

module _ {S E : Type 0} where
  abbrev pub bind_result : {A B : Type 0} → (A → Action S E B) → Result E A → S → Result E B × S
  bind_result f (ok a) s = f a s
  bind_result f (err e) s = (err e, s)

  infixl 5 ◌>>=◌ ◌>>◌
  abbrev pub ◌>>=◌ : {A B : Type 0} → Action S E A → (A → Action S E B) → Action S E B
  ◌>>=◌ m f s = bind_result f (m s).0 (m s).1

  abbrev pub ◌>>◌ : {A B : Type 0} → Action S E A → Action S E B → Action S E B
  m >> k = m >>= λ _. k

  abbrev pub pure : {A : Type 0} → A → Action S E A
  pure a s = (ok a, s)

  abbrev pub throw : {A : Type 0} → E → Action S E A
  throw e s = (err e, s)

  -- `if (c) throw e;`
  abbrev pub throw_if : Bool → E → Action S E (Unit {0})
  throw_if c e s = (if c then err e else ok tt, s)

  -- The value, or a throw where there is none.
  abbrev pub require : {A : Type 0} → Option A → E → Action S E A
  require none e s = (err e, s)
  require (some a) e s = (ok a, s)

  abbrev pub gets : {A : Type 0} → (S → A) → Action S E A
  gets f s = (ok (f s), s)

  abbrev pub modify : (S → S) → Action S E (Unit {0})
  modify f s = (ok tt, f s)

  abbrev pub catch_result : {A : Type 0} → (E → Action S E A) → Result E A → S → Result E A × S
  catch_result h (ok a) s = (ok a, s)
  catch_result h (err e) s = h e s

  -- `try { m } catch (e) { h e }`
  abbrev pub catch : {A : Type 0} → Action S E A → (E → Action S E A) → Action S E A
  catch m h s = catch_result h (m s).0 (m s).1

module _ {S E A B : Type 0} where
  bind_result-ok :
      (f : A → Action S E B) (r : Result E A) (u t : S) (b : B)
      → bind_result f r u ≡ (ok b, t)
      → (a : A) × (r ≡ ok a) × (f a u ≡ (ok b, t))
  bind_result-ok f (ok a) u t b h = (a, refl, h)
  bind_result-ok f (err e) u t b h = cc

  -- Inversion of a successful bind.
  pub >>=-ok :
      (m : Action S E A) (f : A → Action S E B) (s t : S) (b : B)
      → (m >>= f) s ≡ (ok b, t)
      → (a : A) × (u : S) × (m s ≡ (ok a, u)) × (f a u ≡ (ok b, t))
  >>=-ok m f s t b h = let (a, p, q) = bind_result-ok f (m s).0 (m s).1 t b h in (a, (m s).1, cc, q)

module _ {S E A : Type 0} where
  rethrown :
      (g : E → E) (r : Result E A) (u t : S) (b : A)
      → catch_result (λ e. throw (g e)) r u ≡ (ok b, t)
      → (r ≡ ok b) × (u ≡ t)
  rethrown g (ok a) u t b h = (cc, cc)
  rethrown g (err e) u t b h = cc

  -- Inversion of a handler that throws in each case.
  pub catch-ok :
      (m : Action S E A) (g : E → E) (s t : S) (b : A)
      → catch m (λ e. throw (g e)) s ≡ (ok b, t)
      → m s ≡ (ok b, t)
  catch-ok m g s t b h = let (p, q) = rethrown g (m s).0 (m s).1 t b h in cc

  pub require-ok :
      (o : Option A) (e : E) (s t : S) (a : A) → require o e s ≡ (ok a, t) → (o ≡ some a) × (t ≡ s)
  require-ok none e s t a h = cc
  require-ok (some b) e s t a h = (cc, cc)

module _ {S E B : Type 0} where
  -- A chain that ends with an answer has passed its test.
  pub throw_if->>=-ok :
      (c : Bool) (e : E) (k : Unit {0} → Action S E B) (s t : S) (b : B)
      → (throw_if c e >>= k) s ≡ (ok b, t)
      → (c ≡ false) × (k tt s ≡ (ok b, t))
  throw_if->>=-ok false e k s t b h = (refl, h)
  throw_if->>=-ok true e k s t b h = cc

module _ {S E A B : Type 0} where
  -- It has found what it required.
  pub require->>=-ok :
      (o : Option A) (e : E) (k : A → Action S E B) (s t : S) (b : B)
      → (require o e >>= k) s ≡ (ok b, t)
      → (a : A) × (o ≡ some a) × (k a s ≡ (ok b, t))
  require->>=-ok none e k s t b h = cc
  require->>=-ok (some a) e k s t b h = (a, refl, h)

  -- A chain whose first part writes nothing goes on from the same state.
  pub read->>=-ok :
      (m : Action S E A) (k : A → Action S E B) (s t : S) (b : B)
      → (m s).1 ≡ s
      → (m >>= k) s ≡ (ok b, t)
      → (a : A) × (m s ≡ (ok a, s)) × (k a s ≡ (ok b, t))
  read->>=-ok m k s t b same h =
      let (a, u, p, q) = >>=-ok m k s t b h in
      let e : u ≡ s = cc in (a, cc, subst (λ v. k a v ≡ (ok b, t)) e q)

module _ {S E A : Type 0} where
  caught_by :
      (h : E → Action S E A) (r : Result E A) (u t : S) (a : A)
      → catch_result h r u ≡ (ok a, t)
      → ((r ≡ ok a) × (u ≡ t)) ⊎ ((e : E) × (r ≡ err e) × (h e u ≡ (ok a, t)))
  caught_by h (ok b) u t a q = inl (cc, cc)
  caught_by h (err e) u t a q = inr (e, refl, q)

  -- A handled call that answers has answered itself, or its handler has.
  pub caught :
      (m : Action S E A) (h : E → Action S E A) (s t : S) (a : A)
      → catch m h s ≡ (ok a, t)
      → (m s ≡ (ok a, t)) ⊎ ((e : E) × (u : S) × (m s ≡ (err e, u)) × (h e u ≡ (ok a, t)))
  caught m h s t a q = elim (caught_by h (m s).0 (m s).1 t a q) [
    | inl (e, f) ↦ inl (cc)
    | inr (e, f, g) ↦ inr (e, (m s).1, cc, g)
  ]
