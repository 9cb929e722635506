-- ===== src/Prelude/Keeping.antt =====
-- Calls that keep a relation between the state before and the state after, part by part.
use elder_interview_ai.Prelude.Action.{
  Result, ok, err, Action, ◌>>=◌, bind_result, catch, catch_result, throw_if, require,
}
use mathlib.Core.Path.{◌≡◌, refl, sym, subst}
use mathlib.Core.Bool.{Bool, true, false}
use mathlib.Core.Option.{Option, none, some}

module _ {S E : Type 0} (R : S → S → Type 0) (R_refl : (s : S) → R s s)
    (R_trans : (s t u : S) → R s t → R t u → R s u) where
  abbrev pub Keeps : {A : Type 0} → Action S E A → Type 0
  Keeps m = (s : S) → R s (m s).1

  module _ {A B : Type 0} where
    bound :
        (f : A → Action S E B)
        → ((a : A) → Keeps (f a))
        → (s u : S) → R s u
        → (r : Result E A) → R s (bind_result f r u).1
    bound f k s u p (ok a) = R_trans s u (f a u).1 p (k a u)
    bound f k s u p (err e) = p

    pub Keeps-bind :
        (m : Action S E A) (f : A → Action S E B)
        → Keeps m
        → ((a : A) → Keeps (f a))
        → Keeps (m >>= f)
    Keeps-bind m f k l s = bound f l s (m s).1 (k s) (m s).0

    -- At one state, with what was found there.
    pub Keeps-required :
        (o : Option A) (e : E) (k : A → Action S E B) (s : S)
        → ((a : A) → o ≡ some a → R s (k a s).1)
        → R s ((require o e >>= k) s).1
    Keeps-required none e k s h = R_refl s
    Keeps-required (some a) e k s h = h a refl

  module _ {B : Type 0} where
    pub Keeps-guard :
        (c : Bool) (e : E) (k : Unit {0} → Action S E B) → Keeps (k tt) → Keeps (throw_if c e >>= k)
    Keeps-guard true e k h s = R_refl s
    Keeps-guard false e k h s = h s

  module _ {A : Type 0} where
    handled :
        (h : E → Action S E A)
        → ((e : E) → Keeps (h e))
        → (s u : S) → R s u
        → (r : Result E A) → R s (catch_result h r u).1
    handled h k s u p (ok a) = p
    handled h k s u p (err e) = R_trans s u (h e u).1 p (k e u)

    pub Keeps-catch :
        (m : Action S E A) (h : E → Action S E A)
        → Keeps m
        → ((e : E) → Keeps (h e))
        → Keeps (catch m h)
    Keeps-catch m h k l s = handled h l s (m s).1 (k s) (m s).0

  -- A call that writes nothing.
  pub Keeps-reads : {A : Type 0} (m : Action S E A) → ((s : S) → (m s).1 ≡ s) → Keeps m
  Keeps-reads m same s = subst (R s) (sym (same s)) (R_refl s)
