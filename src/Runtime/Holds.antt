-- ===== src/Runtime/Holds.antt =====
-- A property of one runtime of realtime-runtime.service.ts that its methods keep holds after any
-- calls of the service.
use elder_interview_ai.Prelude.{
  ℕ, zero, suc, ◌≡◌, String, List, [], ◌∷◌, ◌++◌, some, arith, if◌then◌else◌, if_elim, eqb,
  get_elem?,
}
use elder_interview_ai.Runtime.Session.{SessionRuntime, prune, interrupted, rotated}
use elder_interview_ai.Runtime.Service.{System, modify_at, on_runtime, open_runtime, rotate_object}
use elder_interview_ai.Runtime.Calls.{SessionCall, perform, Call, run}
use elder_interview_ai.Runtime.Rule.{Write, performs, prunes, interrupts, Invariant, run_kept}

get_elem?-modify_at :
    {A : Type 0} (i ref : ℕ) (f : A → A) (xs : List A) (x : A)
    → get_elem? xs ref ≡ some x
    → get_elem? (modify_at i f xs) ref ≡ some (if eqb i ref then f x else x)
unfolding modify_at
get_elem?-modify_at i ref f [] x e = cc
get_elem?-modify_at zero zero f (y ∷ ys) x e = ground arith
get_elem?-modify_at zero (suc ref) f (y ∷ ys) x e = ground arith
get_elem?-modify_at (suc i) zero f (y ∷ ys) x e = ground arith
get_elem?-modify_at (suc i) (suc ref) f (y ∷ ys) x e =
    ground (arith, get_elem?-modify_at i ref f ys x e)

get_elem?-append :
    {A : Type 0} (ref : ℕ) (xs ys : List A) (x : A)
    → get_elem? xs ref ≡ some x
    → get_elem? (xs ++ ys) ref ≡ some x
get_elem?-append ref [] ys x e = cc
get_elem?-append zero (z ∷ xs) ys x e = e
get_elem?-append (suc ref) (z ∷ xs) ys x e = get_elem?-append ref xs ys x e

-- The object is there and has the property.
pub record Holds (P : SessionRuntime → Type 0) (ref : ℕ) (s : System) : Type 0 where
  pub object : SessionRuntime
  pub there : get_elem? s.runtimes ref ≡ some object
  pub property : P object

-- A property of one object that each method keeps.
pub record Kept (P : SessionRuntime → Type 0) : Type 0 where
  pub by_perform : (now : ℕ) (c : SessionCall) (r : SessionRuntime) → P r → P (perform now c r)
  pub by_prune : (now : ℕ) (r : SessionRuntime) → P r → P (prune now r)
  pub by_interrupted : (now : ℕ) (r : SessionRuntime) → P r → P (interrupted now r)
  pub by_rotated :
      (now : ℕ) (speaker : String) (r : SessionRuntime) → P r → P (rotated now speaker r)

module _ (P : SessionRuntime → Type 0) (ref : ℕ) (k : Kept P) where
  modified :
      (i : ℕ) (f : SessionRuntime → SessionRuntime) (s : System)
      → ((r : SessionRuntime) → P r → P (f r))
      → Holds P ref s
      → Holds P ref (record s { runtimes = modify_at i f s.runtimes })
  modified i f s keeps h = record {
    object = if eqb i ref then f h.object else h.object;
    there = get_elem?-modify_at i ref f s.runtimes h.object h.there;
    property = if_elim P (eqb i ref) (keeps h.object h.property) h.property;
  }

  on_runtime-Holds :
      (now i : ℕ) (f : SessionRuntime → SessionRuntime) (s : System)
      → Write now f
      → Holds P ref s
      → Holds P ref (on_runtime i f s)
  on_runtime-Holds now i f s (performs c) h = modified i f s (k.by_perform now c) h
  on_runtime-Holds now i f s prunes h = modified i f s (k.by_prune now) h
  on_runtime-Holds now i f s interrupts h = modified i f s (k.by_interrupted now) h

  rotate_object-Holds :
      (now : ℕ) (speaker : String) (i : ℕ) (r : SessionRuntime) (s : System)
      → Holds P ref s
      → Holds P ref (rotate_object now speaker i (some r) s)
  rotate_object-Holds now speaker i r s h =
      let g = modified i (rotated now speaker) s (k.by_rotated now speaker) h in
      record { object = g.object; there = g.there; property = g.property }

  open_runtime-Holds :
      (now : ℕ) (session audio generation speaker event_stream : String) (offset : ℕ) (s : System)
      → Holds P ref s
      → Holds P ref (open_runtime now session audio generation speaker event_stream offset s).0
  unfolding open_runtime
  open_runtime-Holds now session audio generation speaker event_stream offset s h = record {
    object = h.object;
    there = get_elem?-append ref s.runtimes _ h.object h.there;
    property = h.property;
  }

  Holds-Invariant : Invariant (λ now. Holds P ref)
  Holds-Invariant = record {
    by_write = on_runtime-Holds;
    by_rotation = rotate_object-Holds;
    by_opening = open_runtime-Holds;
  }

  pub run-Holds : (cs : List (ℕ × Call)) (s : System) → Holds P ref s → Holds P ref (run cs s)
  run-Holds cs s h = run_kept (Holds P ref) Holds-Invariant cs s h
