-- ===== src/Finalization/Ends.antt =====
-- Any stops, and any steps of the finalizations that go on, of
-- apps/api/src/project-foundation/session-finalization.service.ts, in any order.
use elder_interview_ai.Prelude.{
  ℕ, ◌≡◌, refl, sym, ap, subst, inl, inr, Bool, Option-cases, String, List, [], ◌∷◌, Option, none,
  some, get_elem?, All, All-get_elem?, All-map,
}
use elder_interview_ai.Prelude.Int.{ℤ}
use elder_interview_ai.Prelude.Action.{Result, ok, err}
use elder_interview_ai.Finalization.Tables.{State, Failure, Actor, StopSessionRequest, Services}
use elder_interview_ai.Finalization.Freeze.{freeze}
use elder_interview_ai.Finalization.Advance.{Drain, is_drained, prepare, settle}
use elder_interview_ai.Finalization.Frozen.{
  AreFrozen, AreFrozen-refl, AreFrozen-trans, IsWhole, IsWhole-later, IsHonest,
}
use elder_interview_ai.Finalization.Honest.{Goes}
use elder_interview_ai.Finalization.Stops.{freeze-Keeps}
use elder_interview_ai.Finalization.Completed.{moment, prepare-Keeps, prepare-IsWhole, settle-Goes}

-- The tables, and the finalizations whose speech is draining, with the sequence to drain up to.
pub record Server : Type 0 where
  pub state : State
  pub draining : List (String × ℤ)

-- A stop, its request answered or not; a finalization is looked at; the draining at a place ends.
pub data Step : Type 0 where
  stops : Actor → (session_id : String) → StopSessionRequest → (was_interrupted : Bool) → Step
  looks : (finalization_id : String) → Step
  drains : (index : ℕ) → Drain → Step

-- When a step happens, with the identifier for a new row and what the runtimes have acknowledged.
pub record Moment : Type 0 where
  pub now : ℕ
  pub fresh_id : String
  pub runtime : String → Option ℤ

abbrev at : Services → Moment → Services
at v m = moment v m.now m.fresh_id m.runtime

abbrev looked : Server → String → Result Failure (Option ℤ) × State → Server
looked r id (ok (some n), t) = record { state = t; draining = (id, n) ∷ r.draining }
looked r id (ok none, t) = record r { state = t }
looked r id (err e, t) = record r { state = t }

abbrev drained_at : Services → Server → Drain → Option (String × ℤ) → Server
drained_at v r d none = r
drained_at v r d (some (id, n)) = record r { state = (settle v id (is_drained n d) r.state).1 }

abbrev pub perform : Services → Moment × Step → Server → Server
perform v (m, stops actor session_id input was_interrupted) r = record r {
  state = (freeze (at v m) actor session_id input was_interrupted r.state).1;
}
perform v (m, looks id) r = looked r id (prepare (at v m) id r.state)
perform v (m, drains index d) r = drained_at (at v m) r d (get_elem? r.draining index)

unfoldable pub run : Services → List (Moment × Step) → Server → Server
run v [] r = r
run v (e ∷ es) r = run v es (perform v e r)

module _ (v : Services) where
  -- What drains has a whole recording.
  abbrev IsDraining : State → String × ℤ → Type 0
  IsDraining s (id, n) = (x : String) × IsWhole v id x s

  -- Every completed session, and every one that is draining, has a whole recording.
  pub record IsSound (r : Server) : Type 0 where
    pub honest : IsHonest v r.state
    pub draining : All (IsDraining r.state) r.draining

  IsDraining-later :
      (s t : State)
      → AreFrozen s t
      → (ps : List (String × ℤ)) → All (IsDraining s) ps
      → All (IsDraining t) ps
  IsDraining-later s t k ps h =
      All-map (IsDraining s) (IsDraining t) ps (λ (id, n) (x, w). (x, IsWhole-later v id x s t k w))
        h

  -- A step changes nothing that was fixed, and keeps soundness.
  record Moves (r u : Server) : Type 0 where
    frozen : AreFrozen r.state u.state
    sound : IsSound u

  moved : (r : Server) (t : State) → Goes v r.state t → IsSound r → Moves r (record r { state = t })
  moved r t g h = record {
    frozen = g.frozen;
    sound = record {
      honest = g.honest h.honest;
      draining = IsDraining-later r.state t g.frozen r.draining h.draining;
    };
  }

  looked-Moves :
      (r : Server) (id : String) (answer : Result Failure (Option ℤ)) (t : State)
      → Goes v r.state t
      → ((n : ℤ) → answer ≡ ok (some n) → (x : String) × IsWhole v id x r.state)
      → IsSound r
      → Moves r (looked r id (answer, t))
  looked-Moves r id (ok (some n)) t g k h =
      let (x, w) = k n refl in
      record {
        frozen = g.frozen;
        sound = record {
          honest = g.honest h.honest;
          draining = (
            (x, IsWhole-later v id x r.state t g.frozen w),
            IsDraining-later r.state t g.frozen r.draining h.draining,
          );
        };
      }
  looked-Moves r id (ok none) t g k h = moved r t g h
  looked-Moves r id (err e) t g k h = moved r t g h

  perform-Moves : (e : Moment × Step) (r : Server) → IsSound r → Moves r (perform v e r)
  perform-Moves (m, stops actor session_id input was_interrupted) r h =
      moved r _ (freeze-Keeps v (at v m) actor input was_interrupted session_id r.state) h
  perform-Moves (m, looks id) r h =
      let answer = (prepare (at v m) id r.state).0 in
      let t = (prepare (at v m) id r.state).1 in
      looked-Moves r id answer t (prepare-Keeps v m.now m.fresh_id m.runtime id r.state)
        (λ n e. prepare-IsWhole v m.now m.fresh_id m.runtime id n r.state t (ap (λ a. (a, t)) e)) h
  perform-Moves (m, drains index d) r h = elim (Option-cases (get_elem? r.draining index)) [
    | inl e ↦
        subst (λ o. Moves r (drained_at (at v m) r d o)) (sym e)
          (record { frozen = AreFrozen-refl r.state; sound = h })
    | inr ((id, n), e) ↦
        let (x, w) = All-get_elem? (IsDraining r.state) r.draining index (id, n) h.draining e in
        subst (λ o. Moves r (drained_at (at v m) r d o)) (sym e)
          (moved r _ (settle-Goes v m.now m.fresh_id m.runtime id x (is_drained n d) r.state w) h)
  ]

module _ (v : Services) where
  run-Moves : (es : List (Moment × Step)) (r : Server) → IsSound v r → Moves v r (run v es r)
  unfolding run
  run-Moves [] r h = record { frozen = AreFrozen-refl r.state; sound = h }
  run-Moves (e ∷ es) r h =
      let one = perform-Moves v e r h in
      let more = run-Moves es (perform v e r) one.sound in
      record {
        frozen =
            AreFrozen-trans r.state (perform v e r).state (run v es (perform v e r)).state
              one.frozen more.frozen;
        sound = more.sound;
      }

-- After any stops, and any steps of finalizations, at any times and in any order, every completed
-- session has a finalization whose commitments the complete manifest of its audio object matches, and
-- so has every session whose speech is draining; if this was so before.
pub run-IsSound :
    (v : Services) (es : List (Moment × Step)) (r : Server) → IsSound v r → IsSound v (run v es r)
run-IsSound v es r h = (run-Moves v es r h).sound

-- And every finalization is still there, of the same session, audio object and creator, with the same
-- commitments, count and digest; the audio objects and chunks are untouched.
pub run-AreFrozen :
    (v : Services) (es : List (Moment × Step)) (r : Server)
    → IsSound v r
    → AreFrozen r.state (run v es r).state
run-AreFrozen v es r h = (run-Moves v es r h).frozen
