-- ===== src/Finalization/Stops.antt =====
-- A stop by apps/api/src/project-foundation/session-finalization.service.ts changes nothing that was
-- fixed and completes no session.
use elder_interview_ai.Prelude.{
  ◌≡◌, refl, Bool-cases, inl, inr, if_elim, arith, ℕ, ◌+◌, ◌/◌, Bool, not, ◌&&◌, ◌||◌, String, List,
  [], ◌∷◌, ◌++◌, Option, none, some, if◌then◌else◌, any, keep, ◌==◌,
}
use elder_interview_ai.Prelude.Action.{Result, ok, err, ◌>>=◌, pure, throw_if, require, modify}
use elder_interview_ai.Capture.Tables
use elder_interview_ai.Capture.Tables.{
  CaptureGenerationStatus, stopping, stopped, preparing, active,
}
use elder_interview_ai.AudioServer.Tables.{AudioChunk, Commitment}
use elder_interview_ai.Finalization.Tables.{
  InterviewSession, SessionFinalization, Snapshot, IdempotencyRecord, State, Failure, conflict,
  forbidden, not_found, no_row, repeated, Call, Actor, StopSessionRequest, Services,
}
use elder_interview_ai.Finalization.Access.{
  transaction, log, assert_role, find_session, find_finalization, find_object, read_snapshot,
  is_capturing, validate_commitments, find_record, write_stop_idempotency, current_gate,
}
use elder_interview_ai.Prelude.Keeping
use elder_interview_ai.Finalization.Freeze.{
  Outcome, denied, answered, action_of, is_same_freeze, replay_stop, conclude, stop_again,
  interrupt_session, is_object_of, all_agree, last, clashes, new_finalization, create_finalization,
  stop_rows, freeze_object, is_legal, freeze_fresh, freeze_replay, freeze_session, is_denied,
  freeze,
}
use elder_interview_ai.Finalization.Access.{undo}
use elder_interview_ai.Finalization.Honest.{
  Goes, Goes-refl, Goes-trans, Goes-same, Goes-updated, same-AreFrozen, added-AreFrozen,
}

module _ (v : Services) where
  abbrev pub Keeps : {A : Type 0} → Call A → Type 0
  Keeps m = (s : State) → Goes v s (m s).1

  pub Keeps-bind :
      {A B : Type 0} (m : Call A) (f : A → Call B)
      → Keeps m
      → ((a : A) → Keeps (f a))
      → Keeps (m >>= f)
  Keeps-bind m f k l = Keeping.Keeps-bind (Goes v) (Goes-refl v) (Goes-trans v) m f k l

  Keeps-guard :
      {B : Type 0} (c : Bool) (e : Failure) (k : Unit {0} → Call B)
      → Keeps (k tt)
      → Keeps (throw_if c e >>= k)
  Keeps-guard c e k h = Keeping.Keeps-guard (Goes v) (Goes-refl v) (Goes-trans v) c e k h

  pub Keeps-required :
      {A B : Type 0} (o : Option A) (e : Failure) (k : A → Call B) (s : State)
      → ((a : A) → o ≡ some a → Goes v s (k a s).1)
      → Goes v s ((require o e >>= k) s).1
  Keeps-required o e k s h = Keeping.Keeps-required (Goes v) (Goes-refl v) (Goes-trans v) o e k s h

  Keeps-reads : {A : Type 0} (m : Call A) → ((s : State) → (m s).1 ≡ s) → Keeps m
  Keeps-reads m h = Keeping.Keeps-reads (Goes v) (Goes-refl v) (Goes-trans v) m h

  -- A write of other tables.
  other_write :
      (s t : State)
      → t.audio_objects ≡ s.audio_objects
      → t.audio_chunks ≡ s.audio_chunks
      → t.finalizations ≡ s.finalizations
      → t.sessions ≡ s.sessions
      → Goes v s t
  other_write s t a b c d = Goes-same v s t (same-AreFrozen v s t a b c) d

  pub undone :
      {A : Type 0} (s u : State) → Goes v s u → (r : Result Failure A) → Goes v s (undo r u s).1
  undone s u p (ok a) = p
  undone s u p (err e) = other_write s (record s { interrupts = u.interrupts }) refl refl refl refl

  pub Keeps-transaction : {A : Type 0} (m : Call A) → Keeps m → Keeps (transaction m)
  Keeps-transaction m k s = undone s (m s).1 (k s) (m s).0

  assert_role-Keeps : (actor : Actor) → Keeps (assert_role actor)
  unfolding assert_role
  assert_role-Keeps actor s =
      if_elim (λ (w : Result Failure (Unit {0}) × State). Goes v s w.1) actor.is_interviewer
        (Goes-refl v s) (other_write s (log _ s) refl refl refl refl)

  validate_commitments-Keeps : (input : StopSessionRequest) → Keeps (validate_commitments input)
  unfolding validate_commitments
  validate_commitments-Keeps input = Keeps-reads (validate_commitments input) (λ s. ground arith)

  read_snapshot-Keeps : (id : String) → Keeps (read_snapshot id)
  unfolding read_snapshot
  read_snapshot-Keeps id s = Keeps-required (find_session id s) no_row _ s (λ a e. Goes-refl v s)

  write_stop_idempotency-Keeps :
      (request_id action actor_id session_id : String) (snapshot : Snapshot)
      → Keeps (write_stop_idempotency request_id action actor_id session_id snapshot)
  unfolding write_stop_idempotency
  write_stop_idempotency-Keeps request_id action actor_id session_id snapshot s =
      elim (Bool-cases
        (any (λ (r : IdempotencyRecord). r.request_id == request_id) s.idempotency_records)) [
          | inl e ↦ rw e (Goes-refl v s)
          | inr e ↦ rw e (other_write s _ refl refl refl refl)
        ]

  module _ (w : Services) (actor : Actor) (input : StopSessionRequest)
      (was_interrupted : Bool) where
    conclude-Keeps :
        (session_id id : String) → Keeps (conclude w actor session_id input was_interrupted id)
    conclude-Keeps session_id id =
        let record_it = λ (x : Snapshot).
          write_stop_idempotency input.request_id (action_of was_interrupted) actor.id session_id
            x in
        Keeps-bind (read_snapshot session_id)
          (λ x. record_it x >>= λ _. pure (answered (some id) x)) (read_snapshot-Keeps session_id)
          (λ x.
            Keeps-bind (record_it x) (λ _. pure (answered (some id) x))
              (write_stop_idempotency-Keeps input.request_id (action_of was_interrupted) actor.id
                session_id x)
              (λ _. Goes-refl v))

    stop_again-Keeps :
        (session_id : String) (f : SessionFinalization)
        → Keeps (stop_again w actor session_id input was_interrupted f)
    stop_again-Keeps session_id f =
        let rest : Call Outcome = conclude w actor session_id input was_interrupted f.id in
        let other : Bool = not actor.is_active || not (actor.id == f.created_by) in
        Keeps-guard (not (is_same_freeze w input f)) (conflict "SESSION_STOP_CONFLICT")
          (λ _. throw_if other forbidden >>= λ _. rest)
          (Keeps-guard other forbidden (λ _. rest) (conclude-Keeps session_id f.id))

    create_finalization-Keeps : (f : SessionFinalization) → Keeps (create_finalization w f)
    unfolding create_finalization
    create_finalization-Keeps f s =
        let add : Call (Unit {0}) =
          modify (λ u. record u { finalizations = u.finalizations ++ f ∷ [] }) in
        Keeps-guard (any (clashes w f) s.finalizations) repeated (λ _. add)
          (λ u. Goes-same v u (add u).1 (added-AreFrozen v f u (add u).1 refl refl refl) refl) s

    interrupt_session-Keeps : (id : String) → Keeps (interrupt_session w id)
    interrupt_session-Keeps id s =
        Goes-updated v (λ (x : InterviewSession). x.id == id && is_capturing x.status)
          (λ (x : InterviewSession). record x { status = Tables.interrupted }) s _ (λ x. refl)
          (λ x q c. absurd (ground (arith, c))) (same-AreFrozen v s _ refl refl refl) refl

    stop_rows-Keeps :
        (session_id : String) (ended_at duration : ℕ)
        → Keeps (modify {E = Failure} (stop_rows w actor session_id input ended_at duration))
    stop_rows-Keeps session_id ended_at duration s =
        Goes-updated v (λ (x : InterviewSession). x.id == session_id)
          (λ (x : InterviewSession). record x {
            duration_seconds = some duration;
            ended_at = some ended_at;
            status = stopping;
          })
          s _ (λ x. refl) (λ x q c. absurd (ground (arith, c)))
          (same-AreFrozen v s _ refl refl refl) refl

    freeze_object-Keeps :
        (session : InterviewSession) → Keeps (freeze_object w actor session input was_interrupted)
    unfolding freeze_object
    freeze_object-Keeps session s =
        let uploaded : List AudioChunk =
          keep (λ (c : AudioChunk). c.audio_object_id == input.audio_object_id) s.audio_chunks in
        let not_stoppable : Failure = conflict "SESSION_NOT_STOPPABLE" in
        let end : Call Outcome = conclude w actor session.id input was_interrupted w.fresh_id in
        let make = λ (k : Commitment) (at : ℕ).
          create_finalization w (new_finalization w actor session.id input (at + k.end_ms)) in
        let rows = λ (k : Commitment) (at : ℕ).
          modify {E = Failure}
            (stop_rows w actor session.id input (at + k.end_ms) ((k.end_ms + 999) / 1000)) in
        Keeps-guard (not (all_agree w input.chunks uploaded)) (conflict "AUDIO_COMMITMENT_CONFLICT")
          (λ _. require (last w input.chunks) not_stoppable >>= λ k.
            require session.started_at not_stoppable >>= λ at.
            make k at >>= λ _. rows k at >>= λ _. end)
          (λ u.
            Keeps-required (last w input.chunks) not_stoppable
              (λ k. require session.started_at not_stoppable >>= λ at.
                make k at >>= λ _. rows k at >>= λ _. end)
              u
              (λ k e.
                Keeps-required session.started_at not_stoppable
                  (λ at. make k at >>= λ _. rows k at >>= λ _. end) u
                  (λ at e'.
                    Keeps-bind (make k at) (λ _. rows k at >>= λ _. end)
                      (create_finalization-Keeps
                        (new_finalization w actor session.id input (at + k.end_ms)))
                      (λ _.
                        Keeps-bind (rows k at) (λ _. end)
                          (stop_rows-Keeps session.id (at + k.end_ms) ((k.end_ms + 999) / 1000))
                          (λ _. conclude-Keeps session.id w.fresh_id))
                      u)))
          s

    freeze_fresh-Keeps :
        (session : InterviewSession) → Keeps (freeze_fresh w actor session input was_interrupted)
    unfolding freeze_fresh
    freeze_fresh-Keeps session s =
        if_elim (λ (m : Call Outcome). Goes v s (m s).1) (current_gate w actor session.project_id s)
          (Keeps-guard (not (is_legal w was_interrupted session)) (conflict "SESSION_NOT_STOPPABLE")
            (λ _ u.
              (if is_object_of w actor session (find_object input.audio_object_id u)
                  then freeze_object w actor session input was_interrupted
                  else pure denied)
                u)
            (λ u.
              if_elim (λ (m : Call Outcome). Goes v u (m u).1)
                (is_object_of w actor session (find_object input.audio_object_id u))
                (freeze_object-Keeps session u) (Goes-refl v u))
            s)
          (interrupt_session-Keeps session.id s)

    freeze_replay-Keeps :
        (session : InterviewSession) (existing : Option SessionFinalization)
        (r : Option IdempotencyRecord)
        → Keeps (freeze_replay w actor session input was_interrupted existing r)
    freeze_replay-Keeps session none none = freeze_fresh-Keeps session
    freeze_replay-Keeps session (some f) none = stop_again-Keeps session.id f
    freeze_replay-Keeps session existing (some r) =
        Keeps-reads (replay_stop w actor session.id input was_interrupted existing r)
          (λ s. ground arith)

    freeze_session-Keeps :
        (session_id : String) → Keeps (freeze_session w actor session_id input was_interrupted)
    unfolding freeze_session
    freeze_session-Keeps session_id s =
        Keeps-required (find_session session_id s) not_found
          (λ x u.
            freeze_replay w actor x input was_interrupted (find_finalization session_id u)
              (find_record input.request_id u) u)
          s
          (λ x e.
            freeze_replay-Keeps x (find_finalization session_id s) (find_record input.request_id s)
              s)

    pub freeze-Keeps :
        (session_id : String) → Keeps (freeze w actor session_id input was_interrupted)
    unfolding freeze
    freeze-Keeps session_id =
        let m : Call Outcome = freeze_session w actor session_id input was_interrupted in
        let told : Call (Unit {0}) =
          modify (λ s. record s { interrupts = session_id ∷ s.interrupts }) in
        let rest =
          λ (o : Outcome). throw_if (is_denied w o) forbidden >>= λ _. told >>= λ _. pure o in
        Keeps-bind (assert_role actor)
          (λ _. validate_commitments input >>= λ _. transaction m >>= rest)
          (assert_role-Keeps actor)
          (λ _.
            Keeps-bind (validate_commitments input) (λ _. transaction m >>= rest)
              (validate_commitments-Keeps input)
              (λ _.
                Keeps-bind (transaction m) rest
                  (Keeps-transaction m (freeze_session-Keeps session_id))
                  (λ o.
                    Keeps-guard (is_denied w o) forbidden (λ _. told >>= λ _. pure o)
                      (λ s. other_write s (told s).1 refl refl refl refl))))
