-- ===== src/Capture/Again.antt =====
-- A request that comes again to apps/api/src/project-foundation/session-capture.service.ts, after any
-- other calls.
use elder_interview_ai.Prelude.{
  ◌≡◌, refl, sym, ap, subst, ◌∙◌, arith, false, String, List, [], ◌∷◌, any, if_elim,
}
use elder_interview_ai.Prelude.Action.{
  Result, ok, err, bind_result, ◌>>=◌, ◌>>◌, pure, require, >>=-ok, require->>=-ok,
}
use elder_interview_ai.Prelude.Keeping
use elder_interview_ai.Capture.Tables.{
  SessionCaptureGeneration, Snapshot, State, Failure, conflict, not_found,
}
use elder_interview_ai.Capture.Common.{
  Call, Actor, Services, interviewer, is_interviewer, transaction, keep_or_undo, assert_role,
  find_session, current_capture, lock_capture, is_audit_of, replay, replay_or,
}
use elder_interview_ai.Capture.Service.{
  confirm_active, report_interrupted, note_interrupt, confirm_action, confirm_metadata,
  interrupted_action, interrupted_metadata, abandon_action, resume_action, confirm_fresh,
  interrupt_fresh,
}
use elder_interview_ai.Capture.Abandon.{abandon_empty, abandon_fresh, abandon_metadata}
use elder_interview_ai.Capture.Resume.{resume, resume_fresh, resume_expected}
use elder_interview_ai.Capture.Extends.{
  Extends, Extends-refl, Extends-trans, other_tables-Extends, new_audit-Extends,
}
use elder_interview_ai.Capture.Ends.{
  confirm_fresh-HasEnd, interrupt_fresh-HasEnd, abandon_fresh-HasEnd, resume_fresh-HasEnd,
}
use elder_interview_ai.Capture.Generations.{committed}
use elder_interview_ai.Capture.Answered.{
  IsAnswered, IsAnswered-later, replayed, first-IsAnswered, body_of-IsQuiet, locked-there,
  locked-again, lock_capture-reads, request_of, action_of, expected_of, body_of, some_of, told,
}
use elder_interview_ai.Capture.Errors.{
  CaptureCall, confirms, reports, abandons, resumes, perform, entered,
}

-- Behind a lock that is taken.
after_lock :
    {A : Type 0} (lock : Call A) (k : A → Call Snapshot) (x : Snapshot) (t u : State) (a : A)
    → lock t ≡ (ok a, t)
    → k a t ≡ (ok x, u)
    → (lock >>= k) t ≡ (ok x, u)
after_lock {A} lock k x t u a p q =
    ap (λ (y : Result Failure A × State). bind_result k y.0 y.1) p ∙ q

module _ (v : Services) (actor : Actor) (session_id : String) where
  abbrev Answers : CaptureCall → Snapshot → State → Type 0
  Answers c x t = IsAnswered (action_of c) (request_of c) actor session_id (expected_of c) x t

  body_of-IsAnswered :
      (c : CaptureCall) (x : Snapshot) (s t : State)
      → any (is_audit_of (action_of c) session_id (request_of c)) s.audit_logs ≡ false
      → body_of v actor session_id c s ≡ (ok x, t)
      → Answers c x t
  body_of-IsAnswered (confirms input) x s t new h =
      first-IsAnswered confirm_action input.request_id actor session_id (confirm_metadata input)
        (lock_capture session_id)
        (λ locked. confirm_fresh v actor session_id input locked.0 locked.1) x s t
        (lock_capture-reads v actor session_id s) (locked-there v actor session_id s)
        (subst (Extends s) (ap (λ (r : Result Failure Snapshot × State). r.1) h)
          (body_of-IsQuiet v actor session_id (confirms input) s).1)
        (λ a k. confirm_fresh-HasEnd v actor session_id input a.0 a.1 s t x k) new h
  body_of-IsAnswered (reports input) x s t new h =
      first-IsAnswered interrupted_action input.request_id actor session_id
        (interrupted_metadata input) (lock_capture session_id)
        (λ locked. interrupt_fresh v actor session_id input locked.0 locked.1) x s t
        (lock_capture-reads v actor session_id s) (locked-there v actor session_id s)
        (subst (Extends s) (ap (λ (r : Result Failure Snapshot × State). r.1) h)
          (body_of-IsQuiet v actor session_id (reports input) s).1)
        (λ a k. interrupt_fresh-HasEnd v actor session_id input a.0 a.1 s t x k) new h
  body_of-IsAnswered (abandons input) x s t new h =
      first-IsAnswered abandon_action input.request_id actor session_id (abandon_metadata input)
        (lock_capture session_id)
        (λ locked. abandon_fresh v actor session_id input locked.0 locked.1) x s t
        (lock_capture-reads v actor session_id s) (locked-there v actor session_id s)
        (subst (Extends s) (ap (λ (r : Result Failure Snapshot × State). r.1) h)
          (body_of-IsQuiet v actor session_id (abandons input) s).1)
        (λ a k. abandon_fresh-HasEnd v actor session_id input a.0 a.1 s t x k) new h
  body_of-IsAnswered (resumes input) x s t new h =
      let go : SessionCaptureGeneration → Call Snapshot = λ capture.
        replay input.request_id resume_action actor session_id >>= λ earlier.
        replay_or (resume_expected input) earlier (resume_fresh v actor session_id input capture) in
      let e = conflict "SESSION_NOT_RECOVERABLE" in
      let (location, p, h1) =
        require->>=-ok (find_session session_id s) not_found
          (λ _ u. (require (current_capture session_id u) e >>= go) u) s t x h in
      let (capture, q, h2) = require->>=-ok (current_capture session_id s) e go s t x h1 in
      first-IsAnswered resume_action input.request_id actor session_id (resume_expected input)
        (pure capture) (resume_fresh v actor session_id input) x s t refl
        (λ a k. (ground (arith, p), ground (arith, q)))
        (subst (Extends s) (ap (λ (r : Result Failure Snapshot × State). r.1) h)
          (body_of-IsQuiet v actor session_id (resumes input) s).1)
        (λ a k. resume_fresh-HasEnd v actor session_id input a s t x k) new h2

  body_of-again :
      (c : CaptureCall) (x : Snapshot) (t : State)
      → Answers c x t
      → body_of v actor session_id c t ≡ (ok x, t)
  body_of-again (confirms input) x t a =
      let (locked, p) = locked-again v actor session_id t a.session a.capture in
      after_lock (lock_capture session_id) _ x t t locked p (
        replayed confirm_action input.request_id actor session_id (confirm_metadata input) x t
          (confirm_fresh v actor session_id input locked.0 locked.1) a)
  body_of-again (reports input) x t a =
      let (locked, p) = locked-again v actor session_id t a.session a.capture in
      after_lock (lock_capture session_id) _ x t t locked p (
        replayed interrupted_action input.request_id actor session_id (interrupted_metadata input) x
          t (interrupt_fresh v actor session_id input locked.0 locked.1) a)
  body_of-again (abandons input) x t a =
      let (locked, p) = locked-again v actor session_id t a.session a.capture in
      after_lock (lock_capture session_id) _ x t t locked p (
        replayed abandon_action input.request_id actor session_id (abandon_metadata input) x t
          (abandon_fresh v actor session_id input locked.0 locked.1) a)
  body_of-again (resumes input) x t a =
      let (location, p) = some_of (find_session session_id t) a.session in
      let (capture, q) = some_of (current_capture session_id t) a.capture in
      let go : SessionCaptureGeneration → Call Snapshot = λ z.
        replay input.request_id resume_action actor session_id >>= λ earlier.
        replay_or (resume_expected input) earlier (resume_fresh v actor session_id input z) in
      let e = conflict "SESSION_NOT_RECOVERABLE" in
      after_lock (require (find_session session_id t) not_found)
        (λ _ u. (require (current_capture session_id u) e >>= go) u) x t t location
        (ap (λ o. require o not_found t) p)
        (after_lock (require (current_capture session_id t) e) go x t t capture
          (ap (λ o. require o e t) q)
          (replayed resume_action input.request_id actor session_id (resume_expected input) x t
            (resume_fresh v actor session_id input capture) a))

kept-Extends :
    {A : Type 0} (s u : State)
    → Extends s u
    → (r : Result Failure A) → Extends s (keep_or_undo r u s).1
kept-Extends s u e (ok a) = e
kept-Extends s u e (err x) = other_tables-Extends s _ refl refl refl refl

module _ (v : Services) (actor : Actor) (session_id : String) where
  assert_role-Extends : (s : State) → Extends s (assert_role actor s).1
  unfolding assert_role
  assert_role-Extends s =
      if_elim (λ (r : Result Failure (Unit {0}) × State). Extends s r.1) (is_interviewer actor.role)
        (Extends-refl s) (new_audit-Extends _ s)

  transaction-Extends :
      (c : CaptureCall) (s : State) → Extends s (transaction (body_of v actor session_id c) s).1
  transaction-Extends c s =
      kept-Extends s (body_of v actor session_id c s).1 (body_of-IsQuiet v actor session_id c s).1
        (body_of v actor session_id c s).0

  abbrev noting : String → Snapshot → Call Snapshot
  noting stream x = note_interrupt session_id stream >> pure x

  noted-Extends :
      (stream : String) (c : CaptureCall) (s : State)
      → Extends s
          ((transaction (body_of v actor session_id c) >>= λ x.
              note_interrupt session_id stream >> pure x)
            s).1
  noted-Extends stream c =
      Keeping.Keeps-bind Extends Extends-refl Extends-trans
        (transaction (body_of v actor session_id c))
        (λ x. note_interrupt session_id stream >> pure x) (transaction-Extends c)
        (λ x s. other_tables-Extends s _ refl refl refl refl)

  -- No call takes a row away.
  perform-Extends : (c : CaptureCall) (s : State) → Extends s (perform v actor session_id c s).1
  unfolding confirm_active report_interrupted abandon_empty resume
  perform-Extends (confirms input) =
      Keeping.Keeps-bind Extends Extends-refl Extends-trans (assert_role actor)
        (λ _. transaction (body_of v actor session_id (confirms input))) assert_role-Extends
        (λ _. transaction-Extends (confirms input))
  perform-Extends (reports input) =
      Keeping.Keeps-bind Extends Extends-refl Extends-trans (assert_role actor)
        (λ _. transaction (body_of v actor session_id (reports input)) >>= λ x.
          note_interrupt session_id input.audio_stream_id >> pure x)
        assert_role-Extends (λ _. noted-Extends input.audio_stream_id (reports input))
  perform-Extends (abandons input) =
      Keeping.Keeps-bind Extends Extends-refl Extends-trans (assert_role actor)
        (λ _. transaction (body_of v actor session_id (abandons input)) >>= λ x.
          note_interrupt session_id input.audio_stream_id >> pure x)
        assert_role-Extends (λ _. noted-Extends input.audio_stream_id (abandons input))
  perform-Extends (resumes input) =
      Keeping.Keeps-bind Extends Extends-refl Extends-trans (assert_role actor)
        (λ _. transaction (body_of v actor session_id (resumes input))) assert_role-Extends
        (λ _. transaction-Extends (resumes input))

  told-Extends : (c : CaptureCall) (s : State) → Extends s (told session_id c s)
  told-Extends (confirms input) s = Extends-refl s
  told-Extends (reports input) s = other_tables-Extends s _ refl refl refl refl
  told-Extends (abandons input) s = other_tables-Extends s _ refl refl refl refl
  told-Extends (resumes input) s = Extends-refl s

  simply :
      (c : CaptureCall) (x : Snapshot) (s t : State)
      → transaction (body_of v actor session_id c) s ≡ (ok x, t)
      → (z : State) × (body_of v actor session_id c s ≡ (ok x, z)) × (t ≡ z)
  simply c x s t h =
      let r = body_of v actor session_id c s in
      let (p, q) = committed r.0 r.1 s t x h in (t, cc, refl)

  with_note :
      (c : CaptureCall) (stream : String) (x : Snapshot) (s t : State)
      → (transaction (body_of v actor session_id c) >>= noting stream) s ≡ (ok x, t)
      → (z : State) × (body_of v actor session_id c s ≡ (ok x, z))
        × (t ≡ record z { interrupts = (session_id, stream) ∷ z.interrupts })
  with_note c stream x s t h =
      let m : Call Snapshot = transaction (body_of v actor session_id c) in
      let (y, z, p, q) = >>=-ok m (noting stream) s t x h in
      let (w, e, same) = simply c y s z p in (z, cc, cc)

  -- An answered call is its transaction, and after it what the runtime is told.
  perform-body :
      (c : CaptureCall) (x : Snapshot) (s t : State)
      → actor.role ≡ interviewer
      → perform v actor session_id c s ≡ (ok x, t)
      → (z : State) × (body_of v actor session_id c s ≡ (ok x, z)) × (t ≡ told session_id c z)
  unfolding confirm_active report_interrupted abandon_empty resume
  perform-body (confirms input) x s t role h =
      simply (confirms input) x s t
        (sym (entered actor (transaction (body_of v actor session_id (confirms input))) s role) ∙ h)
  perform-body (reports input) x s t role h =
      with_note (reports input) input.audio_stream_id x s t (
        sym (
          entered actor
            (transaction (body_of v actor session_id (reports input))
              >>= noting input.audio_stream_id)
            s role)
        ∙ h)
  perform-body (abandons input) x s t role h =
      with_note (abandons input) input.audio_stream_id x s t (
        sym (
          entered actor
            (transaction (body_of v actor session_id (abandons input))
              >>= noting input.audio_stream_id)
            s role)
        ∙ h)
  perform-body (resumes input) x s t role h =
      simply (resumes input) x s t
        (sym (entered actor (transaction (body_of v actor session_id (resumes input))) s role) ∙ h)

  body-perform :
      (c : CaptureCall) (x : Snapshot) (t : State)
      → actor.role ≡ interviewer
      → body_of v actor session_id c t ≡ (ok x, t)
      → perform v actor session_id c t ≡ (ok x, told session_id c t)
  unfolding confirm_active report_interrupted abandon_empty resume
  body-perform (confirms input) x t role h =
      entered actor (transaction (body_of v actor session_id (confirms input))) t role
      ∙ ap (λ (r : Result Failure Snapshot × State). keep_or_undo r.0 r.1 t) h
  body-perform (reports input) x t role h =
      let m : Call Snapshot = transaction (body_of v actor session_id (reports input)) in
      let stream = input.audio_stream_id in
      entered actor (m >>= noting stream) t role
      ∙ after_lock m (noting stream) x t (told session_id (reports input) t) x
          (ap (λ (r : Result Failure Snapshot × State). keep_or_undo r.0 r.1 t) h) refl
  body-perform (abandons input) x t role h =
      let m : Call Snapshot = transaction (body_of v actor session_id (abandons input)) in
      let stream = input.audio_stream_id in
      entered actor (m >>= noting stream) t role
      ∙ after_lock m (noting stream) x t (told session_id (abandons input) t) x
          (ap (λ (r : Result Failure Snapshot × State). keep_or_undo r.0 r.1 t) h) refl
  body-perform (resumes input) x t role h =
      entered actor (transaction (body_of v actor session_id (resumes input))) t role
      ∙ ap (λ (r : Result Failure Snapshot × State). keep_or_undo r.0 r.1 t) h

-- A call by anyone, of any session.
pub record Asked : Type 0 where
  pub services : Services
  pub actor : Actor
  pub session_id : String
  pub call : CaptureCall

unfoldable pub calls : List Asked → State → State
calls [] s = s
calls (a ∷ more) s = calls more (perform a.services a.actor a.session_id a.call s).1

calls-Extends : (cs : List Asked) (s : State) → Extends s (calls cs s)
unfolding calls
calls-Extends [] s = Extends-refl s
calls-Extends (a ∷ more) s =
    let t = (perform a.services a.actor a.session_id a.call s).1 in
    Extends-trans s t (calls more t) (perform-Extends a.services a.actor a.session_id a.call s)
      (calls-Extends more t)

-- When a call by an interviewer whose request was not audited before is answered, the same request
-- of the same interviewer is answered with the same snapshot after any calls of anyone, whatever the
-- clock and the decisions then say. A confirmation and a resumption change nothing then; a report and
-- an abandonment only tell the runtime of the interruption once more.
pub perform-again :
    (v w : Services) (actor : Actor) (session_id : String) (c : CaptureCall) (x : Snapshot)
    (s t : State) (cs : List Asked)
    → actor.role ≡ interviewer
    → any (is_audit_of (action_of c) session_id (request_of c)) s.audit_logs ≡ false
    → perform v actor session_id c s ≡ (ok x, t)
    → let u = calls cs t in perform w actor session_id c u ≡ (ok x, told session_id c u)
perform-again v w actor session_id c x s t cs role new h =
    let u = calls cs t in
    let (z, p, e) = perform-body v actor session_id c x s t role h in
    let first = body_of-IsAnswered v actor session_id c x s z new p in
    let later : Extends z u =
      Extends-trans z t u (subst (Extends z) (sym e) (told-Extends v actor session_id c z))
        (calls-Extends cs t) in
    body-perform w actor session_id c x u role (
      body_of-again w actor session_id c x u (
        IsAnswered-later (action_of c) (request_of c) actor session_id (expected_of c) x z u later
          first))
