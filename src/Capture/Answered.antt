-- ===== src/Capture/Answered.antt =====
-- What an answered call of apps/api/src/project-foundation/session-capture.service.ts leaves for a
-- replay, and that the replay finds it.
use elder_interview_ai.Prelude.{
  ◌≡◌, refl, ap, subst, ◌∙◌, arith, true, false, String, ◌∷◌, Option, some, none, any, is_some,
  String,
}
use elder_interview_ai.Prelude.Map.{Map}
use elder_interview_ai.Prelude.Rows.{any-find-some}
use elder_interview_ai.Prelude.Action.{
  Result, ok, throw_if->>=-ok, bind_result, ◌>>=◌, pure, require, gets, >>=-ok, require->>=-ok,
  read->>=-ok,
}
use elder_interview_ai.Capture.Tables.{
  InterviewSession, SessionCaptureGeneration, AuditLog, IdempotencyRecord, Json, Snapshot, State,
  Failure, find, conflict, not_found,
}
use elder_interview_ai.Capture.Common.{
  Call, Actor, Services, find_session, current_capture, lock_capture, is_record_of, is_audit_of,
  is_foreign, replay, replay_record, replay_or, metadata_matches,
}
use elder_interview_ai.Capture.Service.{
  confirm_action, confirm_metadata, interrupted_action, interrupted_metadata, abandon_action,
  resume_action, confirm_fresh, interrupt_fresh,
}
use elder_interview_ai.Capture.Abandon.{abandon_fresh, abandon_metadata}
use elder_interview_ai.Capture.Resume.{resume_fresh, resume_expected}
use elder_interview_ai.Capture.Extends.{Extends}
use elder_interview_ai.Capture.Interrupts.{IsQuiet, body-IsQuiet, lock_capture-IsQuiet}
use elder_interview_ai.Capture.Quiet.{
  confirm_fresh-IsQuiet, interrupt_fresh-IsQuiet, abandon_fresh-IsQuiet, resume_body-IsQuiet,
}
use elder_interview_ai.Capture.Ends.{HasEnd}
use elder_interview_ai.Capture.Replay.{concluded-found, the_record, the_audit}
use elder_interview_ai.Capture.Errors.{CaptureCall, confirms, reports, abandons, resumes}

-- The session and its capture are there, and so are the record of the request, with the answer, and
-- its audit, with what a replay is compared with.
pub record IsAnswered (action request_id : String) (actor : Actor) (session_id : String)
    (expected : Map Json) (x : Snapshot) (t : State) : Type 0 where
  pub session : is_some (find_session session_id t) ≡ true
  pub capture : is_some (current_capture session_id t) ≡ true
  pub row : IdempotencyRecord
  pub recorded : find (is_record_of request_id) t.idempotency_records ≡ some row
  pub own : is_foreign action actor session_id row ≡ false
  pub answer : row.response_payload ≡ x
  pub audit : AuditLog
  pub audited : find (is_audit_of action session_id request_id) t.audit_logs ≡ some audit
  pub matches : metadata_matches audit.metadata expected ≡ true

module _ (action request_id : String) (actor : Actor) (session_id : String)
    (expected : Map Json) where
  pub IsAnswered-later :
      (x : Snapshot) (s t : State)
      → Extends s t
      → IsAnswered action request_id actor session_id expected x s
      → IsAnswered action request_id actor session_id expected x t
  IsAnswered-later x s t e a = record {
    session = e.sessions session_id a.session;
    capture = e.captures session_id a.capture;
    row = a.row;
    recorded = e.records (is_record_of request_id) a.row a.recorded;
    own = a.own;
    answer = a.answer;
    audit = a.audit;
    audited = e.audits (is_audit_of action session_id request_id) a.audit a.audited;
    matches = a.matches;
  }

  replay-IsAnswered :
      (x : Snapshot) (t : State) (a : IsAnswered action request_id actor session_id expected x t)
      → replay request_id action actor session_id t ≡ (ok (some (a.audit.metadata, x)), t)
  unfolding replay
  replay-IsAnswered x t a = ground (arith, a.recorded, a.own, a.audited, a.answer)

  -- What follows the locks answers as before.
  pub replayed :
      (x : Snapshot) (t : State) (go : Call Snapshot)
      → IsAnswered action request_id actor session_id expected x t
      → (replay request_id action actor session_id >>= λ earlier. replay_or expected earlier go) t
        ≡ (ok x, t)
  replayed x t go a =
      let matched : replay_or expected (some (a.audit.metadata, x)) go t ≡ (ok x, t) =
        ground (arith, a.matches) in
      ap
        (λ (y : Result Failure (Option (Map Json × Snapshot)) × State).
          bind_result (λ earlier. replay_or expected earlier go) y.0 y.1)
        (replay-IsAnswered x t a)
      ∙ matched

  -- A request that was not audited is no replay.
  unseen :
      (found : Option IdempotencyRecord) (s t : State) (o : Option (Map Json × Snapshot))
      → any (is_audit_of action session_id request_id) s.audit_logs ≡ false
      → replay_record action actor session_id request_id found s ≡ (ok o, t)
      → (o ≡ none) × (t ≡ s)
  unseen none s t o new h = (cc, cc)
  unseen (some r) s t o new h =
      let seen = find (is_audit_of action session_id request_id) s.audit_logs in
      let e = conflict "IDEMPOTENCY_PAYLOAD_MISMATCH" in
      let rest : AuditLog → Call (Option (Map Json × Snapshot)) =
        λ a. pure (some (a.metadata, r.response_payload)) in
      let (_, h1) =
        throw_if->>=-ok (is_foreign action actor session_id r) (conflict "IDEMPOTENCY_KEY_REUSED")
          (λ _ u.
            (require (find (is_audit_of action session_id request_id) u.audit_logs) e >>= rest) u)
          s t o h in
      let (a, found, _) = require->>=-ok seen e rest s t o h1 in
      let known = any-find-some (is_audit_of action session_id request_id) s.audit_logs a found in
      cc

  -- A call that is answered for the first time leaves what a replay looks for.
  pub first-IsAnswered :
      {A : Type 0} (lock : Call A) (go : A → Call Snapshot) (x : Snapshot) (s t : State)
      → (lock s).1 ≡ s
      → ((a : A)
          → lock s ≡ (ok a, s)
          → (is_some (find_session session_id s) ≡ true)
            × (is_some (current_capture session_id s) ≡ true))
      → Extends s t
      → ((a : A) → go a s ≡ (ok x, t) → HasEnd action request_id actor session_id expected s t x)
      → any (is_audit_of action session_id request_id) s.audit_logs ≡ false
      → (lock >>= λ a. replay request_id action actor session_id >>= λ earlier.
            replay_or expected earlier (go a))
          s
        ≡ (ok x, t)
      → IsAnswered action request_id actor session_id expected x t
  unfolding replay
  first-IsAnswered {A} lock go x s t same there e ends new h =
      let after : A → Call Snapshot = λ a. replay request_id action actor session_id >>= λ earlier.
      replay_or expected earlier (go a) in
      let (a, p, h1) = read->>=-ok lock after s t x same h in
      let (o, u, q, h2) =
        >>=-ok (replay request_id action actor session_id)
          (λ earlier. replay_or expected earlier (go a)) s t x h1 in
      let (is_new, kept) =
        unseen (find (is_record_of request_id) s.idempotency_records) s u o new q in
      let goes : Option (Map Json × Snapshot) → State → Type 0 =
        λ y z. replay_or expected y (go a) z ≡ (ok x, t) in
      let fresh : go a s ≡ (ok x, t) = subst (λ y. goes y s) is_new (subst (goes o) kept h2) in
      let end = ends a fresh in
      let (recorded, own, audited) =
        concluded-found action request_id actor session_id end.metadata x end.before t end.concludes
          (ap (any (is_audit_of action session_id request_id)) end.audits ∙ new) in
      record {
        session = e.sessions session_id (there a p).0;
        capture = e.captures session_id (there a p).1;
        row = the_record action request_id actor session_id end.metadata x;
        recorded = recorded;
        own = own;
        answer = refl;
        audit = the_audit action request_id actor session_id end.metadata;
        audited = audited;
        matches = end.matches;
      }

abbrev pub request_of : CaptureCall → String
request_of (confirms input) = input.request_id
request_of (reports input) = input.request_id
request_of (abandons input) = input.request_id
request_of (resumes input) = input.request_id

abbrev pub action_of : CaptureCall → String
action_of (confirms input) = confirm_action
action_of (reports input) = interrupted_action
action_of (abandons input) = abandon_action
action_of (resumes input) = resume_action

abbrev pub expected_of : CaptureCall → Map Json
expected_of (confirms input) = confirm_metadata input
expected_of (reports input) = interrupted_metadata input
expected_of (abandons input) = abandon_metadata input
expected_of (resumes input) = resume_expected input

-- The call within its transaction.
abbrev pub body_of : Services → Actor → String → CaptureCall → Call Snapshot
body_of v actor session_id (confirms input) = lock_capture session_id >>= λ locked.
    replay input.request_id confirm_action actor session_id >>= λ earlier.
    replay_or (confirm_metadata input) earlier
      (confirm_fresh v actor session_id input locked.0 locked.1)
body_of v actor session_id (reports input) = lock_capture session_id >>= λ locked.
    replay input.request_id interrupted_action actor session_id >>= λ earlier.
    replay_or (interrupted_metadata input) earlier
      (interrupt_fresh v actor session_id input locked.0 locked.1)
body_of v actor session_id (abandons input) = lock_capture session_id >>= λ locked.
    replay input.request_id abandon_action actor session_id >>= λ earlier.
    replay_or (abandon_metadata input) earlier
      (abandon_fresh v actor session_id input locked.0 locked.1)
body_of v actor session_id (resumes input) = do
  found ← gets (find_session session_id)
  location ← require found not_found
  newest ← gets (current_capture session_id)
  capture ← require newest (conflict "SESSION_NOT_RECOVERABLE")
  earlier ← replay input.request_id resume_action actor session_id
  replay_or (resume_expected input) earlier (resume_fresh v actor session_id input capture)

-- A report of an interruption and an abandonment reach the runtime each time.
abbrev pub told : String → CaptureCall → State → State
told session_id (confirms input) s = s
told session_id (reports input) s = record s {
  interrupts = (session_id, input.audio_stream_id) ∷ s.interrupts;
}
told session_id (abandons input) s = record s {
  interrupts = (session_id, input.audio_stream_id) ∷ s.interrupts;
}
told session_id (resumes input) s = s

pub some_of {ℓ} : {A : Type ℓ} (o : Option A) → is_some o ≡ true → (a : A) × (o ≡ some a)
some_of none h = cc
some_of (some a) h = (a, refl)

module _ (v : Services) (actor : Actor) (session_id : String) where
  pub body_of-IsQuiet : (c : CaptureCall) → IsQuiet (body_of v actor session_id c)
  body_of-IsQuiet (confirms input) =
      body-IsQuiet (lock_capture session_id) input.request_id confirm_action actor session_id
        (confirm_metadata input)
        (λ locked. confirm_fresh v actor session_id input locked.0 locked.1)
        (lock_capture-IsQuiet session_id)
        (λ locked. confirm_fresh-IsQuiet v actor session_id input locked.0 locked.1)
  body_of-IsQuiet (reports input) =
      body-IsQuiet (lock_capture session_id) input.request_id interrupted_action actor session_id
        (interrupted_metadata input)
        (λ locked. interrupt_fresh v actor session_id input locked.0 locked.1)
        (lock_capture-IsQuiet session_id)
        (λ locked. interrupt_fresh-IsQuiet v actor session_id input locked.0 locked.1)
  body_of-IsQuiet (abandons input) =
      body-IsQuiet (lock_capture session_id) input.request_id abandon_action actor session_id
        (abandon_metadata input)
        (λ locked. abandon_fresh v actor session_id input locked.0 locked.1)
        (lock_capture-IsQuiet session_id)
        (λ locked. abandon_fresh-IsQuiet v actor session_id input locked.0 locked.1)
  body_of-IsQuiet (resumes input) = resume_body-IsQuiet v actor session_id input

  pub locked-there :
      (s : State) (a : SessionCaptureGeneration × InterviewSession)
      → lock_capture session_id s ≡ (ok a, s)
      → (is_some (find_session session_id s) ≡ true)
        × (is_some (current_capture session_id s) ≡ true)
  unfolding lock_capture
  locked-there s a h = (ground (arith, h), ground (arith, h))

  pub locked-again :
      (s : State)
      → is_some (find_session session_id s) ≡ true
      → is_some (current_capture session_id s) ≡ true
      → (a : SessionCaptureGeneration × InterviewSession) × (lock_capture session_id s ≡ (ok a, s))
  unfolding lock_capture
  locked-again s h k =
      let (z, p) = some_of (find_session session_id s) h in
      let (c, q) = some_of (current_capture session_id s) k in ((c, z), ground (arith, p, q))

  pub lock_capture-reads : (s : State) → (lock_capture session_id s).1 ≡ s
  unfolding lock_capture
  lock_capture-reads s = ground arith
