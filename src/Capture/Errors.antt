-- ===== src/Capture/Errors.antt =====
-- What a call of apps/api/src/project-foundation/session-capture.service.ts leaves behind when it
-- throws.
use elder_interview_ai.Prelude.{◌≡◌, sym, ap, ◌∙◌, String, arith}
use elder_interview_ai.Prelude.Action.{Result, ok, err, bind_result, ◌>>=◌, ◌>>◌, pure}
use elder_interview_ai.Capture.Tables.{Snapshot, State, Failure}
use elder_interview_ai.Capture.Common.{
  Call, Actor, Services, interviewer, transaction, keep_or_undo, assert_role, lock_capture,
}
use elder_interview_ai.Capture.Service.{
  ConfirmCaptureActiveRequest, ReportCaptureInterruptedRequest, AbandonEmptyCaptureRequest,
  ResumeCaptureRequest, confirm_active, report_interrupted, note_interrupt, confirm_action,
  interrupted_action, abandon_action, confirm_metadata, interrupted_metadata, confirm_fresh,
  interrupt_fresh,
}
use elder_interview_ai.Capture.Abandon.{abandon_empty, abandon_fresh, abandon_metadata}
use elder_interview_ai.Capture.Resume.{resume}
use elder_interview_ai.Capture.Interrupts.{IsQuiet, body-IsQuiet, lock_capture-IsQuiet}
use elder_interview_ai.Capture.Quiet.{
  confirm_fresh-IsQuiet, interrupt_fresh-IsQuiet, abandon_fresh-IsQuiet, resume_body-IsQuiet,
}

-- The calls of the service.
pub data CaptureCall : Type 0 where
  confirms : ConfirmCaptureActiveRequest → CaptureCall
  reports : ReportCaptureInterruptedRequest → CaptureCall
  abandons : AbandonEmptyCaptureRequest → CaptureCall
  resumes : ResumeCaptureRequest → CaptureCall

abbrev pub perform : Services → Actor → String → CaptureCall → Call Snapshot
perform v actor session_id (confirms input) = confirm_active v actor session_id input
perform v actor session_id (reports input) = report_interrupted v actor session_id input
perform v actor session_id (abandons input) = abandon_empty v actor session_id input
perform v actor session_id (resumes input) = resume v actor session_id input

-- A transaction that throws takes back all that its body did, if the body tells the runtime nothing.
undone_by :
    {A : Type 0} (r : Result Failure A) (after before : State) (e : Failure)
    → after.interrupts ≡ before.interrupts
    → (keep_or_undo r after before).0 ≡ err e
    → (keep_or_undo r after before).1 ≡ before
undone_by (ok a) after before e q h = cc
undone_by (err x) after before e q h = ap (λ l. record before { interrupts = l }) q

undone :
    {A : Type 0} (m : Call A) (s : State) (e : Failure)
    → IsQuiet m
    → (transaction m s).0 ≡ err e
    → (transaction m s).1 ≡ s
undone m s e q h = undone_by (m s).0 (m s).1 s e (q s).0 h

noted_by :
    (session_id stream : String) (r : Result Failure Snapshot) (after before : State) (e : Failure)
    → after.interrupts ≡ before.interrupts
    → (bind_result
        (λ (snapshot : Snapshot). note_interrupt session_id stream >> pure snapshot)
        (keep_or_undo r after before).0
        (keep_or_undo r after before).1).0
      ≡ err e
    → (bind_result
        (λ (snapshot : Snapshot). note_interrupt session_id stream >> pure snapshot)
        (keep_or_undo r after before).0
        (keep_or_undo r after before).1).1
      ≡ before
noted_by session_id stream (ok a) after before e q h = cc
noted_by session_id stream (err x) after before e q h = ap (λ l. record before { interrupts = l }) q

-- After the transaction, a runtime that is told so only on success.
noted :
    (session_id stream : String) (m : Call Snapshot) (s : State) (e : Failure)
    → IsQuiet m
    → ((transaction m >>= λ snapshot. note_interrupt session_id stream >> pure snapshot) s).0
      ≡ err e
    → ((transaction m >>= λ snapshot. note_interrupt session_id stream >> pure snapshot) s).1 ≡ s
noted session_id stream m s e q h = noted_by session_id stream (m s).0 (m s).1 s e (q s).0 h

enters : (actor : Actor) (s : State) → actor.role ≡ interviewer → assert_role actor s ≡ (ok tt, s)
unfolding assert_role
enters actor s role = ground arith

pub entered :
    (actor : Actor) (m : Call Snapshot) (s : State)
    → actor.role ≡ interviewer
    → (assert_role actor >> m) s ≡ m s
entered actor m s role =
    ap (λ (x : Result Failure (Unit {0}) × State). bind_result (λ _. m) x.0 x.1)
      (enters actor s role)

module _ (v : Services) (actor : Actor) (session_id : String) (s : State) (e : Failure)
    (role : actor.role ≡ interviewer) where
  simply :
      (m : Call Snapshot)
      → IsQuiet m
      → ((assert_role actor >> transaction m) s).0 ≡ err e
      → ((assert_role actor >> transaction m) s).1 ≡ s
  simply m q h =
      let same = entered actor (transaction m) s role in
      ap (λ (x : Result Failure Snapshot × State). x.1) same
      ∙ undone m s e q (ap (λ (x : Result Failure Snapshot × State). x.0) (sym same) ∙ h)

  with_note :
      (stream : String) (m : Call Snapshot)
      → IsQuiet m
      → ((assert_role actor
            >> (transaction m >>= λ snapshot. note_interrupt session_id stream >> pure snapshot))
          s).0
        ≡ err e
      → ((assert_role actor
            >> (transaction m >>= λ snapshot. note_interrupt session_id stream >> pure snapshot))
          s).1
        ≡ s
  with_note stream m q h =
      let noting : Call Snapshot =
        transaction m >>= λ snapshot. note_interrupt session_id stream >> pure snapshot in
      let same = entered actor noting s role in
      ap (λ (x : Result Failure Snapshot × State). x.1) same
      ∙ noted session_id stream m s e q
          (ap (λ (x : Result Failure Snapshot × State). x.0) (sym same) ∙ h)

  -- A call by an interviewer that throws leaves the database as it was and does not reach the
  -- runtime.
  pub perform-unchanged :
      (c : CaptureCall)
      → (perform v actor session_id c s).0 ≡ err e
      → (perform v actor session_id c s).1 ≡ s
  unfolding confirm_active report_interrupted abandon_empty resume
  perform-unchanged (confirms input) h =
      simply _
        (body-IsQuiet (lock_capture session_id) input.request_id confirm_action actor session_id
          (confirm_metadata input)
          (λ locked. confirm_fresh v actor session_id input locked.0 locked.1)
          (lock_capture-IsQuiet session_id)
          (λ locked. confirm_fresh-IsQuiet v actor session_id input locked.0 locked.1))
        h
  perform-unchanged (reports input) h =
      with_note input.audio_stream_id _
        (body-IsQuiet (lock_capture session_id) input.request_id interrupted_action actor session_id
          (interrupted_metadata input)
          (λ locked. interrupt_fresh v actor session_id input locked.0 locked.1)
          (lock_capture-IsQuiet session_id)
          (λ locked. interrupt_fresh-IsQuiet v actor session_id input locked.0 locked.1))
        h
  perform-unchanged (abandons input) h =
      with_note input.audio_stream_id _
        (body-IsQuiet (lock_capture session_id) input.request_id abandon_action actor session_id
          (abandon_metadata input)
          (λ locked. abandon_fresh v actor session_id input locked.0 locked.1)
          (lock_capture-IsQuiet session_id)
          (λ locked. abandon_fresh-IsQuiet v actor session_id input locked.0 locked.1))
        h
  perform-unchanged (resumes input) h = simply _ (resume_body-IsQuiet v actor session_id input) h
