-- ===== src/Capture/Service.antt =====
-- The requests of apps/api/src/project-foundation/session-capture.service.ts, and its calls
-- `confirmActive` and `reportInterrupted`.
use elder_interview_ai.Prelude.{
  ℕ, Bool, true, false, not, ◌||◌, String, [], ◌∷◌, some, eqb, is_some, ◌==◌,
}
use elder_interview_ai.Prelude.Map.{Map}
use elder_interview_ai.Prelude.Action.{◌>>=◌, ◌>>◌, pure, throw, throw_if, gets, modify}
use elder_interview_ai.Capture.Tables.{
  InterviewSession, InterviewSessionStatus, recording, reconnecting, stopping, processing,
  completed, SessionCaptureGeneration, CaptureGenerationStatus, preparing, active, stopped,
  abandoned_empty, CaptureInterruptionReason, Json, text, number, Snapshot, conflict,
}
use elder_interview_ai.Capture.Common.{
  Call, transaction, Actor, Services, assert_role, find_finalization, lock_capture,
  assert_current_gate, assert_original_actor, replay, replay_or, conclude, set_session_status,
  set_capture,
}

pub record ConfirmCaptureActiveRequest : Type 0 where
  pub request_id : String
  pub audio_stream_id : String
  pub generation_no : ℕ

pub record ReportCaptureInterruptedRequest : Type 0 where
  pub request_id : String
  pub audio_stream_id : String
  pub generation_no : ℕ
  pub reason : CaptureInterruptionReason

pub record AbandonEmptyCaptureRequest : Type 0 where
  pub request_id : String
  pub audio_stream_id : String
  pub generation_no : ℕ
  pub local_archive_chunk_count : ℕ

pub record ResumeCaptureRequest : Type 0 where
  pub request_id : String
  pub audio_stream_id : String
  pub local_archive_chunk_count : ℕ
  pub local_archive_timeline_high_water_ms : ℕ

abbrev pub confirm_action : String
confirm_action = "interview_session.capture.confirm"

abbrev pub interrupted_action : String
interrupted_action = "interview_session.capture.interrupted"

abbrev pub abandon_action : String
abandon_action = "interview_session.capture.abandon_empty"

abbrev pub resume_action : String
resume_action = "interview_session.capture.resume"

abbrev pub reason_text : CaptureInterruptionReason → String
reason_text CaptureInterruptionReason.capture_start_failed = "capture_start_failed"
reason_text CaptureInterruptionReason.page_recovery_detected = "page_recovery_detected"
reason_text CaptureInterruptionReason.microphone_ended = "microphone_ended"
reason_text CaptureInterruptionReason.recorder_error = "recorder_error"
reason_text CaptureInterruptionReason.local_archive_failed = "local_archive_failed"
reason_text CaptureInterruptionReason.auth_lost = "auth_lost"
reason_text CaptureInterruptionReason.unknown = "unknown"

-- The capture is not the one the request names.
abbrev pub other_generation : SessionCaptureGeneration → ℕ → String → Bool
other_generation c generation_no audio_stream_id =
    not (eqb c.generation_no generation_no) || not (c.audio_stream_id == audio_stream_id)

abbrev pub capturing : InterviewSessionStatus → Bool
capturing recording = true
capturing reconnecting = true
capturing _ = false

abbrev pub is_reconnecting : InterviewSessionStatus → Bool
is_reconnecting reconnecting = true
is_reconnecting _ = false

abbrev pub is_ended : InterviewSessionStatus → Bool
is_ended stopping = true
is_ended processing = true
is_ended completed = true
is_ended InterviewSessionStatus.failed = true
is_ended _ = false

abbrev pub session_interrupted : InterviewSessionStatus → Bool
session_interrupted InterviewSessionStatus.interrupted = true
session_interrupted _ = false

abbrev pub capture_interrupted : CaptureGenerationStatus → Bool
capture_interrupted CaptureGenerationStatus.interrupted = true
capture_interrupted _ = false

abbrev pub set_recording_if : Bool → String → Call (Unit {0})
set_recording_if true session_id =
    set_session_status session_id (λ x. record x { status = recording })
set_recording_if false session_id = pure tt

-- What `confirmActive` does with the capture, by its status.
abbrev pub confirm_capture :
    Services
    → SessionCaptureGeneration
    → InterviewSession
    → String
    → CaptureGenerationStatus
    → Call (Unit {0})
confirm_capture v capture session session_id preparing = do
  throw_if (not (capturing session.status)) (conflict "CAPTURE_NOT_CONFIRMABLE")
  set_capture capture.id (λ c. record c { confirmed_active_at = some v.now; status = active })
  set_recording_if (is_reconnecting session.status) session_id
confirm_capture v capture session session_id active = pure tt
confirm_capture v capture session session_id CaptureGenerationStatus.interrupted =
    throw (conflict "CAPTURE_NOT_CONFIRMABLE")
confirm_capture v capture session session_id stopped = throw (conflict "CAPTURE_NOT_CONFIRMABLE")
confirm_capture v capture session session_id abandoned_empty =
    throw (conflict "CAPTURE_NOT_CONFIRMABLE")

abbrev pub confirm_metadata : ConfirmCaptureActiveRequest → Map Json
confirm_metadata input =
    ("audio_stream_id", text input.audio_stream_id)
    ∷ ("generation_no", number input.generation_no)
    ∷ []

unfoldable pub confirm_fresh :
    Services
    → Actor
    → String
    → ConfirmCaptureActiveRequest
    → SessionCaptureGeneration
    → InterviewSession
    → Call Snapshot
confirm_fresh v actor session_id input capture session = do
  assert_current_gate v actor session
  throw_if (other_generation capture input.generation_no input.audio_stream_id)
      (conflict "CAPTURE_GENERATION_CONFLICT")
  confirm_capture v capture session session_id capture.status
  conclude confirm_action input.request_id actor session_id (confirm_metadata input)

unfoldable pub confirm_active :
    Services → Actor → String → ConfirmCaptureActiveRequest → Call Snapshot
confirm_active v actor session_id input = do
  assert_role actor
  transaction (do
    locked ← lock_capture session_id
    earlier ← replay input.request_id confirm_action actor session_id
    replay_or (confirm_metadata input) earlier
        (confirm_fresh v actor session_id input locked.0 locked.1))

abbrev pub interrupted_metadata : ReportCaptureInterruptedRequest → Map Json
interrupted_metadata input =
    ("audio_stream_id", text input.audio_stream_id)
    ∷ ("generation_no", number input.generation_no)
    ∷ ("reason", text (reason_text input.reason))
    ∷ []

abbrev pub interrupt_now :
    Services → CaptureInterruptionReason → SessionCaptureGeneration → String → Call (Unit {0})
interrupt_now v reason capture session_id = do
  set_capture capture.id (λ c. record c {
    interrupted_at = some v.now;
    interruption_reason = some reason;
    status = CaptureGenerationStatus.interrupted;
  })
  set_session_status session_id (λ x. record x { status = InterviewSessionStatus.interrupted })

-- What `reportInterrupted` does with a session that is not frozen, by the capture's status.
abbrev pub interrupt_capture :
    Services
    → CaptureInterruptionReason
    → SessionCaptureGeneration
    → String
    → CaptureGenerationStatus
    → Call (Unit {0})
interrupt_capture v reason capture session_id preparing = interrupt_now v reason capture session_id
interrupt_capture v reason capture session_id active = interrupt_now v reason capture session_id
interrupt_capture v reason capture session_id CaptureGenerationStatus.interrupted = pure tt
interrupt_capture v reason capture session_id stopped = throw (conflict "CAPTURE_NOT_INTERRUPTIBLE")
interrupt_capture v reason capture session_id abandoned_empty =
    throw (conflict "CAPTURE_NOT_INTERRUPTIBLE")

abbrev pub interrupt_unless :
    Bool
    → Services
    → CaptureInterruptionReason
    → SessionCaptureGeneration
    → String
    → Call (Unit {0})
interrupt_unless true v reason capture session_id = pure tt
interrupt_unless false v reason capture session_id =
    interrupt_capture v reason capture session_id capture.status

unfoldable pub interrupt_fresh :
    Services
    → Actor
    → String
    → ReportCaptureInterruptedRequest
    → SessionCaptureGeneration
    → InterviewSession
    → Call Snapshot
interrupt_fresh v actor session_id input capture session = do
  assert_original_actor actor session.created_by
  throw_if (other_generation capture input.generation_no input.audio_stream_id)
      (conflict "CAPTURE_GENERATION_CONFLICT")
  finalization ← gets (find_finalization session_id)
  interrupt_unless (is_some finalization || is_ended session.status) v input.reason capture
      session_id
  conclude interrupted_action input.request_id actor session_id (interrupted_metadata input)

-- `runtime.interruptCapture`
abbrev pub note_interrupt : String → String → Call (Unit {0})
note_interrupt session_id audio_stream_id =
    modify (λ s. record s { interrupts = (session_id, audio_stream_id) ∷ s.interrupts })

unfoldable pub report_interrupted :
    Services → Actor → String → ReportCaptureInterruptedRequest → Call Snapshot
report_interrupted v actor session_id input = do
  assert_role actor
  snapshot ← transaction (do
    locked ← lock_capture session_id
    earlier ← replay input.request_id interrupted_action actor session_id
    replay_or (interrupted_metadata input) earlier
        (interrupt_fresh v actor session_id input locked.0 locked.1))
  note_interrupt session_id input.audio_stream_id
  pure snapshot
