-- ===== src/Capture/Tests.antt =====
-- The capture theorems at concrete inputs.
use elder_interview_ai.Prelude.{◌≡◌, refl, true, false, List, [], ◌∷◌, none, some}
use elder_interview_ai.Prelude.Action.{Result, ok}
use elder_interview_ai.Capture.Tables.{
  InterviewSessionStatus, reconnecting, SessionCaptureGeneration, CaptureGenerationStatus,
  uploading, microphone_ended, valid, Failure, State, Snapshot, conflict, find, update_where,
}
use elder_interview_ai.Capture.Common.{
  Actor, interviewer, Services, find_session, newest, current_capture, find_finalization,
  uploaded_chunks, read_snapshot, assert_current_gate, gate_is_open, has_current_formal_consent,
  newest_consent, replay, audit, write_replay, conclude, set_session_status, assert_role,
  lock_capture, assert_original_actor,
}
use elder_interview_ai.Capture.Service.{
  ResumeCaptureRequest, ConfirmCaptureActiveRequest, ReportCaptureInterruptedRequest,
  report_interrupted, interrupt_fresh, confirm_active, confirm_fresh,
}
use elder_interview_ai.Capture.Resume.{
  high_water, create_generation, open_generation, resume_archive, resume_session, resume_fresh,
  next_generation,
}
use elder_interview_ai.Capture.Resume.{resume}
use elder_interview_ai.Capture.Errors.{confirms, reports, resumes, perform, perform-unchanged}
use elder_interview_ai.Capture.Again.{Asked, calls, perform-again}
use elder_interview_ai.Capture.Answered.{told}
use elder_interview_ai.Capture.Generations.{IsContinued, resume-IsContinued}

abbrev capture : SessionCaptureGeneration
capture = record {
  id = "g1";
  session_id = "s";
  audio_object_id = "o";
  generation_no = 1;
  audio_stream_id = "a1";
  timeline_offset_ms = 0;
  status = CaptureGenerationStatus.interrupted;
  interruption_reason = none;
  confirmed_active_at = none;
  first_pcm_accepted_at = none;
  interrupted_at = some 5;
  stopped_at = none;
}

abbrev state : State
state = record {
  sessions =
      record {
        id = "s";
        project_id = "p";
        sequence_no = 1;
        status = InterviewSessionStatus.interrupted;
        created_by = "u";
        capture_failure_code = none;
      }
      ∷ [];
  captures = capture ∷ [];
  finalizations = [];
  audio_chunks =
      record { audio_object_id = "o"; sequence_no = 0; end_ms = 700; is_uploaded = true } ∷ [];
  audio_objects = record { id = "o"; status = uploading } ∷ [];
  consent_records =
      record {
        project_id = "p";
        status = valid;
        revoked_at = none;
        consented_at = 1;
        created_at = 1;
      }
      ∷ [];
  audit_logs = [];
  idempotency_records = [];
  interrupts = [];
}

abbrev actor : Actor
actor = record { id = "u"; role = interviewer; is_active = true }

abbrev services : Services
services = record {
  decision = λ a p s. record {
    is_ordinary = true;
    project_state_available = true;
    project_is_open = true;
    consent_is_covered = false;
  };
  now = 9;
  fresh_id = "g2";
}

abbrev confirmation : ConfirmCaptureActiveRequest
confirmation = record { request_id = "r1"; audio_stream_id = "other"; generation_no = 1 }

perform-unchanged_example : (perform services actor "s" (confirms confirmation) state).1 ≡ state
unfolding confirm_active assert_role lock_capture find_session current_capture newest find replay
    confirm_fresh assert_current_gate gate_is_open has_current_formal_consent newest_consent
perform-unchanged_example =
    perform-unchanged services actor "s" state (conflict "CAPTURE_GENERATION_CONFLICT") refl
      (confirms confirmation) refl

abbrev resumption : ResumeCaptureRequest
resumption = record {
  request_id = "r2";
  audio_stream_id = "a2";
  local_archive_chunk_count = 3;
  local_archive_timeline_high_water_ms = 800;
}

abbrev answer : Snapshot
answer = record {
  session = record {
    id = "s";
    project_id = "p";
    sequence_no = 1;
    status = InterviewSessionStatus.interrupted;
    created_by = "u";
    capture_failure_code = none;
  };
  finalization = none;
  uploaded_chunk_count = 0;
  capture = some capture;
  capture_uploaded_chunk_count = 1;
}

abbrev interruption : ReportCaptureInterruptedRequest
interruption = record {
  request_id = "r3";
  audio_stream_id = "a1";
  generation_no = 1;
  reason = microphone_ended;
}

abbrev reported : Result Failure Snapshot × State
unfolding report_interrupted
reported = report_interrupted services actor "s" interruption state

-- In between the capture is resumed, so that the session is no longer interrupted.
abbrev between : List Asked
between =
    record { services = services; actor = actor; session_id = "s"; call = resumes resumption } ∷ []

perform-again_example :
    perform services actor "s" (reports interruption) (calls between reported.1)
    ≡ (ok answer, told "s" (reports interruption) (calls between reported.1))
unfolding report_interrupted assert_role lock_capture replay interrupt_fresh assert_original_actor
    conclude read_snapshot find_session find find_finalization current_capture newest
    uploaded_chunks write_replay audit
perform-again_example =
    perform-again services services actor "s" (reports interruption) answer state reported.1 between
      refl refl refl

abbrev resumed : Result Failure Snapshot × State
unfolding resume
resumed = resume services actor "s" resumption state

abbrev resumed_answer : Snapshot
resumed_answer = record {
  session = record {
    id = "s";
    project_id = "p";
    sequence_no = 1;
    status = reconnecting;
    created_by = "u";
    capture_failure_code = none;
  };
  finalization = none;
  uploaded_chunk_count = 0;
  capture = some (next_generation services "s" resumption capture);
  capture_uploaded_chunk_count = 1;
}

resume-IsContinued_example :
    (old : SessionCaptureGeneration) × (current_capture "s" state ≡ some old)
    × IsContinued "s" old state resumed.1
unfolding resume assert_role replay resume_fresh resume_session resume_archive open_generation
    create_generation set_session_status update_where conclude read_snapshot find_session find
    find_finalization current_capture newest uploaded_chunks write_replay audit assert_current_gate
    gate_is_open has_current_formal_consent newest_consent high_water
resume-IsContinued_example =
    resume-IsContinued services actor "s" resumption state resumed.1 resumed_answer refl refl refl
