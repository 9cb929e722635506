-- ===== src/Audio/Job.antt =====
-- apps/web/src/audio/types.ts: the upload job of a recording and the report of an interruption,
-- and the checks that a stored record is the one or the other.
use elder_interview_ai.Prelude.{ℕ, Bool, not, ◌&&◌, String, Option, eqb, ◌==◌}
use elder_interview_ai.Prelude.Map.{Map}
use elder_interview_ai.Prelude.Text.{is_blank, ◌^^◌, decimal, starts_with}

pub data AudioUploadJobStatus : Type 0 where
  recording uploading completing complete failed : AudioUploadJobStatus

pub data Purpose : Type 0 where
  consent interview : Purpose

pub data InterviewCaptureLocalStatus : Type 0 where
  prepared server_preparing recording active interrupted stopped : InterviewCaptureLocalStatus

pub record PersistedCaptureCommand : Type 0 where
  pub audio_stream_id : String
  pub generation_no : ℕ
  pub request_id : String

pub data InterruptionReason : Type 0 where
  capture_start_failed page_recovery_detected microphone_ended recorder_error local_archive_failed
        auth_lost unknown :
      InterruptionReason

pub record PersistedCaptureInterruption : Type 0 where
  pub command : PersistedCaptureCommand
  pub reason : InterruptionReason

pub record PersistedCaptureResume : Type 0 where
  pub audio_stream_id : String
  pub local_archive_chunk_count : ℕ
  pub local_archive_timeline_high_water_ms : ℕ
  pub request_id : String

-- The field `protocolVersion` is always 1.
pub record InterviewCaptureJobState : Type 0 where
  pub audio_object_id : Option String
  pub audio_stream_id : String
  pub confirm_active_requests : Map PersistedCaptureCommand
  pub generation_no : Option ℕ
  pub interruption_reports : Map PersistedCaptureInterruption
  pub pending_resume : Option PersistedCaptureResume
  pub start_request_id : String
  pub status : InterviewCaptureLocalStatus
  pub stop_request_id : Option String
  pub timeline_offset_ms : ℕ

pub record AudioUploadJob : Type 0 where
  pub audio_object_id : Option String
  pub buffer_session_id : String
  pub chunk_request_ids : Map String
  pub complete_request_id : Option String
  pub create_request_id : Option String
  pub expected_chunk_count : Option ℕ
  pub interview_capture : Option InterviewCaptureJobState
  pub job_id : String
  pub last_error : Option String
  pub mime_type : String
  pub project_id : String
  pub purpose : Purpose
  pub server_session_id : Option String
  pub status : AudioUploadJobStatus

pub data ReportStatus : Type 0 where
  acknowledged pending : ReportStatus

-- The fields `recordType` and `reason` each have one value.
pub record CaptureInterruptionReport : Type 0 where
  pub audio_object_id : String
  pub audio_stream_id : String
  pub created_at : String
  pub generation_no : ℕ
  pub job_id : String
  pub last_error : Option String
  pub project_id : String
  pub request_id : String
  pub session_id : String
  pub status : ReportStatus
  pub updated_at : String

-- A value of the store `upload-jobs`: only a report has a `recordType`.
pub data StoredRecord : Type 0 where
  upload_job : AudioUploadJob → StoredRecord
  report : CaptureInterruptionReport → StoredRecord

-- The test of `assertAudioUploadJobRecord` on a job whose fields have their types.
unfoldable pub job_is_valid : String → AudioUploadJob → Bool
job_is_valid expected j =
    not (starts_with "capture-interruption-report:" j.job_id) && j.job_id == expected

unfoldable pub report_key : CaptureInterruptionReport → String
report_key r =
    "capture-interruption-report:v1:"
    ^^ r.session_id
    ^^ ":"
    ^^ decimal r.generation_no
    ^^ ":"
    ^^ r.audio_stream_id

-- The test of `assertCaptureInterruptionReportRecord`.
unfoldable pub report_is_valid : String → CaptureInterruptionReport → Bool
report_is_valid expected r =
    r.job_id == expected
    && not (is_blank r.request_id)
    && r.job_id == report_key r
    && not (is_blank r.project_id)
    && not (is_blank r.session_id)
    && not (is_blank r.audio_object_id)
    && not (is_blank r.audio_stream_id)

unfoldable pub same_report_target : CaptureInterruptionReport → CaptureInterruptionReport → Bool
same_report_target left right =
    left.job_id == right.job_id
    && left.project_id == right.project_id
    && left.session_id == right.session_id
    && left.audio_object_id == right.audio_object_id
    && left.audio_stream_id == right.audio_stream_id
    && eqb left.generation_no right.generation_no

unfoldable pub same_report_identity : CaptureInterruptionReport → CaptureInterruptionReport → Bool
same_report_identity left right =
    left.job_id == right.job_id
    && left.project_id == right.project_id
    && left.session_id == right.session_id
    && left.audio_object_id == right.audio_object_id
    && left.audio_stream_id == right.audio_stream_id
    && eqb left.generation_no right.generation_no
    && left.request_id == right.request_id
    && left.created_at == right.created_at
