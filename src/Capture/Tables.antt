-- ===== src/Capture/Tables.antt =====
-- The rows that apps/api/src/project-foundation/session-capture.service.ts reads and writes, one
-- list a table (apps/api/prisma/schema.prisma), in the order of creation.
use elder_interview_ai.Prelude.{ℕ, Bool, String, List, Option}
use elder_interview_ai.Prelude.Map.{Map}
unfoldable pub use elder_interview_ai.Prelude.Rows.{find, update_where}

pub data InterviewSessionStatus : Type 0 where
  created device_check recording reconnecting stopping processing completed interrupted failed :
      InterviewSessionStatus

pub data CaptureGenerationStatus : Type 0 where
  preparing active interrupted stopped abandoned_empty : CaptureGenerationStatus

pub data CaptureInterruptionReason : Type 0 where
  capture_start_failed page_recovery_detected microphone_ended recorder_error local_archive_failed
        auth_lost unknown :
      CaptureInterruptionReason

pub data AudioObjectStatus : Type 0 where
  initiated uploading complete failed : AudioObjectStatus

pub data CaptureFailureCode : Type 0 where
  no_audio_captured : CaptureFailureCode

pub record InterviewSession : Type 0 where
  pub id : String
  pub project_id : String
  pub sequence_no : ℕ
  pub status : InterviewSessionStatus
  pub created_by : String
  pub capture_failure_code : Option CaptureFailureCode

-- A time is a number.
pub record SessionCaptureGeneration : Type 0 where
  pub id : String
  pub session_id : String
  pub audio_object_id : String
  pub generation_no : ℕ
  pub audio_stream_id : String
  pub timeline_offset_ms : ℕ
  pub status : CaptureGenerationStatus
  pub interruption_reason : Option CaptureInterruptionReason
  pub confirmed_active_at : Option ℕ
  pub first_pcm_accepted_at : Option ℕ
  pub interrupted_at : Option ℕ
  pub stopped_at : Option ℕ

pub record SessionFinalization : Type 0 where
  pub session_id : String
  pub audio_object_id : String

pub record AudioChunk : Type 0 where
  pub audio_object_id : String
  pub sequence_no : ℕ
  pub end_ms : ℕ
  pub is_uploaded : Bool

pub record AudioObject : Type 0 where
  pub id : String
  pub status : AudioObjectStatus

-- The values in an audit's metadata.
pub data Json : Type 0 where
  text : String → Json
  number : ℕ → Json

pub record AuditLog : Type 0 where
  pub action : String
  pub actor_id : String
  pub entity_id : String
  pub entity_type : String
  pub request_id : Option String
  pub metadata : Map Json

-- What `mapInterviewSessionSnapshot` makes a response of: its arguments.
pub record Snapshot : Type 0 where
  pub session : InterviewSession
  pub finalization : Option SessionFinalization
  pub uploaded_chunk_count : ℕ
  pub capture : Option SessionCaptureGeneration
  pub capture_uploaded_chunk_count : ℕ

pub record IdempotencyRecord : Type 0 where
  pub request_id : String
  pub action : String
  pub actor_id : String
  pub target_id : String
  pub target_type : String
  pub response_payload : Snapshot

pub data ConsentStatus : Type 0 where
  pending valid revoked expired : ConsentStatus

-- All consents are of the type `recording_transcription_ai`, the only one there is.
pub record ConsentRecord : Type 0 where
  pub project_id : String
  pub status : ConsentStatus
  pub revoked_at : Option ℕ
  pub consented_at : ℕ
  pub created_at : ℕ

-- The database, and the calls of `interruptCapture` on the realtime runtime, newest first.
pub record State : Type 0 where
  pub sessions : List InterviewSession
  pub captures : List SessionCaptureGeneration
  pub finalizations : List SessionFinalization
  pub audio_chunks : List AudioChunk
  pub audio_objects : List AudioObject
  pub consent_records : List ConsentRecord
  pub audit_logs : List AuditLog
  pub idempotency_records : List IdempotencyRecord
  pub interrupts : List (String × String)

-- What a call throws: the service's exceptions with their codes, or the database's for a row that
-- is missing or repeats a unique value.
pub data Failure : Type 0 where
  conflict : (code : String) → Failure
  forbidden not_found no_row repeated : Failure
