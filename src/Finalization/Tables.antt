-- ===== src/Finalization/Tables.antt =====
-- The tables that apps/api/src/project-foundation/session-finalization.service.ts reads and writes, one
-- list a table (apps/api/prisma/schema.prisma), and what its calls answer and throw.
use elder_interview_ai.Prelude.{ℕ, Bool, String, List, Option}
use elder_interview_ai.Prelude.Int.{ℤ}
use elder_interview_ai.Prelude.Action.{Action}
use elder_interview_ai.Capture.Tables.{InterviewSessionStatus, CaptureGenerationStatus}
use elder_interview_ai.AudioServer.Tables.{AudioObject, AudioChunk, Commitment}

-- A time is a number of milliseconds.
pub record InterviewSession : Type 0 where
  pub id : String
  pub project_id : String
  pub status : InterviewSessionStatus
  pub started_at : Option ℕ
  pub ended_at : Option ℕ
  pub duration_seconds : Option ℕ

pub record SessionCaptureGeneration : Type 0 where
  pub session_id : String
  pub audio_object_id : String
  pub generation_no : ℕ
  pub status : CaptureGenerationStatus
  pub stopped_at : Option ℕ

pub data AudioStatus : Type 0 where
  awaiting_upload audio_complete audio_failed : AudioStatus

pub data TranscriptStatus : Type 0 where
  not_started pending draining drained degraded : TranscriptStatus

-- The rows of `SessionFinalizationChunk` are kept with the finalization that they belong to.
pub record SessionFinalization : Type 0 where
  pub id : String
  pub session_id : String
  pub audio_object_id : String
  pub stop_request_id : String
  pub expected_chunk_count : ℕ
  pub commitments_checksum : String
  pub capture_ended_at : ℕ
  pub processing_started_at : Option ℕ
  pub completed_at : Option ℕ
  pub audio_status : AudioStatus
  pub transcript_status : TranscriptStatus
  pub transcript_error_code : Option String
  pub asr_last_audio_sequence_accepted : Option ℤ
  pub asr_drain_completed_at : Option ℕ
  pub created_by : String
  pub chunks : List Commitment

-- `is_closed`: the status is `restricted` or `deleted`, or there is a time of deletion.
pub record ElderProject : Type 0 where
  pub id : String
  pub is_closed : Bool

pub record ProjectAssignment : Type 0 where
  pub project_id : String
  pub user_id : String
  pub is_revoked : Bool

-- The consents of the type `recording_transcription_ai`.
pub record ConsentRecord : Type 0 where
  pub id : String
  pub project_id : String
  pub is_valid : Bool
  pub is_revoked : Bool
  pub created_at : ℕ

pub record AuditLog : Type 0 where
  pub action : String
  pub actor_id : String
  pub entity_id : String
  pub request_id : Option String
  pub metadata : Option (String × ℕ)

-- The arguments of `mapInterviewSessionSnapshot`.
pub record Snapshot : Type 0 where
  pub session : InterviewSession
  pub finalization : Option SessionFinalization
  pub uploaded_chunk_count : ℕ
  pub capture : Option SessionCaptureGeneration
  pub capture_uploaded_chunk_count : ℕ

pub record IdempotencyRecord : Type 0 where
  pub request_id : String
  pub action : String
  pub actor_id : String
  pub target_id : String
  pub target_type : String
  pub response_payload : Snapshot

-- The tables, and the sessions whose captures the runtime was told to interrupt, newest first.
pub record State : Type 0 where
  pub sessions : List InterviewSession
  pub captures : List SessionCaptureGeneration
  pub finalizations : List SessionFinalization
  pub audio_objects : List AudioObject
  pub audio_chunks : List AudioChunk
  pub projects : List ElderProject
  pub assignments : List ProjectAssignment
  pub consent_records : List ConsentRecord
  pub audit_logs : List AuditLog
  pub idempotency_records : List IdempotencyRecord
  pub interrupts : List String

-- The service's exceptions with their codes, and the database's for a row that is missing or repeats a
-- unique value.
pub data Failure : Type 0 where
  conflict : (code : String) → Failure
  forbidden not_found no_row repeated : Failure

abbrev pub Call : Type 0 → Type 0
Call A = Action State Failure A

pub record Actor : Type 0 where
  pub id : String
  pub is_interviewer : Bool
  pub is_active : Bool

-- `SessionChunkCommitment` has the fields of a commitment. The request's numbers are whole and not
-- negative, as session-finalization.validation.ts reads them.
pub record StopSessionRequest : Type 0 where
  pub request_id : String
  pub audio_object_id : String
  pub expected_chunk_count : ℕ
  pub chunks : List Commitment

-- What the code asks of the platform and of other services: the clock, a fresh row identifier, the
-- digest of the chunks' JSON text, the order of identifiers, and the last audio sequence that the
-- runtime of a session has acknowledged, if it has one.
pub record Services : Type 0 where
  pub now : ℕ
  pub fresh_id : String
  pub digest : List Commitment → String
  pub is_later_id : String → String → Bool
  pub runtime : String → Option ℤ
