-- ===== src/AudioServer/Tables.antt =====
-- The tables that apps/api/src/audio/audio.service.ts reads and writes, one list a table
-- (apps/api/prisma/schema.prisma), the files of the storage, and what a call answers and throws.
use elder_interview_ai.Prelude.{ℕ, Bool, String, List, Option}
use elder_interview_ai.Prelude.Map.{Map}
use elder_interview_ai.Prelude.Action.{Action}

pub data AudioPurpose : Type 0 where
  consent interview : AudioPurpose

pub data AudioObjectStatus : Type 0 where
  initiated uploading complete failed : AudioObjectStatus

pub record AudioObject : Type 0 where
  pub id : String
  pub project_id : String
  pub session_id : Option String
  pub purpose : AudioPurpose
  pub status : AudioObjectStatus
  pub mime_type : String
  pub chunk_count : Option ℕ
  pub total_size_bytes : Option ℕ
  pub manifest_checksum : Option String
  pub created_by : String
  pub created_at : ℕ
  pub completed_at : Option ℕ

-- `is_uploaded` is the upload status `uploaded`; the code asks for no other.
pub record AudioChunk : Type 0 where
  pub id : String
  pub audio_object_id : String
  pub sequence_no : ℕ
  pub object_key : String
  pub start_ms : ℕ
  pub end_ms : ℕ
  pub size_bytes : ℕ
  pub checksum : String
  pub mime_type : String
  pub is_uploaded : Bool
  pub uploaded_at : Option ℕ

-- `SessionFinalizationChunk`, and the finalization that it belongs to.
pub record Commitment : Type 0 where
  pub sequence_no : ℕ
  pub start_ms : ℕ
  pub end_ms : ℕ
  pub size_bytes : ℕ
  pub checksum : String
  pub mime_type : String

pub record SessionFinalization : Type 0 where
  pub audio_object_id : String
  pub expected_chunk_count : ℕ
  pub created_by : String
  pub chunks : List Commitment

-- A row counts as deleted by its time or by its status.
pub record ElderProject : Type 0 where
  pub id : String
  pub is_deleted : Bool

pub record ProjectAssignment : Type 0 where
  pub project_id : String
  pub user_id : String
  pub is_revoked : Bool

-- `is_capturing`: the status is `recording`, `reconnecting` or `stopping`.
pub record InterviewSession : Type 0 where
  pub id : String
  pub project_id : String
  pub is_capturing : Bool

pub record AuditLog : Type 0 where
  pub action : String
  pub actor_id : String
  pub entity_id : String
  pub entity_type : String
  pub request_id : Option String
  pub sequence_no : Option ℕ

-- `AudioObjectResponse`, `AudioChunkResponse`, `AudioManifestResponse`: the mapper's arguments.
pub data Response : Type 0 where
  object_response : AudioObject → Response
  chunk_response : AudioChunk → Response
  manifest_response : AudioObject → List AudioChunk → Response

pub record IdempotencyRecord : Type 0 where
  pub request_id : String
  pub action : String
  pub actor_id : String
  pub target_id : String
  pub target_type : String
  pub response_payload : Response

pub record Database : Type 0 where
  pub audio_objects : List AudioObject
  pub audio_chunks : List AudioChunk
  pub finalizations : List SessionFinalization
  pub projects : List ElderProject
  pub assignments : List ProjectAssignment
  pub sessions : List InterviewSession
  pub audit_logs : List AuditLog
  pub idempotency_records : List IdempotencyRecord

-- The files are no part of a transaction.
pub record State : Type 0 where
  pub database : Database
  pub files : Map (List ℕ)

-- The service's exceptions by their codes, an `Error` of the code with its message, a failure of the
-- file system, and the database's for a row that repeats a unique value.
pub data Failure : Type 0 where
  conflict : (code : String) → Failure
  thrown : (text : String) → Failure
  forbidden not_found storage_unavailable object_missing disk repeated : Failure

abbrev pub Call : Type 0 → Type 0
Call A = Action State Failure A

pub record Actor : Type 0 where
  pub id : String
  pub is_interviewer : Bool
  pub is_active : Bool

pub record AudioChunkInput : Type 0 where
  pub checksum : String
  pub end_ms : ℕ
  pub mime_type : String
  pub request_id : String
  pub sequence_no : ℕ
  pub start_ms : ℕ

-- How a write of a file ends: the file is there; it is not; or it is, but its temporary twin could
-- not be removed, which throws.
pub data Written : Type 0 where
  kept lost uncleaned : Written

-- The clock, a fresh row identifier, the digests, and how the file system behaves. `manifest` is the
-- digest of the JSON text of the chunks.
pub record Platform : Type 0 where
  pub now : ℕ
  pub fresh_id : String
  pub sha256 : List ℕ → String
  pub manifest : List Commitment → String
  pub read_fails : String → Bool
  pub written : String → Written
