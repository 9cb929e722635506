-- ===== src/Audio/Types.antt =====
-- apps/web/src/audio/types.ts and errors.ts: the chunks of a recording, how far each is delivered,
-- and what the calls throw. A `Blob` is its bytes.
use elder_interview_ai.Prelude.{ℕ, String, List, Option, Bool}
use elder_interview_ai.Prelude.Int.{ℤ}
use elder_interview_ai.Prelude.Text.{◌^^◌, decimal}

pub data AudioChunkDeliveryStatus : Type 0 where
  pending uploading failed : AudioChunkDeliveryStatus

pub record ImmutableAudioChunk : Type 0 where
  pub blob : List ℕ
  pub byte_length : ℕ
  pub checksum_sha256 : String
  pub created_at : String
  pub ended_at_ms : ℕ
  pub key : String
  pub mime_type : String
  pub sequence_no : ℕ
  pub session_id : String
  pub started_at_ms : ℕ

pub record AudioChunkDelivery : Type 0 where
  pub last_error : Option String
  pub retry_count : ℕ
  pub status : AudioChunkDeliveryStatus

pub record BufferedAudioChunk : Type 0 where
  pub chunk : ImmutableAudioChunk
  pub delivery : AudioChunkDelivery

pub record NewAudioChunk : Type 0 where
  pub blob : List ℕ
  pub ended_at_ms : ℤ
  pub mime_type : String
  pub sequence_no : ℤ
  pub session_id : String
  pub started_at_ms : ℤ

pub record AudioArchiveSnapshot : Type 0 where
  pub archive_byte_length : ℕ
  pub archive_chunk_count : ℕ
  pub archive_high_water_sequence_no : ℤ
  pub delivery_acknowledged_high_water_sequence_no : ℤ
  pub pending_delivery_count : ℕ
  pub timeline_end_ms : ℕ

pub data BrowserCaptureCheckpointStatus : Type 0 where
  failed recording starting stopped : BrowserCaptureCheckpointStatus

pub record BrowserCaptureCheckpoint : Type 0 where
  pub archive_high_water_sequence_no : ℤ
  pub audio_stream_id : String
  pub delivery_acknowledged_high_water_sequence_no : ℤ
  pub dirty : Bool
  pub local_job_id : String
  pub mime_type : String
  pub session_id : String
  pub status : BrowserCaptureCheckpointStatus
  pub timeline_end_ms : ℕ
  pub updated_at : String

-- `AudioCaptureErrorCode`, the part that the store and the queue use.
pub data AudioCaptureErrorCode : Type 0 where
  audio_buffer_capacity_exceeded audio_buffer_conflict audio_buffer_write_failed :
      AudioCaptureErrorCode

-- What a call throws: `Error`, `RangeError` or `TypeError` with a message, or an `AudioCaptureError`.
pub data Thrown : Type 0 where
  error range_error type_error : (message : String) → Thrown
  capture_error : AudioCaptureErrorCode → (message : String) → Thrown

abbrev pub audio_buffer_conflict_error : Thrown
audio_buffer_conflict_error = capture_error audio_buffer_conflict "同一会话和序号已经存在不同的原始音频分片"

abbrev pub audio_buffer_capacity_error : Thrown
audio_buffer_capacity_error = capture_error audio_buffer_capacity_exceeded "本地可靠暂存空间已达到安全上限"

abbrev pub audio_buffer_write_error : Thrown
audio_buffer_write_error = capture_error audio_buffer_write_failed "原始音频分片未能写入本地可靠暂存"

abbrev pub message : Thrown → String
message (error m) = m
message (range_error m) = m
message (type_error m) = m
message (capture_error c m) = m

unfoldable pub audio_chunk_key : String → ℕ → String
audio_chunk_key session_id sequence_no = session_id ^^ ":" ^^ decimal sequence_no
