-- ===== src/Realtime/Messages.antt =====
-- The types of realtime-transport.ts: what the server sends, what the client sends, the state that
-- listeners see. The envelope's `event_id` (random), `schema_version` and `session_id` of a client
-- message are the same for every type and are left out.
use elder_interview_ai.Prelude.{
  ℕ, Bool, true, false, ◌||◌, String, List, Option, none, some, ◌==◌, eqb, if◌then◌else◌,
}
use elder_interview_ai.Prelude.Int.{ℤ}

pub data Connection : Type 0 where
  closed connecting connected reconnecting unavailable : Connection

pub data FailureKind : Type 0 where
  asr auth internal permission reset session : FailureKind

-- `RealtimeTranscriptFinal`; every optional field is set by the transport.
pub record TranscriptFinal : Type 0 where
  pub content_kind : String
  pub end_ms : ℕ
  pub segment_id : String
  pub speaker_role : String
  pub speaker_role_authority : String
  pub speaker_role_revision : ℕ
  pub speaker_stream_id : String
  pub trusted_speaker_role : String
  pub start_ms : ℕ
  pub text : String

pub record TranscriptInterim : Type 0 where
  pub content_kind : String
  pub end_ms : ℕ
  pub hypothesis_id : String
  pub revision : ℕ
  pub start_ms : ℕ
  pub text : String

-- The payload of `asr.final`.
pub record FinalPayload : Type 0 where
  pub end_ms : ℕ
  pub effective_speaker_role : String
  pub segment_id : String
  pub speaker_role : String
  pub speaker_role_authority : String
  pub speaker_role_revision : ℕ
  pub speaker_stream_id : String
  pub content_kind : String
  pub start_ms : ℕ
  pub text : String
  pub trusted_effective_speaker_role : String
  pub trusted_speaker_role : String

-- The payload of each server message, by its `type`. A calibration snapshot is only passed on.
-- `suggestion_changed` holds `none` for a revision that is not an integer.
pub data ServerBody : Type 0 where
  session_ready :
      (audio_stream_id : String) (highest_audio_sequence_acked : ℤ) (resumed : Bool)
      (speaker_calibration : String)
      → ServerBody
  calibration_updated : String → ServerBody
  audio_ack : (audio_stream_id : String) (highest_audio_sequence_acked : ℤ) → ServerBody
  asr_interim : TranscriptInterim → ServerBody
  asr_final : FinalPayload → ServerBody
  asr_status : (code : Option String) (status : String) → ServerBody
  suggestion_changed : (kind : String) (presentation_revision : Option ℤ) → ServerBody
  error : (code : String) (reset_required : Bool) → ServerBody
  other : (type : String) → ServerBody

pub record ServerEnvelope : Type 0 where
  pub event_stream_id : String
  pub schema_version : String
  pub server_sequence : ℤ
  pub session_id : String
  pub body : ServerBody

-- The payload of `audio.frame`; the constants of the format (one channel, 16 kHz, `pcm_s16le`,
-- 1600 samples) are left out.
pub record AudioFrame : Type 0 where
  pub audio_stream_id : String
  pub end_ms : ℕ
  pub pcm_base64 : String
  pub pcm_sha256 : String
  pub sequence_no : ℕ
  pub start_ms : ℕ

pub data ClientMessage : Type 0 where
  session_join :
      (audio_stream_id : String) (csrf_token : String) (resume : Option (String × ℤ))
      → ClientMessage
  audio_frame : AudioFrame → ClientMessage
  event_ack : (server_sequence : ℤ) → ClientMessage
  heartbeat : ClientMessage

pub record State : Type 0 where
  pub calibration : Option String
  pub connection : Connection
  pub error_code : Option String
  pub failure_kind : Option FailureKind
  pub finals : List TranscriptFinal
  pub interim : Option TranscriptInterim
  pub pending_bytes : ℕ
  pub pending_frames : ℕ
  pub reset_required : Bool
  pub resumed : Bool
  pub suggestion_presentation_revision : Option ℤ

pub record Failure : Type 0 where
  pub code : String
  pub kind : FailureKind
  pub reset_required : Bool

abbrev pub failure : String → FailureKind → Bool → Failure
failure code kind reset_required = record {
  code = code;
  kind = kind;
  reset_required = reset_required;
}

unfoldable pub classify_error : String → FailureKind
classify_error code =
    if code == "AUTH_REQUIRED" || code == "INVALID_CSRF_TOKEN"
    then auth
    else if code == "FORBIDDEN"
    then permission
    else if code == "RESUME_WINDOW_EXPIRED"
    then reset
    else if code == "ASR_UNAVAILABLE"
    then asr
    else if code == "REALTIME_UNAVAILABLE"
    then internal
    else session

unfoldable pub classify_close : ℕ → String → Option Failure
classify_close close_code reason =
    let code = λ (fallback : String). if reason == "" then fallback else reason in
    if eqb close_code 4401
    then some (failure (code "AUTH_REQUIRED") auth false)
    else if eqb close_code 4403
    then some (failure (code "FORBIDDEN") permission false)
    else if eqb close_code 4408
    then some (failure (code "SESSION_NOT_STREAMABLE") session false)
    else if eqb close_code 4450
    then some (failure (code "RESUME_WINDOW_EXPIRED") reset true)
    else if eqb close_code 4500
    then some (failure (code "REALTIME_UNAVAILABLE") internal false)
    else if eqb close_code 4503
    then some (failure (code "ASR_UNAVAILABLE") asr false)
    else none
