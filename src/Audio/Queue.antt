-- ===== src/Audio/Queue.antt =====
-- apps/web/src/audio/audio-chunk-queue.ts: the store behind the checks of its arguments. The digest
-- of a blob and the clock are the platform's. A time is an integer here.
use elder_interview_ai.Prelude.{
  ℕ, ◌^◌, Bool, not, ◌&&◌, ◌||◌, String, List, none, ltb, eqb, length, ◌==◌,
}
use elder_interview_ai.Prelude.Int.{leb_ℤ, is_negative, is_safe_integer, natural}
use elder_interview_ai.Prelude.Text.{is_blank}
use elder_interview_ai.Prelude.Action.{ok, Action, ◌>>◌, throw, throw_if, gets, catch}
use elder_interview_ai.Audio.Types.{
  ImmutableAudioChunk, BufferedAudioChunk, NewAudioChunk, AudioArchiveSnapshot, pending,
  audio_buffer_capacity_exceeded, audio_buffer_conflict, audio_buffer_write_failed, Thrown, error,
  range_error, type_error, capture_error, audio_buffer_write_error, audio_chunk_key,
}
use elder_interview_ai.Audio.Store.{
  Store, acknowledge, get_archive_snapshot, get_next_sequence_no, get_timeline_end_ms, list,
  list_archive, persist_immutable,
}

-- The fields of `AudioChunkQueue` but the store.
pub record Options : Type 0 where
  pub checksum : List ℕ → String
  pub maximum_buffered_bytes : ℕ
  pub now : String

abbrev pub StoreAction : Type 0 → Type 0
StoreAction A = Action Store Thrown A

-- The check of the constructor.
unfoldable pub is_allowed : Options → Bool
is_allowed o = ltb o.maximum_buffered_bytes (2 ^ 53) && not (eqb o.maximum_buffered_bytes 0)

unfoldable pub require_session_id : String → StoreAction (Unit {0})
require_session_id session_id = throw_if (is_blank session_id) (type_error "sessionId is required")

unfoldable pub validate_new_chunk : NewAudioChunk → StoreAction (Unit {0})
unfolding require_session_id
validate_new_chunk input = do
  require_session_id input.session_id
  throw_if (not (is_safe_integer input.sequence_no) || is_negative input.sequence_no)
      (range_error "sequenceNo must be a non-negative safe integer")
  throw_if (is_negative input.started_at_ms) (range_error "startedAtMs must be non-negative")
  throw_if (not (leb_ℤ input.started_at_ms input.ended_at_ms))
      (range_error "endedAtMs must be greater than or equal to startedAtMs")
  throw_if (eqb (length input.blob) 0) (range_error "empty audio chunks are not persisted")
  throw_if (is_blank input.mime_type) (type_error "mimeType is required")

-- The record of a chunk that passed the checks.
unfoldable pub new_record : Options → NewAudioChunk → BufferedAudioChunk
new_record o input = record {
  chunk = record {
    blob = input.blob;
    byte_length = length input.blob;
    checksum_sha256 = o.checksum input.blob;
    created_at = o.now;
    ended_at_ms = natural input.ended_at_ms;
    key = audio_chunk_key input.session_id (natural input.sequence_no);
    mime_type = input.mime_type;
    sequence_no = natural input.sequence_no;
    session_id = input.session_id;
    started_at_ms = natural input.started_at_ms;
  };
  delivery = record { last_error = none; retry_count = 0; status = pending };
}

-- The handler of `enqueue`: only an error of capacity or of conflict passes as it is.
abbrev pub enqueue_error : Thrown → Thrown
enqueue_error (capture_error audio_buffer_capacity_exceeded m) =
    capture_error audio_buffer_capacity_exceeded m
enqueue_error (capture_error audio_buffer_conflict m) = capture_error audio_buffer_conflict m
enqueue_error (capture_error audio_buffer_write_failed m) = audio_buffer_write_error
enqueue_error (error m) = audio_buffer_write_error
enqueue_error (range_error m) = audio_buffer_write_error
enqueue_error (type_error m) = audio_buffer_write_error

unfoldable pub enqueue : Options → NewAudioChunk → StoreAction BufferedAudioChunk
enqueue o input = do
  validate_new_chunk input
  catch (persist_immutable (new_record o input) o.maximum_buffered_bytes)
      (λ e. throw (enqueue_error e))

unfoldable pub restore : String → StoreAction (List BufferedAudioChunk)
restore session_id = do require_session_id session_id; gets (list session_id)

unfoldable pub restore_archive : String → StoreAction (List ImmutableAudioChunk)
restore_archive session_id = do require_session_id session_id; gets (list_archive session_id)

unfoldable pub queue_archive_snapshot : String → StoreAction AudioArchiveSnapshot
queue_archive_snapshot session_id = do
  require_session_id session_id
  gets (get_archive_snapshot session_id)

unfoldable pub queue_next_sequence_no : String → StoreAction ℕ
queue_next_sequence_no session_id = do
  require_session_id session_id
  gets (get_next_sequence_no session_id)

unfoldable pub queue_timeline_end_ms : String → StoreAction ℕ
queue_timeline_end_ms session_id = do
  require_session_id session_id
  gets (get_timeline_end_ms session_id)

-- The store's call of the same name, as an action that throws nothing.
abbrev store_acknowledge : String → ℕ → String → StoreAction Bool
store_acknowledge session_id sequence_no checksum s =
    let (done, t) = acknowledge session_id sequence_no checksum s in (ok done, t)

unfoldable pub queue_acknowledge : String → ℕ → String → StoreAction Bool
queue_acknowledge session_id sequence_no checksum = do
  require_session_id session_id
  throw_if (checksum == "") (type_error "checksumSha256 is required")
  store_acknowledge session_id sequence_no checksum
