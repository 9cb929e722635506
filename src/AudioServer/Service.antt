-- ===== src/AudioServer/Service.antt =====
-- The calls `createObject`, `uploadChunk` and `getManifest` of apps/api/src/audio/audio.service.ts.
use elder_interview_ai.Prelude.{
  ℕ, Bool, true, false, not, ◌&&◌, String, List, [], ◌∷◌, ◌++◌, Option, none, some, if◌then◌else◌,
  eqb, ltb, ◌^◌, all, length, keep, is_some, ◌==◌,
}
use elder_interview_ai.Prelude.Sort.{sort_by}
use elder_interview_ai.Prelude.Text.{◌^^◌, decimal}
use elder_interview_ai.Prelude.Action.{◌>>=◌, ◌>>◌, pure, throw, throw_if, require, catch}
use elder_interview_ai.AudioServer.Tables.{
  AudioPurpose, initiated, uploading, AudioObject, AudioChunk, Response, object_response,
  chunk_response, manifest_response, Database, Failure, conflict, thrown, not_found,
  storage_unavailable, object_missing, Call, Actor, AudioChunkInput, Platform,
}
use elder_interview_ai.AudioServer.Storage.{StoredAudioChunk, inspect, put_immutable}
use elder_interview_ai.AudioServer.Access.{
  transaction, query, write, find_object, find_chunk, has_project, assert_project_access,
  find_accessible_object, find_object_for_write, assert_active_assignment, IdempotencyBinding,
  find_replay, replay_or, write_idempotency, assert_upload_authority, is_initiated, is_consent,
  assert_writable, set_object,
}

abbrev pub binding : String → String → String → String → IdempotencyBinding
binding action actor_id target_type target_id = record {
  action = action;
  actor_id = actor_id;
  target_id = target_id;
  target_type = target_type;
}

pub record CreateAudioObjectRequest : Type 0 where
  pub mime_type : String
  pub purpose : AudioPurpose
  pub request_id : String
  pub session_id : Option String

unfoldable pub assert_create_gate : String → CreateAudioObjectRequest → Call (Unit {0})
assert_create_gate project_id input = do
  is_there ← query (has_project project_id)
  throw_if (not is_there) not_found
  throw_if (not (is_consent input.purpose)) (conflict "INTERVIEW_AUDIO_START_REQUIRED")

-- `mapAudioChunk` refuses a chunk that is not uploaded.
abbrev pub is_stored : AudioChunk → Bool
is_stored c = c.is_uploaded && is_some c.uploaded_at

unfoldable pub map_audio_chunk : AudioChunk → Call Response
map_audio_chunk c = do
  throw_if (not (is_stored c)) (thrown "Only uploaded audio chunks can be acknowledged")
  pure (chunk_response c)

abbrev pub is_safe_size : Option ℕ → Bool
is_safe_size none = true
is_safe_size (some n) = ltb n (2 ^ 53)

-- `mapAudioManifest`: a size is answered as a number, and must be safe as one.
unfoldable pub map_audio_manifest : AudioObject → List AudioChunk → Call Response
map_audio_manifest object chunks = do
  throw_if (not (is_safe_size object.total_size_bytes))
      (thrown "Audio object size exceeds the API safe integer range")
  throw_if (not (all is_stored chunks)) (thrown "Only uploaded audio chunks can be acknowledged")
  pure (manifest_response object chunks)

abbrev pub object_key_of : String → ℕ → String
object_key_of object_id n = object_id ^^ "/" ^^ decimal n ^^ ".bin"

-- The row of a chunk that was uploaded before is the same as the request says.
abbrev pub same_chunk : AudioChunkInput → String → (size_bytes : ℕ) → AudioChunk → Bool
same_chunk input key size c =
    c.checksum == input.checksum
    && eqb c.end_ms input.end_ms
    && c.mime_type == input.mime_type
    && c.object_key == key
    && eqb c.size_bytes size
    && eqb c.start_ms input.start_ms
    && c.is_uploaded

abbrev pub chunk_conflicts : AudioChunkInput → String → (size_bytes : ℕ) → Option AudioChunk → Bool
chunk_conflicts input key size none = false
chunk_conflicts input key size (some c) = not (same_chunk input key size c)

-- `orderBy: { sequenceNo: 'asc' }`
unfoldable pub chunks_of : String → Database → List AudioChunk
chunks_of object_id d =
    sort_by (λ (c : AudioChunk). c.sequence_no)
      (keep (λ (c : AudioChunk). c.audio_object_id == object_id) d.audio_chunks)

module _ (p : Platform) where
  abbrev pub new_object : Actor → String → CreateAudioObjectRequest → AudioObject
  new_object actor project_id input = record {
    id = p.fresh_id;
    project_id = project_id;
    session_id = input.session_id;
    purpose = input.purpose;
    status = initiated;
    mime_type = input.mime_type;
    chunk_count = none;
    total_size_bytes = none;
    manifest_checksum = none;
    created_by = actor.id;
    created_at = p.now;
    completed_at = none;
  }

  unfoldable pub create_fresh :
      Actor → String → CreateAudioObjectRequest → IdempotencyBinding → Call Response
  create_fresh actor project_id input b = do
    assert_active_assignment project_id actor.id
    assert_create_gate project_id input
    write (λ d. record d {
      audio_objects = d.audio_objects ++ new_object actor project_id input ∷ [];
    })
    write_idempotency input.request_id b (object_response (new_object actor project_id input))
    pure (object_response (new_object actor project_id input))

  unfoldable pub create_object : Actor → String → CreateAudioObjectRequest → Call Response
  create_object actor project_id input = do
    assert_project_access actor project_id
    let b : IdempotencyBinding = binding "audio_object.create" actor.id "elder_project" project_id
    replay ← find_replay input.request_id b
    replay_or replay (
        transaction (do
          again ← find_replay input.request_id b
          replay_or again (create_fresh actor project_id input b)))

  abbrev pub inspect_or_put : String → List ℕ → Failure → Call StoredAudioChunk
  inspect_or_put key bytes object_missing = put_immutable p key bytes
  inspect_or_put key bytes e = throw e

  -- The file of a chunk: written for a new one, and for an old one whose file is gone.
  abbrev pub store_bytes : String → List ℕ → Option AudioChunk → Call StoredAudioChunk
  store_bytes key bytes none = put_immutable p key bytes
  store_bytes key bytes (some c) = catch (inspect p key) (inspect_or_put key bytes)

  abbrev pub new_chunk : String → AudioChunkInput → String → (size_bytes : ℕ) → AudioChunk
  new_chunk object_id input key size = record {
    id = p.fresh_id;
    audio_object_id = object_id;
    sequence_no = input.sequence_no;
    object_key = key;
    start_ms = input.start_ms;
    end_ms = input.end_ms;
    size_bytes = size;
    checksum = input.checksum;
    mime_type = input.mime_type;
    is_uploaded = true;
    uploaded_at = some p.now;
  }

  abbrev pub mark_uploading : AudioObject → Call (Unit {0})
  mark_uploading object =
      if is_initiated object.status
      then set_object object.id (λ (o : AudioObject). record o { status = uploading })
      else pure tt

  -- The row of the chunk, and the answer. A row with these two numbers is unique.
  abbrev pub store_row :
      String
      → AudioObject
      → AudioChunkInput
      → String
      → (size_bytes : ℕ) → Option AudioChunk
      → Call Response
  store_row object_id object input key size (some c) = map_audio_chunk c
  store_row object_id object input key size none = do
    write
        (λ d. record d { audio_chunks = d.audio_chunks ++ new_chunk object_id input key size ∷ [] })
    mark_uploading object
    map_audio_chunk (new_chunk object_id input key size)

  -- The object that the actor may add this chunk to.
  unfoldable pub admit_upload : Actor → String → AudioChunkInput → Call AudioObject
  admit_upload actor object_id input = do
    found ← query (find_object object_id)
    object ← require found not_found
    assert_upload_authority object actor input
    assert_writable object
    throw_if (not (object.mime_type == input.mime_type)) (conflict "AUDIO_CHUNK_CONFLICT")
    pure object

  -- The file of the chunk, once it is there as the request says.
  unfoldable pub keep_bytes :
      AudioChunkInput → (key : String) → List ℕ → Option AudioChunk → Call (Unit {0})
  keep_bytes input key bytes existing = do
    throw_if (chunk_conflicts input key (length bytes) existing) (conflict "AUDIO_CHUNK_CONFLICT")
    stored ← catch (store_bytes key bytes existing) (λ e. throw storage_unavailable)
    throw_if (not (stored.checksum == input.checksum && eqb stored.size_bytes (length bytes)))
        (conflict "AUDIO_CHUNK_CONFLICT")

  unfoldable pub answer_upload :
      String
      → AudioObject
      → AudioChunkInput
      → (key : String) → (size_bytes : ℕ) → Option AudioChunk
      → IdempotencyBinding
      → Call Response
  answer_upload object_id object input key size existing b = do
    response ← store_row object_id object input key size existing
    write_idempotency input.request_id b response
    pure response

  unfoldable pub upload_fresh :
      Actor → String → AudioChunkInput → List ℕ → IdempotencyBinding → Call Response
  upload_fresh actor object_id input bytes b = do
    object ← admit_upload actor object_id input
    let key : String = object_key_of object_id input.sequence_no
    existing ← query (find_chunk object_id input.sequence_no)
    keep_bytes input key bytes existing
    answer_upload object_id object input key (length bytes) existing b

  unfoldable pub upload_chunk : Actor → String → AudioChunkInput → List ℕ → Call Response
  upload_chunk actor object_id input bytes = do
    object ← find_object_for_write actor object_id
    let b : IdempotencyBinding =
        binding ("audio_chunk.upload:" ^^ decimal input.sequence_no) actor.id "audio_object"
          object_id
    replay ← find_replay input.request_id b
    replay_or replay (do
      throw_if (not (p.sha256 bytes == input.checksum)) (conflict "AUDIO_CHECKSUM_MISMATCH")
      transaction (do
        again ← find_replay input.request_id b
        replay_or again (upload_fresh actor object_id input bytes b)))

  unfoldable pub get_manifest : Actor → String → Call Response
  get_manifest actor object_id = do
    object ← find_accessible_object actor object_id
    chunks ← query (chunks_of object_id)
    map_audio_manifest object chunks
