-- ===== src/AudioServer/Complete.antt =====
-- `AudioIntegrityService` of apps/api/src/audio/audio-integrity.service.ts, the digest of
-- audio-manifest.ts and `completeObject` of audio.service.ts.
use elder_interview_ai.Prelude.{
  ℕ, suc, ◌+◌, Bool, true, false, not, ◌&&◌, String, List, [], ◌∷◌, Option, none, some, eqb, length,
  is_some, is_none, ◌==◌, map,
}
use elder_interview_ai.Prelude.Action.{◌>>=◌, ◌>>◌, pure, throw, throw_if, require, catch}
use elder_interview_ai.AudioServer.Tables.{
  complete, AudioObject, AudioChunk, Commitment, SessionFinalization, Response, conflict, thrown,
  not_found, Call, Actor, Platform,
}
use elder_interview_ai.AudioServer.Storage.{inspect}
use elder_interview_ai.AudioServer.Access.{
  transaction, query, find_object, find_finalization, find_object_for_write, IdempotencyBinding,
  find_replay, replay_or, write_idempotency, assert_complete_authority, is_complete, is_consent,
  assert_writable, set_object,
}
use elder_interview_ai.AudioServer.Service.{binding, is_stored, chunks_of, map_audio_manifest}

-- The loop of `assertContinuous`: the next index and where the last chunk has ended.
unfoldable pub is_continuous_from : (index end_ms : ℕ) → List AudioChunk → Bool
is_continuous_from i at [] = true
is_continuous_from i at (c ∷ cs) =
    eqb c.sequence_no i && eqb c.start_ms at && is_continuous_from (suc i) c.end_ms cs

unfoldable pub assert_continuous : List AudioChunk → (expected_count : ℕ) → Call (Unit {0})
assert_continuous chunks expected = do
  throw_if (not (eqb (length chunks) expected)) (thrown "Audio manifest has missing chunks")
  throw_if (not (is_continuous_from 0 0 chunks)) (thrown "Audio manifest is not continuous")

-- What a manifest, and a commitment, says of a chunk.
abbrev pub entry : AudioChunk → Commitment
entry c = record {
  sequence_no = c.sequence_no;
  start_ms = c.start_ms;
  end_ms = c.end_ms;
  size_bytes = c.size_bytes;
  checksum = c.checksum;
  mime_type = c.mime_type;
}

unfoldable pub total_size : List AudioChunk → ℕ
total_size [] = 0
total_size (c ∷ cs) = c.size_bytes + total_size cs

abbrev pub same_entry : Commitment → AudioChunk → Bool
same_entry k c =
    eqb k.sequence_no c.sequence_no
    && eqb k.start_ms c.start_ms
    && eqb k.end_ms c.end_ms
    && eqb k.size_bytes c.size_bytes
    && k.checksum == c.checksum
    && k.mime_type == c.mime_type

-- Every chunk agrees with the commitment at its place, and there are as many of both.
unfoldable pub agrees_with : List Commitment → List AudioChunk → Bool
agrees_with [] [] = true
agrees_with [] (c ∷ cs) = false
agrees_with (k ∷ ks) [] = false
agrees_with (k ∷ ks) (c ∷ cs) = same_entry k c && agrees_with ks cs

abbrev pub is_frozen_as : Option SessionFinalization → ℕ → List AudioChunk → Bool
is_frozen_as none expected chunks = true
is_frozen_as (some f) expected chunks =
    eqb f.expected_chunk_count expected && agrees_with f.chunks chunks

module _ (p : Platform) where
  -- One round of the loop that reads the files; the texts of its errors are the caller's.
  unfoldable pub verify_file : (not_uploaded mismatch : String) → AudioChunk → Call (Unit {0})
  verify_file not_uploaded mismatch c = do
    throw_if (not (is_stored c)) (thrown not_uploaded)
    stored ← inspect p c.object_key
    throw_if (not (stored.checksum == c.checksum && eqb stored.size_bytes c.size_bytes))
        (thrown mismatch)

  unfoldable pub verify_files : (not_uploaded mismatch : String) → List AudioChunk → Call (Unit {0})
  verify_files not_uploaded mismatch [] = pure tt
  verify_files not_uploaded mismatch (c ∷ cs) = do
    verify_file not_uploaded mismatch c
    verify_files not_uploaded mismatch cs

  -- `canonicalAudioManifestChecksum`
  abbrev pub manifest_checksum : List AudioChunk → String
  manifest_checksum chunks = p.manifest (map entry chunks)

  abbrev pub holds_size : Option ℕ → ℕ → Bool
  holds_size none n = false
  holds_size (some m) n = eqb n m

  abbrev pub holds_text : Option String → String → Bool
  holds_text none t = false
  holds_text (some u) t = t == u

  -- The first test of `verifyCompleteManifest`.
  abbrev pub is_finished : AudioObject → List AudioChunk → Bool
  is_finished object chunks =
      is_complete object.status
      && holds_size object.chunk_count (length chunks)
      && is_some object.total_size_bytes
      && is_some object.manifest_checksum
      && is_some object.completed_at

  unfoldable pub verify_complete_manifest : AudioObject → List AudioChunk → Call (Unit {0})
  verify_complete_manifest object chunks = do
    throw_if (not (is_finished object chunks)) (thrown "Audio object is not complete")
    assert_continuous chunks (length chunks)
    verify_files "Audio chunk is not uploaded" "Stored audio chunk does not match metadata" chunks
    throw_if
        (not (
          holds_size object.total_size_bytes (total_size chunks)
          && holds_text object.manifest_checksum (manifest_checksum chunks)))
        (thrown "Audio manifest does not match persisted chunks")

  abbrev pub is_consent_object : String → Option AudioObject → Bool
  is_consent_object project_id none = false
  is_consent_object project_id (some o) =
      o.project_id == project_id
      && is_consent o.purpose
      && is_none o.session_id
      && is_complete o.status

  unfoldable pub verify_complete_consent_object : String → String → Call (Unit {0})
  verify_complete_consent_object project_id object_id = do
    found ← query (find_object object_id)
    throw_if (not (is_consent_object project_id found)) (conflict "CONSENT_AUDIO_NOT_VERIFIED")
    object ← require found (conflict "CONSENT_AUDIO_NOT_VERIFIED")
    chunks ← query (chunks_of object_id)
    catch (verify_complete_manifest object chunks)
        (λ e. throw (conflict "CONSENT_AUDIO_NOT_VERIFIED"))

  -- The part of `completeObject` under its `try`.
  unfoldable pub check_manifest :
      List AudioChunk → (expected_count : ℕ) → Option SessionFinalization → Call (Unit {0})
  check_manifest chunks expected finalization = do
    assert_continuous chunks expected
    throw_if (not (is_frozen_as finalization expected chunks)) (thrown "Frozen commitment mismatch")
    verify_files "Chunk is not uploaded" "Stored chunk mismatch" chunks

  abbrev pub completed : (expected_count : ℕ) → List AudioChunk → AudioObject → AudioObject
  completed expected chunks o = record o {
    chunk_count = some expected;
    completed_at = some p.now;
    manifest_checksum = some (manifest_checksum chunks);
    status = complete;
    total_size_bytes = some (total_size chunks);
  }

  -- The object that may be completed.
  unfoldable pub admit_completion : Actor → String → (expected_count : ℕ) → Call AudioObject
  admit_completion actor object_id expected = do
    found ← query (find_object object_id)
    object ← require found not_found
    assert_complete_authority object actor expected
    assert_writable object
    pure object

  -- Its chunks, with whatever error of the checks as one conflict.
  unfoldable pub checked_chunks : String → (expected_count : ℕ) → Call (List AudioChunk)
  checked_chunks object_id expected = do
    chunks ← query (chunks_of object_id)
    finalization ← query (find_finalization object_id)
    catch (check_manifest chunks expected finalization)
        (λ e. throw (conflict "AUDIO_MANIFEST_INCOMPLETE"))
    pure chunks

  unfoldable pub store_manifest :
      String
      → (expected_count : ℕ) → (request_id : String) → IdempotencyBinding
      → AudioObject
      → List AudioChunk
      → Call Response
  store_manifest object_id expected request_id b object chunks = do
    set_object object_id (completed expected chunks)
    response ← map_audio_manifest (completed expected chunks object) chunks
    write_idempotency request_id b response
    pure response

  unfoldable pub complete_fresh :
      Actor
      → String
      → (expected_count : ℕ) → (request_id : String) → IdempotencyBinding
      → Call Response
  complete_fresh actor object_id expected request_id b = do
    object ← admit_completion actor object_id expected
    chunks ← checked_chunks object_id expected
    store_manifest object_id expected request_id b object chunks

  unfoldable pub complete_object :
      Actor → String → (expected_count : ℕ) → (request_id : String) → Call Response
  complete_object actor object_id expected request_id = do
    object ← find_object_for_write actor object_id
    let b : IdempotencyBinding = binding "audio_object.complete" actor.id "audio_object" object_id
    replay ← find_replay request_id b
    replay_or replay (
        transaction (do
          again ← find_replay request_id b
          replay_or again (complete_fresh actor object_id expected request_id b)))
