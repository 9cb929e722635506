-- ===== src/AudioServer/Immutable.antt =====
-- Any sequence of calls of apps/api/src/audio/audio.service.ts: what was stored stays.
use elder_interview_ai.Prelude.{
  ℕ, refl, Bool, not, ◌&&◌, String, List, [], ◌∷◌, ◌++◌, Option, none, some, arith, ◌==◌, eqb,
  if_elim, length,
}
use elder_interview_ai.Prelude.Text.{◌^^◌, decimal}
use elder_interview_ai.Prelude.Action.{◌>>=◌, pure, throw, throw_if, catch}
use elder_interview_ai.AudioServer.Tables.{
  uploading, AudioObject, AudioChunk, Response, object_response, State, Failure, conflict,
  not_found, storage_unavailable, object_missing, Call, Actor, AudioChunkInput, Platform,
}
use elder_interview_ai.AudioServer.Storage.{StoredAudioChunk, inspect}
use elder_interview_ai.AudioServer.Access.{
  transaction, query, write, find_object, find_chunk, assert_project_access, find_object_for_write,
  assert_active_assignment, IdempotencyBinding, is_initiated, find_replay, replay_or,
  write_idempotency, assert_upload_authority, assert_writable,
}
use elder_interview_ai.AudioServer.Service.{
  binding, CreateAudioObjectRequest, assert_create_gate, map_audio_chunk, object_key_of, new_object,
  create_fresh, create_object, chunk_conflicts, inspect_or_put, store_bytes, new_chunk,
  mark_uploading, store_row, admit_upload, keep_bytes, answer_upload, upload_fresh, upload_chunk,
}
use elder_interview_ai.AudioServer.Preserved.{
  Preserved-refl, Keeps, Keeps-bind, Keeps-catch, Keeps-transaction, Keeps-write, Keeps-guard,
  Keeps-required, Keeps-reads,
}
use elder_interview_ai.AudioServer.Kept.{
  object_added-TablesKept, chunk_added-TablesKept, inspect-Keeps, put_immutable-Keeps,
}
use elder_interview_ai.AudioServer.Calls.{
  find_object_for_write-Keeps, assigned-Keeps, replayed-Keeps, write_idempotency-Keeps,
  set_object-Keeps, assert_writable-Keeps, project_access-Keeps, upload_authority-Keeps,
}

module _ (p : Platform) where
  create_fresh-Keeps :
      (actor : Actor) (project_id : String) (input : CreateAudioObjectRequest)
      (b : IdempotencyBinding)
      → Keeps (create_fresh p actor project_id input b)
  unfolding create_fresh assert_create_gate
  create_fresh-Keeps actor project_id input b =
      let r : Response = object_response (new_object p actor project_id input) in
      let record_it : Call Response = write_idempotency input.request_id b r >>= λ _. pure r in
      let add : Call (Unit {0}) = write (λ d. record d {
        audio_objects = d.audio_objects ++ new_object p actor project_id input ∷ [];
      }) in
      let gate : Call (Unit {0}) = assert_create_gate project_id input in
      Keeps-bind (assert_active_assignment project_id actor.id)
        (λ _. gate >>= λ _. add >>= λ _. record_it) (assigned-Keeps project_id actor.id)
        (λ _.
          Keeps-bind gate (λ _. add >>= λ _. record_it) (Keeps-reads gate (λ s. ground arith))
            (λ _.
              Keeps-bind add (λ _. record_it)
                (Keeps-write _ (object_added-TablesKept (new_object p actor project_id input)))
                (λ _.
                  Keeps-bind (write_idempotency input.request_id b r) (λ _. pure r)
                    (write_idempotency-Keeps input.request_id b r) (λ _. Preserved-refl))))

  pub create_object-Keeps :
      (actor : Actor) (project_id : String) (input : CreateAudioObjectRequest)
      → Keeps (create_object p actor project_id input)
  unfolding create_object
  create_object-Keeps actor project_id input =
      let b : IdempotencyBinding =
        binding "audio_object.create" actor.id "elder_project" project_id in
      let again : Call Response = find_replay input.request_id b >>= λ o.
      replay_or o (create_fresh p actor project_id input b) in
      Keeps-bind (assert_project_access actor project_id)
        (λ _. find_replay input.request_id b >>= λ o. replay_or o (transaction again))
        (project_access-Keeps actor project_id)
        (λ _. replayed-Keeps input.request_id b (transaction again) (
          Keeps-transaction again (
            replayed-Keeps input.request_id b (create_fresh p actor project_id input b)
              (create_fresh-Keeps actor project_id input b))))

  inspect_or_put-Keeps :
      (key : String) (bytes : List ℕ) (e : Failure) → Keeps (inspect_or_put p key bytes e)
  inspect_or_put-Keeps key bytes object_missing = put_immutable-Keeps p key bytes
  inspect_or_put-Keeps key bytes e = Preserved-refl

  store_bytes-Keeps :
      (key : String) (bytes : List ℕ) (o : Option AudioChunk) → Keeps (store_bytes p key bytes o)
  store_bytes-Keeps key bytes none = put_immutable-Keeps p key bytes
  store_bytes-Keeps key bytes (some c) =
      Keeps-catch (inspect p key) (inspect_or_put p key bytes) (inspect-Keeps p key)
        (inspect_or_put-Keeps key bytes)

  keep_bytes-Keeps :
      (input : AudioChunkInput) (key : String) (bytes : List ℕ) (o : Option AudioChunk)
      → Keeps (keep_bytes p input key bytes o)
  unfolding keep_bytes
  keep_bytes-Keeps input key bytes o =
      let m : Call StoredAudioChunk =
        catch (store_bytes p key bytes o) (λ e. throw storage_unavailable) in
      let compare = λ (st : StoredAudioChunk).
        throw_if {S = State}
          (not (st.checksum == input.checksum && eqb st.size_bytes (length bytes)))
          (conflict "AUDIO_CHUNK_CONFLICT") in
      Keeps-guard (chunk_conflicts input key (length bytes) o) (conflict "AUDIO_CHUNK_CONFLICT")
        (λ _. m >>= compare)
        (Keeps-bind m compare
          (Keeps-catch (store_bytes p key bytes o) (λ e. throw storage_unavailable)
            (store_bytes-Keeps key bytes o) (λ e. Preserved-refl))
          (λ st. Preserved-refl))

  admit_upload-Keeps :
      (actor : Actor) (object_id : String) (input : AudioChunkInput)
      → Keeps (admit_upload p actor object_id input)
  unfolding admit_upload
  admit_upload-Keeps actor object_id input s =
      let checked = λ (o : AudioObject).
        throw_if {S = State} (not (o.mime_type == input.mime_type))
          (conflict "AUDIO_CHUNK_CONFLICT")
        >>= λ _. pure o in
      let rest = λ (o : AudioObject).
        assert_upload_authority o actor input >>= λ _. assert_writable o >>= λ _. checked o in
      Keeps-required (find_object object_id s.database) not_found rest
        (λ o.
          Keeps-bind (assert_upload_authority o actor input)
            (λ _. assert_writable o >>= λ _. checked o) (upload_authority-Keeps o actor input)
            (λ _.
              Keeps-bind (assert_writable o) (λ _. checked o) (assert_writable-Keeps o)
                (λ _. Keeps-reads (checked o) (λ u. ground arith))))
        s

  mark_uploading-Keeps : (object : AudioObject) → Keeps (mark_uploading p object)
  mark_uploading-Keeps object =
      if_elim (λ m. Keeps m) (is_initiated object.status)
        (set_object-Keeps object.id (λ (o : AudioObject). record o { status = uploading })
          (λ o. refl))
        Preserved-refl

  map_audio_chunk-Keeps : (c : AudioChunk) → Keeps (map_audio_chunk c)
  unfolding map_audio_chunk
  map_audio_chunk-Keeps c = Keeps-reads (map_audio_chunk c) (λ s. ground arith)

  store_row-Keeps :
      (object_id : String) (object : AudioObject) (input : AudioChunkInput) (key : String)
      (size : ℕ) (o : Option AudioChunk)
      → Keeps (store_row p object_id object input key size o)
  store_row-Keeps object_id object input key size (some c) = map_audio_chunk-Keeps c
  store_row-Keeps object_id object input key size none =
      let c : AudioChunk = new_chunk p object_id input key size in
      let add : Call (Unit {0}) =
        write (λ d. record d { audio_chunks = d.audio_chunks ++ c ∷ [] }) in
      Keeps-bind add (λ _. mark_uploading p object >>= λ _. map_audio_chunk c)
        (Keeps-write _ (chunk_added-TablesKept c))
        (λ _.
          Keeps-bind (mark_uploading p object) (λ _. map_audio_chunk c)
            (mark_uploading-Keeps object) (λ _. map_audio_chunk-Keeps c))

  answer_upload-Keeps :
      (object_id : String) (object : AudioObject) (input : AudioChunkInput) (key : String)
      (size : ℕ) (o : Option AudioChunk) (b : IdempotencyBinding)
      → Keeps (answer_upload p object_id object input key size o b)
  unfolding answer_upload
  answer_upload-Keeps object_id object input key size o b =
      Keeps-bind (store_row p object_id object input key size o)
        (λ r. write_idempotency input.request_id b r >>= λ _. pure r)
        (store_row-Keeps object_id object input key size o)
        (λ r.
          Keeps-bind (write_idempotency input.request_id b r) (λ _. pure r)
            (write_idempotency-Keeps input.request_id b r) (λ _. Preserved-refl))

  upload_fresh-Keeps :
      (actor : Actor) (object_id : String) (input : AudioChunkInput) (bytes : List ℕ)
      (b : IdempotencyBinding)
      → Keeps (upload_fresh p actor object_id input bytes b)
  unfolding upload_fresh
  upload_fresh-Keeps actor object_id input bytes b =
      let key : String = object_key_of object_id input.sequence_no in
      let answer = λ (o : AudioObject) (x : Option AudioChunk).
        answer_upload p object_id o input key (length bytes) x b in
      let rest = λ (o : AudioObject) (x : Option AudioChunk).
        keep_bytes p input key bytes x >>= λ _. answer o x in
      Keeps-bind (admit_upload p actor object_id input)
        (λ o. query (find_chunk object_id input.sequence_no) >>= λ x. rest o x)
        (admit_upload-Keeps actor object_id input)
        (λ o u.
          let x : Option AudioChunk = find_chunk object_id input.sequence_no u.database in
          Keeps-bind (keep_bytes p input key bytes x) (λ _. answer o x)
            (keep_bytes-Keeps input key bytes x)
            (λ _. answer_upload-Keeps object_id o input key (length bytes) x b) u)

  pub upload_chunk-Keeps :
      (actor : Actor) (object_id : String) (input : AudioChunkInput) (bytes : List ℕ)
      → Keeps (upload_chunk p actor object_id input bytes)
  unfolding upload_chunk
  upload_chunk-Keeps actor object_id input bytes =
      let b : IdempotencyBinding =
        binding ("audio_chunk.upload:" ^^ decimal input.sequence_no) actor.id "audio_object"
          object_id in
      let fresh : Call Response = upload_fresh p actor object_id input bytes b in
      let again : Call Response = find_replay input.request_id b >>= λ o. replay_or o fresh in
      let wrong : Bool = not (p.sha256 bytes == input.checksum) in
      let checked : Call Response =
        throw_if wrong (conflict "AUDIO_CHECKSUM_MISMATCH") >>= λ _. transaction again in
      Keeps-bind (find_object_for_write actor object_id)
        (λ _. find_replay input.request_id b >>= λ o. replay_or o checked)
        (find_object_for_write-Keeps actor object_id)
        (λ _. replayed-Keeps input.request_id b checked (
          Keeps-guard wrong (conflict "AUDIO_CHECKSUM_MISMATCH") (λ _. transaction again)
            (Keeps-transaction again (
              replayed-Keeps input.request_id b fresh
                (upload_fresh-Keeps actor object_id input bytes b)))))
