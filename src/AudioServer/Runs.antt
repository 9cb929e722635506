-- ===== src/AudioServer/Runs.antt =====
-- Any sequence of calls of apps/api/src/audio/audio.service.ts, each with its own clock, identifiers
-- and file system: what was stored stays.
use elder_interview_ai.Prelude.{
  ℕ, refl, Bool, not, ◌&&◌, String, List, [], ◌∷◌, Option, arith, ◌==◌, eqb,
}
use elder_interview_ai.Prelude.Action.{◌>>=◌, pure, throw, throw_if, catch}
use elder_interview_ai.AudioServer.Tables.{
  AudioObject, AudioChunk, SessionFinalization, Response, State, Failure, conflict, thrown,
  not_found, Call, Actor, AudioChunkInput, Platform,
}
use elder_interview_ai.AudioServer.Storage.{StoredAudioChunk, inspect}
use elder_interview_ai.AudioServer.Access.{
  transaction, query, find_object, find_finalization, assert_project_access, find_accessible_object,
  find_object_for_write, IdempotencyBinding, find_replay, replay_or, write_idempotency,
  assert_complete_authority, assert_writable, set_object,
}
use elder_interview_ai.AudioServer.Service.{
  binding, is_stored, CreateAudioObjectRequest, map_audio_manifest, chunks_of, create_object,
  upload_chunk, get_manifest,
}
use elder_interview_ai.AudioServer.Complete.{
  check_manifest, assert_continuous, is_frozen_as, verify_file, verify_files, completed,
  admit_completion, checked_chunks, store_manifest, complete_fresh, complete_object,
}
use elder_interview_ai.AudioServer.Preserved.{
  Preserved, Preserved-refl, Preserved-trans, Keeps, Keeps-bind, Keeps-catch, Keeps-transaction,
  Keeps-guard, Keeps-required, Keeps-reads,
}
use elder_interview_ai.AudioServer.Kept.{inspect-Keeps}
use elder_interview_ai.AudioServer.Calls.{
  find_object_for_write-Keeps, replayed-Keeps, write_idempotency-Keeps, set_object-Keeps,
  assert_writable-Keeps, project_access-Keeps, complete_authority-Keeps,
}
use elder_interview_ai.AudioServer.Immutable.{create_object-Keeps, upload_chunk-Keeps}

-- A request that writes, and the call that reads a manifest.
pub data AudioRequest : Type 0 where
  create : Actor → (project_id : String) → CreateAudioObjectRequest → AudioRequest
  upload : Actor → (object_id : String) → AudioChunkInput → List ℕ → AudioRequest
  finish :
      Actor → (object_id : String) → (expected_count : ℕ) → (request_id : String) → AudioRequest

pub data AudioCall : Type 0 where
  request : AudioRequest → AudioCall
  manifest : Actor → (object_id : String) → AudioCall

abbrev pub serve : Platform → AudioRequest → Call Response
serve p (create actor project_id input) = create_object p actor project_id input
serve p (upload actor object_id input bytes) = upload_chunk p actor object_id input bytes
serve p (finish actor object_id n request_id) = complete_object p actor object_id n request_id

abbrev pub perform : Platform → AudioCall → Call Response
perform p (request q) = serve p q
perform p (manifest actor object_id) = get_manifest p actor object_id

unfoldable pub run : List (Platform × AudioCall) → State → State
run [] s = s
run ((p, c) ∷ cs) s = run cs (perform p c s).1

module _ (p : Platform) where
  object_for-Keeps :
      (actor : Actor) (object_id : String) → Keeps (find_accessible_object actor object_id)
  unfolding find_accessible_object
  object_for-Keeps actor object_id s =
      let rest = λ (o : AudioObject). assert_project_access actor o.project_id >>= λ _. pure o in
      Keeps-required (find_object object_id s.database) not_found rest
        (λ o.
          Keeps-bind (assert_project_access actor o.project_id) (λ _. pure o)
            (project_access-Keeps actor o.project_id) (λ _. Preserved-refl))
        s

  map_audio_manifest-Keeps :
      (object : AudioObject) (chunks : List AudioChunk) → Keeps (map_audio_manifest object chunks)
  unfolding map_audio_manifest
  map_audio_manifest-Keeps object chunks =
      Keeps-reads (map_audio_manifest object chunks) (λ s. ground arith)

  get_manifest-Keeps : (actor : Actor) (object_id : String) → Keeps (get_manifest p actor object_id)
  unfolding get_manifest
  get_manifest-Keeps actor object_id =
      Keeps-bind (find_accessible_object actor object_id)
        (λ o. query (chunks_of object_id) >>= λ cs. map_audio_manifest o cs)
        (object_for-Keeps actor object_id)
        (λ o s. map_audio_manifest-Keeps o (chunks_of object_id s.database) s)

  verify_file-Keeps : (a b : String) (c : AudioChunk) → Keeps (verify_file p a b c)
  unfolding verify_file
  verify_file-Keeps a b c =
      let compare = λ (st : StoredAudioChunk).
        throw_if {S = State} (not (st.checksum == c.checksum && eqb st.size_bytes c.size_bytes))
          (thrown b) in
      Keeps-guard (not (is_stored c)) (thrown a) (λ _. inspect p c.object_key >>= compare)
        (Keeps-bind (inspect p c.object_key) compare (inspect-Keeps p c.object_key)
          (λ st. Preserved-refl))

  verify_files-Keeps : (a b : String) (cs : List AudioChunk) → Keeps (verify_files p a b cs)
  unfolding verify_files
  verify_files-Keeps a b [] = Preserved-refl
  verify_files-Keeps a b (c ∷ cs) =
      Keeps-bind (verify_file p a b c) (λ _. verify_files p a b cs) (verify_file-Keeps a b c)
        (λ _. verify_files-Keeps a b cs)

  check_manifest-Keeps :
      (cs : List AudioChunk) (n : ℕ) (f : Option SessionFinalization)
      → Keeps (check_manifest p cs n f)
  unfolding check_manifest assert_continuous
  check_manifest-Keeps cs n f =
      let files : Call (Unit {0}) =
        verify_files p "Chunk is not uploaded" "Stored chunk mismatch" cs in
      let frozen : Bool = not (is_frozen_as f n cs) in
      let mismatch : Failure = thrown "Frozen commitment mismatch" in
      Keeps-bind (assert_continuous cs n) (λ _. throw_if frozen mismatch >>= λ _. files)
        (Keeps-reads (assert_continuous cs n) (λ s. ground arith))
        (λ _.
          Keeps-guard frozen mismatch (λ _. files)
            (verify_files-Keeps "Chunk is not uploaded" "Stored chunk mismatch" cs))

  checked_chunks-Keeps : (object_id : String) (n : ℕ) → Keeps (checked_chunks p object_id n)
  unfolding checked_chunks
  checked_chunks-Keeps object_id n s =
      let cs : List AudioChunk = chunks_of object_id s.database in
      let m : Call (Unit {0}) = check_manifest p cs n (find_finalization object_id s.database) in
      let h =
        λ (e : Failure). throw {S = State} {A = Unit {0}} (conflict "AUDIO_MANIFEST_INCOMPLETE") in
      Keeps-bind (catch m h) (λ _. pure cs)
        (Keeps-catch m h (check_manifest-Keeps cs n (find_finalization object_id s.database))
          (λ e. Preserved-refl))
        (λ _. Preserved-refl) s

  admit_completion-Keeps :
      (actor : Actor) (object_id : String) (n : ℕ) → Keeps (admit_completion p actor object_id n)
  unfolding admit_completion
  admit_completion-Keeps actor object_id n s =
      let rest = λ (o : AudioObject).
        assert_complete_authority o actor n >>= λ _. assert_writable o >>= λ _. pure o in
      Keeps-required (find_object object_id s.database) not_found rest
        (λ o.
          Keeps-bind (assert_complete_authority o actor n) (λ _. assert_writable o >>= λ _. pure o)
            (complete_authority-Keeps o actor n)
            (λ _.
              Keeps-bind (assert_writable o) (λ _. pure o) (assert_writable-Keeps o)
                (λ _. Preserved-refl)))
        s

  store_manifest-Keeps :
      (object_id : String) (n : ℕ) (request_id : String) (b : IdempotencyBinding) (o : AudioObject)
      (cs : List AudioChunk)
      → Keeps (store_manifest p object_id n request_id b o cs)
  unfolding store_manifest
  store_manifest-Keeps object_id n request_id b o cs =
      let record_it = λ (r : Response). write_idempotency request_id b r >>= λ _. pure r in
      let answer : Call Response = map_audio_manifest (completed p n cs o) cs in
      Keeps-bind (set_object object_id (completed p n cs)) (λ _. answer >>= record_it)
        (set_object-Keeps object_id (completed p n cs) (λ x. refl))
        (λ _. Keeps-bind answer record_it (map_audio_manifest-Keeps (completed p n cs o) cs) (λ r.
          Keeps-bind (write_idempotency request_id b r) (λ _. pure r)
            (write_idempotency-Keeps request_id b r) (λ _. Preserved-refl)))

  complete_fresh-Keeps :
      (actor : Actor) (object_id : String) (n : ℕ) (request_id : String) (b : IdempotencyBinding)
      → Keeps (complete_fresh p actor object_id n request_id b)
  unfolding complete_fresh
  complete_fresh-Keeps actor object_id n request_id b =
      let store = λ (o : AudioObject) (cs : List AudioChunk).
        store_manifest p object_id n request_id b o cs in
      Keeps-bind (admit_completion p actor object_id n)
        (λ o. checked_chunks p object_id n >>= λ cs. store o cs)
        (admit_completion-Keeps actor object_id n)
        (λ o.
          Keeps-bind (checked_chunks p object_id n) (λ cs. store o cs)
            (checked_chunks-Keeps object_id n)
            (λ cs. store_manifest-Keeps object_id n request_id b o cs))

  pub complete_object-Keeps :
      (actor : Actor) (object_id : String) (n : ℕ) (request_id : String)
      → Keeps (complete_object p actor object_id n request_id)
  unfolding complete_object
  complete_object-Keeps actor object_id n request_id =
      let b : IdempotencyBinding =
        binding "audio_object.complete" actor.id "audio_object" object_id in
      let fresh : Call Response = complete_fresh p actor object_id n request_id b in
      let again : Call Response = find_replay request_id b >>= λ o. replay_or o fresh in
      Keeps-bind (find_object_for_write actor object_id)
        (λ _. find_replay request_id b >>= λ o. replay_or o (transaction again))
        (find_object_for_write-Keeps actor object_id)
        (λ _. replayed-Keeps request_id b (transaction again) (
          Keeps-transaction again (
            replayed-Keeps request_id b fresh
              (complete_fresh-Keeps actor object_id n request_id b))))

serve-Keeps : (p : Platform) (q : AudioRequest) → Keeps (serve p q)
serve-Keeps p (create actor project_id input) = create_object-Keeps p actor project_id input
serve-Keeps p (upload actor object_id input bytes) =
    upload_chunk-Keeps p actor object_id input bytes
serve-Keeps p (finish actor object_id n request_id) =
    complete_object-Keeps p actor object_id n request_id

perform-Keeps : (p : Platform) (c : AudioCall) → Keeps (perform p c)
perform-Keeps p (request q) = serve-Keeps p q
perform-Keeps p (manifest actor object_id) = get_manifest-Keeps p actor object_id

-- Whatever calls follow, and however they end, the row of a chunk, the answer recorded for a request
-- and the file of a key stay as they are, an object stays there, and the projects and their
-- assignments are the same.
pub run-Preserved : (cs : List (Platform × AudioCall)) (s : State) → Preserved s (run cs s)
unfolding run
run-Preserved [] s = Preserved-refl s
run-Preserved ((p, c) ∷ cs) s =
    Preserved-trans s (perform p c s).1 (run cs (perform p c s).1) (perform-Keeps p c s)
      (run-Preserved cs (perform p c s).1)
