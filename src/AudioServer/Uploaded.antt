-- ===== src/AudioServer/Uploaded.antt =====
-- The upload of a chunk by apps/api/src/audio/audio.service.ts, from the request to the answer.
use text.Mathlib.TextPositions.{eq_refl}
use elder_interview_ai.Prelude.{
  ℕ, ◌≡◌, refl, sym, ap, ◌∙◌, true, false, not, String, List, [], ◌∷◌, ◌++◌, Option, none, some,
  arith, length, ◌==◌, eq_iff,
}
use elder_interview_ai.Prelude.Rows.{find}
use elder_interview_ai.Prelude.Text.{◌^^◌, decimal}
use elder_interview_ai.Prelude.Map.{get}
use elder_interview_ai.Prelude.Action.{ok, ◌>>=◌, ◌>>◌, throw_if, throw_if->>=-ok, >>=-ok}
use elder_interview_ai.AudioServer.Tables.{
  AudioObject, AudioChunk, Response, chunk_response, State, conflict, Call, Actor, AudioChunkInput,
  Platform,
}
use elder_interview_ai.AudioServer.Access.{
  transaction, query, is_chunk_of, find_chunk, IdempotencyBinding, find_record, find_replay,
  replay_or, write_idempotency, assert_upload_authority, assert_active_assignment, assert_writable,
  set_object,
}
use elder_interview_ai.AudioServer.Service.{
  binding, is_stored, map_audio_chunk, object_key_of, chunk_conflicts, new_chunk, admit_upload,
  keep_bytes, answer_upload, upload_fresh, upload_chunk,
}
use elder_interview_ai.AudioServer.Verified.{HasFile}
use elder_interview_ai.AudioServer.Requests.{entered, new_request, committed}
use elder_interview_ai.AudioServer.Stored.{keep_bytes-Kept}

-- The answer is the row of the chunk, which says what the request says, and its file is there.
pub record IsStored (p : Platform) (object_id : String) (input : AudioChunkInput) (bytes : List ℕ)
    (r : Response) (t : State) : Type 0 where
  pub chunk : AudioChunk
  pub answer : r ≡ chunk_response chunk
  pub found : find_chunk object_id input.sequence_no t.database ≡ some chunk
  pub file : HasFile p t.files chunk
  pub key : chunk.object_key ≡ object_key_of object_id input.sequence_no
  pub checksum : chunk.checksum ≡ input.checksum
  pub size : chunk.size_bytes ≡ length bytes
  pub from : chunk.start_ms ≡ input.start_ms
  pub to : chunk.end_ms ≡ input.end_ms
  pub mime_type : chunk.mime_type ≡ input.mime_type
  pub stored : is_stored chunk ≡ true

-- A row that is new is found at the end.
find-end :
    (object_id : String) (n : ℕ) (c : AudioChunk) (cs : List AudioChunk)
    → find (is_chunk_of object_id n) cs ≡ none
    → is_chunk_of object_id n c ≡ true
    → find (is_chunk_of object_id n) (cs ++ c ∷ []) ≡ some c
unfolding find
find-end object_id n c [] h e = ground arith
find-end object_id n c (d ∷ ds) h e = ground (arith, find-end object_id n c ds)

module _ (p : Platform) (actor : Actor) (object_id : String) (input : AudioChunkInput) where
  admit_upload-tables :
      (s t : State) (object : AudioObject)
      → admit_upload p actor object_id input s ≡ (ok object, t)
      → (t.files ≡ s.files) × (t.database.audio_chunks ≡ s.database.audio_chunks)
  unfolding admit_upload assert_upload_authority assert_active_assignment assert_writable
  admit_upload-tables s t object h = ground arith

  -- What an answer leaves of the row.
  record Row (size : ℕ) (existing : Option AudioChunk) (key : String) (r : Response) (s t : State)
      : Type 0 where
    chunk : AudioChunk
    answer : r ≡ chunk_response chunk
    files : t.files ≡ s.files
    found : find_chunk object_id input.sequence_no t.database ≡ some chunk
    agrees : chunk_conflicts input key size (some chunk) ≡ false
    stored : is_stored chunk ≡ true

  appended :
      (object : AudioObject) (key : String) (size : ℕ) (b : IdempotencyBinding) (s t : State)
      (r : Response)
      → answer_upload p object_id object input key size none b s ≡ (ok r, t)
      → t.database.audio_chunks
        ≡ s.database.audio_chunks ++ new_chunk p object_id input key size ∷ []
  unfolding answer_upload map_audio_chunk write_idempotency set_object
  appended object key size b s t r h = ground arith

  answer_upload-Row :
      (object : AudioObject) (key : String) (size : ℕ) (existing : Option AudioChunk)
      (b : IdempotencyBinding) (s t : State) (r : Response)
      → find_chunk object_id input.sequence_no s.database ≡ existing
      → chunk_conflicts input key size existing ≡ false
      → answer_upload p object_id object input key size existing b s ≡ (ok r, t)
      → Row size existing key r s t
  unfolding answer_upload map_audio_chunk write_idempotency set_object find_chunk
  answer_upload-Row object key size none b s t r f a h = record {
    chunk = new_chunk p object_id input key size;
    answer = ground arith;
    files = ground arith;
    found =
        ap (find (is_chunk_of object_id input.sequence_no)) (appended object key size b s t r h)
        ∙ find-end object_id input.sequence_no (new_chunk p object_id input key size)
            s.database.audio_chunks f (ground (arith, eq_refl object_id));
    agrees = ground (arith, eq_refl input.checksum, eq_refl input.mime_type, eq_refl key);
    stored = refl;
  }
  answer_upload-Row object key size (some c) b s t r f a h = record {
    chunk = c;
    answer = ground arith;
    files = ground arith;
    found = ground arith;
    agrees = a;
    stored = ground arith;
  }

  same_chunk-fields :
      (key : String) (size : ℕ) (c : AudioChunk)
      → chunk_conflicts input key size (some c) ≡ false
      → (c.object_key ≡ key)
        × (c.checksum ≡ input.checksum)
        × (c.size_bytes ≡ size)
        × (c.start_ms ≡ input.start_ms)
        × (c.end_ms ≡ input.end_ms)
        × (c.mime_type ≡ input.mime_type)
  same_chunk-fields key size c h = ground (
    arith,
    eq_iff c.object_key key,
    eq_iff c.checksum input.checksum,
    eq_iff c.mime_type input.mime_type,
  )

  upload_fresh-IsStored :
      (bytes : List ℕ) (b : IdempotencyBinding) (s t : State) (r : Response)
      → upload_fresh p actor object_id input bytes b s ≡ (ok r, t)
      → IsStored p object_id input bytes r t
  unfolding upload_fresh
  upload_fresh-IsStored bytes b s t r h =
      let key : String = object_key_of object_id input.sequence_no in
      let size : ℕ = length bytes in
      let answer = λ (o : AudioObject) (x : Option AudioChunk).
        answer_upload p object_id o input key size x b in
      let rest = λ (o : AudioObject) (x : Option AudioChunk).
        keep_bytes p input key bytes x >>= λ _. answer o x in
      let (o, u, h1, h2) =
        >>=-ok (admit_upload p actor object_id input)
          (λ o. query (find_chunk object_id input.sequence_no) >>= λ x. rest o x) s t r h in
      let existing : Option AudioChunk = find_chunk object_id input.sequence_no u.database in
      let (x, v, h3, h4) =
        >>=-ok (keep_bytes p input key bytes existing) (λ _. answer o existing) u t r h2 in
      let k = keep_bytes-Kept p key input bytes existing u v x h3 in
      let row =
        answer_upload-Row o key size existing b v t r
          (ap (find_chunk object_id input.sequence_no) k.tables) k.agrees h4 in
      let c : AudioChunk = row.chunk in
      let same = same_chunk-fields key size c row.agrees in
      record {
        chunk = c;
        answer = row.answer;
        found = row.found;
        file = record {
          bytes = k.content;
          there = ap (λ i. get i t.files) same.0 ∙ (ap (get key) row.files ∙ k.there);
          digest = k.digest ∙ sym same.1;
          size = k.size ∙ sym same.2;
        };
        key = same.0;
        checksum = same.1;
        size = same.2;
        from = same.3;
        to = same.4;
        mime_type = same.5;
        stored = row.stored;
      }

-- A request of an interviewer to upload a chunk, if the request is new and answered, has stored it:
-- the answer is the chunk's row, which says what the request says, and its file has that size and
-- that digest.
pub upload_chunk-IsStored :
    (p : Platform) (actor : Actor) (object_id : String) (input : AudioChunkInput) (bytes : List ℕ)
    (s t : State) (r : Response)
    → actor.is_interviewer ≡ true
    → find_record input.request_id s.database ≡ none
    → upload_chunk p actor object_id input bytes s ≡ (ok r, t)
    → IsStored p object_id input bytes r t
unfolding upload_chunk
upload_chunk-IsStored p actor object_id input bytes s t r role new h =
    let b : IdempotencyBinding =
      binding ("audio_chunk.upload:" ^^ decimal input.sequence_no) actor.id "audio_object"
        object_id in
    let fresh : Call Response = upload_fresh p actor object_id input bytes b in
    let again : Call Response = find_replay input.request_id b >>= λ o. replay_or o fresh in
    let checked : Call Response =
      throw_if (not (p.sha256 bytes == input.checksum)) (conflict "AUDIO_CHECKSUM_MISMATCH")
      >> transaction again in
    let (object, found, h1) =
      entered actor object_id (λ _. find_replay input.request_id b >>= λ o. replay_or o checked) s t
        r role h in
    let h2 = sym (new_request input.request_id b checked s new) ∙ h1 in
    let (summed, h3) =
      throw_if->>=-ok (not (p.sha256 bytes == input.checksum)) (conflict "AUDIO_CHECKSUM_MISMATCH")
        (λ _. transaction again) s t r h2 in
    let h4 = sym (new_request input.request_id b fresh s new) ∙ committed again s t r h3 in
    upload_fresh-IsStored p actor object_id input bytes b s t r h4
