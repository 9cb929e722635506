-- ===== src/AudioServer/Stored.antt =====
-- A chunk that `uploadChunk` of apps/api/src/audio/audio.service.ts has answered for.
use text.Mathlib.TextPositions.{eq_refl}
use elder_interview_ai.Prelude.{
  ℕ, ◌≡◌, ap, subst, ◌∙◌, inl, inr, false, not, ◌&&◌, String, List, Option, none, some, arith,
  Option-cases, eqb, length, ◌==◌, eq_iff,
}
use elder_interview_ai.Prelude.Map.{get, get-set}
use elder_interview_ai.Prelude.Action.{
  ok, err, ◌>>=◌, throw, throw_if, catch, throw_if->>=-ok, >>=-ok, catch-ok, caught,
}
use elder_interview_ai.AudioServer.Tables.{
  AudioChunk, State, Failure, conflict, storage_unavailable, object_missing, Call, AudioChunkInput,
  Platform,
}
use elder_interview_ai.AudioServer.Storage.{
  StoredAudioChunk, stored_of, inspect, write_file, write_if_missing, put_immutable,
}
use elder_interview_ai.AudioServer.Service.{
  chunk_conflicts, inspect_or_put, store_bytes, keep_bytes,
}

module _ (p : Platform) (key : String) where
  -- What was read or written is there now; the tables did not change.
  record Present (st : StoredAudioChunk) (s t : State) : Type 0 where
    tables : t.database ≡ s.database
    bytes : List ℕ
    there : get key t.files ≡ some bytes
    same : st ≡ stored_of p bytes

  inspect-Present :
      (s t : State) (st : StoredAudioChunk) → inspect p key s ≡ (ok st, t) → Present st s t
  unfolding inspect
  inspect-Present s t st h = elim (Option-cases (get key s.files)) [
    | inl e ↦ absurd (ground arith)
    | inr (bytes, e) ↦ record {
      tables = ground arith;
      bytes = bytes;
      there = ground arith;
      same = ground arith;
    }
  ]

  write_file-Present :
      (bytes : List ℕ) (s t : State) (st : StoredAudioChunk)
      → write_file p key bytes s ≡ (ok st, t)
      → Present st s t
  write_file-Present bytes s t st h = record {
    tables = ground arith;
    bytes = bytes;
    there = ground (arith, get-set key bytes key s.files, eq_refl key);
    same = ground arith;
  }

  write_if_missing-Present :
      (bytes : List ℕ) (e : Failure) (s t : State) (st : StoredAudioChunk)
      → write_if_missing p key bytes e s ≡ (ok st, t)
      → Present st s t
  write_if_missing-Present bytes object_missing s t st h = write_file-Present bytes s t st h
  write_if_missing-Present bytes e s t st h = cc

  inspect-reads : (s u : State) (e : Failure) → inspect p key s ≡ (err e, u) → u ≡ s
  unfolding inspect
  inspect-reads s u e h = ground arith

  later_Present : (st : StoredAudioChunk) (s u t : State) → u ≡ s → Present st u t → Present st s t
  later_Present st s u t e k = subst (λ w. Present st w t) e k

  put_immutable-Present :
      (bytes : List ℕ) (s t : State) (st : StoredAudioChunk)
      → put_immutable p key bytes s ≡ (ok st, t)
      → Present st s t
  unfolding put_immutable
  put_immutable-Present bytes s t st h =
      elim (caught (inspect p key) (write_if_missing p key bytes) s t st h) [
        | inl q ↦ inspect-Present s t st q
        | inr (e, u, q, w) ↦
            later_Present st s u t (inspect-reads s u e q)
              (write_if_missing-Present bytes e u t st w)
      ]

  inspect_or_put-Present :
      (bytes : List ℕ) (e : Failure) (s t : State) (st : StoredAudioChunk)
      → inspect_or_put p key bytes e s ≡ (ok st, t)
      → Present st s t
  inspect_or_put-Present bytes object_missing s t st h = put_immutable-Present bytes s t st h
  inspect_or_put-Present bytes e s t st h = cc

  store_bytes-Present :
      (bytes : List ℕ) (o : Option AudioChunk) (s t : State) (st : StoredAudioChunk)
      → store_bytes p key bytes o s ≡ (ok st, t)
      → Present st s t
  store_bytes-Present bytes none s t st h = put_immutable-Present bytes s t st h
  store_bytes-Present bytes (some c) s t st h =
      elim (caught (inspect p key) (inspect_or_put p key bytes) s t st h) [
        | inl q ↦ inspect-Present s t st q
        | inr (e, u, q, w) ↦
            later_Present st s u t (inspect-reads s u e q) (inspect_or_put-Present bytes e u t st w)
      ]

  -- The file of the key has the size of the bytes and the digest that the request names.
  pub record Kept (input : AudioChunkInput) (bytes : List ℕ) (existing : Option AudioChunk)
      (s t : State) : Type 0 where
    pub tables : t.database ≡ s.database
    pub content : List ℕ
    pub there : get key t.files ≡ some content
    pub digest : p.sha256 content ≡ input.checksum
    pub size : length content ≡ length bytes
    pub agrees : chunk_conflicts input key (length bytes) existing ≡ false

  pub keep_bytes-Kept :
      (input : AudioChunkInput) (bytes : List ℕ) (existing : Option AudioChunk) (s t : State)
      (x : Unit {0})
      → keep_bytes p input key bytes existing s ≡ (ok x, t)
      → Kept input bytes existing s t
  unfolding keep_bytes
  keep_bytes-Kept input bytes existing s t x h =
      let compare = λ (st : StoredAudioChunk).
        throw_if {S = State}
          (not (st.checksum == input.checksum && eqb st.size_bytes (length bytes)))
          (conflict "AUDIO_CHUNK_CONFLICT") in
      let m : Call StoredAudioChunk = store_bytes p key bytes existing in
      let unavailable = λ (e : Failure). storage_unavailable in
      let (agrees, h1) =
        throw_if->>=-ok (chunk_conflicts input key (length bytes) existing)
          (conflict "AUDIO_CHUNK_CONFLICT") (λ _. catch m (λ e. throw (unavailable e)) >>= compare)
          s t x h in
      let (st, u, h2, h3) = >>=-ok (catch m (λ e. throw (unavailable e))) compare s t x h1 in
      let k = store_bytes-Present bytes existing s u st (catch-ok m unavailable s u st h2) in
      let e : t ≡ u = ground arith in
      record {
        tables = ap (λ (w : State). w.database) e ∙ k.tables;
        content = k.bytes;
        there = ap (λ (w : State). get key w.files) e ∙ k.there;
        digest = ground (arith, k.same, eq_iff st.checksum input.checksum);
        size = ground (arith, k.same);
        agrees = agrees;
      }
