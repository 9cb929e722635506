-- ===== src/AudioServer/Kept.antt =====
-- Every call of apps/api/src/audio/audio.service.ts keeps what was stored and answered before.
use elder_interview_ai.Prelude.{
  ℕ, ◌≡◌, ◌≢◌, refl, sym, ap, subst, inl, inr, String, List, [], ◌∷◌, ◌++◌, Option-cases, none,
  some, arith, ◌==◌, eq_iff, if◌then◌else◌, if_elim,
}
use elder_interview_ai.Prelude.Rows.{update_where, find-append}
use elder_interview_ai.Prelude.Map.{get, set, get-set}
use elder_interview_ai.Prelude.Action.{Result, ok, err, bind_result, pure, catch_result}
use elder_interview_ai.AudioServer.Tables.{
  AudioObject, AudioChunk, AuditLog, IdempotencyRecord, Database, State, Failure, thrown,
  object_missing, Written, kept, lost, uncleaned, Platform,
}
use elder_interview_ai.AudioServer.Storage.{
  StoredAudioChunk, is_object_key, stored_of, inspect, link, write_file, write_if_missing,
  put_immutable,
}
use elder_interview_ai.AudioServer.Access.{
  log, find_object, is_chunk_of, find_chunk, is_record_of, find_record,
}
use elder_interview_ai.AudioServer.Preserved.{
  TablesKept, TablesKept-refl, Preserved, Preserved-refl, Keeps, found-update_where,
}

pub log-TablesKept : (a : AuditLog) (d : Database) → TablesKept d (log a d)
unfolding find_chunk find_record find_object
log-TablesKept a d = record {
  chunks = λ i n c h. h;
  records = λ i r h. h;
  objects = λ i o h. (o, h);
  projects = refl;
  assignments = refl;
}

pub object_added-TablesKept :
    (o : AudioObject) (d : Database)
    → TablesKept d (record d { audio_objects = d.audio_objects ++ o ∷ [] })
unfolding find_chunk find_record find_object
object_added-TablesKept o d = record {
  chunks = λ i n c h. h;
  records = λ i r h. h;
  objects = λ i x h. (x, find-append (λ (y : AudioObject). y.id == i) d.audio_objects _ x h);
  projects = refl;
  assignments = refl;
}

pub chunk_added-TablesKept :
    (c : AudioChunk) (d : Database)
    → TablesKept d (record d { audio_chunks = d.audio_chunks ++ c ∷ [] })
unfolding find_chunk find_record find_object
chunk_added-TablesKept c d = record {
  chunks = λ i n x h. find-append (is_chunk_of i n) d.audio_chunks _ x h;
  records = λ i r h. h;
  objects = λ i x h. (x, h);
  projects = refl;
  assignments = refl;
}

pub record_added-TablesKept :
    (r : IdempotencyRecord) (d : Database)
    → TablesKept d (record d { idempotency_records = d.idempotency_records ++ r ∷ [] })
unfolding find_chunk find_record find_object
record_added-TablesKept r d = record {
  chunks = λ i n x h. h;
  records = λ i x h. find-append (is_record_of i) d.idempotency_records _ x h;
  objects = λ i x h. (x, h);
  projects = refl;
  assignments = refl;
}

pub objects_set-TablesKept :
    (id : String) (f : AudioObject → AudioObject) (d : Database)
    → ((o : AudioObject) → (f o).id ≡ o.id)
    → TablesKept d (record d {
      audio_objects = update_where (λ (x : AudioObject). x.id == id) f d.audio_objects;
    })
unfolding find_chunk find_record find_object
objects_set-TablesKept id f d k = record {
  chunks = λ i n x h. h;
  records = λ i x h. h;
  objects = λ i x h.
      found-update_where (λ (y : AudioObject). y.id == i) (λ (y : AudioObject). y.id == id) f
        d.audio_objects x (λ y. ap (λ j. j == i) (k y)) h;
  projects = refl;
  assignments = refl;
}

-- A file is only made where there is none.
new_file-Preserved :
    (key : String) (bytes : List ℕ) (s : State)
    → get key s.files ≡ none
    → Preserved s (record s { files = set key bytes s.files })
new_file-Preserved key bytes s e = record {
  tables = TablesKept-refl s.database;
  files = λ k b h. ground (arith, get-set key bytes k s.files, eq_iff key k);
}

module _ (p : Platform) where
  pub inspect-Keeps : (key : String) → Keeps (inspect p key)
  unfolding inspect
  inspect-Keeps key s = subst (Preserved s) (sym (ground arith)) (Preserved-refl s)

  link-Preserved :
      (key : String) (bytes : List ℕ) (s : State) (w : Written)
      → get key s.files ≡ none
      → Preserved s (link p key bytes w s).1
  link-Preserved key bytes s lost e = Preserved-refl s
  link-Preserved key bytes s kept e = new_file-Preserved key bytes s e
  link-Preserved key bytes s uncleaned e = new_file-Preserved key bytes s e

  write_file-Preserved :
      (key : String) (bytes : List ℕ) (s : State)
      → get key s.files ≡ none
      → Preserved s (write_file p key bytes s).1
  write_file-Preserved key bytes s e = after (link p key bytes (p.written key) s).0
    where
      u : State
      u = (link p key bytes (p.written key) s).1

      after :
          (r : Result Failure (Unit {0}))
          → Preserved s (bind_result (λ _. pure (stored_of p bytes)) r u).1
      after (ok x) = link-Preserved key bytes s (p.written key) e
      after (err x) = link-Preserved key bytes s (p.written key) e

  -- Without a file the call ends by the test of the key or asks for a write.
  inspect-none :
      (key : String) (s : State)
      → get key s.files ≡ none
      → inspect p key s ≡ (
        err (
            if is_object_key key
            then object_missing
            else thrown "Invalid internal audio object key"),
        s,
      )
  unfolding inspect
  inspect-none key s e = ground (arith, e)

  inspect-some :
      (key : String) (s : State) (bytes : List ℕ)
      → get key s.files ≡ some bytes
      → ((inspect p key s).1 ≡ s) × ((inspect p key s).0 ≢ err object_missing)
  unfolding inspect
  inspect-some key s bytes e = (ground arith, ground arith)

  pub put_immutable-Keeps : (key : String) (bytes : List ℕ) → Keeps (put_immutable p key bytes)
  unfolding put_immutable
  put_immutable-Keeps key bytes s = elim (Option-cases (get key s.files)) [
    | inl e ↦
        subst (λ w. Preserved s (catch_result (write_if_missing p key bytes) w.0 w.1).1)
          (sym (inspect-none key s e))
          (if_elim (λ f. Preserved s (write_if_missing p key bytes f s).1) (is_object_key key)
            (write_file-Preserved key bytes s e) (Preserved-refl s))
    | inr (old, e) ↦
        let (same, other) = inspect-some key s old e in
        subst
          (λ u. Preserved s (catch_result (write_if_missing p key bytes) (inspect p key s).0 u).1)
          (sym same) (answered (inspect p key s).0 other)
  ]
    where
      missed : (f : Failure) → f ≢ object_missing → Preserved s (write_if_missing p key bytes f s).1
      missed object_missing n = absurd (n refl)
      missed f n = Preserved-refl s

      answered :
          (r : Result Failure StoredAudioChunk)
          → r ≢ err object_missing
          → Preserved s (catch_result (write_if_missing p key bytes) r s).1
      answered (ok x) n = Preserved-refl s
      answered (err f) n = missed f (λ g. n (ap err g))
