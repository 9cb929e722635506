-- ===== src/Audio/Delivery.antt =====
-- Deliveries of apps/web/src/audio: what ends one, and what the queue of audio-chunk-queue.ts leaves
-- in the store.
use elder_interview_ai.Prelude.{
  ℕ, ◌≡◌, refl, sym, ap, subst, Bool, true, false, not, ◌&&◌, eqb, length, String, Option, none,
  some, arith, eq_iff, or_else,
}
use elder_interview_ai.Prelude.Map.{get, has, get-set, get-delete}
use elder_interview_ai.Prelude.Int.{ℤ, pos, negsuc, natural, is_safe_integer, is_negative, leb_ℤ}
use elder_interview_ai.Prelude.Text.{is_blank}
use elder_interview_ai.Prelude.Action.{ok, >>=-ok, catch-ok}
use elder_interview_ai.Audio.Types.{
  ImmutableAudioChunk, AudioChunkDelivery, BufferedAudioChunk, NewAudioChunk, audio_chunk_key,
}
use elder_interview_ai.Audio.Store.{
  Store, can_acknowledge, acknowledges_chunk, acknowledge, acknowledge_if, mark_failed,
  mark_uploading, mark_found, get_buffered, update_delivery, persist_immutable, replay_record,
  insert_record, put_capture_checkpoint, persist_by, same_immutable_chunk,
}
use elder_interview_ai.Audio.Queue.{
  Options, enqueue, validate_new_chunk, require_session_id, new_record, enqueue_error,
}
use elder_interview_ai.Audio.StoreRun.{
  StoreCall, acknowledges, marks_failed, marks_uploading, persists, puts_checkpoint, call,
}

-- The call acknowledges the chunk under the key with the digest that the archive has for it.
abbrev pub IsAckOf : String → Store → StoreCall → Type 0
IsAckOf k s (acknowledges session_id n checksum) =
    (audio_chunk_key session_id n ≡ k)
    × ((a : ImmutableAudioChunk) × (get k s.archives ≡ some a) × (a.checksum_sha256 ≡ checksum))
IsAckOf k s _ = ⊥

archived_case :
    (checksum : String) (o : Option ImmutableAudioChunk) (b : Bool)
    → acknowledges_chunk checksum o b ≡ true
    → (a : ImmutableAudioChunk) × (o ≡ some a) × (a.checksum_sha256 ≡ checksum)
archived_case checksum none b e = cc
archived_case checksum (some a) b e = (a, refl, ground (arith, eq_iff a.checksum_sha256 checksum))

archived :
    (key checksum : String) (s : Store)
    → can_acknowledge key checksum s ≡ true
    → (a : ImmutableAudioChunk) × (get key s.archives ≡ some a) × (a.checksum_sha256 ≡ checksum)
unfolding can_acknowledge
archived key checksum s e = archived_case checksum (get key s.archives) (has key s.deliveries) e

acked :
    (k : String) (d : AudioChunkDelivery) (session_id : String) (n : ℕ) (checksum : String)
    (s : Store)
    → get k s.deliveries ≡ some d
    → (b : Bool) → can_acknowledge (audio_chunk_key session_id n) checksum s ≡ b
    → get k (acknowledge_if b session_id n s).1.deliveries ≡ none
    → IsAckOf k s (acknowledges session_id n checksum)
acked k d session_id n checksum s h false e gone = cc
acked k d session_id n checksum s h true e gone =
    let key = audio_chunk_key session_id n in
    let same : key ≡ k = ground (arith, get-delete key k s.deliveries, eq_iff key k) in
    (
      same,
      subst
          (λ (j : String).
            (a : ImmutableAudioChunk) × (get j s.archives ≡ some a)
            × (a.checksum_sha256 ≡ checksum))
          same (archived key checksum s e),
    )

marked :
    (k : String) (d : AudioChunkDelivery) (mark : AudioChunkDelivery → AudioChunkDelivery)
    (s : Store) (o : Option BufferedAudioChunk)
    → get k s.deliveries ≡ some d
    → ¬ (get k (mark_found mark s o).1.deliveries ≡ none)
marked k d mark s none h gone = cc
marked k d mark s (some r) h gone =
    ground (arith, get-set r.chunk.key (mark r.delivery) k s.deliveries, eq_iff r.chunk.key k)

-- A chunk stops being pending only by a call of `acknowledge` for it with the digest that the
-- archive has for it.
pub call-IsAckOf :
    (maximum : ℕ) (c : StoreCall) (s : Store) (k : String) (d : AudioChunkDelivery)
    → get k s.deliveries ≡ some d
    → get k (call maximum c s).deliveries ≡ none
    → IsAckOf k s c
unfolding acknowledge mark_failed mark_uploading update_delivery persist_immutable replay_record
    insert_record put_capture_checkpoint
call-IsAckOf maximum (acknowledges id n checksum) s k d h gone =
    acked k d id n checksum s h (can_acknowledge (audio_chunk_key id n) checksum s) refl gone
call-IsAckOf maximum (marks_failed id n code) s k d h gone =
    absurd (marked k d _ s (get_buffered id n s) h gone)
call-IsAckOf maximum (marks_uploading id n) s k d h gone =
    absurd (marked k d _ s (get_buffered id n s) h gone)
call-IsAckOf maximum (persists r) s k d h gone =
    ground (arith, get-set r.chunk.key r.delivery k s.deliveries, eq_iff r.chunk.key k)
call-IsAckOf maximum (puts_checkpoint c) s k d h gone = cc

same_immutable_chunk_refl : (c : ImmutableAudioChunk) → same_immutable_chunk c c ≡ true
unfolding same_immutable_chunk
same_immutable_chunk_refl c = ground (
  arith,
  eq_iff c.key c.key,
  eq_iff c.session_id c.session_id,
  eq_iff c.mime_type c.mime_type,
  eq_iff c.checksum_sha256 c.checksum_sha256,
)

persisted :
    (r : BufferedAudioChunk) (m : ℕ) (s t : Store) (b : BufferedAudioChunk)
    (o : Option ImmutableAudioChunk)
    → get r.chunk.key s.archives ≡ o
    → persist_by r m s o ≡ (ok b, t)
    → (get r.chunk.key t.archives ≡ some b.chunk) × (same_immutable_chunk b.chunk r.chunk ≡ true)
unfolding replay_record insert_record
persisted r m s t b none e h = ground (
  arith,
  get-set r.chunk.key r.chunk r.chunk.key s.archives,
  eq_iff r.chunk.key r.chunk.key,
  same_immutable_chunk_refl r.chunk,
)
persisted r m s t b (some a) e h = ground arith

replayed :
    (r : BufferedAudioChunk) (n : ℕ) (t : Store) (a : ImmutableAudioChunk)
    (o : Option ImmutableAudioChunk)
    → o ≡ some a
    → same_immutable_chunk a r.chunk ≡ true
    → ((persist_by r n t o).1 ≡ t)
      × ((x : BufferedAudioChunk) × ((persist_by r n t o).0 ≡ ok x) × (x.chunk ≡ a))
unfolding replay_record
replayed r n t a none e h = cc
replayed r n t a (some c) e h = (
  ground arith,
  (
    record { chunk = c; delivery = or_else (get c.key t.deliveries) r.delivery },
    ground arith,
    ground arith,
  ),
)

-- A chunk that was stored can be stored again at once, under any bound: the answer has the archive's
-- chunk and the store does not change.
pub persist_immutable-again :
    (r : BufferedAudioChunk) (m n : ℕ) (s t : Store) (b : BufferedAudioChunk)
    → persist_immutable r m s ≡ (ok b, t)
    → ((persist_immutable r n t).1 ≡ t)
      × ((x : BufferedAudioChunk) × ((persist_immutable r n t).0 ≡ ok x) × (x.chunk ≡ b.chunk))
unfolding persist_immutable
persist_immutable-again r m n s t b h =
    let kept = persisted r m s t b (get r.chunk.key s.archives) refl h in
    replayed r n t b.chunk (get r.chunk.key t.archives) kept.0 kept.1

-- The checks of `enqueue`, as one test.
abbrev pub input_is_valid : NewAudioChunk → Bool
input_is_valid input =
    not (is_blank input.session_id)
    && is_safe_integer input.sequence_no
    && not (is_negative input.sequence_no)
    && not (is_negative input.started_at_ms)
    && leb_ℤ input.started_at_ms input.ended_at_ms
    && not (eqb (length input.blob) 0)
    && not (is_blank input.mime_type)

validate_new_chunk_lem :
    (input : NewAudioChunk) (s u : Store) (x : Unit {0})
    → validate_new_chunk input s ≡ (ok x, u)
    → (u ≡ s) × (input_is_valid input ≡ true)
unfolding validate_new_chunk require_session_id
validate_new_chunk_lem input s u x h = ground arith

-- The chunk is in the archive under the key of the input's session and number, and is what the input
-- says, with the digest of its bytes.
pub record ArchiveEntry (o : Options) (input : NewAudioChunk) (c : ImmutableAudioChunk) (t : Store)
    : Type 0 where
  pub there : get (audio_chunk_key input.session_id c.sequence_no) t.archives ≡ some c
  pub session : c.session_id ≡ input.session_id
  pub number : pos c.sequence_no ≡ input.sequence_no
  pub start : pos c.started_at_ms ≡ input.started_at_ms
  pub end : pos c.ended_at_ms ≡ input.ended_at_ms
  pub kind : c.mime_type ≡ input.mime_type
  pub size : c.byte_length ≡ length input.blob
  pub digest : c.checksum_sha256 ≡ o.checksum input.blob

natural_lem : (x : ℤ) (n : ℕ) → is_negative x ≡ false → n ≡ natural x → pos n ≡ x
natural_lem (pos k) n h e = ap pos e
natural_lem (negsuc k) n h e = cc

archive_entry :
    (o : Options) (input : NewAudioChunk) (c : ImmutableAudioChunk) (t : Store)
    → input_is_valid input ≡ true
    → get (new_record o input).chunk.key t.archives ≡ some c
    → same_immutable_chunk c (new_record o input).chunk ≡ true
    → ArchiveEntry o input c t
unfolding new_record same_immutable_chunk
archive_entry o input c t valid e h =
    let same : c.sequence_no ≡ natural input.sequence_no = ground (arith, h) in
    record {
      there =
          subst (λ n. get (audio_chunk_key input.session_id n) t.archives ≡ some c) (sym same) e;
      session = ground (arith, h, eq_iff c.session_id input.session_id);
      number = natural_lem input.sequence_no c.sequence_no (ground (arith, valid)) same;
      start =
          natural_lem input.started_at_ms c.started_at_ms (ground (arith, valid))
            (ground (arith, h));
      end = natural_lem input.ended_at_ms c.ended_at_ms (ground (arith, valid)) (ground (arith, h));
      kind = ground (arith, h, eq_iff c.mime_type input.mime_type);
      size = ground (arith, h);
      digest = ground (arith, h, eq_iff c.checksum_sha256 (o.checksum input.blob));
    }

-- `enqueue` answers with a chunk only for a valid input, and then that chunk is in the archive under
-- the key of the input's session and number, with the input's session, number, times and type, the
-- length of its bytes and their digest.
pub enqueue-archived :
    (o : Options) (input : NewAudioChunk) (s t : Store) (b : BufferedAudioChunk)
    → enqueue o input s ≡ (ok b, t)
    → (input_is_valid input ≡ true) × ArchiveEntry o input b.chunk t
unfolding enqueue persist_immutable
enqueue-archived o input s t b h =
    let (x, u, p, q) = >>=-ok (validate_new_chunk input) _ s t b h in
    let stored =
      catch-ok (persist_immutable (new_record o input) o.maximum_buffered_bytes) enqueue_error u t b
        q in
    let kept =
      persisted (new_record o input) o.maximum_buffered_bytes u t b
        (get (new_record o input).chunk.key u.archives) refl stored in
    let valid = (validate_new_chunk_lem input s u x p).1 in
    (valid, archive_entry o input b.chunk t valid kept.0 kept.1)
