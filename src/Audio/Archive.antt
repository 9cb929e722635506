-- ===== src/Audio/Archive.antt =====
-- The archive of apps/web/src/audio/in-memory-audio-chunk-store.ts: nothing in it changes, its size
-- is bounded, and its sequence numbers and times stay below what the store hands out.
use elder_interview_ai.Prelude.{
  ℕ, ◌+◌, ◌≤◌, ◌<◌, max, ◌≡◌, refl, sym, subst, ◌∙◌, ap, Bool, true, false, String, List, [], ◌∷◌,
  ◌++◌, Option, none, some, if◌then◌else◌, arith, All, All-append, keep, eq_iff, or_else,
}
use elder_interview_ai.Prelude.Map.{Map, get, set, values, get-set, values-set}
use elder_interview_ai.Audio.Types.{
  ImmutableAudioChunk, AudioChunkDelivery, BufferedAudioChunk, audio_chunk_key,
}
use elder_interview_ai.Audio.Store.{
  can_acknowledge, Store, acknowledge, mark_failed, mark_uploading, mark_found, acknowledge_if,
  get_buffered, update_delivery, persist_immutable, replay_record, insert_record,
  put_capture_checkpoint, session_chunks, total_bytes, of_session, get_next_sequence_no,
  get_timeline_end_ms,
}
use elder_interview_ai.Audio.StoreRun.{
  StoreCall, acknowledges, marks_failed, marks_uploading, persists, puts_checkpoint, call, calls,
}

call-archive :
    (maximum : ℕ) (c : StoreCall) (s : Store) (k : String) (a : ImmutableAudioChunk)
    → get k s.archives ≡ some a
    → get k (call maximum c s).archives ≡ some a
unfolding acknowledge mark_failed mark_uploading update_delivery persist_immutable replay_record
    insert_record put_capture_checkpoint
call-archive maximum (acknowledges session_id n checksum) s k a h = ground arith
call-archive maximum (marks_failed session_id n code) s k a h = ground arith
call-archive maximum (marks_uploading session_id n) s k a h = ground arith
call-archive maximum (persists r) s k a h =
    ground (arith, get-set r.chunk.key r.chunk k s.archives, eq_iff r.chunk.key k)
call-archive maximum (puts_checkpoint c) s k a h = h

-- A chunk that is in the archive under a key stays there unchanged, whatever calls follow.
pub calls-archive :
    (maximum : ℕ) (cs : List StoreCall) (s : Store) (k : String) (a : ImmutableAudioChunk)
    → get k s.archives ≡ some a
    → get k (calls maximum cs s).archives ≡ some a
unfolding calls
calls-archive maximum [] s k a h = h
calls-archive maximum (c ∷ cs) s k a h =
    calls-archive maximum cs (call maximum c s) k a (call-archive maximum c s k a h)

total_bytes-append :
    (xs ys : List ImmutableAudioChunk) → total_bytes (xs ++ ys) ≡ total_bytes xs + total_bytes ys
unfolding total_bytes
total_bytes-append [] ys = omega arith
total_bytes-append (x ∷ xs) ys = omega (arith, total_bytes-append xs ys)

abbrev bytes_in : String → ImmutableAudioChunk → ℕ
bytes_in session_id c = if of_session session_id c then c.byte_length else 0

session_bytes-append :
    (session_id : String) (cs : List ImmutableAudioChunk) (c : ImmutableAudioChunk)
    → total_bytes (keep (of_session session_id) (cs ++ c ∷ []))
      ≡ total_bytes (keep (of_session session_id) cs) + bytes_in session_id c
unfolding total_bytes
session_bytes-append session_id [] c = ground arith
session_bytes-append session_id (d ∷ cs) c = ground (arith, session_bytes-append session_id cs c)

-- No session has more bytes in the archive than the bound.
abbrev pub IsBounded : ℕ → Store → Type 0
IsBounded maximum s = (session_id : String) → total_bytes (session_chunks session_id s) ≤ maximum

insert_record-bytes :
    (maximum : ℕ) (r : BufferedAudioChunk) (s : Store) (session_id : String)
    → get r.chunk.key s.archives ≡ none
    → total_bytes (session_chunks r.chunk.session_id s) + r.chunk.byte_length ≤ maximum
    → total_bytes (session_chunks session_id s) ≤ maximum
    → total_bytes (session_chunks session_id (insert_record r s)) ≤ maximum
unfolding insert_record session_chunks
insert_record-bytes maximum r s session_id new fits b =
    let total : List ImmutableAudioChunk → ℕ =
      λ cs. total_bytes (keep (of_session session_id) cs) in
    let e =
      ap total (values-set r.chunk.key r.chunk s.archives new)
      ∙ session_bytes-append session_id (values s.archives) r.chunk in
    ground (arith, e, eq_iff r.chunk.session_id session_id)

call-IsBounded :
    (maximum : ℕ) (c : StoreCall) (s : Store)
    → IsBounded maximum s
    → IsBounded maximum (call maximum c s)
unfolding acknowledge mark_failed mark_uploading update_delivery persist_immutable replay_record
    put_capture_checkpoint session_chunks
call-IsBounded maximum (acknowledges id n checksum) s b session_id = ground (arith, b session_id)
call-IsBounded maximum (marks_failed id n code) s b session_id = ground (arith, b session_id)
call-IsBounded maximum (marks_uploading id n) s b session_id = ground (arith, b session_id)
call-IsBounded maximum (persists r) s b session_id =
    ground (arith, b session_id, b r.chunk.session_id, insert_record-bytes maximum r s session_id)
call-IsBounded maximum (puts_checkpoint c) s b session_id = b session_id

-- If no session of the archive has more bytes than the bound, none has after any calls with this
-- bound.
pub calls-IsBounded :
    (maximum : ℕ) (cs : List StoreCall) (s : Store)
    → IsBounded maximum s
    → IsBounded maximum (calls maximum cs s)
unfolding calls
calls-IsBounded maximum [] s b = b
calls-IsBounded maximum (c ∷ cs) s b =
    calls-IsBounded maximum cs (call maximum c s) (call-IsBounded maximum c s b)

-- A chunk's number and end are below what the store answers for its session.
abbrev pub IsCovered : Store → ImmutableAudioChunk → Type 0
IsCovered s c =
    (c.sequence_no < get_next_sequence_no c.session_id s)
    × (c.ended_at_ms ≤ get_timeline_end_ms c.session_id s)

abbrev pub IsAhead : Store → Type 0
IsAhead s = All (IsCovered s) (values s.archives)

raised : String → ℕ → Map ℕ → String → ℕ
raised k n m j = or_else (get j (set k (max (or_else (get k m) 0) n) m)) 0

raised_lem :
    (k : String) (n : ℕ) (m : Map ℕ) (j : String)
    → (or_else (get j m) 0 ≤ raised k n m j) × (k ≡ j → n ≤ raised k n m j)
unfolding raised
raised_lem k n m j =
    let e = get-set k (max (or_else (get k m) 0) n) j m in
    (ground (arith, e, eq_iff k j), λ q. ground (arith, e, eq_iff k j))

insert_record-IsCovered :
    (r : BufferedAudioChunk) (s : Store) (c : ImmutableAudioChunk)
    → IsCovered s c
    → IsCovered (insert_record r s) c
unfolding insert_record get_next_sequence_no get_timeline_end_ms raised
insert_record-IsCovered r s c (p, q) = ground (
  arith,
  (raised_lem r.chunk.session_id (r.chunk.sequence_no + 1) s.next_sequence_numbers c.session_id).0,
  (raised_lem r.chunk.session_id r.chunk.ended_at_ms s.timeline_ends c.session_id).0,
)

inserted-IsCovered : (r : BufferedAudioChunk) (s : Store) → IsCovered (insert_record r s) r.chunk
unfolding insert_record get_next_sequence_no get_timeline_end_ms raised
inserted-IsCovered r s =
    let id = r.chunk.session_id in
    let n = (raised_lem id (r.chunk.sequence_no + 1) s.next_sequence_numbers id).1 refl in
    let t = (raised_lem id r.chunk.ended_at_ms s.timeline_ends id).1 refl in ground (arith, n, t)

All-map :
    {A : Type 0} (P Q : A → Type 0) (f : (a : A) → P a → Q a) (xs : List A) → All P xs → All Q xs
All-map P Q f [] h = tt
All-map P Q f (x ∷ xs) h = (f x h.0, All-map P Q f xs h.1)

archives_after :
    (r : BufferedAudioChunk) (s : Store)
    → get r.chunk.key s.archives ≡ none
    → values (insert_record r s).archives ≡ values s.archives ++ r.chunk ∷ []
unfolding insert_record
archives_after r s new = values-set r.chunk.key r.chunk s.archives new

insert_record-IsAhead :
    (r : BufferedAudioChunk) (s : Store)
    → get r.chunk.key s.archives ≡ none
    → IsAhead s
    → IsAhead (insert_record r s)
insert_record-IsAhead r s new a =
    let t = insert_record r s in
    let old =
      All-map (IsCovered s) (IsCovered t) (insert_record-IsCovered r s) (values s.archives) a in
    subst (All (IsCovered t)) (sym (archives_after r s new))
      (All-append (IsCovered t) (values s.archives) (r.chunk ∷ []) old (inserted-IsCovered r s, tt))

acknowledge_if-IsAhead :
    (id : String) (n : ℕ) (s : Store) (b : Bool) → IsAhead s → IsAhead (acknowledge_if b id n s).1
unfolding get_next_sequence_no get_timeline_end_ms
acknowledge_if-IsAhead id n s true a = a
acknowledge_if-IsAhead id n s false a = a

mark_found-IsAhead :
    (mark : AudioChunkDelivery → AudioChunkDelivery) (s : Store) (o : Option BufferedAudioChunk)
    → IsAhead s
    → IsAhead (mark_found mark s o).1
unfolding get_next_sequence_no get_timeline_end_ms
mark_found-IsAhead mark s none a = a
mark_found-IsAhead mark s (some r) a = a

call-IsAhead : (maximum : ℕ) (c : StoreCall) (s : Store) → IsAhead s → IsAhead (call maximum c s)
unfolding acknowledge mark_failed mark_uploading update_delivery persist_immutable replay_record
    put_capture_checkpoint get_next_sequence_no get_timeline_end_ms
call-IsAhead maximum (acknowledges id n checksum) s a =
    acknowledge_if-IsAhead id n s (can_acknowledge (audio_chunk_key id n) checksum s) a
call-IsAhead maximum (marks_failed id n code) s a = mark_found-IsAhead _ s (get_buffered id n s) a
call-IsAhead maximum (marks_uploading id n) s a = mark_found-IsAhead _ s (get_buffered id n s) a
call-IsAhead maximum (persists r) s a = ground (arith, insert_record-IsAhead r s)
call-IsAhead maximum (puts_checkpoint c) s a = a

-- If the chunks of the archive are below the next number and the timeline's end of their sessions,
-- they are after any calls.
pub calls-IsAhead :
    (maximum : ℕ) (cs : List StoreCall) (s : Store) → IsAhead s → IsAhead (calls maximum cs s)
unfolding calls
calls-IsAhead maximum [] s a = a
calls-IsAhead maximum (c ∷ cs) s a =
    calls-IsAhead maximum cs (call maximum c s) (call-IsAhead maximum c s a)
