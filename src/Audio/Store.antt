-- ===== src/Audio/Store.antt =====
-- apps/web/src/audio/in-memory-audio-chunk-store.ts: the archive of a recording's chunks, and what
-- of it is still to be delivered.
use elder_interview_ai.Prelude.{
  ℕ, ◌+◌, max, Bool, true, false, ◌&&◌, String, List, [], ◌∷◌, Option, none, some, if◌then◌else◌,
  ltb, eqb, keep, length, or_else, ◌==◌,
}
use elder_interview_ai.Prelude.Int.{ℤ, pos, negsuc, max_ℤ, pred}
use elder_interview_ai.Prelude.Map.{Map, get, set, delete, has, keys, values}
use elder_interview_ai.Prelude.Sort.{sort_by}
use elder_interview_ai.Prelude.Text.{◌^^◌, starts_with}
use elder_interview_ai.Prelude.Action.{Result, ok, err}
use elder_interview_ai.Audio.Types.{
  ImmutableAudioChunk, AudioChunkDelivery, BufferedAudioChunk, AudioArchiveSnapshot,
  BrowserCaptureCheckpoint, uploading, AudioChunkDeliveryStatus, Thrown, error,
  audio_buffer_conflict_error, audio_buffer_capacity_error, audio_chunk_key,
}

pub record Store : Type 0 where
  pub archives : Map ImmutableAudioChunk
  pub checkpoints : Map BrowserCaptureCheckpoint
  pub deliveries : Map AudioChunkDelivery
  pub acknowledged_high_water : Map ℤ
  pub next_sequence_numbers : Map ℕ
  pub timeline_ends : Map ℕ

abbrev pub empty : Store
empty = record {
  archives = [];
  checkpoints = [];
  deliveries = [];
  acknowledged_high_water = [];
  next_sequence_numbers = [];
  timeline_ends = [];
}

abbrev pub of_session : String → ImmutableAudioChunk → Bool
of_session session_id c = c.session_id == session_id

-- `chunks.reduce((total, chunk) => total + chunk.byteLength, 0)`
unfoldable pub total_bytes : List ImmutableAudioChunk → ℕ
total_bytes [] = 0
total_bytes (c ∷ cs) = c.byte_length + total_bytes cs

unfoldable pub session_chunks : String → Store → List ImmutableAudioChunk
session_chunks session_id s = keep (of_session session_id) (values s.archives)

unfoldable pub same_immutable_chunk : ImmutableAudioChunk → ImmutableAudioChunk → Bool
same_immutable_chunk left right =
    left.key == right.key
    && left.session_id == right.session_id
    && eqb left.sequence_no right.sequence_no
    && eqb left.started_at_ms right.started_at_ms
    && eqb left.ended_at_ms right.ended_at_ms
    && left.mime_type == right.mime_type
    && eqb left.byte_length right.byte_length
    && left.checksum_sha256 == right.checksum_sha256

abbrev pub acknowledges_chunk : String → Option ImmutableAudioChunk → Bool → Bool
acknowledges_chunk checksum none pending = false
acknowledges_chunk checksum (some c) pending = c.checksum_sha256 == checksum && pending

-- The guard of `acknowledge`.
unfoldable pub can_acknowledge : String → String → Store → Bool
can_acknowledge key checksum s =
    acknowledges_chunk checksum (get key s.archives) (has key s.deliveries)

-- `acknowledge`, by its guard.
abbrev pub acknowledge_if : Bool → String → ℕ → Store → Bool × Store
acknowledge_if false session_id sequence_no s = (false, s)
acknowledge_if true session_id sequence_no s = (
  true,
  record s {
    deliveries = delete (audio_chunk_key session_id sequence_no) s.deliveries;
    acknowledged_high_water =
        set session_id
          (max_ℤ (or_else (get session_id s.acknowledged_high_water) (negsuc 0)) (pos sequence_no))
          s.acknowledged_high_water;
  },
)

unfoldable pub acknowledge : String → ℕ → String → Store → Bool × Store
acknowledge session_id sequence_no checksum s =
    acknowledge_if (can_acknowledge (audio_chunk_key session_id sequence_no) checksum s) session_id
      sequence_no s

abbrev both : Option ImmutableAudioChunk → Option AudioChunkDelivery → Option BufferedAudioChunk
both (some c) (some d) = some (record { chunk = c; delivery = d })
both none _ = none
both (some c) none = none

unfoldable pub get_buffered : String → ℕ → Store → Option BufferedAudioChunk
get_buffered session_id sequence_no s =
    let key = audio_chunk_key session_id sequence_no in
    both (get key s.archives) (get key s.deliveries)

unfoldable pub get_archive : String → ℕ → Store → Option ImmutableAudioChunk
get_archive session_id sequence_no s = get (audio_chunk_key session_id sequence_no) s.archives

unfoldable pub get_next_sequence_no : String → Store → ℕ
get_next_sequence_no session_id s = or_else (get session_id s.next_sequence_numbers) 0

unfoldable pub get_timeline_end_ms : String → Store → ℕ
get_timeline_end_ms session_id s = or_else (get session_id s.timeline_ends) 0

unfoldable pub get_archive_snapshot : String → Store → AudioArchiveSnapshot
get_archive_snapshot session_id s =
    let archive = session_chunks session_id s in
    record {
      archive_byte_length = total_bytes archive;
      archive_chunk_count = length archive;
      archive_high_water_sequence_no = pred (get_next_sequence_no session_id s);
      delivery_acknowledged_high_water_sequence_no =
          or_else (get session_id s.acknowledged_high_water) (negsuc 0);
      pending_delivery_count = length (keep (starts_with (session_id ^^ ":")) (keys s.deliveries));
      timeline_end_ms = get_timeline_end_ms session_id s;
    }

unfoldable pub get_capture_checkpoint : String → Store → Option BrowserCaptureCheckpoint
get_capture_checkpoint local_job_id s = get local_job_id s.checkpoints

unfoldable pub put_capture_checkpoint : BrowserCaptureCheckpoint → Store → Store
put_capture_checkpoint c s = record s { checkpoints = set c.local_job_id c s.checkpoints }

-- The `flatMap` of `list`.
unfoldable pub with_deliveries :
    Map AudioChunkDelivery → List ImmutableAudioChunk → List BufferedAudioChunk
with_deliveries ds [] = []
with_deliveries ds (c ∷ cs) = elim (get c.key ds) [
  | none ↦ with_deliveries ds cs
  | some d ↦ record { chunk = c; delivery = d } ∷ with_deliveries ds cs
]

unfoldable pub list : String → Store → List BufferedAudioChunk
list session_id s =
    sort_by (λ r. r.chunk.sequence_no) (with_deliveries s.deliveries (session_chunks session_id s))

unfoldable pub list_archive : String → Store → List ImmutableAudioChunk
list_archive session_id s = sort_by (λ c. c.sequence_no) (session_chunks session_id s)

abbrev pub mark_found :
    (AudioChunkDelivery → AudioChunkDelivery)
    → Store
    → Option BufferedAudioChunk
    → Result Thrown (Unit {0}) × Store
mark_found mark s none = (err (error "audio delivery not found"), s)
mark_found mark s (some r) =
    (ok tt, record s { deliveries = set r.chunk.key (mark r.delivery) s.deliveries })

-- The call `required`, and what `mark` makes of the delivery it finds.
unfoldable pub update_delivery :
    (AudioChunkDelivery → AudioChunkDelivery)
    → String
    → ℕ
    → Store
    → Result Thrown (Unit {0}) × Store
update_delivery mark session_id sequence_no s =
    mark_found mark s (get_buffered session_id sequence_no s)

unfoldable pub mark_failed : String → ℕ → String → Store → Result Thrown (Unit {0}) × Store
mark_failed session_id sequence_no code =
    update_delivery
      (λ d. record {
        last_error = some code;
        retry_count = d.retry_count + 1;
        status = AudioChunkDeliveryStatus.failed;
      })
      session_id sequence_no

unfoldable pub mark_uploading : String → ℕ → Store → Result Thrown (Unit {0}) × Store
mark_uploading session_id sequence_no =
    update_delivery (λ d. record d { last_error = none; status = uploading }) session_id sequence_no

-- The part of `persistImmutable` after its guards.
unfoldable pub insert_record : BufferedAudioChunk → Store → Store
insert_record r s =
    let c = r.chunk in
    record s {
      archives = set c.key c s.archives;
      deliveries = set c.key r.delivery s.deliveries;
      next_sequence_numbers =
          set c.session_id (max (get_next_sequence_no c.session_id s) (c.sequence_no + 1))
            s.next_sequence_numbers;
      timeline_ends =
          set c.session_id (max (get_timeline_end_ms c.session_id s) c.ended_at_ms) s.timeline_ends;
    }

-- The part of `persistImmutable` for a key that is in the archive already.
unfoldable pub replay_record :
    BufferedAudioChunk → ImmutableAudioChunk → Store → Result Thrown BufferedAudioChunk × Store
replay_record r existing s =
    if same_immutable_chunk existing r.chunk
    then (
      ok (record {
        chunk = existing;
        delivery = or_else (get existing.key s.deliveries) r.delivery;
      }),
      s,
    )
    else (err audio_buffer_conflict_error, s)

-- `persistImmutable`, by what the archive has under the key.
abbrev pub persist_by :
    BufferedAudioChunk
    → ℕ
    → Store
    → Option ImmutableAudioChunk
    → Result Thrown BufferedAudioChunk × Store
persist_by r maximum s (some existing) = replay_record r existing s
persist_by r maximum s none =
    if ltb maximum (total_bytes (session_chunks r.chunk.session_id s) + r.chunk.byte_length)
    then (err audio_buffer_capacity_error, s)
    else (ok r, insert_record r s)

unfoldable pub persist_immutable :
    BufferedAudioChunk → ℕ → Store → Result Thrown BufferedAudioChunk × Store
persist_immutable r maximum s = persist_by r maximum s (get r.chunk.key s.archives)
