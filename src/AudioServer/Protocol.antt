-- ===== src/AudioServer/Protocol.antt =====
-- Both ends of the upload: what apps/api/src/audio/audio.service.ts answers, mapped by
-- audio.mapper.ts, is what apps/web/src/audio/audio-upload-job.ts accepts.
use text.Mathlib.TextPositions.{eq_refl}
use elder_interview_ai.Prelude.{
  ℕ, ◌≡◌, ◌≢◌, ap, true, String, List, none, some, arith, length, ◌==◌, eq_iff, or_else, map,
}
use elder_interview_ai.Prelude.Rows.{find-holds}
use elder_interview_ai.Prelude.Action.{ok}
use elder_interview_ai.Audio.Types.{BufferedAudioChunk}
use elder_interview_ai.Audio.Job.{AudioUploadJob}
use elder_interview_ai.Audio.Client.{AudioChunkResponse, AudioManifestResponse}
use elder_interview_ai.Audio.Upload.{chunk_ack_matches, complete_ack_matches}
use elder_interview_ai.AudioServer.Tables.{
  AudioObjectStatus, initiated, uploading, complete, failed, AudioObject, AudioChunk, Commitment,
  Response, chunk_response, manifest_response, Database, State, Actor, AudioChunkInput, Platform,
}
use elder_interview_ai.AudioServer.Access.{is_chunk_of, find_object, find_chunk, find_record}
use elder_interview_ai.AudioServer.Service.{upload_chunk}
use elder_interview_ai.AudioServer.Complete.{complete_object, entry, manifest_checksum}
use elder_interview_ai.AudioServer.Uploaded.{upload_chunk-IsStored}
use elder_interview_ai.AudioServer.Completed.{complete_object-IsWhole}

abbrev pub status_text : AudioObjectStatus → String
status_text initiated = "initiated"
status_text uploading = "uploading"
status_text complete = "complete"
status_text failed = "failed"

-- The fields of `mapAudioChunk` that the client reads.
abbrev pub map_chunk : AudioChunk → AudioChunkResponse
map_chunk c = record {
  audio_object_id = c.audio_object_id;
  sequence_no = c.sequence_no;
  start_ms = c.start_ms;
  end_ms = c.end_ms;
  size_bytes = c.size_bytes;
  checksum = c.checksum;
  mime_type = c.mime_type;
  upload_status = "uploaded";
}

-- The fields of `mapAudioManifest` that the client reads.
abbrev pub map_manifest : AudioObject → AudioManifestResponse
map_manifest o = record {
  id = o.id;
  status = status_text o.status;
  chunk_count = or_else o.chunk_count 0;
  manifest_checksum = o.manifest_checksum;
}

-- What the server reads of the request that `sendChunk` makes for a chunk.
abbrev pub input_of : BufferedAudioChunk → (request_id : String) → AudioChunkInput
input_of r request_id = record {
  checksum = r.chunk.checksum_sha256;
  end_ms = r.chunk.ended_at_ms;
  mime_type = r.chunk.mime_type;
  request_id = request_id;
  sequence_no = r.chunk.sequence_no;
  start_ms = r.chunk.started_at_ms;
}

-- The chunk that is answered has the object and the number that were asked for.
found-fields :
    (object_id : String) (n : ℕ) (d : Database) (c : AudioChunk)
    → find_chunk object_id n d ≡ some c
    → (c.audio_object_id ≡ object_id) × (c.sequence_no ≡ n)
unfolding find_chunk
found-fields object_id n d c h =
    let e : is_chunk_of object_id n c ≡ true =
      find-holds (is_chunk_of object_id n) d.audio_chunks c h in
    (ground (arith, e, eq_iff c.audio_object_id object_id), ground (arith, e))

-- A new request for a buffered chunk, with its bytes, that an interviewer is answered, is answered
-- with an acknowledgement that the client accepts for this chunk.
pub upload_chunk-accepted :
    (p : Platform) (actor : Actor) (object_id : String) (b : BufferedAudioChunk)
    (request_id : String) (s t : State) (r : Response)
    → actor.is_interviewer ≡ true
    → find_record request_id s.database ≡ none
    → length b.chunk.blob ≡ b.chunk.byte_length
    → upload_chunk p actor object_id (input_of b request_id) b.chunk.blob s ≡ (ok r, t)
    → (c : AudioChunk) × (r ≡ chunk_response c)
      × (chunk_ack_matches object_id b (map_chunk c) ≡ true)
unfolding chunk_ack_matches
upload_chunk-accepted p actor object_id b request_id s t r role new sized h =
    let k =
      upload_chunk-IsStored p actor object_id (input_of b request_id) b.chunk.blob s t r role new
        h in
    let c : AudioChunk = k.chunk in
    let (of_object, numbered) = found-fields object_id b.chunk.sequence_no t.database c k.found in
    (
      c,
      k.answer,
      ground (
        arith,
        of_object,
        numbered,
        k.from,
        k.to,
        k.size,
        sized,
        k.checksum,
        k.mime_type,
        eq_refl object_id,
        eq_refl b.chunk.checksum_sha256,
        eq_refl b.chunk.mime_type,
      ),
    )

found-id :
    (object_id : String) (d : Database) (o : AudioObject)
    → find_object object_id d ≡ some o
    → o.id ≡ object_id
unfolding find_object
found-id object_id d o h =
    (eq_iff o.id object_id).0
      (find-holds (λ (x : AudioObject). x.id == object_id) d.audio_objects o h)

manifest_accepted :
    (job : AudioUploadJob) (v : AudioManifestResponse) (id text : String) (n : ℕ)
    → job.audio_object_id ≡ some id
    → job.expected_chunk_count ≡ some n
    → v.id ≡ id
    → v.status ≡ "complete"
    → v.chunk_count ≡ n
    → v.manifest_checksum ≡ some text
    → text ≢ ""
    → complete_ack_matches job v ≡ true
unfolding complete_ack_matches
manifest_accepted job v id text n a b c d e f g =
    ground (arith, eq_iff id v.id, eq_iff v.status "complete", eq_iff text "")

-- A new request to complete the audio object of a job with the job's number of chunks, that an
-- interviewer is answered, is answered with a manifest that the client accepts for the job; the
-- digest of a manifest is not empty.
pub complete_object-accepted :
    (p : Platform) (actor : Actor) (object_id : String) (expected : ℕ) (request_id : String)
    (job : AudioUploadJob) (s t : State) (r : Response)
    → actor.is_interviewer ≡ true
    → find_record request_id s.database ≡ none
    → ((entries : List Commitment) → p.manifest entries ≢ "")
    → job.audio_object_id ≡ some object_id
    → job.expected_chunk_count ≡ some expected
    → complete_object p actor object_id expected request_id s ≡ (ok r, t)
    → (o : AudioObject) × (cs : List AudioChunk) × (r ≡ manifest_response o cs)
      × (complete_ack_matches job (map_manifest o) ≡ true)
complete_object-accepted p actor object_id expected request_id job s t r role new digest id count
      h =
    let k = complete_object-IsWhole p actor object_id expected request_id s t r role new h in
    let o : AudioObject = k.object in
    (
      o,
      k.chunks,
      k.answer,
      manifest_accepted job (map_manifest o) object_id (manifest_checksum p k.chunks) expected id
          count (found-id object_id t.database o k.found) (ap status_text k.status)
          (ap (λ n. or_else n 0) k.chunk_count) k.manifest (digest (map entry k.chunks)),
    )
