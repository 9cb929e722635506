-- ===== src/Audio/Upload.antt =====
-- `AudioUploadJobRunner` of apps/web/src/audio/audio-upload-job.ts: makes the upload job of a
-- recording, freezes its number of chunks, and uploads what the server has not confirmed.
use elder_interview_ai.Prelude.{
  ℕ, Bool, true, false, not, ◌&&◌, ◌||◌, String, List, [], ◌∷◌, Option, none, some, if◌then◌else◌,
  eqb, length, any, or_else, is_some, is_none, ◌==◌,
}
use elder_interview_ai.Prelude.Map.{get, set}
use elder_interview_ai.Prelude.Text.{is_blank, decimal}
use elder_interview_ai.Prelude.Action.{◌>>=◌, ◌>>◌, pure, throw, throw_if, require, gets, catch}
use elder_interview_ai.Audio.Types.{BufferedAudioChunk, Thrown, error, type_error}
use elder_interview_ai.Audio.Store.{mark_uploading, mark_failed}
use elder_interview_ai.Audio.Queue.{restore, queue_acknowledge, queue_next_sequence_no}
use elder_interview_ai.Audio.Job.{
  AudioUploadJob, Purpose, consent, interview, recording, uploading, completing, complete,
  AudioUploadJobStatus,
}
use elder_interview_ai.Audio.JobStore.{get_upload_job, put_upload_job}
use elder_interview_ai.Audio.Client.{
  AudioObjectResponse, AudioChunkResponse, AudioManifestResponse, create_object, put_chunk,
  complete_object, Platform, ClientAction, on_store, on_jobs, fetch_json, draw_request_id, assign,
  error_code,
}

pub record CreateAudioUploadJobInput : Type 0 where
  pub buffer_session_id : String
  pub job_id : String
  pub mime_type : String
  pub project_id : String
  pub purpose : Purpose
  pub server_session_id : Option String

abbrev pub purpose_text : Purpose → String
purpose_text consent = "consent"
purpose_text interview = "interview"

abbrev pub same_text : Option String → Option String → Bool
same_text none none = true
same_text (some a) (some b) = a == b
same_text _ _ = false

abbrev pub same_purpose : Purpose → Purpose → Bool
same_purpose consent consent = true
same_purpose interview interview = true
same_purpose _ _ = false

unfoldable pub same_job_identity : AudioUploadJob → CreateAudioUploadJobInput → Bool
same_job_identity job input =
    job.buffer_session_id == input.buffer_session_id
    && job.project_id == input.project_id
    && same_purpose job.purpose input.purpose
    && same_text job.server_session_id input.server_session_id
    && job.mime_type == input.mime_type

abbrev pub is_consent : Purpose → Bool
is_consent consent = true
is_consent interview = false

unfoldable pub validate_create : CreateAudioUploadJobInput → ClientAction (Unit {0})
validate_create input = do
  throw_if
      (any is_blank
        (input.job_id ∷ input.buffer_session_id ∷ input.project_id ∷ input.mime_type ∷ []))
      (type_error "upload job identity is required")
  throw_if (is_consent input.purpose && is_some input.server_session_id)
      (type_error "consent upload job cannot bind a session")
  throw_if (not (is_consent input.purpose) && is_none input.server_session_id)
      (type_error "interview upload job requires a session")

-- The job that `create` stores.
abbrev pub new_job : CreateAudioUploadJobInput → String → AudioUploadJob
new_job input request_id = record {
  audio_object_id = none;
  buffer_session_id = input.buffer_session_id;
  chunk_request_ids = [];
  complete_request_id = none;
  create_request_id = some request_id;
  expected_chunk_count = none;
  interview_capture = none;
  job_id = input.job_id;
  last_error = none;
  mime_type = input.mime_type;
  project_id = input.project_id;
  purpose = input.purpose;
  server_session_id = input.server_session_id;
  status = recording;
}

unfoldable pub job_is_complete : AudioUploadJob → Bool
job_is_complete job = elim job.status [
  | complete ↦ true
  | recording ↦ false
  | uploading ↦ false
  | completing ↦ false
  | AudioUploadJobStatus.failed ↦ false
]

-- The test of `assertChunkAck`.
unfoldable pub chunk_ack_matches : String → BufferedAudioChunk → AudioChunkResponse → Bool
chunk_ack_matches audio_object_id r ack =
    ack.audio_object_id == audio_object_id
    && eqb ack.sequence_no r.chunk.sequence_no
    && eqb ack.start_ms r.chunk.started_at_ms
    && eqb ack.end_ms r.chunk.ended_at_ms
    && eqb ack.size_bytes r.chunk.byte_length
    && ack.checksum == r.chunk.checksum_sha256
    && ack.mime_type == r.chunk.mime_type
    && ack.upload_status == "uploaded"

abbrev same_count : Option ℕ → ℕ → Bool
same_count none n = false
same_count (some m) n = eqb n m

abbrev has_text : Option String → Bool
has_text none = false
has_text (some t) = not (t == "")

-- The test of `assertCompleteAck`.
unfoldable pub complete_ack_matches : AudioUploadJob → AudioManifestResponse → Bool
complete_ack_matches job v =
    same_text job.audio_object_id (some v.id)
    && v.status == "complete"
    && same_count job.expected_chunk_count v.chunk_count
    && has_text v.manifest_checksum

-- The test of `ensureAudioObject` on the server's answer.
unfoldable pub object_ack_matches : AudioUploadJob → AudioObjectResponse → Bool
object_ack_matches job created =
    created.project_id == job.project_id
    && created.purpose == purpose_text job.purpose
    && same_text created.session_id job.server_session_id
    && created.mime_type == job.mime_type
    && (created.status == "initiated" || created.status == "uploading")

module _ (p : Platform) where
  -- `create` where there is no such job, and where there is one.
  abbrev pub create_or_keep :
      CreateAudioUploadJobInput → Option AudioUploadJob → ClientAction AudioUploadJob
  create_or_keep input (some existing) = do
    throw_if (not (same_job_identity existing input)) (error "UPLOAD_JOB_CONFLICT")
    pure existing
  create_or_keep input none = do
    request_id ← draw_request_id p
    on_jobs (put_upload_job (new_job input request_id))
    pure (new_job input request_id)

  unfoldable pub create : CreateAudioUploadJobInput → ClientAction AudioUploadJob
  create input = do
    validate_create input
    existing ← on_jobs (get_upload_job input.job_id)
    create_or_keep input existing

  unfoldable pub required_job : String → ClientAction AudioUploadJob
  required_job job_id = do
    found ← on_jobs (get_upload_job job_id)
    require found (error "UPLOAD_JOB_NOT_FOUND")

  abbrev id_or_drawn : Option String → ClientAction String
  id_or_drawn (some request_id) = pure request_id
  id_or_drawn none = draw_request_id p

  -- `freeze` where the number of chunks is fixed already, and where it is not.
  abbrev pub freeze_job : AudioUploadJob → Option ℕ → ClientAction AudioUploadJob
  freeze_job job (some n) = pure job
  freeze_job job none = do
    expected ← on_store (queue_next_sequence_no job.buffer_session_id)
    throw_if (eqb expected 0) (error "UPLOAD_JOB_EMPTY")
    request_id ← id_or_drawn job.complete_request_id
    let frozen : AudioUploadJob = record job {
      complete_request_id = some request_id;
      expected_chunk_count = some expected;
      last_error = none;
      status = uploading;
    }
    on_jobs (put_upload_job frozen)
    pure frozen

  unfoldable pub freeze : String → ClientAction AudioUploadJob
  freeze job_id = do job ← required_job job_id; freeze_job job job.expected_chunk_count

  -- `ensureAudioObject` where the job has no audio object yet.
  abbrev pub make_audio_object : AudioUploadJob → String → ClientAction AudioUploadJob
  make_audio_object job csrf_token = do
    throw_if (not (is_consent job.purpose))
        (error "INTERVIEW_AUDIO_OBJECT_REQUIRES_ATOMIC_SESSION_START")
    request_id ← require job.create_request_id (error "AUDIO_CREATE_REQUEST_ID_MISSING")
    created ← fetch_json p.created (
        create_object job.project_id job.mime_type (purpose_text job.purpose) request_id
          job.server_session_id csrf_token)
    throw_if (not (object_ack_matches job created)) (error "AUDIO_OBJECT_ACK_MISMATCH")
    let updated : AudioUploadJob = record job {
      audio_object_id = some created.id;
      last_error = none;
      status = uploading;
    }
    on_jobs (put_upload_job updated)
    pure updated

  unfoldable pub ensure_audio_object : AudioUploadJob → String → ClientAction AudioUploadJob
  ensure_audio_object job csrf_token =
      if is_some job.audio_object_id then pure job else make_audio_object job csrf_token

  -- The request identifier of a chunk: the one the job has, or a new one that is stored first.
  abbrev pub with_request_id :
      AudioUploadJob → String → Option String → ClientAction (AudioUploadJob × String)
  with_request_id job key (some request_id) = pure (job, request_id)
  with_request_id job key none = do
    request_id ← draw_request_id p
    let updated : AudioUploadJob = record job {
      chunk_request_ids = set key request_id job.chunk_request_ids;
      last_error = none;
      status = uploading;
    }
    on_jobs (put_upload_job updated)
    pure (updated, request_id)

  -- The part of `uploadChunk` under its `try`.
  unfoldable pub send_chunk :
      String → BufferedAudioChunk → String → AudioUploadJob → String → ClientAction AudioUploadJob
  send_chunk audio_object_id r csrf_token job request_id = do
    let c = r.chunk
    ack ← fetch_json p.chunk_stored (
        put_chunk audio_object_id c.sequence_no c.blob c.mime_type c.ended_at_ms c.checksum_sha256
          c.started_at_ms csrf_token request_id)
    throw_if (not (chunk_ack_matches audio_object_id r ack)) (error "AUDIO_CHUNK_ACK_MISMATCH")
    removed ← on_store (queue_acknowledge job.buffer_session_id c.sequence_no c.checksum_sha256)
    throw_if (not removed) (error "LOCAL_ACK_FAILED")
    pure job

  unfoldable pub upload_chunk :
      AudioUploadJob → BufferedAudioChunk → String → ClientAction AudioUploadJob
  upload_chunk job r csrf_token = do
    audio_object_id ← require job.audio_object_id (error "AUDIO_OBJECT_MISSING")
    let key = decimal r.chunk.sequence_no
    named ← with_request_id job key (get key job.chunk_request_ids)
    on_store (mark_uploading job.buffer_session_id r.chunk.sequence_no)
    catch (send_chunk audio_object_id r csrf_token named.0 named.1) (λ e. do
      on_store (mark_failed job.buffer_session_id r.chunk.sequence_no (error_code e))
      throw e)

  -- The loop of `resume`.
  unfoldable pub upload_chunks :
      AudioUploadJob → List BufferedAudioChunk → String → ClientAction AudioUploadJob
  upload_chunks job [] csrf_token = pure job
  upload_chunks job (r ∷ rs) csrf_token = do
    next ← upload_chunk job r csrf_token
    assign next
    upload_chunks next rs csrf_token

  -- The end of `resume`: the server's answer has to match.
  unfoldable pub confirm_job : AudioUploadJob → AudioManifestResponse → ClientAction AudioUploadJob
  confirm_job job manifest = do
    throw_if (not (complete_ack_matches job manifest)) (error "AUDIO_COMPLETE_ACK_MISMATCH")
    let done : AudioUploadJob = record job { last_error = none; status = complete }
    assign done
    on_jobs (put_upload_job done)
    pure done

  -- The part of `resume` under its `try`, after the test of what remains.
  unfoldable pub ask_manifest : AudioUploadJob → ℕ → String → String → ClientAction AudioUploadJob
  ask_manifest job expected request_id csrf_token = do
    audio_object_id ← require job.audio_object_id (error "AUDIO_OBJECT_MISSING")
    let asking : AudioUploadJob = record job { last_error = none; status = completing }
    assign asking
    on_jobs (put_upload_job asking)
    manifest ←
        fetch_json p.completed (complete_object audio_object_id expected request_id csrf_token)
    confirm_job asking manifest

  -- The part of `resume` under its `try`, after the loop.
  unfoldable pub complete_job : AudioUploadJob → ℕ → String → String → ClientAction AudioUploadJob
  complete_job job expected request_id csrf_token = do
    remaining ← on_store (restore job.buffer_session_id)
    throw_if (not (eqb (length remaining) 0)) (error "UPLOAD_JOB_CHUNKS_REMAIN")
    ask_manifest job expected request_id csrf_token

  -- The part of `resume` under its `try`.
  unfoldable pub deliver : AudioUploadJob → ℕ → String → String → ClientAction AudioUploadJob
  deliver job expected request_id csrf_token = do
    assign job
    ready ← ensure_audio_object job csrf_token
    assign ready
    chunks ← on_store (restore ready.buffer_session_id)
    uploaded ← upload_chunks ready chunks csrf_token
    complete_job uploaded expected request_id csrf_token

  -- The handler of `resume`.
  unfoldable pub fail_job : String → AudioUploadJob → Thrown → ClientAction AudioUploadJob
  fail_job job_id job0 e = do
    stored ← on_jobs (get_upload_job job_id)
    variable ← gets (λ c. c.variable)
    let failed : AudioUploadJob = record (or_else stored (or_else variable job0)) {
      last_error = some (error_code e);
      status = AudioUploadJobStatus.failed;
    }
    on_jobs (put_upload_job failed)
    pure failed

  -- `resume` by the job's number of chunks and its request identifier.
  abbrev pub resume_job :
      String → String → AudioUploadJob → Option ℕ → Option String → ClientAction AudioUploadJob
  resume_job job_id csrf_token job (some expected) (some request_id) =
      catch (deliver job expected request_id csrf_token) (fail_job job_id job)
  resume_job job_id csrf_token job none _ = throw (error "UPLOAD_JOB_NOT_FROZEN")
  resume_job job_id csrf_token job (some expected) none = throw (error "UPLOAD_JOB_NOT_FROZEN")

  abbrev pub resume_unless : Bool → String → String → AudioUploadJob → ClientAction AudioUploadJob
  resume_unless true job_id csrf_token job = pure job
  resume_unless false job_id csrf_token job =
      resume_job job_id csrf_token job job.expected_chunk_count job.complete_request_id

  abbrev pub resume_found : String → String → AudioUploadJob → ClientAction AudioUploadJob
  resume_found job_id csrf_token job = resume_unless (job_is_complete job) job_id csrf_token job

  unfoldable pub resume : String → String → ClientAction AudioUploadJob
  resume job_id csrf_token = do job ← required_job job_id; resume_found job_id csrf_token job
