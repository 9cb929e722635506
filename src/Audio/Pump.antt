-- ===== src/Audio/Pump.antt =====
-- apps/web/src/audio/sequential-delivery-pump.ts: delivers the chunks that are still pending one
-- after the other, by a `deliver` that is the caller's: any function of the attempts so far.
use elder_interview_ai.Prelude.{
  ℕ, suc, Bool, not, String, List, [], ◌∷◌, Option, none, some, or_else,
}
use elder_interview_ai.Prelude.Map.{Map, get, set}
use elder_interview_ai.Prelude.Text.{decimal}
use elder_interview_ai.Prelude.Action.{
  Result, Action, ◌>>=◌, ◌>>◌, pure, throw, throw_if, require, gets, modify, catch,
}
use elder_interview_ai.Audio.Types.{ImmutableAudioChunk, BufferedAudioChunk, Thrown, error, message}
use elder_interview_ai.Audio.Store.{Store, mark_uploading, mark_failed}
use elder_interview_ai.Audio.Queue.{StoreAction, restore, queue_acknowledge}
use elder_interview_ai.Audio.Job.{AudioUploadJob, AudioUploadJobStatus, StoredRecord, uploading}
use elder_interview_ai.Audio.JobStore.{JobAction, get_upload_job, update_upload_job}

pub record AudioDeliveryAttempt : Type 0 where
  pub chunk : ImmutableAudioChunk
  pub request_id : String

-- `attempts` are the calls of `deliver` so far, newest first.
pub record PumpState : Type 0 where
  pub store : Store
  pub jobs : Map StoredRecord
  pub attempts : List AudioDeliveryAttempt
  pub drawn : ℕ

abbrev pub PumpAction : Type 0 → Type 0
PumpAction A = Action PumpState Thrown A

abbrev pub on_store : {A : Type 0} → StoreAction A → PumpAction A
on_store m s = ((m s.store).0, record s { store = (m s.store).1 })

abbrev pub on_jobs : {A : Type 0} → JobAction A → PumpAction A
on_jobs m s = ((m s.jobs).0, record s { jobs = (m s.jobs).1 })

module _ (request_id_of : ℕ → String)
    (deliver : List AudioDeliveryAttempt → Result Thrown Bool) where
  abbrev call_deliver : AudioDeliveryAttempt → PumpAction Bool
  call_deliver a = do
    modify (λ s. record s { attempts = a ∷ s.attempts })
    attempts ← gets (λ s. s.attempts)
    λ s. (deliver attempts, s)

  -- The update that gives a chunk its request identifier, unless it has one by now.
  abbrev pub assign_request_id : String → String → AudioUploadJob → AudioUploadJob
  assign_request_id key generated current = record current {
    chunk_request_ids =
        set key (or_else (get key current.chunk_request_ids) generated) current.chunk_request_ids;
    last_error = none;
    status = uploading;
  }

  abbrev pub with_request_id :
      String → AudioUploadJob → String → Option String → PumpAction (AudioUploadJob × String)
  with_request_id job_id job key (some request_id) = pure (job, request_id)
  with_request_id job_id job key none = do
    n ← gets (λ s. s.drawn)
    modify (λ s. record s { drawn = suc n })
    updated ← on_jobs (update_upload_job job_id (assign_request_id key (request_id_of n)))
    request_id ← require (get key updated.chunk_request_ids) (error "CHUNK_REQUEST_ID_MISSING")
    pure (updated, request_id)

  -- The part of the loop under its `try`.
  unfoldable pub attempt : AudioUploadJob → BufferedAudioChunk → String → PumpAction (Unit {0})
  attempt job r request_id = do
    done ← call_deliver (record { chunk = r.chunk; request_id = request_id })
    throw_if (not done) (error "AUDIO_CHUNK_ACK_MISMATCH")
    acknowledged ←
        on_store
          (queue_acknowledge job.buffer_session_id r.chunk.sequence_no r.chunk.checksum_sha256)
    throw_if (not acknowledged) (error "LOCAL_ACK_FAILED")

  -- The handler of the loop.
  unfoldable pub give_up :
      String → AudioUploadJob → BufferedAudioChunk → Thrown → PumpAction (Unit {0})
  give_up job_id job r e = do
    on_store (mark_failed job.buffer_session_id r.chunk.sequence_no (message e))
    on_jobs (
        update_upload_job job_id (λ current. record current {
          last_error = some (message e);
          status = AudioUploadJobStatus.failed;
        }))
    throw e

  -- One round of the loop.
  unfoldable pub deliver_chunk :
      String → AudioUploadJob → BufferedAudioChunk → PumpAction AudioUploadJob
  deliver_chunk job_id job r = do
    let key = decimal r.chunk.sequence_no
    named ← with_request_id job_id job key (get key job.chunk_request_ids)
    on_store (mark_uploading named.0.buffer_session_id r.chunk.sequence_no)
    catch (attempt named.0 r named.1) (give_up job_id named.0 r)
    pure named.0

  unfoldable pub deliver_all : String → AudioUploadJob → List BufferedAudioChunk → PumpAction ℕ
  deliver_all job_id job [] = pure 0
  deliver_all job_id job (r ∷ rs) = do
    next ← deliver_chunk job_id job r
    delivered ← deliver_all job_id next rs
    pure (suc delivered)

  unfoldable pub run : String → PumpAction ℕ
  run job_id = do
    found ← on_jobs (get_upload_job job_id)
    job ← require found (error "UPLOAD_JOB_NOT_FOUND")
    pending ← on_store (restore job.buffer_session_id)
    deliver_all job_id job pending
