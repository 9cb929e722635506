-- ===== src/Audio/Deliveries.antt =====
-- What `run` of apps/web/src/audio/sequential-delivery-pump.ts has delivered when it answers.
use elder_interview_ai.Prelude.{
  ℕ, suc, ◌≡◌, sym, ap, ◌∙◌, subst, Bool, true, String, List, [], ◌∷◌, Option, none, some, arith,
  length,
}
use elder_interview_ai.Prelude.Map.{get}
use elder_interview_ai.Prelude.Sort.{IsSorted, sort_by-IsSorted}
use elder_interview_ai.Prelude.Text.{decimal}
use elder_interview_ai.Prelude.Action.{
  Result, ok, err, catch_result, ◌>>=◌, ◌>>◌, pure, require, catch, >>=-ok, require-ok,
}
use elder_interview_ai.Audio.Types.{BufferedAudioChunk, Thrown, error}
use elder_interview_ai.Audio.Store.{list, mark_uploading}
use elder_interview_ai.Audio.Queue.{StoreAction, restore, require_session_id}
use elder_interview_ai.Audio.Job.{AudioUploadJob}
use elder_interview_ai.Audio.JobStore.{get_upload_job}
use elder_interview_ai.Audio.Job.{StoredRecord, report, upload_job}
use elder_interview_ai.Audio.JobStore.{found_job}
use elder_interview_ai.Prelude.Map.{Map}
use elder_interview_ai.Audio.Pump.{
  AudioDeliveryAttempt, PumpState, PumpAction, on_store, on_jobs, with_request_id, attempt, give_up,
  deliver_chunk, deliver_all, run,
}

module _ (ids : ℕ → String) (deliver : List AudioDeliveryAttempt → Result Thrown Bool) where
  abbrev pub attempt_of : BufferedAudioChunk → String → AudioDeliveryAttempt
  attempt_of r request_id = record { chunk = r.chunk; request_id = request_id }

  -- From the attempts before to those after: one for each chunk, in their order, all accepted.
  abbrev pub Delivered :
      List BufferedAudioChunk → List AudioDeliveryAttempt → List AudioDeliveryAttempt → Type 0
  Delivered [] before after = after ≡ before
  Delivered (r ∷ rs) before after =
      (request_id : String) × (deliver (attempt_of r request_id ∷ before) ≡ ok true)
      × Delivered rs (attempt_of r request_id ∷ before) after

  store_keeps :
      {A : Type 0} (m : StoreAction A) (s t : PumpState) (a : A)
      → on_store m s ≡ (ok a, t)
      → (t.attempts ≡ s.attempts) × (t.jobs ≡ s.jobs)
  store_keeps m s t a h = (
    sym (ap (λ (y : Result Thrown _ × PumpState). y.1.attempts) h),
    sym (ap (λ (y : Result Thrown _ × PumpState). y.1.jobs) h),
  )

  attempt-ok :
      (job : AudioUploadJob) (r : BufferedAudioChunk) (request_id : String) (s t : PumpState)
      (x : Unit {0})
      → attempt ids deliver job r request_id s ≡ (ok x, t)
      → let a = attempt_of r request_id in
        (deliver (a ∷ s.attempts) ≡ ok true) × (t.attempts ≡ a ∷ s.attempts)
  unfolding attempt
  attempt-ok job r request_id s t x h = (ground arith, ground arith)

  gives_up :
      (job_id : String) (job : AudioUploadJob) (r : BufferedAudioChunk) (e : Thrown)
      (s t : PumpState) (x : Unit {0})
      → ¬ (give_up ids deliver job_id job r e s ≡ (ok x, t))
  unfolding give_up
  gives_up job_id job r e s t x h = ground arith

  caught :
      (job_id : String) (job : AudioUploadJob) (r : BufferedAudioChunk)
      (o : Result Thrown (Unit {0})) (s t : PumpState) (x : Unit {0})
      → catch_result (give_up ids deliver job_id job r) o s ≡ (ok x, t)
      → (o ≡ ok x) × (s ≡ t)
  caught job_id job r (ok a) s t x h = (cc, cc)
  caught job_id job r (err e) s t x h = absurd (gives_up job_id job r e s t x h)

  named :
      (job_id key : String) (job : AudioUploadJob) (o : Option String) (s t : PumpState)
      (x : AudioUploadJob × String)
      → with_request_id ids deliver job_id job key o s ≡ (ok x, t)
      → t.attempts ≡ s.attempts
  named job_id key job (some id) s t x h = ground arith
  named job_id key job none s t x h = ground arith

  deliver_chunk-ok :
      (job_id : String) (job next : AudioUploadJob) (r : BufferedAudioChunk) (s t : PumpState)
      → deliver_chunk ids deliver job_id job r s ≡ (ok next, t)
      → (id : String) × (deliver (attempt_of r id ∷ s.attempts) ≡ ok true)
        × (t.attempts ≡ attempt_of r id ∷ s.attempts)
  unfolding deliver_chunk
  deliver_chunk-ok job_id job next r s t h =
      let key = decimal r.chunk.sequence_no in
      let trying : AudioUploadJob × String → PumpAction (Unit {0}) =
        λ x. catch (attempt ids deliver x.0 r x.1) (give_up ids deliver job_id x.0 r) in
      let marking : AudioUploadJob × String → PumpAction (Unit {0}) =
        λ x. on_store (mark_uploading x.0.buffer_session_id r.chunk.sequence_no) in
      let (x, s1, p1, h1) =
        >>=-ok (with_request_id ids deliver job_id job key (get key job.chunk_request_ids))
          (λ x. marking x >> (trying x >> pure x.0)) s t next h in
      let (y, s2, p2, h2) = >>=-ok (marking x) (λ _. trying x >> pure x.0) s1 t next h1 in
      let (z, s3, p3, h3) = >>=-ok (trying x) (λ _. pure x.0) s2 t next h2 in
      let one = attempt ids deliver x.0 r x.1 s2 in
      let (q, e) = caught job_id x.0 r one.0 one.1 s3 z p3 in
      let done : one ≡ (ok z, s3) = cc in
      let (accepted, added) = attempt-ok x.0 r x.1 s2 s3 z done in
      let before : s2.attempts ≡ s.attempts =
        (store_keeps (mark_uploading x.0.buffer_session_id r.chunk.sequence_no) s1 s2 y p2).0
        ∙ named job_id key job (get key job.chunk_request_ids) s s1 x p1 in
      let last : t ≡ s3 = ground arith in
      (
        x.1,
        subst
            (λ (before : List AudioDeliveryAttempt). deliver (attempt_of r x.1 ∷ before) ≡ ok true)
            before accepted,
        ap (λ (z : PumpState). z.attempts) last
            ∙ (added
                ∙ ap (λ (before : List AudioDeliveryAttempt). attempt_of r x.1 ∷ before) before),
      )

  restored :
      (session_id : String) (s t : PumpState) (rs : List BufferedAudioChunk)
      → on_store (restore session_id) s ≡ (ok rs, t)
      → (rs ≡ list session_id s.store) × (t ≡ s)
  unfolding restore require_session_id
  restored session_id s t rs h = (ground arith, ground arith)

  deliver_all-Delivered :
      (rs : List BufferedAudioChunk) (job_id : String) (job : AudioUploadJob) (s t : PumpState)
      (n : ℕ)
      → deliver_all ids deliver job_id job rs s ≡ (ok n, t)
      → (n ≡ length rs) × Delivered rs s.attempts t.attempts
  unfolding deliver_all
  deliver_all-Delivered [] job_id job s t n h = (ground arith, ground arith)
  deliver_all-Delivered (r ∷ rs) job_id job s t n h =
      let rest : AudioUploadJob → PumpAction ℕ = λ next. deliver_all ids deliver job_id next rs in
      let (next, s1, p1, h1) =
        >>=-ok (deliver_chunk ids deliver job_id job r) (λ next. rest next >>= λ d. pure (suc d)) s
          t n h in
      let (d, s2, p2, h2) = >>=-ok (rest next) (λ d. pure (suc d)) s1 t n h1 in
      let (id, accepted, added) = deliver_chunk-ok job_id job next r s s1 p1 in
      let (count, more) = deliver_all-Delivered rs job_id next s1 s2 d p2 in
      let last : t ≡ s2 = ground arith in
      (
        ground (arith, count),
        (
          id,
          accepted,
          subst (λ (z : PumpState). Delivered rs (attempt_of r id ∷ s.attempts) z.attempts)
              (sym last)
              (subst (λ (before : List AudioDeliveryAttempt). Delivered rs before s2.attempts) added
                more),
        ),
      )

  found_upload_job :
      (job_id : String) (o : Option StoredRecord) (m u : Map StoredRecord) (job : AudioUploadJob)
      → found_job job_id o m ≡ (ok (some job), u)
      → o ≡ some (upload_job job)
  found_upload_job job_id none m u job h = cc
  found_upload_job job_id (some (report r)) m u job h = cc
  found_upload_job job_id (some (upload_job j)) m u job h = ground arith

  get_upload_job-ok :
      (job_id : String) (s t : PumpState) (o : Option AudioUploadJob) (job : AudioUploadJob)
      → on_jobs (get_upload_job job_id) s ≡ (ok o, t)
      → o ≡ some job
      → get job_id s.jobs ≡ some (upload_job job)
  unfolding get_upload_job
  get_upload_job-ok job_id s t o job h e =
      let asked = found_job job_id (get job_id s.jobs) s.jobs in
      let answered : asked.0 ≡ ok (some job) =
        ap (λ (y : Result Thrown (Option AudioUploadJob) × PumpState). y.0) h ∙ ap ok e in
      let whole : asked ≡ (ok (some job), asked.1) = cc in
      found_upload_job job_id (get job_id s.jobs) s.jobs asked.1 job whole

  -- When `run` answers with a number, it is the number of the chunks that were pending for the stored
  -- job's session, and `deliver` was called once for each of them, in the order of their numbers, and
  -- accepted each.
  pub run-Delivered :
      (job_id : String) (s t : PumpState) (n : ℕ)
      → run ids deliver job_id s ≡ (ok n, t)
      → (job : AudioUploadJob) × (get job_id s.jobs ≡ some (upload_job job))
        × (n ≡ length (list job.buffer_session_id s.store))
        × IsSorted
            (λ (r : BufferedAudioChunk). r.chunk.sequence_no)
            (list job.buffer_session_id s.store)
        × Delivered (list job.buffer_session_id s.store) s.attempts t.attempts
  unfolding run list
  run-Delivered job_id s t n h =
      let pump : AudioUploadJob → PumpAction ℕ =
        λ job. on_store (restore job.buffer_session_id) >>= deliver_all ids deliver job_id job in
      let (o, s1, p1, h1) =
        >>=-ok (on_jobs (get_upload_job job_id))
          (λ o. require o (error "UPLOAD_JOB_NOT_FOUND") >>= pump) s t n h in
      let (job, s2, p2, h2) = >>=-ok (require o (error "UPLOAD_JOB_NOT_FOUND")) pump s1 t n h1 in
      let (rs, s3, p3, h3) =
        >>=-ok (on_store (restore job.buffer_session_id)) (deliver_all ids deliver job_id job) s2 t
          n h2 in
      let same = (require-ok o (error "UPLOAD_JOB_NOT_FOUND") s1 s2 job p2).1 in
      let store1 : s1.store ≡ s.store =
        sym (ap (λ (y : Result Thrown (Option AudioUploadJob) × PumpState). y.1.store) p1) in
      let attempts1 : s1.attempts ≡ s.attempts =
        sym (ap (λ (y : Result Thrown (Option AudioUploadJob) × PumpState). y.1.attempts) p1) in
      let (pending, kept) = restored job.buffer_session_id s2 s3 rs p3 in
      let (count, all) = deliver_all-Delivered rs job_id job s3 t n h3 in
      let which : rs ≡ list job.buffer_session_id s.store =
        pending ∙ ap (list job.buffer_session_id) (ap (λ (z : PumpState). z.store) same ∙ store1) in
      let before : s3.attempts ≡ s.attempts =
        ap (λ (z : PumpState). z.attempts) (kept ∙ same) ∙ attempts1 in
      (
        job,
        get_upload_job-ok job_id s s1 o job p1
            (require-ok o (error "UPLOAD_JOB_NOT_FOUND") s1 s2 job p2).0,
        count ∙ ap length which,
        sort_by-IsSorted (λ (r : BufferedAudioChunk). r.chunk.sequence_no) _,
        subst
            (λ (before : List AudioDeliveryAttempt).
              Delivered (list job.buffer_session_id s.store) before t.attempts)
            before
            (subst (λ (xs : List BufferedAudioChunk). Delivered xs s3.attempts t.attempts) which
              all),
      )
