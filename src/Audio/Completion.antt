-- ===== src/Audio/Completion.antt =====
-- What `resume` of apps/web/src/audio/audio-upload-job.ts promises when it answers that a job is
-- complete.
use elder_interview_ai.Prelude.{
  ℕ, ◌≡◌, refl, sym, ap, ◌∙◌, ◌⊎◌, inl, inr, Bool, true, false, not, String, List, [], ◌∷◌, Option,
  none, some, arith, eqb, length,
}
use elder_interview_ai.Prelude.Map.{Map, get}
use elder_interview_ai.Prelude.Action.{
  Result, ok, err, ◌>>=◌, ◌>>◌, throw_if, require, catch_result, >>=-ok,
}
use elder_interview_ai.Audio.Types.{BufferedAudioChunk, Thrown, error}
use elder_interview_ai.Audio.Store.{list}
use elder_interview_ai.Audio.Queue.{restore, require_session_id}
use elder_interview_ai.Audio.Job.{
  AudioUploadJob, complete, completing, StoredRecord, report, upload_job,
}
use elder_interview_ai.Audio.JobStore.{found_job, get_upload_job, put_upload_job}
use elder_interview_ai.Audio.Client.{
  AudioManifestResponse, Reply, body, rejected, not_ok, Platform, Client, ClientAction,
  complete_object, Request, on_store, on_jobs, fetch_json, read_json, assign,
}
use elder_interview_ai.Audio.Upload.{
  complete_ack_matches, job_is_complete, required_job, ensure_audio_object, upload_chunks,
  confirm_job, ask_manifest, complete_job, deliver, fail_job, resume_job, resume_unless,
  resume_found, resume,
}

-- No chunk of the job is pending, and the server's last answer is a manifest that matches the job.
abbrev pub IsConfirmed : Platform → AudioUploadJob → Client → Type 0
IsConfirmed p job c =
    (list job.buffer_session_id c.store ≡ [])
    × ((m : AudioManifestResponse) × (p.completed c.sent ≡ body m)
        × (complete_ack_matches job m ≡ true))

module _ (p : Platform) where
  read_body :
      (r : Reply AudioManifestResponse) (c d : Client) (m : AudioManifestResponse)
      → read_json r c ≡ (ok m, d)
      → (r ≡ body m) × (d ≡ c)
  read_body (rejected e) c d m h = cc
  read_body (not_ok n) c d m h = cc
  read_body (body b) c d m h = (cc, cc)

  no_chunks : (xs : List BufferedAudioChunk) → not (eqb (length xs) 0) ≡ false → xs ≡ []
  no_chunks [] h = refl
  no_chunks (x ∷ xs) h = ground arith

  restored :
      (session_id : String) (c d : Client) (xs : List BufferedAudioChunk)
      → on_store (restore session_id) c ≡ (ok xs, d)
      → (xs ≡ list session_id c.store) × (d ≡ c)
  unfolding restore require_session_id
  restored session_id c d xs h = ground arith

  fetched :
      (r : Request) (c d : Client) (m : AudioManifestResponse)
      → fetch_json p.completed r c ≡ (ok m, d)
      → (p.completed d.sent ≡ body m) × (d.store ≡ c.store)
  fetched r c d m h =
      let asked : Client = record c { sent = r ∷ c.sent } in
      let (b, e) = read_body (p.completed (r ∷ c.sent)) asked d m h in
      (ap (λ (x : Client). p.completed x.sent) e ∙ b, ap (λ (x : Client). x.store) e)

  confirmed :
      (job : AudioUploadJob) (m : AudioManifestResponse) (c d : Client) (done : AudioUploadJob)
      → confirm_job p job m c ≡ (ok done, d)
      → (complete_ack_matches job m ≡ true)
        × (done ≡ record job { last_error = none; status = complete })
        × (d.store ≡ c.store)
        × (d.sent ≡ c.sent)
  unfolding confirm_job
  confirmed job m c d done h = ground arith

  asked :
      (job : AudioUploadJob) (expected : ℕ) (request_id csrf_token : String) (c d : Client)
      (done : AudioUploadJob)
      → ask_manifest p job expected request_id csrf_token c ≡ (ok done, d)
      → (done ≡ record job { last_error = none; status = complete })
        × (d.store ≡ c.store)
        × ((m : AudioManifestResponse) × (p.completed d.sent ≡ body m)
            × (complete_ack_matches done m ≡ true))
  unfolding ask_manifest complete_ack_matches
  asked job expected request_id csrf_token c d done h =
      let asking : AudioUploadJob = record job { last_error = none; status = completing } in
      let (object, c1, p1, h1) = >>=-ok (require job.audio_object_id _) _ c d done h in
      let ask = fetch_json p.completed (complete_object object expected request_id csrf_token) in
      let assigned : Client = record c1 { variable = some asking } in
      let (x, c2, p2, h2) =
        >>=-ok (on_jobs (put_upload_job asking)) (λ _. ask >>= confirm_job p asking) assigned d done
          h1 in
      let (m, c3, p3, h3) = >>=-ok ask (confirm_job p asking) c2 d done h2 in
      let (match, e, stores, sents) = confirmed asking m c3 d done h3 in
      let (replied, fetches) =
        fetched (complete_object object expected request_id csrf_token) c2 c3 m p3 in
      let store1 : c1.store ≡ c.store = ground arith in
      let store2 = sym (ap (λ (y : Result Thrown (Unit {0}) × Client). y.1.store) p2) in
      (
        e,
        stores ∙ (fetches ∙ (store2 ∙ store1)),
        (m, ap p.completed sents ∙ replied, ap (λ j. complete_ack_matches j m) e ∙ match),
      )

  complete_job-IsConfirmed :
      (job : AudioUploadJob) (expected : ℕ) (request_id csrf_token : String) (c d : Client)
      (done : AudioUploadJob)
      → complete_job p job expected request_id csrf_token c ≡ (ok done, d)
      → IsConfirmed p done d
  unfolding complete_job
  complete_job-IsConfirmed job expected request_id csrf_token c d done h =
      let (xs, c1, p1, h1) = >>=-ok (on_store (restore job.buffer_session_id)) _ c d done h in
      let (e, kept) = restored job.buffer_session_id c c1 xs p1 in
      let (x, c2, p2, h2) =
        >>=-ok (throw_if (not (eqb (length xs) 0)) (error "UPLOAD_JOB_CHUNKS_REMAIN"))
          (λ _. ask_manifest p job expected request_id csrf_token) c1 d done h1 in
      let empty = no_chunks xs (ground arith) in
      let (finished, stores, answered) = asked job expected request_id csrf_token c2 d done h2 in
      let store2 : d.store ≡ c.store = ground (arith, stores, p2, kept) in
      (
        ap (λ (j : AudioUploadJob). list j.buffer_session_id d.store) finished
            ∙ (ap (list job.buffer_session_id) store2 ∙ (sym e ∙ empty)),
        answered,
      )

  deliver-IsConfirmed :
      (job : AudioUploadJob) (expected : ℕ) (request_id csrf_token : String) (c d : Client)
      (done : AudioUploadJob)
      → deliver p job expected request_id csrf_token c ≡ (ok done, d)
      → IsConfirmed p done d
  unfolding deliver
  deliver-IsConfirmed job expected request_id csrf_token c d done h =
      let assigned : Client = record c { variable = some job } in
      let last : AudioUploadJob → ClientAction AudioUploadJob =
        λ j. complete_job p j expected request_id csrf_token in
      let after : AudioUploadJob → ClientAction AudioUploadJob = λ j.
        on_store (restore j.buffer_session_id) >>= λ xs. upload_chunks p j xs csrf_token >>= last in
      let (ready, c1, p1, h1) =
        >>=-ok (ensure_audio_object p job csrf_token) (λ j. assign j >> after j) assigned d done
          h in
      let ready_client : Client = record c1 { variable = some ready } in
      let (xs, c2, p2, h2) =
        >>=-ok (on_store (restore ready.buffer_session_id))
          (λ xs. upload_chunks p ready xs csrf_token >>= last) ready_client d done h1 in
      let (uploaded, c3, p3, h3) = >>=-ok (upload_chunks p ready xs csrf_token) last c2 d done h2 in
      complete_job-IsConfirmed uploaded expected request_id csrf_token c3 d done h3

  fails :
      (job_id : String) (job : AudioUploadJob) (e : Thrown) (c d : Client) (done : AudioUploadJob)
      → fail_job p job_id job e c ≡ (ok done, d)
      → job_is_complete done ≡ false
  unfolding fail_job job_is_complete
  fails job_id job e c d done h = ground arith

  caught :
      (job_id : String) (job : AudioUploadJob) (r : Result Thrown AudioUploadJob) (c d : Client)
      (done : AudioUploadJob)
      → catch_result (fail_job p job_id job) r c ≡ (ok done, d)
      → job_is_complete done ≡ true
      → (r ≡ ok done) × (c ≡ d)
  caught job_id job (ok a) c d done h k = (cc, cc)
  caught job_id job (err e) c d done h k = absurd (ground (arith, k, fails job_id job e c d done h))

  resume_job-IsConfirmed :
      (job_id csrf_token : String) (job : AudioUploadJob) (n : Option ℕ) (r : Option String)
      (c d : Client) (done : AudioUploadJob)
      → resume_job p job_id csrf_token job n r c ≡ (ok done, d)
      → job_is_complete done ≡ true
      → IsConfirmed p done d
  resume_job-IsConfirmed job_id csrf_token job none r c d done h k = cc
  resume_job-IsConfirmed job_id csrf_token job (some n) none c d done h k = cc
  resume_job-IsConfirmed job_id csrf_token job (some n) (some r) c d done h k =
      let x = deliver p job n r csrf_token c in
      let (e, f) = caught job_id job x.0 x.1 d done h k in
      deliver-IsConfirmed job n r csrf_token c d done (cc)

  required_value :
      (o : Option AudioUploadJob) (c d : Client) (job : AudioUploadJob)
      → require o (error "UPLOAD_JOB_NOT_FOUND") c ≡ (ok job, d)
      → d ≡ c
  required_value none c d job h = cc
  required_value (some j) c d job h = cc

  reads :
      (job_id : String) (o : Option StoredRecord) (m : Map StoredRecord)
      → (found_job job_id o m).1 ≡ m
  reads job_id none m = refl
  reads job_id (some (report r)) m = refl
  reads job_id (some (upload_job j)) m = ground arith

  get_upload_job-reads : (job_id : String) (c : Client) → (on_jobs (get_upload_job job_id) c).1 ≡ c
  unfolding get_upload_job
  get_upload_job-reads job_id c =
      ap (λ (m : Map StoredRecord). record c { jobs = m }) (reads job_id (get job_id c.jobs) c.jobs)

  required_job-reads :
      (job_id : String) (c d : Client) (job : AudioUploadJob)
      → required_job p job_id c ≡ (ok job, d)
      → d ≡ c
  unfolding required_job
  required_job-reads job_id c d job h =
      let (o, c1, p1, h1) =
        >>=-ok (on_jobs (get_upload_job job_id)) (λ o. require o (error "UPLOAD_JOB_NOT_FOUND")) c d
          job h in
      let same = sym (ap (λ (y : Result Thrown (Option AudioUploadJob) × Client). y.1) p1) in
      required_value o c1 d job h1 ∙ (same ∙ get_upload_job-reads job_id c)

  by_completeness :
      (job_id csrf_token : String) (job : AudioUploadJob) (c c1 d : Client) (done : AudioUploadJob)
      (b : Bool)
      → c1 ≡ c
      → resume_unless p b job_id csrf_token job c1 ≡ (ok done, d)
      → job_is_complete done ≡ true
      → (d ≡ c) ⊎ IsConfirmed p done d
  by_completeness job_id csrf_token job c c1 d done true same h k = inl cc
  by_completeness job_id csrf_token job c c1 d done false same h k = inr (
      resume_job-IsConfirmed job_id csrf_token job job.expected_chunk_count job.complete_request_id
        c1 d done h k)

  -- If `resume` answers with a complete job, then the stored job was complete before and nothing has
  -- happened, or no chunk of the job is pending any more and the server's last answer is a manifest
  -- with the job's audio object, its number of chunks and a digest.
  pub resume-IsConfirmed :
      (job_id csrf_token : String) (c d : Client) (done : AudioUploadJob)
      → resume p job_id csrf_token c ≡ (ok done, d)
      → job_is_complete done ≡ true
      → (d ≡ c) ⊎ IsConfirmed p done d
  unfolding resume
  resume-IsConfirmed job_id csrf_token c d done h k =
      let (job, c1, p1, h1) =
        >>=-ok (required_job p job_id) (resume_found p job_id csrf_token) c d done h in
      let same = required_job-reads job_id c c1 job p1 in
      by_completeness job_id csrf_token job c c1 d done (job_is_complete job) same h1 k
