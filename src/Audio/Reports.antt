-- ===== src/Audio/Reports.antt =====
-- What the job store of apps/web/src/audio/audio-upload-job.ts keeps of an interruption report.
use elder_interview_ai.Prelude.{
  ◌≡◌, refl, sym, ap, ◌∙◌, subst, Bool, true, false, not, String, List, [], ◌∷◌, Option, none, some,
  arith, ◌==◌, eq_iff,
}
use elder_interview_ai.Prelude.Map.{Map, get, set, get-set}
use elder_interview_ai.Prelude.Action.{◌>>=◌, ◌>>◌, pure, throw_if, gets, modify}
use elder_interview_ai.Prelude.Text.{starts_with, starts_with-append, ◌^^◌, decimal}
use elder_interview_ai.Audio.Types.{Thrown, error}
use elder_interview_ai.Audio.Job.{
  AudioUploadJob, CaptureInterruptionReport, StoredRecord, upload_job, report, job_is_valid,
  report_is_valid, report_key, same_report_identity,
}
use elder_interview_ai.Audio.JobStore.{
  JobAction, report_invalid, assert_report, get_or_create_report, update_report, put_upload_job,
  update_upload_job, updated_job, found_report, updated_report,
}

-- The calls that change the job store.
pub data JobCall : Type 0 where
  puts_job : AudioUploadJob → JobCall
  updates_job : (job_id : String) → (AudioUploadJob → AudioUploadJob) → JobCall
  creates_report : CaptureInterruptionReport → JobCall
  updates_report :
      (job_id : String) → (CaptureInterruptionReport → CaptureInterruptionReport) → JobCall

abbrev pub job_call : JobCall → Map StoredRecord → Map StoredRecord
job_call (puts_job job) m = (put_upload_job job m).1
job_call (updates_job job_id f) m = (update_upload_job job_id f m).1
job_call (creates_report r) m = (get_or_create_report r m).1
job_call (updates_report job_id f) m = (update_report job_id f m).1

unfoldable pub job_calls : List JobCall → Map StoredRecord → Map StoredRecord
job_calls [] m = m
job_calls (c ∷ cs) m = job_calls cs (job_call c m)

-- The same report: everything but its status, its last error and its time of update.
pub record SameReport (r s : CaptureInterruptionReport) : Type 0 where
  pub job_id : r.job_id ≡ s.job_id
  pub project_id : r.project_id ≡ s.project_id
  pub session_id : r.session_id ≡ s.session_id
  pub audio_object_id : r.audio_object_id ≡ s.audio_object_id
  pub audio_stream_id : r.audio_stream_id ≡ s.audio_stream_id
  pub generation_no : r.generation_no ≡ s.generation_no
  pub request_id : r.request_id ≡ s.request_id
  pub created_at : r.created_at ≡ s.created_at

-- A valid report that is this one is under the key.
abbrev pub HasReport : String → CaptureInterruptionReport → Map StoredRecord → Type 0
HasReport k r m =
    (s : CaptureInterruptionReport) × (get k m ≡ some (report s))
    × (report_is_valid k s ≡ true)
    × SameReport r s

abbrev prefix : String
prefix = "capture-interruption-report:"

report_key-prefix : (r : CaptureInterruptionReport) → starts_with prefix (report_key r) ≡ true
unfolding report_key
report_key-prefix r =
    let a : String = "capture-interruption-report:v1:" in
    let b = a ^^ r.session_id in
    let c = b ^^ ":" in
    let d = c ^^ decimal r.generation_no in
    let e = d ^^ ":" in
    starts_with-append prefix e r.audio_stream_id (
      starts_with-append prefix d ":" (
        starts_with-append prefix c (decimal r.generation_no)
          (starts_with-append prefix b ":" (starts_with-append prefix a r.session_id refl))))

valid_key :
    (k : String) (r : CaptureInterruptionReport)
    → report_is_valid k r ≡ true
    → (r.job_id ≡ k) × (starts_with prefix k ≡ true)
unfolding report_is_valid
valid_key k r h =
    let e : r.job_id ≡ k = ground (arith, eq_iff r.job_id k) in
    let f : r.job_id ≡ report_key r = ground (arith, eq_iff r.job_id (report_key r)) in
    (e, ap (starts_with prefix) (sym e ∙ f) ∙ report_key-prefix r)

same-SameReport :
    (r s : CaptureInterruptionReport) → same_report_identity r s ≡ true → SameReport r s
unfolding same_report_identity
same-SameReport r s h = ground (
  arith,
  eq_iff r.job_id s.job_id,
  eq_iff r.project_id s.project_id,
  eq_iff r.session_id s.session_id,
  eq_iff r.audio_object_id s.audio_object_id,
  eq_iff r.audio_stream_id s.audio_stream_id,
  eq_iff r.request_id s.request_id,
  eq_iff r.created_at s.created_at,
)

SameReport-trans :
    {r s t : CaptureInterruptionReport} → SameReport r s → SameReport s t → SameReport r t
SameReport-trans a b = record {
  job_id = a.job_id ∙ b.job_id;
  project_id = a.project_id ∙ b.project_id;
  session_id = a.session_id ∙ b.session_id;
  audio_object_id = a.audio_object_id ∙ b.audio_object_id;
  audio_stream_id = a.audio_stream_id ∙ b.audio_stream_id;
  generation_no = a.generation_no ∙ b.generation_no;
  request_id = a.request_id ∙ b.request_id;
  created_at = a.created_at ∙ b.created_at;
}

put-HasReport :
    (k : String) (r : CaptureInterruptionReport) (job : AudioUploadJob) (m : Map StoredRecord)
    → HasReport k r m
    → HasReport k r (put_upload_job job m).1
unfolding put_upload_job job_is_valid
put-HasReport k r job m (s, e, v, w) =
    let (j, p) = valid_key k s v in
    (s, ground (arith, p, eq_iff job.job_id k, get-set job.job_id (upload_job job) k m), v, w)

updated_job-HasReport :
    (k : String) (r : CaptureInterruptionReport) (job_id : String)
    (f : AudioUploadJob → AudioUploadJob) (m : Map StoredRecord) (o : Option StoredRecord)
    → get job_id m ≡ o
    → HasReport k r m
    → HasReport k r (updated_job job_id f o m).1
unfolding job_is_valid
updated_job-HasReport k r job_id f m none q (s, e, v, w) = (s, e, v, w)
updated_job-HasReport k r job_id f m (some (report x)) q (s, e, v, w) = (s, e, v, w)
updated_job-HasReport k r job_id f m (some (upload_job j)) q (s, e, v, w) =
    let (i, p) = valid_key k s v in
    (
      s,
      ground (
        arith,
        p,
        eq_iff j.job_id job_id,
        eq_iff (f j).job_id job_id,
        eq_iff job_id k,
        get-set job_id (upload_job (f j)) k m,
      ),
      v,
      w,
    )

found_report-HasReport :
    (k : String) (r candidate : CaptureInterruptionReport) (m : Map StoredRecord)
    (o : Option StoredRecord)
    → get candidate.job_id m ≡ o
    → HasReport k r m
    → HasReport k r (found_report candidate o m).1
found_report-HasReport k r candidate m none q (s, e, v, w) = (
  s,
  ground (arith, eq_iff candidate.job_id k, get-set candidate.job_id (report candidate) k m),
  v,
  w,
)
found_report-HasReport k r candidate m (some (upload_job j)) q (s, e, v, w) = (s, e, v, w)
found_report-HasReport k r candidate m (some (report x)) q (s, e, v, w) = (s, ground arith, v, w)

created-HasReport :
    (k : String) (r candidate : CaptureInterruptionReport) (m : Map StoredRecord) (b : Bool)
    → HasReport k r m
    → HasReport k r
        ((throw_if (not b) report_invalid >> pure candidate >>= λ _.
            gets (get candidate.job_id) >>= found_report candidate)
          m).1
created-HasReport k r candidate m false h = h
created-HasReport k r candidate m true h =
    found_report-HasReport k r candidate m (get candidate.job_id m) refl h

create-HasReport :
    (k : String) (r candidate : CaptureInterruptionReport) (m : Map StoredRecord)
    → HasReport k r m
    → HasReport k r (get_or_create_report candidate m).1
unfolding get_or_create_report
create-HasReport k r candidate m h =
    created-HasReport k r candidate m (report_is_valid candidate.job_id candidate) h

replaced-HasReport :
    (k : String) (r : CaptureInterruptionReport) (job_id : String) (x u : CaptureInterruptionReport)
    (m : Map StoredRecord)
    → get job_id m ≡ some (report x)
    → report_is_valid job_id u ≡ true
    → same_report_identity x u ≡ true
    → HasReport k r m
    → (b : Bool) → (job_id == k) ≡ b
    → HasReport k r (set job_id (report u) m)
replaced-HasReport k r job_id x u m q valid same (s, e, v, w) true d =
    let f : job_id ≡ k = ground (arith, eq_iff job_id k) in
    let g : s ≡ x = ground (arith, ap (λ (j : String). get j m) f) in
    (
      u,
      ground (arith, get-set job_id (report u) k m),
      subst (λ (j : String). report_is_valid j u ≡ true) f valid,
      SameReport-trans (subst (SameReport r) g w) (same-SameReport x u same),
    )
replaced-HasReport k r job_id x u m q valid same (s, e, v, w) false d =
    (s, ground (arith, get-set job_id (report u) k m), v, w)

-- A check leaves the report there if what follows it does.
guarded-HasReport :
    {A : Type 0} (k : String) (r : CaptureInterruptionReport) (m : Map StoredRecord) (e : Thrown)
    (x : A) (go : A → JobAction CaptureInterruptionReport) (b : Bool)
    → HasReport k r m
    → (b ≡ true → HasReport k r (go x m).1)
    → HasReport k r ((throw_if (not b) e >> pure x >>= go) m).1
guarded-HasReport k r m e x go false h next = h
guarded-HasReport k r m e x go true h next = next refl

compared-HasReport :
    (k : String) (r : CaptureInterruptionReport) (job_id : String) (x u : CaptureInterruptionReport)
    (m : Map StoredRecord)
    → get job_id m ≡ some (report x)
    → report_is_valid job_id u ≡ true
    → HasReport k r m
    → (b : Bool) → same_report_identity x u ≡ b
    → HasReport k r
        ((throw_if (not b) (error "CAPTURE_INTERRUPTION_REPORT_IDENTITY_CHANGED")
            >> (modify (set job_id (report u)) >> pure u))
          m).1
compared-HasReport k r job_id x u m q valid h false e = h
compared-HasReport k r job_id x u m q valid h true e =
    replaced-HasReport k r job_id x u m q valid e h (job_id == k) refl

updated_report-HasReport :
    (k : String) (r : CaptureInterruptionReport) (job_id : String)
    (f : CaptureInterruptionReport → CaptureInterruptionReport) (m : Map StoredRecord)
    (o : Option StoredRecord)
    → get job_id m ≡ o
    → HasReport k r m
    → HasReport k r (updated_report job_id f o m).1
updated_report-HasReport k r job_id f m none q h = h
updated_report-HasReport k r job_id f m (some (upload_job j)) q h = h
updated_report-HasReport k r job_id f m (some (report x)) q h =
    let write : CaptureInterruptionReport → JobAction CaptureInterruptionReport =
      λ u. modify (set job_id (report u)) >> pure u in
    let compare : CaptureInterruptionReport
        → CaptureInterruptionReport
        → JobAction CaptureInterruptionReport =
      λ y u.
        throw_if (not (same_report_identity y u))
          (error "CAPTURE_INTERRUPTION_REPORT_IDENTITY_CHANGED")
        >> write u in
    guarded-HasReport k r m report_invalid x
      (λ y. assert_report job_id (report (f y)) >>= compare y) (report_is_valid job_id x) h
      (λ _.
        guarded-HasReport k r m report_invalid (f x) (compare x) (report_is_valid job_id (f x)) h
          (λ valid.
            compared-HasReport k r job_id x (f x) m q valid h (same_report_identity x (f x)) refl))

job_call-HasReport :
    (k : String) (r : CaptureInterruptionReport) (c : JobCall) (m : Map StoredRecord)
    → HasReport k r m
    → HasReport k r (job_call c m)
unfolding update_report update_upload_job
job_call-HasReport k r (puts_job job) m h = put-HasReport k r job m h
job_call-HasReport k r (updates_job job_id f) m h =
    updated_job-HasReport k r job_id f m (get job_id m) refl h
job_call-HasReport k r (creates_report c) m h = create-HasReport k r c m h
job_call-HasReport k r (updates_report job_id f) m h =
    updated_report-HasReport k r job_id f m (get job_id m) refl h

-- A valid report that is stored stays stored and valid, with its identity (all but its status, its
-- last error and its time of update) unchanged, whatever calls follow, also calls for upload jobs.
pub job_calls-HasReport :
    (k : String) (r : CaptureInterruptionReport) (cs : List JobCall) (m : Map StoredRecord)
    → HasReport k r m
    → HasReport k r (job_calls cs m)
unfolding job_calls
job_calls-HasReport k r [] m h = h
job_calls-HasReport k r (c ∷ cs) m h =
    job_calls-HasReport k r cs (job_call c m) (job_call-HasReport k r c m h)
