-- ===== src/Audio/JobStore.antt =====
-- `InMemoryAudioUploadJobStore` of apps/web/src/audio/audio-upload-job.ts: upload jobs and reports
-- in one map. A clone is the same value here.
use elder_interview_ai.Prelude.{String, Option, none, some, not}
use elder_interview_ai.Prelude.Map.{Map, get, set}
use elder_interview_ai.Prelude.Action.{
  Action, ◌>>=◌, ◌>>◌, pure, throw, throw_if, require, gets, modify,
}
use elder_interview_ai.Audio.Types.{Thrown, error}
use elder_interview_ai.Audio.Job.{
  AudioUploadJob, CaptureInterruptionReport, StoredRecord, upload_job, report, job_is_valid,
  report_is_valid, same_report_target, same_report_identity,
}

abbrev pub JobAction : Type 0 → Type 0
JobAction A = Action (Map StoredRecord) Thrown A

abbrev pub job_type_mismatch : Thrown
job_type_mismatch = error "UPLOAD_JOB_RECORD_TYPE_MISMATCH"

abbrev pub job_invalid : Thrown
job_invalid = error "UPLOAD_JOB_RECORD_INVALID"

abbrev pub report_invalid : Thrown
report_invalid = error "CAPTURE_INTERRUPTION_REPORT_RECORD_INVALID"

abbrev pub assert_upload_job : String → StoredRecord → JobAction AudioUploadJob
assert_upload_job expected (report r) = throw job_type_mismatch
assert_upload_job expected (upload_job j) = do
  throw_if (not (job_is_valid expected j)) job_invalid
  pure j

abbrev pub assert_report : String → StoredRecord → JobAction CaptureInterruptionReport
assert_report expected (upload_job j) = throw report_invalid
assert_report expected (report r) = do
  throw_if (not (report_is_valid expected r)) report_invalid
  pure r

-- Keep what is there, checked, or do the other thing.
abbrev found_or : {A B : Type 0} → Option A → (A → JobAction B) → JobAction B → JobAction B
found_or none f other = other
found_or (some a) f other = f a

-- `getUploadJob`, by what is stored.
abbrev pub found_job : String → Option StoredRecord → JobAction (Option AudioUploadJob)
found_job job_id stored =
    found_or stored (λ v. do job ← assert_upload_job job_id v; pure (some job)) (pure none)

unfoldable pub get_upload_job : String → JobAction (Option AudioUploadJob)
get_upload_job job_id = do stored ← gets (get job_id); found_job job_id stored

unfoldable pub get_report : String → JobAction (Option CaptureInterruptionReport)
get_report job_id = do
  stored ← gets (get job_id)
  found_or stored (λ v. do r ← assert_report job_id v; pure (some r)) (pure none)

-- `getOrCreateCaptureInterruptionReport` after its check, by what is stored.
abbrev pub found_report :
    CaptureInterruptionReport → Option StoredRecord → JobAction CaptureInterruptionReport
found_report candidate stored =
    found_or stored
      (λ v. do
        existing ← assert_report candidate.job_id v
        throw_if (not (same_report_target existing candidate))
            (error "CAPTURE_INTERRUPTION_REPORT_IDENTITY_CONFLICT")
        pure existing)
      (do modify (set candidate.job_id (report candidate)); pure candidate)

unfoldable pub get_or_create_report :
    CaptureInterruptionReport → JobAction CaptureInterruptionReport
get_or_create_report candidate = do
  assert_report candidate.job_id (report candidate)
  stored ← gets (get candidate.job_id)
  found_report candidate stored

-- `updateCaptureInterruptionReport`, by what is stored.
abbrev pub updated_report :
    String
    → (CaptureInterruptionReport → CaptureInterruptionReport)
    → Option StoredRecord
    → JobAction CaptureInterruptionReport
updated_report job_id update stored = do
  v ← require stored (error "CAPTURE_INTERRUPTION_REPORT_NOT_FOUND")
  existing ← assert_report job_id v
  updated ← assert_report job_id (report (update existing))
  throw_if (not (same_report_identity existing updated))
      (error "CAPTURE_INTERRUPTION_REPORT_IDENTITY_CHANGED")
  modify (set job_id (report updated))
  pure updated

unfoldable pub update_report :
    String
    → (CaptureInterruptionReport → CaptureInterruptionReport)
    → JobAction CaptureInterruptionReport
update_report job_id update = do stored ← gets (get job_id); updated_report job_id update stored

unfoldable pub put_upload_job : AudioUploadJob → JobAction (Unit {0})
put_upload_job job = do
  assert_upload_job job.job_id (upload_job job)
  modify (set job.job_id (upload_job job))

-- `updateUploadJob`, by what is stored.
abbrev pub updated_job :
    String → (AudioUploadJob → AudioUploadJob) → Option StoredRecord → JobAction AudioUploadJob
updated_job job_id update stored = do
  v ← require stored (error "UPLOAD_JOB_NOT_FOUND")
  current ← assert_upload_job job_id v
  updated ← assert_upload_job job_id (upload_job (update current))
  modify (set job_id (upload_job updated))
  pure updated

unfoldable pub update_upload_job :
    String → (AudioUploadJob → AudioUploadJob) → JobAction AudioUploadJob
update_upload_job job_id update = do stored ← gets (get job_id); updated_job job_id update stored
