-- ===== src/Audio/Tests.antt =====
-- The audio theorems at concrete inputs.
use elder_interview_ai.Prelude.{ℕ, ◌≡◌, refl, ◌⊎◌, true, List, [], ◌∷◌, none, some, arith}
use elder_interview_ai.Audio.Types.{Thrown}
use elder_interview_ai.Prelude.{length}
use elder_interview_ai.Prelude.Action.{Result}
use elder_interview_ai.Prelude.Sort.{IsSorted}
use elder_interview_ai.Audio.JobStore.{update_upload_job}
use elder_interview_ai.Audio.Pump.{PumpState, attempt, give_up, deliver_chunk, deliver_all, run}
use elder_interview_ai.Audio.Deliveries.{Delivered, run-Delivered}
use elder_interview_ai.Audio.Job.{upload_job}
use elder_interview_ai.Audio.RequestIds.{Keeps, IsNamed, upload_chunks-Keeps}
use elder_interview_ai.Prelude.{All}
use elder_interview_ai.Audio.Job.{uploading}
use elder_interview_ai.Prelude.Int.{pos}
use elder_interview_ai.Prelude.Map.{Map, get, set, delete, has, values}
use elder_interview_ai.Prelude.Action.{ok}
use elder_interview_ai.Prelude.Text.{decimal, is_blank, is_space}
use elder_interview_ai.Audio.Types.{audio_chunk_key, BufferedAudioChunk, NewAudioChunk}
use elder_interview_ai.Audio.Store.{
  list, with_deliveries, get_next_sequence_no, mark_uploading, update_delivery, get_buffered,
  insert_record, acknowledge, can_acknowledge, Store, empty, persist_immutable, session_chunks,
  total_bytes,
}
use elder_interview_ai.Audio.Queue.{
  Options, enqueue, new_record, validate_new_chunk, require_session_id, restore, queue_acknowledge,
  queue_next_sequence_no,
}
use elder_interview_ai.Audio.Job.{
  AudioUploadJob, consent, complete, job_is_valid, report_key, CaptureInterruptionReport,
  ReportStatus, StoredRecord, report, report_is_valid,
}
use elder_interview_ai.Audio.Client.{Platform, Client, body}
use elder_interview_ai.Audio.Upload.{
  CreateAudioUploadJobInput, create, freeze, resume, job_is_complete, validate_create, required_job,
  ensure_audio_object, object_ack_matches, upload_chunks, upload_chunk, send_chunk,
  chunk_ack_matches, complete_job, ask_manifest, confirm_job, complete_ack_matches, deliver,
}
use elder_interview_ai.Audio.JobStore.{get_upload_job, put_upload_job}
use elder_interview_ai.Prelude.Sort.{sort_by, insert_by}
use elder_interview_ai.Audio.StoreRun.{
  StoreCall, acknowledges, marks_failed, marks_uploading, persists, calls,
}
use elder_interview_ai.Audio.Archive.{
  calls-archive, IsBounded, calls-IsBounded, IsAhead, calls-IsAhead,
}
use elder_interview_ai.Audio.Delivery.{
  IsAckOf, call-IsAckOf, enqueue-archived, input_is_valid, ArchiveEntry,
}
use elder_interview_ai.Audio.Completion.{IsConfirmed, resume-IsConfirmed}
use elder_interview_ai.Audio.Reports.{
  updates_report, puts_job, job_calls, HasReport, job_calls-HasReport,
}

abbrev options : Options
options = record { checksum = λ _. "sum"; maximum_buffered_bytes = 10; now = "t0" }

abbrev input : ℕ → NewAudioChunk
input n = record {
  blob = 1 ∷ 2 ∷ 3 ∷ [];
  ended_at_ms = pos 100;
  mime_type = "audio/webm";
  sequence_no = pos n;
  session_id = "s";
  started_at_ms = pos 0;
}

abbrev chunk : ℕ → BufferedAudioChunk
chunk n = new_record options (input n)

abbrev stored : Store
stored = calls 10 (persists (chunk 0) ∷ []) empty

abbrev later_calls : List StoreCall
later_calls =
    marks_uploading "s" 0
    ∷ marks_failed "s" 0 "E"
    ∷ acknowledges "s" 0 "sum"
    ∷ persists (chunk 1)
    ∷ []

calls-archive_example : get "s:0" (calls 10 later_calls stored).archives ≡ some (chunk 0).chunk
unfolding new_record calls persist_immutable insert_record get set audio_chunk_key decimal
    total_bytes session_chunks values
calls-archive_example = calls-archive 10 later_calls stored "s:0" (chunk 0).chunk refl

calls-IsBounded_example : IsBounded 10 (calls 10 later_calls empty)
unfolding session_chunks total_bytes values
calls-IsBounded_example = calls-IsBounded 10 later_calls empty (λ session_id. omega arith)

calls-IsAhead_example : IsAhead (calls 10 later_calls empty)
unfolding values
calls-IsAhead_example = calls-IsAhead 10 later_calls empty tt

call-IsAckOf_example : IsAckOf "s:0" stored (acknowledges "s" 0 "sum")
unfolding new_record calls persist_immutable insert_record get set delete audio_chunk_key decimal
    total_bytes session_chunks values acknowledge can_acknowledge has
call-IsAckOf_example =
    call-IsAckOf 10 (acknowledges "s" 0 "sum") stored "s:0" (chunk 0).delivery refl refl

enqueue-archived_example :
    (input_is_valid (input 0) ≡ true) × ArchiveEntry options (input 0) (chunk 0).chunk stored
unfolding enqueue validate_new_chunk require_session_id new_record calls persist_immutable
    insert_record get set audio_chunk_key decimal total_bytes session_chunks values is_blank
    is_space
enqueue-archived_example = enqueue-archived options (input 0) empty stored (chunk 0) refl

abbrev platform : Platform
platform = record {
  created = λ _. body (record {
    id = "o";
    project_id = "p";
    purpose = "consent";
    session_id = none;
    mime_type = "audio/webm";
    status = "initiated";
  });
  chunk_stored = λ _. body (record {
    audio_object_id = "o";
    sequence_no = 0;
    start_ms = 0;
    end_ms = 100;
    size_bytes = 3;
    checksum = "sum";
    mime_type = "audio/webm";
    upload_status = "uploaded";
  });
  completed = λ _.
      body
        (record { id = "o"; status = "complete"; chunk_count = 1; manifest_checksum = some "m" });
  request_id = λ n. "r";
}

abbrev new_client : Client
new_client = record { store = stored; jobs = []; sent = []; drawn = 0; variable = none }

abbrev job_input : CreateAudioUploadJobInput
job_input = record {
  buffer_session_id = "s";
  job_id = "j";
  mime_type = "audio/webm";
  project_id = "p";
  purpose = consent;
  server_session_id = none;
}

abbrev frozen_client : Client
unfolding create freeze
frozen_client = (freeze platform "j" (create platform job_input new_client).1).1

abbrev end_client : Client
unfolding resume
end_client = (resume platform "j" "csrf" frozen_client).1

-- The job that was created, frozen and uploaded.
abbrev end_job : AudioUploadJob
end_job = record {
  audio_object_id = some "o";
  buffer_session_id = "s";
  chunk_request_ids = ("0", "r") ∷ [];
  complete_request_id = some "r";
  create_request_id = some "r";
  expected_chunk_count = some 1;
  interview_capture = none;
  job_id = "j";
  last_error = none;
  mime_type = "audio/webm";
  project_id = "p";
  purpose = consent;
  server_session_id = none;
  status = complete;
}

resume-IsConfirmed_example : (end_client ≡ frozen_client) ⊎ IsConfirmed platform end_job end_client
unfolding resume create freeze job_is_complete new_record calls persist_immutable insert_record get
    set delete has audio_chunk_key decimal total_bytes session_chunks values is_blank
    validate_create get_upload_job put_upload_job job_is_valid required_job ensure_audio_object
    object_ack_matches upload_chunks upload_chunk send_chunk chunk_ack_matches complete_job
    ask_manifest confirm_job complete_ack_matches deliver restore require_session_id list
    with_deliveries sort_by insert_by queue_acknowledge queue_next_sequence_no get_next_sequence_no
    acknowledge can_acknowledge mark_uploading update_delivery get_buffered is_space
resume-IsConfirmed_example =
    resume-IsConfirmed platform "j" "csrf" frozen_client end_client end_job refl refl

abbrev first_report : CaptureInterruptionReport
first_report = record {
  audio_object_id = "o";
  audio_stream_id = "a";
  created_at = "t0";
  generation_no = 1;
  job_id = "capture-interruption-report:v1:s:1:a";
  last_error = none;
  project_id = "p";
  request_id = "r";
  session_id = "s";
  status = ReportStatus.pending;
  updated_at = "t0";
}

abbrev reports : Map StoredRecord
reports = (first_report.job_id, report first_report) ∷ []

abbrev acknowledge_report : CaptureInterruptionReport → CaptureInterruptionReport
acknowledge_report r = record r { status = ReportStatus.acknowledged; updated_at = "t1" }

job_calls-HasReport_example : HasReport first_report.job_id first_report (
    job_calls
      (updates_report first_report.job_id acknowledge_report ∷ puts_job end_job ∷ [])
      reports)
unfolding get report_is_valid report_key is_blank is_space decimal
job_calls-HasReport_example =
    job_calls-HasReport first_report.job_id first_report
      (updates_report first_report.job_id acknowledge_report ∷ puts_job end_job ∷ []) reports
      (
        first_report,
        refl,
        refl,
        record {
          job_id = refl;
          project_id = refl;
          session_id = refl;
          audio_object_id = refl;
          audio_stream_id = refl;
          generation_no = refl;
          request_id = refl;
          created_at = refl;
        },
      )

abbrev pump_state : PumpState
pump_state = record { store = stored; jobs = frozen_client.jobs; attempts = []; drawn = 0 }

abbrev pumped : Result Thrown ℕ × PumpState
unfolding run
pumped = run (λ n. "r") (λ attempts. ok true) "j" pump_state

run-Delivered_example :
    (job : AudioUploadJob) × (get "j" pump_state.jobs ≡ some (upload_job job))
    × (1 ≡ length (list job.buffer_session_id pump_state.store))
    × IsSorted
        (λ (r : BufferedAudioChunk). r.chunk.sequence_no)
        (list job.buffer_session_id pump_state.store)
    × Delivered
        (λ n. "r")
        (λ attempts. ok true)
        (list job.buffer_session_id pump_state.store)
        []
        pumped.1.attempts
unfolding run deliver_all deliver_chunk attempt give_up update_upload_job create freeze new_record
    calls persist_immutable insert_record get set delete has audio_chunk_key decimal total_bytes
    session_chunks values is_blank validate_create get_upload_job put_upload_job job_is_valid
    required_job restore require_session_id list with_deliveries sort_by insert_by queue_acknowledge
    queue_next_sequence_no get_next_sequence_no acknowledge can_acknowledge mark_uploading
    update_delivery get_buffered is_space
run-Delivered_example =
    run-Delivered (λ n. "r") (λ attempts. ok true) "j" pump_state pumped.1 1 refl

-- A job with an audio object and the identifier of another chunk.
abbrev started_job : AudioUploadJob
started_job = record end_job { chunk_request_ids = ("7", "q") ∷ []; status = uploading }

abbrev sent_job : AudioUploadJob
sent_job = record started_job { chunk_request_ids = ("7", "q") ∷ ("0", "r") ∷ [] }

abbrev sent : Result Thrown AudioUploadJob × Client
unfolding upload_chunks
sent = upload_chunks platform started_job (chunk 0 ∷ []) "csrf" frozen_client

upload_chunks-Keeps_example : Keeps started_job sent_job × All (IsNamed sent_job) (chunk 0 ∷ [])
unfolding create freeze new_record calls persist_immutable insert_record get set delete has
    audio_chunk_key decimal total_bytes session_chunks values is_blank validate_create
    get_upload_job put_upload_job job_is_valid required_job upload_chunks upload_chunk send_chunk
    chunk_ack_matches require_session_id queue_acknowledge queue_next_sequence_no
    get_next_sequence_no acknowledge can_acknowledge mark_uploading update_delivery get_buffered
    is_space
upload_chunks-Keeps_example =
    upload_chunks-Keeps platform (chunk 0 ∷ []) started_job sent_job "csrf" frozen_client sent.1
      refl
