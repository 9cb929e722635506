-- ===== src/AudioServer/Tests.antt =====
-- Runs of the server's audio service on concrete requests, and the theorems at concrete inputs.
use elder_interview_ai.Prelude.{
  ℕ, ◌≡◌, refl, true, false, String, List, [], ◌∷◌, none, some, arith, eq_iff,
}
use elder_interview_ai.Prelude.Text.{decimal}
use elder_interview_ai.Prelude.Rows.{find, update_where}
use elder_interview_ai.Prelude.Map.{get, set}
use elder_interview_ai.Prelude.Action.{ok}
use elder_interview_ai.AudioServer.Tables.{
  consent, initiated, complete, AudioObject, AudioChunk, chunk_response, manifest_response, State,
  Actor, AudioChunkInput, kept, lost, Platform,
}
use elder_interview_ai.AudioServer.Storage.{is_object_key, inspect, put_immutable}
use elder_interview_ai.AudioServer.Access.{
  assert_role, find_object, find_object_for_write, find_record, find_replay, find_chunk,
  find_finalization, find_session, is_assigned, assert_active_assignment, assert_upload_authority,
  assert_complete_authority, assert_writable, set_object, write_idempotency,
}
use elder_interview_ai.AudioServer.Service.{
  upload_chunk, upload_fresh, admit_upload, keep_bytes, answer_upload, map_audio_chunk, chunks_of,
  map_audio_manifest,
}
use elder_interview_ai.AudioServer.Complete.{
  complete_object, complete_fresh, admit_completion, checked_chunks, check_manifest, store_manifest,
  verify_files, verify_file, assert_continuous, is_continuous_from, agrees_with, total_size,
}
use elder_interview_ai.Prelude.Sort.{sort_by, insert_by}
use elder_interview_ai.AudioServer.Completed.{IsWhole, complete_object-IsWhole}
use elder_interview_ai.AudioServer.Uploaded.{IsStored, upload_chunk-IsStored}
use elder_interview_ai.AudioServer.Preserved.{Preserved}
use elder_interview_ai.AudioServer.Runs.{
  upload, finish, AudioCall, request, manifest, serve, run, run-Preserved,
}
use elder_interview_ai.AudioServer.Again.{serve-again}
use elder_interview_ai.AudioServer.Protocol.{
  map_chunk, map_manifest, upload_chunk-accepted, complete_object-accepted,
}
use elder_interview_ai.Audio.Types.{BufferedAudioChunk, pending}
use elder_interview_ai.Audio.Job
use elder_interview_ai.Audio.Job.{AudioUploadJob}
use elder_interview_ai.Audio.Upload.{chunk_ack_matches, complete_ack_matches}

abbrev object_id : String
object_id = "01234567-89ab-cdef-0123-456789abcdef"

abbrev actor : Actor
actor = record { id = "u"; is_interviewer = true; is_active = true }

-- Every digest is the same text; a file can be written and read.
abbrev platform : Platform
platform = record {
  now = 5;
  fresh_id = "n";
  sha256 = λ bytes. "sum";
  manifest = λ entries. "whole";
  read_fails = λ key. false;
  written = λ key. kept;
}

abbrev object : AudioObject
object = record {
  id = object_id;
  project_id = "p";
  session_id = none;
  purpose = consent;
  status = initiated;
  mime_type = "audio/webm";
  chunk_count = none;
  total_size_bytes = none;
  manifest_checksum = none;
  created_by = "u";
  created_at = 1;
  completed_at = none;
}

abbrev before : State
before = record {
  database = record {
    audio_objects = object ∷ [];
    audio_chunks = [];
    finalizations = [];
    projects = record { id = "p"; is_deleted = false } ∷ [];
    assignments = record { project_id = "p"; user_id = "u"; is_revoked = false } ∷ [];
    sessions = [];
    audit_logs = [];
    idempotency_records = [];
  };
  files = [];
}

abbrev input : AudioChunkInput
input = record {
  checksum = "sum";
  end_ms = 9;
  mime_type = "audio/webm";
  request_id = "r";
  sequence_no = 0;
  start_ms = 0;
}

abbrev bytes : List ℕ
bytes = 7 ∷ 8 ∷ 9 ∷ []

key_is_valid : is_object_key "01234567-89ab-cdef-0123-456789abcdef/0.bin" ≡ true
unfolding is_object_key
key_is_valid = refl

abbrev chunk : AudioChunk
chunk = record {
  id = "n";
  audio_object_id = object_id;
  sequence_no = 0;
  object_key = "01234567-89ab-cdef-0123-456789abcdef/0.bin";
  start_ms = 0;
  end_ms = 9;
  size_bytes = 3;
  checksum = "sum";
  mime_type = "audio/webm";
  is_uploaded = true;
  uploaded_at = some 5;
}

after : State
after = (upload_chunk platform actor object_id input bytes before).1

uploads :
    upload_chunk platform actor object_id input bytes before ≡ (ok (chunk_response chunk), after)
unfolding after upload_chunk upload_fresh admit_upload keep_bytes answer_upload map_audio_chunk
    find_object_for_write assert_role find_object find_record find_replay find_chunk
    find_finalization find_session assert_upload_authority assert_active_assignment is_assigned
    assert_writable set_object write_idempotency find update_where put_immutable inspect
    is_object_key decimal get
uploads = refl

upload_chunk-IsStored_example : IsStored platform object_id input bytes (chunk_response chunk) after
unfolding find_record find
upload_chunk-IsStored_example =
    upload_chunk-IsStored platform actor object_id input bytes before after (chunk_response chunk)
      refl refl uploads

whole : AudioObject
whole = record object {
  chunk_count = some 1;
  completed_at = some 5;
  manifest_checksum = some "whole";
  status = complete;
  total_size_bytes = some 3;
}

end : State
end = (complete_object platform actor object_id 1 "r2" after).1

completes :
    complete_object platform actor object_id 1 "r2" after
    ≡ (ok (manifest_response whole (chunk ∷ [])), end)
unfolding end whole after upload_chunk upload_fresh admit_upload keep_bytes answer_upload
    map_audio_chunk find_object_for_write assert_role find_object find_record find_replay find_chunk
    find_finalization find_session assert_upload_authority assert_active_assignment is_assigned
    assert_writable set_object write_idempotency find update_where put_immutable inspect
    is_object_key decimal get complete_object complete_fresh admit_completion
    assert_complete_authority checked_chunks check_manifest store_manifest verify_files verify_file
    assert_continuous is_continuous_from agrees_with total_size chunks_of sort_by map_audio_manifest
    insert_by set
completes = refl

no_record : find_record "r2" after.database ≡ none
unfolding after upload_chunk upload_fresh admit_upload keep_bytes answer_upload map_audio_chunk
    find_object_for_write assert_role find_object find_record find_replay find_chunk
    find_finalization find_session assert_upload_authority assert_active_assignment is_assigned
    assert_writable set_object write_idempotency find update_where put_immutable inspect
    is_object_key decimal get
no_record = refl

complete_object-IsWhole_example :
    IsWhole platform object_id 1 (manifest_response whole (chunk ∷ [])) end
complete_object-IsWhole_example =
    complete_object-IsWhole platform actor object_id 1 "r2" after end
      (manifest_response whole (chunk ∷ [])) refl no_record completes

abbrev broken : Platform
broken = record platform { now = 9; written = λ key. lost }

abbrev calls : List (Platform × AudioCall)
calls =
    (platform, request (finish actor object_id 1 "r2"))
    ∷ (platform, manifest actor object_id)
    ∷ (broken, request (upload actor object_id (record input { request_id = "r3" }) bytes))
    ∷ []

run-Preserved_example : Preserved after (run calls after)
run-Preserved_example = run-Preserved calls after

serve-again_example :
    serve broken (upload actor object_id input bytes) (run calls after)
    ≡ (ok (chunk_response chunk), run calls after)
serve-again_example =
    serve-again platform broken (upload actor object_id input bytes) calls before after
      (chunk_response chunk) refl uploads

-- The same bytes as the client buffers them.
abbrev buffered : BufferedAudioChunk
buffered = record {
  chunk = record {
    blob = bytes;
    byte_length = 3;
    checksum_sha256 = "sum";
    created_at = "0";
    ended_at_ms = 9;
    key = "s:0";
    mime_type = "audio/webm";
    sequence_no = 0;
    session_id = "s";
    started_at_ms = 0;
  };
  delivery = record { last_error = none; retry_count = 0; status = pending };
}

upload_chunk-accepted_example :
    (c : AudioChunk) × (chunk_response chunk ≡ chunk_response c)
    × (chunk_ack_matches object_id buffered (map_chunk c) ≡ true)
unfolding find_record find
upload_chunk-accepted_example =
    upload_chunk-accepted platform actor object_id buffered "r" before after (chunk_response chunk)
      refl refl refl uploads

abbrev job : AudioUploadJob
job = record {
  audio_object_id = some object_id;
  buffer_session_id = "s";
  chunk_request_ids = ("0", "r") ∷ [];
  complete_request_id = some "r2";
  create_request_id = some "r0";
  expected_chunk_count = some 1;
  interview_capture = none;
  job_id = "j";
  last_error = none;
  mime_type = "audio/webm";
  project_id = "p";
  purpose = Job.consent;
  server_session_id = none;
  status = Job.uploading;
}

complete_object-accepted_example :
    (o : AudioObject) × (cs : List AudioChunk) × (manifest_response whole (chunk ∷ [])
      ≡ manifest_response o cs)
    × (complete_ack_matches job (map_manifest o) ≡ true)
complete_object-accepted_example =
    complete_object-accepted platform actor object_id 1 "r2" job after end
      (manifest_response whole (chunk ∷ [])) refl no_record
      (λ entries e. ground (arith, (eq_iff "whole" "").1 e)) refl refl completes
