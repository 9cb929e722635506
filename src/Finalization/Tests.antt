-- ===== src/Finalization/Tests.antt =====
-- Runs of session finalization on concrete steps, and the theorems at concrete inputs.
use elder_interview_ai.Prelude.{
  ℕ, ◌≡◌, ◌<◌, length, refl, true, false, String, List, [], ◌∷◌, none, some, arith, map,
}
use elder_interview_ai.Prelude.Int.{pos}
use elder_interview_ai.Prelude.Rows.{find, update_where}
use elder_interview_ai.Capture.Tables.{InterviewSessionStatus}
use elder_interview_ai.AudioServer.Tables as AudioTables
use elder_interview_ai.AudioServer.Tables.{AudioObject, AudioChunk, Commitment}
use elder_interview_ai.Finalization.Tables.{
  Actor, StopSessionRequest, InterviewSession, State, Services,
}
use elder_interview_ai.Prelude.Sort.{insert_by, sort_by}
use elder_interview_ai.Finalization.Access.{
  finalization_at, assert_role, validate_commitments, are_commitments, is_digest, find_session,
  find_record, find_finalization, current_gate, has_ordinary_access, newest_consent, find_object,
  all_committed, chunks_of, complete_manifest_matches, newest_capture, read_snapshot,
  uploaded_count, write_stop_idempotency,
}
use elder_interview_ai.Finalization.Freeze.{
  freeze, freeze_session, freeze_fresh, all_agree, create_finalization, freeze_object, last,
}
use elder_interview_ai.Finalization.Advance.{
  drain_result, prepare, begin_processing, complete_terminal, set_finalization, settle,
}
use elder_interview_ai.Finalization.Frozen.{AreFrozen}
use elder_interview_ai.Finalization.Stopped.{IsStopped, IsTimed, freeze-IsStopped}
use elder_interview_ai.Finalization.Freeze.{Outcome, answered, new_finalization}
use elder_interview_ai.Prelude.Action.{ok}
use elder_interview_ai.Finalization.Ends.{
  Server, Step, stops, looks, drains, Moment, run, IsSound, run-IsSound, run-AreFrozen,
}

abbrev sum : String
sum = "0123456789abcdef0123456789abcdef0123456789abcdef0123456789abcdef"

abbrev services : Services
services = record {
  now = 0;
  fresh_id = "";
  digest = λ chunks. "whole";
  is_later_id = λ a b. false;
  runtime = λ id. none;
}

abbrev commitment : Commitment
commitment = record {
  sequence_no = 0;
  start_ms = 0;
  end_ms = 1500;
  size_bytes = 3;
  checksum = sum;
  mime_type = "audio/webm";
}

abbrev object : AudioObject
object = record {
  id = "o";
  project_id = "p";
  session_id = some "s";
  purpose = AudioTables.interview;
  status = AudioTables.complete;
  mime_type = "audio/webm";
  chunk_count = some 1;
  total_size_bytes = some 3;
  manifest_checksum = some "whole";
  created_by = "u";
  created_at = 1;
  completed_at = some 9;
}

abbrev chunk : AudioChunk
chunk = record {
  id = "c";
  audio_object_id = "o";
  sequence_no = 0;
  object_key = "k";
  start_ms = 0;
  end_ms = 1500;
  size_bytes = 3;
  checksum = sum;
  mime_type = "audio/webm";
  is_uploaded = true;
  uploaded_at = some 8;
}

abbrev session : InterviewSession
session = record {
  id = "s";
  project_id = "p";
  status = InterviewSessionStatus.recording;
  started_at = some 1000;
  ended_at = none;
  duration_seconds = none;
}

abbrev state : State
state = record {
  sessions = session ∷ [];
  captures = [];
  finalizations = [];
  audio_objects = object ∷ [];
  audio_chunks = chunk ∷ [];
  projects = record { id = "p"; is_closed = false } ∷ [];
  assignments = record { project_id = "p"; user_id = "u"; is_revoked = false } ∷ [];
  consent_records =
      record { id = "c"; project_id = "p"; is_valid = true; is_revoked = false; created_at = 1 }
      ∷ [];
  audit_logs = [];
  idempotency_records = [];
  interrupts = [];
}

abbrev server : Server
server = record { state = state; draining = [] }

abbrev moment : ℕ → Moment
moment now = record { now = now; fresh_id = "f"; runtime = λ id. some (pos 3) }

-- The stop, the look at its finalization, and the end of its draining.
abbrev steps : List (Moment × Step)
steps =
    (
      moment 10,
      stops (record { id = "u"; is_interviewer = true; is_active = true }) "s"
          (record {
            request_id = "r";
            audio_object_id = "o";
            expected_chunk_count = 1;
            chunks = commitment ∷ [];
          })
          false,
    )
    ∷ (moment 11, looks "f")
    ∷ (moment 12, drains 0 (drain_result (pos 3) (pos 3) true true))
    ∷ []

server-IsSound : IsSound services server
unfolding find
server-IsSound = record { honest = λ x y found c. absurd (ground (arith, found, c)); draining = tt }

run-IsSound_example : IsSound services (run services steps server)
run-IsSound_example = run-IsSound services steps server server-IsSound

run-AreFrozen_example : AreFrozen state (run services steps server).state
run-AreFrozen_example = run-AreFrozen services steps server server-IsSound

-- The session ends completed.
ends :
    map (λ (x : InterviewSession). x.status) (run services steps server).state.sessions
    ≡ InterviewSessionStatus.completed ∷ []
unfolding run find update_where insert_by sort_by finalization_at assert_role validate_commitments
    are_commitments is_digest find_session find_record find_finalization current_gate
    has_ordinary_access newest_consent find_object all_committed chunks_of complete_manifest_matches
    newest_capture read_snapshot uploaded_count write_stop_idempotency prepare begin_processing
    complete_terminal set_finalization settle freeze freeze_session freeze_fresh all_agree
    create_finalization freeze_object last
ends = refl

abbrev actor : Actor
actor = record { id = "u"; is_interviewer = true; is_active = true }

abbrev request : StopSessionRequest
request = record {
  request_id = "r";
  audio_object_id = "o";
  expected_chunk_count = 1;
  chunks = commitment ∷ [];
}

abbrev stopped_session : InterviewSession
stopped_session = record session {
  status = InterviewSessionStatus.stopping;
  ended_at = some 2500;
  duration_seconds = some 2;
}

abbrev outcome : Outcome
outcome = answered (some "") (record {
  session = stopped_session;
  finalization = some (new_finalization services actor "s" request 2500);
  uploaded_chunk_count = 1;
  capture = none;
  capture_uploaded_chunk_count = 0;
})

after : State
after = (freeze services actor "s" request false state).1

freezes : freeze services actor "s" request false state ≡ (ok outcome, after)
unfolding after find update_where insert_by sort_by finalization_at assert_role validate_commitments
    are_commitments is_digest find_session find_record find_finalization current_gate
    has_ordinary_access newest_consent find_object all_committed chunks_of complete_manifest_matches
    newest_capture read_snapshot uploaded_count write_stop_idempotency prepare begin_processing
    complete_terminal set_finalization settle freeze freeze_session freeze_fresh all_agree
    create_finalization freeze_object last
freezes = refl

freeze-IsStopped_example :
    (length request.chunks ≡ request.expected_chunk_count)
    × (0 < request.expected_chunk_count)
    × IsTimed 0 0 request.chunks
    × IsStopped services actor "s" request after
unfolding find find_record find_finalization
freeze-IsStopped_example =
    freeze-IsStopped services actor request false "s" state after outcome refl refl refl freezes
