-- ===== src/Capture/Abandon.antt =====
-- `abandonEmpty` of apps/api/src/project-foundation/session-capture.service.ts: a capture without any
-- audio ends.
use elder_interview_ai.Prelude.{Bool, not, ◌&&◌, ◌||◌, String, [], ◌∷◌, some, any, is_some, ◌==◌}
use elder_interview_ai.Prelude.Map.{Map}
use elder_interview_ai.Prelude.Action.{◌>>=◌, ◌>>◌, pure, throw_if, gets, modify}
use elder_interview_ai.Capture.Tables.{
  InterviewSession, InterviewSessionStatus, SessionCaptureGeneration, abandoned_empty, AudioChunk,
  AudioObject, AudioObjectStatus, no_audio_captured, Json, text, number, Snapshot, State, conflict,
  no_row, update_where,
}
use elder_interview_ai.Capture.Common.{
  Call, transaction, Actor, Services, assert_role, find_finalization, lock_capture,
  assert_current_gate, replay, replay_or, conclude, set_session_status, set_capture,
}
use elder_interview_ai.Capture.Service.{
  AbandonEmptyCaptureRequest, abandon_action, other_generation, session_interrupted,
  capture_interrupted, note_interrupt,
}

abbrev pub abandon_metadata : AbandonEmptyCaptureRequest → Map Json
abandon_metadata input =
    ("audio_stream_id", text input.audio_stream_id)
    ∷ ("generation_no", number input.generation_no)
    ∷ ("local_archive_chunk_count", number input.local_archive_chunk_count)
    ∷ []

-- Some audio of the session has reached the server, or it is being finalized.
unfoldable pub evidence_exists : String → SessionCaptureGeneration → State → Bool
evidence_exists session_id capture s =
    any
      (λ (c : SessionCaptureGeneration).
        c.session_id == session_id && is_some c.first_pcm_accepted_at)
      s.captures
    || is_some (find_finalization session_id s)
    || any (λ (c : AudioChunk). c.audio_object_id == capture.audio_object_id) s.audio_chunks

unfoldable pub fail_audio_object : String → Call (Unit {0})
fail_audio_object id = do
  known ← gets (λ s. any (λ (o : AudioObject). o.id == id) s.audio_objects)
  throw_if (not known) no_row
  modify (λ s. record s {
    audio_objects =
        update_where (λ (o : AudioObject). o.id == id)
          (λ (o : AudioObject). record o { status = AudioObjectStatus.failed }) s.audio_objects;
  })

unfoldable pub abandon_fresh :
    Services
    → Actor
    → String
    → AbandonEmptyCaptureRequest
    → SessionCaptureGeneration
    → InterviewSession
    → Call Snapshot
abandon_fresh v actor session_id input capture session = do
  assert_current_gate v actor session
  throw_if
      (not (session_interrupted session.status)
        || not (capture_interrupted capture.status)
        || other_generation capture input.generation_no input.audio_stream_id)
      (conflict "CAPTURE_NOT_ABANDONABLE")
  evidence ← gets (evidence_exists session_id capture)
  throw_if evidence (conflict "CAPTURE_EVIDENCE_EXISTS")
  set_capture capture.id (λ c. record c { status = abandoned_empty; stopped_at = some v.now })
  fail_audio_object capture.audio_object_id
  set_session_status session_id (λ x. record x {
    capture_failure_code = some no_audio_captured;
    status = InterviewSessionStatus.failed;
  })
  conclude abandon_action input.request_id actor session_id (abandon_metadata input)

unfoldable pub abandon_empty :
    Services → Actor → String → AbandonEmptyCaptureRequest → Call Snapshot
abandon_empty v actor session_id input = do
  assert_role actor
  snapshot ← transaction (do
    locked ← lock_capture session_id
    earlier ← replay input.request_id abandon_action actor session_id
    replay_or (abandon_metadata input) earlier
        (abandon_fresh v actor session_id input locked.0 locked.1))
  note_interrupt session_id input.audio_stream_id
  pure snapshot
