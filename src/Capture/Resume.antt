-- ===== src/Capture/Resume.antt =====
-- `resume` of apps/api/src/project-foundation/session-capture.service.ts: a new generation of the
-- capture, behind the audio that there is.
use elder_interview_ai.Prelude.{
  ℕ, ◌+◌, max, Bool, not, ◌&&◌, ◌||◌, String, List, [], ◌∷◌, ◌++◌, none, eqb, ltb, any, length,
  is_some, ◌==◌,
}
use elder_interview_ai.Prelude.Map.{Map}
use elder_interview_ai.Prelude.Action.{◌>>=◌, ◌>>◌, throw_if, require, gets, modify}
use elder_interview_ai.Capture.Tables.{
  InterviewSession, SessionCaptureGeneration, preparing, reconnecting, AudioChunk, Json, text,
  number, Snapshot, conflict, not_found, no_row, repeated,
}
use elder_interview_ai.Capture.Common.{
  Call, transaction, Actor, Services, assert_role, find_session, current_capture, find_finalization,
  uploaded_chunks, assert_current_gate, replay, replay_or, conclude, set_session_status,
}
use elder_interview_ai.Capture.Service.{
  ResumeCaptureRequest, resume_action, session_interrupted, capture_interrupted,
}

-- `uploaded.reduce((highest, chunk) => Math.max(highest, chunk.endMs), 0)`
unfoldable pub high_water : ℕ → List AudioChunk → ℕ
high_water highest [] = highest
high_water highest (c ∷ cs) = high_water (max highest c.end_ms) cs

abbrev pub archive_conflicts :
    ResumeCaptureRequest → SessionCaptureGeneration → List AudioChunk → Bool
archive_conflicts input capture uploaded =
    ltb input.local_archive_chunk_count (length uploaded)
    || ltb input.local_archive_timeline_high_water_ms (high_water 0 uploaded)
    || ltb input.local_archive_timeline_high_water_ms capture.timeline_offset_ms

-- The new row, with the database's defaults.
abbrev pub next_generation :
    Services → String → ResumeCaptureRequest → SessionCaptureGeneration → SessionCaptureGeneration
next_generation v session_id input capture = record {
  id = v.fresh_id;
  session_id = session_id;
  audio_object_id = capture.audio_object_id;
  generation_no = capture.generation_no + 1;
  audio_stream_id = input.audio_stream_id;
  timeline_offset_ms = input.local_archive_timeline_high_water_ms;
  status = preparing;
  interruption_reason = none;
  confirmed_active_at = none;
  first_pcm_accepted_at = none;
  interrupted_at = none;
  stopped_at = none;
}

-- An insertion that the unique keys of the table allow: a stream is in one generation, and a session
-- has a number once.
unfoldable pub create_generation : SessionCaptureGeneration → Call (Unit {0})
create_generation next = do
  used ← gets (λ s.
      any
        (λ (c : SessionCaptureGeneration).
          c.audio_stream_id == next.audio_stream_id
          || (c.session_id == next.session_id && eqb c.generation_no next.generation_no))
        s.captures)
  throw_if used repeated
  modify (λ s. record s { captures = s.captures ++ next ∷ [] })

-- The metadata that a replay has to repeat, and that of the audit.
abbrev pub resume_expected : ResumeCaptureRequest → Map Json
resume_expected input =
    ("audio_stream_id", text input.audio_stream_id)
    ∷ ("local_archive_chunk_count", number input.local_archive_chunk_count)
    ∷ ("local_archive_timeline_high_water_ms", number input.local_archive_timeline_high_water_ms)
    ∷ []

abbrev pub resume_metadata : ResumeCaptureRequest → SessionCaptureGeneration → Map Json
resume_metadata input next =
    ("audio_stream_id", text input.audio_stream_id)
    ∷ ("generation_no", number next.generation_no)
    ∷ ("local_archive_chunk_count", number input.local_archive_chunk_count)
    ∷ ("local_archive_timeline_high_water_ms", number input.local_archive_timeline_high_water_ms)
    ∷ ("timeline_offset_ms", number next.timeline_offset_ms)
    ∷ []

-- The writes of `resume`.
unfoldable pub open_generation :
    Services → Actor → String → ResumeCaptureRequest → SessionCaptureGeneration → Call Snapshot
open_generation v actor session_id input capture = do
  let next = next_generation v session_id input capture
  create_generation next
  set_session_status session_id (λ x. record x { status = reconnecting })
  conclude resume_action input.request_id actor session_id (resume_metadata input next)

-- The check of the local archive, then the writes.
unfoldable pub resume_archive :
    Services → Actor → String → ResumeCaptureRequest → SessionCaptureGeneration → Call Snapshot
resume_archive v actor session_id input capture = do
  uploaded ← gets (uploaded_chunks capture.audio_object_id)
  throw_if (archive_conflicts input capture uploaded) (conflict "CAPTURE_ARCHIVE_CONFLICT")
  open_generation v actor session_id input capture

-- `resume` by the session, for a request that is not a replay.
unfoldable pub resume_session :
    Services
    → Actor
    → String
    → ResumeCaptureRequest
    → SessionCaptureGeneration
    → InterviewSession
    → Call Snapshot
resume_session v actor session_id input capture session = do
  finalization ← gets (find_finalization session_id)
  throw_if
      (is_some finalization
        || not (session_interrupted session.status)
        || not (capture_interrupted capture.status))
      (conflict "SESSION_NOT_RECOVERABLE")
  assert_current_gate v actor session
  resume_archive v actor session_id input capture

unfoldable pub resume_fresh :
    Services → Actor → String → ResumeCaptureRequest → SessionCaptureGeneration → Call Snapshot
resume_fresh v actor session_id input capture = do
  found ← gets (find_session session_id)
  session ← require found no_row
  resume_session v actor session_id input capture session

unfoldable pub resume : Services → Actor → String → ResumeCaptureRequest → Call Snapshot
resume v actor session_id input = do
  assert_role actor
  transaction (do
    found ← gets (find_session session_id)
    location ← require found not_found
    newest ← gets (current_capture session_id)
    capture ← require newest (conflict "SESSION_NOT_RECOVERABLE")
    earlier ← replay input.request_id resume_action actor session_id
    replay_or (resume_expected input) earlier (resume_fresh v actor session_id input capture))
