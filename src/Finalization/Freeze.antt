-- ===== src/Finalization/Freeze.antt =====
-- The transaction of `freeze`, by which a stop fixes what the recording is to be:
-- apps/api/src/project-foundation/session-finalization.service.ts.
use elder_interview_ai.Prelude.{
  ℕ, ◌+◌, ◌/◌, Bool, true, false, not, ◌&&◌, ◌||◌, String, List, [], ◌∷◌, ◌++◌, Option, none, some,
  if◌then◌else◌, eqb, any, keep, get_elem?, ◌==◌,
}
use elder_interview_ai.Prelude.Rows.{update_where}
use elder_interview_ai.Prelude.Action.{◌>>=◌, ◌>>◌, pure, throw_if, require, gets, modify}
use elder_interview_ai.Capture.Tables
use elder_interview_ai.Capture.Tables.{
  CaptureGenerationStatus, stopping, stopped, preparing, active,
}
use elder_interview_ai.AudioServer.Tables.{
  AudioPurpose, consent, interview, AudioObject, AudioChunk, Commitment,
}
use elder_interview_ai.Finalization.Tables.{
  InterviewSession, SessionCaptureGeneration, awaiting_upload, pending, SessionFinalization,
  Snapshot, IdempotencyRecord, State, conflict, forbidden, not_found, repeated, Call, Actor,
  StopSessionRequest, Services,
}
use elder_interview_ai.Finalization.Access.{
  transaction, assert_role, find_session, find_finalization, find_object, read_snapshot,
  assert_finalization_actor, is_capturing, is_interrupted, validate_commitments, same_chunk,
  find_record, is_foreign, write_stop_idempotency, current_gate,
}

-- How the transaction ends: access is denied; or a snapshot is answered, with the finalization that
-- is to go on, if there is one.
pub data Outcome : Type 0 where
  denied : Outcome
  answered : Option String → Snapshot → Outcome

abbrev pub action_of : Bool → String
action_of was_interrupted =
    if was_interrupted then "interview_session.finalize_interrupted" else "interview_session.stop"

module _ (v : Services) where
  abbrev pub is_same_freeze : StopSessionRequest → SessionFinalization → Bool
  is_same_freeze input f =
      f.audio_object_id == input.audio_object_id
      && eqb f.expected_chunk_count input.expected_chunk_count
      && f.commitments_checksum == v.digest input.chunks

  abbrev pub is_replay_of : StopSessionRequest → Option SessionFinalization → Bool
  is_replay_of input none = false
  is_replay_of input (some f) = is_same_freeze input f

  abbrev pub replay_stop :
      Actor
      → String
      → StopSessionRequest
      → Bool
      → Option SessionFinalization
      → IdempotencyRecord
      → Call Outcome
  replay_stop actor session_id input was_interrupted existing r = do
    throw_if (is_foreign (action_of was_interrupted) actor session_id r)
        (conflict "IDEMPOTENCY_KEY_REUSED")
    throw_if (not (is_replay_of input existing)) (conflict "IDEMPOTENCY_PAYLOAD_MISMATCH")
    pure (answered none r.response_payload)

  -- The snapshot and the record with which a stop ends.
  abbrev pub conclude :
      Actor → String → StopSessionRequest → Bool → (finalization_id : String) → Call Outcome
  conclude actor session_id input was_interrupted finalization_id = do
    snapshot ← read_snapshot session_id
    write_stop_idempotency input.request_id (action_of was_interrupted) actor.id session_id snapshot
    pure (answered (some finalization_id) snapshot)

  -- The same stop again, by another request.
  abbrev pub stop_again :
      Actor → String → StopSessionRequest → Bool → SessionFinalization → Call Outcome
  stop_again actor session_id input was_interrupted f = do
    throw_if (not (is_same_freeze input f)) (conflict "SESSION_STOP_CONFLICT")
    assert_finalization_actor actor f.created_by
    conclude actor session_id input was_interrupted f.id

  abbrev pub interrupt_session : String → Call Outcome
  interrupt_session session_id = do
    modify (λ s. record s {
      sessions =
          update_where (λ (x : InterviewSession). x.id == session_id && is_capturing x.status)
            (λ (x : InterviewSession). record x { status = Tables.interrupted }) s.sessions;
    })
    pure denied

  abbrev is_interview : AudioPurpose → Bool
  is_interview interview = true
  is_interview consent = false

  abbrev same_session : Option String → String → Bool
  same_session none id = false
  same_session (some x) id = x == id

  abbrev pub is_object_of : Actor → InterviewSession → Option AudioObject → Bool
  is_object_of actor session none = false
  is_object_of actor session (some o) =
      o.project_id == session.project_id
      && same_session o.session_id session.id
      && is_interview o.purpose
      && o.created_by == actor.id

  abbrev pub agrees : Option Commitment → AudioChunk → Bool
  agrees none c = false
  agrees (some k) c = same_chunk c k

  -- The loop over the chunks that are there already.
  unfoldable pub all_agree : List Commitment → List AudioChunk → Bool
  all_agree ks [] = true
  all_agree ks (c ∷ cs) = agrees (get_elem? ks c.sequence_no) c && all_agree ks cs

  -- `input.chunks.at(-1)`
  unfoldable pub last : List Commitment → Option Commitment
  last [] = none
  last (k ∷ []) = some k
  last (k ∷ l ∷ ks) = last (l ∷ ks)

  abbrev pub is_live_generation : (object_id session_id : String) → SessionCaptureGeneration → Bool
  is_live_generation object_id session_id c =
      c.audio_object_id == object_id && c.session_id == session_id && is_live c.status
    where
      is_live : CaptureGenerationStatus → Bool
      is_live preparing = true
      is_live active = true
      is_live _ = false

  abbrev pub new_finalization :
      Actor → String → StopSessionRequest → (ended_at : ℕ) → SessionFinalization
  new_finalization actor session_id input ended_at = record {
    id = v.fresh_id;
    session_id = session_id;
    audio_object_id = input.audio_object_id;
    stop_request_id = input.request_id;
    expected_chunk_count = input.expected_chunk_count;
    commitments_checksum = v.digest input.chunks;
    capture_ended_at = ended_at;
    processing_started_at = none;
    completed_at = none;
    audio_status = awaiting_upload;
    transcript_status = pending;
    transcript_error_code = none;
    asr_last_audio_sequence_accepted = v.runtime session_id;
    asr_drain_completed_at = none;
    created_by = actor.id;
    chunks = input.chunks;
  }

  -- The session, the audio object, and the request that made it are each unique in the table.
  abbrev pub clashes : SessionFinalization → SessionFinalization → Bool
  clashes f g =
      g.session_id == f.session_id
      || g.audio_object_id == f.audio_object_id
      || g.stop_request_id == f.stop_request_id

  unfoldable pub create_finalization : SessionFinalization → Call (Unit {0})
  create_finalization f = do
    taken ← gets (λ s. any (clashes f) s.finalizations)
    throw_if taken repeated
    modify (λ s. record s { finalizations = s.finalizations ++ f ∷ [] })

  -- What a stop writes to the session, to its live captures and to the log.
  abbrev pub stop_rows :
      Actor → String → StopSessionRequest → (ended_at duration_seconds : ℕ) → State → State
  stop_rows actor session_id input ended_at duration_seconds s = record s {
    sessions =
        update_where (λ (x : InterviewSession). x.id == session_id)
          (λ (x : InterviewSession). record x {
            duration_seconds = some duration_seconds;
            ended_at = some ended_at;
            status = stopping;
          })
          s.sessions;
    captures =
        update_where (is_live_generation input.audio_object_id session_id)
          (λ (c : SessionCaptureGeneration). record c {
            status = stopped;
            stopped_at = some ended_at;
          })
          s.captures;
    audit_logs =
        s.audit_logs
        ++ record {
          action = "interview_session.stop";
          actor_id = actor.id;
          entity_id = session_id;
          request_id = some input.request_id;
          metadata = some (input.audio_object_id, input.expected_chunk_count);
        }
          ∷ [];
  }

  -- From the chunks that are there to the end.
  unfoldable pub freeze_object : Actor → InterviewSession → StopSessionRequest → Bool → Call Outcome
  freeze_object actor session input was_interrupted = do
    uploaded ←
        gets (λ s.
          keep (λ (c : AudioChunk). c.audio_object_id == input.audio_object_id) s.audio_chunks)
    throw_if (not (all_agree input.chunks uploaded)) (conflict "AUDIO_COMMITMENT_CONFLICT")
    final ← require (last input.chunks) (conflict "SESSION_NOT_STOPPABLE")
    started_at ← require session.started_at (conflict "SESSION_NOT_STOPPABLE")
    create_finalization (new_finalization actor session.id input (started_at + final.end_ms))
    modify
        (stop_rows actor session.id input (started_at + final.end_ms) ((final.end_ms + 999) / 1000))
    conclude actor session.id input was_interrupted v.fresh_id

  abbrev pub is_legal : Bool → InterviewSession → Bool
  is_legal true session = is_interrupted session.status
  is_legal false session = is_capturing session.status

  -- A first stop.
  abbrev pub freeze_open : Actor → InterviewSession → StopSessionRequest → Bool → Call Outcome
  freeze_open actor session input was_interrupted = do
    throw_if (not (is_legal was_interrupted session)) (conflict "SESSION_NOT_STOPPABLE")
    object ← gets (find_object input.audio_object_id)
    (if is_object_of actor session object
        then freeze_object actor session input was_interrupted
        else pure denied)

  unfoldable pub freeze_fresh : Actor → InterviewSession → StopSessionRequest → Bool → Call Outcome
  freeze_fresh actor session input was_interrupted = do
    is_open ← gets (current_gate v actor session.project_id)
    (if is_open
        then freeze_open actor session input was_interrupted
        else interrupt_session session.id)

  abbrev pub freeze_existing :
      Actor
      → InterviewSession
      → StopSessionRequest
      → Bool
      → Option SessionFinalization
      → Call Outcome
  freeze_existing actor session input was_interrupted none =
      freeze_fresh actor session input was_interrupted
  freeze_existing actor session input was_interrupted (some f) =
      stop_again actor session.id input was_interrupted f

  abbrev pub freeze_replay :
      Actor
      → InterviewSession
      → StopSessionRequest
      → Bool
      → Option SessionFinalization
      → Option IdempotencyRecord
      → Call Outcome
  freeze_replay actor session input was_interrupted existing none =
      freeze_existing actor session input was_interrupted existing
  freeze_replay actor session input was_interrupted existing (some r) =
      replay_stop actor session.id input was_interrupted existing r

  -- The part of `freeze` in its transaction.
  unfoldable pub freeze_session : Actor → String → StopSessionRequest → Bool → Call Outcome
  freeze_session actor session_id input was_interrupted = do
    found ← gets (find_session session_id)
    session ← require found not_found
    existing ← gets (find_finalization session_id)
    replay ← gets (find_record input.request_id)
    freeze_replay actor session input was_interrupted existing replay

  abbrev pub is_denied : Outcome → Bool
  is_denied denied = true
  is_denied (answered f s) = false

  -- `freeze`, up to where the finalization goes on.
  unfoldable pub freeze : Actor → String → StopSessionRequest → Bool → Call Outcome
  freeze actor session_id input was_interrupted = do
    assert_role actor
    validate_commitments input
    outcome ← transaction (freeze_session actor session_id input was_interrupted)
    throw_if (is_denied outcome) forbidden
    modify (λ s. record s { interrupts = session_id ∷ s.interrupts })
    pure outcome
