-- ===== src/Finalization/Advance.antt =====
-- `advanceOnce` of apps/api/src/project-foundation/session-finalization.service.ts: a finalization goes
-- on once its audio is whole. Between its two transactions the speech service drains, so they are two
-- steps; the map of running advances only keeps a second one from starting beside the first.
use elder_interview_ai.Prelude.{
  ℕ, Bool, true, false, not, ◌&&◌, String, Option, none, some, if◌then◌else◌, is_none, or_else,
  ◌==◌,
}
use elder_interview_ai.Prelude.Int.{ℤ, negsuc, max_ℤ, is_negative, leb_ℤ}
use elder_interview_ai.Prelude.Rows.{update_where}
use elder_interview_ai.Prelude.Sort.{sort_by}
use elder_interview_ai.Prelude.Action.{◌>>=◌, ◌>>◌, pure, require, gets, modify}
use elder_interview_ai.Capture.Tables
use elder_interview_ai.Capture.Tables.{InterviewSessionStatus}
use elder_interview_ai.AudioServer.Tables.{AudioObject, Commitment}
use elder_interview_ai.Finalization.Tables.{
  InterviewSession, SessionFinalization, audio_complete, TranscriptStatus, not_started, pending,
  draining, drained, degraded, State, no_row, Call, Services,
}
use elder_interview_ai.Finalization.Access.{
  transaction, find_session, finalization_at, find_object, chunks_of, is_terminal,
  complete_manifest_matches,
}

unfoldable pub set_finalization :
    String → (SessionFinalization → SessionFinalization) → Call (Unit {0})
set_finalization id f = modify (λ s. record s {
  finalizations = update_where (λ (x : SessionFinalization). x.id == id) f s.finalizations;
})

abbrev pub complete_session : InterviewSession → InterviewSession
complete_session x = record x { status = Tables.completed }

-- `completeTerminal`
unfoldable pub complete_terminal : (finalization_id session_id : String) → ℕ → Call (Unit {0})
complete_terminal finalization_id session_id now = modify (λ s. record s {
  finalizations =
      update_where (λ (x : SessionFinalization). x.id == finalization_id && is_none x.completed_at)
        (λ (x : SessionFinalization). record x { completed_at = some now }) s.finalizations;
  sessions =
      update_where (λ (x : InterviewSession). x.id == session_id && not (is_terminal x.status))
        complete_session s.sessions;
})

abbrev pub is_waiting : TranscriptStatus → Bool
is_waiting pending = true
is_waiting draining = true
is_waiting _ = false

abbrev pub or_minus_one : Option ℤ → ℤ
or_minus_one none = negsuc 0
or_minus_one (some n) = n

-- No runtime, or one that has acknowledged nothing.
abbrev pub has_no_audio : Option ℤ → Bool
has_no_audio none = true
has_no_audio (some n) = is_negative n

abbrev pub kept_sequence : ℤ → Option ℤ
kept_sequence n = if is_negative n then none else some n

-- `receipt` and `completeness` of the speech service, or that it threw.
pub data Drain : Type 0 where
  drain_failed : Drain
  drain_result :
      (accepted_through terminal_through : ℤ) → (no_known_gap coverage_proven : Bool) → Drain

abbrev pub is_drained : ℤ → Drain → Bool
is_drained accepted drain_failed = false
is_drained accepted (drain_result through terminal no_gap proven) =
    leb_ℤ accepted through && leb_ℤ accepted terminal && no_gap && proven

module _ (v : Services) where
  abbrev pub without_runtime : (accepted : ℤ) → SessionFinalization → SessionFinalization
  without_runtime accepted x = record x {
    audio_status = audio_complete;
    asr_last_audio_sequence_accepted = kept_sequence accepted;
    processing_started_at = some (or_else x.processing_started_at v.now);
    transcript_error_code = if is_negative accepted then none else some "ASR_DRAIN_INCOMPLETE";
    transcript_status = if is_negative accepted then not_started else degraded;
  }

  abbrev pub with_runtime : (accepted : ℤ) → SessionFinalization → SessionFinalization
  with_runtime accepted x = record x {
    audio_status = audio_complete;
    asr_last_audio_sequence_accepted = some accepted;
    processing_started_at = some (or_else x.processing_started_at v.now);
    transcript_error_code = none;
    transcript_status = draining;
  }

  abbrev pub process_session : InterviewSession → InterviewSession
  process_session x = record x { status = Tables.processing }

  -- The finalization of a whole recording; the answer is the sequence to drain up to.
  unfoldable pub begin_processing : SessionFinalization → Call (Option ℤ)
  begin_processing f =
      let active : Option ℤ = v.runtime f.session_id in
      let accepted : ℤ =
        max_ℤ (or_minus_one active) (or_minus_one f.asr_last_audio_sequence_accepted) in
      if not (is_waiting f.transcript_status)
      then (do complete_terminal f.id f.session_id v.now; pure none)
      else (if has_no_audio active
          then (do
            set_finalization f.id (without_runtime accepted)
            complete_terminal f.id f.session_id v.now
            pure none)
          else (do
            set_finalization f.id (with_runtime accepted)
            modify (λ s. record s {
              sessions =
                  update_where (λ (x : InterviewSession). x.id == f.session_id) process_session
                    s.sessions;
            })
            pure (some accepted)))

  abbrev pub matches : SessionFinalization → AudioObject → State → Bool
  matches f object s =
      complete_manifest_matches v object (chunks_of object.id s)
        (sort_by (λ (k : Commitment). k.sequence_no) f.chunks) f.expected_chunk_count

  abbrev pub prepare_open : SessionFinalization → Call (Option ℤ)
  prepare_open f = do
    found ← gets (find_object f.audio_object_id)
    object ← require found no_row
    whole ← gets (matches f object)
    if whole then begin_processing f else pure none

  -- The first transaction.
  unfoldable pub prepare : String → Call (Option ℤ)
  prepare finalization_id = transaction (do
    found ← gets (finalization_at finalization_id)
    f ← require found no_row
    at ← gets (find_session f.session_id)
    session ← require at no_row
    if is_terminal session.status then pure none else prepare_open f)

  abbrev pub settled : Bool → SessionFinalization → SessionFinalization
  settled is_done x = record x {
    asr_drain_completed_at = if is_done then some v.now else none;
    transcript_error_code = if is_done then none else some "ASR_DRAIN_INCOMPLETE";
    transcript_status = if is_done then drained else degraded;
  }

  abbrev pub settle_open : SessionFinalization → Bool → Call (Unit {0})
  settle_open f is_done = do
    set_finalization f.id (settled is_done)
    complete_terminal f.id f.session_id v.now

  -- The second transaction.
  unfoldable pub settle : String → Bool → Call (Unit {0})
  settle finalization_id is_done = transaction (do
    found ← gets (finalization_at finalization_id)
    f ← require found no_row
    at ← gets (find_session f.session_id)
    session ← require at no_row
    if is_terminal session.status then pure tt else settle_open f is_done)
