-- ===== src/Runtime/Streams.antt =====
-- The speaker streams that `create` and `rotateSpeakerStream` of realtime-runtime.service.ts open and
-- close.
use elder_interview_ai.Prelude.{
  ℕ, ◌+◌, ◌≤◌, ◌≡◌, Bool, true, ◌&&◌, String, List, [], ◌∷◌, ◌++◌, none, arith, ◌==◌, eq_iff,
  if◌then◌else◌, keep, length, map,
}
use elder_interview_ai.Runtime.Service.{
  System, SpeakerStream, close_stream, open_stream, open_runtime,
}
use elder_interview_ai.Runtime.Calls.{Call, run}
use elder_interview_ai.Runtime.Rule.{Invariant, run_kept}

abbrev pub is_active_of : String → SpeakerStream → Bool
is_active_of session row = row.session_id == session && row.is_active

abbrev pub active_streams : String → List SpeakerStream → ℕ
active_streams session rows = length (keep (is_active_of session) rows)

-- No session has two active streams.
abbrev pub IsSingle : List SpeakerStream → Type 0
IsSingle rows = (session : String) → active_streams session rows ≤ 1

active_streams-append :
    (session : String) (rows : List SpeakerStream) (row : SpeakerStream)
    → active_streams session (rows ++ row ∷ [])
      ≡ active_streams session rows + (if is_active_of session row then 1 else 0)
active_streams-append session [] row = ground arith
active_streams-append session (r ∷ rows) row =
    ground (arith, active_streams-append session rows row)

active_streams-close :
    (now : ℕ) (session other : String) (rows : List SpeakerStream)
    → active_streams other (map (close_stream now session) rows)
      ≡ (if session == other then 0 else active_streams other rows)
active_streams-close now session other [] = ground arith
active_streams-close now session other (r ∷ rows) = ground (
  arith,
  active_streams-close now session other rows,
  eq_iff session other,
  eq_iff r.session_id session,
  eq_iff r.session_id other,
)

open_stream-IsSingle :
    (now : ℕ) (id session generation : String) (rows : List SpeakerStream)
    → IsSingle rows
    → IsSingle (open_stream now id session generation rows)
unfolding open_stream
open_stream-IsSingle now id session generation rows h other = ground (
  arith,
  active_streams-append other (map (close_stream now session) rows) (record {
    id = id;
    session_id = session;
    capture_generation_id = generation;
    is_active = true;
    closed_at = none;
  }),
  active_streams-close now session other rows,
  h other,
)

abbrev pub Single : System → Type 0
Single s = IsSingle s.speaker_streams

Single-Invariant : Invariant (λ now. Single)
unfolding open_runtime
Single-Invariant = record {
  by_write = λ now i f s k h. h;
  by_rotation = λ now speaker i r s h.
      open_stream-IsSingle now speaker r.session_id r.capture_generation_id s.speaker_streams h;
  by_opening = λ now session audio generation speaker event_stream offset s h.
      open_stream-IsSingle now speaker session generation s.speaker_streams h;
}

-- If no session has two active speaker streams, none has after any calls.
pub run-Single : (cs : List (ℕ × Call)) (s : System) → Single s → Single (run cs s)
run-Single cs s h = run_kept Single Single-Invariant cs s h
