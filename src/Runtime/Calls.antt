-- ===== src/Runtime/Calls.antt =====
-- Any sequence of calls of the methods of realtime-runtime.service.ts, each at its time.
use elder_interview_ai.Prelude.{ℕ, ◌≤◌, Bool, String, List, [], ◌∷◌, Option}
use elder_interview_ai.Prelude.Int.{ℤ}
use elder_interview_ai.Realtime.Messages.{ServerBody, AudioFrame}
use elder_interview_ai.Runtime.Session.{
  SessionRuntime, AsrIdentity, bind_asr_attempt, append, publish, publish_suggestion, subscribe,
  authorize_notifications, replay_after, record_frame, release, claim,
}
use elder_interview_ai.Runtime.Service.{
  System, on_runtime, open_runtime, create, rotate_speaker_stream, find, recover, interrupt_capture,
  interrupt_session, begin_suggestion, begin_marker,
}

-- A call on one runtime.
pub data SessionCall : Type 0 where
  bind_asr_attempt_call : AsrIdentity → SessionCall
  append_call : ServerBody → SessionCall
  publish_call : (delivers : ℕ → Bool) → ServerBody → SessionCall
  publish_suggestion_call :
      (delivers : ℕ → Bool) (authorized : Bool) (kind : String) (revision : Option ℤ) → SessionCall
  subscribe_call : (client : ℕ) → SessionCall
  authorize_call : (client : ℕ) → SessionCall
  replay_call : (sequence : ℕ) → SessionCall
  record_frame_call : AudioFrame → SessionCall
  release_call : (client : ℕ) → SessionCall
  claim_call : (client : ℕ) → SessionCall

unfoldable pub perform : (now : ℕ) → SessionCall → SessionRuntime → SessionRuntime
perform now (bind_asr_attempt_call identity) r = bind_asr_attempt now identity r
perform now (append_call body) r = (append now body r).0
perform now (publish_call delivers body) r = (publish delivers now body r).0
perform now (publish_suggestion_call delivers authorized kind revision) r =
    publish_suggestion delivers now authorized kind revision r
perform now (subscribe_call client) r = subscribe client r
perform now (authorize_call client) r = authorize_notifications client r
perform now (replay_call sequence) r = (replay_after now sequence r).0
perform now (record_frame_call frame) r = record_frame now frame r
perform now (release_call client) r = release now client r
perform now (claim_call client) r = (claim now client r).0

-- `opened` is a `create` whose transaction ends after other calls have come in between.
pub data Call : Type 0 where
  created opened :
      (session_id audio_stream_id capture_generation_id speaker_stream_id event_stream_id : String)
      (timeline_offset_ms : ℕ)
      → Call
  rotated : (speaker_stream_id : String) (ref : ℕ) → Call
  found : (session_id : String) → Call
  recovered : (session_id audio_stream_id event_stream_id : String) → Call
  capture_interrupted : (session_id audio_stream_id : String) → Call
  session_interrupted : (session_id : String) → Call
  suggestion_begun : (session_id : String) → Call
  marker_begun : (session_id speaker_stream_id : String) → Call
  on_session : (ref : ℕ) → SessionCall → Call

unfoldable pub call : (now : ℕ) → Call → System → System
call now (created session audio generation speaker event_stream offset) s =
    (create now session audio generation speaker event_stream offset s).0
call now (opened session audio generation speaker event_stream offset) s =
    (open_runtime now session audio generation speaker event_stream offset s).0
call now (rotated speaker ref) s = rotate_speaker_stream now speaker ref s
call now (found session) s = (find now session s).0
call now (recovered session audio event_stream) s = (recover now session audio event_stream s).0
call now (capture_interrupted session audio) s = (interrupt_capture now session audio s).0
call now (session_interrupted session) s = interrupt_session now session s
call now (suggestion_begun session) s = (begin_suggestion now session s).0
call now (marker_begun session speaker) s = (begin_marker now session speaker s).0
call now (on_session ref c) s = on_runtime ref (perform now c) s

unfoldable pub run : List (ℕ × Call) → System → System
run [] s = s
run ((now, c) ∷ cs) s = run cs (call now c s)

-- The clock does not go back, from this time on.
abbrev pub IsOrdered : ℕ → List (ℕ × Call) → Type 0
IsOrdered clock [] = Unit {0}
IsOrdered clock ((now, c) ∷ cs) = (clock ≤ now) × IsOrdered now cs

-- The time after the calls.
abbrev pub end_time : ℕ → List (ℕ × Call) → ℕ
end_time clock [] = clock
end_time clock ((now, c) ∷ cs) = end_time now cs
