-- ===== src/Runtime/Tests.antt =====
-- Runs of the server's runtime on concrete calls, and the theorems at concrete inputs.
use elder_interview_ai.Prelude.{ℕ, ◌≡◌, refl, true, false, List, [], ◌∷◌, none, some, arith}
use elder_interview_ai.Prelude.Map.{get}
use elder_interview_ai.Prelude.Int.{pos}
use elder_interview_ai.Realtime.Messages.{AudioFrame, ServerBody, asr_status, reconnecting}
use elder_interview_ai.Realtime.Transport.{Transport}
use elder_interview_ai.Runtime.Session.{
  StoredEvent, SessionRuntime, AsrIdentity, take_last, drop, prune, append_as, append,
  build_runtime, replay_after, frame_matches, claim, interrupted, is_producer_lease_current,
  record_frame, put_frame, get_frame, evidence_of,
}
use elder_interview_ai.Runtime.Service.{System, is_current, is_asr_attempt_current}
use elder_interview_ai.Runtime.Calls.{
  append_call, claim_call, perform, Call, created, opened, on_session, run,
}
use elder_interview_ai.Runtime.Window.{IsWindow}
use elder_interview_ai.Runtime.Windows.{Windows, run-Windows, perform-IsWindow}
use elder_interview_ai.Runtime.Replay.{Answer, replay_after-Answer}
use elder_interview_ai.Runtime.Rejoin.{Applied, envelopes, replay_after-Applied}
use elder_interview_ai.Runtime.Holds.{Holds}
use elder_interview_ai.Runtime.Lease.{IsLost, run-IsLost}
use elder_interview_ai.Runtime.Gateway
use elder_interview_ai.Runtime.Gateway.{
  Client, Line, Event, frame_begins, frame_ends, persisted, interruption, begin_frame, begin_new,
  finish_frame, accept_frame, audio_ack_event, step, taken,
}
use elder_interview_ai.Runtime.Accepted.{LineIsAccepted, run-IsAccepted}
use elder_interview_ai.Runtime.Streams.{Single, run-Single}
use elder_interview_ai.Runtime.Stale.{run-IsReplaced}

abbrev connected : ServerBody
connected = asr_status none "connected"

-- A runtime is made, claimed by connection 7, and sends two events.
abbrev calls : List (ℕ × Call)
calls =
    (10, created "s" "a" "g" "v" "e" 0)
    ∷ (11, on_session 0 (claim_call 7))
    ∷ (12, on_session 0 (append_call connected))
    ∷ (13, on_session 0 (append_call connected))
    ∷ []

abbrev none_yet : System
none_yet = record { runtimes = []; sessions = []; speaker_streams = [] }

run-Windows_example : Windows 13 (run calls none_yet)
run-Windows_example = run-Windows 0 calls none_yet (omega arith) tt

run-Single_example : Single (run calls none_yet)
run-Single_example = run-Single calls none_yet (λ session. omega arith)

-- The same runtime, on its own.
fresh : SessionRuntime
fresh = build_runtime 10 "s" "a" "v" "g" "e" 0

live : SessionRuntime
unfolding fresh
live = perform 13 (append_call connected) (perform 12 (append_call connected) fresh)

fresh-IsWindow : IsWindow 10 fresh
unfolding fresh build_runtime
fresh-IsWindow = (record { first = 0; numbered = refl; ordered = tt; own = tt }, omega arith)

live-IsWindow : IsWindow 13 live
unfolding live
live-IsWindow =
    perform-IsWindow 12 13 (append_call connected) (perform 12 (append_call connected) fresh)
      (omega arith)
      (perform-IsWindow 10 12 (append_call connected) fresh (omega arith) fresh-IsWindow)

replay_after-Answer_example : Answer 20 0 live (replay_after 20 0 live).1
replay_after-Answer_example = replay_after-Answer 13 20 0 live (omega arith) live-IsWindow

abbrev second : StoredEvent
second = record {
  created_at = 13;
  envelope = record {
    event_stream_id = "e";
    schema_version = "1.1";
    server_sequence = pos 1;
    session_id = "s";
    body = connected;
  };
}

-- The client has seen the first event.
replayed_second : (replay_after 20 0 live).1 ≡ some (second ∷ [])
unfolding replay_after live fresh perform append append_as prune take_last drop build_runtime
replayed_second = refl

-- Both events have left the window after five minutes.
replay_late : (replay_after 300_014 0 live).1 ≡ none
unfolding replay_after live fresh perform append append_as prune take_last drop build_runtime
replay_late = refl

abbrev client : Transport
client = record {
  options = record {
    csrf_token = "csrf";
    session_id = "s";
    audio_stream_id = "a";
    reconnect_delays = 100 ∷ [];
    to_base64 = λ _. "AA==";
  };
  state = record {
    calibration = none;
    connection = reconnecting;
    error_code = none;
    failure_kind = none;
    finals = [];
    interim = none;
    pending_bytes = 0;
    pending_frames = 0;
    reset_required = false;
    resumed = false;
    suggestion_presentation_revision = none;
  };
  pending = [];
  finals = [];
  socket = some (record { id = 1; is_open = true });
  next_socket = 2;
  heartbeat_timer = true;
  reconnect_timer = false;
  reconnect_attempt = 1;
  disposed = false;
  terminal = false;
  event_stream_id = some "e";
  highest_server_sequence = pos 0;
  next_audio_sequence = 0;
  emitted = [];
}

replay_after-Applied_example :
    Applied live.session_id live.event_stream_id live.next_server_sequence
      (envelopes (second ∷ []))
      client
unfolding live fresh perform append append_as prune build_runtime
replay_after-Applied_example =
    replay_after-Applied 13 20 0 live client (second ∷ []) (omega arith) live-IsWindow
      replayed_second (refl, refl, refl)

-- After the calls above the lease 1 of connection 7 is current; an interruption ends it.
lease_current : is_producer_lease_current (perform 11 (claim_call 7) fresh) 7 1 ≡ true
unfolding is_producer_lease_current perform claim fresh build_runtime
lease_current = refl

abbrev lost : System
lost = record {
  runtimes = interrupted 12 (perform 11 (claim_call 7) fresh) ∷ [];
  sessions = ("s", 0) ∷ [];
  speaker_streams = [];
}

lost-Holds : Holds (IsLost 7 1) 0 lost
unfolding is_producer_lease_current perform claim interrupted fresh build_runtime
lost-Holds = record {
  object = interrupted 12 (perform 11 (claim_call 7) fresh);
  there = refl;
  property = (omega arith, refl);
}

run-IsLost_example :
    Holds
      (IsLost 7 1)
      0
      (run ((13, on_session 0 (claim_call 8)) ∷ (14, on_session 0 (claim_call 7)) ∷ []) lost)
run-IsLost_example =
    run-IsLost 7 1 0 ((13, on_session 0 (claim_call 8)) ∷ (14, on_session 0 (claim_call 7)) ∷ [])
      lost lost-Holds

abbrev frame : ℕ → AudioFrame
frame n = record {
  audio_stream_id = "a";
  end_ms = n;
  pcm_base64 = "AA==";
  pcm_sha256 = "d";
  sequence_no = n;
  start_ms = n;
}

abbrev start : Line
start = record { runtime = perform 11 (claim_call 7) fresh; waiting = [] }

abbrev open_client : Client
open_client = record { number = 7; is_open = true }

-- Two frames; an interruption takes the lease before the second is persisted.
abbrev events : List (ℕ × Event)
events =
    (12, frame_begins open_client (frame 0))
    ∷ (13, frame_ends 0 (λ c. true) persisted)
    ∷ (14, frame_begins open_client (frame 1))
    ∷ (15, interruption)
    ∷ (16, frame_ends 0 (λ c. true) persisted)
    ∷ []

start-LineIsAccepted : LineIsAccepted start
unfolding perform claim fresh build_runtime
start-LineIsAccepted = record {
  count = 0;
  counted = refl;
  acked = refl;
  below = omega arith;
  pending = refl;
  bounded = omega arith;
  bytes = refl;
  due = tt;
}

run-IsAccepted_example : LineIsAccepted (Gateway.run events start)
run-IsAccepted_example = run-IsAccepted events start start-LineIsAccepted

first_only : (Gateway.run events start).runtime.next_audio_sequence ≡ 1
unfolding Gateway.run step taken begin_frame begin_new finish_frame accept_frame audio_ack_event
    append append_as prune take_last drop perform claim interrupted is_producer_lease_current
    record_frame put_frame get_frame frame_matches fresh build_runtime
first_only = refl

-- The frame 0 comes twice, from the two queues, and the frame 1 once; the second frame 0 ends last.
abbrev doubled : List (ℕ × Event)
doubled =
    (12, frame_begins open_client (frame 0))
    ∷ (12, frame_begins open_client (frame 0))
    ∷ (13, frame_ends 0 (λ c. true) persisted)
    ∷ (14, frame_begins open_client (frame 1))
    ∷ (15, frame_ends 0 (λ c. true) persisted)
    ∷ (16, frame_ends 0 (λ c. true) persisted)
    ∷ []

-- Both frames are recorded, but only the frame 0 is acknowledged: the next number is 1 again.
goes_back :
    ((Gateway.run doubled start).runtime.highest_audio_sequence_acked ≡ pos 0)
    × ((Gateway.run doubled start).runtime.next_audio_sequence ≡ 1)
    × (get_frame 1 (Gateway.run doubled start).runtime.frames ≡ some (evidence_of (frame 1)))
unfolding Gateway.run step taken begin_frame begin_new finish_frame accept_frame audio_ack_event
    append append_as prune take_last drop perform claim is_producer_lease_current record_frame
    put_frame get_frame frame_matches fresh build_runtime
goes_back = (refl, refl, refl)

-- Another runtime has taken the place of the first.
abbrev replaced : System
replaced = record {
  runtimes = fresh ∷ build_runtime 20 "s" "b" "w" "h" "f" 0 ∷ [];
  sessions = ("s", 1) ∷ [];
  speaker_streams = [];
}

abbrev attempt : AsrIdentity
attempt = record {
  attempt_id = "t";
  provider_namespace_id = "n";
  provider_request_id = "r";
  speaker_stream_id = "v";
}

run-IsReplaced_example :
    is_asr_attempt_current 0 attempt (run ((21, opened "s" "a" "g" "v" "e" 0) ∷ []) replaced)
    ≡ false
unfolding fresh build_runtime is_current get
run-IsReplaced_example =
    run-IsReplaced "s" 0 attempt ((21, opened "s" "a" "g" "v" "e" 0) ∷ []) replaced
      (record { object = fresh; there = refl; property = refl })
      (record { made = omega arith; replaced = refl })
