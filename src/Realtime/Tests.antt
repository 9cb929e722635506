-- ===== src/Realtime/Tests.antt =====
-- Runs of the transport on concrete events, and the theorems at concrete inputs.
use elder_interview_ai.Prelude.{
  ℕ, ◌+◌, ◌*◌, ◌<◌, ◌⊎◌, ◌||◌, length, ◌≡◌, refl, true, false, List, [], ◌∷◌, map, none, some,
  arith, replicate,
}
use elder_interview_ai.Prelude.Int.{pos, negsuc}
use elder_interview_ai.Realtime.Messages.{
  connected, ServerEnvelope, ServerBody, session_ready, asr_final, audio_ack, audio_frame,
  event_ack,
}
use elder_interview_ai.Realtime.Buffer.{
  PendingFrame, set_frame, drop_acked, next_after, total_bytes,
}
use elder_interview_ai.Realtime.Transport.{
  Options, sent, Transport, initial, send, update_pending, accept_audio_ack, resend_frames,
  resend_pending_frames,
}
use elder_interview_ai.Realtime.Incoming.{apply, apply_body, acknowledge, on_server_message}
use elder_interview_ai.Realtime.Lifecycle.{
  connect, on_open, on_message, send_start, send_finish, range_error, refused, digesting,
}
use elder_interview_ai.Realtime.Machine.{
  System, Event, connects, opened, received, closed, reconnect_due, sends, digested, take_out, step,
  run,
}
use elder_interview_ai.Realtime.Soundness.{IsSound}
use elder_interview_ai.Realtime.Invariant.{run-initial-IsSound}
use elder_interview_ai.Realtime.Ordering.{Outcome, on_server_message-Outcome}
use elder_interview_ai.Realtime.Redelivery.{deliver, deliver_one, deliver-deliver}
use elder_interview_ai.Realtime.Stopping.{Same, run-Same, lose, retries, retries-exhausted}
use elder_interview_ai.Realtime.Frames.{
  send_finish_serial, on_server_message-ready, ready, IsResent, IsSent, later_than, heard,
}

abbrev options : Options
options = record {
  csrf_token = "csrf";
  session_id = "s1";
  audio_stream_id = "a1";
  reconnect_delays = 100 ∷ 250 ∷ 500 ∷ [];
  to_base64 = λ _. "AA==";
}

abbrev pcm : List ℕ
pcm = replicate 3200 0

abbrev frame : ℕ → PendingFrame
frame n = record {
  sequence = n;
  payload = record {
    audio_stream_id = "a1";
    end_ms = n * 100 + 100;
    pcm_base64 = "AA==";
    pcm_sha256 = "d";
    sequence_no = n;
    start_ms = n * 100;
  };
  raw_bytes = 3200;
}

abbrev envelope : ℕ → ServerBody → ServerEnvelope
envelope n body = record {
  event_stream_id = "e1";
  schema_version = "1.2";
  server_sequence = pos n;
  session_id = "s1";
  body = body;
}

abbrev ready_body : ServerBody
ready_body = session_ready "a1" (negsuc 0) false "none"

abbrev spoken : ServerBody
spoken = asr_final (record {
  end_ms = 900;
  effective_speaker_role = "elder";
  segment_id = "g1";
  speaker_role = "elder";
  speaker_role_authority = "unconfirmed";
  speaker_role_revision = 0;
  speaker_stream_id = "v1";
  content_kind = "conversation";
  start_ms = 100;
  text = "hello";
  trusted_effective_speaker_role = "unknown";
  trusted_speaker_role = "unknown";
})

-- Connected over socket 0, with two frames on their way.
abbrev busy : Transport
busy = record {
  options = options;
  state = record {
    calibration = some "none";
    connection = connected;
    error_code = none;
    failure_kind = none;
    finals = [];
    interim = none;
    pending_bytes = 6400;
    pending_frames = 2;
    reset_required = false;
    resumed = false;
    suggestion_presentation_revision = none;
  };
  pending = frame 0 ∷ frame 1 ∷ [];
  finals = [];
  socket = some (record { id = 0; is_open = true });
  next_socket = 1;
  heartbeat_timer = true;
  reconnect_timer = false;
  reconnect_attempt = 0;
  disposed = false;
  terminal = false;
  event_stream_id = some "e1";
  highest_server_sequence = pos 0;
  next_audio_sequence = 2;
  emitted = [];
}

abbrev failed : Transport
failed = record busy { terminal = true; socket = none }

busy-IsSound : IsSound 0 busy
busy-IsSound = ground arith

abbrev start : System
start = record { transport = initial options; flights = [] }

abbrev day : List Event
day =
    connects
    ∷ opened 0
    ∷ received 0 (some (envelope 0 ready_body))
    ∷ sends pcm
    ∷ sends pcm
    ∷ digested 1 "d1"
    ∷ received 0 (some (envelope 1 spoken))
    ∷ digested 0 "d0"
    ∷ closed 0 1006 ""
    ∷ reconnect_due
    ∷ []

run_test :
    map
      (λ (f : PendingFrame). f.sequence)
      (run start (
        connects
        ∷ opened 0
        ∷ received 0 (some (envelope 0 ready_body))
        ∷ sends pcm
        ∷ digested 0 "d0"
        ∷ sends pcm
        ∷ digested 0 "d1"
        ∷ [])).transport.pending
    ≡ 0 ∷ 1 ∷ []
unfolding run step take_out connect on_open on_message on_server_message apply apply_body
    accept_audio_ack update_pending drop_acked next_after acknowledge send resend_pending_frames
    resend_frames send_start send_finish set_frame total_bytes initial
run_test = refl

run-initial-IsSound_example : IsSound 0 (run start day).transport
run-initial-IsSound_example = run-initial-IsSound options day

on_server_message-Outcome_example :
    Outcome (envelope 1 spoken) busy (on_server_message (some (envelope 1 spoken)) busy)
on_server_message-Outcome_example = on_server_message-Outcome (envelope 1 spoken) busy

abbrev replayed : List ServerEnvelope
replayed = envelope 1 spoken ∷ envelope 2 (audio_ack "a1" (pos 0)) ∷ []

deliver-deliver_example : deliver replayed (deliver replayed busy) ≡ deliver replayed busy
unfolding deliver deliver_one on_server_message apply apply_body accept_audio_ack update_pending
    drop_acked next_after acknowledge send
deliver-deliver_example = deliver-deliver replayed busy refl (refl, (refl, tt)) refl

run-Same_example :
    Same failed
      (run (record { transport = failed; flights = [] }) (connects ∷ sends pcm ∷ [])).transport
run-Same_example =
    run-Same (connects ∷ sends pcm ∷ []) (record { transport = failed; flights = [] }) (refl, refl)

retries-exhausted_example :
    ((lose (retries 3 busy)).terminal ≡ true)
    × ((lose (retries 3 busy)).state.error_code ≡ some "REALTIME_UNAVAILABLE")
    × ((lose (retries 3 busy)).next_socket ≡ 4)
retries-exhausted_example = retries-exhausted 3 busy (ground arith) refl

on_server_message-ready_example :
    IsResent
      (envelope 1 spoken)
      (later_than (pos 0) busy.pending)
      busy
      (on_server_message (some (ready (envelope 1 spoken) "a1" (pos 0) true "none")) busy)
on_server_message-ready_example =
    on_server_message-ready (envelope 1 spoken) "a1" (pos 0) true "none" busy refl refl refl refl
      refl

-- Of the frames 0 and 1 only the second is sent again.
resent_test :
    heard busy.socket
      (event_ack (pos 1) ∷ map (λ f. audio_frame f.payload) (later_than (pos 0) busy.pending))
    ≡ sent 0 (audio_frame (frame 1).payload) ∷ sent 0 (event_ack (pos 1)) ∷ []
resent_test = refl

send_finish_serial_example :
    ((send_start pcm busy ≡ range_error) × ¬ (length pcm ≡ 3200))
    ⊎ ((send_start pcm busy ≡ refused)
        × (length pcm ≡ 3200)
        × (((busy.disposed || busy.terminal) ≡ true) ⊎ (length busy.pending ≡ 20)))
    ⊎ ((send_start pcm busy ≡ digesting 2)
        × (length pcm ≡ 3200)
        × ((busy.disposed || busy.terminal) ≡ false)
        × (length busy.pending < 20)
        × IsSent pcm "d2" busy)
send_finish_serial_example = send_finish_serial pcm "d2" 0 busy busy-IsSound

-- It is the third case.
sending_test : send_start pcm busy ≡ digesting 2
unfolding send_start
sending_test = refl
