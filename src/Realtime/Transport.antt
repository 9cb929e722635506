-- ===== src/Realtime/Transport.antt =====
-- The class RealtimeTranscriptionTransport of realtime-transport.ts: its fields as a record and its
-- methods and listeners as functions on it. A socket is named by a number and has the part of
-- `readyState` that the code reads; timers are flags; what the code hands to sockets and timers is
-- the list `emitted`, newest first. `sendPcmFrame` waits for a digest, so it is two functions.
use elder_interview_ai.Prelude.{
  ℕ, Bool, true, false, String, List, [], ◌∷◌, Option, none, some, if◌then◌else◌, length,
}
use elder_interview_ai.Prelude.Int.{ℤ, negsuc}
use elder_interview_ai.Realtime.Messages.{
  closed, unavailable, internal, reset, session, TranscriptFinal, ClientMessage, audio_frame, State,
  Failure,
}
use elder_interview_ai.Realtime.Buffer.{PendingFrame, drop_acked, next_after, total_bytes}

-- `to_base64` is the platform's `btoa` on the bytes of a frame.
pub record Options : Type 0 where
  pub csrf_token : String
  pub session_id : String
  pub audio_stream_id : String
  pub reconnect_delays : List ℕ
  pub to_base64 : List ℕ → String

pub record Socket : Type 0 where
  pub id : ℕ
  pub is_open : Bool

pub data Effect : Type 0 where
  created : (socket : ℕ) → Effect
  sent : (socket : ℕ) → ClientMessage → Effect
  closes : (socket code : ℕ) → Effect
  timer_set : (delay : ℕ) → Effect

pub record Transport : Type 0 where
  pub options : Options
  pub state : State
  pub pending : List PendingFrame
  pub finals : List TranscriptFinal
  pub socket : Option Socket
  pub next_socket : ℕ
  pub heartbeat_timer : Bool
  pub reconnect_timer : Bool
  pub reconnect_attempt : ℕ
  pub disposed : Bool
  pub terminal : Bool
  pub event_stream_id : Option String
  pub highest_server_sequence : ℤ
  pub next_audio_sequence : ℕ
  pub emitted : List Effect

abbrev pub max_pending_frames : ℕ
max_pending_frames = 20

abbrev pub max_pending_bytes : ℕ
max_pending_bytes = 64_000

abbrev pub pcm_frame_bytes : ℕ
pcm_frame_bytes = 3200

abbrev pub pcm_frame_duration_ms : ℕ
pcm_frame_duration_ms = 100

unfoldable pub initial : Options → Transport
initial options = record {
  options = options;
  state = record {
    calibration = none;
    connection = closed;
    error_code = none;
    failure_kind = none;
    finals = [];
    interim = none;
    pending_bytes = 0;
    pending_frames = 0;
    reset_required = false;
    resumed = false;
    suggestion_presentation_revision = none;
  };
  pending = [];
  finals = [];
  socket = none;
  next_socket = 0;
  heartbeat_timer = false;
  reconnect_timer = false;
  reconnect_attempt = 0;
  disposed = false;
  terminal = false;
  event_stream_id = none;
  highest_server_sequence = negsuc 0;
  next_audio_sequence = 0;
  emitted = [];
}

abbrev pub emit : Effect → Transport → Transport
emit e t = record t { emitted = e ∷ t.emitted }

-- `send`: nothing is sent after a terminal failure, without a socket, or before it is open.
unfoldable pub send : ClientMessage → Transport → Transport
send message t =
    if t.terminal
    then t
    else elim t.socket [ none ↦ t | some s ↦ if s.is_open then emit (sent s.id message) t else t ]

unfoldable pub update_pending : Transport → Transport
update_pending t = record t {
  state = record (t.state) {
    pending_bytes = total_bytes t.pending;
    pending_frames = length t.pending;
  };
}

unfoldable pub accept_audio_ack : ℤ → Transport → Transport
accept_audio_ack highest t = update_pending (record t {
  pending = drop_acked highest t.pending;
  next_audio_sequence = next_after t.next_audio_sequence highest;
})

unfoldable pub resend_frames : List PendingFrame → Transport → Transport
resend_frames [] t = t
resend_frames (f ∷ fs) t = resend_frames fs (send (audio_frame f.payload) t)

unfoldable pub resend_pending_frames : Transport → Transport
resend_pending_frames t = resend_frames t.pending t

-- The close of the failed socket, when it is still open.
abbrev pub close_open : Option Socket → ℕ → Transport → Transport
close_open none code t = t
close_open (some s) code t = if s.is_open then emit (closes s.id code) t else t

unfoldable pub terminal_failure : Failure → Transport → Transport
terminal_failure f t =
    if t.terminal
    then t
    else close_open t.socket 4000 (record t {
      terminal = true;
      heartbeat_timer = false;
      reconnect_timer = false;
      socket = none;
      state = record (t.state) {
        connection = unavailable;
        error_code = some f.code;
        failure_kind = some f.kind;
        reset_required = f.reset_required;
      };
    })

abbrev pub invalid_message : Failure
invalid_message = record { code = "INVALID_WS_MESSAGE"; kind = session; reset_required = false }

abbrev pub window_expired : Failure
window_expired = record { code = "RESUME_WINDOW_EXPIRED"; kind = reset; reset_required = true }

abbrev pub realtime_unavailable : Failure
realtime_unavailable = record {
  code = "REALTIME_UNAVAILABLE";
  kind = internal;
  reset_required = false;
}
