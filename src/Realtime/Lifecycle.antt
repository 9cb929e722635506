-- ===== src/Realtime/Lifecycle.antt =====
-- The rest of the class: the connection's life, the frames that the capture sends, and the machine
-- that runs the class against a browser which may deliver its events in any order.
use elder_interview_ai.Prelude.{
  ℕ, suc, ◌+◌, ◌*◌, Bool, true, false, ◌&&◌, ◌||◌, not, String, List, Option, none, some, eqb, leb,
  if◌then◌else◌, length, get_elem?, is_none, is_some,
}
use elder_interview_ai.Prelude.Int.{ℤ}
use elder_interview_ai.Realtime.Messages.{
  closed, connecting, reconnecting, Failure, ServerEnvelope, AudioFrame, session_join, audio_frame,
  heartbeat, classify_close,
}
use elder_interview_ai.Realtime.Buffer.{set_frame}
use elder_interview_ai.Realtime.Transport.{
  Transport, Socket, created, sent, closes, timer_set, max_pending_frames, max_pending_bytes,
  pcm_frame_bytes, pcm_frame_duration_ms, emit, send, update_pending, terminal_failure,
  realtime_unavailable,
}
use elder_interview_ai.Realtime.Incoming.{on_server_message}

-- `connect` up to the registration of the listeners, which are the `on_` functions below.
unfoldable pub connect : Transport → Transport
connect t =
    if t.disposed || t.terminal || is_some t.socket
    then t
    else emit (created t.next_socket) (record t {
      state = record (t.state) {
        connection = if eqb t.reconnect_attempt 0 then connecting else reconnecting;
      };
      socket = some (record { id = t.next_socket; is_open = false });
      next_socket = suc t.next_socket;
    })

abbrev pub is_current : ℕ → Option Socket → Bool
is_current id none = false
is_current id (some s) = eqb s.id id

abbrev pub join_resume : Transport → Option (String × ℤ)
join_resume t = elim t.event_stream_id [
  | none ↦ none
  | some stream ↦ some (stream, t.highest_server_sequence)
]

-- The platform has opened the socket, and calls the `open` listener.
unfoldable pub on_open : ℕ → Transport → Transport
on_open id t =
    if not (is_current id t.socket) || t.disposed || t.terminal
    then t
    else emit
        (sent id (session_join t.options.audio_stream_id t.options.csrf_token (join_resume t)))
        (record t { socket = some (record { id = id; is_open = true }); heartbeat_timer = true })

unfoldable pub on_message : ℕ → Option ServerEnvelope → Transport → Transport
on_message id raw t =
    if not (is_current id t.socket) || t.disposed || t.terminal then t else on_server_message raw t

unfoldable pub schedule_reconnect : Transport → Transport
schedule_reconnect t =
    if t.terminal then t else elim (get_elem? t.options.reconnect_delays t.reconnect_attempt) [
      | none ↦ terminal_failure realtime_unavailable t
      | some delay ↦ emit (timer_set delay) (record t {
        reconnect_attempt = suc t.reconnect_attempt;
        state = record (t.state) { connection = reconnecting };
        reconnect_timer = true;
      })
    ]

-- The end of the `close` listener, when the close code tells of no failure.
unfoldable pub after_close : ℕ → Transport → Transport
after_close code t =
    if eqb code 1000
    then record t { state = record (t.state) { connection = closed } }
    else if not t.state.reset_required && is_none t.state.failure_kind
    then schedule_reconnect t
    else t

abbrev pub close_with : ℕ → Option Failure → Transport → Transport
close_with code none t = after_close code t
close_with code (some f) t = terminal_failure f t

unfoldable pub on_close : ℕ → ℕ → String → Transport → Transport
on_close id code reason t =
    if not (is_current id t.socket)
    then t
    else let t1 = record t { socket = none; heartbeat_timer = false } in
      if t.disposed || t.terminal then t1 else close_with code (classify_close code reason) t1

-- The reconnect timer fires.
unfoldable pub on_reconnect_timer : Transport → Transport
on_reconnect_timer t =
    if t.reconnect_timer then connect (record t { reconnect_timer = false }) else t

-- The heartbeat timer fires.
unfoldable pub on_heartbeat_timer : Transport → Transport
on_heartbeat_timer t = if t.heartbeat_timer then send heartbeat t else t

abbrev pub close_socket : Option Socket → ℕ → Transport → Transport
close_socket none code t = t
close_socket (some s) code t = emit (closes s.id code) t

unfoldable pub disconnect : Transport → Transport
disconnect t = close_socket t.socket 1000 (record t {
  disposed = true;
  heartbeat_timer = false;
  reconnect_timer = false;
  socket = none;
  state = record (t.state) { connection = closed };
})

-- `simulateConnectionDropForHarness`: the socket is closing, and its `close` event is to come.
unfoldable pub simulate_connection_drop : Transport → Transport
simulate_connection_drop t = if t.disposed then t else elim t.socket [
  | none ↦ t
  | some s ↦
      emit (closes s.id 4001) (record t { socket = some (record { id = s.id; is_open = false }) })
]

abbrev pub cannot_send_frames : Transport → Bool
cannot_send_frames t = t.disposed || t.terminal

-- The first part of `sendPcmFrame`, up to the wait for the digest.
pub data SendStart : Type 0 where
  range_error : SendStart
  refused : SendStart
  digesting : (sequence : ℕ) → SendStart

unfoldable pub send_start : List ℕ → Transport → SendStart
send_start pcm t =
    if not (eqb (length pcm) pcm_frame_bytes)
    then range_error
    else if cannot_send_frames t
        || leb max_pending_frames (length t.pending)
        || leb max_pending_bytes (length t.pending * pcm_frame_bytes)
    then refused
    else digesting t.next_audio_sequence

abbrev pub frame_of : Transport → ℕ → List ℕ → String → AudioFrame
frame_of t sequence pcm digest = record {
  audio_stream_id = t.options.audio_stream_id;
  end_ms = sequence * pcm_frame_duration_ms + pcm_frame_duration_ms;
  pcm_base64 = t.options.to_base64 pcm;
  pcm_sha256 = digest;
  sequence_no = sequence;
  start_ms = sequence * pcm_frame_duration_ms;
}

-- The rest of `sendPcmFrame`, with the sequence number that the first part read; the flag is the
-- result of the call.
unfoldable pub send_finish : ℕ → List ℕ → String → Transport → Transport × Bool
send_finish sequence pcm digest t =
    if cannot_send_frames t || leb max_pending_frames (length t.pending)
    then (t, false)
    else let payload = frame_of t sequence pcm digest in
      let t1 = record t {
        next_audio_sequence = suc t.next_audio_sequence;
        pending =
            set_frame (record { sequence = sequence; payload = payload; raw_bytes = length pcm })
              t.pending;
      } in
      (update_pending (send (audio_frame payload) t1), true)
