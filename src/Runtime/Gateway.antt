-- ===== src/Runtime/Gateway.antt =====
-- The audio frames and acknowledgements of realtime.gateway.ts on one runtime: `frame` before and
-- after it waits for the provider, `audioAck`, `eventAck` and `fail`. A message that comes before a
-- connection has joined runs on that connection's own queue and a later one on the runtime's, so
-- that several frames can wait at once: here any frame may begin or end its wait at any time.
use elder_interview_ai.Prelude.{
  ℕ, zero, suc, ◌+◌, ◌-◌, Bool, true, false, ◌||◌, not, String, List, [], ◌∷◌, Option, none, some,
  ◌==◌, eqb, leb, ltb, if◌then◌else◌,
}
use elder_interview_ai.Prelude.Int.{pos, leb_ℤ}
use elder_interview_ai.Realtime.Messages.{ServerEnvelope, AudioFrame, audio_ack, asr_status, error}
use elder_interview_ai.Runtime.Session.{
  SessionRuntime, append, publish, release, frame_matches, record_frame, is_client,
  is_producer_lease_current, interrupted,
}
use elder_interview_ai.Runtime.Calls.{SessionCall, record_frame_call, perform}

abbrev pub frame_bytes : ℕ
frame_bytes = 3200

unfoldable pub audio_ack_event : (now : ℕ) → SessionRuntime → SessionRuntime × ServerEnvelope
audio_ack_event now r = append now (audio_ack r.audio_stream_id r.highest_audio_sequence_acked) r

-- A connection, and whether its socket is open at this time.
pub record Client : Type 0 where
  pub number : ℕ
  pub is_open : Bool

-- `fail` of a connection that has a runtime.
unfoldable pub fail :
    (now : ℕ) → Client → (code : String) (reset_required : Bool) → SessionRuntime → SessionRuntime
fail now client code reset r =
    if client.is_open then release now client.number (append now (error code reset) r).0 else r

-- `eventAck`; `none` is the error INVALID_WS_MESSAGE.
unfoldable pub event_ack : (sequence : ℕ) → SessionRuntime → Option SessionRuntime
event_ack sequence r =
    if not (leb_ℤ r.highest_event_sequence_acked (pos sequence))
      || leb r.next_server_sequence sequence
    then none
    else some (record r { highest_event_sequence_acked = pos sequence })

-- A frame that waits for the provider, with the lease it came under.
pub record InFlight : Type 0 where
  pub client : ℕ
  pub lease : ℕ
  pub frame : AudioFrame

abbrev pub answered : SessionRuntime → SessionRuntime × Option InFlight
answered r = (r, none)

-- The branches of `frame` once `frameMatches` has answered.
unfoldable pub begin_new :
    (now : ℕ) → Client → AudioFrame → SessionRuntime → SessionRuntime × Option InFlight
begin_new now client frame r =
    if not (eqb frame.sequence_no r.next_audio_sequence)
    then answered (fail now client "AUDIO_FRAME_GAP" false r)
    else if leb 20 r.pending_frames || ltb 64000 (r.pending_bytes + frame_bytes)
    then answered (fail now client "BACKPRESSURE_LIMIT" false r)
    else (
      record r {
        pending_frames = r.pending_frames + 1;
        pending_bytes = r.pending_bytes + frame_bytes;
      },
      some (record { client = client.number; lease = r.producer_lease; frame = frame }),
    )

abbrev pub begin_matched :
    (now : ℕ)
    → Client
    → Option Bool
    → AudioFrame
    → SessionRuntime
    → SessionRuntime × Option InFlight
begin_matched now client (some true) frame r = answered (audio_ack_event now r).0
begin_matched now client (some false) frame r =
    answered (fail now client "AUDIO_FRAME_CONFLICT" false r)
begin_matched now client none frame r = begin_new now client frame r

-- `frame`, after `assertFrame`, up to the wait.
unfoldable pub begin_frame :
    (now : ℕ) → Client → AudioFrame → SessionRuntime → SessionRuntime × Option InFlight
begin_frame now client frame r =
    if not (is_client r.producer client.number) || not (frame.audio_stream_id == r.audio_stream_id)
    then answered (fail now client "SESSION_STREAM_ALREADY_ACTIVE" false r)
    else begin_matched now client (frame_matches r frame) frame r

-- How the wait for `acceptAndPersist` ends.
pub data Acceptance : Type 0 where
  persisted asr_failed failed : Acceptance

abbrev pub settled : SessionRuntime → SessionRuntime
settled r = record r {
  pending_frames = r.pending_frames - 1;
  pending_bytes = r.pending_bytes - frame_bytes;
}

-- The `try` and its `catch`; what is thrown on is `fail`, later.
unfoldable pub accept_frame :
    (delivers : ℕ → Bool) (now : ℕ) → Acceptance → InFlight → SessionRuntime → SessionRuntime
accept_frame delivers now persisted w r =
    if is_producer_lease_current r w.client w.lease
    then (audio_ack_event now (record_frame now w.frame r)).0
    else r
accept_frame delivers now asr_failed w r =
    (publish delivers now (asr_status (some "ASR_UNAVAILABLE") "unavailable") r).0
accept_frame delivers now failed w r = r

-- The rest of `frame`, with its `finally`.
unfoldable pub finish_frame :
    (delivers : ℕ → Bool) (now : ℕ) → Acceptance → InFlight → SessionRuntime → SessionRuntime
finish_frame delivers now outcome w r = settled (accept_frame delivers now outcome w r)

-- A runtime and the frames that wait, the last one first.
pub record Line : Type 0 where
  pub runtime : SessionRuntime
  pub waiting : List InFlight

-- What happens to a runtime. `other` is any call but `recordFrame`, which only `frame` makes.
pub data Event : Type 0 where
  frame_begins : Client → AudioFrame → Event
  frame_ends : (at : ℕ) (delivers : ℕ → Bool) → Acceptance → Event
  failed_connection : Client → (code : String) (reset_required : Bool) → Event
  acknowledged : (sequence : ℕ) → Event
  interruption : Event
  other : SessionCall → Event

abbrev pub joined : Option InFlight → List InFlight → List InFlight
joined none ws = ws
joined (some w) ws = w ∷ ws

abbrev pub behind : InFlight → Option (InFlight × List InFlight) → Option (InFlight × List InFlight)
behind v none = none
behind v (some (w, ws)) = some (w, v ∷ ws)

-- The frame at a place among those that wait, and the others.
unfoldable pub taken : ℕ → List InFlight → Option (InFlight × List InFlight)
taken n [] = none
taken zero (w ∷ ws) = some (w, ws)
taken (suc n) (w ∷ ws) = behind w (taken n ws)

abbrev pub or_same : Option SessionRuntime → SessionRuntime → SessionRuntime
or_same none r = r
or_same (some q) r = q

abbrev pub is_record_frame : SessionCall → Bool
is_record_frame (record_frame_call frame) = true
is_record_frame _ = false

abbrev pub end_frame :
    (delivers : ℕ → Bool) → (now : ℕ) → Acceptance → Line → Option (InFlight × List InFlight) → Line
end_frame delivers now outcome l none = l
end_frame delivers now outcome l (some (w, ws)) = record {
  runtime = finish_frame delivers now outcome w l.runtime;
  waiting = ws;
}

-- None ends unless it waits.
unfoldable pub step : (now : ℕ) → Event → Line → Line
step now (frame_begins client frame) l =
    let (r, w) = begin_frame now client frame l.runtime in
    record { runtime = r; waiting = joined w l.waiting }
step now (frame_ends at delivers outcome) l = end_frame delivers now outcome l (taken at l.waiting)
step now (failed_connection client code reset) l = record l {
  runtime = fail now client code reset l.runtime;
}
step now (acknowledged sequence) l = record l {
  runtime = or_same (event_ack sequence l.runtime) l.runtime;
}
step now interruption l = record l { runtime = interrupted now l.runtime }
step now (other c) l = record l {
  runtime = if is_record_frame c then l.runtime else perform now c l.runtime;
}

unfoldable pub run : List (ℕ × Event) → Line → Line
run [] l = l
run ((now, e) ∷ es) l = run es (step now e l)
