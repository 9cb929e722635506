-- ===== src/Realtime/Invariant.antt =====
-- Every run of the transport's machine (realtime-transport.ts) keeps the invariant.
use elder_interview_ai.Prelude.{
  ℕ, zero, suc, ◌≤◌, ◌≡◌, refl, ◌⊎◌, false, ◌||◌, not, String, List, [], ◌∷◌, Option, none, some,
  arith, inl, inr, length, get_elem?, All, All-append, if_elim,
}
use elder_interview_ai.Realtime.Messages.{ServerEnvelope, Failure, classify_close}
use elder_interview_ai.Realtime.Buffer.{PendingFrame}
use elder_interview_ai.Realtime.Transport.{
  Transport, Options, initial, send, update_pending, realtime_unavailable,
}
use elder_interview_ai.Realtime.Lifecycle.{
  connect, on_open, on_message, on_close, close_with, after_close, schedule_reconnect,
  on_reconnect_timer, on_heartbeat_timer, disconnect, simulate_connection_drop, SendStart,
  range_error, refused, digesting, send_start, send_finish, frame_of, is_current,
}
use elder_interview_ai.Realtime.Machine.{
  Flight, System, Event, connects, opened, received, closed, reconnect_due, heartbeat_due,
  disconnects, drops, sends, digested, take_out, takes_off, step, run,
}
use elder_interview_ai.Realtime.Soundness.{
  IsSound, IsBuffer-mono, IsBuffer-set_frame, length-set_frame-le, initial-IsSound,
  terminal_failure-IsSound, total_bytes-IsBuffer, on_server_message-IsSound,
}

get_elem?-cases : (xs : List ℕ) (i : ℕ) → (get_elem? xs i ≡ none) ⊎ (suc i ≤ length xs)
get_elem?-cases [] i = inl refl
get_elem?-cases (x ∷ xs) zero = inr (omega arith)
get_elem?-cases (x ∷ xs) (suc i) = ground (arith, get_elem?-cases xs i)

module _ {n : ℕ} {t : Transport} (v : IsSound n t) where
  connect-IsSound : IsSound n (connect t)
  unfolding connect
  connect-IsSound = ground arith

  on_open-IsSound : (id : ℕ) → IsSound n (on_open id t)
  unfolding on_open
  on_open-IsSound id = ground arith

  on_message-IsSound : (id : ℕ) (raw : Option ServerEnvelope) → IsSound n (on_message id raw t)
  unfolding on_message
  on_message-IsSound id raw =
      if_elim (IsSound n) (not (is_current id t.socket) || t.disposed || t.terminal) v
        (on_server_message-IsSound raw v)

  schedule_reconnect-IsSound : IsSound n (schedule_reconnect t)
  unfolding schedule_reconnect
  schedule_reconnect-IsSound = ground (
    arith,
    terminal_failure-IsSound v realtime_unavailable,
    get_elem?-cases t.options.reconnect_delays t.reconnect_attempt,
  )

  after_close-IsSound : (code : ℕ) → IsSound n (after_close code t)
  unfolding after_close
  after_close-IsSound code = ground (arith, schedule_reconnect-IsSound)

  on_reconnect_timer-IsSound : IsSound n (on_reconnect_timer t)
  unfolding on_reconnect_timer connect
  on_reconnect_timer-IsSound = ground arith

  on_heartbeat_timer-IsSound : IsSound n (on_heartbeat_timer t)
  unfolding on_heartbeat_timer send
  on_heartbeat_timer-IsSound = ground arith

  disconnect-IsSound : IsSound n (disconnect t)
  unfolding disconnect
  disconnect-IsSound = ground arith

  simulate_connection_drop-IsSound : IsSound n (simulate_connection_drop t)
  unfolding simulate_connection_drop
  simulate_connection_drop-IsSound = ground arith

close_with-IsSound :
    (code : ℕ) (f : Option Failure) {n : ℕ} {t : Transport}
    → IsSound n t
    → IsSound n (close_with code f t)
close_with-IsSound code none v = after_close-IsSound v code
close_with-IsSound code (some f) v = terminal_failure-IsSound v f

on_close-IsSound :
    (id code : ℕ) (reason : String) {n : ℕ} {t : Transport}
    → IsSound n t
    → IsSound n (on_close id code reason t)
unfolding on_close
on_close-IsSound id code reason {n} {t} v =
    let left : IsSound n (record t { socket = none; heartbeat_timer = false }) = ground arith in
    if_elim (IsSound n) (not (is_current id t.socket)) v (
      if_elim (IsSound n) (t.disposed || t.terminal) left
        (close_with-IsSound code (classify_close code reason) left))

send_finish-IsSound :
    (sequence : ℕ) (pcm : List ℕ) (digest : String) {n : ℕ} {t : Transport}
    → IsSound n t
    → sequence ≤ t.next_audio_sequence
    → length pcm ≡ 3200
    → IsSound n (send_finish sequence pcm digest t).0
unfolding send_finish send update_pending
send_finish-IsSound sequence pcm digest {n} {t} v h k =
    let f : PendingFrame = record {
      sequence = sequence;
      payload = frame_of t sequence pcm digest;
      raw_bytes = length pcm;
    } in
    let b =
      IsBuffer-set_frame (suc t.next_audio_sequence) f t.pending (refl, omega arith, k)
        (IsBuffer-mono t.next_audio_sequence _ t.pending (omega arith) v.buffer) in
    ground (arith, b, total_bytes-IsBuffer _ _ b, length-set_frame-le f t.pending)

-- The calls that wait hold a whole frame and a sequence number that was free when they began.
abbrev FlightFits : ℕ → Flight → Type 0
FlightFits next f = (f.sequence ≤ next) × (length f.pcm ≡ 3200)

pub record IsSoundSystem (s : System) : Type 0 where
  pub transport : IsSound 0 s.transport
  pub flights : All (FlightFits s.transport.next_audio_sequence) s.flights

FlightFits-mono :
    (m n : ℕ) (fs : List Flight) → m ≤ n → All (FlightFits m) fs → All (FlightFits n) fs
FlightFits-mono m n [] h a = tt
FlightFits-mono m n (f ∷ fs) h ((p, q), a) = ((omega arith, q), FlightFits-mono m n fs h a)

IsSound-weaken : {n : ℕ} {t : Transport} → IsSound n t → IsSound 0 t
IsSound-weaken v = ground arith

-- An operation that keeps the invariant at every floor keeps that of the machine.
moves-IsSoundSystem :
    (s : System) (t : Transport) (fs : List Flight)
    → All (FlightFits s.transport.next_audio_sequence) fs
    → IsSound s.transport.next_audio_sequence t
    → IsSoundSystem (record { transport = t; flights = fs })
moves-IsSoundSystem s t fs a w = record {
  transport = IsSound-weaken w;
  flights = FlightFits-mono s.transport.next_audio_sequence _ fs w.floor a;
}

own_floor : {t : Transport} → IsSound 0 t → IsSound t.next_audio_sequence t
own_floor v = ground arith

take_out-All :
    (P : Flight → Type 0) (i : ℕ) (fs : List Flight)
    → All P fs
    → (take_out i fs ≡ none)
      ⊎ ((f : Flight) × (gs : List Flight) × (take_out i fs ≡ some (f, gs)) × P f × All P gs)
unfolding take_out
take_out-All P i [] a = inl refl
take_out-All P zero (f ∷ fs) a = inr (f, fs, refl, a.0, a.1)
take_out-All P (suc i) (f ∷ fs) a = elim (take_out-All P i fs a.1) [
  | inl e ↦ inl (rw e)
  | inr (g, gs, e, p, q) ↦ inr (g, f ∷ gs, rw e, p, (a.0, q))
]

-- A call that begins reads the next sequence number, and holds a whole frame.
pub send_start_lem :
    (pcm : List ℕ) (t : Transport) (k : ℕ)
    → send_start pcm t ≡ digesting k
    → (k ≡ t.next_audio_sequence) × (length pcm ≡ 3200)
unfolding send_start
send_start_lem pcm t k e = ground arith

takes_off-IsSoundSystem :
    (pcm : List ℕ) (r : SendStart) {s : System}
    → IsSoundSystem s
    → send_start pcm s.transport ≡ r
    → IsSoundSystem (takes_off pcm r s)
takes_off-IsSoundSystem pcm range_error v e = v
takes_off-IsSoundSystem pcm refused v e = v
takes_off-IsSoundSystem pcm (digesting k) {s} v e =
    let (same, whole) = send_start_lem pcm s.transport k e in
    record {
      transport = v.transport;
      flights =
          All-append (FlightFits s.transport.next_audio_sequence) s.flights _ v.flights
            ((omega arith, whole), tt);
    }

digested-IsSoundSystem :
    (i : ℕ) (digest : String) {s : System}
    → IsSoundSystem s
    → IsSoundSystem (step s (digested i digest))
unfolding step
digested-IsSoundSystem i digest {s} v =
    elim (take_out-All (FlightFits s.transport.next_audio_sequence) i s.flights v.flights) [
      | inl e ↦ rw e v
      | inr (f, gs, e, p, q) ↦ rw e (
          moves-IsSoundSystem s _ gs q
            (send_finish-IsSound f.sequence f.pcm digest (own_floor v.transport) p.0 p.1))
    ]

step-IsSoundSystem : (e : Event) {s : System} → IsSoundSystem s → IsSoundSystem (step s e)
unfolding step
step-IsSoundSystem (sends pcm) v = takes_off-IsSoundSystem pcm _ v refl
step-IsSoundSystem (digested i digest) v = digested-IsSoundSystem i digest v
step-IsSoundSystem connects {s} v =
    moves-IsSoundSystem s _ _ v.flights (connect-IsSound (own_floor v.transport))
step-IsSoundSystem (opened id) {s} v =
    moves-IsSoundSystem s _ _ v.flights (on_open-IsSound (own_floor v.transport) id)
step-IsSoundSystem (received id raw) {s} v =
    moves-IsSoundSystem s _ _ v.flights (on_message-IsSound (own_floor v.transport) id raw)
step-IsSoundSystem (closed id code reason) {s} v =
    moves-IsSoundSystem s _ _ v.flights (on_close-IsSound id code reason (own_floor v.transport))
step-IsSoundSystem reconnect_due {s} v =
    moves-IsSoundSystem s _ _ v.flights (on_reconnect_timer-IsSound (own_floor v.transport))
step-IsSoundSystem heartbeat_due {s} v =
    moves-IsSoundSystem s _ _ v.flights (on_heartbeat_timer-IsSound (own_floor v.transport))
step-IsSoundSystem disconnects {s} v =
    moves-IsSoundSystem s _ _ v.flights (disconnect-IsSound (own_floor v.transport))
step-IsSoundSystem drops {s} v =
    moves-IsSoundSystem s _ _ v.flights (simulate_connection_drop-IsSound (own_floor v.transport))

run-IsSoundSystem : (es : List Event) {s : System} → IsSoundSystem s → IsSoundSystem (run s es)
unfolding run
run-IsSoundSystem [] v = v
run-IsSoundSystem (e ∷ es) v = run-IsSoundSystem es (step-IsSoundSystem e v)

-- Whatever the page and the browser do, and in whatever order calls of `sendPcmFrame` get their
-- digests: the buffer of a new transport never holds more than 20 frames or two frames of one
-- number, the counts and the transcript that listeners see are those of the buffer and of the map
-- of finals, no socket is held after `disconnect` or a terminal failure, a failure is shown exactly
-- when it is terminal, and no more reconnects are counted than there are delays.
pub run-initial-IsSound :
    (o : Options) (es : List Event)
    → IsSound 0 (run (record { transport = initial o; flights = [] }) es).transport
run-initial-IsSound o es =
    (run-IsSoundSystem es {s = record { transport = initial o; flights = [] }}
      (record { transport = initial-IsSound o; flights = tt })).transport
