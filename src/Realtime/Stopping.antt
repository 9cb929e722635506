-- ===== src/Realtime/Stopping.antt =====
-- The end of a transport (realtime-transport.ts): what a failed or disposed one still does, and how
-- long it goes on reconnecting.
use elder_interview_ai.Prelude.{
  ℕ, zero, suc, ◌+◌, ◌<◌, ◌≡◌, refl, ◌∙◌, ap, true, false, ◌||◌, String, List, [], ◌∷◌, Option,
  none, some, arith, length, get_elem?, is_some,
}
use elder_interview_ai.Realtime.Messages.{ServerEnvelope, classify_close}
use elder_interview_ai.Realtime.Transport.{Transport, Options, send, terminal_failure}
use elder_interview_ai.Realtime.Lifecycle.{
  connect, on_open, on_message, on_close, after_close, schedule_reconnect, on_reconnect_timer,
  on_heartbeat_timer, disconnect, simulate_connection_drop, SendStart, range_error, refused,
  digesting, send_finish,
}
use elder_interview_ai.Realtime.Machine.{
  Flight, System, Event, connects, opened, received, closed, reconnect_due, heartbeat_due,
  disconnects, drops, sends, digested, take_out, takes_off, lands, step, run,
}

-- Failed for good, or disposed; then no socket is held.
abbrev pub IsOver : Transport → Type 0
IsOver t = ((t.disposed || t.terminal) ≡ true) × (t.socket ≡ none)

-- What an observer of the page can tell: what was handed to sockets and timers, the transcript,
-- the buffer and the numbering.
pub record Same (t u : Transport) : Type 0 where
  pub emitted : u.emitted ≡ t.emitted
  pub finals : u.finals ≡ t.finals
  pub pending : u.pending ≡ t.pending
  pub next : u.next_audio_sequence ≡ t.next_audio_sequence
  pub over : IsOver u

module _ {t : Transport} (o : IsOver t) where
  Same-refl : Same t t
  Same-refl = ground arith

  connect-Same : Same t (connect t)
  unfolding connect
  connect-Same = ground arith

  on_open-Same : (id : ℕ) → Same t (on_open id t)
  unfolding on_open
  on_open-Same id = ground arith

  on_close-Same : (id code : ℕ) (reason : String) → Same t (on_close id code reason t)
  unfolding on_close
  on_close-Same id code reason = ground arith

  on_reconnect_timer-Same : Same t (on_reconnect_timer t)
  unfolding on_reconnect_timer connect
  on_reconnect_timer-Same = ground arith

  on_heartbeat_timer-Same : Same t (on_heartbeat_timer t)
  unfolding on_heartbeat_timer send
  on_heartbeat_timer-Same = ground arith

  disconnect-Same : Same t (disconnect t)
  unfolding disconnect
  disconnect-Same = ground arith

  drop-Same : Same t (simulate_connection_drop t)
  unfolding simulate_connection_drop
  drop-Same = ground arith

  send_finish-Same :
      (sequence : ℕ) (pcm : List ℕ) (digest : String) → Same t (send_finish sequence pcm digest t).0
  unfolding send_finish
  send_finish-Same sequence pcm digest = ground arith

  lands-Same :
      (digest : String) (r : Option (Flight × List Flight)) (fs : List Flight)
      → Same t (lands digest r (record { transport = t; flights = fs })).transport
  lands-Same digest none fs = Same-refl
  lands-Same digest (some (f, gs)) fs = send_finish-Same f.sequence f.pcm digest

  takes_off-Same :
      (pcm : List ℕ) (r : SendStart) (fs : List Flight)
      → Same t (takes_off pcm r (record { transport = t; flights = fs })).transport
  takes_off-Same pcm range_error fs = Same-refl
  takes_off-Same pcm refused fs = Same-refl
  takes_off-Same pcm (digesting k) fs = Same-refl

on_message-Same :
    (id : ℕ) (raw : Option ServerEnvelope) {t : Transport} → IsOver t → Same t (on_message id raw t)
unfolding on_message
on_message-Same id raw o = ground arith

step-Same : (e : Event) (s : System) → IsOver s.transport → Same s.transport (step s e).transport
unfolding step
step-Same connects s o = connect-Same o
step-Same (opened id) s o = on_open-Same o id
step-Same (received id raw) s o = on_message-Same id raw o
step-Same (closed id code reason) s o = on_close-Same o id code reason
step-Same reconnect_due s o = on_reconnect_timer-Same o
step-Same heartbeat_due s o = on_heartbeat_timer-Same o
step-Same disconnects s o = disconnect-Same o
step-Same drops s o = drop-Same o
step-Same (sends pcm) s o = takes_off-Same o pcm _ s.flights
step-Same (digested i digest) s o = lands-Same o digest (take_out i s.flights) s.flights

Same-trans : {t u w : Transport} → Same t u → Same u w → Same t w
Same-trans p q = ground arith

-- A transport that has failed for good or was disposed is silent for ever: whatever is called or
-- delivered later, digests that come late included, it opens no socket, sends nothing, sets no
-- timer, and neither its transcript nor its frame buffer changes.
pub run-Same :
    (es : List Event) (s : System) → IsOver s.transport → Same s.transport (run s es).transport
unfolding run
run-Same [] s o = Same-refl o
run-Same (e ∷ es) s o =
    let here = step-Same e s o in Same-trans here (run-Same es (step s e) here.over)

-- The socket in use is lost without a reason (code 1006).
unfoldable pub lose : Transport → Transport
lose t = elim t.socket [ none ↦ t | some s ↦ on_close s.id 1006 "" t ]

-- It is lost, and the reconnect timer fires.
unfoldable pub lose_and_retry : Transport → Transport
lose_and_retry t = on_reconnect_timer (lose t)

unfoldable pub retries : ℕ → Transport → Transport
retries zero t = t
retries (suc k) t = retries k (lose_and_retry t)

-- The transport holds a socket, and has not failed.
pub record IsLive (t : Transport) : Type 0 where
  pub held : is_some t.socket ≡ true
  pub running : (t.disposed || t.terminal) ≡ false
  pub healthy : (t.state.reset_required || is_some t.state.failure_kind) ≡ false

get_elem?-below : (xs : List ℕ) (i : ℕ) → i < length xs → (d : ℕ) × (get_elem? xs i ≡ some d)
get_elem?-below [] i h = absurd (omega arith)
get_elem?-below (x ∷ xs) zero h = (x, refl)
get_elem?-below (x ∷ xs) (suc i) h = get_elem?-below xs i (omega arith)

get_elem?-end : (xs : List ℕ) → get_elem? xs (length xs) ≡ none
get_elem?-end [] = refl
get_elem?-end (x ∷ xs) = get_elem?-end xs

-- After a loss within the delays the transport holds a new socket and has used one attempt more.
pub record Retried (t u : Transport) : Type 0 where
  pub live : IsLive u
  pub attempt : u.reconnect_attempt ≡ suc t.reconnect_attempt
  pub options : u.options ≡ t.options
  pub sockets : u.next_socket ≡ suc t.next_socket

lose_and_retry-Retried :
    (t : Transport)
    → IsLive t
    → t.reconnect_attempt < length t.options.reconnect_delays
    → Retried t (lose_and_retry t)
unfolding lose_and_retry lose on_close after_close classify_close schedule_reconnect
    on_reconnect_timer connect
lose_and_retry-Retried t v h =
    let (d, e) = get_elem?-below t.options.reconnect_delays t.reconnect_attempt h in ground arith

retries-IsLive :
    (k : ℕ) (t : Transport)
    → IsLive t
    → t.reconnect_attempt + k ≡ length t.options.reconnect_delays
    → IsLive (retries k t)
      × ((retries k t).reconnect_attempt ≡ length (retries k t).options.reconnect_delays)
      × ((retries k t).next_socket ≡ t.next_socket + k)
unfolding retries
retries-IsLive zero t v h = (v, omega arith, omega arith)
retries-IsLive (suc k) t v h =
    let r = lose_and_retry-Retried t v (omega arith) in
    let (live, attempt, sockets) =
      retries-IsLive k (lose_and_retry t) r.live
        (rw (r.attempt, ap (λ (o : Options). length o.reconnect_delays) r.options) (omega arith)) in
    (live, attempt, omega (arith, r.sockets))

lose_exhausted :
    (t : Transport)
    → IsLive t
    → t.reconnect_attempt ≡ length t.options.reconnect_delays
    → ((lose t).terminal ≡ true)
      × ((lose t).state.error_code ≡ some "REALTIME_UNAVAILABLE")
      × ((lose t).next_socket ≡ t.next_socket)
unfolding lose on_close after_close classify_close schedule_reconnect terminal_failure
lose_exhausted t v h =
    let e =
      ap (get_elem? t.options.reconnect_delays) h ∙ get_elem?-end t.options.reconnect_delays in
    ground arith

-- A connection that is lost again and again, without ever being ready in between, is given up: with
-- `k` delays left, `k` more sockets are opened, and the next loss ends the transport with the code
-- REALTIME_UNAVAILABLE.
pub retries-exhausted :
    (k : ℕ) (t : Transport)
    → IsLive t
    → t.reconnect_attempt + k ≡ length t.options.reconnect_delays
    → ((lose (retries k t)).terminal ≡ true)
      × ((lose (retries k t)).state.error_code ≡ some "REALTIME_UNAVAILABLE")
      × ((lose (retries k t)).next_socket ≡ t.next_socket + k)
retries-exhausted k t v h =
    let (live, attempt, sockets) = retries-IsLive k t v h in
    let (dead, code, same) = lose_exhausted (retries k t) live attempt in
    (dead, code, same ∙ sockets)
