-- ===== src/Realtime/Machine.antt =====
-- The transport of realtime-transport.ts run by a sequence of events: calls of its methods, what
-- the browser delivers, and the digests for which calls of `sendPcmFrame` wait, in any order.
use elder_interview_ai.Prelude.{ℕ, zero, suc, String, List, [], ◌∷◌, ◌++◌, Option, none, some}
use elder_interview_ai.Realtime.Messages.{ServerEnvelope}
use elder_interview_ai.Realtime.Transport.{Transport}
use elder_interview_ai.Realtime.Lifecycle.{
  connect, on_open, on_message, on_close, on_reconnect_timer, on_heartbeat_timer, disconnect,
  simulate_connection_drop, SendStart, range_error, refused, digesting, send_start, send_finish,
}

-- A call of `sendPcmFrame` that waits for its digest.
pub record Flight : Type 0 where
  pub sequence : ℕ
  pub pcm : List ℕ

pub record System : Type 0 where
  pub transport : Transport
  pub flights : List Flight

pub data Event : Type 0 where
  connects : Event
  opened : (socket : ℕ) → Event
  received : (socket : ℕ) → Option ServerEnvelope → Event
  closed : (socket code : ℕ) (reason : String) → Event
  reconnect_due : Event
  heartbeat_due : Event
  disconnects : Event
  drops : Event
  sends : (pcm : List ℕ) → Event
  digested : (flight : ℕ) (digest : String) → Event

-- Takes the flight at a position out of the list.
unfoldable pub take_out : ℕ → List Flight → Option (Flight × List Flight)
take_out i [] = none
take_out zero (f ∷ fs) = some (f, fs)
take_out (suc i) (f ∷ fs) = elim (take_out i fs) [ none ↦ none | some (g, gs) ↦ some (g, f ∷ gs) ]

abbrev pub takes_off : List ℕ → SendStart → System → System
takes_off pcm range_error s = s
takes_off pcm refused s = s
takes_off pcm (digesting sequence) s = record s {
  flights = s.flights ++ record { sequence = sequence; pcm = pcm } ∷ [];
}

abbrev pub lands : String → Option (Flight × List Flight) → System → System
lands digest none s = s
lands digest (some (f, fs)) s = record {
  transport = (send_finish f.sequence f.pcm digest s.transport).0;
  flights = fs;
}

abbrev pub on : (Transport → Transport) → System → System
on f s = record s { transport = f s.transport }

unfoldable pub step : System → Event → System
unfolding take_out
step s connects = on connect s
step s (opened id) = on (on_open id) s
step s (received id raw) = on (on_message id raw) s
step s (closed id code reason) = on (on_close id code reason) s
step s reconnect_due = on on_reconnect_timer s
step s heartbeat_due = on on_heartbeat_timer s
step s disconnects = on disconnect s
step s drops = on simulate_connection_drop s
step s (sends pcm) = takes_off pcm (send_start pcm s.transport) s
step s (digested i digest) = lands digest (take_out i s.flights) s

unfoldable pub run : System → List Event → System
run s [] = s
run s (e ∷ es) = run (step s e) es
