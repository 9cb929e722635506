-- ===== src/Runtime/Rejoin.antt =====
-- Both ends of the socket: what realtime-runtime.service.ts replays is what realtime-transport.ts
-- waits for.
use text.Mathlib.TextPositions.{eq_refl}
use elder_interview_ai.Prelude.{
  ℕ, suc, ◌≤◌, ◌≡◌, refl, sym, ap, subst, ◌∙◌, ◌⊎◌, inl, inr, Bool-cases, true, false, List, [],
  ◌∷◌, Option, some, arith, ◌==◌, if◌then◌else◌, map, All, String,
}
use elder_interview_ai.Prelude.Int.{pos, succ, eqb_ℤ, eqb_ℤ_iff}
use elder_interview_ai.Realtime.Messages.{ServerEnvelope}
use elder_interview_ai.Realtime.Transport.{Transport}
use elder_interview_ai.Realtime.Incoming.{apply, continue_if, other_stream, on_server_message}
use elder_interview_ai.Realtime.Ordering.{
  Cursor, Outcome, foreign, repeated, failed, accepted, on_server_message-Outcome,
}
use elder_interview_ai.Realtime.Redelivery.{deliver_one_dead, deliver_one_alive, deliver}
use elder_interview_ai.Runtime.Session.{StoredEvent, SessionRuntime, replay_after}
use elder_interview_ai.Runtime.Window.{Numbered, IsOwn, IsWindow}
use elder_interview_ai.Runtime.Replay.{Answer, unknown, pruned, replayed, replay_after-Answer}

-- A client without its checks: a transport that is alive applies each message and moves on.
unfoldable pub apply_one : ServerEnvelope → Transport → Transport
apply_one m t = if t.terminal then t else continue_if m (apply m t)

unfoldable pub apply_all : List ServerEnvelope → Transport → Transport
apply_all [] t = t
apply_all (m ∷ ms) t = apply_all ms (apply_one m t)

abbrev pub envelopes : List StoredEvent → List ServerEnvelope
envelopes es = map (λ e. e.envelope) es

-- The transport belongs to the session, has joined the stream and waits for this number.
abbrev pub Awaits : (session stream : String) → ℕ → Transport → Type 0
Awaits session stream n t =
    (t.options.session_id ≡ session)
    × (t.event_stream_id ≡ some stream)
    × (succ t.highest_server_sequence ≡ pos n)

apply_one_dead : (m : ServerEnvelope) (t : Transport) → t.terminal ≡ true → apply_one m t ≡ t
unfolding apply_one
apply_one_dead m t dead = ground arith

apply_one_alive :
    (m : ServerEnvelope) (t : Transport)
    → t.terminal ≡ false
    → apply_one m t ≡ continue_if m (apply m t)
unfolding apply_one
apply_one_alive m t live = ground arith

apply_all_dead : (ms : List ServerEnvelope) (t : Transport) → t.terminal ≡ true → apply_all ms t ≡ t
unfolding apply_all
apply_all_dead [] t dead = refl
apply_all_dead (m ∷ ms) t dead =
    ap (apply_all ms) (apply_one_dead m t dead) ∙ apply_all_dead ms t dead

deliver_to_dead : (ms : List ServerEnvelope) (t : Transport) → t.terminal ≡ true → deliver ms t ≡ t
unfolding deliver
deliver_to_dead [] t dead = refl
deliver_to_dead (m ∷ ms) t dead =
    ap (deliver ms) (deliver_one_dead m t dead) ∙ deliver_to_dead ms t dead

-- A numbered list that starts at the awaited number is applied in full, and what is awaited then
-- is the number after it, unless the transport ends.
pub record Applied (session stream : String) (end : ℕ) (ms : List ServerEnvelope) (t : Transport)
    : Type 0 where
  pub in_full : deliver ms t ≡ apply_all ms t
  pub caught_up : ((deliver ms t).terminal ≡ true) ⊎ Awaits session stream end (deliver ms t)

dead-Applied :
    (session stream : String) (end : ℕ) (ms : List ServerEnvelope) (t : Transport)
    → t.terminal ≡ true
    → Applied session stream end ms t
dead-Applied session stream end ms t dead =
    let same = deliver_to_dead ms t dead in
    record {
      in_full = same ∙ sym (apply_all_dead ms t dead);
      caught_up = inl (ap (λ (w : Transport). w.terminal) same ∙ dead);
    }

module _ (clock : ℕ) (session stream : String) where
  -- The message that is waited for passes the checks.
  next_applied :
      (n : ℕ) (e : StoredEvent) (t : Transport)
      → IsOwn clock session stream e
      → e.envelope.server_sequence ≡ pos n
      → Awaits session stream n t
      → on_server_message (some e.envelope) t ≡ continue_if e.envelope (apply e.envelope t)
  unfolding on_server_message
  next_applied n e t o p (a, b, c) =
      let m : ServerEnvelope = e.envelope in
      let here : (m.session_id == t.options.session_id) ≡ true =
        rw (o.own_session, a) (eq_refl session) in
      let joined : other_stream t.event_stream_id m.event_stream_id ≡ false =
        rw (o.own_stream, b, eq_refl stream) in
      let due : eqb_ℤ m.server_sequence (succ t.highest_server_sequence) ≡ true =
        rw (p, c) ((eqb_ℤ_iff (pos n) (pos n)).1 refl) in
      rw (here, joined, due)

  next_awaited :
      (n : ℕ) (e : StoredEvent) (t u : Transport)
      → IsOwn clock session stream e
      → e.envelope.server_sequence ≡ pos n
      → Awaits session stream n t
      → Outcome e.envelope t u
      → (u.terminal ≡ true) ⊎ Awaits session stream (suc n) u
  next_awaited n e t u o p (a, b, c) (foreign f k) =
      absurd (ground (arith, eq_refl session, o.own_session))
  next_awaited n e t u o p (a, b, c) (repeated f l k) = absurd (ground arith)
  next_awaited n e t u o p (a, b, c) (failed f k) = inl f
  next_awaited n e t u o p (a, b, c) (accepted f k d) = inr (
    ap (λ (w : Cursor). w.0.session_id) d ∙ a,
    ap (λ (w : Cursor). w.1) d ∙ ap some o.own_stream,
    ap (λ (w : Cursor). succ w.2) d ∙ ap succ p,
  )

  -- The first message is applied and the rest follows.
  cons-Applied :
      (n end : ℕ) (e : StoredEvent) (ms : List ServerEnvelope) (t : Transport)
      → t.terminal ≡ false
      → IsOwn clock session stream e
      → e.envelope.server_sequence ≡ pos n
      → Awaits session stream n t
      → Applied session stream end ms (on_server_message (some e.envelope) t)
      → Applied session stream end (e.envelope ∷ ms) t
  unfolding deliver apply_all
  cons-Applied n end e ms t live o p a below =
      let m : ServerEnvelope = e.envelope in
      let read = deliver_one_alive m t live in
      record {
        in_full =
            ap (deliver ms) read
            ∙ (below.in_full
                ∙ ap (apply_all ms) (next_applied n e t o p a ∙ sym (apply_one_alive m t live)));
        caught_up =
            subst (λ u. ((deliver ms u).terminal ≡ true) ⊎ Awaits session stream end (deliver ms u))
              (sym read) below.caught_up;
      }

  pub numbered-Applied :
      (n end : ℕ) (es : List StoredEvent) (t : Transport)
      → All (IsOwn clock session stream) es
      → Numbered n es end
      → (t.terminal ≡ true) ⊎ Awaits session stream n t
      → Applied session stream end (envelopes es) t
  unfolding deliver apply_all
  numbered-Applied n end es t o h (inl dead) = dead-Applied session stream end (envelopes es) t dead
  numbered-Applied n end [] t o h (inr a) = record {
    in_full = refl;
    caught_up = inr (subst (λ k. Awaits session stream k t) h a);
  }
  numbered-Applied n end (e ∷ es) t o h (inr a) =
      let u = on_server_message (some e.envelope) t in
      let below =
        numbered-Applied (suc n) end es u o.1 h.1
          (next_awaited n e t u o.0 h.0 a (on_server_message-Outcome e.envelope t)) in
      elim (Bool-cases t.terminal) [
        | inl dead ↦ dead-Applied session stream end (envelopes (e ∷ es)) t dead
        | inr live ↦ cons-Applied n end e (envelopes es) t live o.0 h.0 a below
      ]

answer-Applied :
    (now sequence : ℕ) (r : SessionRuntime) (t : Transport) (es : List StoredEvent)
    (o : Option (List StoredEvent))
    → Answer now sequence r o
    → o ≡ some es
    → Awaits r.session_id r.event_stream_id (suc sequence) t
    → Applied r.session_id r.event_stream_id r.next_server_sequence (envelopes es) t
answer-Applied now sequence r t es o (unknown h) e a = cc
answer-Applied now sequence r t es o (pruned h m) e a = cc
answer-Applied now sequence r t es o (replayed fs h n own) e a =
    subst (λ gs. Applied r.session_id r.event_stream_id r.next_server_sequence (envelopes gs) t)
      (cc)
      (numbered-Applied now r.session_id r.event_stream_id (suc sequence) r.next_server_sequence fs
        t own n (inr a))

-- The server's replay is taken in full by a client of the session that has joined the stream and
-- comes back with its own cursor: no message is dropped or refused for its number. Unless one of
-- them ends the transport, the client then waits for the server's next number.
pub replay_after-Applied :
    (clock now sequence : ℕ) (r : SessionRuntime) (t : Transport) (es : List StoredEvent)
    → clock ≤ now
    → IsWindow clock r
    → (replay_after now sequence r).1 ≡ some es
    → Awaits r.session_id r.event_stream_id (suc sequence) t
    → Applied r.session_id r.event_stream_id r.next_server_sequence (envelopes es) t
replay_after-Applied clock now sequence r t es h w e a =
    answer-Applied now sequence r t es (replay_after now sequence r).1
      (replay_after-Answer clock now sequence r h w) e a
