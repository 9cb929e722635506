-- ===== src/Realtime/Redelivery.antt =====
-- What a server that replays its stream can do to the transport (`onServerMessage` and the
-- `message` listener of realtime-transport.ts).
use mathlib.Core.Bool.{false≢true}
use text.Mathlib.TextPositions.{eq_refl}
use elder_interview_ai.Prelude.{
  ◌≡◌, refl, sym, ap, subst, ◌∙◌, ◌⊎◌, inl, inr, Bool-cases, true, false, ◌&&◌, String, List, [],
  ◌∷◌, Option, none, some, arith, ◌==◌, eq_iff, All, is_none, if◌then◌else◌,
}
use elder_interview_ai.Prelude.Int.{
  ℤ, pos, succ, leb_ℤ, leb_ℤ_refl, leb_ℤ_trans, leb_ℤ-succ, ne-succ_of_le,
}
use elder_interview_ai.Realtime.Messages.{ServerEnvelope}
use elder_interview_ai.Realtime.Transport.{Transport, Options}
use elder_interview_ai.Realtime.Incoming.{other_stream, on_server_message}
use elder_interview_ai.Realtime.Ordering.{
  Cursor, cursor, Outcome, foreign, repeated, failed, accepted, on_server_message-Outcome,
}

-- The `message` listener of the current socket: a failed transport reads no more.
unfoldable pub deliver_one : ServerEnvelope → Transport → Transport
deliver_one m t = if t.terminal then t else on_server_message (some m) t

unfoldable pub deliver : List ServerEnvelope → Transport → Transport
deliver [] t = t
deliver (m ∷ ms) t = deliver ms (deliver_one m t)

-- The message is of another session, or of this stream and not after the cursor.
abbrev Seen : ServerEnvelope → Cursor → Type 0
Seen m (options, stream, highest) =
    ((m.session_id == options.session_id) ≡ false)
    ⊎ ((stream ≡ some m.event_stream_id) × (leb_ℤ m.server_sequence highest ≡ true))

-- Without a stream nothing has been accepted.
abbrev pub IsJoined : Transport → Type 0
IsJoined t = (is_none t.event_stream_id && leb_ℤ (pos 0) t.highest_server_sequence) ≡ false

abbrev pub IsNumbered : ServerEnvelope → Type 0
IsNumbered m = leb_ℤ (pos 0) m.server_sequence ≡ true

same_stream :
    (stream : Option String) (h : ℤ) (m : ServerEnvelope)
    → (is_none stream && leb_ℤ (pos 0) h) ≡ false
    → IsNumbered m
    → other_stream stream m.event_stream_id ≡ false
    → leb_ℤ m.server_sequence h ≡ true
    → stream ≡ some m.event_stream_id
same_stream none h m j n o k = ground (arith, leb_ℤ_trans (pos 0) m.server_sequence h n k)
same_stream (some s) h m j n o k = ground (arith, eq_iff m.event_stream_id s)

ignored-Seen :
    (m : ServerEnvelope) (t : Transport)
    → t.terminal ≡ false
    → Seen m (cursor t)
    → deliver_one m t ≡ t
unfolding deliver_one on_server_message
ignored-Seen m t live (inl e) = rw (live, e)
ignored-Seen m t live (inr (e, k)) =
    ground (
      arith,
      eq_refl m.event_stream_id,
      ne-succ_of_le m.server_sequence t.highest_server_sequence k,
    )

-- A delivery that leaves the transport alive: it was alive before, the message is seen, and what
-- was seen stays seen.
pub record Progress (m : ServerEnvelope) (t u : Transport) : Type 0 where
  pub alive : t.terminal ≡ false
  pub joined : IsJoined u
  pub seen : Seen m (cursor u)
  pub kept : (x : ServerEnvelope) → Seen x (cursor t) → Seen x (cursor u)

kept_Seen :
    (x m : ServerEnvelope) (o : Options) (stream : Option String) (h : ℤ)
    → other_stream stream m.event_stream_id ≡ false
    → m.server_sequence ≡ succ h
    → Seen x (o, stream, h)
    → Seen x (o, some m.event_stream_id, m.server_sequence)
kept_Seen x m o stream h k e (inl f) = inl f
kept_Seen x m o none h k e (inr (f, l)) = ground arith
kept_Seen x m o (some s) h k e (inr (f, l)) = inr (
  ground (arith, eq_iff m.event_stream_id s),
  rw e (leb_ℤ_trans x.server_sequence h (succ h) l (leb_ℤ-succ h)),
)

live-Progress :
    (m : ServerEnvelope) (t u : Transport)
    → t.terminal ≡ false
    → IsJoined t
    → IsNumbered m
    → u.terminal ≡ false
    → Outcome m t u
    → Progress m t u
live-Progress m t u live j n alive (foreign e k) = record {
  alive = live;
  joined = subst IsJoined (sym k) j;
  seen = subst (λ w. Seen m (cursor w)) (sym k) (inl e);
  kept = λ x s. subst (λ w. Seen x (cursor w)) (sym k) s;
}
live-Progress m t u live j n alive (repeated o l k) =
    let same = same_stream t.event_stream_id t.highest_server_sequence m j n o l in
    record {
      alive = live;
      joined = subst IsJoined (sym k) j;
      seen = subst (λ w. Seen m (cursor w)) (sym k) (inr (same, l));
      kept = λ x s. subst (λ w. Seen x (cursor w)) (sym k) s;
    }
live-Progress m t u live j n alive (failed f c) = cc
live-Progress m t u live j n alive (accepted o e c) = record {
  alive = live;
  joined = ground arith;
  seen = subst (Seen m) (sym c) (inr (refl, leb_ℤ_refl m.server_sequence));
  kept = λ x s.
      subst (Seen x) (sym c)
        (kept_Seen x m t.options t.event_stream_id t.highest_server_sequence o e s);
}

pub deliver_one_dead :
    (m : ServerEnvelope) (t : Transport) → t.terminal ≡ true → deliver_one m t ≡ t
unfolding deliver_one
deliver_one_dead m t dead = ground arith

pub deliver_one_alive :
    (m : ServerEnvelope) (t : Transport)
    → t.terminal ≡ false
    → deliver_one m t ≡ on_server_message (some m) t
unfolding deliver_one
deliver_one_alive m t live = ground arith

deliver_one-Progress :
    (m : ServerEnvelope) (t : Transport)
    → IsJoined t
    → IsNumbered m
    → (deliver_one m t).terminal ≡ false
    → Progress m t (deliver_one m t)
deliver_one-Progress m t j n alive = elim (Bool-cases t.terminal) [
  | inl dead ↦ absurd (
      false≢true
        (sym alive ∙ (ap (λ (u : Transport). u.terminal) (deliver_one_dead m t dead) ∙ dead)))
  | inr live ↦
      let same = deliver_one_alive m t live in
      subst (Progress m t) (sym same)
        (live-Progress m t _ live j n (rw same at alive) (on_server_message-Outcome m t))
]

-- Of a whole list: all of it is seen, and what was seen stays seen.
pub record Digest (ms : List ServerEnvelope) (t u : Transport) : Type 0 where
  pub alive : t.terminal ≡ false
  pub seen : All (λ m. Seen m (cursor u)) ms
  pub kept : (x : ServerEnvelope) → Seen x (cursor t) → Seen x (cursor u)

deliver_dead :
    (ms : List ServerEnvelope) (t : Transport) → t.terminal ≡ true → (deliver ms t).terminal ≡ true
unfolding deliver
deliver_dead [] t dead = dead
deliver_dead (m ∷ ms) t dead =
    deliver_dead ms (deliver_one m t) (rw (deliver_one_dead m t dead) dead)

deliver-Digest :
    (ms : List ServerEnvelope) (t : Transport)
    → IsJoined t
    → All IsNumbered ms
    → (deliver ms t).terminal ≡ false
    → Digest ms t (deliver ms t)
unfolding deliver
deliver-Digest [] t j n alive = record { alive = alive; seen = tt; kept = λ x s. s }
deliver-Digest (m ∷ ms) t j (n, ns) alive = elim (Bool-cases (deliver_one m t).terminal) [
  | inl dead ↦ absurd (false≢true (sym alive ∙ deliver_dead ms (deliver_one m t) dead))
  | inr here ↦
      let p = deliver_one-Progress m t j n here in
      let d = deliver-Digest ms (deliver_one m t) p.joined ns alive in
      record {
        alive = p.alive;
        seen = (d.kept m p.seen, d.seen);
        kept = λ x s. d.kept x (p.kept x s);
      }
]

deliver-Seen :
    (ms : List ServerEnvelope) (t : Transport)
    → t.terminal ≡ false
    → All (λ m. Seen m (cursor t)) ms
    → deliver ms t ≡ t
unfolding deliver
deliver-Seen [] t live s = refl
deliver-Seen (m ∷ ms) t live (s, ss) = rw (ignored-Seen m t live s) (deliver-Seen ms t live ss)

-- A server that sends its whole list again, from the start, to a transport that got through it
-- alive, changes nothing at all: no transcript line is taken twice, no acknowledgement is sent.
-- The numbers are not negative, and a transport with no stream yet has accepted nothing.
pub deliver-deliver :
    (ms : List ServerEnvelope) (t : Transport)
    → IsJoined t
    → All IsNumbered ms
    → (deliver ms t).terminal ≡ false
    → deliver ms (deliver ms t) ≡ deliver ms t
deliver-deliver ms t j n alive =
    deliver-Seen ms (deliver ms t) alive (deliver-Digest ms t j n alive).seen
