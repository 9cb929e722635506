-- ===== src/Runtime/Replay.antt =====
-- What a client gets that comes back with its cursor: `replayAfter` of realtime-runtime.service.ts.
use elder_interview_ai.Prelude.{
  ℕ, suc, ◌≤◌, ◌<◌, ◌≡◌, refl, subst, ◌≢◌, inl, inr, Bool-cases, true, false, List, [], ◌∷◌, Option,
  none, some, arith, leb, keep, All, All-keep,
}
use elder_interview_ai.Prelude.Int.{pos}
use elder_interview_ai.Runtime.Session.{
  StoredEvent, SessionRuntime, prune, earliest, before, is_after, replay_after,
}
use elder_interview_ai.Runtime.Window.{Numbered, IsOwn, IsWindow, prune-IsWindow, IsWindow-later}

-- No event has this number.
abbrev pub IsMissing : ℕ → List StoredEvent → Type 0
IsMissing n = All (λ e. e.envelope.server_sequence ≢ pos n)

-- The answer for a cursor. It is refused exactly if the cursor is no event's yet, or the event after
-- it was numbered and is not in the window any more; else it has all later events, in order.
pub data Answer (now sequence : ℕ) (r : SessionRuntime) : Option (List StoredEvent) → Type 0 where
  unknown : r.next_server_sequence ≤ sequence → Answer now sequence r none
  pruned :
      suc sequence < r.next_server_sequence
      → IsMissing (suc sequence) (prune now r).events
      → Answer now sequence r none
  replayed :
      (es : List StoredEvent)
      → sequence < r.next_server_sequence
      → Numbered (suc sequence) es r.next_server_sequence
      → All (IsOwn now r.session_id r.event_stream_id) es
      → Answer now sequence r (some es)

earliest-first : (n end : ℕ) (es : List StoredEvent) → Numbered n es end → earliest es end ≡ pos n
earliest-first n end [] h = rw h
earliest-first n end (e ∷ es) h = h.0

Numbered-le : (n end : ℕ) (es : List StoredEvent) → Numbered n es end → n ≤ end
Numbered-le n end [] h = omega arith
Numbered-le n end (e ∷ es) h = omega (arith, Numbered-le (suc n) end es h.1)

IsMissing-before :
    (k n end : ℕ) (es : List StoredEvent) → k < n → Numbered n es end → IsMissing k es
IsMissing-before k n end [] lt h = tt
IsMissing-before k n end (e ∷ es) lt h =
    (λ p. ground arith, IsMissing-before k (suc n) end es (omega arith) h.1)

-- From its first number on, every event is after the cursor.
keep-after :
    (s n end : ℕ) (es : List StoredEvent) → s < n → Numbered n es end → keep (is_after s) es ≡ es
keep-after s n end [] lt h = refl
keep-after s n end (e ∷ es) lt h = ground (arith, keep-after s (suc n) end es)

Numbered-after :
    (s n end : ℕ) (es : List StoredEvent)
    → n ≤ suc s
    → suc s ≤ end
    → Numbered n es end
    → Numbered (suc s) (keep (is_after s) es) end
Numbered-after s n end [] le le' h = omega arith
Numbered-after s n end (e ∷ es) le le' h = elim (Bool-cases (leb n s)) [
  | inl old ↦
      let t : is_after s e ≡ false = ground arith in
      rw t (Numbered-after s (suc n) end es (ground arith) le' h.1)
  | inr new ↦
      let n-eq : n ≡ suc s = ground arith in
      let t : is_after s e ≡ true = ground arith in
      rw (t, keep-after s (suc n) end es (omega arith) h.1)
        (subst (λ m. Numbered m (e ∷ es) end) n-eq h)
]

-- For a runtime with a window, whatever the cursor, the answer is one of the three.
pub replay_after-Answer :
    (clock now sequence : ℕ) (r : SessionRuntime)
    → clock ≤ now
    → IsWindow clock r
    → Answer now sequence r (replay_after now sequence r).1
unfolding replay_after prune
replay_after-Answer clock now sequence r h w =
    let log = (prune-IsWindow now now r (IsWindow-later clock now r h w).0).0 in
    let es : List StoredEvent = (prune now r).events in
    let next : ℕ = r.next_server_sequence in
    let first-eq = earliest-first log.first next es log.numbered in
    elim (Bool-cases (leb next sequence)) [
      | inl high ↦ elim (Bool-cases (before sequence (earliest es next))) [
        | inl b ↦ rw b (unknown (ground arith))
        | inr b ↦ rw (b, high) (unknown (ground arith))
      ]
      | inr low ↦ elim (Bool-cases (before sequence (earliest es next))) [
        | inl b ↦
            let gone : suc sequence < log.first = ground (arith, first-eq) in
            rw b (
              pruned (omega (arith, gone, Numbered-le log.first next es log.numbered))
                (IsMissing-before (suc sequence) log.first next es gone log.numbered))
        | inr b ↦
            let at : log.first ≤ suc sequence = ground (arith, first-eq) in
            rw (b, low)
              (replayed _ (ground arith)
                (Numbered-after sequence log.first next es at (ground arith) log.numbered)
                (All-keep _ _ _ log.own))
      ]
    ]
