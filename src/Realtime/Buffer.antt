-- ===== src/Realtime/Buffer.antt =====
-- The map `pending` of realtime-transport.ts: the frames sent and not yet acknowledged, by sequence
-- number, in the order of insertion.
use elder_interview_ai.Prelude.{
  ℕ, suc, ◌+◌, ◌<◌, ◌≡◌, ◌⊎◌, Bool, false, not, List, [], ◌∷◌, ltb, leb, eqb, if◌then◌else◌, keep,
}
use elder_interview_ai.Prelude.Int.{ℤ, pos, negsuc}
use elder_interview_ai.Realtime.Messages.{AudioFrame}

pub record PendingFrame : Type 0 where
  pub sequence : ℕ
  pub payload : AudioFrame
  pub raw_bytes : ℕ

-- `Map.prototype.set`: an old key keeps its place.
unfoldable pub set_frame : PendingFrame → List PendingFrame → List PendingFrame
set_frame f [] = f ∷ []
set_frame f (g ∷ gs) = if eqb g.sequence f.sequence then f ∷ gs else g ∷ set_frame f gs

-- `sequence <= highest`.
abbrev pub is_acked : ℤ → ℕ → Bool
is_acked (pos h) sequence = leb sequence h
is_acked (negsuc h) sequence = false

-- The loop of `acceptAudioAck`.
unfoldable pub drop_acked : ℤ → List PendingFrame → List PendingFrame
drop_acked highest = keep (λ f. not (is_acked highest f.sequence))

-- `Math.max(next, highest + 1)`, for a `next` that is not negative.
unfoldable pub next_after : ℕ → ℤ → ℕ
next_after next (pos h) = if ltb next (suc h) then suc h else next
next_after next (negsuc h) = next

-- The loop of `updatePending`.
unfoldable pub total_bytes : List PendingFrame → ℕ
total_bytes [] = 0
total_bytes (f ∷ fs) = f.raw_bytes + total_bytes fs

abbrev pub HasSequence : ℕ → List PendingFrame → Type 0
HasSequence n [] = ⊥
HasSequence n (f ∷ fs) = (f.sequence ≡ n) ⊎ HasSequence n fs

-- Each frame carries its key, stands below `next`, has the fixed size, and no key occurs twice.
abbrev pub FrameFits : ℕ → PendingFrame → Type 0
FrameFits next f = (f.payload.sequence_no ≡ f.sequence) × (f.sequence < next) × (f.raw_bytes ≡ 3200)

abbrev pub IsBuffer : ℕ → List PendingFrame → Type 0
IsBuffer next [] = Unit {0}
IsBuffer next (f ∷ fs) = FrameFits next f × (¬ HasSequence f.sequence fs) × IsBuffer next fs
