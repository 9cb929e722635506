-- ===== src/Capture/Newest.antt =====
-- The newest generation of a session, and the end of the audio that was uploaded, as
-- apps/api/src/project-foundation/session-capture.service.ts asks for them.
use elder_interview_ai.Prelude.{
  ℕ, ◌≤◌, ◌<◌, max, ◌≡◌, ap, ◌∙◌, Bool, true, false, String, List, [], ◌∷◌, ◌++◌, Option, none,
  some, arith, if◌then◌else◌, All, ◌==◌, eq_iff,
}
use elder_interview_ai.Capture.Tables.{SessionCaptureGeneration, AudioChunk}
use elder_interview_ai.Capture.Common.{newest, later}
use elder_interview_ai.Capture.Resume.{high_water}

pub high_water_bound :
    (cs : List AudioChunk) (h : ℕ)
    → (h ≤ high_water h cs) × All (λ (c : AudioChunk). c.end_ms ≤ high_water h cs) cs
unfolding high_water
high_water_bound [] h = (omega arith, tt)
high_water_bound (c ∷ cs) h =
    let (p, q) = high_water_bound cs (max h c.end_ms) in (omega (arith, p), (omega (arith, p), q))

pub All-le :
    (m n : ℕ) (cs : List AudioChunk)
    → m ≤ n
    → All (λ (c : AudioChunk). c.end_ms ≤ m) cs
    → All (λ (c : AudioChunk). c.end_ms ≤ n) cs
All-le m n [] h k = tt
All-le m n (c ∷ cs) h (p, q) = (omega (arith, p, h), All-le m n cs h q)

-- All of the session's rows have a smaller number.
abbrev pub IsBelow : Option SessionCaptureGeneration → ℕ → Type 0
IsBelow none n = Unit
IsBelow (some c) n = c.generation_no < n

later-IsBelow :
    (c : SessionCaptureGeneration) (o : Option SessionCaptureGeneration) (n : ℕ)
    → (later c o).generation_no < n
    → IsBelow o n × (c.generation_no < n)
later-IsBelow c none n h = (tt, h)
later-IsBelow c (some d) n h = (ground arith, ground arith)

newest-cons :
    (session_id : String) (c : SessionCaptureGeneration) (cs : List SessionCaptureGeneration)
    (new : SessionCaptureGeneration) (own : Bool)
    → new.session_id ≡ session_id
    → IsBelow
        (if own then some (later c (newest session_id cs)) else newest session_id cs)
        new.generation_no
    → (IsBelow (newest session_id cs) new.generation_no
        → newest session_id (cs ++ new ∷ []) ≡ some new)
    → (if own
        then some (later c (newest session_id (cs ++ new ∷ [])))
        else newest session_id (cs ++ new ∷ []))
      ≡ some new
newest-cons session_id c cs new false e h step = step h
newest-cons session_id c cs new true e h step =
    let (p, q) = later-IsBelow c (newest session_id cs) new.generation_no h in
    ap (λ (o : Option SessionCaptureGeneration). some (later c o)) (step p) ∙ ground (arith, q)

pub newest-snoc :
    (session_id : String) (cs : List SessionCaptureGeneration) (new : SessionCaptureGeneration)
    → new.session_id ≡ session_id
    → IsBelow (newest session_id cs) new.generation_no
    → newest session_id (cs ++ new ∷ []) ≡ some new
unfolding newest
newest-snoc session_id [] new e h = ground (arith, eq_iff new.session_id session_id)
newest-snoc session_id (c ∷ cs) new e h =
    newest-cons session_id c cs new (c.session_id == session_id) e h
      (newest-snoc session_id cs new e)
