-- ===== src/Runtime/Windows.antt =====
-- Every runtime of realtime-runtime.service.ts has a replay window, after any calls.
use elder_interview_ai.Prelude.{
  ℕ, zero, suc, ◌≤◌, refl, true, false, String, List, [], ◌∷◌, Option, arith, if_elim, All,
  All-append,
}
use elder_interview_ai.Realtime.Messages.{ServerBody}
use elder_interview_ai.Runtime.Session.{
  SessionRuntime, StoredEvent, is_client, bind_asr_attempt, append, publish, publish_suggestion,
  subscribe, authorize_notifications, replay_after, record_frame, release, claim, interrupted,
  build_runtime, rotated,
}
use elder_interview_ai.Runtime.Service.{System, modify_at, open_runtime}
use elder_interview_ai.Runtime.Calls.{
  SessionCall, bind_asr_attempt_call, append_call, publish_call, publish_suggestion_call,
  subscribe_call, authorize_call, replay_call, record_frame_call, release_call, claim_call, perform,
  Call, run, IsOrdered, end_time,
}
use elder_interview_ai.Runtime.Rule.{
  Write, performs, prunes, interrupts, Invariant, run_rule, call_subscriber_rule,
}
use elder_interview_ai.Runtime.Window.{IsWindow, prune-IsWindow, IsWindow-later, append_as-IsWindow}

-- A call on a runtime keeps its window.
pub perform-IsWindow :
    (clock now : ℕ) (c : SessionCall) (r : SessionRuntime)
    → clock ≤ now
    → IsWindow clock r
    → IsWindow now (perform now c r)
unfolding perform append publish publish_suggestion replay_after bind_asr_attempt subscribe
    authorize_notifications record_frame claim release
perform-IsWindow clock now (bind_asr_attempt_call identity) r h w = IsWindow-later clock now r h w
perform-IsWindow clock now (append_call body) r h w = append_as-IsWindow clock now "1.1" body r h w
perform-IsWindow clock now (publish_call delivers body) r h w =
    call_subscriber_rule (IsWindow now) delivers _ (λ q v. v) _ _
      (append_as-IsWindow clock now "1.1" body r h w)
perform-IsWindow clock now (publish_suggestion_call delivers true kind revision) r h w =
    call_subscriber_rule (IsWindow now) delivers _ (λ q v. v) _ _
      (append_as-IsWindow clock now "1.2" (ServerBody.suggestion_changed kind revision) r h w)
perform-IsWindow clock now (publish_suggestion_call delivers false kind revision) r h w =
    IsWindow-later clock now r h w
perform-IsWindow clock now (subscribe_call client) r h w = IsWindow-later clock now r h w
perform-IsWindow clock now (authorize_call client) r h w = IsWindow-later clock now r h w
perform-IsWindow clock now (replay_call sequence) r h w =
    let kept = prune-IsWindow now now r (IsWindow-later clock now r h w).0 in
    if_elim (λ (p : SessionRuntime × Option (List StoredEvent)). IsWindow now p.0) _ kept kept
perform-IsWindow clock now (record_frame_call frame) r h w = IsWindow-later clock now r h w
perform-IsWindow clock now (release_call client) r h w =
    if_elim (IsWindow now) (is_client r.producer client) (IsWindow-later clock now r h w)
      (IsWindow-later clock now r h w)
perform-IsWindow clock now (claim_call client) r h w = IsWindow-later clock now r h w

abbrev pub Windows : ℕ → System → Type 0
Windows clock s = All (IsWindow clock) s.runtimes

Windows-later :
    (clock now : ℕ) (rs : List SessionRuntime)
    → clock ≤ now
    → All (IsWindow clock) rs
    → All (IsWindow now) rs
Windows-later clock now [] h w = tt
Windows-later clock now (r ∷ rs) h w =
    (IsWindow-later clock now r h w.0, Windows-later clock now rs h w.1)

modify_at-Windows :
    (now ref : ℕ) (f : SessionRuntime → SessionRuntime) (rs : List SessionRuntime)
    → ((r : SessionRuntime) → IsWindow now r → IsWindow now (f r))
    → All (IsWindow now) rs
    → All (IsWindow now) (modify_at ref f rs)
unfolding modify_at
modify_at-Windows now ref f [] k w = tt
modify_at-Windows now zero f (r ∷ rs) k w = (k r w.0, w.1)
modify_at-Windows now (suc ref) f (r ∷ rs) k w = (w.0, modify_at-Windows now ref f rs k w.1)

written-IsWindow :
    (now : ℕ) (f : SessionRuntime → SessionRuntime)
    → Write now f
    → (r : SessionRuntime) → IsWindow now r
    → IsWindow now (f r)
unfolding interrupted
written-IsWindow now f (performs c) r w = perform-IsWindow now now c r (omega arith) w
written-IsWindow now f prunes r w = prune-IsWindow now now r w.0
written-IsWindow now f interrupts r w = w

open_runtime-Windows :
    (now : ℕ) (session audio generation speaker event_stream : String) (offset : ℕ) (s : System)
    → Windows now s
    → Windows now (open_runtime now session audio generation speaker event_stream offset s).0
unfolding open_runtime build_runtime
open_runtime-Windows now session audio generation speaker event_stream offset s w =
    All-append (IsWindow now) s.runtimes _ w
      ((record { first = 0; numbered = refl; ordered = tt; own = tt }, omega arith), tt)

Windows-Invariant : Invariant Windows
unfolding rotated
Windows-Invariant = record {
  by_write = λ now i f s k w. modify_at-Windows now i f s.runtimes (written-IsWindow now f k) w;
  by_rotation =
      λ now speaker i r s w. modify_at-Windows now i (rotated now speaker) s.runtimes (λ q v. v) w;
  by_opening = open_runtime-Windows;
}

-- After any calls, by a clock that does not go back, every runtime keeps at most 512 events; they
-- belong to its session and stream and have the consecutive numbers up to its next number; if this
-- was so before.
pub run-Windows :
    (clock : ℕ) (cs : List (ℕ × Call)) (s : System)
    → IsOrdered clock cs
    → Windows clock s
    → Windows (end_time clock cs) (run cs s)
run-Windows clock cs s o w =
    run_rule Windows Windows-Invariant (λ c n t. Windows-later c n t.runtimes) clock cs s o w
