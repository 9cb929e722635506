-- ===== src/Runtime/Lease.antt =====
-- The producer's lease of realtime-runtime.service.ts: `claim`, `release` and the interruptions.
use elder_interview_ai.Prelude.{ℕ, ◌≤◌, ◌≡◌, true, false, String, List, Option, arith, if_elim}
use elder_interview_ai.Runtime.Session.{
  SessionRuntime, StoredEvent, prune, bind_asr_attempt, append_as, append, publish,
  publish_suggestion, subscribe, authorize_notifications, replay_after, record_frame, release,
  claim, interrupted, rotated, is_producer_lease_current,
}
use elder_interview_ai.Runtime.Service.{System}
use elder_interview_ai.Runtime.Calls.{
  SessionCall, bind_asr_attempt_call, append_call, publish_call, publish_suggestion_call,
  subscribe_call, authorize_call, replay_call, record_frame_call, release_call, claim_call, perform,
  Call, run,
}
use elder_interview_ai.Runtime.Rule.{call_subscriber_rule}
use elder_interview_ai.Runtime.Holds.{Holds, Kept, run-Holds}

-- The lease was given out, and is not this client's current one.
abbrev pub IsLost : (client lease : ℕ) → SessionRuntime → Type 0
IsLost client lease r =
    (lease ≤ r.producer_lease) × (is_producer_lease_current r client lease ≡ false)

module _ (client lease : ℕ) where
  perform-IsLost :
      (now : ℕ) (c : SessionCall) (r : SessionRuntime)
      → IsLost client lease r
      → IsLost client lease (perform now c r)
  unfolding perform append append_as prune publish publish_suggestion replay_after bind_asr_attempt
      subscribe authorize_notifications record_frame claim release is_producer_lease_current
  perform-IsLost now (publish_call delivers body) r w =
      call_subscriber_rule (IsLost client lease) delivers _ (λ q v. v) _ _ w
  perform-IsLost now (publish_suggestion_call delivers true kind revision) r w =
      call_subscriber_rule (IsLost client lease) delivers _ (λ q v. v) _ _ w
  perform-IsLost now (publish_suggestion_call delivers false kind revision) r w = w
  perform-IsLost now (replay_call sequence) r w =
      if_elim (λ (p : SessionRuntime × Option (List StoredEvent)). IsLost client lease p.0) _ w w
  perform-IsLost now (release_call c) r w = ground arith
  perform-IsLost now (claim_call c) r w = ground arith
  perform-IsLost now (bind_asr_attempt_call identity) r w = w
  perform-IsLost now (append_call body) r w = w
  perform-IsLost now (subscribe_call c) r w = w
  perform-IsLost now (authorize_call c) r w = w
  perform-IsLost now (record_frame_call frame) r w = w

  interrupted-IsLost :
      (now : ℕ) (r : SessionRuntime)
      → IsLost client lease r
      → IsLost client lease (interrupted now r)
  unfolding interrupted is_producer_lease_current
  interrupted-IsLost now r w = ground arith

  prune-IsLost :
      (now : ℕ) (r : SessionRuntime) → IsLost client lease r → IsLost client lease (prune now r)
  unfolding prune is_producer_lease_current
  prune-IsLost now r w = w

  rotated-IsLost :
      (now : ℕ) (speaker : String) (r : SessionRuntime)
      → IsLost client lease r
      → IsLost client lease (rotated now speaker r)
  unfolding rotated is_producer_lease_current
  rotated-IsLost now speaker r w = w

  IsLost-Kept : Kept (IsLost client lease)
  IsLost-Kept = record {
    by_perform = perform-IsLost;
    by_prune = prune-IsLost;
    by_interrupted = interrupted-IsLost;
    by_rotated = rotated-IsLost;
  }

-- A lease that was given out and is no longer a client's current one never becomes it again,
-- whatever calls follow.
pub run-IsLost :
    (client lease ref : ℕ) (cs : List (ℕ × Call)) (s : System)
    → Holds (IsLost client lease) ref s
    → Holds (IsLost client lease) ref (run cs s)
run-IsLost client lease ref cs s h =
    run-Holds (IsLost client lease) ref (IsLost-Kept client lease) cs s h
