-- ===== src/Runtime/Stale.antt =====
-- A runtime that another has replaced in the map of realtime-runtime.service.ts.
use elder_interview_ai.Prelude.{
  ℕ, zero, suc, ◌<◌, ◌≡◌, refl, ap, ◌∙◌, true, false, ◌&&◌, String, List, [], ◌∷◌, Option, some,
  arith, ◌==◌, if_elim, length, length-append,
}
use elder_interview_ai.Prelude.Map.{get-set}
use elder_interview_ai.Runtime.Session.{
  SessionRuntime, StoredEvent, AsrIdentity, attempt_matches, is_client, prune, bind_asr_attempt,
  append_as, append, publish, publish_suggestion, subscribe, authorize_notifications, replay_after,
  record_frame, release, claim, interrupted, rotated,
}
use elder_interview_ai.Runtime.Service.{
  System, modify_at, on_runtime, is_ref, is_current, open_runtime, rotate_object,
  is_asr_attempt_current,
}
use elder_interview_ai.Runtime.Calls.{
  SessionCall, bind_asr_attempt_call, append_call, publish_call, publish_suggestion_call,
  subscribe_call, authorize_call, replay_call, record_frame_call, release_call, claim_call, perform,
  Call, run,
}
use elder_interview_ai.Runtime.Rule.{Invariant, run_kept, call_subscriber_rule}
use elder_interview_ai.Runtime.Holds.{Holds, Kept, run-Holds}

length-modify_at :
    {A : Type 0} (i : ℕ) (f : A → A) (xs : List A) → length (modify_at i f xs) ≡ length xs
unfolding modify_at
length-modify_at i f [] = refl
length-modify_at zero f (x ∷ xs) = refl
length-modify_at (suc i) f (x ∷ xs) = ap suc (length-modify_at i f xs)

-- The object was made, and the map has another for the session, or none.
pub record IsReplaced (session : String) (ref : ℕ) (s : System) : Type 0 where
  pub made : ref < length s.runtimes
  pub replaced : is_current session ref s ≡ false

abbrev pub Belongs : String → SessionRuntime → Type 0
Belongs session r = r.session_id ≡ session

module _ (session : String) (ref : ℕ) where
  modified :
      (i : ℕ) (f : SessionRuntime → SessionRuntime) (s : System)
      → IsReplaced session ref s
      → IsReplaced session ref (on_runtime i f s)
  unfolding is_current
  modified i f s h = record {
    made = omega (arith, h.made, length-modify_at i f s.runtimes);
    replaced = h.replaced;
  }

  rotated-IsReplaced :
      (now : ℕ) (speaker : String) (i : ℕ) (r : SessionRuntime) (s : System)
      → IsReplaced session ref s
      → IsReplaced session ref (rotate_object now speaker i (some r) s)
  unfolding is_current
  rotated-IsReplaced now speaker i r s h = record {
    made = omega (arith, h.made, length-modify_at i (rotated now speaker) s.runtimes);
    replaced = h.replaced;
  }

  opened-IsReplaced :
      (now : ℕ) (other audio generation speaker event_stream : String) (offset : ℕ) (s : System)
      → IsReplaced session ref s
      → IsReplaced session ref
          (open_runtime now other audio generation speaker event_stream offset s).0
  unfolding is_current open_runtime
  opened-IsReplaced now other audio generation speaker event_stream offset s h = record {
    made = omega (arith, h.made, length-append {0} s.runtimes _);
    replaced =
        ap (λ o. is_ref o ref) (get-set other (length s.runtimes) session s.sessions)
        ∙ if_elim (λ o. is_ref o ref ≡ false) (other == session) (ground (arith, h.made))
            h.replaced;
  }

  IsReplaced-Invariant : Invariant (λ now. IsReplaced session ref)
  IsReplaced-Invariant = record {
    by_write = λ now i f s k h. modified i f s h;
    by_rotation = rotated-IsReplaced;
    by_opening = opened-IsReplaced;
  }

module _ (session : String) where
  perform-Belongs :
      (now : ℕ) (c : SessionCall) (r : SessionRuntime)
      → Belongs session r
      → Belongs session (perform now c r)
  unfolding perform append append_as prune publish publish_suggestion replay_after bind_asr_attempt
      subscribe authorize_notifications record_frame claim release
  perform-Belongs now (publish_call delivers body) r h =
      call_subscriber_rule (Belongs session) delivers _ (λ q v. v) _ _ h
  perform-Belongs now (publish_suggestion_call delivers true kind revision) r h =
      call_subscriber_rule (Belongs session) delivers _ (λ q v. v) _ _ h
  perform-Belongs now (publish_suggestion_call delivers false kind revision) r h = h
  perform-Belongs now (replay_call sequence) r h =
      if_elim (λ (p : SessionRuntime × Option (List StoredEvent)). Belongs session p.0) _ h h
  perform-Belongs now (release_call c) r h = if_elim (Belongs session) (is_client r.producer c) h h
  perform-Belongs now (claim_call c) r h = h
  perform-Belongs now (bind_asr_attempt_call identity) r h = h
  perform-Belongs now (append_call body) r h = h
  perform-Belongs now (subscribe_call c) r h = h
  perform-Belongs now (authorize_call c) r h = h
  perform-Belongs now (record_frame_call frame) r h = h

  Belongs-Kept : Kept (Belongs session)
  unfolding prune interrupted rotated
  Belongs-Kept = record {
    by_perform = perform-Belongs;
    by_prune = λ now r h. h;
    by_interrupted = λ now r h. h;
    by_rotated = λ now speaker r h. h;
  }

module _ (session : String) (ref : ℕ) where
  asr_refused :
      (identity : AsrIdentity) (s : System)
      → Holds (Belongs session) ref s
      → IsReplaced session ref s
      → is_asr_attempt_current ref identity s ≡ false
  unfolding is_asr_attempt_current is_current
  asr_refused identity s h g = rw h.there (
      ap (λ x. is_current x ref s && attempt_matches identity h.object) h.property
      ∙ ap (λ b. b && attempt_matches identity h.object) g.replaced)

-- A runtime whose place another has taken is never current again: whatever calls follow, every
-- result of a speech provider for it is refused.
pub run-IsReplaced :
    (session : String) (ref : ℕ) (identity : AsrIdentity) (cs : List (ℕ × Call)) (s : System)
    → Holds (Belongs session) ref s
    → IsReplaced session ref s
    → is_asr_attempt_current ref identity (run cs s) ≡ false
run-IsReplaced session ref identity cs s h g =
    asr_refused session ref identity (run cs s)
      (run-Holds (Belongs session) ref (Belongs-Kept session) cs s h)
      (run_kept (IsReplaced session ref) (IsReplaced-Invariant session ref) cs s g)
