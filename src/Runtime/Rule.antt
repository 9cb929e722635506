-- ===== src/Runtime/Rule.antt =====
-- The rule by which a property of the service of realtime-runtime.service.ts holds after any calls:
-- it is enough that the writes to one runtime, the rotation of a speaker stream and a new runtime
-- keep it.
use elder_interview_ai.Prelude.{
  ℕ, ◌≤◌, Bool, true, ◌&&◌, String, List, [], ◌∷◌, Option, none, some, ◌==◌, if_elim, get_elem?,
}
use elder_interview_ai.Runtime.Session.{SessionRuntime, call_subscriber, prune, interrupted}
use elder_interview_ai.Runtime.Service.{
  System, on_runtime, current, open_runtime, create, reusable, reuse_or, rotate_object,
  rotate_speaker_stream, pruned_object, find, recover, interrupted_object, interrupt_capture,
  interrupt_session, begin_suggestion, begin_marker,
}
use elder_interview_ai.Runtime.Calls.{
  SessionCall, perform, Call, created, opened, rotated, found, recovered, capture_interrupted,
  session_interrupted, suggestion_begun, marker_begun, on_session, call, run, IsOrdered, end_time,
}

-- Whether the subscriber returns or throws.
pub call_subscriber_rule :
    (P : SessionRuntime → Type 0) (delivers : ℕ → Bool) (caught : SessionRuntime → SessionRuntime)
    → ((q : SessionRuntime) → P q → P (caught q))
    → (o : Option ℕ) (r : SessionRuntime) → P r
    → P (call_subscriber delivers caught o r)
unfolding call_subscriber
call_subscriber_rule P delivers caught keeps none r h = h
call_subscriber_rule P delivers caught keeps (some c) r h = if_elim P (delivers c) h (keeps r h)

-- What the methods write to a runtime.
pub data Write (now : ℕ) : (SessionRuntime → SessionRuntime) → Type 0 where
  performs : (c : SessionCall) → Write now (perform now c)
  prunes : Write now (prune now)
  interrupts : Write now (interrupted now)

pub record Invariant (Q : ℕ → System → Type 0) : Type 0 where
  pub by_write :
      (now i : ℕ) (f : SessionRuntime → SessionRuntime) (s : System)
      → Write now f
      → Q now s
      → Q now (on_runtime i f s)
  pub by_rotation :
      (now : ℕ) (speaker : String) (i : ℕ) (r : SessionRuntime) (s : System)
      → Q now s
      → Q now (rotate_object now speaker i (some r) s)
  pub by_opening :
      (now : ℕ) (session audio generation speaker event_stream : String) (offset : ℕ) (s : System)
      → Q now s
      → Q now (open_runtime now session audio generation speaker event_stream offset s).0

module _ (Q : ℕ → System → Type 0) (k : Invariant Q) where
  pruned_object_rule :
      (now : ℕ) (usable : SessionRuntime → Bool) (o : Option (ℕ × SessionRuntime)) (s : System)
      → Q now s
      → Q now (pruned_object now usable o s).0
  pruned_object_rule now usable none s h = h
  pruned_object_rule now usable (some (i, r)) s h =
      if_elim (λ (p : System × Option ℕ). Q now p.0) _ (k.by_write now i (prune now) s prunes h) h

  interrupted_object_rule :
      (now : ℕ) (usable : SessionRuntime → Bool) (o : Option (ℕ × SessionRuntime)) (s : System)
      → Q now s
      → Q now (interrupted_object now usable o s).0
  interrupted_object_rule now usable none s h = h
  interrupted_object_rule now usable (some (i, r)) s h =
      if_elim (λ (p : System × Bool). Q now p.0) _
        (k.by_write now i (interrupted now) s interrupts h) h

  reuse_or_rule :
      (now : ℕ) (o : Option ℕ) (s : System) (fresh : System × ℕ)
      → Q now s
      → Q now fresh.0
      → Q now (reuse_or o s fresh).0
  reuse_or_rule now none s fresh h g = g
  reuse_or_rule now (some i) s fresh h g = h

  rotate_object_rule :
      (now : ℕ) (speaker : String) (i : ℕ) (o : Option SessionRuntime) (s : System)
      → Q now s
      → Q now (rotate_object now speaker i o s)
  rotate_object_rule now speaker i none s h = h
  rotate_object_rule now speaker i (some r) s h = k.by_rotation now speaker i r s h

  call_rule : (now : ℕ) (c : Call) (s : System) → Q now s → Q now (call now c s)
  unfolding call create rotate_speaker_stream find recover interrupt_capture interrupt_session
      begin_suggestion begin_marker
  call_rule now (created session audio generation speaker event_stream offset) s h =
      reuse_or_rule now (reusable now session audio s) s
        (open_runtime now session audio generation speaker event_stream offset s) h
        (k.by_opening now session audio generation speaker event_stream offset s h)
  call_rule now (opened session audio generation speaker event_stream offset) s h =
      k.by_opening now session audio generation speaker event_stream offset s h
  call_rule now (rotated speaker i) s h =
      rotate_object_rule now speaker i (get_elem? s.runtimes i) s h
  call_rule now (found session) s h = pruned_object_rule now (λ r. true) (current session s) s h
  call_rule now (recovered session audio event_stream) s h =
      pruned_object_rule now (λ r. r.audio_stream_id == audio && r.event_stream_id == event_stream)
        (current session s) s h
  call_rule now (capture_interrupted session audio) s h =
      interrupted_object_rule now (λ r. r.audio_stream_id == audio) (current session s) s h
  call_rule now (session_interrupted session) s h =
      interrupted_object_rule now (λ r. true) (current session s) s h
  call_rule now (suggestion_begun session) s h =
      pruned_object_rule now (λ r. true) (current session s) s h
  call_rule now (marker_begun session speaker) s h =
      pruned_object_rule now (λ r. true) (current session s) s h
  call_rule now (on_session i c) s h = k.by_write now i (perform now c) s (performs c) h

  -- For a property that may mention the clock, the clock must not go back.
  pub run_rule :
      ((clock now : ℕ) (s : System) → clock ≤ now → Q clock s → Q now s)
      → (clock : ℕ) (cs : List (ℕ × Call)) (s : System) → IsOrdered clock cs
      → Q clock s
      → Q (end_time clock cs) (run cs s)
  unfolding run
  run_rule later clock [] s o h = h
  run_rule later clock ((now, c) ∷ cs) s o h =
      run_rule later now cs (call now c s) o.1 (call_rule now c s (later clock now s o.0 h))

-- For one that does not, any clock will do.
pub run_kept :
    (Q : System → Type 0)
    → Invariant (λ now. Q)
    → (cs : List (ℕ × Call)) (s : System) → Q s
    → Q (run cs s)
unfolding run
run_kept Q k [] s h = h
run_kept Q k ((now, c) ∷ cs) s h = run_kept Q k cs (call now c s) (call_rule (λ n. Q) k now c s h)
