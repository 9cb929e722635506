-- ===== src/Runtime/Accepted.antt =====
-- The frames that realtime.gateway.ts has accepted, after any events.
use elder_interview_ai.Prelude.{
  ℕ, zero, suc, ltb, ◌<◌, ◌∙◌, length, All, All-map, ◌+◌, ◌*◌, ◌≤◌, ◌≡◌, refl, sym, ap, subst, inl,
  inr, Bool, Bool-cases, true, false, ◌||◌, not, String, List, [], ◌∷◌, ◌++◌, Option, none, some,
  arith, eqb, leb, if◌then◌else◌, if_elim,
}
use elder_interview_ai.Prelude.Int.{ℤ, pos, succ, leb_ℤ}
use elder_interview_ai.Realtime.Messages.{ServerBody, AudioFrame, asr_status}
use elder_interview_ai.Runtime.Session.{
  SessionRuntime, StoredEvent, FrameEvidence, prune, bind_asr_attempt, append_as, append, publish,
  publish_suggestion, subscribe, authorize_notifications, replay_after, record_frame, release,
  claim, interrupted, put_frame, evidence_of, frame_matches,
}
use elder_interview_ai.Runtime.Calls.{
  SessionCall, bind_asr_attempt_call, append_call, publish_call, publish_suggestion_call,
  subscribe_call, authorize_call, replay_call, record_frame_call, release_call, claim_call, perform,
}
use elder_interview_ai.Runtime.Rule.{call_subscriber_rule}
use elder_interview_ai.Runtime.Gateway.{
  Client, audio_ack_event, fail, event_ack, InFlight, begin_new, begin_matched, begin_frame,
  Acceptance, persisted, asr_failed, failed, settled, accept_frame, finish_frame, Line, Event,
  frame_begins, frame_ends, failed_connection, acknowledged, interruption, other, or_same,
  is_record_frame, joined, behind, taken, end_frame, step, run,
}

-- The part of a runtime that is about its audio frames.
pub record Intake : Type 0 where
  pub frames : List (ℕ × FrameEvidence)
  pub next : ℕ
  pub highest : ℤ
  pub pending : ℕ
  pub bytes : ℕ

abbrev pub intake : SessionRuntime → Intake
intake r = record {
  frames = r.frames;
  next = r.next_audio_sequence;
  highest = r.highest_audio_sequence_acked;
  pending = r.pending_frames;
  bytes = r.pending_bytes;
}

intake-release : (now client : ℕ) (r : SessionRuntime) → intake (release now client r) ≡ intake r
unfolding release
intake-release now client r = if_elim (λ q. intake q ≡ intake r) _ refl refl

intake-fail :
    (now : ℕ) (client : Client) (code : String) (reset : Bool) (r : SessionRuntime)
    → intake (fail now client code reset r) ≡ intake r
unfolding fail append append_as prune
intake-fail now client code reset r =
    if_elim (λ q. intake q ≡ intake r) client.is_open (intake-release now client.number _) refl

-- Only `recordFrame` and `frame` change it.
intake-perform :
    (now : ℕ) (c : SessionCall) (r : SessionRuntime)
    → is_record_frame c ≡ false
    → intake (perform now c r) ≡ intake r
unfolding perform append append_as prune publish publish_suggestion replay_after bind_asr_attempt
    subscribe authorize_notifications claim
intake-perform now (publish_call delivers body) r h =
    call_subscriber_rule (λ q. intake q ≡ intake r) delivers _ (λ q h. h) _ _ refl
intake-perform now (publish_suggestion_call delivers true kind revision) r h =
    call_subscriber_rule (λ q. intake q ≡ intake r) delivers _ (λ q h. h) _ _ refl
intake-perform now (publish_suggestion_call delivers false kind revision) r h = refl
intake-perform now (replay_call sequence) r h =
    if_elim (λ (p : SessionRuntime × Option (List StoredEvent)). intake p.0 ≡ intake r) _ refl refl
intake-perform now (release_call c) r h = intake-release now c r
intake-perform now (claim_call c) r h = refl
intake-perform now (bind_asr_attempt_call identity) r h = refl
intake-perform now (append_call body) r h = refl
intake-perform now (subscribe_call c) r h = refl
intake-perform now (authorize_call c) r h = refl
intake-perform now (record_frame_call frame) r h = cc

-- The frames have the numbers from the first up to the last, which is left out.
abbrev pub Counted : ℕ → List (ℕ × FrameEvidence) → ℕ → Type 0
Counted n [] end = n ≡ end
Counted n ((m, e) ∷ fs) end = (m ≡ n) × Counted (suc n) fs end

-- Some number of frames is recorded, with the numbers from 0 on, once each and in order; the next
-- number is the one after the last acknowledged frame, and all frames below it are recorded; and what
-- is pending is the frames that wait, at most 20, each with the number of a recorded frame or the one
-- after them.
pub record IsAccepted (i : Intake) (ws : List InFlight) : Type 0 where
  pub count : ℕ
  pub counted : Counted 0 i.frames count
  pub acked : succ i.highest ≡ pos i.next
  pub below : i.next ≤ count
  pub pending : i.pending ≡ length ws
  pub bounded : length ws ≤ 20
  pub bytes : i.bytes ≡ 3200 * length ws
  pub due : All (λ (w : InFlight). w.frame.sequence_no ≤ count) ws

same_intake : {i j : Intake} (ws : List InFlight) → j ≡ i → IsAccepted i ws → IsAccepted j ws
same_intake ws e a = subst (λ k. IsAccepted k ws) (sym e) a

Counted-le : (n end : ℕ) (fs : List (ℕ × FrameEvidence)) → Counted n fs end → n ≤ end
Counted-le n end [] h = omega (arith, h)
Counted-le n end ((m, e) ∷ fs) h = omega (arith, Counted-le (suc n) end fs h.1)

put_frame-new :
    (n end : ℕ) (e : FrameEvidence) (fs : List (ℕ × FrameEvidence))
    → Counted n fs end
    → put_frame end e fs ≡ fs ++ (end, e) ∷ []
unfolding put_frame
put_frame-new n end e [] h = refl
put_frame-new n end e ((m, d) ∷ fs) h =
    ground (arith, put_frame-new (suc n) end e fs, Counted-le (suc n) end fs)

Counted-append :
    (n end : ℕ) (e : FrameEvidence) (fs : List (ℕ × FrameEvidence))
    → Counted n fs end
    → Counted n (fs ++ (end, e) ∷ []) (end + 1)
Counted-append n end e [] h = (sym h, omega (arith, h))
Counted-append n end e ((m, d) ∷ fs) h = (h.0, Counted-append (suc n) end e fs h.1)

put_frame-old :
    (n k end : ℕ) (e : FrameEvidence) (fs : List (ℕ × FrameEvidence))
    → n ≤ k
    → k < end
    → Counted n fs end
    → Counted n (put_frame k e fs) end
unfolding put_frame
put_frame-old n k end e [] l m h = absurd (omega (arith, l, m, h))
put_frame-old n k end e ((m, d) ∷ fs) l b h = elim (Bool-cases (eqb m k)) [
  | inl same ↦ rw same (ground (arith, h.0), h.1)
  | inr apart ↦ rw apart (h.0, put_frame-old (suc n) k end e fs (ground (arith, h.0)) b h.1)
]

-- What a taken frame and the others have of the whole.
abbrev Taken : (InFlight → Type 0) → List InFlight → Option (InFlight × List InFlight) → Type 0
Taken P ws none = Unit {0}
Taken P ws (some (w, rest)) = (length ws ≡ suc (length rest)) × P w × All P rest

behind-Taken :
    (P : InFlight → Type 0) (v : InFlight) (ws : List InFlight)
    (o : Option (InFlight × List InFlight))
    → P v
    → Taken P ws o
    → Taken P (v ∷ ws) (behind v o)
behind-Taken P v ws none h k = tt
behind-Taken P v ws (some (w, rest)) h k = (ap suc k.0, k.1, (h, k.2))

taken-Taken :
    (P : InFlight → Type 0) (n : ℕ) (ws : List InFlight) → All P ws → Taken P ws (taken n ws)
unfolding taken
taken-Taken P n [] h = tt
taken-Taken P zero (w ∷ ws) h = (refl, h.0, h.1)
taken-Taken P (suc n) (w ∷ ws) h = behind-Taken P w ws (taken n ws) h.0 (taken-Taken P n ws h.1)

-- A frame that is not recorded leaves the intake as it was, and no longer waits.
unsettled-IsAccepted :
    (w : InFlight) (ws : List InFlight) (r q : SessionRuntime)
    → intake q ≡ intake r
    → IsAccepted (intake r) (w ∷ ws)
    → IsAccepted (intake (settled q)) ws
unsettled-IsAccepted w ws r q e a =
    let b = same_intake (w ∷ ws) e a in
    record {
      count = b.count;
      counted = b.counted;
      acked = b.acked;
      below = b.below;
      pending = omega (arith, b.pending);
      bounded = omega (arith, b.bounded);
      bytes = omega (arith, b.bytes);
      due = b.due.1;
    }

All-later :
    (n : ℕ) (ws : List InFlight)
    → All (λ (w : InFlight). w.frame.sequence_no ≤ n) ws
    → All (λ (w : InFlight). w.frame.sequence_no ≤ n + 1) ws
All-later n ws h =
    All-map (λ (w : InFlight). w.frame.sequence_no ≤ n)
      (λ (w : InFlight). w.frame.sequence_no ≤ n + 1) ws (λ w k. omega (arith, k)) h

recorded-IsAccepted :
    (now : ℕ) (w : InFlight) (ws : List InFlight) (r : SessionRuntime)
    → IsAccepted (intake r) (w ∷ ws)
    → IsAccepted (intake (settled (record_frame now w.frame r))) ws
unfolding record_frame
recorded-IsAccepted now w ws r a =
    let k : ℕ = w.frame.sequence_no in
    let e : FrameEvidence = evidence_of w.frame in
    let next : succ (pos k) ≡ pos (k + 1) = ap pos (omega arith) in
    elim (Bool-cases (ltb k a.count)) [
      | inl old ↦ record {
        count = a.count;
        counted =
            put_frame-old 0 k a.count e r.frames (omega arith) (ground (arith, old)) a.counted;
        acked = next;
        below = ground (arith, old);
        pending = omega (arith, a.pending);
        bounded = omega (arith, a.bounded);
        bytes = omega (arith, a.bytes);
        due = a.due.1;
      }
      | inr new ↦
          let same : a.count ≡ k = ground (arith, new, a.due.0) in
          record {
            count = a.count + 1;
            counted =
                subst (λ j. Counted 0 (put_frame j e r.frames) (a.count + 1)) same
                  (subst (λ fs. Counted 0 fs (a.count + 1))
                    (sym (put_frame-new 0 a.count e r.frames a.counted))
                    (Counted-append 0 a.count e r.frames a.counted));
            acked = next;
            below = omega (arith, same);
            pending = omega (arith, a.pending);
            bounded = omega (arith, a.bounded);
            bytes = omega (arith, a.bytes);
            due = All-later a.count ws a.due.1;
          }
    ]

finish_frame-IsAccepted :
    (delivers : ℕ → Bool) (now : ℕ) (o : Acceptance) (w : InFlight) (ws : List InFlight)
    (r : SessionRuntime)
    → IsAccepted (intake r) (w ∷ ws)
    → IsAccepted (intake (finish_frame delivers now o w r)) ws
unfolding finish_frame accept_frame audio_ack_event append append_as prune publish perform
finish_frame-IsAccepted delivers now persisted w ws r a =
    if_elim (λ q. IsAccepted (intake (settled q)) ws) _ (recorded-IsAccepted now w ws r a)
      (unsettled-IsAccepted w ws r r refl a)
finish_frame-IsAccepted delivers now asr_failed w ws r a =
    let status : ServerBody = asr_status (some "ASR_UNAVAILABLE") "unavailable" in
    unsettled-IsAccepted w ws r (publish delivers now status r).0
      (intake-perform now (publish_call delivers status) r refl) a
finish_frame-IsAccepted delivers now failed w ws r a = unsettled-IsAccepted w ws r r refl a

abbrev pub LineIsAccepted : Line → Type 0
LineIsAccepted l = IsAccepted (intake l.runtime) l.waiting

-- One of the frames ends, whichever it is.
end_frame-IsAccepted :
    (delivers : ℕ → Bool) (now : ℕ) (o : Acceptance) (l : Line) (a : LineIsAccepted l)
    (out : Option (InFlight × List InFlight))
    → Taken (λ (w : InFlight). w.frame.sequence_no ≤ a.count) l.waiting out
    → LineIsAccepted (end_frame delivers now o l out)
end_frame-IsAccepted delivers now o l a none k = a
end_frame-IsAccepted delivers now o l a (some (w, ws)) k =
    finish_frame-IsAccepted delivers now o w ws l.runtime (record {
      count = a.count;
      counted = a.counted;
      acked = a.acked;
      below = a.below;
      pending = a.pending ∙ k.0;
      bounded = omega (arith, a.bounded, k.0);
      bytes = omega (arith, a.bytes, k.0);
      due = (k.1, k.2);
    })

abbrev Begun : List InFlight → SessionRuntime × Option InFlight → Type 0
Begun ws (r, o) = IsAccepted (intake r) (joined o ws)

begin_new-IsAccepted :
    (now : ℕ) (c : Client) (frame : AudioFrame) (ws : List InFlight) (r : SessionRuntime)
    → IsAccepted (intake r) ws
    → Begun ws (begin_new now c frame r)
unfolding begin_new
begin_new-IsAccepted now c frame ws r a =
    elim (Bool-cases (eqb frame.sequence_no r.next_audio_sequence)) [
      | inr gap ↦ rw gap (same_intake ws (intake-fail now c "AUDIO_FRAME_GAP" false r) a)
      | inl due ↦
          elim (Bool-cases (leb 20 r.pending_frames || ltb 64000 (r.pending_bytes + 3200))) [
            | inl full ↦
                rw (due, full) (same_intake ws (intake-fail now c "BACKPRESSURE_LIMIT" false r) a)
            | inr room ↦
                rw (due, room)
                  (record {
                    count = a.count;
                    counted = a.counted;
                    acked = a.acked;
                    below = a.below;
                    pending = omega (arith, a.pending);
                    bounded = ground (arith, a.pending, room);
                    bytes = omega (arith, a.bytes);
                    due = (ground (arith, due, a.below), a.due);
                  })
          ]
    ]

begin_frame-IsAccepted :
    (now : ℕ) (c : Client) (frame : AudioFrame) (ws : List InFlight) (r : SessionRuntime)
    → IsAccepted (intake r) ws
    → Begun ws (begin_frame now c frame r)
unfolding begin_frame
begin_frame-IsAccepted now c frame ws r a =
    if_elim (Begun ws) _
      (same_intake ws (intake-fail now c "SESSION_STREAM_ALREADY_ACTIVE" false r) a)
      (matched (frame_matches r frame))
  where
    matched : (o : Option Bool) → Begun ws (begin_matched now c o frame r)
    matched none = begin_new-IsAccepted now c frame ws r a
    matched (some true) = unfold audio_ack_event append append_as prune in a
    matched (some false) = same_intake ws (intake-fail now c "AUDIO_FRAME_CONFLICT" false r) a

or_same-intake :
    (sequence : ℕ) (r : SessionRuntime) → intake (or_same (event_ack sequence r) r) ≡ intake r
unfolding event_ack
or_same-intake sequence r =
    if_elim (λ o. intake (or_same o r) ≡ intake r)
      (not (leb_ℤ r.highest_event_sequence_acked (pos sequence))
        || leb r.next_server_sequence sequence)
      {x = none} {y = some (record r { highest_event_sequence_acked = pos sequence })} refl refl

unless_recorded :
    (now : ℕ) (c : SessionCall) (r : SessionRuntime)
    → intake (if is_record_frame c then r else perform now c r) ≡ intake r
unless_recorded now c r = elim (Bool-cases (is_record_frame c)) [
  | inl e ↦ rw e refl
  | inr e ↦ rw e (intake-perform now c r e)
]

step-IsAccepted :
    (now : ℕ) (e : Event) (l : Line) → LineIsAccepted l → LineIsAccepted (step now e l)
unfolding step interrupted
step-IsAccepted now (frame_begins c frame) l a =
    begin_frame-IsAccepted now c frame l.waiting l.runtime a
step-IsAccepted now (frame_ends at delivers o) l a =
    end_frame-IsAccepted delivers now o l a (taken at l.waiting)
      (taken-Taken (λ (w : InFlight). w.frame.sequence_no ≤ a.count) at l.waiting a.due)
step-IsAccepted now (failed_connection c code reset) l a =
    same_intake l.waiting (intake-fail now c code reset l.runtime) a
step-IsAccepted now (acknowledged sequence) l a =
    same_intake l.waiting (or_same-intake sequence l.runtime) a
step-IsAccepted now interruption l a = a
step-IsAccepted now (other c) l a = same_intake l.waiting (unless_recorded now c l.runtime) a

-- After any events, with several frames waiting at once, the recorded frames have the numbers from 0
-- on, once each and in order; the next number is the one after the last acknowledged frame, and all
-- frames below it are recorded; and what is pending is the frames that wait, at most 20 of 3,200
-- bytes, each with the number of a recorded frame or the one after them; if this was so before.
pub run-IsAccepted :
    (es : List (ℕ × Event)) (l : Line) → LineIsAccepted l → LineIsAccepted (run es l)
unfolding run
run-IsAccepted [] l a = a
run-IsAccepted ((now, e) ∷ es) l a = run-IsAccepted es (step now e l) (step-IsAccepted now e l a)
