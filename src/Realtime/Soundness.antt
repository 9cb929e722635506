-- ===== src/Realtime/Soundness.antt =====
-- The invariant of the transport and of its machine (realtime-transport.ts).
use elder_interview_ai.Prelude.{
  ℕ, suc, ◌*◌, ◌≤◌, ◌≡◌, refl, ◌⊎◌, Bool, Bool-cases, eqb, eqb_iff, sym, subst, true, false, ◌&&◌,
  ◌||◌, not, String, List, [], ◌∷◌, Option, none, some, arith, inl, inr, length, keep, is_some,
  if_elim, ◌==◌, length-keep-le,
}
use elder_interview_ai.Prelude.Int.{ℤ, pos, negsuc, succ, eqb_ℤ, leb_ℤ}
use elder_interview_ai.Realtime.Messages.{
  ServerEnvelope, ServerBody, ClientMessage, Failure, session_ready, calibration_updated, audio_ack,
  asr_interim, asr_final, asr_status, suggestion_changed, error, other, event_ack,
}
use elder_interview_ai.Realtime.Buffer.{
  PendingFrame, set_frame, drop_acked, next_after, total_bytes, HasSequence, FrameFits, IsBuffer,
  is_acked,
}
use elder_interview_ai.Realtime.Transport.{
  Transport, Options, initial, send, update_pending, accept_audio_ack, resend_frames,
  resend_pending_frames, terminal_failure, invalid_message, window_expired,
}
use elder_interview_ai.Realtime.Incoming.{
  apply, apply_body, asr_unavailable, acknowledge, moved_on, is_error, is_ready, other_stream,
  on_server_message, continue_if,
}

HasSequence-keep :
    (n : ℕ) (p : PendingFrame → Bool) (fs : List PendingFrame)
    → HasSequence n (keep p fs)
    → HasSequence n fs
HasSequence-keep n p [] h = h
HasSequence-keep n p (f ∷ fs) h = ground (arith, HasSequence-keep n p fs)

pub IsBuffer-mono : (m n : ℕ) (fs : List PendingFrame) → m ≤ n → IsBuffer m fs → IsBuffer n fs
IsBuffer-mono m n [] h b = tt
IsBuffer-mono m n (f ∷ fs) h ((x, y, z), k, b) = ((x, omega arith, z), k, IsBuffer-mono m n fs h b)

IsBuffer-keep :
    (n : ℕ) (p : PendingFrame → Bool) (fs : List PendingFrame)
    → IsBuffer n fs
    → IsBuffer n (keep p fs)
IsBuffer-keep n p [] b = tt
IsBuffer-keep n p (f ∷ fs) (x, k, b) = ground (
  arith,
  IsBuffer-keep n p fs b,
  λ (h : HasSequence f.sequence (keep p fs)). k (HasSequence-keep f.sequence p fs h),
)

HasSequence-set_frame :
    (n : ℕ) (f : PendingFrame) (fs : List PendingFrame)
    → HasSequence n (set_frame f fs)
    → (f.sequence ≡ n) ⊎ HasSequence n fs
unfolding set_frame
HasSequence-set_frame n f [] h = h
HasSequence-set_frame n f (g ∷ gs) h = ground (arith, HasSequence-set_frame n f gs)

pub IsBuffer-set_frame :
    (n : ℕ) (f : PendingFrame) (fs : List PendingFrame)
    → FrameFits n f
    → IsBuffer n fs
    → IsBuffer n (set_frame f fs)
unfolding set_frame
IsBuffer-set_frame n f [] x b = (x, (λ h. h), tt)
IsBuffer-set_frame n f (g ∷ gs) x (y, k, b) = elim (Bool-cases (eqb g.sequence f.sequence)) [
  | inl e ↦ rw e (x, (λ h. k (subst (λ m. HasSequence m gs) (sym ((eqb_iff _ _).0 e)) h)), b)
  | inr e ↦ rw e (
    y,
    (λ h. elim (HasSequence-set_frame g.sequence f gs h) [
      | inl same ↦ absurd (ground arith)
      | inr old ↦ k old
    ]),
    IsBuffer-set_frame n f gs x b,
  )
]

pub length-set_frame-le :
    (f : PendingFrame) (fs : List PendingFrame) → length (set_frame f fs) ≤ suc (length fs)
unfolding set_frame
length-set_frame-le f [] = omega arith
length-set_frame-le f (g ∷ gs) = ground (arith, length-set_frame-le f gs)

pub total_bytes-IsBuffer :
    (n : ℕ) (fs : List PendingFrame) → IsBuffer n fs → total_bytes fs ≡ 3200 * length fs
unfolding total_bytes
total_bytes-IsBuffer n [] b = refl
total_bytes-IsBuffer n (f ∷ fs) ((x, y, z), k, b) = omega (arith, total_bytes-IsBuffer n fs b)

next_after-le : (n : ℕ) (h : ℤ) → n ≤ next_after n h
unfolding next_after
next_after-le n (pos h) = ground arith
next_after-le n (negsuc h) = omega arith

-- What holds of the transport whatever happens: the buffer is bounded and consistent, the counters
-- and the transcript that listeners see are those of the buffer and of the map of finals, nothing
-- holds a socket after `disconnect` or a terminal failure, a failure is shown exactly then, and
-- the reconnect attempts stay within the configured delays. No sequence number below `n` is free.
pub record IsSound (n : ℕ) (t : Transport) : Type 0 where
  pub floor : n ≤ t.next_audio_sequence
  pub buffer : IsBuffer t.next_audio_sequence t.pending
  pub bounded : length t.pending ≤ 20
  pub frames_shown : t.state.pending_frames ≡ length t.pending
  pub bytes_shown : t.state.pending_bytes ≡ 3200 * length t.pending
  pub finals_shown : t.state.finals ≡ t.finals
  pub stopped : ((t.disposed || t.terminal) && is_some t.socket) ≡ false
  pub failed : is_some t.state.failure_kind ≡ t.terminal
  pub attempts : t.reconnect_attempt ≤ length t.options.reconnect_delays

pub initial-IsSound : (o : Options) → IsSound 0 (initial o)
unfolding initial
initial-IsSound o = ground arith

module _ {n : ℕ} {t : Transport} (v : IsSound n t) where
  pub send-IsSound : (m : ClientMessage) → IsSound n (send m t)
  unfolding send
  send-IsSound m = ground arith

  pub terminal_failure-IsSound : (f : Failure) → IsSound n (terminal_failure f t)
  unfolding terminal_failure
  terminal_failure-IsSound f = ground arith

  pub update_pending-IsSound :
      (h : ℕ) (fs : List PendingFrame)
      → n ≤ h
      → IsBuffer h fs
      → length fs ≤ 20
      → IsSound n (update_pending (record t { pending = fs; next_audio_sequence = h }))
  unfolding update_pending
  update_pending-IsSound h fs k b l = ground (arith, total_bytes-IsBuffer h fs b)

  accept_audio_ack-IsSound : (h : ℤ) → IsSound n (accept_audio_ack h t)
  unfolding accept_audio_ack drop_acked
  accept_audio_ack-IsSound h =
      let kept = IsBuffer-keep _ (λ f. not (is_acked h f.sequence)) t.pending v.buffer in
      update_pending-IsSound _ _ (omega (arith, v.floor, next_after-le t.next_audio_sequence h))
        (IsBuffer-mono _ _ _ (next_after-le t.next_audio_sequence h) kept)
        (omega (
          arith,
          v.bounded,
          length-keep-le (λ (f : PendingFrame). not (is_acked h f.sequence)) t.pending,
        ))

resend_frames-IsSound :
    (fs : List PendingFrame) {n : ℕ} {t : Transport} → IsSound n t → IsSound n (resend_frames fs t)
unfolding resend_frames
resend_frames-IsSound [] v = v
resend_frames-IsSound (f ∷ fs) v = resend_frames-IsSound fs (send-IsSound v _)

apply_body-IsSound :
    (version : String) (b : ServerBody) {n : ℕ} {t : Transport}
    → IsSound n t
    → IsSound n (apply_body version b t).0
unfolding apply_body
apply_body-IsSound version (session_ready stream highest resumed calibration) v =
    ground (arith, accept_audio_ack-IsSound v highest, terminal_failure-IsSound v invalid_message)
apply_body-IsSound version (calibration_updated calibration) v = ground arith
apply_body-IsSound version (audio_ack stream highest) v =
    ground (arith, accept_audio_ack-IsSound v highest, terminal_failure-IsSound v invalid_message)
apply_body-IsSound version (asr_interim p) v = ground arith
apply_body-IsSound version (asr_final p) v = ground arith
apply_body-IsSound version (asr_status code status) v =
    ground (arith, terminal_failure-IsSound v (asr_unavailable code))
apply_body-IsSound version (suggestion_changed kind revision) v =
    ground (arith, terminal_failure-IsSound v invalid_message)
apply_body-IsSound version (error code reset_required) v = terminal_failure-IsSound v _
apply_body-IsSound version (other type) v = v

acknowledge-IsSound :
    (m : ServerEnvelope) {n : ℕ} {t : Transport} → IsSound n t → IsSound n (acknowledge m t)
unfolding acknowledge resend_pending_frames
acknowledge-IsSound m {n} {t} v =
    let moved : IsSound n (moved_on m t) = ground arith in
    let acked =
      if_elim (IsSound n) (is_error m.body) moved
        (send-IsSound moved (event_ack m.server_sequence)) in
    if_elim (IsSound n) (is_ready m.body) (resend_frames-IsSound _ acked) acked

continue_if-IsSound :
    (m : ServerEnvelope) (r : Transport × Bool) {n : ℕ}
    → IsSound n r.0
    → IsSound n (continue_if m r)
continue_if-IsSound m (t, false) v = v
continue_if-IsSound m (t, true) v = acknowledge-IsSound m v

pub on_server_message-IsSound :
    (raw : Option ServerEnvelope) {n : ℕ} {t : Transport}
    → IsSound n t
    → IsSound n (on_server_message raw t)
unfolding on_server_message apply
on_server_message-IsSound none v = terminal_failure-IsSound v _
on_server_message-IsSound (some m) {n} {t} v =
    let expired = terminal_failure-IsSound v window_expired in
    if_elim (IsSound n) (not (m.session_id == t.options.session_id)) v (
      if_elim (IsSound n) (other_stream t.event_stream_id m.event_stream_id) expired (
        if_elim (IsSound n) (not (eqb_ℤ m.server_sequence (succ t.highest_server_sequence)))
          (if_elim (IsSound n) (leb_ℤ m.server_sequence t.highest_server_sequence) v expired)
          (continue_if-IsSound m _ (apply_body-IsSound m.schema_version m.body v))))
