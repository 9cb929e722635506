-- ===== src/Realtime/Ordering.antt =====
-- The order in which server messages take effect (`onServerMessage` of realtime-transport.ts).
use elder_interview_ai.Prelude.{
  ◌≡◌, refl, ◌∙◌, inl, inr, Bool, Bool-cases, true, false, String, List, [], ◌∷◌, Option, some,
  arith, ◌==◌, if_elim,
}
use elder_interview_ai.Prelude.Int.{ℤ, succ, eqb_ℤ, leb_ℤ, eqb_ℤ_iff}
use elder_interview_ai.Realtime.Messages.{
  ServerEnvelope, ServerBody, ClientMessage, Failure, session_ready, audio_ack, asr_status,
  suggestion_changed, error, event_ack,
}
use elder_interview_ai.Realtime.Buffer.{PendingFrame}
use elder_interview_ai.Realtime.Transport.{
  Transport, Options, send, accept_audio_ack, update_pending, resend_frames, resend_pending_frames,
  terminal_failure, invalid_message, window_expired,
}
use elder_interview_ai.Realtime.Incoming.{
  apply_body, asr_unavailable, apply, acknowledge, moved_on, is_error, is_ready, other_stream,
  continue_if, on_server_message,
}

-- Where the transport stands in the server's stream.
abbrev pub Cursor : Type 0
Cursor = Options × Option String × ℤ

abbrev pub cursor : Transport → Cursor
cursor t = (t.options, t.event_stream_id, t.highest_server_sequence)

cursor-send : (m : ClientMessage) (t : Transport) → cursor (send m t) ≡ cursor t
unfolding send
cursor-send m t = ground arith

cursor-terminal_failure : (f : Failure) (t : Transport) → cursor (terminal_failure f t) ≡ cursor t
unfolding terminal_failure
cursor-terminal_failure f t = ground arith

cursor-accept_audio_ack : (h : ℤ) (t : Transport) → cursor (accept_audio_ack h t) ≡ cursor t
unfolding accept_audio_ack update_pending
cursor-accept_audio_ack h t = refl

cursor-resend_frames :
    (fs : List PendingFrame) (t : Transport) → cursor (resend_frames fs t) ≡ cursor t
unfolding resend_frames
cursor-resend_frames [] t = refl
cursor-resend_frames (f ∷ fs) t = cursor-resend_frames fs _ ∙ cursor-send _ t

cursor-apply_body :
    (version : String) (b : ServerBody) (t : Transport)
    → cursor (apply_body version b t).0 ≡ cursor t
unfolding apply_body
cursor-apply_body version (session_ready stream highest resumed calibration) t =
    ground (arith, cursor-accept_audio_ack highest t, cursor-terminal_failure invalid_message t)
cursor-apply_body version (audio_ack stream highest) t =
    ground (arith, cursor-accept_audio_ack highest t, cursor-terminal_failure invalid_message t)
cursor-apply_body version (asr_status code status) t =
    ground (arith, cursor-terminal_failure (asr_unavailable code) t)
cursor-apply_body version (suggestion_changed kind revision) t =
    ground (arith, cursor-terminal_failure invalid_message t)
cursor-apply_body version (error code reset_required) t = cursor-terminal_failure _ t
cursor-apply_body version _ t = ground arith

cursor-acknowledge :
    (m : ServerEnvelope) (t : Transport) → cursor (acknowledge m t) ≡ cursor (moved_on m t)
unfolding acknowledge resend_pending_frames
cursor-acknowledge m t =
    let t1 = moved_on m t in
    let acked =
      if_elim (λ u. cursor u ≡ cursor t1) (is_error m.body) refl
        (cursor-send (event_ack m.server_sequence) t1) in
    if_elim (λ u. cursor u ≡ cursor t1) (is_ready m.body) (cursor-resend_frames _ _ ∙ acked) acked

-- What a message can do. It is ignored, as one of another session or one that was seen before; the
-- transport fails for good; or it is the next of the stream, and the cursor moves to it.
pub data Outcome (m : ServerEnvelope) (t u : Transport) : Type 0 where
  foreign : (m.session_id == t.options.session_id) ≡ false → u ≡ t → Outcome m t u
  repeated :
      other_stream t.event_stream_id m.event_stream_id ≡ false
      → leb_ℤ m.server_sequence t.highest_server_sequence ≡ true
      → u ≡ t
      → Outcome m t u
  failed : u.terminal ≡ true → cursor u ≡ cursor t → Outcome m t u
  accepted :
      other_stream t.event_stream_id m.event_stream_id ≡ false
      → m.server_sequence ≡ succ t.highest_server_sequence
      → cursor u ≡ (t.options, some m.event_stream_id, m.server_sequence)
      → Outcome m t u

terminal-terminal_failure : (f : Failure) (t : Transport) → (terminal_failure f t).terminal ≡ true
unfolding terminal_failure
terminal-terminal_failure f t = ground arith

-- `apply` answers `false` only when it has failed for good.
refused-apply_body :
    (version : String) (b : ServerBody) (t : Transport)
    → (apply_body version b t).1 ≡ false
    → (apply_body version b t).0.terminal ≡ true
unfolding apply_body
refused-apply_body version (session_ready stream highest resumed calibration) t e =
    ground (arith, terminal-terminal_failure invalid_message t)
refused-apply_body version (audio_ack stream highest) t e =
    ground (arith, terminal-terminal_failure invalid_message t)
refused-apply_body version (asr_status code status) t e =
    ground (arith, terminal-terminal_failure (asr_unavailable code) t)
refused-apply_body version (suggestion_changed kind revision) t e =
    ground (arith, terminal-terminal_failure invalid_message t)
refused-apply_body version (error code reset_required) t e = terminal-terminal_failure _ t
refused-apply_body version _ t e = ground arith

continue_if-Outcome :
    (m : ServerEnvelope) (t : Transport) (r : Transport × Bool)
    → other_stream t.event_stream_id m.event_stream_id ≡ false
    → m.server_sequence ≡ succ t.highest_server_sequence
    → cursor r.0 ≡ cursor t
    → (r.1 ≡ false → r.0.terminal ≡ true)
    → Outcome m t (continue_if m r)
continue_if-Outcome m t (u, false) o e c k = failed (k refl) c
continue_if-Outcome m t (u, true) o e c k = accepted o e (cursor-acknowledge m u ∙ ground arith)

-- Every message has one of the four outcomes: in particular the cursor moves only to the next
-- sequence number of its stream, by one, and a message that is not the next changes nothing or
-- ends the transport.
pub on_server_message-Outcome :
    (m : ServerEnvelope) (t : Transport) → Outcome m t (on_server_message (some m) t)
unfolding on_server_message apply
on_server_message-Outcome m t =
    let expired : Outcome m t (terminal_failure window_expired t) =
      failed (terminal-terminal_failure window_expired t)
        (cursor-terminal_failure window_expired t) in
    elim (Bool-cases (m.session_id == t.options.session_id)) [
      | inr e ↦ foreign e (rw e)
      | inl e ↦ rw e (elim (Bool-cases (other_stream t.event_stream_id m.event_stream_id)) [
        | inl o ↦ rw o expired
        | inr o ↦
            rw o (elim (Bool-cases (eqb_ℤ m.server_sequence (succ t.highest_server_sequence))) [
              | inl s ↦ rw s (
                  continue_if-Outcome m t _ o ((eqb_ℤ_iff _ _).0 s)
                    (cursor-apply_body m.schema_version m.body t)
                    (refused-apply_body m.schema_version m.body t))
              | inr s ↦
                  rw s (elim (Bool-cases (leb_ℤ m.server_sequence t.highest_server_sequence)) [
                    | inl k ↦ rw k (repeated o k refl)
                    | inr k ↦ rw k expired
                  ])
            ])
      ])
    ]
