-- ===== src/Realtime/Frames.antt =====
-- The frames that the capture sends, and what the server's acknowledgements do to them
-- (`sendPcmFrame`, `acceptAudioAck`, `resendPendingFrames` of realtime-transport.ts).
use mathlib.Core.List.{append_assoc}
use elder_interview_ai.Prelude.{
  ℕ, suc, ◌+◌, ◌*◌, ◌<◌, ◌≡◌, refl, ◌∙◌, ap, sym, subst, ◌↔◌, ◌⊎◌, inl, inr, Bool-cases, eqb, leb,
  keep, not, ◌||◌, if◌then◌else◌, Option, none, Bool, true, false, String, List, [], ◌∷◌, ◌++◌, map,
  some, arith, length, length-append, ◌==◌,
}
use elder_interview_ai.Prelude.Int.{ℤ, pos, negsuc, leb_ℤ, succ, eqb_ℤ}
use elder_interview_ai.Realtime.Messages.{
  connected, AudioFrame, ServerEnvelope, session_ready, ClientMessage, audio_frame, event_ack,
}
use elder_interview_ai.Realtime.Buffer.{
  PendingFrame, set_frame, drop_acked, is_acked, HasSequence, IsBuffer,
}
use elder_interview_ai.Realtime.Transport.{
  Effect, Transport, Socket, sent, send, update_pending, accept_audio_ack, resend_frames,
  resend_pending_frames,
}
use elder_interview_ai.Realtime.Incoming.{
  apply, apply_body, acknowledge, moved_on, other_stream, on_server_message,
}
use elder_interview_ai.Realtime.Lifecycle.{
  range_error, refused, digesting, send_start, send_finish, frame_of, cannot_send_frames,
}
use elder_interview_ai.Realtime.Soundness.{IsSound}

still_there :
    (h : ℤ) (n : ℕ) (fs : List PendingFrame)
    → HasSequence n (drop_acked h fs)
    → HasSequence n fs × (is_acked h n ≡ false)
unfolding drop_acked
still_there h n [] k = absurd k
still_there h n (f ∷ fs) k = ground (arith, still_there h n fs)

not_acked :
    (h : ℤ) (n : ℕ) (fs : List PendingFrame)
    → HasSequence n fs
    → is_acked h n ≡ false
    → HasSequence n (drop_acked h fs)
unfolding drop_acked
not_acked h n [] k e = k
not_acked h n (f ∷ fs) k e = ground (arith, not_acked h n fs)

-- An acknowledgement removes exactly the frames up to it: a frame is still in the buffer if and
-- only if it was there and its number is not acknowledged.
pub HasSequence-accept_audio_ack :
    (h : ℤ) (n : ℕ) (t : Transport)
    → HasSequence n (accept_audio_ack h t).pending
      ↔ (HasSequence n t.pending × (is_acked h n ≡ false))
unfolding accept_audio_ack update_pending
HasSequence-accept_audio_ack h n t =
    (still_there h n t.pending, λ k. not_acked h n t.pending k.0 k.1)

set_frame-append :
    (f : PendingFrame) (fs : List PendingFrame)
    → IsBuffer f.sequence fs
    → set_frame f fs ≡ fs ++ f ∷ []
unfolding set_frame
set_frame-append f [] b = refl
set_frame-append f (g ∷ gs) (x, k, b) = ground (arith, set_frame-append f gs b)

-- What a message does on this socket, if there is one.
abbrev pub over : Option Socket → ClientMessage → List Effect
over none m = []
over (some s) m = if s.is_open then sent s.id m ∷ [] else []

-- What messages that are sent one after another do, the last one first.
abbrev pub heard : Option Socket → List ClientMessage → List Effect
heard o [] = []
heard o (m ∷ ms) = heard o ms ++ over o m

send_lem :
    (m : ClientMessage) (t : Transport)
    → t.terminal ≡ false
    → send m t ≡ record t { emitted = over t.socket m ++ t.emitted }
unfolding send
send_lem m t live = ground arith

-- The frame of these samples with this number: it lasts the tenth of a second that begins there.
abbrev pub the_frame : Transport → ℕ → List ℕ → String → AudioFrame
the_frame t n pcm digest = record {
  audio_stream_id = t.options.audio_stream_id;
  end_ms = n * 100 + 100;
  pcm_base64 = t.options.to_base64 pcm;
  pcm_sha256 = digest;
  sequence_no = n;
  start_ms = n * 100;
}

-- The frame has the next number and the end of the buffer, and is sent if there is an open socket.
abbrev pub IsSent : List ℕ → String → Transport → Type 0
IsSent pcm digest t =
    let n = t.next_audio_sequence in
    let (u, accepted) = send_finish n pcm digest t in
    (accepted ≡ true)
    × (u.next_audio_sequence ≡ n + 1)
    × (u.pending
        ≡ t.pending
          ++ record { sequence = n; payload = the_frame t n pcm digest; raw_bytes = 3200 } ∷ [])
    × (u.emitted ≡ over t.socket (audio_frame (the_frame t n pcm digest)) ++ t.emitted)

send_finish-IsSent :
    (pcm : List ℕ) (digest : String) (n : ℕ) (t : Transport)
    → IsSound n t
    → length pcm ≡ 3200
    → cannot_send_frames t ≡ false
    → length t.pending < 20
    → IsSent pcm digest t
unfolding send_finish send update_pending
send_finish-IsSent pcm digest n t v whole runs room =
    let f : PendingFrame = record {
      sequence = t.next_audio_sequence;
      payload = the_frame t t.next_audio_sequence pcm digest;
      raw_bytes = length pcm;
    } in
    ground (arith, set_frame-append f t.pending v.buffer)

-- A call of `sendPcmFrame` on a sound transport that overlaps with no other refuses samples of another length than 3,200
-- bytes; it refuses a frame when the transport has been stopped or 20 frames wait; and else it gives
-- the frame the next number and the times of that number, puts it at the end of the buffer, and
-- sends it if there is an open socket.
pub send_finish_serial :
    (pcm : List ℕ) (digest : String) (n : ℕ) (t : Transport)
    → IsSound n t
    → ((send_start pcm t ≡ range_error) × ¬ (length pcm ≡ 3200))
      ⊎ ((send_start pcm t ≡ refused)
          × (length pcm ≡ 3200)
          × (((t.disposed || t.terminal) ≡ true) ⊎ (length t.pending ≡ 20)))
      ⊎ ((send_start pcm t ≡ digesting t.next_audio_sequence)
          × (length pcm ≡ 3200)
          × ((t.disposed || t.terminal) ≡ false)
          × (length t.pending < 20)
          × IsSent pcm digest t)
unfolding send_start
send_finish_serial pcm digest n t v = elim (Bool-cases (eqb (length pcm) 3200)) [
  | inr other ↦ inl (ground arith, ground arith)
  | inl whole ↦ elim (Bool-cases (cannot_send_frames t || leb 20 (length t.pending))) [
    | inl full ↦ inr (inl (ground arith, ground arith, ground (arith, v.bounded)))
    | inr room ↦ inr (
        inr (
          ground arith,
          ground arith,
          ground arith,
          ground arith,
          send_finish-IsSent pcm digest n t v (ground arith) (ground arith) (ground arith),
        ))
  ]
]

resend_frames-emitted :
    (fs : List PendingFrame) (t : Transport)
    → t.terminal ≡ false
    → (resend_frames fs t).emitted
      ≡ heard t.socket (map (λ f. audio_frame f.payload) fs) ++ t.emitted
unfolding resend_frames
resend_frames-emitted [] t live = refl
resend_frames-emitted (f ∷ fs) t live =
    let m = audio_frame f.payload in
    let next : Transport = record t { emitted = over t.socket m ++ t.emitted } in
    ap (λ (u : Transport). (resend_frames fs u).emitted) (send_lem m t live)
    ∙ (resend_frames-emitted fs next live
        ∙ sym (
            append_assoc (heard t.socket (map (λ g. audio_frame g.payload) fs)) (over t.socket m)
              t.emitted))

send-pending : (m : ClientMessage) (t : Transport) → (send m t).pending ≡ t.pending
unfolding send
send-pending m t = ground arith

resend_frames-pending :
    (fs : List PendingFrame) (t : Transport) → (resend_frames fs t).pending ≡ t.pending
unfolding resend_frames
resend_frames-pending [] t = refl
resend_frames-pending (f ∷ fs) t = resend_frames-pending fs _ ∙ send-pending _ t

send-cursor :
    (m : ClientMessage) (t : Transport)
    → (send m t).highest_server_sequence ≡ t.highest_server_sequence
unfolding send
send-cursor m t = ground arith

resend_frames-cursor :
    (fs : List PendingFrame) (t : Transport)
    → (resend_frames fs t).highest_server_sequence ≡ t.highest_server_sequence
unfolding resend_frames
resend_frames-cursor [] t = refl
resend_frames-cursor (f ∷ fs) t = resend_frames-cursor fs _ ∙ send-cursor _ t

abbrev pub ready : ServerEnvelope → String → ℤ → Bool → String → ServerEnvelope
ready m stream highest resumed calibration = record m {
  body = session_ready stream highest resumed calibration;
}

-- The cursor is at the message, and these frames are kept, and sent after its acknowledgement.
abbrev pub IsResent : ServerEnvelope → List PendingFrame → Transport → Transport → Type 0
IsResent m kept t u =
    (u.highest_server_sequence ≡ m.server_sequence)
    × (u.pending ≡ kept)
    × (u.emitted
        ≡ heard t.socket (event_ack m.server_sequence ∷ map (λ f. audio_frame f.payload) kept)
          ++ t.emitted)

acknowledge-ready :
    (m : ServerEnvelope) (stream : String) (highest : ℤ) (resumed : Bool) (calibration : String)
    (t : Transport)
    → t.terminal ≡ false
    → IsResent m t.pending t (acknowledge (ready m stream highest resumed calibration) t)
unfolding acknowledge resend_pending_frames
acknowledge-ready m stream highest resumed calibration t live =
    let ack : ClientMessage = event_ack m.server_sequence in
    let t1 = moved_on m t in
    let frames = map (λ f. audio_frame f.payload) t.pending in
    let next : Transport = record t1 { emitted = over t.socket ack ++ t.emitted } in
    rw (send_lem ack t1 live) (
      resend_frames-cursor t.pending next,
      resend_frames-pending t.pending next,
      resend_frames-emitted t.pending next live
          ∙ sym (append_assoc (heard t.socket frames) (over t.socket ack) t.emitted),
    )

-- The frames with a greater number than `highest`.
abbrev pub later_than : ℤ → List PendingFrame → List PendingFrame
later_than highest = keep (λ f. not (leb_ℤ (pos f.sequence) highest))

drop_acked_lem :
    (highest : ℤ) (fs : List PendingFrame) → drop_acked highest fs ≡ later_than highest fs
unfolding drop_acked
drop_acked_lem (pos h) fs = refl
drop_acked_lem (negsuc h) fs = refl

resent :
    (m : ServerEnvelope) (stream : String) (highest : ℤ) (resumed : Bool) (calibration : String)
    (t : Transport)
    → (m.session_id == t.options.session_id) ≡ true
    → other_stream t.event_stream_id m.event_stream_id ≡ false
    → eqb_ℤ m.server_sequence (succ t.highest_server_sequence) ≡ true
    → (stream == t.options.audio_stream_id) ≡ true
    → t.terminal ≡ false
    → IsResent m
        (drop_acked highest t.pending)
        t
        (on_server_message (some (ready m stream highest resumed calibration)) t)
unfolding on_server_message apply apply_body accept_audio_ack update_pending
resent m stream highest resumed calibration t a b c d live =
    let heeded : Transport = accept_audio_ack highest t in
    let t1 : Transport = record heeded {
      reconnect_attempt = 0;
      state = record (heeded.state) {
        calibration = some calibration;
        connection = connected;
        resumed = resumed;
      };
    } in
    rw (a, b, c, d) (acknowledge-ready m stream highest resumed calibration t1 live)

-- When the server is ready again (the next message of the stream, for this audio stream), the cursor
-- moves to the message, the frames with greater numbers than the one it acknowledges, and only
-- those, are kept, and if there is an open socket they are sent once more in their old order, right
-- after the acknowledgement of the message.
pub on_server_message-ready :
    (m : ServerEnvelope) (stream : String) (highest : ℤ) (resumed : Bool) (calibration : String)
    (t : Transport)
    → (m.session_id == t.options.session_id) ≡ true
    → other_stream t.event_stream_id m.event_stream_id ≡ false
    → eqb_ℤ m.server_sequence (succ t.highest_server_sequence) ≡ true
    → (stream == t.options.audio_stream_id) ≡ true
    → t.terminal ≡ false
    → IsResent m
        (later_than highest t.pending)
        t
        (on_server_message (some (ready m stream highest resumed calibration)) t)
on_server_message-ready m stream highest resumed calibration t a b c d live =
    subst
      (λ fs.
        IsResent m fs t (on_server_message (some (ready m stream highest resumed calibration)) t))
      (drop_acked_lem highest t.pending)
      (resent m stream highest resumed calibration t a b c d live)

set_frame-replace :
    (f g : PendingFrame) (fs : List PendingFrame)
    → IsBuffer g.sequence fs
    → f.sequence ≡ g.sequence
    → set_frame g (fs ++ f ∷ []) ≡ fs ++ g ∷ []
unfolding set_frame
set_frame-replace f g [] b e = ground arith
set_frame-replace f g (h ∷ hs) (x, k, b) e = ground (arith, set_frame-replace f g hs b)

abbrev pending_of : Transport → ℕ → List ℕ → String → PendingFrame
pending_of t k pcm digest = record {
  sequence = k;
  payload = frame_of t k pcm digest;
  raw_bytes = length pcm;
}

record Finished (k : ℕ) (pcm : List ℕ) (digest : String) (t u : Transport) : Type 0 where
  running : cannot_send_frames u ≡ false
  next : u.next_audio_sequence ≡ suc t.next_audio_sequence
  pending : u.pending ≡ set_frame (pending_of t k pcm digest) t.pending
  options : u.options ≡ t.options

finished :
    (k : ℕ) (pcm : List ℕ) (digest : String) (t : Transport)
    → cannot_send_frames t ≡ false
    → length t.pending < 20
    → Finished k pcm digest t (send_finish k pcm digest t).0
unfolding send_finish send update_pending
finished k pcm digest t c l = ground arith

-- Calls of `sendPcmFrame` must not overlap (the capture chains them): when a second call begins
-- before the first has its digest, both take the same number. The second frame then replaces the
-- first in the buffer, so that only it would be sent again, and the number after it is skipped.
pub send_finish_overlap :
    (pcm pcm' : List ℕ) (digest digest' : String) (n : ℕ) (t : Transport)
    → IsSound n t
    → send_start pcm t ≡ digesting t.next_audio_sequence
    → send_start pcm' t ≡ digesting t.next_audio_sequence
    → length t.pending + 1 < 20
    → let k = t.next_audio_sequence in
      let u = (send_finish k pcm' digest' (send_finish k pcm digest t).0).0 in
      (u.next_audio_sequence ≡ t.next_audio_sequence + 2)
      × (u.pending
          ≡ t.pending
            ++ record { sequence = k; payload = frame_of t k pcm' digest'; raw_bytes = 3200 } ∷ [])
unfolding send_start
send_finish_overlap pcm pcm' digest digest' n t v b b' l =
    let k = t.next_audio_sequence in
    let p = finished k pcm digest t (ground arith) (omega arith) in
    let f = pending_of t k pcm digest in
    let first = p.pending ∙ set_frame-append f t.pending v.buffer in
    let q =
      finished k pcm' digest' (send_finish k pcm digest t).0 p.running
        (rw first (omega (arith, length-append t.pending (f ∷ [])))) in
    let whole : length pcm' ≡ 3200 = ground arith in
    (
      omega (arith, p.next, q.next),
      q.pending
          ∙ (ap (set_frame (pending_of (send_finish k pcm digest t).0 k pcm' digest')) first
              ∙ (set_frame-replace f _ t.pending v.buffer refl
                  ∙ ap (λ g. t.pending ++ g ∷ []) (rw (p.options, whole)))),
    )
