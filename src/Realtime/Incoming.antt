-- ===== src/Realtime/Incoming.antt =====
-- The methods `onServerMessage` and `apply` of realtime-transport.ts. A payload has the type of its
-- message; a text that parses to something that is no envelope is left out.
use elder_interview_ai.Prelude.{
  Bool, true, false, ◌||◌, not, String, List, [], ◌∷◌, ◌++◌, Option, none, some, ◌==◌, ltb,
  if◌then◌else◌, or_else, any,
}
use elder_interview_ai.Prelude.Int.{ℤ, pos, negsuc, succ, eqb_ℤ, leb_ℤ}
use elder_interview_ai.Realtime.Messages.{
  connected, asr, TranscriptFinal, TranscriptInterim, FinalPayload, ServerBody, session_ready,
  calibration_updated, audio_ack, asr_interim, asr_final, asr_status, suggestion_changed, error,
  other, ServerEnvelope, event_ack, Failure, classify_error,
}
use elder_interview_ai.Realtime.Transport.{
  Transport, send, accept_audio_ack, resend_pending_frames, terminal_failure, invalid_message,
  window_expired,
}

abbrev pub to_final : FinalPayload → TranscriptFinal
to_final p = record {
  content_kind = p.content_kind;
  end_ms = p.end_ms;
  segment_id = p.segment_id;
  speaker_role = p.effective_speaker_role;
  speaker_role_authority = p.speaker_role_authority;
  speaker_role_revision = p.speaker_role_revision;
  speaker_stream_id = p.speaker_stream_id;
  trusted_speaker_role = p.trusted_speaker_role;
  start_ms = p.start_ms;
  text = p.text;
}

-- A new hypothesis, or a later revision of the one on display.
abbrev pub supersedes : TranscriptInterim → Option TranscriptInterim → Bool
supersedes p none = true
supersedes p (some current) =
    not (current.hypothesis_id == p.hypothesis_id) || ltb current.revision p.revision

abbrev pub is_presentation_kind : String → Bool
is_presentation_kind kind =
    kind == "suggestion"
    || kind == "continue_listening"
    || kind == "unavailable"
    || kind == "withdrawn"

abbrev pub is_revision : Option ℤ → Bool
is_revision none = false
is_revision (some r) = leb_ℤ (pos 0) r

abbrev pub newer : Option ℤ → Option ℤ → Bool
newer none current = false
newer (some r) current = not (leb_ℤ r (or_else current (negsuc 0)))

abbrev pub asr_unavailable : Option String → Failure
asr_unavailable code = record {
  code = or_else code "ASR_UNAVAILABLE";
  kind = asr;
  reset_required = false;
}

-- The branches of `apply`, by the message's type; the flag is its result.
unfoldable pub apply_body : (schema_version : String) → ServerBody → Transport → Transport × Bool
apply_body version (session_ready stream highest resumed calibration) t =
    if not (stream == t.options.audio_stream_id)
    then (terminal_failure invalid_message t, false)
    else let t' = accept_audio_ack highest t in
      (
        record t' {
          reconnect_attempt = 0;
          state = record (t'.state) {
            calibration = some calibration;
            connection = connected;
            resumed = resumed;
          };
        },
        true,
      )
apply_body version (calibration_updated calibration) t =
    (record t { state = record (t.state) { calibration = some calibration } }, true)
apply_body version (audio_ack stream highest) t =
    if not (stream == t.options.audio_stream_id)
    then (terminal_failure invalid_message t, false)
    else (accept_audio_ack highest t, true)
apply_body version (asr_interim p) t =
    if supersedes p t.state.interim
    then (record t { state = record (t.state) { interim = some p } }, true)
    else (t, true)
apply_body version (asr_final p) t =
    if any (λ f. f.segment_id == p.segment_id) t.finals
    then (t, true)
    else let finals : List TranscriptFinal = t.finals ++ to_final p ∷ [] in
      (
        record t { finals = finals; state = record (t.state) { finals = finals; interim = none } },
        true,
      )
apply_body version (asr_status code status) t =
    if status == "unavailable"
    then (terminal_failure (asr_unavailable code) t, false)
    else (t, true)
apply_body version (suggestion_changed kind revision) t =
    if not (version == "1.2") || not (is_revision revision) || not (is_presentation_kind kind)
    then (terminal_failure invalid_message t, false)
    else if newer revision t.state.suggestion_presentation_revision
    then (
      record t { state = record (t.state) { suggestion_presentation_revision = revision } },
      true,
    )
    else (t, true)
apply_body version (error code reset_required) t = (
  terminal_failure
      (record { code = code; kind = classify_error code; reset_required = reset_required }) t,
  false,
)
apply_body version (other type) t = (t, true)

unfoldable pub apply : ServerEnvelope → Transport → Transport × Bool
apply message t = apply_body message.schema_version message.body t

abbrev pub is_error : ServerBody → Bool
is_error (error code reset_required) = true
is_error _ = false

abbrev pub is_ready : ServerBody → Bool
is_ready (session_ready stream highest resumed calibration) = true
is_ready _ = false

abbrev pub moved_on : ServerEnvelope → Transport → Transport
moved_on m t = record t {
  event_stream_id = some m.event_stream_id;
  highest_server_sequence = m.server_sequence;
}

-- The rest of `onServerMessage`, after `apply`.
unfoldable pub acknowledge : ServerEnvelope → Transport → Transport
acknowledge m t =
    let t1 = moved_on m t in
    let t2 = if is_error m.body then t1 else send (event_ack m.server_sequence) t1 in
    if is_ready m.body then resend_pending_frames t2 else t2

abbrev pub other_stream : Option String → String → Bool
other_stream none id = false
other_stream (some stream) id = not (id == stream)

abbrev pub continue_if : ServerEnvelope → Transport × Bool → Transport
continue_if m (t, false) = t
continue_if m (t, true) = acknowledge m t

-- `onServerMessage`; `none` is a text that `JSON.parse` refuses.
unfoldable pub on_server_message : Option ServerEnvelope → Transport → Transport
on_server_message none t = terminal_failure invalid_message t
on_server_message (some m) t =
    if not (m.session_id == t.options.session_id)
    then t
    else if other_stream t.event_stream_id m.event_stream_id
    then terminal_failure window_expired t
    else if not (eqb_ℤ m.server_sequence (succ t.highest_server_sequence))
    then (if leb_ℤ m.server_sequence t.highest_server_sequence
        then t
        else terminal_failure window_expired t)
    else continue_if m (apply m t)
