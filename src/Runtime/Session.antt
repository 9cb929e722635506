-- ===== src/Runtime/Session.antt =====
-- `SessionRuntime` of realtime-runtime.service.ts and the methods that read or write one runtime. A
-- method takes the time of its call and the random identifiers that it draws. A client, a subscriber
-- and an authorizer are the number of the connection they belong to.
use elder_interview_ai.Prelude.{
  ℕ, zero, suc, ◌+◌, ◌-◌, Bool, false, ◌&&◌, ◌||◌, not, String, List, [], ◌∷◌, ◌++◌, Option, none,
  some, ◌==◌, eqb, leb, if◌then◌else◌, keep, length,
}
use elder_interview_ai.Prelude.Int.{ℤ, pos, negsuc, leb_ℤ}
use elder_interview_ai.Realtime.Messages.{ServerEnvelope, ServerBody, AudioFrame}

abbrev pub max_events : ℕ
max_events = 512

abbrev pub max_age_ms : ℕ
max_age_ms = 300000

pub record StoredEvent : Type 0 where
  pub created_at : ℕ
  pub envelope : ServerEnvelope

pub record FrameEvidence : Type 0 where
  pub end_ms : ℕ
  pub pcm_sha256 : String
  pub start_ms : ℕ

-- The causal queue is left out, so that calls come in any order; the sets are lists.
pub record SessionRuntime : Type 0 where
  pub asr_attempt_id : Option String
  pub asr_provider_namespace_id : Option String
  pub asr_provider_request_id : Option String
  pub audio_stream_id : String
  pub capture_generation_id : String
  pub event_stream_id : String
  pub events : List StoredEvent
  pub frames : List (ℕ × FrameEvidence)
  pub highest_audio_sequence_acked : ℤ
  pub highest_event_sequence_acked : ℤ
  pub last_touched_at : ℕ
  pub next_server_sequence : ℕ
  pub next_audio_sequence : ℕ
  pub pending_bytes : ℕ
  pub pending_frames : ℕ
  pub producer : Option ℕ
  pub producer_lease : ℕ
  pub published_final_segment_ids : List String
  pub published_calibration_labels : List String
  pub session_id : String
  pub speaker_stream_id : String
  pub timeline_offset_ms : ℕ
  pub subscriber : Option ℕ
  pub notification_authorizer : Option ℕ

-- `Date.now() - lastTouchedAt <= MAX_AGE_MS`
unfoldable pub is_fresh : (now : ℕ) → SessionRuntime → Bool
is_fresh now r = leb now (r.last_touched_at + max_age_ms)

-- The object that `buildRuntime` enters in the map.
unfoldable pub build_runtime :
    (now : ℕ) (session_id audio_stream_id speaker_stream_id capture_generation_id : String)
    (event_stream_id : String) (timeline_offset_ms : ℕ)
    → SessionRuntime
build_runtime now session audio speaker generation event_stream offset = record {
  asr_attempt_id = none;
  asr_provider_namespace_id = none;
  asr_provider_request_id = none;
  audio_stream_id = audio;
  capture_generation_id = generation;
  event_stream_id = event_stream;
  events = [];
  frames = [];
  highest_audio_sequence_acked = negsuc 0;
  highest_event_sequence_acked = negsuc 0;
  last_touched_at = now;
  next_server_sequence = 0;
  next_audio_sequence = 0;
  pending_bytes = 0;
  pending_frames = 0;
  producer = none;
  producer_lease = 0;
  published_final_segment_ids = [];
  published_calibration_labels = [];
  session_id = session;
  speaker_stream_id = speaker;
  timeline_offset_ms = offset;
  subscriber = none;
  notification_authorizer = none;
}

pub record AsrIdentity : Type 0 where
  pub attempt_id : String
  pub provider_namespace_id : String
  pub provider_request_id : String
  pub speaker_stream_id : String

unfoldable pub bind_asr_attempt : (now : ℕ) → AsrIdentity → SessionRuntime → SessionRuntime
bind_asr_attempt now identity r = record r {
  asr_attempt_id = some identity.attempt_id;
  asr_provider_namespace_id = some identity.provider_namespace_id;
  asr_provider_request_id = some identity.provider_request_id;
  speaker_stream_id = identity.speaker_stream_id;
  last_touched_at = now;
}

abbrev pub same : Option String → String → Bool
same none b = false
same (some a) b = a == b

-- The tests of `isAsrAttemptCurrent` on the runtime's fields.
unfoldable pub attempt_matches : AsrIdentity → SessionRuntime → Bool
attempt_matches identity r =
    same r.asr_attempt_id identity.attempt_id
    && same r.asr_provider_namespace_id identity.provider_namespace_id
    && same r.asr_provider_request_id identity.provider_request_id
    && r.speaker_stream_id == identity.speaker_stream_id

-- What `rotateSpeakerStream` does to the runtime once it has the new stream.
unfoldable pub rotated : (now : ℕ) (speaker_stream_id : String) → SessionRuntime → SessionRuntime
rotated now stream r = record r {
  speaker_stream_id = stream;
  published_calibration_labels = [];
  last_touched_at = now;
}

module _ {A : Type 0} where
  unfoldable pub drop : ℕ → List A → List A
  drop zero xs = xs
  drop (suc n) [] = []
  drop (suc n) (x ∷ xs) = drop n xs

  -- `list.slice(-n)`, for a positive n.
  unfoldable pub take_last : ℕ → List A → List A
  take_last n xs = drop (length xs - n) xs

-- `createdAt >= Date.now() - MAX_AGE_MS`
abbrev pub in_window : (now : ℕ) → StoredEvent → Bool
in_window now e = leb now (e.created_at + max_age_ms)

unfoldable pub prune : (now : ℕ) → SessionRuntime → SessionRuntime
unfolding take_last
prune now r = record r { events = take_last max_events (keep (in_window now) r.events) }

abbrev pub envelope_of : (schema_version : String) → ServerBody → SessionRuntime → ServerEnvelope
envelope_of version body r = record {
  event_stream_id = r.event_stream_id;
  schema_version = version;
  server_sequence = pos r.next_server_sequence;
  session_id = r.session_id;
  body = body;
}

abbrev pub pushed :
    (now : ℕ) (schema_version : String) → ServerBody → SessionRuntime → SessionRuntime
pushed now version body r = record r {
  next_server_sequence = r.next_server_sequence + 1;
  last_touched_at = now;
  events = r.events ++ record { created_at = now; envelope = envelope_of version body r } ∷ [];
}

-- The body of `append`, and the same lines of `publishSuggestionChanged` with another version.
unfoldable pub append_as :
    (now : ℕ) (schema_version : String)
    → ServerBody
    → SessionRuntime
    → SessionRuntime × ServerEnvelope
append_as now version body r = (prune now (pushed now version body r), envelope_of version body r)

unfoldable pub append : (now : ℕ) → ServerBody → SessionRuntime → SessionRuntime × ServerEnvelope
append now body r = append_as now "1.1" body r

-- The subscriber of the connection is called; `delivers` says whether it returns. One that throws is
-- dropped, with what else its `catch` drops.
unfoldable pub call_subscriber :
    (delivers : ℕ → Bool) (caught : SessionRuntime → SessionRuntime)
    → Option ℕ
    → SessionRuntime
    → SessionRuntime
call_subscriber delivers caught none r = r
call_subscriber delivers caught (some c) r = if delivers c then r else caught r

abbrev pub unsubscribed : SessionRuntime → SessionRuntime
unsubscribed r = record r { subscriber = none; notification_authorizer = none }

unfoldable pub publish :
    (delivers : ℕ → Bool) (now : ℕ) → ServerBody → SessionRuntime → SessionRuntime × ServerEnvelope
publish delivers now body r =
    let (r', envelope) = append now body r in
    (call_subscriber delivers unsubscribed r'.subscriber r', envelope)

-- `publishSuggestionChanged` after its authorizer has answered. A subscriber that has gone in the
-- meantime is called all the same, and the throw is caught.
unfoldable pub publish_suggestion :
    (delivers : ℕ → Bool) (now : ℕ) (authorized : Bool) (kind : String) (revision : Option ℤ)
    → SessionRuntime
    → SessionRuntime
publish_suggestion delivers now authorized kind revision r =
    if not authorized
    then r
    else let (r', envelope) = append_as now "1.2" (ServerBody.suggestion_changed kind revision) r in
      call_subscriber delivers (λ q. record q { subscriber = none }) r'.subscriber r'

unfoldable pub subscribe : (client : ℕ) → SessionRuntime → SessionRuntime
subscribe client r = record r { subscriber = some client }

unfoldable pub authorize_notifications : (client : ℕ) → SessionRuntime → SessionRuntime
authorize_notifications client r = record r { notification_authorizer = some client }

abbrev pub earliest : List StoredEvent → ℕ → ℤ
earliest [] next = pos next
earliest (e ∷ es) next = e.envelope.server_sequence

-- `sequence < earliest - 1`, for a sequence that is not negative.
abbrev pub before : ℕ → ℤ → Bool
before sequence first = not (leb_ℤ first (pos (suc sequence)))

abbrev pub is_after : ℕ → StoredEvent → Bool
is_after sequence e = not (leb_ℤ e.envelope.server_sequence (pos sequence))

-- `replayAfter`, for a sequence that is not negative.
unfoldable pub replay_after :
    (now sequence : ℕ) → SessionRuntime → SessionRuntime × Option (List StoredEvent)
replay_after now sequence r =
    let r' = prune now r in
    if before sequence (earliest r'.events r'.next_server_sequence)
      || leb r'.next_server_sequence sequence
    then (r', none)
    else (r', some (keep (is_after sequence) r'.events))

unfoldable pub get_frame : ℕ → List (ℕ × FrameEvidence) → Option FrameEvidence
get_frame n [] = none
get_frame n ((m, e) ∷ fs) = if eqb m n then some e else get_frame n fs

unfoldable pub put_frame : ℕ → FrameEvidence → List (ℕ × FrameEvidence) → List (ℕ × FrameEvidence)
put_frame n e [] = (n, e) ∷ []
put_frame n e ((m, d) ∷ fs) = if eqb m n then (n, e) ∷ fs else (m, d) ∷ put_frame n e fs

abbrev pub evidence_of : AudioFrame → FrameEvidence
evidence_of frame = record {
  end_ms = frame.end_ms;
  pcm_sha256 = frame.pcm_sha256;
  start_ms = frame.start_ms;
}

abbrev pub matches : AudioFrame → Option FrameEvidence → Option Bool
matches frame none = none
matches frame (some e) =
    some (
      e.pcm_sha256 == frame.pcm_sha256
      && eqb e.start_ms frame.start_ms
      && eqb e.end_ms frame.end_ms)

unfoldable pub frame_matches : SessionRuntime → AudioFrame → Option Bool
unfolding get_frame
frame_matches r frame = matches frame (get_frame frame.sequence_no r.frames)

unfoldable pub record_frame : (now : ℕ) → AudioFrame → SessionRuntime → SessionRuntime
record_frame now frame r = record r {
  frames = put_frame frame.sequence_no (evidence_of frame) r.frames;
  highest_audio_sequence_acked = pos frame.sequence_no;
  next_audio_sequence = frame.sequence_no + 1;
  last_touched_at = now;
}

abbrev pub is_client : Option ℕ → ℕ → Bool
is_client none client = false
is_client (some p) client = eqb p client

unfoldable pub release : (now client : ℕ) → SessionRuntime → SessionRuntime
release now client r =
    if is_client r.producer client
    then record r {
      producer = none;
      producer_lease = r.producer_lease + 1;
      subscriber = none;
      last_touched_at = now;
    }
    else record r { last_touched_at = now }

unfoldable pub claim : (now client : ℕ) → SessionRuntime → SessionRuntime × ℕ
claim now client r = (
  record r { producer = some client; producer_lease = r.producer_lease + 1; last_touched_at = now },
  r.producer_lease + 1,
)

unfoldable pub is_producer_lease_current : SessionRuntime → (client lease : ℕ) → Bool
is_producer_lease_current r client lease = is_client r.producer client && eqb r.producer_lease lease

-- What `interruptCapture` and `interruptSession` do to a runtime that they find.
unfoldable pub interrupted : (now : ℕ) → SessionRuntime → SessionRuntime
interrupted now r = record r {
  producer = none;
  producer_lease = r.producer_lease + 1;
  last_touched_at = now;
}
