-- ===== src/Runtime/Service.antt =====
-- `RealtimeRuntimeService` of realtime-runtime.service.ts over its map of sessions. A runtime is an
-- object that callers keep, also after another has taken its place in the map: it is an index into
-- the list of all that were made. The speaker streams are the table that `create` writes.
use elder_interview_ai.Prelude.{
  ℕ, zero, suc, Bool, true, false, ◌&&◌, ◌||◌, String, List, [], ◌∷◌, ◌++◌, Option, none, some,
  ◌==◌, eqb, if◌then◌else◌, length, get_elem?, is_some, map,
}
use elder_interview_ai.Prelude.Map.{Map, get, set}
use elder_interview_ai.Runtime.Session.{
  SessionRuntime, AsrIdentity, is_fresh, build_runtime, attempt_matches, rotated, prune,
  interrupted,
}

-- A row of `SpeakerStream`; one that is not active is closed, at the time given.
pub record SpeakerStream : Type 0 where
  pub id : String
  pub session_id : String
  pub capture_generation_id : String
  pub is_active : Bool
  pub closed_at : Option ℕ

pub record System : Type 0 where
  pub runtimes : List SessionRuntime
  pub sessions : Map ℕ
  pub speaker_streams : List SpeakerStream

abbrev pub initial : System
initial = record { runtimes = []; sessions = []; speaker_streams = [] }

module _ {A : Type 0} where
  -- A write to the object with this index.
  unfoldable pub modify_at : ℕ → (A → A) → List A → List A
  modify_at i f [] = []
  modify_at zero f (x ∷ xs) = f x ∷ xs
  modify_at (suc i) f (x ∷ xs) = x ∷ modify_at i f xs

abbrev pub on_runtime : ℕ → (SessionRuntime → SessionRuntime) → System → System
on_runtime ref f s = record s { runtimes = modify_at ref f s.runtimes }

abbrev pub object_of : Option ℕ → List SessionRuntime → Option (ℕ × SessionRuntime)
object_of none rs = none
object_of (some ref) rs = elim (get_elem? rs ref) [ none ↦ none | some r ↦ some (ref, r) ]

-- `this.sessions.get(sessionId)`
unfoldable pub current : String → System → Option (ℕ × SessionRuntime)
current session s = object_of (get session s.sessions) s.runtimes

abbrev pub is_ref : Option ℕ → ℕ → Bool
is_ref none ref = false
is_ref (some i) ref = eqb i ref

-- `this.sessions.get(runtime.sessionId) === runtime`
unfoldable pub is_current : (session_id : String) → ℕ → System → Bool
is_current session ref s = is_ref (get session s.sessions) ref

abbrev pub reusable_object :
    (now : ℕ) (audio_stream_id : String) → Option (ℕ × SessionRuntime) → Option ℕ
reusable_object now audio none = none
reusable_object now audio (some (ref, r)) =
    if is_fresh now r && (r.audio_stream_id == audio || is_some r.producer) then some ref else none

-- The runtime that `create` answers with at once.
unfoldable pub reusable : (now : ℕ) (session_id audio_stream_id : String) → System → Option ℕ
reusable now session audio s = reusable_object now audio (current session s)

abbrev pub close_stream : (now : ℕ) (session_id : String) → SpeakerStream → SpeakerStream
close_stream now session row =
    if row.session_id == session && row.is_active
    then record row { is_active = false; closed_at = some now }
    else row

-- The transaction of `create` and of `rotateSpeakerStream`.
unfoldable pub open_stream :
    (now : ℕ) (id session_id capture_generation_id : String)
    → List SpeakerStream
    → List SpeakerStream
open_stream now id session generation rows =
    map (close_stream now session) rows
    ++ record {
      id = id;
      session_id = session;
      capture_generation_id = generation;
      is_active = true;
      closed_at = none;
    }
      ∷ []

-- `buildRuntime` after the transaction; the new object is the last.
unfoldable pub open_runtime :
    (now : ℕ) (session_id audio_stream_id capture_generation_id : String)
    (speaker_stream_id event_stream_id : String) (timeline_offset_ms : ℕ)
    → System
    → System × ℕ
open_runtime now session audio generation speaker event_stream offset s = (
  record s {
    runtimes =
        s.runtimes ++ build_runtime now session audio speaker generation event_stream offset ∷ [];
    sessions = set session (length s.runtimes) s.sessions;
    speaker_streams = open_stream now speaker session generation s.speaker_streams;
  },
  length s.runtimes,
)

abbrev pub reuse_or : Option ℕ → System → System × ℕ → System × ℕ
reuse_or none s opened = opened
reuse_or (some ref) s opened = (s, ref)

-- `create`, over the database.
unfoldable pub create :
    (now : ℕ) (session_id audio_stream_id capture_generation_id : String)
    (speaker_stream_id event_stream_id : String) (timeline_offset_ms : ℕ)
    → System
    → System × ℕ
create now session audio generation speaker event_stream offset s =
    reuse_or (reusable now session audio s) s
      (open_runtime now session audio generation speaker event_stream offset s)

abbrev pub asr_current : AsrIdentity → ℕ → System → Option SessionRuntime → Bool
asr_current identity ref s none = false
asr_current identity ref s (some r) = is_current r.session_id ref s && attempt_matches identity r

unfoldable pub is_asr_attempt_current : ℕ → AsrIdentity → System → Bool
is_asr_attempt_current ref identity s = asr_current identity ref s (get_elem? s.runtimes ref)

abbrev pub rotate_object :
    (now : ℕ) (speaker_stream_id : String) → ℕ → Option SessionRuntime → System → System
rotate_object now speaker ref none s = s
rotate_object now speaker ref (some r) s = record s {
  runtimes = modify_at ref (rotated now speaker) s.runtimes;
  speaker_streams = open_stream now speaker r.session_id r.capture_generation_id s.speaker_streams;
}

unfoldable pub rotate_speaker_stream : (now : ℕ) (speaker_stream_id : String) → ℕ → System → System
rotate_speaker_stream now speaker ref s = rotate_object now speaker ref (get_elem? s.runtimes ref) s

abbrev pub pruned_object :
    (now : ℕ) (usable : SessionRuntime → Bool)
    → Option (ℕ × SessionRuntime)
    → System
    → System × Option ℕ
pruned_object now usable none s = (s, none)
pruned_object now usable (some (ref, r)) s =
    if is_fresh now r && usable r then (on_runtime ref (prune now) s, some ref) else (s, none)

unfoldable pub find : (now : ℕ) (session_id : String) → System → System × Option ℕ
find now session s = pruned_object now (λ r. true) (current session s) s

unfoldable pub recover :
    (now : ℕ) (session_id audio_stream_id event_stream_id : String) → System → System × Option ℕ
recover now session audio event_stream s =
    pruned_object now (λ r. r.audio_stream_id == audio && r.event_stream_id == event_stream)
      (current session s) s

abbrev pub interrupted_object :
    (now : ℕ) (usable : SessionRuntime → Bool)
    → Option (ℕ × SessionRuntime)
    → System
    → System × Bool
interrupted_object now usable none s = (s, false)
interrupted_object now usable (some (ref, r)) s =
    if usable r then (on_runtime ref (interrupted now) s, true) else (s, false)

unfoldable pub interrupt_capture :
    (now : ℕ) (session_id audio_stream_id : String) → System → System × Bool
interrupt_capture now session audio s =
    interrupted_object now (λ r. r.audio_stream_id == audio) (current session s) s

unfoldable pub interrupt_session : (now : ℕ) (session_id : String) → System → System
interrupt_session now session s = (interrupted_object now (λ r. true) (current session s) s).0

abbrev pub suggestion_target : Option ℕ → List SessionRuntime → Option ℕ
suggestion_target none rs = none
suggestion_target (some ref) rs = elim (get_elem? rs ref) [
  | none ↦ none
  | some r ↦ if is_some r.subscriber && is_some r.notification_authorizer then some ref else none
]

-- `publishSuggestionChanged` before its authorizer answers: the runtime to publish on, if any.
unfoldable pub begin_suggestion : (now : ℕ) (session_id : String) → System → System × Option ℕ
begin_suggestion now session s =
    let (s', ref) = find now session s in (s', suggestion_target ref s'.runtimes)

abbrev pub marker_target : (speaker_stream_id : String) → Option ℕ → List SessionRuntime → Option ℕ
marker_target speaker none rs = none
marker_target speaker (some ref) rs = elim (get_elem? rs ref) [
  | none ↦ none
  | some r ↦ if r.speaker_stream_id == speaker && is_some r.producer then some ref else none
]

-- `enqueueMarker` before the queue: `none` is CausalQueueUnavailableError.
unfoldable pub begin_marker :
    (now : ℕ) (session_id speaker_stream_id : String) → System → System × Option ℕ
begin_marker now session speaker s =
    let (s', ref) = find now session s in (s', marker_target speaker ref s'.runtimes)

abbrev pub marker_ready :
    (session_id speaker_stream_id : String) → ℕ → Option SessionRuntime → System → Bool
marker_ready session speaker ref none s = false
marker_ready session speaker ref (some r) s =
    is_some r.producer && r.speaker_stream_id == speaker && is_current session ref s

-- The test that the queued work of `enqueueMarker` makes when its turn comes.
unfoldable pub marker_is_available : (session_id speaker_stream_id : String) → ℕ → System → Bool
marker_is_available session speaker ref s =
    marker_ready session speaker ref (get_elem? s.runtimes ref) s
