-- ===== src/AudioServer/Access.antt =====
-- The private methods of apps/api/src/audio/audio.service.ts: access, idempotency and what may be
-- written. A lock orders the transactions and has no state here: a call runs alone.
use elder_interview_ai.Prelude.{
  ℕ, Bool, true, false, not, ◌&&◌, ◌||◌, String, [], ◌∷◌, ◌++◌, Option, none, some, if◌then◌else◌,
  eqb, any, ◌==◌, or_else,
}
use elder_interview_ai.Prelude.Rows.{find, update_where}
use elder_interview_ai.Prelude.Action.{
  Result, ok, err, ◌>>=◌, ◌>>◌, pure, throw_if, require, gets, modify,
}
use elder_interview_ai.AudioServer.Tables.{
  AudioPurpose, consent, interview, AudioObjectStatus, initiated, uploading, complete, failed,
  AudioObject, AudioChunk, Commitment, SessionFinalization, ElderProject, ProjectAssignment,
  InterviewSession, AuditLog, Response, IdempotencyRecord, Database, State, Failure, conflict,
  forbidden, not_found, repeated, Call, Actor, AudioChunkInput,
}

abbrev pub undo : {A : Type 0} → Result Failure A → State → Database → Result Failure A × State
undo (ok a) after before = (ok a, after)
undo (err e) after before = (err e, record after { database = before })

-- `prisma.$transaction`: an exception takes back what was written to the tables, not to the files.
abbrev pub transaction : {A : Type 0} → Call A → Call A
transaction m s = undo (m s).0 (m s).1 s.database

abbrev pub query : {A : Type 0} → (Database → A) → Call A
query f = gets (λ s. f s.database)

abbrev pub write : (Database → Database) → Call (Unit {0})
write f = modify (λ s. record s { database = f s.database })

abbrev pub log : AuditLog → Database → Database
log a d = record d { audit_logs = d.audit_logs ++ a ∷ [] }

-- `assertRole(actor, ['interviewer'])`: a refusal is audited, outside of any transaction.
unfoldable pub assert_role : Actor → Call (Unit {0})
assert_role actor s = if actor.is_interviewer then (ok tt, s) else (
  err forbidden,
  record s {
    database =
        log
          (record {
            action = "auth.permission_denied";
            actor_id = actor.id;
            entity_id = actor.id;
            entity_type = "user";
            request_id = none;
            sequence_no = none;
          })
          s.database;
  },
)

unfoldable pub find_object : String → Database → Option AudioObject
find_object id d = find (λ (x : AudioObject). x.id == id) d.audio_objects

abbrev pub is_chunk_of : String → ℕ → AudioChunk → Bool
is_chunk_of object_id n c = c.audio_object_id == object_id && eqb c.sequence_no n

unfoldable pub find_chunk : String → ℕ → Database → Option AudioChunk
find_chunk object_id n d = find (is_chunk_of object_id n) d.audio_chunks

unfoldable pub find_finalization : String → Database → Option SessionFinalization
find_finalization object_id d =
    find (λ (x : SessionFinalization). x.audio_object_id == object_id) d.finalizations

-- The project is there and not deleted.
unfoldable pub has_project : String → Database → Bool
has_project id d = any (λ (x : ElderProject). x.id == id && not x.is_deleted) d.projects

unfoldable pub is_assigned : String → String → Database → Bool
is_assigned project_id user_id d =
    any
      (λ (x : ProjectAssignment).
        x.project_id == project_id && x.user_id == user_id && not x.is_revoked)
      d.assignments

unfoldable pub assert_project_access : Actor → String → Call (Unit {0})
assert_project_access actor project_id = do
  assert_role actor
  is_there ← query (has_project project_id)
  throw_if (not is_there) not_found
  assigned ← query (is_assigned project_id actor.id)
  throw_if (not assigned) forbidden

unfoldable pub find_accessible_object : Actor → String → Call AudioObject
find_accessible_object actor object_id = do
  found ← query (find_object object_id)
  object ← require found not_found
  assert_project_access actor object.project_id
  pure object

unfoldable pub find_object_for_write : Actor → String → Call AudioObject
find_object_for_write actor object_id = do
  assert_role actor
  found ← query (find_object object_id)
  require found not_found

unfoldable pub assert_active_assignment : String → String → Call (Unit {0})
assert_active_assignment project_id actor_id = do
  assigned ← query (is_assigned project_id actor_id)
  throw_if (not assigned) forbidden

pub record IdempotencyBinding : Type 0 where
  pub action : String
  pub actor_id : String
  pub target_id : String
  pub target_type : String

abbrev pub is_record_of : String → IdempotencyRecord → Bool
is_record_of request_id r = r.request_id == request_id

abbrev pub is_bound : IdempotencyBinding → IdempotencyRecord → Bool
is_bound b r =
    r.action == b.action
    && r.actor_id == b.actor_id
    && r.target_type == b.target_type
    && r.target_id == b.target_id

abbrev pub read_replay : IdempotencyBinding → Option IdempotencyRecord → Call (Option Response)
read_replay b none = pure none
read_replay b (some r) = do
  throw_if (not (is_bound b r)) (conflict "IDEMPOTENCY_KEY_REUSED")
  pure (some r.response_payload)

unfoldable pub find_record : String → Database → Option IdempotencyRecord
find_record request_id d = find (is_record_of request_id) d.idempotency_records

-- `findReplay` and `findReplayInTransaction`
unfoldable pub find_replay : String → IdempotencyBinding → Call (Option Response)
find_replay request_id b = do found ← query (find_record request_id); read_replay b found

-- A replay answers; otherwise the call goes on.
abbrev pub replay_or : Option Response → Call Response → Call Response
replay_or none go = go
replay_or (some r) go = pure r

-- `writeIdempotency`: the identifier of a request is unique.
unfoldable pub write_idempotency : String → IdempotencyBinding → Response → Call (Unit {0})
write_idempotency request_id b response = do
  used ← query (λ d. any (is_record_of request_id) d.idempotency_records)
  throw_if used repeated
  write (λ d. record d {
    idempotency_records =
        d.idempotency_records
        ++ record {
          request_id = request_id;
          action = b.action;
          actor_id = b.actor_id;
          target_id = b.target_id;
          target_type = b.target_type;
          response_payload = response;
        }
          ∷ [];
  })

abbrev pub matches_commitment : AudioChunkInput → Commitment → Bool
matches_commitment input c =
    c.checksum == input.checksum
    && eqb c.start_ms input.start_ms
    && eqb c.end_ms input.end_ms
    && c.mime_type == input.mime_type

abbrev pub is_committed : AudioChunkInput → Option Commitment → Bool
is_committed input none = false
is_committed input (some c) = matches_commitment input c

abbrev pub authorize_upload :
    AudioObject → Actor → AudioChunkInput → Option SessionFinalization → Call (Unit {0})
authorize_upload object actor input none = assert_active_assignment object.project_id actor.id
authorize_upload object actor input (some f) = do
  throw_if (not actor.is_active || not (f.created_by == actor.id)) forbidden
  throw_if
      (not (
        is_committed input
          (find (λ (c : Commitment). eqb c.sequence_no input.sequence_no) f.chunks)))
      (conflict "AUDIO_COMMITMENT_CONFLICT")
  write (
      log (record {
        action = "audio.evidence_upload";
        actor_id = actor.id;
        entity_id = object.id;
        entity_type = "audio_object";
        request_id = some input.request_id;
        sequence_no = some input.sequence_no;
      }))

unfoldable pub assert_upload_authority : AudioObject → Actor → AudioChunkInput → Call (Unit {0})
assert_upload_authority object actor input = do
  found ← query (find_finalization object.id)
  authorize_upload object actor input found

abbrev pub authorize_complete :
    AudioObject → Actor → (expected_count : ℕ) → Option SessionFinalization → Call (Unit {0})
authorize_complete object actor expected none = assert_active_assignment object.project_id actor.id
authorize_complete object actor expected (some f) =
    throw_if
      (not actor.is_active
        || not (f.created_by == actor.id)
        || not (eqb f.expected_chunk_count expected))
      (conflict "AUDIO_COMMITMENT_CONFLICT")

unfoldable pub assert_complete_authority :
    AudioObject → Actor → (expected_count : ℕ) → Call (Unit {0})
assert_complete_authority object actor expected = do
  found ← query (find_finalization object.id)
  authorize_complete object actor expected found

abbrev pub is_complete : AudioObjectStatus → Bool
is_complete complete = true
is_complete initiated = false
is_complete uploading = false
is_complete failed = false

abbrev pub is_failed : AudioObjectStatus → Bool
is_failed failed = true
is_failed initiated = false
is_failed uploading = false
is_failed complete = false

abbrev pub is_initiated : AudioObjectStatus → Bool
is_initiated initiated = true
is_initiated failed = false
is_initiated uploading = false
is_initiated complete = false

abbrev pub is_consent : AudioPurpose → Bool
is_consent consent = true
is_consent interview = false

unfoldable pub find_session : String → Database → Option InterviewSession
find_session id d = find (λ (x : InterviewSession). x.id == id) d.sessions

abbrev pub session_captures : AudioObject → Option InterviewSession → Bool
session_captures object none = false
session_captures object (some x) = x.project_id == object.project_id && x.is_capturing

unfoldable pub assert_writable : AudioObject → Call (Unit {0})
assert_writable object = do
  throw_if (is_complete object.status) (conflict "AUDIO_OBJECT_COMPLETE")
  throw_if (is_failed object.status) (conflict "INVALID_AUDIO_STATE")
  session ← query (find_session (or_else object.session_id ""))
  throw_if (not (is_consent object.purpose) && not (session_captures object session))
      (conflict "INVALID_AUDIO_STATE")

unfoldable pub set_object : String → (AudioObject → AudioObject) → Call (Unit {0})
set_object id f = write (λ d. record d {
  audio_objects = update_where (λ (x : AudioObject). x.id == id) f d.audio_objects;
})
