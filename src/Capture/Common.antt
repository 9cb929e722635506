-- ===== src/Capture/Common.antt =====
-- The private methods of apps/api/src/project-foundation/session-capture.service.ts, the role check
-- of auth/resource-authorization.service.ts, and session-snapshot.service.ts. An advisory lock
-- orders the transactions and has no state here: a call runs alone.
use elder_interview_ai.Prelude.{
  ℕ, Bool, true, false, not, ◌&&◌, ◌||◌, String, List, [], ◌∷◌, ◌++◌, Option, none, some,
  if◌then◌else◌, eqb, ltb, any, length, keep, is_none, ◌==◌,
}
use elder_interview_ai.Prelude.Map.{Map, get}
use elder_interview_ai.Prelude.Action.{
  Result, ok, err, Action, ◌>>=◌, ◌>>◌, pure, throw_if, require, gets, modify,
}
use elder_interview_ai.Capture.Tables.{
  InterviewSession, SessionCaptureGeneration, SessionFinalization, AudioChunk, ConsentRecord,
  ConsentStatus, pending, valid, revoked, expired, Json, text, number, AuditLog, Snapshot,
  IdempotencyRecord, State, Failure, conflict, forbidden, not_found, no_row, repeated, find,
  update_where,
}

abbrev pub Call : Type 0 → Type 0
Call A = Action State Failure A

abbrev pub keep_or_undo : {A : Type 0} → Result Failure A → State → State → Result Failure A × State
keep_or_undo (ok a) after before = (ok a, after)
keep_or_undo (err e) after before = (err e, record before { interrupts = after.interrupts })

-- `prisma.$transaction`: an exception takes back what was written to the database, but not what the
-- runtime was told.
abbrev pub transaction : {A : Type 0} → Call A → Call A
transaction m s = keep_or_undo (m s).0 (m s).1 s

pub data Role : Type 0 where
  interviewer other_role : Role

pub record Actor : Type 0 where
  pub id : String
  pub role : Role
  pub is_active : Bool

-- The parts of `RepeatInterviewDecision` that the code reads.
pub record Decision : Type 0 where
  pub is_ordinary : Bool
  pub project_state_available : Bool
  pub project_is_open : Bool
  pub consent_is_covered : Bool

-- What the code asks of other services and of the platform: the decision on a project, the clock and
-- a fresh row identifier.
pub record Services : Type 0 where
  pub decision : (actor_id project_id : String) → State → Decision
  pub now : ℕ
  pub fresh_id : String

abbrev pub is_interviewer : Role → Bool
is_interviewer interviewer = true
is_interviewer other_role = false

-- `assertRole(actor, ['interviewer'])`: a refusal is audited, outside of any transaction.
unfoldable pub assert_role : Actor → Call (Unit {0})
assert_role actor s = if is_interviewer actor.role then (ok tt, s) else (
  err forbidden,
  record s {
    audit_logs =
        s.audit_logs
        ++ record {
          action = "auth.permission_denied";
          actor_id = actor.id;
          entity_id = actor.id;
          entity_type = "user";
          request_id = none;
          metadata = ("kind", text "role") ∷ [];
        }
          ∷ [];
  },
)

unfoldable pub find_session : String → State → Option InterviewSession
find_session id s = find (λ (x : InterviewSession). x.id == id) s.sessions

-- The row with the greater number; the first one if they are equal.
abbrev pub later :
    SessionCaptureGeneration → Option SessionCaptureGeneration → SessionCaptureGeneration
later c none = c
later c (some d) = if ltb c.generation_no d.generation_no then d else c

unfoldable pub newest : String → List SessionCaptureGeneration → Option SessionCaptureGeneration
newest session_id [] = none
newest session_id (c ∷ cs) =
    let rest = newest session_id cs in
    if c.session_id == session_id then some (later c rest) else rest

-- `findFirst({ orderBy: { generationNo: 'desc' }, where: { sessionId } })`
unfoldable pub current_capture : String → State → Option SessionCaptureGeneration
current_capture session_id s = newest session_id s.captures

unfoldable pub find_finalization : String → State → Option SessionFinalization
find_finalization session_id s =
    find (λ (x : SessionFinalization). x.session_id == session_id) s.finalizations

unfoldable pub uploaded_chunks : String → State → List AudioChunk
uploaded_chunks audio_object_id s =
    keep (λ (c : AudioChunk). c.audio_object_id == audio_object_id && c.is_uploaded) s.audio_chunks

abbrev count_of_finalization : Option SessionFinalization → State → ℕ
count_of_finalization none s = 0
count_of_finalization (some f) s = length (uploaded_chunks f.audio_object_id s)

abbrev count_of_capture : Option SessionCaptureGeneration → State → ℕ
count_of_capture none s = 0
count_of_capture (some c) s = length (uploaded_chunks c.audio_object_id s)

-- `SessionSnapshotService.read`
unfoldable pub read_snapshot : String → Call Snapshot
read_snapshot session_id = do
  found ← gets (find_session session_id)
  session ← require found no_row
  gets (λ s. record {
    session = session;
    finalization = find_finalization session_id s;
    uploaded_chunk_count = count_of_finalization (find_finalization session_id s) s;
    capture = current_capture session_id s;
    capture_uploaded_chunk_count = count_of_capture (current_capture session_id s) s;
  })

-- `lockCapture`
unfoldable pub lock_capture : String → Call (SessionCaptureGeneration × InterviewSession)
lock_capture session_id = do
  found ← gets (find_session session_id)
  session ← require found not_found
  newest ← gets (current_capture session_id)
  capture ← require newest (conflict "CAPTURE_NOT_INITIALIZED")
  pure (capture, session)

abbrev is_after : ConsentRecord → ConsentRecord → Bool
is_after c d =
    ltb d.consented_at c.consented_at
    || (eqb d.consented_at c.consented_at && ltb d.created_at c.created_at)

abbrev later_consent : ConsentRecord → Option ConsentRecord → ConsentRecord
later_consent c none = c
later_consent c (some d) = if is_after d c then d else c

unfoldable pub newest_consent : String → List ConsentRecord → Option ConsentRecord
newest_consent project_id [] = none
newest_consent project_id (c ∷ cs) =
    let rest = newest_consent project_id cs in
    if c.project_id == project_id then some (later_consent c rest) else rest

abbrev is_valid : ConsentStatus → Bool
is_valid valid = true
is_valid pending = false
is_valid revoked = false
is_valid expired = false

abbrev consent_holds : Option ConsentRecord → Bool
consent_holds none = false
consent_holds (some c) = is_valid c.status && is_none c.revoked_at

unfoldable pub has_current_formal_consent : String → State → Bool
has_current_formal_consent project_id s =
    consent_holds (newest_consent project_id s.consent_records)

-- The tests of `assertCurrentGate`.
unfoldable pub gate_is_open : Actor → InterviewSession → Decision → State → Bool
gate_is_open actor session d s =
    actor.is_active
    && d.is_ordinary
    && d.project_state_available
    && d.project_is_open
    && (if eqb session.sequence_no 1
        then has_current_formal_consent session.project_id s
        else d.consent_is_covered)

unfoldable pub assert_current_gate : Services → Actor → InterviewSession → Call (Unit {0})
assert_current_gate v actor session = do
  is_open ← gets (λ s. gate_is_open actor session (v.decision actor.id session.project_id s) s)
  throw_if (not is_open) forbidden

unfoldable pub assert_original_actor : Actor → String → Call (Unit {0})
assert_original_actor actor created_by =
    throw_if (not actor.is_active || not (actor.id == created_by)) forbidden

abbrev pub is_record_of : String → IdempotencyRecord → Bool
is_record_of request_id r = r.request_id == request_id

abbrev same_request : Option String → String → Bool
same_request none b = false
same_request (some a) b = a == b

abbrev pub is_audit_of : String → String → String → AuditLog → Bool
is_audit_of action session_id request_id a =
    a.action == action && a.entity_id == session_id && same_request a.request_id request_id

abbrev pub is_foreign : String → Actor → String → IdempotencyRecord → Bool
is_foreign action actor session_id r =
    not (r.action == action)
    || not (r.actor_id == actor.id)
    || not (r.target_id == session_id)
    || not (r.target_type == "interview_session")

abbrev pub replay_record :
    String
    → Actor
    → String
    → String
    → Option IdempotencyRecord
    → Call (Option (Map Json × Snapshot))
replay_record action actor session_id request_id none = pure none
replay_record action actor session_id request_id (some r) = do
  throw_if (is_foreign action actor session_id r) (conflict "IDEMPOTENCY_KEY_REUSED")
  found ← gets (λ s. find (is_audit_of action session_id request_id) s.audit_logs)
  audit ← require found (conflict "IDEMPOTENCY_PAYLOAD_MISMATCH")
  pure (some (audit.metadata, r.response_payload))

-- `replay`
unfoldable pub replay : String → String → Actor → String → Call (Option (Map Json × Snapshot))
replay request_id action actor session_id = do
  found ← gets (λ s. find (is_record_of request_id) s.idempotency_records)
  replay_record action actor session_id request_id found

abbrev same_json : Json → Json → Bool
same_json (text a) (text b) = a == b
same_json (number a) (number b) = eqb a b
same_json (text a) (number b) = false
same_json (number a) (text b) = false

abbrev holds_value : Option Json → Json → Bool
holds_value none v = false
holds_value (some w) v = same_json w v

-- The test of `assertReplayMetadata`.
unfoldable pub metadata_matches : Map Json → Map Json → Bool
metadata_matches metadata [] = true
metadata_matches metadata ((k, v) ∷ rest) =
    holds_value (get k metadata) v && metadata_matches metadata rest

-- `audit`
unfoldable pub audit : String → Actor → String → String → Map Json → Call (Unit {0})
audit action actor session_id request_id metadata = modify (λ s. record s {
  audit_logs =
      s.audit_logs
      ++ record {
        action = action;
        actor_id = actor.id;
        entity_id = session_id;
        entity_type = "interview_session";
        request_id = some request_id;
        metadata = metadata;
      }
        ∷ [];
})

-- `writeReplay`: the identifier of a request is unique.
unfoldable pub write_replay : String → String → Actor → String → Snapshot → Call (Unit {0})
write_replay request_id action actor session_id snapshot = do
  used ← gets (λ s. any (is_record_of request_id) s.idempotency_records)
  throw_if used repeated
  modify (λ s. record s {
    idempotency_records =
        s.idempotency_records
        ++ record {
          request_id = request_id;
          action = action;
          actor_id = actor.id;
          target_id = session_id;
          target_type = "interview_session";
          response_payload = snapshot;
        }
          ∷ [];
  })

-- The audit, the snapshot and the record with which every call ends.
unfoldable pub conclude : String → String → Actor → String → Map Json → Call Snapshot
conclude action request_id actor session_id metadata = do
  audit action actor session_id request_id metadata
  snapshot ← read_snapshot session_id
  write_replay request_id action actor session_id snapshot
  pure snapshot

-- A replay with the same payload answers as the first call did; otherwise the call goes on.
abbrev pub replay_or : Map Json → Option (Map Json × Snapshot) → Call Snapshot → Call Snapshot
replay_or expected none go = go
replay_or expected (some (metadata, snapshot)) go = do
  throw_if (not (metadata_matches metadata expected)) (conflict "IDEMPOTENCY_PAYLOAD_MISMATCH")
  pure snapshot

unfoldable pub set_session_status : String → (InterviewSession → InterviewSession) → Call (Unit {0})
set_session_status session_id f = do
  found ← gets (find_session session_id)
  throw_if (is_none found) no_row
  modify (λ s. record s {
    sessions = update_where (λ (x : InterviewSession). x.id == session_id) f s.sessions;
  })

unfoldable pub set_capture :
    String → (SessionCaptureGeneration → SessionCaptureGeneration) → Call (Unit {0})
set_capture id f = modify (λ s. record s {
  captures = update_where (λ (c : SessionCaptureGeneration). c.id == id) f s.captures;
})
