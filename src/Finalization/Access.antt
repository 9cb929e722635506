-- ===== src/Finalization/Access.antt =====
-- The private methods of apps/api/src/project-foundation/session-finalization.service.ts, with
-- session-snapshot.service.ts. A lock orders the transactions: each runs alone.
use elder_interview_ai.Prelude.{
  ℕ, suc, Bool, true, false, not, ◌&&◌, ◌||◌, String, List, [], ◌∷◌, ◌++◌, Option, none, some,
  if◌then◌else◌, eqb, leb, ltb, ◌^◌, any, all, keep, length, ◌==◌, map,
}
use elder_interview_ai.Prelude.Rows.{find}
use elder_interview_ai.Prelude.Sort.{sort_by}
use elder_interview_ai.Prelude.Text.{codes}
use elder_interview_ai.Prelude.Action.{
  Result, ok, err, ◌>>=◌, ◌>>◌, throw_if, require, gets, modify,
}
use elder_interview_ai.Capture.Tables.{
  InterviewSessionStatus, recording, reconnecting, completed, interrupted, failed,
}
use elder_interview_ai.AudioServer.Tables.{AudioObject, AudioChunk, Commitment}
use elder_interview_ai.AudioServer.Access.{is_complete}
use elder_interview_ai.AudioServer.Complete.{entry}
use elder_interview_ai.Finalization.Tables.{
  InterviewSession, SessionCaptureGeneration, SessionFinalization, ElderProject, ProjectAssignment,
  ConsentRecord, AuditLog, Snapshot, IdempotencyRecord, State, Failure, conflict, forbidden, no_row,
  repeated, Call, Actor, StopSessionRequest, Services,
}

abbrev pub undo : {A : Type 0} → Result Failure A → State → State → Result Failure A × State
undo (ok a) after before = (ok a, after)
undo (err e) after before = (err e, record before { interrupts = after.interrupts })

-- `prisma.$transaction`: an exception takes back what was written to the database, but not what the
-- runtime was told.
abbrev pub transaction : {A : Type 0} → Call A → Call A
transaction m s = undo (m s).0 (m s).1 s

abbrev pub log : AuditLog → State → State
log a s = record s { audit_logs = s.audit_logs ++ a ∷ [] }

-- `assertRole(actor, ['interviewer'])`: a refusal is audited, outside of any transaction.
unfoldable pub assert_role : Actor → Call (Unit {0})
assert_role actor s = if actor.is_interviewer then (ok tt, s) else (
  err forbidden,
  log
      (record {
        action = "auth.permission_denied";
        actor_id = actor.id;
        entity_id = actor.id;
        request_id = none;
        metadata = none;
      })
      s,
)

unfoldable pub find_session : String → State → Option InterviewSession
find_session id s = find (λ (x : InterviewSession). x.id == id) s.sessions

-- A session has one finalization at most.
unfoldable pub find_finalization : String → State → Option SessionFinalization
find_finalization session_id s =
    find (λ (x : SessionFinalization). x.session_id == session_id) s.finalizations

unfoldable pub finalization_at : String → State → Option SessionFinalization
finalization_at id s = find (λ (x : SessionFinalization). x.id == id) s.finalizations

unfoldable pub find_object : String → State → Option AudioObject
find_object id s = find (λ (x : AudioObject). x.id == id) s.audio_objects

unfoldable pub chunks_of : String → State → List AudioChunk
chunks_of object_id s =
    sort_by (λ (c : AudioChunk). c.sequence_no)
      (keep (λ (c : AudioChunk). c.audio_object_id == object_id) s.audio_chunks)

unfoldable pub uploaded_count : String → State → ℕ
uploaded_count object_id s =
    length
      (keep (λ (c : AudioChunk). c.audio_object_id == object_id && c.is_uploaded) s.audio_chunks)

abbrev later_capture :
    SessionCaptureGeneration → Option SessionCaptureGeneration → SessionCaptureGeneration
later_capture c none = c
later_capture c (some d) = if ltb c.generation_no d.generation_no then d else c

-- `findFirst({ orderBy: { generationNo: 'desc' }, where: { sessionId } })`
unfoldable pub newest_capture :
    String → List SessionCaptureGeneration → Option SessionCaptureGeneration
newest_capture session_id [] = none
newest_capture session_id (c ∷ cs) =
    let rest = newest_capture session_id cs in
    if c.session_id == session_id then some (later_capture c rest) else rest

abbrev count_of : Option String → State → ℕ
count_of none s = 0
count_of (some id) s = uploaded_count id s

abbrev object_of : Option SessionFinalization → Option String
object_of none = none
object_of (some f) = some f.audio_object_id

abbrev captured_object : Option SessionCaptureGeneration → Option String
captured_object none = none
captured_object (some c) = some c.audio_object_id

-- `SessionSnapshotService.read`
unfoldable pub read_snapshot : String → Call Snapshot
read_snapshot session_id = do
  found ← gets (find_session session_id)
  session ← require found no_row
  gets (λ s. record {
    session = session;
    finalization = find_finalization session_id s;
    uploaded_chunk_count = count_of (object_of (find_finalization session_id s)) s;
    capture = newest_capture session_id s.captures;
    capture_uploaded_chunk_count =
        count_of (captured_object (newest_capture session_id s.captures)) s;
  })

abbrev is_open_project : String → ElderProject → Bool
is_open_project id x = x.id == id && not x.is_closed

unfoldable pub has_ordinary_access : (actor_id project_id : String) → State → Bool
has_ordinary_access actor_id project_id s =
    any (is_open_project project_id) s.projects
    && any
        (λ (x : ProjectAssignment).
          x.project_id == project_id && x.user_id == actor_id && not x.is_revoked)
        s.assignments

-- `conflict`
abbrev pub assert_finalization_actor : Actor → String → Call (Unit {0})
assert_finalization_actor actor created_by =
    throw_if (not actor.is_active || not (actor.id == created_by)) forbidden

abbrev pub is_capturing : InterviewSessionStatus → Bool
is_capturing recording = true
is_capturing reconnecting = true
is_capturing _ = false

abbrev pub is_interrupted : InterviewSessionStatus → Bool
is_interrupted interrupted = true
is_interrupted _ = false

abbrev pub is_terminal : InterviewSessionStatus → Bool
is_terminal completed = true
is_terminal failed = true
is_terminal _ = false

abbrev is_code : ℕ → Bool
is_code c = (leb b'0' c && leb c b'9') || (leb b'a' c && leb c b'f')

-- `/^[a-f0-9]{64}$/`
unfoldable pub is_digest : String → Bool
is_digest t = eqb (length (codes t)) 64 && all is_code (codes t)

-- The tests of `validateCommitments` on one chunk and those after it.
unfoldable pub are_commitments : (index end_ms : ℕ) → List Commitment → Bool
are_commitments i at [] = true
are_commitments i at (c ∷ cs) =
    eqb c.sequence_no i
    && ltb c.start_ms c.end_ms
    && ltb 0 c.size_bytes
    && is_digest c.checksum
    && not (c.mime_type == "")
    && eqb c.start_ms at
    && are_commitments (suc i) c.end_ms cs

unfoldable pub validate_commitments : StopSessionRequest → Call (Unit {0})
validate_commitments input = do
  throw_if
      (not (
        ltb input.expected_chunk_count (2 ^ 53)
        && ltb 0 input.expected_chunk_count
        && eqb (length input.chunks) input.expected_chunk_count))
      (conflict "AUDIO_COMMITMENT_CONFLICT")
  throw_if (not (are_commitments 0 0 input.chunks)) (conflict "AUDIO_COMMITMENT_CONFLICT")

abbrev pub same_chunk : AudioChunk → Commitment → Bool
same_chunk chunk c =
    chunk.checksum == c.checksum
    && eqb chunk.end_ms c.end_ms
    && chunk.mime_type == c.mime_type
    && eqb chunk.sequence_no c.sequence_no
    && eqb chunk.size_bytes c.size_bytes
    && eqb chunk.start_ms c.start_ms

abbrev is_record_of : String → IdempotencyRecord → Bool
is_record_of request_id r = r.request_id == request_id

unfoldable pub find_record : String → State → Option IdempotencyRecord
find_record request_id s = find (is_record_of request_id) s.idempotency_records

abbrev pub is_foreign : (action : String) → Actor → (session_id : String) → IdempotencyRecord → Bool
is_foreign action actor session_id r =
    not (r.action == action)
    || not (r.actor_id == actor.id)
    || not (r.target_id == session_id)
    || not (r.target_type == "interview_session")

-- `writeStopIdempotency`; the identifier of a request is unique.
unfoldable pub write_stop_idempotency :
    (request_id action actor_id session_id : String) → Snapshot → Call (Unit {0})
write_stop_idempotency request_id action actor_id session_id snapshot = do
  used ← gets (λ s. any (is_record_of request_id) s.idempotency_records)
  throw_if used repeated
  modify (λ s. record s {
    idempotency_records =
        s.idempotency_records
        ++ record {
          request_id = request_id;
          action = action;
          actor_id = actor_id;
          target_id = session_id;
          target_type = "interview_session";
          response_payload = snapshot;
        }
          ∷ [];
  })

module _ (v : Services) where
  abbrev is_after : ConsentRecord → ConsentRecord → Bool
  is_after c d =
      ltb d.created_at c.created_at || (eqb d.created_at c.created_at && v.is_later_id c.id d.id)

  abbrev later_consent : ConsentRecord → Option ConsentRecord → ConsentRecord
  later_consent c none = c
  later_consent c (some d) = if is_after d c then d else c

  unfoldable pub newest_consent : String → List ConsentRecord → Option ConsentRecord
  newest_consent project_id [] = none
  newest_consent project_id (c ∷ cs) =
      let rest = newest_consent project_id cs in
      if c.project_id == project_id then some (later_consent c rest) else rest

  abbrev consent_holds : Option ConsentRecord → Bool
  consent_holds none = false
  consent_holds (some c) = c.is_valid && not c.is_revoked

  unfoldable pub current_gate : Actor → (project_id : String) → State → Bool
  current_gate actor project_id s =
      has_ordinary_access actor.id project_id s
      && consent_holds (newest_consent project_id s.consent_records)

  abbrev pub manifest_checksum : List AudioChunk → String
  manifest_checksum chunks = v.digest (map entry chunks)

  abbrev has_count : Option ℕ → ℕ → Bool
  has_count none n = false
  has_count (some m) n = eqb m n

  abbrev has_text : Option String → String → Bool
  has_text none t = false
  has_text (some u) t = u == t

  -- Every chunk is uploaded and agrees with the commitment at its place, and there are as many of both.
  unfoldable pub all_committed : List AudioChunk → List Commitment → Bool
  all_committed [] [] = true
  all_committed [] (k ∷ ks) = false
  all_committed (c ∷ cs) [] = false
  all_committed (c ∷ cs) (k ∷ ks) = c.is_uploaded && same_chunk c k && all_committed cs ks

  unfoldable pub complete_manifest_matches :
      AudioObject → List AudioChunk → List Commitment → (expected_count : ℕ) → Bool
  complete_manifest_matches object chunks commitments expected =
      is_complete object.status
      && has_count object.chunk_count expected
      && has_text object.manifest_checksum (manifest_checksum chunks)
      && eqb (length chunks) expected
      && eqb (length commitments) expected
      && all_committed chunks commitments
