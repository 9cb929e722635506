-- ===== src/AudioServer/Calls.antt =====
-- The private methods of apps/api/src/audio/audio.service.ts keep what was stored before.
use elder_interview_ai.Prelude.{
  ℕ, ◌≡◌, Bool, not, ◌||◌, String, [], ◌∷◌, ◌++◌, Option, none, some, arith, ◌==◌, eqb, if_elim,
  any,
}
use elder_interview_ai.Prelude.Rows.{find}
use elder_interview_ai.Prelude.Action.{Result, ◌>>=◌, throw_if, require}
use elder_interview_ai.AudioServer.Tables.{
  AudioObject, Commitment, SessionFinalization, Response, State, Failure, conflict, forbidden,
  not_found, repeated, Call, Actor, AudioChunkInput,
}
use elder_interview_ai.AudioServer.Access.{
  query, write, log, assert_role, find_object, find_finalization, has_project, is_assigned,
  assert_project_access, find_object_for_write, assert_active_assignment, IdempotencyBinding,
  is_record_of, is_committed, find_replay, replay_or, write_idempotency, authorize_upload,
  assert_upload_authority, authorize_complete, assert_complete_authority, assert_writable,
  set_object,
}
use elder_interview_ai.AudioServer.Preserved.{
  Preserved, Preserved-refl, Keeps, Keeps-bind, Keeps-require, Keeps-write, Keeps-guard,
  Keeps-reads,
}
use elder_interview_ai.AudioServer.Kept.{
  log-TablesKept, record_added-TablesKept, objects_set-TablesKept,
}

pub assert_role-Keeps : (actor : Actor) → Keeps (assert_role actor)
unfolding assert_role
assert_role-Keeps actor s =
    if_elim (λ (w : Result Failure (Unit {0}) × State). Preserved s w.1) actor.is_interviewer
      (Preserved-refl s) (Keeps-write (log _) (log-TablesKept _) s)

pub find_object_for_write-Keeps :
    (actor : Actor) (object_id : String) → Keeps (find_object_for_write actor object_id)
unfolding find_object_for_write
find_object_for_write-Keeps actor object_id =
    Keeps-bind (assert_role actor)
      (λ _. query (find_object object_id) >>= λ found. require found not_found)
      (assert_role-Keeps actor)
      (λ _ s. Keeps-require (find_object object_id s.database) not_found s)

pub assigned-Keeps :
    (project_id actor_id : String) → Keeps (assert_active_assignment project_id actor_id)
unfolding assert_active_assignment
assigned-Keeps project_id actor_id =
    Keeps-reads (assert_active_assignment project_id actor_id) (λ s. ground arith)

pub read_replay-Keeps :
    (request_id : String) (b : IdempotencyBinding) → Keeps (find_replay request_id b)
unfolding find_replay
read_replay-Keeps request_id b = Keeps-reads (find_replay request_id b) (λ s. ground arith)

-- A call under its idempotency record.
pub replayed-Keeps :
    (request_id : String) (b : IdempotencyBinding) (go : Call Response)
    → Keeps go
    → Keeps (find_replay request_id b >>= λ o. replay_or o go)
replayed-Keeps request_id b go k =
    Keeps-bind (find_replay request_id b) (λ o. replay_or o go) (read_replay-Keeps request_id b)
      either
  where
    either : (o : Option Response) → Keeps (replay_or o go)
    either none = k
    either (some r) = Preserved-refl

pub write_idempotency-Keeps :
    (request_id : String) (b : IdempotencyBinding) (r : Response)
    → Keeps (write_idempotency request_id b r)
unfolding write_idempotency
write_idempotency-Keeps request_id b r s =
    Keeps-guard (any (is_record_of request_id) s.database.idempotency_records) repeated
      (λ _. write (λ d. record d {
        idempotency_records =
            d.idempotency_records
            ++ record {
              request_id = request_id;
              action = b.action;
              actor_id = b.actor_id;
              target_id = b.target_id;
              target_type = b.target_type;
              response_payload = r;
            }
              ∷ [];
      }))
      (Keeps-write _ (record_added-TablesKept _)) s

pub set_object-Keeps :
    (id : String) (f : AudioObject → AudioObject)
    → ((o : AudioObject) → (f o).id ≡ o.id)
    → Keeps (set_object id f)
unfolding set_object
set_object-Keeps id f k = Keeps-write _ (λ d. objects_set-TablesKept id f d k)

pub assert_writable-Keeps : (object : AudioObject) → Keeps (assert_writable object)
unfolding assert_writable
assert_writable-Keeps object = Keeps-reads (assert_writable object) (λ s. ground arith)

pub project_access-Keeps :
    (actor : Actor) (project_id : String) → Keeps (assert_project_access actor project_id)
unfolding assert_project_access
project_access-Keeps actor project_id =
    let assigned : Call (Unit {0}) =
      query (is_assigned project_id actor.id) >>= λ a. throw_if (not a) forbidden in
    let rest : Call (Unit {0}) = query (has_project project_id) >>= λ there.
    throw_if (not there) not_found >>= λ _. assigned in
    Keeps-bind (assert_role actor) (λ _. rest) (assert_role-Keeps actor)
      (λ _. Keeps-reads rest (λ s. ground arith))

pub upload_authority-Keeps :
    (object : AudioObject) (actor : Actor) (input : AudioChunkInput)
    → Keeps (assert_upload_authority object actor input)
unfolding assert_upload_authority
upload_authority-Keeps object actor input s = authorized (find_finalization object.id s.database)
  where
    authorized :
        (o : Option SessionFinalization) → Preserved s (authorize_upload object actor input o s).1
    authorized none = assigned-Keeps object.project_id actor.id s
    authorized (some f) =
        let audited : Call (Unit {0}) = write (
          log (record {
            action = "audio.evidence_upload";
            actor_id = actor.id;
            entity_id = object.id;
            entity_type = "audio_object";
            request_id = some input.request_id;
            sequence_no = some input.sequence_no;
          })) in
        let named : Bool =
          is_committed input
            (find (λ (c : Commitment). eqb c.sequence_no input.sequence_no) f.chunks) in
        Keeps-guard (not actor.is_active || not (f.created_by == actor.id)) forbidden
          (λ _. throw_if (not named) (conflict "AUDIO_COMMITMENT_CONFLICT") >>= λ _. audited)
          (Keeps-guard (not named) (conflict "AUDIO_COMMITMENT_CONFLICT") (λ _. audited)
            (Keeps-write (log _) (log-TablesKept _)))
          s

pub complete_authority-Keeps :
    (object : AudioObject) (actor : Actor) (expected : ℕ)
    → Keeps (assert_complete_authority object actor expected)
unfolding assert_complete_authority
complete_authority-Keeps object actor expected s =
    authorized (find_finalization object.id s.database)
  where
    authorized :
        (o : Option SessionFinalization)
        → Preserved s (authorize_complete object actor expected o s).1
    authorized none = assigned-Keeps object.project_id actor.id s
    authorized (some f) = Preserved-refl s
