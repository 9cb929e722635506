-- ===== src/AudioServer/Requests.antt =====
-- How the calls of apps/api/src/audio/audio.service.ts begin: role, object and idempotency record.
use elder_interview_ai.Prelude.{◌≡◌, refl, true, String, Option, none, some, arith}
use elder_interview_ai.Prelude.Action.{Result, ok, err, ◌>>=◌}
use elder_interview_ai.AudioServer.Tables.{
  AudioObject, Response, Database, State, Failure, Call, Actor,
}
use elder_interview_ai.AudioServer.Access.{
  undo, transaction, assert_role, find_object, find_object_for_write, IdempotencyBinding,
  find_record, find_replay, replay_or,
}

-- A call for an object by an interviewer goes on from the same state.
pub entered :
    (actor : Actor) (object_id : String) (k : AudioObject → Call Response) (s t : State)
    (r : Response)
    → actor.is_interviewer ≡ true
    → (find_object_for_write actor object_id >>= k) s ≡ (ok r, t)
    → (object : AudioObject) × (find_object object_id s.database ≡ some object)
      × (k object s ≡ (ok r, t))
unfolding find_object_for_write assert_role
entered actor object_id k s t r h e = go (find_object object_id s.database) refl
  where
    go :
        (o : Option AudioObject)
        → find_object object_id s.database ≡ o
        → (object : AudioObject) × (find_object object_id s.database ≡ some object)
          × (k object s ≡ (ok r, t))
    go none f = absurd (ground (arith, e, h, f))
    go (some object) f = (object, f, rw (h, f) at e)

-- A request without a record is carried out.
pub new_request :
    (request_id : String) (b : IdempotencyBinding) (go : Call Response) (s : State)
    → find_record request_id s.database ≡ none
    → (find_replay request_id b >>= λ o. replay_or o go) s ≡ go s
unfolding find_replay
new_request request_id b go s e = rw e refl

committed_by :
    {A : Type 0} (r : Result Failure A) (u t : State) (before : Database) (a : A)
    → undo r u before ≡ (ok a, t)
    → (r ≡ ok a) × (u ≡ t)
committed_by (ok b) u t before a h = (cc, cc)
committed_by (err e) u t before a h = cc

-- A transaction that answers has kept what it wrote.
pub committed :
    {A : Type 0} (m : Call A) (s t : State) (a : A) → transaction m s ≡ (ok a, t) → m s ≡ (ok a, t)
committed m s t a h = let (p, q) = committed_by (m s).0 (m s).1 t s.database a h in cc
