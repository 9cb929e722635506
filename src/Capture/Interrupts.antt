-- ===== src/Capture/Interrupts.antt =====
-- The transactions of apps/api/src/project-foundation/session-capture.service.ts: none of them tells
-- the runtime of an interruption or takes a row of a session, a capture, an audit or a request away.
use elder_interview_ai.Prelude.{
  ◌≡◌, refl, ◌∙◌, arith, Bool, String, Option, none, some, is_none, any, [], ◌∷◌, ◌++◌, ◌==◌,
}
use elder_interview_ai.Prelude.Map.{Map}
use elder_interview_ai.Prelude.Action.{◌>>=◌, ◌>>◌, pure, throw_if, modify}
use elder_interview_ai.Prelude.Keeping
use elder_interview_ai.Capture.Tables.{
  InterviewSession, SessionCaptureGeneration, repeated, update_where, IdempotencyRecord, Json,
  Snapshot, State, Failure, no_row,
}
use elder_interview_ai.Capture.Common.{
  Call, Actor, Services, find_session, lock_capture, is_record_of, assert_current_gate, replay,
  replay_record, replay_or, read_snapshot, audit, write_replay, conclude, set_session_status,
  set_capture,
}
use elder_interview_ai.Capture.Extends.{
  Extends, Extends-refl, Extends-trans, sessions-Extends, captures-Extends, new_audit-Extends,
  new_record-Extends,
}

abbrev pub Told : State → State → Type 0
Told s t = (t.interrupts ≡ s.interrupts) × Extends s t

abbrev pub IsQuiet : {A : Type 0} → Call A → Type 0
IsQuiet m = (s : State) → Told s (m s).1

pub Told-refl : (s : State) → Told s s
Told-refl s = (refl, Extends-refl s)

pub Told-trans : (s t u : State) → Told s t → Told t u → Told s u
Told-trans s t u h k = (k.0 ∙ h.0, Extends-trans s t u h.1 k.1)

-- A call that writes nothing.
reads-IsQuiet : {A : Type 0} (m : Call A) → ((s : State) → (m s).1 ≡ s) → IsQuiet m
reads-IsQuiet m h = Keeping.Keeps-reads Told Told-refl Told-trans m h

pub >>=-IsQuiet :
    {A B : Type 0} (m : Call A) (f : A → Call B)
    → IsQuiet m
    → ((a : A) → IsQuiet (f a))
    → IsQuiet (m >>= f)
>>=-IsQuiet m f k l = Keeping.Keeps-bind Told Told-refl Told-trans m f k l

pub guard-IsQuiet :
    {B : Type 0} (c : Bool) (e : Failure) (k : Unit {0} → Call B)
    → IsQuiet (k tt)
    → IsQuiet (throw_if c e >>= k)
guard-IsQuiet c e k h = Keeping.Keeps-guard Told Told-refl Told-trans c e k h

pub lock_capture-IsQuiet : (session_id : String) → IsQuiet (lock_capture session_id)
unfolding lock_capture
lock_capture-IsQuiet session_id = reads-IsQuiet (lock_capture session_id) (λ s. ground arith)

replay_record-IsQuiet :
    (action : String) (actor : Actor) (session_id request_id : String)
    (found : Option IdempotencyRecord)
    → IsQuiet (replay_record action actor session_id request_id found)
replay_record-IsQuiet action actor session_id request_id none = Told-refl
replay_record-IsQuiet action actor session_id request_id (some r) =
    reads-IsQuiet (replay_record action actor session_id request_id (some r)) (λ s. ground arith)

replay-IsQuiet :
    (request_id action : String) (actor : Actor) (session_id : String)
    → IsQuiet (replay request_id action actor session_id)
unfolding replay
replay-IsQuiet request_id action actor session_id s =
    replay_record-IsQuiet action actor session_id request_id _ s

replay_or-IsQuiet :
    (expected : Map Json) (earlier : Option (Map Json × Snapshot)) (go : Call Snapshot)
    → IsQuiet go
    → IsQuiet (replay_or expected earlier go)
replay_or-IsQuiet expected none go k = k
replay_or-IsQuiet expected (some (metadata, snapshot)) go k =
    reads-IsQuiet (replay_or expected (some (metadata, snapshot)) go) (λ s. ground arith)

pub assert_current_gate-IsQuiet :
    (v : Services) (actor : Actor) (session : InterviewSession)
    → IsQuiet (assert_current_gate v actor session)
unfolding assert_current_gate
assert_current_gate-IsQuiet v actor session =
    reads-IsQuiet (assert_current_gate v actor session) (λ s. ground arith)

pub set_session_status-IsQuiet :
    (session_id : String) (f : InterviewSession → InterviewSession)
    → ((x : InterviewSession) → (f x).id ≡ x.id)
    → IsQuiet (set_session_status session_id f)
unfolding set_session_status
set_session_status-IsQuiet session_id f k s =
    guard-IsQuiet (is_none (find_session session_id s)) no_row
      (λ _. modify (λ u. record u {
        sessions = update_where (λ (x : InterviewSession). x.id == session_id) f u.sessions;
      }))
      (λ u. (refl, sessions-Extends (λ (x : InterviewSession). x.id == session_id) f u k)) s

pub set_capture-IsQuiet :
    (id : String) (f : SessionCaptureGeneration → SessionCaptureGeneration)
    → ((c : SessionCaptureGeneration) → (f c).session_id ≡ c.session_id)
    → IsQuiet (set_capture id f)
unfolding set_capture
set_capture-IsQuiet id f k s =
    (refl, captures-Extends (λ (c : SessionCaptureGeneration). c.id == id) f s k)

read_snapshot-IsQuiet : (session_id : String) → IsQuiet (read_snapshot session_id)
unfolding read_snapshot
read_snapshot-IsQuiet session_id = reads-IsQuiet (read_snapshot session_id) (λ s. ground arith)

write_replay-IsQuiet :
    (request_id action : String) (actor : Actor) (session_id : String) (snapshot : Snapshot)
    → IsQuiet (write_replay request_id action actor session_id snapshot)
unfolding write_replay
write_replay-IsQuiet request_id action actor session_id snapshot s =
    let new : IdempotencyRecord = record {
      request_id = request_id;
      action = action;
      actor_id = actor.id;
      target_id = session_id;
      target_type = "interview_session";
      response_payload = snapshot;
    } in
    guard-IsQuiet (any (is_record_of request_id) s.idempotency_records) repeated
      (λ _. modify (λ u. record u { idempotency_records = u.idempotency_records ++ new ∷ [] }))
      (λ u. (refl, new_record-Extends new u)) s

pub conclude-IsQuiet :
    (action request_id : String) (actor : Actor) (session_id : String) (metadata : Map Json)
    → IsQuiet (conclude action request_id actor session_id metadata)
unfolding conclude audit
conclude-IsQuiet action request_id actor session_id metadata =
    let write : Snapshot → Call Snapshot =
      λ x. write_replay request_id action actor session_id x >> pure x in
    >>=-IsQuiet (audit action actor session_id request_id metadata)
      (λ _. read_snapshot session_id >>= write) (λ s. (refl, new_audit-Extends _ s))
      (λ _. >>=-IsQuiet (read_snapshot session_id) write (read_snapshot-IsQuiet session_id) (λ x.
        >>=-IsQuiet (write_replay request_id action actor session_id x) (λ _. pure x)
          (write_replay-IsQuiet request_id action actor session_id x) (λ _. Told-refl)))

-- What the calls have in common: a capture, then the replay, or the call's own work.
pub body-IsQuiet :
    {A : Type 0} (lock : Call A) (request_id action : String) (actor : Actor) (session_id : String)
    (expected : Map Json) (go : A → Call Snapshot)
    → IsQuiet lock
    → ((a : A) → IsQuiet (go a))
    → IsQuiet (
        lock >>= λ a.
        replay request_id action actor session_id >>= λ earlier. replay_or expected earlier (go a))
body-IsQuiet lock request_id action actor session_id expected go k l = >>=-IsQuiet lock _ k (λ a.
    >>=-IsQuiet (replay request_id action actor session_id)
      (λ earlier. replay_or expected earlier (go a))
      (replay-IsQuiet request_id action actor session_id)
      (λ earlier. replay_or-IsQuiet expected earlier (go a) (l a)))
