-- ===== src/Capture/Replay.antt =====
-- The idempotency of apps/api/src/project-foundation/session-capture.service.ts: what `audit` and
-- `writeReplay` leave is what `replay` and `assertReplayMetadata` look for.
use elder_interview_ai.Prelude.{
  ◌≡◌, ap, subst, ◌∙◌, Bool, true, false, String, List, [], ◌∷◌, ◌++◌, some, arith, any, eq_iff,
}
use elder_interview_ai.Prelude.Map.{Map}
use elder_interview_ai.Prelude.Action.{ok, ◌>>◌, pure, require, >>=-ok}
use elder_interview_ai.Capture.Tables.{
  Json, AuditLog, Snapshot, IdempotencyRecord, State, find, no_row,
}
use elder_interview_ai.Capture.Common.{
  Call, Actor, read_snapshot, find_session, is_record_of, is_audit_of, is_foreign, audit,
  write_replay, conclude,
}

find-snoc :
    {A : Type 0} (p : A → Bool) (xs : List A) (x : A)
    → any p xs ≡ false
    → p x ≡ true
    → find p (xs ++ x ∷ []) ≡ some x
unfolding find
find-snoc p [] x h k = ground arith
find-snoc p (y ∷ ys) x h k = ground (arith, find-snoc p ys x)

read_snapshot-reads :
    (session_id : String) (s t : State) (x : Snapshot)
    → read_snapshot session_id s ≡ (ok x, t)
    → t ≡ s
unfolding read_snapshot
read_snapshot-reads session_id s t x h =
    let (session, u, p, q) = >>=-ok (require (find_session session_id s) no_row) _ s t x h in
    ground arith

-- What the end of a call writes.
module _ (action request_id : String) (actor : Actor) (session_id : String)
    (metadata : Map Json) where
  abbrev pub the_record : Snapshot → IdempotencyRecord
  the_record snapshot = record {
    request_id = request_id;
    action = action;
    actor_id = actor.id;
    target_id = session_id;
    target_type = "interview_session";
    response_payload = snapshot;
  }

  abbrev pub the_audit : AuditLog
  the_audit = record {
    action = action;
    actor_id = actor.id;
    entity_id = session_id;
    entity_type = "interview_session";
    request_id = some request_id;
    metadata = metadata;
  }

  written :
      (snapshot : Snapshot) (s t : State) (x : Unit {0})
      → write_replay request_id action actor session_id snapshot s ≡ (ok x, t)
      → (any (is_record_of request_id) s.idempotency_records ≡ false)
        × (t ≡ record s { idempotency_records = s.idempotency_records ++ the_record snapshot ∷ [] })
  unfolding write_replay
  written snapshot s t x h = (ground arith, ground arith)

  pub concluded :
      (snapshot : Snapshot) (s t : State)
      → conclude action request_id actor session_id metadata s ≡ (ok snapshot, t)
      → (any (is_record_of request_id) s.idempotency_records ≡ false)
        × (t ≡ record s {
          audit_logs = s.audit_logs ++ the_audit ∷ [];
          idempotency_records = s.idempotency_records ++ the_record snapshot ∷ [];
        })
  unfolding conclude audit
  concluded snapshot s t h =
      let logged : State = record s { audit_logs = s.audit_logs ++ the_audit ∷ [] } in
      let write : Snapshot → Call Snapshot =
        λ x. write_replay request_id action actor session_id x >> pure x in
      let (x, u, p, q) = >>=-ok (read_snapshot session_id) write logged t snapshot h in
      let e = read_snapshot-reads session_id logged u x p in
      let (y, w, p2, q2) =
        >>=-ok (write_replay request_id action actor session_id x) (λ _. pure x) u t snapshot q in
      let (new, same) = written x u w y p2 in
      let with_record : State → Snapshot → State =
        λ v z. record v { idempotency_records = v.idempotency_records ++ the_record z ∷ [] } in
      let answer : x ≡ snapshot = ground arith in
      let last : t ≡ w = ground arith in
      (
        subst (λ (v : State). any (is_record_of request_id) v.idempotency_records ≡ false) e new,
        last ∙ (same ∙ (ap (λ (v : State). with_record v x) e ∙ ap (with_record logged) answer)),
      )

  itself : (snapshot : Snapshot) → is_foreign action actor session_id (the_record snapshot) ≡ false
  itself snapshot =
      ground (arith, eq_iff action action, eq_iff actor.id actor.id, eq_iff session_id session_id)

  -- A conclusion that succeeds leaves a record and an audit that are found again, if the request was
  -- not audited before.
  pub concluded-found :
      (snapshot : Snapshot) (s t : State)
      → conclude action request_id actor session_id metadata s ≡ (ok snapshot, t)
      → any (is_audit_of action session_id request_id) s.audit_logs ≡ false
      → (find (is_record_of request_id) t.idempotency_records ≡ some (the_record snapshot))
        × (is_foreign action actor session_id (the_record snapshot) ≡ false)
        × (find (is_audit_of action session_id request_id) t.audit_logs ≡ some the_audit)
  concluded-found snapshot s t h a =
      let (r, e) = concluded snapshot s t h in
      let own : is_record_of request_id (the_record snapshot) ≡ true =
        ground (arith, eq_iff request_id request_id) in
      let audited : is_audit_of action session_id request_id the_audit ≡ true =
        ground (
          arith,
          eq_iff request_id request_id,
          eq_iff session_id session_id,
          eq_iff action action,
        ) in
      (
        ap (λ (z : State). find (is_record_of request_id) z.idempotency_records) e
            ∙ find-snoc (is_record_of request_id) s.idempotency_records (the_record snapshot) r own,
        itself snapshot,
        ap (λ (z : State). find (is_audit_of action session_id request_id) z.audit_logs) e
            ∙ find-snoc (is_audit_of action session_id request_id) s.audit_logs the_audit a audited,
      )
