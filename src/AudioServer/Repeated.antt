-- ===== src/AudioServer/Repeated.antt =====
-- A request of apps/api/src/audio/audio.service.ts that is sent again gets the answer it got.
use text.Mathlib.TextPositions.{eq_refl}
use elder_interview_ai.Prelude.{
  ◌≡◌, refl, ap, subst, true, false, String, List, [], ◌∷◌, ◌++◌, Option, none, some, arith, any,
}
use elder_interview_ai.Prelude.Rows.{find}
use elder_interview_ai.Prelude.Action.{ok, ◌>>=◌, pure}
use elder_interview_ai.AudioServer.Tables.{Response, Database, State, Call, Platform}
use elder_interview_ai.AudioServer.Access.{
  transaction, IdempotencyBinding, is_record_of, is_bound, find_record, read_replay, find_replay,
  replay_or, write_idempotency,
}
use elder_interview_ai.Prelude.{◌∙◌}
use elder_interview_ai.Prelude.Action.{>>=-ok}
use elder_interview_ai.AudioServer.Tables.{IdempotencyRecord}
use elder_interview_ai.AudioServer.Requests.{committed}
use elder_interview_ai.AudioServer.Runs.{AudioCall, run, run-Preserved}

-- The answer is recorded for the request.
pub record Answered (request_id : String) (b : IdempotencyBinding) (r : Response) (d : Database)
    : Type 0 where
  pub row : IdempotencyRecord
  pub found : find_record request_id d ≡ some row
  pub bound : is_bound b row ≡ true
  pub payload : row.response_payload ≡ r

find-new :
    (request_id : String) (rows : List IdempotencyRecord) (row : IdempotencyRecord)
    → any (is_record_of request_id) rows ≡ false
    → row.request_id ≡ request_id
    → find (is_record_of request_id) (rows ++ row ∷ []) ≡ some row
unfolding find
find-new request_id [] row h e = ground (arith, e, eq_refl request_id)
find-new request_id (x ∷ xs) row h e = ground (arith, find-new request_id xs row, e)

module _ (request_id : String) (b : IdempotencyBinding) where
  abbrev new_row : Response → IdempotencyRecord
  new_row r = record {
    request_id = request_id;
    action = b.action;
    actor_id = b.actor_id;
    target_id = b.target_id;
    target_type = b.target_type;
    response_payload = r;
  }

  pub written-Answered :
      (r r' : Response) (s t : State)
      → (write_idempotency request_id b r >>= λ _. pure r) s ≡ (ok r', t)
      → Answered request_id b r' t.database
  unfolding write_idempotency find_record
  written-Answered r r' s t h =
      let unused : any (is_record_of request_id) s.database.idempotency_records ≡ false =
        ground arith in
      let rows : t.database.idempotency_records ≡ s.database.idempotency_records ++ new_row r ∷ [] =
        ground arith in
      record {
        row = new_row r;
        found =
            ap (find (is_record_of request_id)) rows
            ∙ find-new request_id s.database.idempotency_records (new_row r) unused refl;
        bound = ground (
          arith,
          eq_refl b.action,
          eq_refl b.actor_id,
          eq_refl b.target_type,
          eq_refl b.target_id,
        );
        payload = ground arith;
      }

  replay-Answered :
      (r : Response) (s : State) (o : Option IdempotencyRecord) (u : State)
      → find_record request_id s.database ≡ o
      → read_replay b o s ≡ (ok (some r), u)
      → Answered request_id b r u.database
  replay-Answered r s none u f h = absurd (ground arith)
  replay-Answered r s (some row) u f h =
      let e : s ≡ u = ground arith in
      record {
        row = row;
        found = subst (λ (w : State). find_record request_id w.database ≡ some row) e f;
        bound = ground arith;
        payload = ground arith;
      }

  -- However the answer came about.
  pub replayed-Answered :
      (go : Call Response) (s t : State) (r : Response)
      → ((u w : State) → go u ≡ (ok r, w) → Answered request_id b r w.database)
      → (find_replay request_id b >>= λ o. replay_or o go) s ≡ (ok r, t)
      → Answered request_id b r t.database
  unfolding find_replay
  replayed-Answered go s t r k h =
      let (o, u, h1, h2) = >>=-ok (find_replay request_id b) (λ o. replay_or o go) s t r h in
      either o u h1 h2
    where
      either :
          (o : Option Response) (u : State)
          → find_replay request_id b s ≡ (ok o, u)
          → replay_or o go u ≡ (ok r, t)
          → Answered request_id b r t.database
      either none u p q = k u t q
      either (some x) u p q =
          let e : x ≡ r = ground arith in
          let e' : u ≡ t = ground arith in
          replay-Answered r s (find_record request_id s.database) t refl
            (p ∙ ap (λ y. (ok (some y), u)) e ∙ ap (λ w. (ok (some r), w)) e')

  -- A recorded answer is given again.
  pub answered-again :
      (go : Call Response) (r : Response) (s : State)
      → Answered request_id b r s.database
      → (find_replay request_id b >>= λ o. replay_or o go) s ≡ (ok r, s)
  unfolding find_replay
  answered-again go r s k = ground (arith, k.found, k.bound, k.payload)

  pub later :
      (r : Response) (cs : List (Platform × AudioCall)) (s : State)
      → Answered request_id b r s.database
      → Answered request_id b r (run cs s).database
  later r cs s k = record {
    row = k.row;
    found = (run-Preserved cs s).tables.records request_id k.row k.found;
    bound = k.bound;
    payload = k.payload;
  }

  -- So does a transaction.
  pub transaction-Answered :
      (fresh : Call Response) (s t : State) (r : Response)
      → ((u w : State) → fresh u ≡ (ok r, w) → Answered request_id b r w.database)
      → transaction (find_replay request_id b >>= λ o. replay_or o fresh) s ≡ (ok r, t)
      → Answered request_id b r t.database
  transaction-Answered fresh s t r k h =
      replayed-Answered fresh s t r k
        (committed (find_replay request_id b >>= λ o. replay_or o fresh) s t r h)
