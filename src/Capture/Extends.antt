-- ===== src/Capture/Extends.antt =====
-- What no call of apps/api/src/project-foundation/session-capture.service.ts takes away: the rows of
-- sessions and captures, the audits and the records of requests.
use elder_interview_ai.Prelude.{
  ◌≡◌, refl, ap, ◌∙◌, arith, Bool, Bool-cases, true, inl, inr, String, List, [], ◌∷◌, ◌++◌, some,
  is_some, ◌==◌,
}
use elder_interview_ai.Prelude.Rows.{find-append}
use elder_interview_ai.Capture.Tables.{
  InterviewSession, SessionCaptureGeneration, IdempotencyRecord, AuditLog, State, find,
  update_where,
}
use elder_interview_ai.Capture.Common.{find_session, newest, current_capture}

-- What is there stays: a session, a capture of a session, and the first audit and the first record
-- of any kind.
pub record Extends (s t : State) : Type 0 where
  pub sessions :
      (id : String) → is_some (find_session id s) ≡ true → is_some (find_session id t) ≡ true
  pub captures :
      (id : String) → is_some (current_capture id s) ≡ true → is_some (current_capture id t) ≡ true
  pub audits :
      (p : AuditLog → Bool) (a : AuditLog)
      → find p s.audit_logs ≡ some a
      → find p t.audit_logs ≡ some a
  pub records :
      (p : IdempotencyRecord → Bool) (r : IdempotencyRecord)
      → find p s.idempotency_records ≡ some r
      → find p t.idempotency_records ≡ some r

pub Extends-refl : (s : State) → Extends s s
Extends-refl s = record {
  sessions = λ id h. h;
  captures = λ id h. h;
  audits = λ p a h. h;
  records = λ p r h. h;
}

pub Extends-trans : (s t u : State) → Extends s t → Extends t u → Extends s u
Extends-trans s t u e f = record {
  sessions = λ id h. f.sessions id (e.sessions id h);
  captures = λ id h. f.captures id (e.captures id h);
  audits = λ p a h. f.audits p a (e.audits p a h);
  records = λ p r h. f.records p r (e.records p r h);
}

-- A write of other tables.
pub other_tables-Extends :
    (s t : State)
    → t.sessions ≡ s.sessions
    → t.captures ≡ s.captures
    → t.audit_logs ≡ s.audit_logs
    → t.idempotency_records ≡ s.idempotency_records
    → Extends s t
unfolding find_session current_capture
other_tables-Extends s t a b c d = record {
  sessions = λ id h. ap (λ l. is_some (find (λ (x : InterviewSession). x.id == id) l)) a ∙ h;
  captures = λ id h. ap (λ l. is_some (newest id l)) b ∙ h;
  audits = λ p x h. ap (find p) c ∙ h;
  records = λ p r h. ap (find p) d ∙ h;
}

update_where-found :
    (id : String) (p : InterviewSession → Bool) (f : InterviewSession → InterviewSession)
    (xs : List InterviewSession)
    → ((x : InterviewSession) → (f x).id ≡ x.id)
    → is_some (find (λ (x : InterviewSession). x.id == id) (update_where p f xs))
      ≡ is_some (find (λ (x : InterviewSession). x.id == id) xs)
unfolding find update_where
update_where-found id p f [] k = refl
update_where-found id p f (x ∷ xs) k = elim (Bool-cases (p x)) [
  | inl e ↦ ground (arith, e, k x, update_where-found id p f xs k)
  | inr e ↦ ground (arith, e, update_where-found id p f xs k)
]

pub sessions-Extends :
    (p : InterviewSession → Bool) (f : InterviewSession → InterviewSession) (s : State)
    → ((x : InterviewSession) → (f x).id ≡ x.id)
    → Extends s (record s { sessions = update_where p f s.sessions })
unfolding find_session current_capture
sessions-Extends p f s k = record {
  sessions = λ id h. update_where-found id p f s.sessions k ∙ h;
  captures = λ id h. h;
  audits = λ p a h. h;
  records = λ p r h. h;
}

newest-update_where :
    (id : String) (p : SessionCaptureGeneration → Bool)
    (f : SessionCaptureGeneration → SessionCaptureGeneration) (cs : List SessionCaptureGeneration)
    → ((c : SessionCaptureGeneration) → (f c).session_id ≡ c.session_id)
    → is_some (newest id (update_where p f cs)) ≡ is_some (newest id cs)
unfolding newest update_where
newest-update_where id p f [] k = refl
newest-update_where id p f (c ∷ cs) k = elim (Bool-cases (p c)) [
  | inl e ↦ ground (arith, e, k c, newest-update_where id p f cs k)
  | inr e ↦ ground (arith, e, newest-update_where id p f cs k)
]

pub captures-Extends :
    (p : SessionCaptureGeneration → Bool) (f : SessionCaptureGeneration → SessionCaptureGeneration)
    (s : State)
    → ((c : SessionCaptureGeneration) → (f c).session_id ≡ c.session_id)
    → Extends s (record s { captures = update_where p f s.captures })
unfolding find_session current_capture
captures-Extends p f s k = record {
  sessions = λ id h. h;
  captures = λ id h. newest-update_where id p f s.captures k ∙ h;
  audits = λ p a h. h;
  records = λ p r h. h;
}

newest-append :
    (id : String) (cs : List SessionCaptureGeneration) (new : SessionCaptureGeneration)
    → is_some (newest id cs) ≡ true
    → is_some (newest id (cs ++ new ∷ [])) ≡ true
unfolding newest
newest-append id [] new h = cc
newest-append id (c ∷ cs) new h = ground (arith, newest-append id cs new)

pub new_capture-Extends :
    (new : SessionCaptureGeneration) (s : State)
    → Extends s (record s { captures = s.captures ++ new ∷ [] })
unfolding find_session current_capture
new_capture-Extends new s = record {
  sessions = λ id h. h;
  captures = λ id h. newest-append id s.captures new h;
  audits = λ p a h. h;
  records = λ p r h. h;
}

pub new_audit-Extends :
    (new : AuditLog) (s : State) → Extends s (record s { audit_logs = s.audit_logs ++ new ∷ [] })
unfolding find_session current_capture
new_audit-Extends new s = record {
  sessions = λ id h. h;
  captures = λ id h. h;
  audits = λ p a h. find-append p s.audit_logs (new ∷ []) a h;
  records = λ p r h. h;
}

pub new_record-Extends :
    (new : IdempotencyRecord) (s : State)
    → Extends s (record s { idempotency_records = s.idempotency_records ++ new ∷ [] })
unfolding find_session current_capture
new_record-Extends new s = record {
  sessions = λ id h. h;
  captures = λ id h. h;
  audits = λ p a h. h;
  records = λ p r h. find-append p s.idempotency_records (new ∷ []) r h;
}
