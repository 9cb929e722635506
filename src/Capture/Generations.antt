-- ===== src/Capture/Generations.antt =====
-- What `resume` of apps/api/src/project-foundation/session-capture.service.ts does to the
-- generations of a capture.
use elder_interview_ai.Prelude.Action.{Result, ok, err, ◌>>=◌, gets, require, require-ok}
use elder_interview_ai.Prelude.Map.{Map}
use elder_interview_ai.Capture.Tables.{
  Json, Failure, IdempotencyRecord, find, conflict, not_found, no_row,
}
use elder_interview_ai.Capture.Common.{
  interviewer, keep_or_undo, transaction, is_record_of, replay_record, replay, replay_or, Call,
}
use elder_interview_ai.Capture.Errors.{entered}
use elder_interview_ai.Capture.Resume.{resume, resume_expected}
use elder_interview_ai.Capture.Service.{resume_action}
use elder_interview_ai.Prelude.{
  ◌+◌, ◌≤◌, ◌≡◌, refl, sym, ap, ◌∙◌, subst, true, false, not, ◌||◌, String, [], ◌∷◌, ◌++◌, Option,
  none, some, is_some, arith, All,
}
use elder_interview_ai.Prelude.Action.{ok, ◌>>◌, throw_if, require, >>=-ok, require-ok}
use elder_interview_ai.Capture.Tables.{
  InterviewSession, reconnecting, SessionCaptureGeneration, AudioChunk, Snapshot, State, conflict,
  no_row,
}
use elder_interview_ai.Capture.Common.{
  Call, Actor, Services, find_session, newest, current_capture, find_finalization, interviewer,
  keep_or_undo, transaction, is_record_of, replay_record, replay, replay_or, uploaded_chunks,
  assert_current_gate, conclude, set_session_status,
}
use elder_interview_ai.Capture.Service.{
  ResumeCaptureRequest, resume_action, session_interrupted, capture_interrupted,
}
use elder_interview_ai.Capture.Resume.{
  high_water, archive_conflicts, next_generation, create_generation, resume_metadata,
  open_generation, resume_archive, resume_session, resume_fresh, resume_expected, resume,
}
use elder_interview_ai.Capture.Errors.{entered}
use elder_interview_ai.Capture.Replay.{concluded}
use elder_interview_ai.Prelude.Map.{Map}
use elder_interview_ai.Capture.Newest.{high_water_bound, All-le, IsBelow, newest-snoc}

create-ok :
    (next : SessionCaptureGeneration) (s t : State) (x : Unit {0})
    → create_generation next s ≡ (ok x, t)
    → t ≡ record s { captures = s.captures ++ next ∷ [] }
unfolding create_generation
create-ok next s t x h = ground arith

set_session_status-ok :
    (session_id : String) (f : InterviewSession → InterviewSession) (s t : State) (x : Unit {0})
    → set_session_status session_id f s ≡ (ok x, t)
    → t.captures ≡ s.captures
unfolding set_session_status
set_session_status-ok session_id f s t x h = ground arith

gate-ok :
    (v : Services) (actor : Actor) (session : InterviewSession) (s t : State) (x : Unit {0})
    → assert_current_gate v actor session s ≡ (ok x, t)
    → t ≡ s
unfolding assert_current_gate
gate-ok v actor session s t x h = ground arith

-- The newest generation of the state before is interrupted; that of the state after has the next
-- number, the same audio object, and a start that is not before the start of the last one nor the
-- end of an uploaded chunk.
abbrev pub IsContinued : String → SessionCaptureGeneration → State → State → Type 0
IsContinued session_id old s t =
    (capture_interrupted old.status ≡ true)
    × ((new : SessionCaptureGeneration) × (current_capture session_id t ≡ some new)
        × (new.generation_no ≡ old.generation_no + 1)
        × (new.audio_object_id ≡ old.audio_object_id)
        × (old.timeline_offset_ms ≤ new.timeline_offset_ms)
        × All (λ (c : AudioChunk). c.end_ms ≤ new.timeline_offset_ms)
            (uploaded_chunks old.audio_object_id s))

-- The rest of `resume` once the new row is made.
module _ (v : Services) (actor : Actor) (session_id : String) (input : ResumeCaptureRequest)
    (old : SessionCaptureGeneration) where
  abbrev next : SessionCaptureGeneration
  next = next_generation v session_id input old

  ends :
      (s t : State) (snapshot : Snapshot)
      → open_generation v actor session_id input old s ≡ (ok snapshot, t)
      → t.captures ≡ s.captures ++ next ∷ []
  unfolding open_generation
  ends s t snapshot h =
      let finish : Call Snapshot =
        conclude resume_action input.request_id actor session_id (resume_metadata input next) in
      let status : Call (Unit {0}) =
        set_session_status session_id (λ x. record x { status = reconnecting }) in
      let (x, u, p, q) = >>=-ok (create_generation next) (λ _. status >> finish) s t snapshot h in
      let (y, w, p2, q2) = >>=-ok status (λ _. finish) u t snapshot q in
      let (r, e) =
        concluded resume_action input.request_id actor session_id (resume_metadata input next)
          snapshot w t q2 in
      ap (λ (z : State). z.captures) e
      ∙ (set_session_status-ok session_id _ u w y p2
          ∙ ap (λ (z : State). z.captures) (create-ok next s u x p))

  archived :
      (s t : State) (snapshot : Snapshot)
      → resume_archive v actor session_id input old s ≡ (ok snapshot, t)
      → (archive_conflicts input old (uploaded_chunks old.audio_object_id s) ≡ false)
        × (t.captures ≡ s.captures ++ next ∷ [])
  unfolding resume_archive
  archived s t snapshot h =
      let uploaded = uploaded_chunks old.audio_object_id s in
      let (x, u, p, q) =
        >>=-ok
          (throw_if (archive_conflicts input old uploaded) (conflict "CAPTURE_ARCHIVE_CONFLICT"))
          (λ _. open_generation v actor session_id input old) s t snapshot h in
      let same : u ≡ s = ground arith in
      (ground arith, ends u t snapshot q ∙ ap (λ (z : State). z.captures ++ next ∷ []) same)

  checked :
      (session : InterviewSession) (s t : State) (snapshot : Snapshot)
      → resume_session v actor session_id input old session s ≡ (ok snapshot, t)
      → (session_interrupted session.status ≡ true)
        × (capture_interrupted old.status ≡ true)
        × (archive_conflicts input old (uploaded_chunks old.audio_object_id s) ≡ false)
        × (t.captures ≡ s.captures ++ next ∷ [])
  unfolding resume_session
  checked session s t snapshot h =
      let refused =
        is_some (find_finalization session_id s)
        || not (session_interrupted session.status)
        || not (capture_interrupted old.status) in
      let rest = resume_archive v actor session_id input old in
      let (x, u, p, q) =
        >>=-ok (throw_if refused (conflict "SESSION_NOT_RECOVERABLE"))
          (λ _. assert_current_gate v actor session >> rest) s t snapshot h in
      let (y, w, p2, q2) =
        >>=-ok (assert_current_gate v actor session) (λ _. rest) u t snapshot q in
      let same : u ≡ s = ground arith in
      let e = gate-ok v actor session u w y p2 ∙ same in
      let (a, b) = archived s t snapshot (subst (λ (z : State). rest z ≡ (ok snapshot, t)) e q2) in
      (ground arith, ground arith, a, b)

  resume_fresh-next :
      (s t : State) (snapshot : Snapshot)
      → current_capture session_id s ≡ some old
      → resume_fresh v actor session_id input old s ≡ (ok snapshot, t)
      → (capture_interrupted old.status ≡ true)
        × ((new : SessionCaptureGeneration) × (current_capture session_id t ≡ some new)
            × (new.generation_no ≡ old.generation_no + 1)
            × (new.audio_object_id ≡ old.audio_object_id)
            × (old.timeline_offset_ms ≤ new.timeline_offset_ms)
            × All
                (λ (c : AudioChunk). c.end_ms ≤ new.timeline_offset_ms)
                (uploaded_chunks old.audio_object_id s))
  unfolding resume_fresh current_capture
  resume_fresh-next s t snapshot current h =
      let (session, u, p, q) =
        >>=-ok (require (find_session session_id s) no_row)
          (resume_session v actor session_id input old) s t snapshot h in
      let same : u ≡ s = (require-ok (find_session session_id s) no_row s u session p).1 in
      let (a, b, free, rows) = checked session s t snapshot (
        subst
          (λ (z : State). resume_session v actor session_id input old session z ≡ (ok snapshot, t))
          same q) in
      let newer = newest-snoc session_id s.captures next refl (
        subst (λ (o : Option SessionCaptureGeneration). IsBelow o next.generation_no) (sym current)
          (omega arith)) in
      let uploaded = uploaded_chunks old.audio_object_id s in
      let (low, high) = high_water_bound uploaded 0 in
      (
        b,
        (
          next,
          ap (newest session_id) rows ∙ newer,
          refl,
          refl,
          ground arith,
          All-le (high_water 0 uploaded) input.local_archive_timeline_high_water_ms uploaded
              (ground arith) high,
        ),
      )

pub committed :
    {A : Type 0} (r : Result Failure A) (after before t : State) (a : A)
    → keep_or_undo r after before ≡ (ok a, t)
    → (r ≡ ok a) × (after ≡ t)
committed (ok x) after before t a h = (cc, cc)
committed (err e) after before t a h = cc

new_request :
    (request_id action : String) (actor : Actor) (session_id : String)
    (found : Option IdempotencyRecord) (s t : State) (o : Option (Map Json × Snapshot))
    → found ≡ none
    → replay_record action actor session_id request_id found s ≡ (ok o, t)
    → (o ≡ none) × (t ≡ s)
new_request request_id action actor session_id none s t o e h = (cc, cc)
new_request request_id action actor session_id (some r) s t o e h = cc

fresh_capture-IsContinued :
    (v : Services) (actor : Actor) (session_id : String) (input : ResumeCaptureRequest)
    (s t : State) (snapshot : Snapshot) (old : SessionCaptureGeneration)
    → find (is_record_of input.request_id) s.idempotency_records ≡ none
    → current_capture session_id s ≡ some old
    → (replay input.request_id resume_action actor session_id >>= λ earlier.
          replay_or (resume_expected input) earlier (resume_fresh v actor session_id input old))
        s
      ≡ (ok snapshot, t)
    → IsContinued session_id old s t
unfolding replay
fresh_capture-IsContinued v actor session_id input s t snapshot old new current h =
    let fresh : Call Snapshot = resume_fresh v actor session_id input old in
    let (o, u, p, q) =
      >>=-ok (replay input.request_id resume_action actor session_id)
        (λ earlier. replay_or (resume_expected input) earlier fresh) s t snapshot h in
    let found = find (is_record_of input.request_id) s.idempotency_records in
    let (e, same) = new_request input.request_id resume_action actor session_id found s u o new p in
    let go : Option (Map Json × Snapshot) → State → Type 0 =
      λ x z. replay_or (resume_expected input) x fresh z ≡ (ok snapshot, t) in
    let q1 : go o s = subst (go o) same q in
    let q2 : go none s = subst (λ (x : Option (Map Json × Snapshot)). go x s) e q1 in
    resume_fresh-next v actor session_id input old s t snapshot current q2

-- A `resume` by an interviewer whose request is new succeeds only if the newest generation of the
-- session is interrupted, and then the newest one is new: it has the next number and the same audio
-- object, and starts neither before the start of the last one nor before the end of an uploaded
-- chunk.
pub resume-IsContinued :
    (v : Services) (actor : Actor) (session_id : String) (input : ResumeCaptureRequest)
    (s t : State) (snapshot : Snapshot)
    → actor.role ≡ interviewer
    → find (is_record_of input.request_id) s.idempotency_records ≡ none
    → resume v actor session_id input s ≡ (ok snapshot, t)
    → (old : SessionCaptureGeneration) × (current_capture session_id s ≡ some old)
      × IsContinued session_id old s t
unfolding resume
resume-IsContinued v actor session_id input s t snapshot role new h =
    let fresh : SessionCaptureGeneration → Call Snapshot = λ c.
      replay input.request_id resume_action actor session_id >>= λ earlier.
      replay_or (resume_expected input) earlier (resume_fresh v actor session_id input c) in
    let no_capture = conflict "SESSION_NOT_RECOVERABLE" in
    let located : Call Snapshot =
      gets (current_capture session_id) >>= λ n. require n no_capture >>= fresh in
    let body : Call Snapshot =
      gets (find_session session_id) >>= λ o. require o not_found >>= λ _. located in
    let h1 = sym (entered actor (transaction body) s role) ∙ h in
    let (r, e) = committed (body s).0 (body s).1 s t snapshot h1 in
    let done : body s ≡ (ok snapshot, t) = cc in
    let (l, s1, p1, q1) =
      >>=-ok (require (find_session session_id s) not_found) (λ _. located) s t snapshot done in
    let same1 : s1 ≡ s = (require-ok (find_session session_id s) not_found s s1 l p1).1 in
    let q2 : located s ≡ (ok snapshot, t) =
      subst (λ (z : State). located z ≡ (ok snapshot, t)) same1 q1 in
    let (old, s2, p2, q3) =
      >>=-ok (require (current_capture session_id s) no_capture) fresh s t snapshot q2 in
    let (current, same2) = require-ok (current_capture session_id s) no_capture s s2 old p2 in
    let q4 : fresh old s ≡ (ok snapshot, t) =
      subst (λ (z : State). fresh old z ≡ (ok snapshot, t)) same2 q3 in
    (
      old,
      current,
      fresh_capture-IsContinued v actor session_id input s t snapshot old new current q4,
    )
