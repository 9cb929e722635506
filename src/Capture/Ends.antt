-- ===== src/Capture/Ends.antt =====
-- How a call of apps/api/src/project-foundation/session-capture.service.ts that is no replay ends, if
-- it is answered: by its audit, the snapshot and the record of the request.
use elder_interview_ai.Prelude.{
  ◌≡◌, sym, ap, ◌∙◌, arith, eq_iff, Bool, true, not, ◌||◌, String, some, is_some, ◌==◌,
}
use elder_interview_ai.Prelude.Map.{Map, get}
use elder_interview_ai.Prelude.Action.{
  Result, ok, ◌>>=◌, throw_if, >>=-ok, throw_if->>=-ok, require->>=-ok, read->>=-ok,
}
use elder_interview_ai.Capture.Tables.{
  InterviewSession, InterviewSessionStatus, SessionCaptureGeneration, CaptureGenerationStatus,
  CaptureInterruptionReason, reconnecting, abandoned_empty, no_audio_captured, Json, Snapshot,
  State, Failure, conflict, forbidden, no_row,
}
use elder_interview_ai.Capture.Common.{
  Call, Actor, Services, find_session, find_finalization, uploaded_chunks, assert_current_gate,
  assert_original_actor, metadata_matches, conclude, set_session_status, set_capture,
}
use elder_interview_ai.Capture.Service.{
  confirm_action, confirm_metadata, other_generation, interrupted_action, interrupted_metadata,
  reason_text, is_ended, session_interrupted, capture_interrupted, abandon_action, resume_action,
  ConfirmCaptureActiveRequest, ReportCaptureInterruptedRequest, AbandonEmptyCaptureRequest,
  ResumeCaptureRequest, confirm_fresh, confirm_capture, interrupt_fresh, interrupt_unless,
}
use elder_interview_ai.Capture.Abandon.{
  abandon_fresh, abandon_metadata, evidence_exists, fail_audio_object,
}
use elder_interview_ai.Capture.Resume.{
  next_generation, resume_expected, resume_metadata, archive_conflicts, resume_fresh,
  resume_session, resume_archive, open_generation, create_generation,
}

-- The call ends with the writes of `conclude`, from a state with the audits that it began with, and
-- its audit has what a replay is compared with.
pub record HasEnd (action request_id : String) (actor : Actor) (session_id : String)
    (expected : Map Json) (s t : State) (x : Snapshot) : Type 0 where
  pub before : State
  pub metadata : Map Json
  pub audits : before.audit_logs ≡ s.audit_logs
  pub concludes : conclude action request_id actor session_id metadata before ≡ (ok x, t)
  pub matches : metadata_matches metadata expected ≡ true

gate-reads :
    (v : Services) (actor : Actor) (session : InterviewSession) (s : State)
    → (assert_current_gate v actor session s).1 ≡ s
unfolding assert_current_gate
gate-reads v actor session s = ground arith

module _ (v : Services) (actor : Actor) (session_id : String) where
  confirm_capture-audits :
      (capture : SessionCaptureGeneration) (session : InterviewSession)
      (status : CaptureGenerationStatus) (s : State)
      → (confirm_capture v capture session session_id status s).1.audit_logs ≡ s.audit_logs
  unfolding set_capture set_session_status
  confirm_capture-audits capture session status s = ground arith

  confirm_matches :
      (input : ConfirmCaptureActiveRequest)
      → metadata_matches (confirm_metadata input) (confirm_metadata input) ≡ true
  unfolding metadata_matches get
  confirm_matches input = ground (arith, eq_iff input.audio_stream_id input.audio_stream_id)

  pub confirm_fresh-HasEnd :
      (input : ConfirmCaptureActiveRequest) (capture : SessionCaptureGeneration)
      (session : InterviewSession) (s t : State) (x : Snapshot)
      → confirm_fresh v actor session_id input capture session s ≡ (ok x, t)
      → HasEnd confirm_action input.request_id actor session_id (confirm_metadata input) s t x
  unfolding confirm_fresh
  confirm_fresh-HasEnd input capture session s t x h =
      let end : Unit {0} → Call Snapshot =
        λ _. conclude confirm_action input.request_id actor session_id (confirm_metadata input) in
      let change : Call (Unit {0}) = confirm_capture v capture session session_id capture.status in
      let is_other : Bool = other_generation capture input.generation_no input.audio_stream_id in
      let e = conflict "CAPTURE_GENERATION_CONFLICT" in
      let (_, _, h1) =
        read->>=-ok (assert_current_gate v actor session)
          (λ _. throw_if is_other e >>= λ _. change >>= end) s t x (gate-reads v actor session s)
          h in
      let (_, h2) = throw_if->>=-ok is_other e (λ _. change >>= end) s t x h1 in
      let (_, u, p, h3) = >>=-ok change end s t x h2 in
      record {
        before = u;
        metadata = confirm_metadata input;
        audits =
            sym (ap (λ (r : Result Failure (Unit {0}) × State). r.1.audit_logs) p)
            ∙ confirm_capture-audits capture session capture.status s;
        concludes = h3;
        matches = confirm_matches input;
      }

  interrupt_unless-audits :
      (b : Bool) (reason : CaptureInterruptionReason) (capture : SessionCaptureGeneration)
      (s : State)
      → (interrupt_unless b v reason capture session_id s).1.audit_logs ≡ s.audit_logs
  unfolding set_capture set_session_status
  interrupt_unless-audits b reason capture s = ground arith

  interrupted_matches :
      (input : ReportCaptureInterruptedRequest)
      → metadata_matches (interrupted_metadata input) (interrupted_metadata input) ≡ true
  unfolding metadata_matches get
  interrupted_matches input = ground (
    arith,
    eq_iff input.audio_stream_id input.audio_stream_id,
    eq_iff (reason_text input.reason) (reason_text input.reason),
  )

  pub interrupt_fresh-HasEnd :
      (input : ReportCaptureInterruptedRequest) (capture : SessionCaptureGeneration)
      (session : InterviewSession) (s t : State) (x : Snapshot)
      → interrupt_fresh v actor session_id input capture session s ≡ (ok x, t)
      → HasEnd interrupted_action input.request_id actor session_id
          (interrupted_metadata input)
          s
          t
          x
  unfolding interrupt_fresh assert_original_actor
  interrupt_fresh-HasEnd input capture session s t x h =
      let end : Unit {0} → Call Snapshot = λ _.
        conclude interrupted_action input.request_id actor session_id
          (interrupted_metadata input) in
      let is_over : State → Bool =
        λ u. is_some (find_finalization session_id u) || is_ended session.status in
      let work : Unit {0} → Call Snapshot =
        λ _ u. (interrupt_unless (is_over u) v input.reason capture session_id >>= end) u in
      let is_other : Bool = other_generation capture input.generation_no input.audio_stream_id in
      let e = conflict "CAPTURE_GENERATION_CONFLICT" in
      let (_, h1) =
        throw_if->>=-ok (not actor.is_active || not (actor.id == session.created_by)) forbidden
          (λ _. throw_if is_other e >>= work) s t x h in
      let (_, h2) = throw_if->>=-ok is_other e work s t x h1 in
      let (_, u, p, h3) =
        >>=-ok (interrupt_unless (is_over s) v input.reason capture session_id) end s t x h2 in
      record {
        before = u;
        metadata = interrupted_metadata input;
        audits =
            sym (ap (λ (r : Result Failure (Unit {0}) × State). r.1.audit_logs) p)
            ∙ interrupt_unless-audits (is_over s) input.reason capture s;
        concludes = h3;
        matches = interrupted_matches input;
      }

  fail_audio_object-audits :
      (id : String) (s : State) → (fail_audio_object id s).1.audit_logs ≡ s.audit_logs
  unfolding fail_audio_object
  fail_audio_object-audits id s = ground arith

  set_session_status-audits :
      (f : InterviewSession → InterviewSession) (s : State)
      → (set_session_status session_id f s).1.audit_logs ≡ s.audit_logs
  unfolding set_session_status
  set_session_status-audits f s = ground arith

  create_generation-audits :
      (next : SessionCaptureGeneration) (s : State)
      → (create_generation next s).1.audit_logs ≡ s.audit_logs
  unfolding create_generation
  create_generation-audits next s = ground arith

  abandon_matches :
      (input : AbandonEmptyCaptureRequest)
      → metadata_matches (abandon_metadata input) (abandon_metadata input) ≡ true
  unfolding metadata_matches get
  abandon_matches input = ground (arith, eq_iff input.audio_stream_id input.audio_stream_id)

  pub abandon_fresh-HasEnd :
      (input : AbandonEmptyCaptureRequest) (capture : SessionCaptureGeneration)
      (session : InterviewSession) (s t : State) (x : Snapshot)
      → abandon_fresh v actor session_id input capture session s ≡ (ok x, t)
      → HasEnd abandon_action input.request_id actor session_id (abandon_metadata input) s t x
  unfolding abandon_fresh set_capture
  abandon_fresh-HasEnd input capture session s t x h =
      let end : Unit {0} → Call Snapshot =
        λ _. conclude abandon_action input.request_id actor session_id (abandon_metadata input) in
      let fail_session : InterviewSession → InterviewSession = λ z. record z {
        capture_failure_code = some no_audio_captured;
        status = InterviewSessionStatus.failed;
      } in
      let stop_capture : Call (Unit {0}) =
        set_capture capture.id
          (λ c. record c { status = abandoned_empty; stopped_at = some v.now }) in
      let last : Unit {0} → Call Snapshot =
        λ _. set_session_status session_id fail_session >>= end in
      let rest : Unit {0} → Call Snapshot =
        λ _. fail_audio_object capture.audio_object_id >>= last in
      let work : Unit {0} → Call Snapshot = λ _. stop_capture >>= rest in
      let is_wrong : Bool =
        not (session_interrupted session.status)
        || not (capture_interrupted capture.status)
        || other_generation capture input.generation_no input.audio_stream_id in
      let e = conflict "CAPTURE_NOT_ABANDONABLE" in
      let after : Unit {0} → Call Snapshot = λ _ u.
        (throw_if (evidence_exists session_id capture u) (conflict "CAPTURE_EVIDENCE_EXISTS")
            >>= work)
          u in
      let (_, _, h1) =
        read->>=-ok (assert_current_gate v actor session) (λ _. throw_if is_wrong e >>= after) s t x
          (gate-reads v actor session s) h in
      let (_, h2) = throw_if->>=-ok is_wrong e after s t x h1 in
      let (_, h3) =
        throw_if->>=-ok (evidence_exists session_id capture s) (conflict "CAPTURE_EVIDENCE_EXISTS")
          work s t x h2 in
      let stopped : State = (stop_capture s).1 in
      let (_, u, p, h4) = >>=-ok (fail_audio_object capture.audio_object_id) last stopped t x h3 in
      let (_, w, q, h5) = >>=-ok (set_session_status session_id fail_session) end u t x h4 in
      record {
        before = w;
        metadata = abandon_metadata input;
        audits =
            sym (ap (λ (r : Result Failure (Unit {0}) × State). r.1.audit_logs) q)
            ∙ (set_session_status-audits fail_session u
                ∙ (sym (ap (λ (r : Result Failure (Unit {0}) × State). r.1.audit_logs) p)
                    ∙ fail_audio_object-audits capture.audio_object_id stopped));
        concludes = h5;
        matches = abandon_matches input;
      }

  resume_matches :
      (input : ResumeCaptureRequest) (next : SessionCaptureGeneration)
      → metadata_matches (resume_metadata input next) (resume_expected input) ≡ true
  unfolding metadata_matches get
  resume_matches input next = ground (arith, eq_iff input.audio_stream_id input.audio_stream_id)

  open_generation-HasEnd :
      (input : ResumeCaptureRequest) (capture : SessionCaptureGeneration) (s t : State)
      (x : Snapshot)
      → open_generation v actor session_id input capture s ≡ (ok x, t)
      → HasEnd resume_action input.request_id actor session_id (resume_expected input) s t x
  unfolding open_generation
  open_generation-HasEnd input capture s t x h =
      let next = next_generation v session_id input capture in
      let end : Unit {0} → Call Snapshot = λ _.
        conclude resume_action input.request_id actor session_id (resume_metadata input next) in
      let reopen : InterviewSession → InterviewSession = λ z. record z { status = reconnecting } in
      let last : Unit {0} → Call Snapshot = λ _. set_session_status session_id reopen >>= end in
      let (_, u, p, h1) = >>=-ok (create_generation next) last s t x h in
      let (_, w, q, h2) = >>=-ok (set_session_status session_id reopen) end u t x h1 in
      record {
        before = w;
        metadata = resume_metadata input next;
        audits =
            sym (ap (λ (r : Result Failure (Unit {0}) × State). r.1.audit_logs) q)
            ∙ (set_session_status-audits reopen u
                ∙ (sym (ap (λ (r : Result Failure (Unit {0}) × State). r.1.audit_logs) p)
                    ∙ create_generation-audits next s));
        concludes = h2;
        matches = resume_matches input next;
      }

  pub resume_fresh-HasEnd :
      (input : ResumeCaptureRequest) (capture : SessionCaptureGeneration) (s t : State)
      (x : Snapshot)
      → resume_fresh v actor session_id input capture s ≡ (ok x, t)
      → HasEnd resume_action input.request_id actor session_id (resume_expected input) s t x
  unfolding resume_fresh resume_session resume_archive
  resume_fresh-HasEnd input capture s t x h =
      let writes : Unit {0} → Call Snapshot =
        λ _. open_generation v actor session_id input capture in
      let archived : Unit {0} → Call Snapshot = λ _ u.
        (throw_if (archive_conflicts input capture (uploaded_chunks capture.audio_object_id u))
              (conflict "CAPTURE_ARCHIVE_CONFLICT")
            >>= writes)
          u in
      let (session, _, h1) =
        require->>=-ok (find_session session_id s) no_row
          (λ z. resume_session v actor session_id input capture z) s t x h in
      let (_, h2) =
        throw_if->>=-ok
          (is_some (find_finalization session_id s)
            || not (session_interrupted session.status)
            || not (capture_interrupted capture.status))
          (conflict "SESSION_NOT_RECOVERABLE")
          (λ _. assert_current_gate v actor session >>= archived) s t x h1 in
      let (_, _, h3) =
        read->>=-ok (assert_current_gate v actor session) archived s t x
          (gate-reads v actor session s) h2 in
      let (_, h4) =
        throw_if->>=-ok
          (archive_conflicts input capture (uploaded_chunks capture.audio_object_id s))
          (conflict "CAPTURE_ARCHIVE_CONFLICT") writes s t x h3 in
      open_generation-HasEnd input capture s t x h4
