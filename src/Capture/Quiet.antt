-- ===== src/Capture/Quiet.antt =====
-- The transactions of apps/api/src/project-foundation/session-capture.service.ts, call by call: what
-- none of them does (Interrupts).
use elder_interview_ai.Prelude.{
  refl, Bool, not, ◌||◌, String, some, is_some, any, true, false, ◌&&◌, eqb, [], ◌∷◌, ◌++◌, ◌==◌,
}
use elder_interview_ai.Prelude.Action.{◌>>=◌, pure, throw_if, require, gets, modify}
use elder_interview_ai.Prelude.Keeping
use elder_interview_ai.Capture.Tables.{
  InterviewSession, SessionCaptureGeneration, CaptureGenerationStatus, reconnecting,
  abandoned_empty, preparing, active, stopped, repeated, AudioObject, AudioObjectStatus,
  update_where, no_audio_captured, InterviewSessionStatus, forbidden, CaptureInterruptionReason,
  Snapshot, State, conflict, not_found, no_row,
}
use elder_interview_ai.Capture.Common.{
  Call, Actor, Services, find_session, find_finalization, uploaded_chunks, current_capture,
  assert_current_gate, assert_original_actor, replay, replay_or, conclude, set_session_status,
  set_capture,
}
use elder_interview_ai.Capture.Service.{
  confirm_action, confirm_metadata, other_generation, interrupted_action, interrupted_metadata,
  interrupt_now, interrupt_capture, capturing, is_reconnecting, set_recording_if, is_ended,
  session_interrupted, capture_interrupted, abandon_action, resume_action,
  ConfirmCaptureActiveRequest, ReportCaptureInterruptedRequest, AbandonEmptyCaptureRequest,
  ResumeCaptureRequest, confirm_fresh, confirm_capture, interrupt_fresh, interrupt_unless,
}
use elder_interview_ai.Capture.Extends.{other_tables-Extends, new_capture-Extends}
use elder_interview_ai.Capture.Abandon.{
  abandon_fresh, abandon_metadata, evidence_exists, fail_audio_object,
}
use elder_interview_ai.Capture.Resume.{
  next_generation, resume_expected, resume_metadata, archive_conflicts, resume_fresh,
  resume_session, resume_archive, open_generation, create_generation,
}
use elder_interview_ai.Capture.Interrupts.{
  Told, IsQuiet, Told-refl, Told-trans, >>=-IsQuiet, guard-IsQuiet, assert_current_gate-IsQuiet,
  set_session_status-IsQuiet, set_capture-IsQuiet, conclude-IsQuiet, body-IsQuiet,
}

module _ (v : Services) (actor : Actor) (session_id : String) where
  set_recording_if-IsQuiet : (b : Bool) → IsQuiet (set_recording_if b session_id)
  set_recording_if-IsQuiet true = set_session_status-IsQuiet session_id _ (λ x. refl)
  set_recording_if-IsQuiet false = Told-refl

  confirm_capture-IsQuiet :
      (capture : SessionCaptureGeneration) (session : InterviewSession)
      (status : CaptureGenerationStatus)
      → IsQuiet (confirm_capture v capture session session_id status)
  confirm_capture-IsQuiet capture session preparing =
      let confirm : Call (Unit {0}) =
        set_capture capture.id
          (λ c. record c { confirmed_active_at = some v.now; status = active }) in
      let rest : Unit {0} → Call (Unit {0}) =
        λ _. set_recording_if (is_reconnecting session.status) session_id in
      guard-IsQuiet (not (capturing session.status)) (conflict "CAPTURE_NOT_CONFIRMABLE")
        (λ _. confirm >>= rest)
        (>>=-IsQuiet confirm rest (set_capture-IsQuiet capture.id _ (λ c. refl))
          (λ _. set_recording_if-IsQuiet (is_reconnecting session.status)))
  confirm_capture-IsQuiet capture session active = Told-refl
  confirm_capture-IsQuiet capture session CaptureGenerationStatus.interrupted = Told-refl
  confirm_capture-IsQuiet capture session stopped = Told-refl
  confirm_capture-IsQuiet capture session abandoned_empty = Told-refl

  interrupt_now-IsQuiet :
      (reason : CaptureInterruptionReason) (capture : SessionCaptureGeneration)
      → IsQuiet (interrupt_now v reason capture session_id)
  interrupt_now-IsQuiet reason capture =
      >>=-IsQuiet
        (set_capture capture.id (λ c. record c {
          interrupted_at = some v.now;
          interruption_reason = some reason;
          status = CaptureGenerationStatus.interrupted;
        }))
        (λ _.
          set_session_status session_id
            (λ x. record x { status = InterviewSessionStatus.interrupted }))
        (set_capture-IsQuiet capture.id _ (λ c. refl))
        (λ _. set_session_status-IsQuiet session_id _ (λ x. refl))

  interrupt_capture-IsQuiet :
      (reason : CaptureInterruptionReason) (capture : SessionCaptureGeneration)
      (status : CaptureGenerationStatus)
      → IsQuiet (interrupt_capture v reason capture session_id status)
  interrupt_capture-IsQuiet reason capture preparing = interrupt_now-IsQuiet reason capture
  interrupt_capture-IsQuiet reason capture active = interrupt_now-IsQuiet reason capture
  interrupt_capture-IsQuiet reason capture CaptureGenerationStatus.interrupted = Told-refl
  interrupt_capture-IsQuiet reason capture stopped = Told-refl
  interrupt_capture-IsQuiet reason capture abandoned_empty = Told-refl

  interrupt_unless-IsQuiet :
      (b : Bool) (reason : CaptureInterruptionReason) (capture : SessionCaptureGeneration)
      → IsQuiet (interrupt_unless b v reason capture session_id)
  interrupt_unless-IsQuiet true reason capture = Told-refl
  interrupt_unless-IsQuiet false reason capture =
      interrupt_capture-IsQuiet reason capture capture.status

  pub confirm_fresh-IsQuiet :
      (input : ConfirmCaptureActiveRequest) (capture : SessionCaptureGeneration)
      (session : InterviewSession)
      → IsQuiet (confirm_fresh v actor session_id input capture session)
  unfolding confirm_fresh
  confirm_fresh-IsQuiet input capture session =
      let end : Unit {0} → Call Snapshot =
        λ _. conclude confirm_action input.request_id actor session_id (confirm_metadata input) in
      let work : Unit {0} → Call Snapshot =
        λ _. confirm_capture v capture session session_id capture.status >>= end in
      >>=-IsQuiet (assert_current_gate v actor session) _
        (assert_current_gate-IsQuiet v actor session)
        (λ _.
          guard-IsQuiet (other_generation capture input.generation_no input.audio_stream_id)
            (conflict "CAPTURE_GENERATION_CONFLICT") work
            (>>=-IsQuiet (confirm_capture v capture session session_id capture.status) end
              (confirm_capture-IsQuiet capture session capture.status)
              (λ _. conclude-IsQuiet _ _ actor session_id _)))

  pub interrupt_fresh-IsQuiet :
      (input : ReportCaptureInterruptedRequest) (capture : SessionCaptureGeneration)
      (session : InterviewSession)
      → IsQuiet (interrupt_fresh v actor session_id input capture session)
  unfolding interrupt_fresh assert_original_actor
  interrupt_fresh-IsQuiet input capture session =
      let end : Unit {0} → Call Snapshot = λ _.
        conclude interrupted_action input.request_id actor session_id
          (interrupted_metadata input) in
      let is_over : State → Bool =
        λ s. is_some (find_finalization session_id s) || is_ended session.status in
      let work : Unit {0} → Call Snapshot =
        λ _ s. (interrupt_unless (is_over s) v input.reason capture session_id >>= end) s in
      guard-IsQuiet (not actor.is_active || not (actor.id == session.created_by)) forbidden
        (λ _.
          throw_if (other_generation capture input.generation_no input.audio_stream_id)
            (conflict "CAPTURE_GENERATION_CONFLICT")
          >>= work)
        (guard-IsQuiet (other_generation capture input.generation_no input.audio_stream_id)
          (conflict "CAPTURE_GENERATION_CONFLICT") work
          (λ s.
            >>=-IsQuiet (interrupt_unless (is_over s) v input.reason capture session_id) end
              (interrupt_unless-IsQuiet (is_over s) input.reason capture)
              (λ _. conclude-IsQuiet _ _ actor session_id _) s))

  fail_audio_object-IsQuiet : (id : String) → IsQuiet (fail_audio_object id)
  unfolding fail_audio_object
  fail_audio_object-IsQuiet id s =
      guard-IsQuiet (not (any (λ (o : AudioObject). o.id == id) s.audio_objects)) no_row
        (λ _. modify (λ u. record u {
          audio_objects =
              update_where (λ (o : AudioObject). o.id == id)
                (λ (o : AudioObject). record o { status = AudioObjectStatus.failed })
                u.audio_objects;
        }))
        (λ u. (refl, other_tables-Extends u _ refl refl refl refl)) s

  pub abandon_fresh-IsQuiet :
      (input : AbandonEmptyCaptureRequest) (capture : SessionCaptureGeneration)
      (session : InterviewSession)
      → IsQuiet (abandon_fresh v actor session_id input capture session)
  unfolding abandon_fresh
  abandon_fresh-IsQuiet input capture session =
      let end : Unit {0} → Call Snapshot =
        λ _. conclude abandon_action input.request_id actor session_id (abandon_metadata input) in
      let fail_session : Call (Unit {0}) = set_session_status session_id (λ x. record x {
        capture_failure_code = some no_audio_captured;
        status = InterviewSessionStatus.failed;
      }) in
      let stop_capture : Call (Unit {0}) =
        set_capture capture.id
          (λ c. record c { status = abandoned_empty; stopped_at = some v.now }) in
      let rest : Unit {0} → Call Snapshot =
        λ _. fail_audio_object capture.audio_object_id >>= λ _. fail_session >>= end in
      let work : Unit {0} → Call Snapshot = λ _. stop_capture >>= rest in
      >>=-IsQuiet (assert_current_gate v actor session) _
        (assert_current_gate-IsQuiet v actor session)
        (λ _.
          guard-IsQuiet
            (not (session_interrupted session.status)
              || not (capture_interrupted capture.status)
              || other_generation capture input.generation_no input.audio_stream_id)
            (conflict "CAPTURE_NOT_ABANDONABLE")
            (λ _ s.
              (throw_if (evidence_exists session_id capture s) (conflict "CAPTURE_EVIDENCE_EXISTS")
                  >>= work)
                s)
            (λ s.
              guard-IsQuiet (evidence_exists session_id capture s)
                (conflict "CAPTURE_EVIDENCE_EXISTS") work
                (>>=-IsQuiet stop_capture rest (set_capture-IsQuiet capture.id _ (λ c. refl)) (λ _.
                  >>=-IsQuiet (fail_audio_object capture.audio_object_id)
                    (λ _. fail_session >>= end) (fail_audio_object-IsQuiet capture.audio_object_id)
                    (λ _.
                      >>=-IsQuiet fail_session end
                        (set_session_status-IsQuiet session_id _ (λ x. refl))
                        (λ _. conclude-IsQuiet _ _ actor session_id _))))
                s))

  create_generation-IsQuiet : (next : SessionCaptureGeneration) → IsQuiet (create_generation next)
  unfolding create_generation
  create_generation-IsQuiet next s =
      guard-IsQuiet
        (any
          (λ (c : SessionCaptureGeneration).
            c.audio_stream_id == next.audio_stream_id
            || (c.session_id == next.session_id && eqb c.generation_no next.generation_no))
          s.captures)
        repeated (λ _. modify (λ u. record u { captures = u.captures ++ next ∷ [] }))
        (λ u. (refl, new_capture-Extends next u)) s

  open_generation-IsQuiet :
      (input : ResumeCaptureRequest) (capture : SessionCaptureGeneration)
      → IsQuiet (open_generation v actor session_id input capture)
  unfolding open_generation
  open_generation-IsQuiet input capture =
      let next = next_generation v session_id input capture in
      let end : Unit {0} → Call Snapshot = λ _.
        conclude resume_action input.request_id actor session_id (resume_metadata input next) in
      let reopen : Call (Unit {0}) =
        set_session_status session_id (λ x. record x { status = reconnecting }) in
      >>=-IsQuiet (create_generation next) (λ _. reopen >>= end) (create_generation-IsQuiet next)
        (λ _.
          >>=-IsQuiet reopen end (set_session_status-IsQuiet session_id _ (λ x. refl))
            (λ _. conclude-IsQuiet _ _ actor session_id _))

  resume_fresh-IsQuiet :
      (input : ResumeCaptureRequest) (capture : SessionCaptureGeneration)
      → IsQuiet (resume_fresh v actor session_id input capture)
  unfolding resume_fresh resume_session resume_archive
  resume_fresh-IsQuiet input capture s =
      let writes : Unit {0} → Call Snapshot =
        λ _. open_generation v actor session_id input capture in
      let archived : Unit {0} → Call Snapshot = λ _ u.
        (throw_if (archive_conflicts input capture (uploaded_chunks capture.audio_object_id u))
              (conflict "CAPTURE_ARCHIVE_CONFLICT")
            >>= writes)
          u in
      Keeping.Keeps-required Told Told-refl Told-trans (find_session session_id s) no_row _ s
        (λ session e.
          guard-IsQuiet
            (is_some (find_finalization session_id s)
              || not (session_interrupted session.status)
              || not (capture_interrupted capture.status))
            (conflict "SESSION_NOT_RECOVERABLE")
            (λ _. assert_current_gate v actor session >>= archived)
            (>>=-IsQuiet (assert_current_gate v actor session) archived
              (assert_current_gate-IsQuiet v actor session)
              (λ _ u.
                guard-IsQuiet
                  (archive_conflicts input capture (uploaded_chunks capture.audio_object_id u))
                  (conflict "CAPTURE_ARCHIVE_CONFLICT") writes
                  (open_generation-IsQuiet input capture) u))
            s)

  pub resume_body-IsQuiet :
      (input : ResumeCaptureRequest)
      → IsQuiet (do
        found ← gets (find_session session_id)
        location ← require found not_found
        newest ← gets (current_capture session_id)
        capture ← require newest (conflict "SESSION_NOT_RECOVERABLE")
        earlier ← replay input.request_id resume_action actor session_id
        replay_or (resume_expected input) earlier (resume_fresh v actor session_id input capture))
  resume_body-IsQuiet input s =
      let go : SessionCaptureGeneration → Call Snapshot = λ capture.
        replay input.request_id resume_action actor session_id >>= λ earlier.
        replay_or (resume_expected input) earlier (resume_fresh v actor session_id input capture) in
      Keeping.Keeps-required Told Told-refl Told-trans (find_session session_id s) not_found
        (λ _ u.
          (require (current_capture session_id u) (conflict "SESSION_NOT_RECOVERABLE") >>= go) u)
        s
        (λ _ e.
          Keeping.Keeps-required Told Told-refl Told-trans (current_capture session_id s)
            (conflict "SESSION_NOT_RECOVERABLE") go s
            (λ capture e'.
              body-IsQuiet (pure tt) input.request_id resume_action actor session_id
                (resume_expected input) (λ _. resume_fresh v actor session_id input capture)
                Told-refl (λ _. resume_fresh-IsQuiet input capture) s))
