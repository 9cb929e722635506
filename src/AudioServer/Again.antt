-- ===== src/AudioServer/Again.antt =====
-- A request of apps/api/src/audio/audio.service.ts that is sent again, whatever happened since.
use elder_interview_ai.Prelude.{
  ℕ, ◌≡◌, refl, ap, subst, true, not, ◌&&◌, String, List, [], ◌∷◌, ◌++◌, Option, some, arith, ◌==◌,
  length, any,
}
use elder_interview_ai.Prelude.Text.{◌^^◌, decimal}
use elder_interview_ai.Prelude.Action.{ok, ◌>>=◌, pure, throw_if}
use elder_interview_ai.AudioServer.Tables.{
  AudioObject, AudioChunk, Response, object_response, State, conflict, Call, Actor, AudioChunkInput,
  Platform,
}
use elder_interview_ai.AudioServer.Access.{
  transaction, query, write, assert_role, find_object, find_chunk, has_project, is_assigned,
  assert_project_access, find_object_for_write, assert_active_assignment, IdempotencyBinding,
  find_replay, replay_or, write_idempotency, set_object,
}
use elder_interview_ai.AudioServer.Service.{
  binding, CreateAudioObjectRequest, assert_create_gate, map_audio_manifest, object_key_of,
  new_object, create_fresh, create_object, store_row, admit_upload, keep_bytes, answer_upload,
  upload_fresh, upload_chunk,
}
use elder_interview_ai.AudioServer.Complete.{
  completed, admit_completion, checked_chunks, store_manifest, complete_fresh, complete_object,
}
use elder_interview_ai.AudioServer.Preserved.{Preserved, Preserved-trans, Keeps}
use elder_interview_ai.Prelude.{◌∙◌, Bool-cases, inl, inr}
use elder_interview_ai.Prelude.Action.{>>=-ok, throw_if->>=-ok}
use elder_interview_ai.AudioServer.Tables.{ElderProject, ProjectAssignment}
use elder_interview_ai.AudioServer.Requests.{entered}
use elder_interview_ai.AudioServer.Runs.{
  AudioRequest, create, upload, finish, AudioCall, serve, run, run-Preserved,
}
use elder_interview_ai.AudioServer.Preserved.{Keeps, Preserved}
use elder_interview_ai.AudioServer.Immutable.{create_object-Keeps, upload_chunk-Keeps}
use elder_interview_ai.AudioServer.Runs.{complete_object-Keeps}
use elder_interview_ai.AudioServer.Repeated.{
  Answered, written-Answered, replayed-Answered, answered-again, later, transaction-Answered,
}

module _ (p : Platform) where
  create_fresh-Answered :
      (actor : Actor) (project_id : String) (input : CreateAudioObjectRequest)
      (b : IdempotencyBinding) (s t : State) (r : Response)
      → create_fresh p actor project_id input b s ≡ (ok r, t)
      → Answered input.request_id b r t.database
  unfolding create_fresh
  create_fresh-Answered actor project_id input b s t r h =
      let answer : Response = object_response (new_object p actor project_id input) in
      let record_it : Call Response =
        write_idempotency input.request_id b answer >>= λ _. pure answer in
      let add : Call (Unit {0}) = write (λ d. record d {
        audio_objects = d.audio_objects ++ new_object p actor project_id input ∷ [];
      }) in
      let gate : Call (Unit {0}) = assert_create_gate project_id input in
      let (x, u, h1, h2) =
        >>=-ok (assert_active_assignment project_id actor.id)
          (λ _. gate >>= λ _. add >>= λ _. record_it) s t r h in
      let (y, v, h3, h4) = >>=-ok gate (λ _. add >>= λ _. record_it) u t r h2 in
      written-Answered input.request_id b answer r (add v).1 t h4

  upload_fresh-Answered :
      (actor : Actor) (object_id : String) (input : AudioChunkInput) (bytes : List ℕ)
      (b : IdempotencyBinding) (s t : State) (r : Response)
      → upload_fresh p actor object_id input bytes b s ≡ (ok r, t)
      → Answered input.request_id b r t.database
  unfolding upload_fresh answer_upload
  upload_fresh-Answered actor object_id input bytes b s t r h =
      let key : String = object_key_of object_id input.sequence_no in
      let record_it = λ (x : Response). write_idempotency input.request_id b x >>= λ _. pure x in
      let row = λ (o : AudioObject) (x : Option AudioChunk).
        store_row p object_id o input key (length bytes) x in
      let rest = λ (o : AudioObject) (x : Option AudioChunk).
        keep_bytes p input key bytes x >>= λ _. row o x >>= record_it in
      let (o, u, h1, h2) =
        >>=-ok (admit_upload p actor object_id input)
          (λ o. query (find_chunk object_id input.sequence_no) >>= λ x. rest o x) s t r h in
      let existing : Option AudioChunk = find_chunk object_id input.sequence_no u.database in
      let (x, v, h3, h4) =
        >>=-ok (keep_bytes p input key bytes existing) (λ _. row o existing >>= record_it) u t r
          h2 in
      let (answer, w, h5, h6) = >>=-ok (row o existing) record_it v t r h4 in
      written-Answered input.request_id b answer r w t h6

  complete_fresh-Answered :
      (actor : Actor) (object_id : String) (n : ℕ) (request_id : String) (b : IdempotencyBinding)
      (s t : State) (r : Response)
      → complete_fresh p actor object_id n request_id b s ≡ (ok r, t)
      → Answered request_id b r t.database
  unfolding complete_fresh store_manifest
  complete_fresh-Answered actor object_id n request_id b s t r h =
      let record_it = λ (x : Response). write_idempotency request_id b x >>= λ _. pure x in
      let mapped =
        λ (o : AudioObject) (cs : List AudioChunk). map_audio_manifest (completed p n cs o) cs in
      let store = λ (o : AudioObject) (cs : List AudioChunk).
        set_object object_id (completed p n cs) >>= λ _. mapped o cs >>= record_it in
      let (o, u, h1, h2) =
        >>=-ok (admit_completion p actor object_id n)
          (λ o. checked_chunks p object_id n >>= λ cs. store o cs) s t r h in
      let (cs, v, h3, h4) = >>=-ok (checked_chunks p object_id n) (λ cs. store o cs) u t r h2 in
      let (x, w, h5, h6) =
        >>=-ok (set_object object_id (completed p n cs)) (λ _. mapped o cs >>= record_it) v t r
          h4 in
      let (answer, z, h7, h8) = >>=-ok (mapped o cs) record_it w t r h6 in
      written-Answered request_id b answer r z t h8

-- Who sends a request.
abbrev actor_of : AudioRequest → Actor
actor_of (create actor project_id input) = actor
actor_of (upload actor object_id input bytes) = actor
actor_of (finish actor object_id n request_id) = actor

module _ (actor : Actor) where
  -- A project that let the interviewer in lets it in again.
  project_entered :
      (project_id : String) (k : Call Response) (s t : State) (r : Response)
      → actor.is_interviewer ≡ true
      → (assert_project_access actor project_id >>= λ _. k) s ≡ (ok r, t)
      → (has_project project_id s.database ≡ true)
        × (is_assigned project_id actor.id s.database ≡ true)
        × (k s ≡ (ok r, t))
  unfolding assert_project_access assert_role
  project_entered project_id k s t r role h = elim (Bool-cases actor.is_interviewer) [
    | inl e ↦ elim (Bool-cases (has_project project_id s.database)) [
      | inl f ↦ elim (Bool-cases (is_assigned project_id actor.id s.database)) [
        | inl g ↦ (f, g, rw (e, f, g) at h)
        | inr g ↦ absurd (ground (arith, h, e, f, g))
      ]
      | inr f ↦ absurd (ground (arith, h, e, f))
    ]
    | inr e ↦ absurd (ground arith)
  ]

  project_enters :
      (project_id : String) (k : Call Response) (s : State)
      → actor.is_interviewer ≡ true
      → has_project project_id s.database ≡ true
      → is_assigned project_id actor.id s.database ≡ true
      → (assert_project_access actor project_id >>= λ _. k) s ≡ k s
  unfolding assert_project_access assert_role
  project_enters project_id k s role f g = rw (role, f, g) refl

  object_enters :
      (object_id : String) (k : AudioObject → Call Response) (s : State) (o : AudioObject)
      → actor.is_interviewer ≡ true
      → find_object object_id s.database ≡ some o
      → (find_object_for_write actor object_id >>= k) s ≡ k o s
  unfolding find_object_for_write assert_role
  object_enters object_id k s o role f = rw (role, f) refl

-- A call that was answered, and the calls since, have kept what was there.
kept_since :
    (m : Call Response) (cs : List (Platform × AudioCall)) (s t : State) (r : Response)
    → Keeps m
    → m s ≡ (ok r, t)
    → Preserved s (run cs t)
kept_since m cs s t r k h =
    Preserved-trans s t (run cs t) (subst (λ w. Preserved s w) (ap (λ w. w.1) h) (k s))
      (run-Preserved cs t)

module _ (p p' : Platform) (cs : List (Platform × AudioCall)) (s t : State) (r : Response) where
  create_object-again :
      (actor : Actor) (project_id : String) (input : CreateAudioObjectRequest)
      → actor.is_interviewer ≡ true
      → create_object p actor project_id input s ≡ (ok r, t)
      → create_object p' actor project_id input (run cs t) ≡ (ok r, run cs t)
  unfolding create_object has_project is_assigned
  create_object-again actor project_id input role h =
      let b : IdempotencyBinding =
        binding "audio_object.create" actor.id "elder_project" project_id in
      let fresh = λ (z : Platform). create_fresh z actor project_id input b in
      let again = λ (z : Platform). find_replay input.request_id b >>= λ o. replay_or o (fresh z) in
      let call = λ (z : Platform).
        find_replay input.request_id b >>= λ o. replay_or o (transaction (again z)) in
      let (there, assigned, h1) = project_entered actor project_id (call p) s t r role h in
      let k =
        replayed-Answered input.request_id b (transaction (again p)) s t r
          (λ u w.
            transaction-Answered input.request_id b (fresh p) u w r
              (λ x y. create_fresh-Answered p actor project_id input b x y r))
          h1 in
      let kept =
        kept_since (create_object p actor project_id input) cs s t r
          (create_object-Keeps p actor project_id input) h in
      project_enters actor project_id (call p') (run cs t) role
        (ap (λ l. any (λ (x : ElderProject). x.id == project_id && not x.is_deleted) l)
            kept.tables.projects
          ∙ there)
        (ap
            (λ l.
              any
                (λ (x : ProjectAssignment).
                  x.project_id == project_id && x.user_id == actor.id && not x.is_revoked)
                l)
            kept.tables.assignments
          ∙ assigned)
      ∙ answered-again input.request_id b (transaction (again p')) r (run cs t)
          (later input.request_id b r cs t k)

  upload_chunk-again :
      (actor : Actor) (object_id : String) (input : AudioChunkInput) (bytes : List ℕ)
      → actor.is_interviewer ≡ true
      → upload_chunk p actor object_id input bytes s ≡ (ok r, t)
      → upload_chunk p' actor object_id input bytes (run cs t) ≡ (ok r, run cs t)
  unfolding upload_chunk
  upload_chunk-again actor object_id input bytes role h =
      let b : IdempotencyBinding =
        binding ("audio_chunk.upload:" ^^ decimal input.sequence_no) actor.id "audio_object"
          object_id in
      let fresh = λ (z : Platform). upload_fresh z actor object_id input bytes b in
      let again = λ (z : Platform). find_replay input.request_id b >>= λ o. replay_or o (fresh z) in
      let wrong = λ (z : Platform). not (z.sha256 bytes == input.checksum) in
      let checked = λ (z : Platform).
        throw_if (wrong z) (conflict "AUDIO_CHECKSUM_MISMATCH") >>= λ _. transaction (again z) in
      let call =
        λ (z : Platform). find_replay input.request_id b >>= λ o. replay_or o (checked z) in
      let (o, found, h1) = entered actor object_id (λ _. call p) s t r role h in
      let k =
        replayed-Answered input.request_id b (checked p) s t r
          (λ u w g.
            transaction-Answered input.request_id b (fresh p) u w r
              (λ x y. upload_fresh-Answered p actor object_id input bytes b x y r)
              (throw_if->>=-ok (wrong p) (conflict "AUDIO_CHECKSUM_MISMATCH")
                (λ _. transaction (again p)) u w r g).1)
          h1 in
      let kept =
        kept_since (upload_chunk p actor object_id input bytes) cs s t r
          (upload_chunk-Keeps p actor object_id input bytes) h in
      let (o', found') = kept.tables.objects object_id o found in
      object_enters actor object_id (λ _. call p') (run cs t) o' role found'
      ∙ answered-again input.request_id b (checked p') r (run cs t)
          (later input.request_id b r cs t k)

  complete_object-again :
      (actor : Actor) (object_id : String) (n : ℕ) (request_id : String)
      → actor.is_interviewer ≡ true
      → complete_object p actor object_id n request_id s ≡ (ok r, t)
      → complete_object p' actor object_id n request_id (run cs t) ≡ (ok r, run cs t)
  unfolding complete_object
  complete_object-again actor object_id n request_id role h =
      let b : IdempotencyBinding =
        binding "audio_object.complete" actor.id "audio_object" object_id in
      let fresh = λ (z : Platform). complete_fresh z actor object_id n request_id b in
      let again = λ (z : Platform). find_replay request_id b >>= λ o. replay_or o (fresh z) in
      let call =
        λ (z : Platform). find_replay request_id b >>= λ o. replay_or o (transaction (again z)) in
      let (o, found, h1) = entered actor object_id (λ _. call p) s t r role h in
      let k =
        replayed-Answered request_id b (transaction (again p)) s t r
          (λ u w.
            transaction-Answered request_id b (fresh p) u w r
              (λ x y. complete_fresh-Answered p actor object_id n request_id b x y r))
          h1 in
      let kept =
        kept_since (complete_object p actor object_id n request_id) cs s t r
          (complete_object-Keeps p actor object_id n request_id) h in
      let (o', found') = kept.tables.objects object_id o found in
      object_enters actor object_id (λ _. call p') (run cs t) o' role found'
      ∙ answered-again request_id b (transaction (again p')) r (run cs t)
          (later request_id b r cs t k)

-- A request of an interviewer that is answered gets the same answer when it is sent again, whatever
-- calls came between and however the files behave then, and changes nothing; for the creation of an
-- object, an upload and a completion alike.
pub serve-again :
    (p p' : Platform) (q : AudioRequest) (cs : List (Platform × AudioCall)) (s t : State)
    (r : Response)
    → (actor_of q).is_interviewer ≡ true
    → serve p q s ≡ (ok r, t)
    → serve p' q (run cs t) ≡ (ok r, run cs t)
serve-again p p' (create actor project_id input) cs s t r role h =
    create_object-again p p' cs s t r actor project_id input role h
serve-again p p' (upload actor object_id input bytes) cs s t r role h =
    upload_chunk-again p p' cs s t r actor object_id input bytes role h
serve-again p p' (finish actor object_id n request_id) cs s t r role h =
    complete_object-again p p' cs s t r actor object_id n request_id role h
