-- ===== src/AudioServer/Completed.antt =====
-- The completion of an audio object by apps/api/src/audio/audio.service.ts.
use text.Mathlib.TextPositions.{eq_refl}
use elder_interview_ai.Prelude.{
  ℕ, ◌≡◌, refl, sym, ap, subst, ◌∙◌, true, not, String, List, [], ◌∷◌, Option, none, some, arith,
  eqb, eqb_iff, length, All, ◌==◌, eq_iff,
}
use elder_interview_ai.Prelude.Rows.{find, update_where}
use elder_interview_ai.Prelude.Action.{
  ok, ◌>>=◌, ◌>>◌, pure, throw, throw_if, catch, throw_if->>=-ok, >>=-ok, catch-ok,
}
use elder_interview_ai.AudioServer.Tables.{
  AudioObject, AudioChunk, SessionFinalization, Response, manifest_response, complete, State,
  Failure, conflict, thrown, Call, Actor, Platform,
}
use elder_interview_ai.AudioServer.Access.{
  transaction, find_object, find_finalization, IdempotencyBinding, find_record, find_replay,
  replay_or, write_idempotency, assert_active_assignment, authorize_complete,
  assert_complete_authority, assert_writable, set_object,
}
use elder_interview_ai.AudioServer.Service.{binding, chunks_of, map_audio_manifest}
use elder_interview_ai.AudioServer.Complete.{
  is_continuous_from, assert_continuous, total_size, is_frozen_as, verify_files, manifest_checksum,
  verify_complete_manifest, check_manifest, completed, admit_completion, checked_chunks,
  store_manifest, complete_fresh, complete_object,
}
use elder_interview_ai.AudioServer.Requests.{entered, new_request, committed}
use elder_interview_ai.AudioServer.Verified.{
  HasFile, Continuous, is_continuous_from-Continuous, AllChecked, verify_files-AllChecked,
}

module _ (p : Platform) (actor : Actor) (object_id : String) (expected : ℕ) where
  authorize_complete-reads :
      (object : AudioObject) (o : Option SessionFinalization) (s t : State) (x : Unit {0})
      → authorize_complete object actor expected o s ≡ (ok x, t)
      → t ≡ s
  unfolding assert_active_assignment
  authorize_complete-reads object none s t x h = ground arith
  authorize_complete-reads object (some f) s t x h = ground arith

  assert_writable-reads :
      (object : AudioObject) (s t : State) (x : Unit {0})
      → assert_writable object s ≡ (ok x, t)
      → t ≡ s
  unfolding assert_writable
  assert_writable-reads object s t x h = ground arith

  admit_completion-ok :
      (s t : State) (object : AudioObject)
      → admit_completion p actor object_id expected s ≡ (ok object, t)
      → (t ≡ s) × (find_object object_id s.database ≡ some object)
  unfolding admit_completion assert_complete_authority assert_active_assignment assert_writable
  admit_completion-ok s t object h = ground arith

  -- The checks that were passed.
  record Passed (chunks : List AudioChunk) (s t : State) : Type 0 where
    same : t ≡ s
    all_of : chunks ≡ chunks_of object_id s.database
    count : length chunks ≡ expected
    continuous : is_continuous_from 0 0 chunks ≡ true
    checked : AllChecked p chunks s s

  check_manifest-ok :
      (chunks : List AudioChunk) (f : Option SessionFinalization) (s t : State) (x : Unit {0})
      → check_manifest p chunks expected f s ≡ (ok x, t)
      → (length chunks ≡ expected)
        × (is_continuous_from 0 0 chunks ≡ true)
        × (t ≡ s)
        × AllChecked p chunks s s
  unfolding check_manifest assert_continuous
  check_manifest-ok chunks f s t x h =
      let (y, u, h1, h2) =
        >>=-ok (assert_continuous chunks expected)
          (λ _.
            throw_if (not (is_frozen_as f expected chunks)) (thrown "Frozen commitment mismatch")
            >> verify_files p "Chunk is not uploaded" "Stored chunk mismatch" chunks)
          s t x h in
      let (frozen, h3) =
        throw_if->>=-ok (not (is_frozen_as f expected chunks)) (thrown "Frozen commitment mismatch")
          (λ _. verify_files p "Chunk is not uploaded" "Stored chunk mismatch" chunks) u t x h2 in
      let k = verify_files-AllChecked p _ _ chunks u t x h3 in
      let e : u ≡ s = ground arith in
      (
        ground arith,
        ground arith,
        k.same ∙ e,
        subst (λ w. AllChecked p chunks w w) e (subst (λ w. AllChecked p chunks u w) k.same k),
      )

  store_manifest-ok :
      (request_id : String) (b : IdempotencyBinding) (object : AudioObject)
      (chunks : List AudioChunk) (s t : State) (r : Response)
      → store_manifest p object_id expected request_id b object chunks s ≡ (ok r, t)
      → (t.files ≡ s.files)
        × (t.database.audio_chunks ≡ s.database.audio_chunks)
        × (t.database.audio_objects
            ≡ update_where
                (λ (o : AudioObject). o.id == object_id)
                (completed p expected chunks)
                s.database.audio_objects)
        × (r ≡ manifest_response (completed p expected chunks object) chunks)
  unfolding store_manifest set_object map_audio_manifest write_idempotency
  store_manifest-ok request_id b object chunks s t r h =
      (ground arith, ground arith, ground arith, ground arith)

  checked_chunks-ok :
      (s t : State) (chunks : List AudioChunk)
      → checked_chunks p object_id expected s ≡ (ok chunks, t)
      → Passed chunks s t
  unfolding checked_chunks
  checked_chunks-ok s t chunks h =
      let cs : List AudioChunk = chunks_of object_id s.database in
      let f : Option SessionFinalization = find_finalization object_id s.database in
      let m : Call (Unit {0}) = check_manifest p cs expected f in
      let incomplete = λ (e : Failure). conflict "AUDIO_MANIFEST_INCOMPLETE" in
      let (x, u, h1, h2) =
        >>=-ok (catch m (λ e. throw (incomplete e))) (λ _. pure cs) s t chunks h in
      let (count, continuous, same, checked) =
        check_manifest-ok cs f s u x (catch-ok m incomplete s u x h1) in
      let e : cs ≡ chunks = cc in
      record {
        same = ground arith;
        all_of = sym e;
        count = subst (λ (l : List AudioChunk). length l ≡ expected) e count;
        continuous = subst (λ l. is_continuous_from 0 0 l ≡ true) e continuous;
        checked = subst (λ l. AllChecked p l s s) e checked;
      }

find-update_where :
    (id : String) (f : AudioObject → AudioObject) (xs : List AudioObject) (x : AudioObject)
    → ((y : AudioObject) → (f y).id ≡ y.id)
    → find (λ (o : AudioObject). o.id == id) xs ≡ some x
    → find (λ (o : AudioObject). o.id == id) (update_where (λ (o : AudioObject). o.id == id) f xs)
      ≡ some (f x)
unfolding find update_where
find-update_where id f [] x k h = cc
find-update_where id f (y ∷ ys) x k h =
    ground (arith, k y, find-update_where id f ys x k, eq_iff y.id id, eq_iff (f y).id id)

-- The object is complete with exactly so many chunks, without a gap from the start; the file of each has the size
-- and the digest of its row; and the check of a complete manifest passes.
pub record IsWhole (p : Platform) (object_id : String) (expected : ℕ) (r : Response) (t : State)
    : Type 0 where
  pub object : AudioObject
  pub chunks : List AudioChunk
  pub answer : r ≡ manifest_response object chunks
  pub found : find_object object_id t.database ≡ some object
  pub all_of : chunks ≡ chunks_of object_id t.database
  pub status : object.status ≡ complete
  pub chunk_count : object.chunk_count ≡ some expected
  pub manifest : object.manifest_checksum ≡ some (manifest_checksum p chunks)
  pub count : length chunks ≡ expected
  pub continuous : Continuous 0 0 chunks
  pub files : All (HasFile p t.files) chunks
  pub verifies : verify_complete_manifest p object chunks t ≡ (ok tt, t)

module _ (p : Platform) (expected : ℕ) (chunks : List AudioChunk) (object : AudioObject) where
  completed-verifies :
      (s t : State)
      → length chunks ≡ expected
      → is_continuous_from 0 0 chunks ≡ true
      → AllChecked p chunks s s
      → t.files ≡ s.files
      → verify_complete_manifest p (completed p expected chunks object) chunks t ≡ (ok tt, t)
  unfolding verify_complete_manifest assert_continuous
  completed-verifies s t count continuous k e =
      let again =
        k.again "Audio chunk is not uploaded" "Stored audio chunk does not match metadata" t e in
      let counted : eqb expected (length chunks) ≡ true = (eqb_iff _ _).1 (sym count) in
      let itself : eqb (length chunks) (length chunks) ≡ true = (eqb_iff _ _).1 refl in
      let sized : eqb (total_size chunks) (total_size chunks) ≡ true = (eqb_iff _ _).1 refl in
      ground (arith, count, continuous, again, eq_refl (manifest_checksum p chunks))

complete_fresh-IsWhole :
    (p : Platform) (actor : Actor) (object_id : String) (expected : ℕ) (request_id : String)
    (b : IdempotencyBinding) (s t : State) (r : Response)
    → complete_fresh p actor object_id expected request_id b s ≡ (ok r, t)
    → IsWhole p object_id expected r t
unfolding complete_fresh find_object chunks_of
complete_fresh-IsWhole p actor object_id expected request_id b s t r h =
    let store = λ (o : AudioObject) (cs : List AudioChunk).
      store_manifest p object_id expected request_id b o cs in
    let (o, u, h1, h2) =
      >>=-ok (admit_completion p actor object_id expected)
        (λ o. checked_chunks p object_id expected >>= λ cs. store o cs) s t r h in
    let (cs, v, h3, h4) =
      >>=-ok (checked_chunks p object_id expected) (λ cs. store o cs) u t r h2 in
    let (same, found) = admit_completion-ok p actor object_id expected s u o h1 in
    let k = checked_chunks-ok p actor object_id expected u v cs h3 in
    let (files, rows, objects, answer) =
      store_manifest-ok p actor object_id expected request_id b o cs v t r h4 in
    let kept : t.files ≡ u.files = files ∙ ap (λ (w : State). w.files) k.same in
    record {
      object = completed p expected cs o;
      chunks = cs;
      answer = answer;
      found =
          ap (find (λ (x : AudioObject). x.id == object_id)) objects
          ∙ find-update_where object_id (completed p expected cs) v.database.audio_objects o
              (λ y. refl)
              (subst (λ w. find_object object_id w.database ≡ some o) (sym (k.same ∙ same)) found);
      all_of =
          k.all_of
          ∙ ap (λ rs. chunks_of object_id (record (u.database) { audio_chunks = rs }))
              (sym (rows ∙ ap (λ (w : State). w.database.audio_chunks) k.same));
      status = refl;
      chunk_count = refl;
      manifest = refl;
      count = k.count;
      continuous = is_continuous_from-Continuous 0 0 cs k.continuous;
      files = subst (λ fs. All (HasFile p fs) cs) (sym kept) k.checked.files;
      verifies = completed-verifies p expected cs o u t k.count k.continuous k.checked kept;
    }

-- A request of an interviewer to complete an audio object, if the request is new and answered, leaves
-- it whole.
pub complete_object-IsWhole :
    (p : Platform) (actor : Actor) (object_id : String) (expected : ℕ) (request_id : String)
    (s t : State) (r : Response)
    → actor.is_interviewer ≡ true
    → find_record request_id s.database ≡ none
    → complete_object p actor object_id expected request_id s ≡ (ok r, t)
    → IsWhole p object_id expected r t
unfolding complete_object
complete_object-IsWhole p actor object_id expected request_id s t r role new h =
    let b : IdempotencyBinding =
      binding "audio_object.complete" actor.id "audio_object" object_id in
    let fresh : Call Response = complete_fresh p actor object_id expected request_id b in
    let again : Call Response = find_replay request_id b >>= λ o. replay_or o fresh in
    let (object, found, h1) =
      entered actor object_id
        (λ _. find_replay request_id b >>= λ o. replay_or o (transaction again)) s t r role h in
    let h2 = sym (new_request request_id b (transaction again) s new) ∙ h1 in
    let h3 = sym (new_request request_id b fresh s new) ∙ committed again s t r h2 in
    complete_fresh-IsWhole p actor object_id expected request_id b s t r h3
