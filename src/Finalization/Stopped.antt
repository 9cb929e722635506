-- ===== src/Finalization/Stopped.antt =====
-- What a stop of a session has fixed once `freeze` of
-- apps/api/src/project-foundation/session-finalization.service.ts has answered.
use text.Mathlib.TextPositions.{eq_refl}
use elder_interview_ai.Prelude.{
  ◌≡◌, refl, sym, ap, subst, ◌∙◌, Bool-cases, inl, inr, arith, eq_iff, ℕ, suc, ◌<◌, All, get_elem?,
  length, Option, ◌+◌, ◌/◌, Bool, true, false, not, String, List, [], ◌∷◌, ◌++◌, none, some,
  if◌then◌else◌, keep, ◌==◌,
}
use elder_interview_ai.Prelude.Rows.{find, find-holds, find-append-new}
use elder_interview_ai.Prelude.Action.{
  Result, err, ok, >>=-ok, throw_if->>=-ok, require->>=-ok, ◌>>=◌, pure, throw_if, require, modify,
}
use elder_interview_ai.AudioServer.Tables.{AudioChunk, Commitment}
use elder_interview_ai.Finalization.Tables.{
  Failure, not_found, forbidden, InterviewSession, SessionFinalization, State, conflict, forbidden,
  not_found, Call, Actor, StopSessionRequest, Services,
}
use elder_interview_ai.Finalization.Access.{
  undo, are_commitments, transaction, assert_role, find_session, find_finalization, find_object,
  read_snapshot, validate_commitments, find_record, write_stop_idempotency, current_gate,
}
use elder_interview_ai.Finalization.Freeze.{
  Outcome, denied, conclude, is_object_of, agrees, all_agree, last, new_finalization,
  create_finalization, stop_rows, freeze_object, is_legal, freeze_fresh, freeze_replay,
  freeze_session, is_denied, freeze,
}

-- Commitments that are numbered from `i` on, begin at `at` and follow one another without a gap, each
-- of some length in time and in bytes.
abbrev pub IsTimed : (i at : ℕ) → List Commitment → Type 0
IsTimed i at [] = Unit
IsTimed i at (k ∷ ks) =
    (k.sequence_no ≡ i)
    × (k.start_ms ≡ at)
    × (k.start_ms < k.end_ms)
    × (0 < k.size_bytes)
    × IsTimed (suc i) k.end_ms ks

are_commitments-IsTimed :
    (i at : ℕ) (ks : List Commitment) → are_commitments i at ks ≡ true → IsTimed i at ks
unfolding are_commitments
are_commitments-IsTimed i at [] h = tt
are_commitments-IsTimed i at (k ∷ ks) h = (
  ground arith,
  ground arith,
  ground arith,
  ground arith,
  are_commitments-IsTimed (suc i) k.end_ms ks (ground arith),
)

-- The chunk is what the commitment with its number says.
abbrev pub IsCommitted : List Commitment → AudioChunk → Type 0
IsCommitted ks c =
    (k : Commitment) × (get_elem? ks c.sequence_no ≡ some k)
    × (c.sequence_no ≡ k.sequence_no)
    × (c.start_ms ≡ k.start_ms)
    × (c.end_ms ≡ k.end_ms)
    × (c.size_bytes ≡ k.size_bytes)
    × (c.checksum ≡ k.checksum)
    × (c.mime_type ≡ k.mime_type)

agrees-IsCommitted :
    (v : Services) (ks : List Commitment) (c : AudioChunk) (o : Option Commitment)
    → get_elem? ks c.sequence_no ≡ o
    → agrees v o c ≡ true
    → IsCommitted ks c
agrees-IsCommitted v ks c none e h = cc
agrees-IsCommitted v ks c (some k) e h = (
  k,
  e,
  ground arith,
  ground arith,
  ground arith,
  ground arith,
  ground (arith, eq_iff c.checksum k.checksum),
  ground (arith, eq_iff c.mime_type k.mime_type),
)

all_agree-IsCommitted :
    (v : Services) (ks : List Commitment) (cs : List AudioChunk)
    → all_agree v ks cs ≡ true
    → All (IsCommitted ks) cs
unfolding all_agree
all_agree-IsCommitted v ks [] h = tt
all_agree-IsCommitted v ks (c ∷ cs) h = (
  agrees-IsCommitted v ks c (get_elem? ks c.sequence_no) refl (ground arith),
  all_agree-IsCommitted v ks cs (ground arith),
)

-- The session has a finalization with the commitments of the request, which are as many as it
-- expects and follow one another without a gap, and every chunk of its object that is there is what
-- its commitment says.
pub record IsStopped (v : Services) (actor : Actor) (session_id : String)
    (input : StopSessionRequest) (t : State) : Type 0 where
  pub finalization : SessionFinalization
  pub found : find_finalization session_id t ≡ some finalization
  pub chunks : finalization.chunks ≡ input.chunks
  pub object : finalization.audio_object_id ≡ input.audio_object_id
  pub creator : finalization.created_by ≡ actor.id
  pub agree :
      All
        (IsCommitted input.chunks)
        (keep (λ (c : AudioChunk). c.audio_object_id == input.audio_object_id) t.audio_chunks)

module _ (v : Services) (actor : Actor) (input : StopSessionRequest) (was_interrupted : Bool) where
  create_finalization-ok :
      (f : SessionFinalization) (s t : State) (x : Unit {0})
      → create_finalization v f s ≡ (ok x, t)
      → (t.finalizations ≡ s.finalizations ++ f ∷ []) × (t.audio_chunks ≡ s.audio_chunks)
  unfolding create_finalization
  create_finalization-ok f s t x h = (ground arith, ground arith)

  conclude-ok :
      (session_id id : String) (s t : State) (o : Outcome)
      → conclude v actor session_id input was_interrupted id s ≡ (ok o, t)
      → (t.finalizations ≡ s.finalizations) × (t.audio_chunks ≡ s.audio_chunks)
  unfolding read_snapshot write_stop_idempotency
  conclude-ok session_id id s t o h = (ground arith, ground arith)

  freeze_object-IsStopped :
      (session : InterviewSession) (s t : State) (o : Outcome)
      → find_finalization session.id s ≡ none
      → freeze_object v actor session input was_interrupted s ≡ (ok o, t)
      → IsStopped v actor session.id input t
  unfolding freeze_object find_finalization
  freeze_object-IsStopped session s t o new h =
      let uploaded : List AudioChunk =
        keep (λ (c : AudioChunk). c.audio_object_id == input.audio_object_id) s.audio_chunks in
      let not_stoppable : Failure = conflict "SESSION_NOT_STOPPABLE" in
      let end : Call Outcome = conclude v actor session.id input was_interrupted v.fresh_id in
      let row =
        λ (k : Commitment) (at : ℕ). new_finalization v actor session.id input (at + k.end_ms) in
      let make = λ (k : Commitment) (at : ℕ). create_finalization v (row k at) in
      let rows = λ (k : Commitment) (at : ℕ).
        modify {E = Failure}
          (stop_rows v actor session.id input (at + k.end_ms) ((k.end_ms + 999) / 1000)) in
      let (agree, h1) =
        throw_if->>=-ok (not (all_agree v input.chunks uploaded))
          (conflict "AUDIO_COMMITMENT_CONFLICT")
          (λ _. require (last v input.chunks) not_stoppable >>= λ k.
            require session.started_at not_stoppable >>= λ at.
            make k at >>= λ _. rows k at >>= λ _. end)
          s t o h in
      let (k, e, h2) =
        require->>=-ok (last v input.chunks) not_stoppable
          (λ k. require session.started_at not_stoppable >>= λ at.
            make k at >>= λ _. rows k at >>= λ _. end)
          s t o h1 in
      let (at, e', h3) =
        require->>=-ok session.started_at not_stoppable
          (λ at. make k at >>= λ _. rows k at >>= λ _. end) s t o h2 in
      let (x, u, h4, h5) = >>=-ok (make k at) (λ _. rows k at >>= λ _. end) s t o h3 in
      let (added, chunks) = create_finalization-ok (row k at) s u x h4 in
      let (same, same_chunks) = conclude-ok session.id v.fresh_id (rows k at u).1 t o h5 in
      record {
        finalization = row k at;
        found =
            ap (find (λ (z : SessionFinalization). z.session_id == session.id)) (same ∙ added)
            ∙ find-append-new (λ (z : SessionFinalization). z.session_id == session.id)
                s.finalizations (row k at) new (eq_refl session.id);
        chunks = refl;
        object = refl;
        creator = refl;
        agree =
            subst
              (λ l.
                All (IsCommitted input.chunks)
                  (keep (λ (c : AudioChunk). c.audio_object_id == input.audio_object_id) l))
              (sym (same_chunks ∙ chunks))
              (all_agree-IsCommitted v input.chunks uploaded (ground (arith, agree)));
      }

  freeze_fresh-IsStopped :
      (session : InterviewSession) (s t : State) (o : Outcome)
      → find_finalization session.id s ≡ none
      → is_denied v o ≡ false
      → freeze_fresh v actor session input was_interrupted s ≡ (ok o, t)
      → IsStopped v actor session.id input t
  unfolding freeze_fresh
  freeze_fresh-IsStopped session s t o new answer h =
      elim (Bool-cases (current_gate v actor session.project_id s)) [
        | inl e ↦
            elim (Bool-cases (is_object_of v actor session (find_object input.audio_object_id s))) [
              | inl e' ↦
                  let after = λ (x : Unit {0}) (u : State).
                    (if is_object_of v actor session (find_object input.audio_object_id u)
                        then freeze_object v actor session input was_interrupted
                        else pure denied)
                      u in
                  let (legal, h1) =
                    throw_if->>=-ok (not (is_legal v was_interrupted session))
                      (conflict "SESSION_NOT_STOPPABLE") after s t o (rw e at h) in
                  freeze_object-IsStopped session s t o new (rw e' at h1)
              | inr e' ↦ absurd (ground (arith, h, e, e', answer))
            ]
        | inr e ↦ absurd (ground (arith, h, e, answer))
      ]

  freeze_session-IsStopped :
      (session_id : String) (s t : State) (o : Outcome)
      → find_record input.request_id s ≡ none
      → find_finalization session_id s ≡ none
      → is_denied v o ≡ false
      → freeze_session v actor session_id input was_interrupted s ≡ (ok o, t)
      → IsStopped v actor session_id input t
  unfolding freeze_session find_session
  freeze_session-IsStopped session_id s t o unused new answer h =
      let (session, e, h1) =
        require->>=-ok (find_session session_id s) not_found
          (λ x u.
            freeze_replay v actor x input was_interrupted (find_finalization session_id u)
              (find_record input.request_id u) u)
          s t o h in
      let same : session.id ≡ session_id =
        (eq_iff session.id session_id).0
          (find-holds (λ (x : InterviewSession). x.id == session_id) s.sessions session e) in
      subst (λ i. IsStopped v actor i input t) same
        (freeze_fresh-IsStopped session s t o
          (subst (λ i. find_finalization i s ≡ none) (sym same) new) answer
          (rw (unused, new) at h1))

  committed :
      (r : Result Failure Outcome) (u z before : State) (o : Outcome)
      → undo r u before ≡ (ok o, z)
      → (r ≡ ok o) × (u ≡ z)
  committed (ok x) u z before o h = (cc, cc)
  committed (err e) u z before o h = cc

  told-IsStopped :
      (session_id : String) (z t : State) (o o' : Outcome)
      → (throw_if (is_denied v o') forbidden >>= λ _.
            modify (λ (r : State). record r { interrupts = session_id ∷ r.interrupts }) >>= λ _.
            pure o')
          z
        ≡ (ok o, t)
      → (is_denied v o' ≡ false)
        × (t.finalizations ≡ z.finalizations)
        × (t.audio_chunks ≡ z.audio_chunks)
  told-IsStopped session_id z t o o' h = (ground arith, ground arith, ground arith)

  IsStopped-later :
      (session_id : String) (z t : State)
      → t.finalizations ≡ z.finalizations
      → t.audio_chunks ≡ z.audio_chunks
      → IsStopped v actor session_id input z
      → IsStopped v actor session_id input t
  unfolding find_finalization
  IsStopped-later session_id z t same chunks k = record {
    finalization = k.finalization;
    found = ap (find (λ (x : SessionFinalization). x.session_id == session_id)) same ∙ k.found;
    chunks = k.chunks;
    object = k.object;
    creator = k.creator;
    agree =
        subst
          (λ l.
            All (IsCommitted input.chunks)
              (keep (λ (c : AudioChunk). c.audio_object_id == input.audio_object_id) l))
          (sym chunks) k.agree;
  }

  -- A new request of an interviewer to stop a session that has no finalization yet, if it is answered,
  -- has made one: with the commitments of the request, as many as it expects (at least one), numbered
  -- from 0 and timed from 0 without a gap, for its audio object, by the interviewer; and each chunk of
  -- the object that is there has the number, times, size, digest and type of its commitment.
  pub freeze-IsStopped :
      (session_id : String) (s t : State) (o : Outcome)
      → actor.is_interviewer ≡ true
      → find_record input.request_id s ≡ none
      → find_finalization session_id s ≡ none
      → freeze v actor session_id input was_interrupted s ≡ (ok o, t)
      → (length input.chunks ≡ input.expected_chunk_count)
        × (0 < input.expected_chunk_count)
        × IsTimed 0 0 input.chunks
        × IsStopped v actor session_id input t
  unfolding freeze assert_role validate_commitments
  freeze-IsStopped session_id s t o role unused new h =
      let m : Call Outcome = freeze_session v actor session_id input was_interrupted in
      let rest = λ (x : Outcome). throw_if {S = State} (is_denied v x) forbidden >>= λ _.
      modify (λ (r : State). record r { interrupts = session_id ∷ r.interrupts }) >>= λ _. pure x in
      let (y, r, g1, g2) =
        >>=-ok (assert_role actor) (λ _. validate_commitments input >>= λ _. transaction m >>= rest)
          s t o h in
      let (x, u, h1, h2) =
        >>=-ok (validate_commitments input) (λ _. transaction m >>= rest) r t o g2 in
      let entered : s ≡ r = ground (arith, g1, role) in
      let checked : r ≡ u = ground (arith, h1) in
      let same : s ≡ u = entered ∙ checked in
      let (o', z, h3, h4) = >>=-ok (transaction m) rest u t o h2 in
      let (answer, a, b) = told-IsStopped session_id z t o o' h4 in
      let (c, d) = committed (m u).0 (m u).1 z u o' h3 in
      let h5 : m u ≡ (ok o', z) = cc in
      (
        ground (arith, h1),
        ground (arith, h1),
        are_commitments-IsTimed 0 0 input.chunks (ground (arith, h1)),
        IsStopped-later session_id z t a b (
            freeze_session-IsStopped session_id u z o'
              (subst (λ r. find_record input.request_id r ≡ none) same unused)
              (subst (λ r. find_finalization session_id r ≡ none) same new) answer h5),
      )
