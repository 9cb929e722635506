-- ===== src/Finalization/Completed.antt =====
-- Any order of the steps of apps/api/src/project-foundation/session-finalization.service.ts: a session
-- that they complete has a whole recording.
use elder_interview_ai.Prelude.{
  ℕ, ◌≡◌, refl, sym, ap, subst, ◌∙◌, inl, inr, Bool, Bool-cases, Option-cases, true, not, String,
  Option, none, some, arith, if◌then◌else◌, if_elim, ◌==◌, eq_iff,
}
use elder_interview_ai.Prelude.Int.{ℤ, max_ℤ}
use elder_interview_ai.Prelude.Rows.{find-holds}
use elder_interview_ai.Prelude.Action.{ok, ◌>>=◌, pure, require, gets}
use elder_interview_ai.AudioServer.Tables.{AudioObject}
use elder_interview_ai.Finalization.Tables.{
  InterviewSession, SessionFinalization, State, no_row, Call, Services,
}
use elder_interview_ai.Finalization.Access.{
  find_session, finalization_at, find_object, is_terminal, complete_manifest_matches, all_committed,
}
use elder_interview_ai.Finalization.Advance.{
  set_finalization, complete_terminal, is_waiting, or_minus_one, has_no_audio, without_runtime,
  with_runtime, process_session, begin_processing, matches, prepare_open, prepare, settled,
  settle_open, settle,
}
use elder_interview_ai.Finalization.Frozen.{SameFreeze, IsWhole, IsWhole-later}
use elder_interview_ai.Finalization.Honest.{
  Goes, Goes-refl, Goes-trans, Goes-updated, same-AreFrozen, set_finalization-Goes,
  complete_terminal-Goes,
}
use elder_interview_ai.Finalization.Stops.{Keeps, Keeps-required, Keeps-transaction, undone}

-- The services at one moment: the digest and the order of identifiers stay.
abbrev pub moment : Services → ℕ → (fresh_id : String) → (String → Option ℤ) → Services
moment v now fresh_id runtime = record v { now = now; fresh_id = fresh_id; runtime = runtime }

found_id :
    (id : String) (s : State) (f : SessionFinalization) → finalization_at id s ≡ some f → f.id ≡ id
unfolding finalization_at
found_id id s f h =
    (eq_iff f.id id).0 (find-holds (λ (x : SessionFinalization). x.id == id) s.finalizations f h)

module _ (v : Services) (now : ℕ) (fresh_id : String) (runtime : String → Option ℤ) where
  abbrev w : Services
  w = moment v now fresh_id runtime

  without_runtime-SameFreeze :
      (n : ℤ) (x : SessionFinalization)
      → ((without_runtime w n x).id ≡ x.id) × SameFreeze x (without_runtime w n x)
  without_runtime-SameFreeze n x = (
    refl,
    record {
      session_id = refl;
      audio_object_id = refl;
      expected_chunk_count = refl;
      commitments_checksum = refl;
      created_by = refl;
      chunks = refl;
    },
  )

  with_runtime-SameFreeze :
      (n : ℤ) (x : SessionFinalization)
      → ((with_runtime w n x).id ≡ x.id) × SameFreeze x (with_runtime w n x)
  with_runtime-SameFreeze n x = (
    refl,
    record {
      session_id = refl;
      audio_object_id = refl;
      expected_chunk_count = refl;
      commitments_checksum = refl;
      created_by = refl;
      chunks = refl;
    },
  )

  settled-SameFreeze :
      (d : Bool) (x : SessionFinalization)
      → ((settled w d x).id ≡ x.id) × SameFreeze x (settled w d x)
  settled-SameFreeze d x = (
    refl,
    record {
      session_id = refl;
      audio_object_id = refl;
      expected_chunk_count = refl;
      commitments_checksum = refl;
      created_by = refl;
      chunks = refl;
    },
  )

  -- The finalization is changed, and its session completed.
  set_and_complete :
      (id session_id : String) (f : SessionFinalization → SessionFinalization) (whole_id : String)
      (s : State)
      → ((x : SessionFinalization) → ((f x).id ≡ x.id) × SameFreeze x (f x))
      → IsWhole v whole_id session_id s
      → Goes v s (complete_terminal id session_id now (set_finalization id f s).1).1
  set_and_complete id session_id f whole_id s k z =
      let u : State = (set_finalization id f s).1 in
      let g = set_finalization-Goes v id f k s in
      Goes-trans v s u (complete_terminal id session_id now u).1 g (
        complete_terminal-Goes v id whole_id session_id now u
          (IsWhole-later v whole_id session_id s u g.frozen z))

  begin_processing-Goes :
      (f : SessionFinalization) (whole_id : String) (s : State)
      → IsWhole v whole_id f.session_id s
      → Goes v s (begin_processing w f s).1
  unfolding begin_processing complete_terminal set_finalization
  begin_processing-Goes f whole_id s z =
      let active : Option ℤ = runtime f.session_id in
      let accepted : ℤ =
        max_ℤ (or_minus_one active) (or_minus_one f.asr_last_audio_sequence_accepted) in
      if_elim (λ (m : Call (Option ℤ)). Goes v s (m s).1) (not (is_waiting f.transcript_status))
        (complete_terminal-Goes v f.id whole_id f.session_id now s z)
        (if_elim (λ (m : Call (Option ℤ)). Goes v s (m s).1) (has_no_audio active)
          (set_and_complete f.id f.session_id (without_runtime w accepted) whole_id s
            (without_runtime-SameFreeze accepted) z)
          (let u : State = (set_finalization f.id (with_runtime w accepted) s).1 in
            Goes-trans v s u _
              (set_finalization-Goes v f.id (with_runtime w accepted)
                (with_runtime-SameFreeze accepted) s)
              (Goes-updated v (λ (x : InterviewSession). x.id == f.session_id) (process_session w) u
                _ (λ x. refl) (λ x q c. absurd (ground (arith, c)))
                (same-AreFrozen v u _ refl refl refl) refl)))

  matches-moment :
      (f : SessionFinalization) (o : AudioObject) (s : State) → matches w f o s ≡ matches v f o s
  unfolding complete_manifest_matches all_committed
  matches-moment f o s = refl

  IsWhole-at :
      (id : String) (f : SessionFinalization) (o : AudioObject) (s : State)
      → finalization_at id s ≡ some f
      → find_object f.audio_object_id s ≡ some o
      → matches w f o s ≡ true
      → IsWhole v id f.session_id s
  IsWhole-at id f o s e e' m = record {
    finalization = f;
    found = e;
    of_session = refl;
    object = o;
    has_object = e';
    manifest = sym (matches-moment f o s) ∙ m;
  }

  prepare_open-Goes :
      (id : String) (f : SessionFinalization) (s : State)
      → finalization_at id s ≡ some f
      → Goes v s (prepare_open w f s).1
  prepare_open-Goes id f s e =
      Keeps-required v (find_object f.audio_object_id s) no_row
        (λ o u. (if matches w f o u then begin_processing w f else pure none) u) s
        (λ o e'. elim (Bool-cases (matches w f o s)) [
          | inl m ↦ rw m (begin_processing-Goes f id s (IsWhole-at id f o s e e' m))
          | inr m ↦ rw m (Goes-refl v s)
        ])

  pub prepare-Keeps : (id : String) → Keeps v (prepare w id)
  unfolding prepare
  prepare-Keeps id = Keeps-transaction v body body-Keeps
    where
      body : Call (Option ℤ)
      body = do
        found ← gets (finalization_at id)
        f ← require found no_row
        at ← gets (find_session f.session_id)
        session ← require at no_row
        if is_terminal session.status then pure none else prepare_open w f

      body-Keeps : (s : State) → Goes v s (body s).1
      body-Keeps s =
          Keeps-required v (finalization_at id s) no_row
            (λ f u.
              (require (find_session f.session_id u) no_row >>= λ x.
              if is_terminal x.status then pure none else prepare_open w f)
                u)
            s
            (λ f e.
              Keeps-required v (find_session f.session_id s) no_row
                (λ x. if is_terminal x.status then pure none else prepare_open w f) s
                (λ x e'.
                  if_elim (λ (m : Call (Option ℤ)). Goes v s (m s).1) (is_terminal x.status)
                    (Goes-refl v s) (prepare_open-Goes id f s e)))

  -- A finalization that goes on has a whole recording.
  pub prepare-IsWhole :
      (id : String) (n : ℤ) (s t : State)
      → prepare w id s ≡ (ok (some n), t)
      → (x : String) × IsWhole v id x s
  unfolding prepare
  prepare-IsWhole id n s t h = elim (Option-cases (finalization_at id s)) [
    | inl e ↦ absurd (ground (arith, h, e))
    | inr (f, e) ↦ elim (Option-cases (find_session f.session_id s)) [
      | inl e' ↦ absurd (ground (arith, h, e, e'))
      | inr (x, e') ↦ elim (Bool-cases (is_terminal x.status)) [
        | inl c ↦ absurd (ground (arith, h, e, e', c))
        | inr c ↦ elim (Option-cases (find_object f.audio_object_id s)) [
          | inl e'' ↦ absurd (ground (arith, h, e, e', c, e''))
          | inr (o, e'') ↦ elim (Bool-cases (matches w f o s)) [
            | inl m ↦ (f.session_id, IsWhole-at id f o s e e'' m)
            | inr m ↦ absurd (ground (arith, h, e, e', c, e'', m))
          ]
        ]
      ]
    ]
  ]

  settle_open-Goes :
      (id : String) (f : SessionFinalization) (d : Bool) (s : State)
      → IsWhole v id f.session_id s
      → Goes v s (settle_open w f d s).1
  unfolding set_finalization
  settle_open-Goes id f d s k =
      set_and_complete f.id f.session_id (settled w d) id s (settled-SameFreeze d) k

  pub settle-Goes :
      (id x : String) (d : Bool) (s : State) → IsWhole v id x s → Goes v s (settle w id d s).1
  unfolding settle
  settle-Goes id x d s z = undone v s (body s).1 goes (body s).0
    where
      body : Call (Unit {0})
      body = do
        found ← gets (finalization_at id)
        f ← require found no_row
        at ← gets (find_session f.session_id)
        session ← require at no_row
        if is_terminal session.status then pure tt else settle_open w f d

      same_session :
          (f : SessionFinalization) → finalization_at id s ≡ some f → IsWhole v id f.session_id s
      same_session f e =
          let same : z.finalization ≡ f = ground (arith, z.found, e) in
          subst (λ y. IsWhole v id y s)
            (sym z.of_session ∙ ap (λ (g : SessionFinalization). g.session_id) same) z

      goes : Goes v s (body s).1
      goes =
          Keeps-required v (finalization_at id s) no_row
            (λ f u.
              (require (find_session f.session_id u) no_row >>= λ y.
              if is_terminal y.status then pure tt else settle_open w f d)
                u)
            s
            (λ f e.
              Keeps-required v (find_session f.session_id s) no_row
                (λ y. if is_terminal y.status then pure tt else settle_open w f d) s
                (λ y e'.
                  if_elim (λ (m : Call (Unit {0})). Goes v s (m s).1) (is_terminal y.status)
                    (Goes-refl v s) (settle_open-Goes id f d s (same_session f e))))
