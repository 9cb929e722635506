-- ===== src/Finalization/Honest.antt =====
-- The writes of apps/api/src/project-foundation/session-finalization.service.ts: none changes what is
-- fixed, and none completes a session whose recording is not whole.
use elder_interview_ai.Prelude.{
  ℕ, ◌≡◌, refl, sym, ap, subst, ◌∙◌, inl, inr, Bool, true, not, ◌&&◌, String, [], ◌∷◌, ◌++◌, some,
  arith, ◌==◌, eq_iff, is_none,
}
use elder_interview_ai.Prelude.Rows.{
  find, update_where, find-append, find-holds, found-updated, updated-found,
}
use elder_interview_ai.Prelude.Keeping
use elder_interview_ai.Capture.Tables
use elder_interview_ai.Capture.Tables.{InterviewSessionStatus}
use elder_interview_ai.Finalization.Tables.{InterviewSession, SessionFinalization, State, Services}
use elder_interview_ai.Finalization.Access.{finalization_at, is_terminal}
use elder_interview_ai.Finalization.Advance.{set_finalization, complete_terminal, complete_session}
use elder_interview_ai.Finalization.Frozen.{
  SameFreeze, SameFreeze-refl, AreFrozen, AreFrozen-refl, AreFrozen-trans, IsWhole, IsWhole-later,
  IsHonest,
}

module _ (v : Services) where
  pub record Goes (s t : State) : Type 0 where
    pub frozen : AreFrozen s t
    pub honest : IsHonest v s → IsHonest v t

  pub Goes-refl : (s : State) → Goes s s
  Goes-refl s = record { frozen = AreFrozen-refl s; honest = λ h. h }

  pub Goes-trans : (s t u : State) → Goes s t → Goes t u → Goes s u
  Goes-trans s t u p q = record {
    frozen = AreFrozen-trans s t u p.frozen q.frozen;
    honest = λ h. q.honest (p.honest h);
  }

  -- The finalizations are changed, in what is not fixed.
  pub updated-AreFrozen :
      (q : SessionFinalization → Bool) (f : SessionFinalization → SessionFinalization) (s t : State)
      → ((x : SessionFinalization) → ((f x).id ≡ x.id) × SameFreeze x (f x))
      → t.audio_objects ≡ s.audio_objects
      → t.audio_chunks ≡ s.audio_chunks
      → t.finalizations ≡ update_where q f s.finalizations
      → AreFrozen s t
  unfolding finalization_at
  updated-AreFrozen q f s t k a b e = record {
    audio_objects = a;
    audio_chunks = b;
    finalizations = λ id x h.
        let (y, g, w) =
          found-updated (λ (z : SessionFinalization). z.id == id) q f s.finalizations x
            (λ z. ap (λ i. i == id) (k z).0) h in
        (
          y,
          ap (find (λ (z : SessionFinalization). z.id == id)) e ∙ g,
          elim w [
            | inl r ↦ subst (SameFreeze x) (sym r) (SameFreeze-refl x)
            | inr r ↦ subst (SameFreeze x) (sym r) (k x).1
          ],
        );
  }

  pub added-AreFrozen :
      (f : SessionFinalization) (s t : State)
      → t.audio_objects ≡ s.audio_objects
      → t.audio_chunks ≡ s.audio_chunks
      → t.finalizations ≡ s.finalizations ++ f ∷ []
      → AreFrozen s t
  unfolding finalization_at
  added-AreFrozen f s t a b e = record {
    audio_objects = a;
    audio_chunks = b;
    finalizations = λ id x h. (
      x,
      ap (find (λ (z : SessionFinalization). z.id == id)) e
          ∙ find-append (λ (z : SessionFinalization). z.id == id) s.finalizations (f ∷ []) x h,
      SameFreeze-refl x,
    );
  }

  pub same-AreFrozen :
      (s t : State)
      → t.audio_objects ≡ s.audio_objects
      → t.audio_chunks ≡ s.audio_chunks
      → t.finalizations ≡ s.finalizations
      → AreFrozen s t
  unfolding finalization_at
  same-AreFrozen s t a b e = record {
    audio_objects = a;
    audio_chunks = b;
    finalizations =
        λ id x h. (x, ap (find (λ (z : SessionFinalization). z.id == id)) e ∙ h, SameFreeze-refl x);
  }

  -- The sessions are the same.
  pub Goes-same : (s t : State) → AreFrozen s t → t.sessions ≡ s.sessions → Goes s t
  Goes-same s t k e = record {
    frozen = k;
    honest = λ h x y f c.
        let (id, w) = h x y (ap (find (λ (z : InterviewSession). z.id == x)) (sym e) ∙ f) c in
        (id, IsWhole-later v id x s t k w);
  }

  -- The sessions are changed, and those that become completed have a whole recording.
  pub Goes-updated :
      (q : InterviewSession → Bool) (f : InterviewSession → InterviewSession) (s t : State)
      → ((x : InterviewSession) → (f x).id ≡ x.id)
      → ((x : InterviewSession)
          → q x ≡ true
          → (f x).status ≡ Tables.completed
          → (id : String) × IsWhole v id x.id s)
      → AreFrozen s t
      → t.sessions ≡ update_where q f s.sessions
      → Goes s t
  Goes-updated q f s t same whole k e = record {
    frozen = k;
    honest = λ h key y found c.
        let (x, g, w) =
          updated-found (λ (z : InterviewSession). z.id == key) q f s.sessions y
            (λ z. ap (λ i. i == key) (same z))
            (ap (find (λ (z : InterviewSession). z.id == key)) (sym e) ∙ found) in
        elim w [
          | inl r ↦
              let (id, z) = h key x g (ap (λ (x' : InterviewSession). x'.status) (sym r) ∙ c) in
              (id, IsWhole-later v id key s t k z)
          | inr (r, passes) ↦
              let (id, z) =
                whole x passes (ap (λ (x' : InterviewSession). x'.status) (sym r) ∙ c) in
              let same_key : x.id ≡ key =
                (eq_iff x.id key).0
                  (find-holds (λ (x' : InterviewSession). x'.id == key) s.sessions x g) in
              (id, IsWhole-later v id key s t k (subst (λ i. IsWhole v id i s) same_key z))
        ];
  }

  pub set_finalization-Goes :
      (id : String) (f : SessionFinalization → SessionFinalization)
      → ((x : SessionFinalization) → ((f x).id ≡ x.id) × SameFreeze x (f x))
      → Keeping.Keeps Goes Goes-refl Goes-trans (set_finalization id f)
  unfolding set_finalization
  set_finalization-Goes id f k s =
      Goes-same s (set_finalization id f s).1
        (updated-AreFrozen (λ (x : SessionFinalization). x.id == id) f s (set_finalization id f s).1
          k refl refl refl)
        refl

  -- A session is completed for a recording that is whole.
  pub complete_terminal-Goes :
      (id whole_id session_id : String) (now : ℕ) (s : State)
      → IsWhole v whole_id session_id s
      → Goes s (complete_terminal id session_id now s).1
  unfolding complete_terminal
  complete_terminal-Goes id whole_id session_id now s w =
      let t : State = (complete_terminal id session_id now s).1 in
      Goes-updated (λ (x : InterviewSession). x.id == session_id && not (is_terminal x.status))
        complete_session s t (λ x. refl)
        (λ x q c. (
          whole_id,
          subst (λ i. IsWhole v whole_id i s) (sym ((eq_iff x.id session_id).0 (ground (arith, q))))
              w,
        ))
        (updated-AreFrozen (λ (x : SessionFinalization). x.id == id && is_none x.completed_at)
          (λ (x : SessionFinalization). record x { completed_at = some now }) s t
          (λ x. (
            refl,
            record {
              session_id = refl;
              audio_object_id = refl;
              expected_chunk_count = refl;
              commitments_checksum = refl;
              created_by = refl;
              chunks = refl;
            },
          ))
          refl refl refl)
        refl
