-- ===== src/Finalization/Frozen.antt =====
-- What no call of apps/api/src/project-foundation/session-finalization.service.ts changes: what a
-- finalization has fixed, and the audio.
use elder_interview_ai.Prelude.{◌≡◌, refl, ◌∙◌, true, String, some, arith, ◌==◌}
use elder_interview_ai.Prelude.Rows.{find}
use elder_interview_ai.Capture.Tables
use elder_interview_ai.Capture.Tables.{InterviewSessionStatus}
use elder_interview_ai.AudioServer.Tables.{AudioObject}
use elder_interview_ai.Finalization.Tables.{InterviewSession, SessionFinalization, State, Services}
use elder_interview_ai.Finalization.Access.{finalization_at, find_object, chunks_of}
use elder_interview_ai.Finalization.Advance.{matches}

-- The part of a finalization that is fixed when it is made.
pub record SameFreeze (f g : SessionFinalization) : Type 0 where
  pub session_id : g.session_id ≡ f.session_id
  pub audio_object_id : g.audio_object_id ≡ f.audio_object_id
  pub expected_chunk_count : g.expected_chunk_count ≡ f.expected_chunk_count
  pub commitments_checksum : g.commitments_checksum ≡ f.commitments_checksum
  pub created_by : g.created_by ≡ f.created_by
  pub chunks : g.chunks ≡ f.chunks

pub SameFreeze-refl : (f : SessionFinalization) → SameFreeze f f
SameFreeze-refl f = record {
  session_id = refl;
  audio_object_id = refl;
  expected_chunk_count = refl;
  commitments_checksum = refl;
  created_by = refl;
  chunks = refl;
}

pub record AreFrozen (s t : State) : Type 0 where
  pub audio_objects : t.audio_objects ≡ s.audio_objects
  pub audio_chunks : t.audio_chunks ≡ s.audio_chunks
  pub finalizations :
      (id : String) (f : SessionFinalization)
      → finalization_at id s ≡ some f
      → (g : SessionFinalization) × (finalization_at id t ≡ some g) × SameFreeze f g

pub AreFrozen-refl : (s : State) → AreFrozen s s
AreFrozen-refl s = record {
  audio_objects = refl;
  audio_chunks = refl;
  finalizations = λ id f h. (f, h, SameFreeze-refl f);
}

pub AreFrozen-trans : (s t u : State) → AreFrozen s t → AreFrozen t u → AreFrozen s u
AreFrozen-trans s t u p q = record {
  audio_objects = q.audio_objects ∙ p.audio_objects;
  audio_chunks = q.audio_chunks ∙ p.audio_chunks;
  finalizations = λ id f h.
      let (g, e, k) = p.finalizations id f h in
      let (g', e', k') = q.finalizations id g e in
      (
        g',
        e',
        record {
          session_id = k'.session_id ∙ k.session_id;
          audio_object_id = k'.audio_object_id ∙ k.audio_object_id;
          expected_chunk_count = k'.expected_chunk_count ∙ k.expected_chunk_count;
          commitments_checksum = k'.commitments_checksum ∙ k.commitments_checksum;
          created_by = k'.created_by ∙ k.created_by;
          chunks = k'.chunks ∙ k.chunks;
        },
      );
}

module _ (v : Services) where
  -- The recording of a session is whole: the manifest matches the commitments of its finalization.
  pub record IsWhole (id session_id : String) (s : State) : Type 0 where
    pub finalization : SessionFinalization
    pub found : finalization_at id s ≡ some finalization
    pub of_session : finalization.session_id ≡ session_id
    pub object : AudioObject
    pub has_object : find_object finalization.audio_object_id s ≡ some object
    pub manifest : matches v finalization object s ≡ true

  pub IsWhole-later :
      (id session_id : String) (s t : State)
      → AreFrozen s t
      → IsWhole id session_id s
      → IsWhole id session_id t
  unfolding find_object chunks_of
  IsWhole-later id session_id s t k w =
      let (g, e, same) = k.finalizations id w.finalization w.found in
      record {
        finalization = g;
        found = e;
        of_session = same.session_id ∙ w.of_session;
        object = w.object;
        has_object = ground (arith, w.has_object, k.audio_objects, same.audio_object_id);
        manifest =
            ground (arith, w.manifest, k.audio_chunks, same.chunks, same.expected_chunk_count);
      }

  -- Every completed session has such a recording.
  abbrev pub IsHonest : State → Type 0
  IsHonest s =
      (x : String)
      → (session : InterviewSession)
      → find (λ (y : InterviewSession). y.id == x) s.sessions ≡ some session
      → session.status ≡ Tables.completed
      → (id : String) × IsWhole id x s
