-- ===== src/AudioServer/Verified.antt =====
-- What an audio object is once `completeObject` of apps/api/src/audio/audio.service.ts has answered.
use elder_interview_ai.Prelude.{
  ℕ, suc, ◌≡◌, refl, sym, ap, subst, ◌∙◌, inl, inr, true, false, String, List, [], ◌∷◌, some, arith,
  Option-cases, length, All, eq_iff,
}
use elder_interview_ai.Prelude.Map.{Map, get}
use elder_interview_ai.Prelude.Action.{ok, bind_result, >>=-ok}
use elder_interview_ai.AudioServer.Tables.{AudioChunk, State, Platform}
use elder_interview_ai.AudioServer.Storage.{is_object_key, inspect}
use elder_interview_ai.AudioServer.Service.{is_stored}
use elder_interview_ai.AudioServer.Complete.{verify_file, verify_files, is_continuous_from}

-- The file of a chunk is there, and has the size and the digest of its row.
pub record HasFile (p : Platform) (files : Map (List ℕ)) (c : AudioChunk) : Type 0 where
  pub bytes : List ℕ
  pub there : get c.object_key files ≡ some bytes
  pub digest : p.sha256 bytes ≡ c.checksum
  pub size : length bytes ≡ c.size_bytes

-- One chunk after the other, from a number and a time on.
abbrev pub Continuous : (index end_ms : ℕ) → List AudioChunk → Type 0
Continuous i at [] = Unit {0}
Continuous i at (c ∷ cs) = (c.sequence_no ≡ i) × (c.start_ms ≡ at) × Continuous (suc i) c.end_ms cs

pub is_continuous_from-Continuous :
    (i at : ℕ) (cs : List AudioChunk) → is_continuous_from i at cs ≡ true → Continuous i at cs
unfolding is_continuous_from
is_continuous_from-Continuous i at [] h = tt
is_continuous_from-Continuous i at (c ∷ cs) h =
    (ground arith, ground arith, is_continuous_from-Continuous (suc i) c.end_ms cs (ground arith))

module _ (p : Platform) where
  -- A round that ends well writes nothing, and has found the chunk whole.
  record Checked (c : AudioChunk) (s t : State) : Type 0 where
    same : t ≡ s
    file : HasFile p s.files c
    stored : is_stored c ≡ true
    allowed : p.read_fails c.object_key ≡ false
    is_key : is_object_key c.object_key ≡ true

  verify_file-Checked :
      (a b : String) (c : AudioChunk) (s t : State) (x : Unit {0})
      → verify_file p a b c s ≡ (ok x, t)
      → Checked c s t
  unfolding verify_file inspect
  verify_file-Checked a b c s t x h = elim (Option-cases (get c.object_key s.files)) [
    | inl e ↦ absurd (ground arith)
    | inr (bytes, e) ↦ record {
      same = ground arith;
      file = record {
        bytes = bytes;
        there = e;
        digest = ground (arith, eq_iff (p.sha256 bytes) c.checksum);
        size = ground arith;
      };
      stored = ground arith;
      allowed = ground arith;
      is_key = ground arith;
    }
  ]

  -- It ends well again, with any texts for its errors, over the same files.
  verify_file-again :
      (a b : String) (c : AudioChunk) (s t u : State)
      → Checked c s t
      → u.files ≡ s.files
      → verify_file p a b c u ≡ (ok tt, u)
  unfolding verify_file inspect
  verify_file-again a b c s t u k e = ground (
    arith,
    k.stored,
    k.allowed,
    k.is_key,
    k.file.there,
    k.file.digest,
    k.file.size,
    eq_iff (p.sha256 k.file.bytes) c.checksum,
  )

  -- Of all chunks.
  pub record AllChecked (cs : List AudioChunk) (s t : State) : Type 0 where
    pub same : t ≡ s
    pub files : All (HasFile p s.files) cs
    pub again :
        (a b : String) (u : State) → u.files ≡ s.files → verify_files p a b cs u ≡ (ok tt, u)

  pub verify_files-AllChecked :
      (a b : String) (cs : List AudioChunk) (s t : State) (x : Unit {0})
      → verify_files p a b cs s ≡ (ok x, t)
      → AllChecked cs s t
  unfolding verify_files
  verify_files-AllChecked a b [] s t x h = record {
    same = cc;
    files = tt;
    again = λ a' b' u e. refl;
  }
  verify_files-AllChecked a b (c ∷ cs) s t x h =
      let (y, v, h1, h2) = >>=-ok (verify_file p a b c) (λ _. verify_files p a b cs) s t x h in
      let k = verify_file-Checked a b c s v y h1 in
      let below = verify_files-AllChecked a b cs v t x h2 in
      record {
        same = below.same ∙ k.same;
        files = (k.file, subst (λ w. All (HasFile p w.files) cs) k.same below.files);
        again = λ a' b' u e.
            ap (λ w. bind_result (λ _. verify_files p a' b' cs) w.0 w.1)
              (verify_file-again a' b' c s v u k e)
            ∙ below.again a' b' u (e ∙ ap (λ (w : State). w.files) (sym k.same));
      }
