-- ===== src/AudioServer/Storage.antt =====
-- `LocalAudioStorageAdapter` of apps/api/src/audio/local-audio-storage.adapter.ts. A file appears at
-- its place by a link, so it is there with all its bytes or not at all. Two writes of one key do not
-- race: the lock on the audio object orders them.
use elder_interview_ai.Prelude.{
  ℕ, zero, suc, Bool, false, not, ◌&&◌, ◌||◌, String, List, [], ◌∷◌, Option, none, some,
  if◌then◌else◌, eqb, leb, length,
}
use elder_interview_ai.Prelude.Text.{codes}
use elder_interview_ai.Prelude.Map.{get, set}
use elder_interview_ai.Prelude.Action.{◌>>=◌, ◌>>◌, pure, throw, throw_if, gets, modify, catch}
use elder_interview_ai.AudioServer.Tables.{
  Failure, thrown, object_missing, disk, Call, Written, kept, lost, uncleaned, Platform,
}

pub record StoredAudioChunk : Type 0 where
  pub checksum : String
  pub size_bytes : ℕ

abbrev is_digit : ℕ → Bool
is_digit c = leb b'0' c && leb c b'9'

abbrev is_id_code : ℕ → Bool
is_id_code c = is_digit c || (leb b'a' c && leb c b'f') || eqb c b'-'

-- `[0-9]*\.bin$`, and with a digit before it.
is_number_tail : List ℕ → Bool
is_number_tail [] = false
is_number_tail (c ∷ cs) =
    let rest = is_number_tail cs in if is_digit c then rest else eqb c b'.' && is_bin cs
  where
    is_bin : List ℕ → Bool
    is_bin (b ∷ i ∷ n ∷ []) = eqb b b'b' && eqb i b'i' && eqb n b'n'
    is_bin _ = false

is_number_name : List ℕ → Bool
is_number_name [] = false
is_number_name (c ∷ cs) = is_digit c && is_number_tail cs

is_key_from : ℕ → List ℕ → Bool
is_key_from n [] = false
is_key_from zero (c ∷ cs) = eqb c b'/' && is_number_name cs
is_key_from (suc n) (c ∷ cs) = is_id_code c && is_key_from n cs

-- `/^[0-9a-f-]{36}\/[0-9]+\.bin$/`, the test of `pathFor`. Such a key stays below the root.
unfoldable pub is_object_key : String → Bool
unfolding is_key_from is_number_name is_number_tail
is_object_key key = is_key_from 36 (codes key)

module _ (p : Platform) where
  abbrev pub stored_of : List ℕ → StoredAudioChunk
  stored_of bytes = record { checksum = p.sha256 bytes; size_bytes = length bytes }

  abbrev pub read_file : String → Option (List ℕ) → Call StoredAudioChunk
  read_file key none = throw object_missing
  read_file key (some bytes) = do throw_if (p.read_fails key) disk; pure (stored_of bytes)

  -- `inspect`
  unfoldable pub inspect : String → Call StoredAudioChunk
  inspect key = do
    throw_if (not (is_object_key key)) (thrown "Invalid internal audio object key")
    found ← gets (λ s. get key s.files)
    read_file key found

  abbrev pub link : String → List ℕ → Written → Call (Unit {0})
  link key bytes lost = throw disk
  link key bytes kept = modify (λ s. record s { files = set key bytes s.files })
  link key bytes uncleaned = do modify (λ s. record s { files = set key bytes s.files }); throw disk

  abbrev pub write_file : String → List ℕ → Call StoredAudioChunk
  write_file key bytes = do link key bytes (p.written key); pure (stored_of bytes)

  abbrev pub write_if_missing : String → List ℕ → Failure → Call StoredAudioChunk
  write_if_missing key bytes object_missing = write_file key bytes
  write_if_missing key bytes e = throw e

  -- `putImmutable`: what is there stays.
  unfoldable pub put_immutable : String → List ℕ → Call StoredAudioChunk
  put_immutable key bytes = catch (inspect key) (write_if_missing key bytes)
