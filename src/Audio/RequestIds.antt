-- ===== src/Audio/RequestIds.antt =====
-- The request identifiers of apps/web/src/audio/audio-upload-job.ts, by which the server knows a
-- chunk that is sent again.
use elder_interview_ai.Prelude.{
  ◌≡◌, refl, ap, ◌∙◌, String, List, [], ◌∷◌, Option, none, some, arith, All, eq_iff,
}
use elder_interview_ai.Prelude.Map.{get, set, get-set}
use elder_interview_ai.Prelude.Text.{decimal}
use elder_interview_ai.Prelude.Action.{
  Result, ok, err, catch_result, ◌>>=◌, ◌>>◌, throw, require, catch, >>=-ok,
}
use elder_interview_ai.Audio.Types.{BufferedAudioChunk, Thrown, error}
use elder_interview_ai.Audio.Store.{mark_uploading, mark_failed}
use elder_interview_ai.Audio.Job.{AudioUploadJob}
use elder_interview_ai.Audio.Client.{Platform, Client, ClientAction, on_store, assign, error_code}
use elder_interview_ai.Audio.Upload.{with_request_id, send_chunk, upload_chunk, upload_chunks}

-- The later job has every request identifier that the earlier one has.
abbrev pub Keeps : AudioUploadJob → AudioUploadJob → Type 0
Keeps job later =
    (key id : String)
    → get key job.chunk_request_ids ≡ some id
    → get key later.chunk_request_ids ≡ some id

-- The chunk has a request identifier.
abbrev pub IsNamed : AudioUploadJob → BufferedAudioChunk → Type 0
IsNamed job r = (id : String) × (get (decimal r.chunk.sequence_no) job.chunk_request_ids ≡ some id)

module _ (p : Platform) where
  with_request_id-Keeps :
      (job : AudioUploadJob) (key : String) (o : Option String) (c d : Client)
      (x : AudioUploadJob × String)
      → get key job.chunk_request_ids ≡ o
      → with_request_id p job key o c ≡ (ok x, d)
      → Keeps job x.0 × (get key x.0.chunk_request_ids ≡ some x.1)
  with_request_id-Keeps job key (some id) c d x e h = (λ k i q. ground arith, ground arith)
  with_request_id-Keeps job key none c d x e h =
      let ids = job.chunk_request_ids in
      let updated : x.0.chunk_request_ids ≡ set key (p.request_id c.drawn) ids = ground arith in
      let name : x.1 ≡ p.request_id c.drawn = ground arith in
      (
        λ k i q.
            ap (get k) updated
            ∙ ground (arith, get-set key (p.request_id c.drawn) k ids, eq_iff key k),
        ap (get key) updated
            ∙ ground (arith, name, get-set key (p.request_id c.drawn) key ids, eq_iff key key),
      )

  send_chunk-ok :
      (object : String) (r : BufferedAudioChunk) (csrf_token : String) (job later : AudioUploadJob)
      (id : String) (c d : Client)
      → send_chunk p object r csrf_token job id c ≡ (ok later, d)
      → later ≡ job
  unfolding send_chunk
  send_chunk-ok object r csrf_token job later id c d h = ground arith

  refails :
      (job later : AudioUploadJob) (r : BufferedAudioChunk) (e : Thrown) (c d : Client)
      → ¬ (
          (on_store (mark_failed job.buffer_session_id r.chunk.sequence_no (error_code e))
              >> throw e)
            c
          ≡ (ok later, d))
  refails job later r e c d h = ground arith

  caught :
      (job later : AudioUploadJob) (r : BufferedAudioChunk) (o : Result Thrown AudioUploadJob)
      (c d : Client)
      → catch_result
          (λ e.
            on_store (mark_failed job.buffer_session_id r.chunk.sequence_no (error_code e))
            >> throw e)
          o
          c
        ≡ (ok later, d)
      → (o ≡ ok later) × (c ≡ d)
  caught job later r (ok a) c d h = (cc, cc)
  caught job later r (err e) c d h = absurd (refails job later r e c d h)

  upload_chunk-Keeps :
      (job later : AudioUploadJob) (r : BufferedAudioChunk) (csrf_token : String) (c d : Client)
      → upload_chunk p job r csrf_token c ≡ (ok later, d)
      → Keeps job later × IsNamed later r
  unfolding upload_chunk
  upload_chunk-Keeps job later r csrf_token c d h =
      let key = decimal r.chunk.sequence_no in
      let retry : Thrown → ClientAction AudioUploadJob = λ e.
        on_store (mark_failed job.buffer_session_id r.chunk.sequence_no (error_code e))
        >> throw e in
      let send : String → AudioUploadJob × String → ClientAction AudioUploadJob = λ object x.
        on_store (mark_uploading job.buffer_session_id r.chunk.sequence_no)
        >> catch (send_chunk p object r csrf_token x.0 x.1) retry in
      let naming = with_request_id p job key (get key job.chunk_request_ids) in
      let (object, c1, p1, h1) =
        >>=-ok (require job.audio_object_id (error "AUDIO_OBJECT_MISSING"))
          (λ object. naming >>= send object) c d later h in
      let (x, c2, p2, h2) = >>=-ok naming (send object) c1 d later h1 in
      let (y, c3, p3, h3) =
        >>=-ok (on_store (mark_uploading job.buffer_session_id r.chunk.sequence_no))
          (λ _. catch (send_chunk p object r csrf_token x.0 x.1) retry) c2 d later h2 in
      let one = send_chunk p object r csrf_token x.0 x.1 c3 in
      let (q, e) = caught job later r one.0 one.1 d h3 in
      let same = send_chunk-ok object r csrf_token x.0 later x.1 c3 d cc in
      let (keeps, named) =
        with_request_id-Keeps job key (get key job.chunk_request_ids) c1 c2 x refl p2 in
      (
        λ k i g. ap (λ (j : AudioUploadJob). get k j.chunk_request_ids) same ∙ keeps k i g,
        (x.1, ap (λ (j : AudioUploadJob). get key j.chunk_request_ids) same ∙ named),
      )

  -- The upload of pending chunks, if it succeeds, leaves every chunk with a request identifier and
  -- changes no identifier that the job had.
  pub upload_chunks-Keeps :
      (rs : List BufferedAudioChunk) (job later : AudioUploadJob) (csrf_token : String)
      (c d : Client)
      → upload_chunks p job rs csrf_token c ≡ (ok later, d)
      → Keeps job later × All (IsNamed later) rs
  unfolding upload_chunks
  upload_chunks-Keeps [] job later csrf_token c d h = (λ k i q. ground arith, tt)
  upload_chunks-Keeps (r ∷ rs) job later csrf_token c d h =
      let rest : AudioUploadJob → ClientAction AudioUploadJob =
        λ next. upload_chunks p next rs csrf_token in
      let (next, c1, p1, h1) =
        >>=-ok (upload_chunk p job r csrf_token) (λ next. assign next >> rest next) c d later h in
      let (keeps, (id, named)) = upload_chunk-Keeps job next r csrf_token c c1 p1 in
      let assigned : Client = record c1 { variable = some next } in
      let (later_keeps, others) = upload_chunks-Keeps rs next later csrf_token assigned d h1 in
      (
        λ k i q. later_keeps k i (keeps k i q),
        ((id, later_keeps (decimal r.chunk.sequence_no) id named), others),
      )
