-- ===== src/Audio/Client.antt =====
-- What the upload of a recording works on: the chunk store, the job store, the requests already
-- sent and the identifiers already drawn. The server, the network and `randomUUID` are parameters:
-- the reply to a request is any function of all the requests so far.
use elder_interview_ai.Prelude.{ℕ, suc, String, List, ◌∷◌, Option, some, if◌then◌else◌, ◌==◌}
use elder_interview_ai.Prelude.Map.{Map}
use elder_interview_ai.Prelude.Action.{Action, ◌>>=◌, ◌>>◌, pure, throw, gets, modify}
use elder_interview_ai.Prelude.Text.{◌^^◌, decimal}
use elder_interview_ai.Audio.Types.{Thrown, error, message}
use elder_interview_ai.Audio.Store.{Store}
use elder_interview_ai.Audio.Queue.{StoreAction}
use elder_interview_ai.Audio.Job.{AudioUploadJob, StoredRecord}
use elder_interview_ai.Audio.JobStore.{JobAction}

-- The requests that the code sends, each with what its URL, headers and body carry.
pub data Request : Type 0 where
  create_object :
      (project_id mime_type purpose request_id : String) (session_id : Option String)
      (csrf_token : String)
      → Request
  put_chunk :
      (audio_object_id : String) (sequence_no : ℕ) (body : List ℕ) (mime_type : String) (end_ms : ℕ)
      (checksum : String) (start_ms : ℕ) (csrf_token request_id : String)
      → Request
  complete_object :
      (audio_object_id : String) (expected_chunk_count : ℕ) (request_id csrf_token : String)
      → Request

-- The fields of `AudioObjectResponse`, `AudioChunkResponse` and `AudioManifestResponse` that the
-- code reads.
pub record AudioObjectResponse : Type 0 where
  pub id : String
  pub project_id : String
  pub purpose : String
  pub session_id : Option String
  pub mime_type : String
  pub status : String

pub record AudioChunkResponse : Type 0 where
  pub audio_object_id : String
  pub sequence_no : ℕ
  pub start_ms : ℕ
  pub end_ms : ℕ
  pub size_bytes : ℕ
  pub checksum : String
  pub mime_type : String
  pub upload_status : String

pub record AudioManifestResponse : Type 0 where
  pub id : String
  pub status : String
  pub chunk_count : ℕ
  pub manifest_checksum : Option String

-- `fetch` or `json` rejects, the status is not in 200 to 299, or there is a body.
pub data Reply (A : Type 0) : Type 0 where
  rejected : Thrown → Reply A
  not_ok : (status : ℕ) → Reply A
  body : A → Reply A

-- The requests are given newest first.
pub record Platform : Type 0 where
  pub created : List Request → Reply AudioObjectResponse
  pub chunk_stored : List Request → Reply AudioChunkResponse
  pub completed : List Request → Reply AudioManifestResponse
  pub request_id : ℕ → String

-- `variable` is what the variable `job` of `resume` holds when an error is caught.
pub record Client : Type 0 where
  pub store : Store
  pub jobs : Map StoredRecord
  pub sent : List Request
  pub drawn : ℕ
  pub variable : Option AudioUploadJob

abbrev pub ClientAction : Type 0 → Type 0
ClientAction A = Action Client Thrown A

module _ {A : Type 0} where
  abbrev pub on_store : StoreAction A → ClientAction A
  on_store m c = ((m c.store).0, record c { store = (m c.store).1 })

  abbrev pub on_jobs : JobAction A → ClientAction A
  on_jobs m c = ((m c.jobs).0, record c { jobs = (m c.jobs).1 })

  -- `readJson`
  abbrev pub read_json : Reply A → ClientAction A
  read_json (rejected e) = throw e
  read_json (not_ok status) = throw (error ("HTTP_" ^^ decimal status))
  read_json (body a) = pure a

  -- `fetch`, then `readJson`
  abbrev pub fetch_json : (List Request → Reply A) → Request → ClientAction A
  fetch_json server r = do
    modify (λ c. record c { sent = r ∷ c.sent })
    sent ← gets (λ c. c.sent)
    read_json (server sent)

abbrev pub draw_request_id : Platform → ClientAction String
draw_request_id p = do
  n ← gets (λ c. c.drawn)
  modify (λ c. record c { drawn = suc n })
  pure (p.request_id n)

abbrev pub assign : AudioUploadJob → ClientAction (Unit {0})
assign job = modify (λ c. record c { variable = some job })

-- `errorCode`
abbrev pub error_code : Thrown → String
error_code e = if message e == "" then "UPLOAD_FAILED" else message e
