-- ===== src/Lib.antt =====
-- The core of an interview assistant for elders: what keeps a recording safe in the browser, brings
-- it to the server, transcribes it live, and checks the questions that are asked.
--
-- The program's parts and how they interact. The web client records an interview. Each piece of the
-- recording goes through the chunk queue into a store in the browser; an upload job, kept beside it,
-- brings the pieces to the server piece by piece, and asks for a manifest at the end. At the same time
-- the client streams frames over a socket and receives the transcript. On the server the capture
-- service opens, confirms, interrupts, resumes and abandons the generations of a capture, the audio
-- service keeps the pieces and checks that they are whole, and session finalization ends the interview
-- once they are. Before any interview, a file of questions is imported into the question bank.
--
-- Which file models which part (paths from the repository's root):
--
-- - Prelude: tests, lists, integers, maps, sorting, text, and calls that keep a state and may throw.
-- - Realtime: apps/web/src/realtime-transcription/realtime-transport.ts. Realtime/Transport has the
--   fields of the class, Realtime/Incoming its handling of server messages, Realtime/Lifecycle the
--   sockets, timers and sending, and Realtime/Machine runs it on any order of calls, events and late
--   digests. sendPcmFrame waits for a digest, so it is two steps.
-- - Audio/Types, Audio/Store: apps/web/src/audio/in-memory-audio-chunk-store.ts with types.ts and
--   errors.ts. A Map is an association list in the order of insertion.
-- - Audio/Queue: apps/web/src/audio/audio-chunk-queue.ts.
-- - Audio/Job, Audio/JobStore: the records of apps/web/src/audio/types.ts and
--   InMemoryAudioUploadJobStore of audio-upload-job.ts.
-- - Audio/Client, Audio/Upload: AudioUploadJobRunner of audio-upload-job.ts. The server and the network
--   are a parameter, any function of the requests sent so far.
-- - Audio/Pump: apps/web/src/audio/sequential-delivery-pump.ts.
-- - AudioServer/Tables, Storage, Access, Service, Complete: apps/api/src/audio, the server's end of the
--   upload: audio.service.ts over the tables, the stored files of local-audio-storage.adapter.ts, and
--   audio-integrity.service.ts. AudioServer/Runs is any sequence of its calls, and AudioServer/Protocol
--   puts its answers, mapped by audio.mapper.ts, before the client's tests. A transaction takes back the
--   tables and not the files. The upload job's server stays a parameter: the two ends meet in Protocol.
-- - QuestionBank/Csv, Fields, Rows, Validate: apps/api/src/question-bank/question-bank.csv.ts, with
--   the vocabularies of question-bank.types.ts in QuestionBank/Types. Text is UTF-16 code units.
-- - Capture/Tables, Common, Service, Abandon, Resume (with what a call keeps in Extends, Quiet, Ends):
--   apps/api/src/project-foundation/session-capture.service.ts, with session-snapshot.service.ts and
--   the role check of apps/api/src/auth/resource-authorization.service.ts. A table is a list of rows, a
--   transaction takes back what it wrote when it throws, but not what the runtime was told, and
--   Prisma's own errors are the two failures for a missing row and for a repeated unique value.
-- - Runtime/Session, Runtime/Service: apps/api/src/realtime-transcription/realtime-runtime.service.ts,
--   the server's end of the socket. A runtime is an object that callers keep, so it is an index into the
--   list of all that were made. Runtime/Gateway: frames and acknowledgements of realtime.gateway.ts;
--   a frame waits for the provider, so it is two steps, and several can wait at once, since a connection
--   has its own queue until it has joined. Runtime/Rejoin puts both ends together.
-- - Finalization/Tables, Access, Freeze, Advance:
--   apps/api/src/project-foundation/session-finalization.service.ts. A stop fixes the commitments to
--   every piece of the recording; a finalization goes on once the audio is whole. The speech service
--   drains in between, so an advance is two steps, and Finalization/Ends runs them in any order. The
--   audio objects and chunks are the rows of AudioServer/Tables, which this part only reads.
-- - Auth/Throttle: apps/api/src/auth/login-throttle.service.ts, the attempts to log in. Auth/Attempts
--   runs attempts and successes in any order, Auth/Guesses counts the attempts that are allowed.
--
-- Bounds and fuel. Loops are by recursion on the list they run over. The only fuel is in the decimal
-- digits of a number, which gets one more than the number. Sequence numbers are checked against
-- 2 ^ 53 as the source does. Times are whole numbers.
--
-- What is not modelled. The asynchronous calls of the store, the queue, the upload job and the capture
-- service run one at a time, as the advisory locks make them on the server; the transport is the part
-- whose events interleave. The platform's functions (digests, base64, text encoding, comparison by
-- locale, clocks, identifiers), the decision on a project's consent and the mapping of a snapshot to a
-- response are parameters or left as their arguments. Of session finalization, the recovery of a stopped
-- session and the two reads are not modelled. User interface, wire types, the IndexedDB store,
-- the AI runtime and the rest of the server are not modelled.
pub mod Audio
pub mod AudioServer
pub mod Auth
pub mod Capture
pub mod Finalization
pub mod Prelude
pub mod QuestionBank
pub mod Realtime
pub mod Runtime
