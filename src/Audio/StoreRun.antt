-- ===== src/Audio/StoreRun.antt =====
-- Sequences of calls of the store of apps/web/src/audio/in-memory-audio-chunk-store.ts.
use elder_interview_ai.Prelude.{ℕ, String, List, [], ◌∷◌}
use elder_interview_ai.Audio.Types.{BufferedAudioChunk, BrowserCaptureCheckpoint}
use elder_interview_ai.Audio.Store.{
  Store, acknowledge, mark_failed, mark_uploading, persist_immutable, put_capture_checkpoint,
}

-- The calls that change the store.
pub data StoreCall : Type 0 where
  acknowledges : (session_id : String) (sequence_no : ℕ) (checksum : String) → StoreCall
  marks_failed : (session_id : String) (sequence_no : ℕ) (code : String) → StoreCall
  marks_uploading : (session_id : String) (sequence_no : ℕ) → StoreCall
  persists : BufferedAudioChunk → StoreCall
  puts_checkpoint : BrowserCaptureCheckpoint → StoreCall

-- The store after a call; `maximum` is the queue's bound.
abbrev pub call : ℕ → StoreCall → Store → Store
call maximum (acknowledges session_id n checksum) s = (acknowledge session_id n checksum s).1
call maximum (marks_failed session_id n code) s = (mark_failed session_id n code s).1
call maximum (marks_uploading session_id n) s = (mark_uploading session_id n s).1
call maximum (persists r) s = (persist_immutable r maximum s).1
call maximum (puts_checkpoint c) s = put_capture_checkpoint c s

unfoldable pub calls : ℕ → List StoreCall → Store → Store
calls maximum [] s = s
calls maximum (c ∷ cs) s = calls maximum cs (call maximum c s)
