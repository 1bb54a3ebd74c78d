-- ===== src/Utterances.antt =====
-- bots/tasks/process_utterance_task.py, process_utterance, and is_retryable_failure of
-- bots/transcription_utils.py: the transcription of one utterance, which the queue runs again after an
-- exception. What the provider answers is an argument.
pub mod Settled
pub mod Retry
pub mod Waiting
use attendee.Base.{
  ℕ, ◌+◌, Bool, true, false, not, ◌&&◌, Option, none, some, List, [], ◌∷◌, ◌++◌, if◌then◌else◌, ltb,
  count, ◌==◌, is_some, String,
}
use attendee.Base.Outcome.{Outcome, ok, raise}
use attendee.Errors.{Result}
use attendee.Recordings.{
  Recording, RecordingState, is, TranscriptionState, transcription_is, Deferred, Saved,
  is_terminal_state, set_recording_transcription_complete, set_recording_transcription_failed,
}

-- `TranscriptionFailureReasons`, those of an utterance.
pub data FailureReason : Type 0 where
  credentials_not_found credentials_invalid rate_limit_exceeded audio_upload_failed : FailureReason
  transcription_request_failed timed_out internal_error : FailureReason

unfoldable pub is_retryable_failure : FailureReason → Bool
is_retryable_failure credentials_not_found = false
is_retryable_failure credentials_invalid = false
is_retryable_failure rate_limit_exceeded = true
is_retryable_failure audio_upload_failed = true
is_retryable_failure transcription_request_failed = true
is_retryable_failure timed_out = true
is_retryable_failure internal_error = true

-- What `get_transcription` gives: a transcript, which may be empty, or a failure. Its exceptions are
-- failures.
pub data Answer : Type 0 where
  transcript : Bool → Answer
  failure : FailureReason → Answer

-- The utterance with its recording: whether its audio chunk has data (the old column for audio is left
-- out), whether each other utterance of the recording has a transcription, how many webhooks were triggered
-- for a transcript, and the tasks queued.
pub record Desk : Type 0 where
  pub has_transcription : Bool
  pub failure_data : Option FailureReason
  pub transcription_attempt_count : ℕ
  pub is_async : Bool
  pub has_audio : Bool
  pub recording : Recording
  pub others_transcribed : List Bool
  pub transcript_updates : ℕ
  pub deferred : List Deferred

-- One run: the answer, whether the bot keeps its audio for later transcriptions, whether another process
-- writes the recording when it is saved, and the reasons of all failures of the recording.
pub record Run : Type 0 where
  pub answer : Answer
  pub keeps_audio : Bool
  pub stale : Bool
  pub failure_reasons : List String

-- A run ends, or raises after what it has written.
pub data End : Type 0 where
  returned raised : Desk → End

abbrev pub desk_of : End → Desk
desk_of (returned d) = d
desk_of (raised d) = d

-- What a call of RecordingManager leaves.
abbrev pub with_saved : Desk → Result Saved → End
with_saved d (ok r) = returned (record d { recording = r.0; deferred = d.deferred ++ r.1 })
with_saved d (raise e) = raised d

abbrev pub is_over : Desk → Bool
is_over d = is_terminal_state d.recording.state

abbrev pub untranscribed : Desk → ℕ
untranscribed d = count (λ b. not b) (d.has_transcription ∷ d.others_transcribed)

-- The end of the task, for the recording.
unfoldable pub finish_recording : Run → Desk → End
unfolding set_recording_transcription_complete
finish_recording run d =
    if d.is_async
    then returned d
    else if is_over d && untranscribed d == 0
    then with_saved d (set_recording_transcription_complete run.stale d.recording)
    else returned d

unfoldable pub store_transcript : Run → Bool → Desk → Desk
store_transcript run has_text d = record d {
  has_transcription = true;
  has_audio = if run.keeps_audio then d.has_audio else false;
  transcript_updates =
      if has_text && not (d.is_async) then d.transcript_updates + 1 else d.transcript_updates;
}

unfoldable pub store_failure : Run → FailureReason → Desk → End
unfolding set_recording_transcription_failed
store_failure run reason d =
    let d' = record d { failure_data = some reason } in
    if not (d.is_async)
      && is_over d
      && transcription_is d.recording.transcription_state TranscriptionState.in_progress
    then with_saved d'
        (set_recording_transcription_failed run.stale run.failure_reasons d.recording)
    else returned d'

unfoldable pub fail_run : Run → FailureReason → Desk → End
unfolding store_failure is_retryable_failure
fail_run run reason d =
    if ltb d.transcription_attempt_count 5 && is_retryable_failure reason
    then raised d
    else store_failure run reason d

unfoldable pub transcribe : Answer → Run → Desk → End
unfolding store_transcript fail_run finish_recording
transcribe (transcript has_text) run d = finish_recording run (store_transcript run has_text d)
transcribe (failure reason) run d = fail_run run reason d

unfoldable pub process_utterance : Run → Desk → End
unfolding transcribe finish_recording
process_utterance run d =
    if is_some d.failure_data
    then returned d
    else if d.has_transcription
    then finish_recording run d
    else transcribe run.answer run
        (record d { transcription_attempt_count = d.transcription_attempt_count + 1 })

-- Some runs of the task, whatever their ends. The queue runs a task that raises again up to six times.
unfoldable pub process_runs : List Run → Desk → Desk
unfolding process_utterance
process_runs [] d = d
process_runs (run ∷ runs) d = process_runs runs (desk_of (process_utterance run d))
