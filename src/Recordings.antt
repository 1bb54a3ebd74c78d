-- ===== src/Recordings.antt =====
-- bots/models.py, RecordingStates, RecordingTranscriptionStates, RecordingTypes, Utterance,
-- Recording and RecordingManager. An operation reads the row afresh, so it is a function of the row; it
-- returns the new row and what it defers to the commit of the transaction. `stale` tells whether
-- another process writes the row between the read and the write; `now` is the clock.
pub mod Terminate
pub mod Invariant
pub mod Termination
use attendee.Base.{
  ℕ, String, Bool, ◌&&◌, ◌||◌, not, Option, none, some, List, [], ◌∷◌, ◌==◌, if◌then◌else◌, count,
}
use attendee.Base.Outcome.{ok, ◌>>=◌, ◌>>◌, require}
use attendee.Errors.{Result, value_error, save}

pub data RecordingState : Type 0 where
  not_started in_progress complete failed paused : RecordingState

abbrev pub value : RecordingState → ℕ
value not_started = 1
value in_progress = 2
value complete = 3
value failed = 4
value paused = 5

-- `recording.state == other`
abbrev pub is : RecordingState → RecordingState → Bool
is s other = value s == value other

pub data TranscriptionState : Type 0 where
  not_started in_progress complete failed : TranscriptionState

abbrev pub transcription_value : TranscriptionState → ℕ
transcription_value TranscriptionState.not_started = 1
transcription_value TranscriptionState.in_progress = 2
transcription_value TranscriptionState.complete = 3
transcription_value TranscriptionState.failed = 4

-- `recording.transcription_state == other`
abbrev pub transcription_is : TranscriptionState → TranscriptionState → Bool
transcription_is s other = transcription_value s == transcription_value other

pub data RecordingType : Type 0 where
  audio_and_video audio_only no_recording : RecordingType

-- A clip. `failure_data` is null, or a dict which may have the key `reason`.
pub record Utterance : Type 0 where
  pub has_transcription : Bool
  pub failure_data : Option (Option String)

pub record Recording : Type 0 where
  pub is_default_recording : Bool
  pub state : RecordingState
  pub transcription_state : TranscriptionState
  -- Null, or the list under `failure_reasons`.
  pub transcription_failure_data : Option (List String)
  pub started_at : Option ℕ
  pub completed_at : Option ℕ
  pub has_file : Bool
  pub utterances : List Utterance

-- Tasks that run once the transaction commits.
pub data Deferred : Type 0 where
  generate_meeting_summary : Deferred

abbrev pub Saved : Type 0
Saved = Recording × List Deferred

unfoldable pub set_recording_in_progress : Bool → ℕ → Recording → Result Saved
set_recording_in_progress stale now r =
    if is r.state RecordingState.in_progress then ok (r, []) else do
      require (is r.state RecordingState.not_started || is r.state RecordingState.paused)
          value_error
      let started = if is r.state RecordingState.paused then r.started_at else some now
      saved ← save stale (record r { started_at = started; state = RecordingState.in_progress })
      ok (saved, [])

unfoldable pub set_recording_paused : Bool → Recording → Result Saved
set_recording_paused stale r = if is r.state RecordingState.paused then ok (r, []) else do
  require (is r.state RecordingState.in_progress) value_error
  saved ← save stale (record r { state = RecordingState.paused })
  ok (saved, [])

unfoldable pub set_recording_transcription_complete : Bool → Recording → Result Saved
set_recording_transcription_complete stale r =
    if transcription_is r.transcription_state TranscriptionState.complete then ok (r, []) else do
      require (transcription_is r.transcription_state TranscriptionState.in_progress) value_error
      require (is r.state RecordingState.complete || is r.state RecordingState.failed) value_error
      saved ← save stale (record r { transcription_state = TranscriptionState.complete })
      ok (saved, if r.is_default_recording then generate_meeting_summary ∷ [] else [])

-- `Utterance.objects.filter(recording=recording, transcription__isnull=True).count()`
abbrev pub untranscribed : Recording → ℕ
untranscribed r = count (λ u. not (u.has_transcription)) r.utterances

unfoldable pub set_recording_complete : Bool → ℕ → Recording → Result Saved
unfolding set_recording_transcription_complete
set_recording_complete stale now r = if is r.state RecordingState.complete then ok (r, []) else do
  require (is r.state RecordingState.in_progress || is r.state RecordingState.paused) value_error
  saved ← save stale (record r { state = RecordingState.complete; completed_at = some now })
  if transcription_is r.transcription_state TranscriptionState.in_progress && untranscribed r == 0
      then set_recording_transcription_complete stale saved
      else ok (saved, [])

unfoldable pub set_recording_failed : Bool → Recording → Result Saved
set_recording_failed stale r = if is r.state RecordingState.failed then ok (r, []) else do
  require (is r.state RecordingState.in_progress || is r.state RecordingState.paused) value_error
  saved ← save stale (record r { state = RecordingState.failed })
  ok (saved, [])

-- The recording has been started: the guard of two transcription operations.
abbrev pub has_begun : RecordingState → Bool
has_begun s =
    is s RecordingState.complete
    || is s RecordingState.failed
    || is s RecordingState.in_progress
    || is s RecordingState.paused

unfoldable pub set_recording_transcription_in_progress : Bool → Recording → Result Saved
set_recording_transcription_in_progress stale r =
    if transcription_is r.transcription_state TranscriptionState.in_progress then ok (r, []) else do
      require (transcription_is r.transcription_state TranscriptionState.not_started) value_error
      require (has_begun r.state) value_error
      saved ← save stale (record r { transcription_state = TranscriptionState.in_progress })
      ok (saved, [])

unfoldable pub set_recording_transcription_failed : Bool → List String → Recording → Result Saved
set_recording_transcription_failed stale failure_data r =
    if transcription_is r.transcription_state TranscriptionState.failed then ok (r, []) else do
      require (transcription_is r.transcription_state TranscriptionState.in_progress) value_error
      require (has_begun r.state) value_error
      saved ← save stale (record r {
        transcription_state = TranscriptionState.failed;
        transcription_failure_data = some failure_data;
      })
      ok (saved, [])

unfoldable pub set_recording_transcription_failed_to_in_progress_for_retry :
    Bool → Recording → Result Saved
set_recording_transcription_failed_to_in_progress_for_retry stale r = do
  require (transcription_is r.transcription_state TranscriptionState.failed) value_error
  saved ← save stale (record r {
    transcription_state = TranscriptionState.in_progress;
    transcription_failure_data = none;
  })
  ok (saved, [])

abbrev pub is_terminal_state : RecordingState → Bool
is_terminal_state s = is s RecordingState.complete || is s RecordingState.failed
