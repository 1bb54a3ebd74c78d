-- ===== src/Recordings/Terminate.antt =====
-- bots/models.py, RecordingManager.terminate_recording and Bot.recording_type: how a recording ends
-- when its bot ends.
use text.Mathlib.Text.{◌==◌ as str_eq}
use attendee.Base.{
  ℕ, String, Bool, true, false, ◌&&◌, ◌||◌, not, none, some, List, [], ◌∷◌, ◌++◌, if◌then◌else◌,
  is_some, any,
}
use attendee.Base.Outcome.{ok, raise, ◌>>=◌}
use attendee.Errors.{Result, value_error}
use attendee.Recordings.{
  RecordingState, is, TranscriptionState, transcription_is, RecordingType, audio_and_video,
  audio_only, no_recording, Utterance, Recording, Saved, set_recording_complete,
  set_recording_failed, set_recording_transcription_complete, set_recording_transcription_failed,
}

-- `Bot.recording_type`, of the text that `recording_format` gives.
unfoldable pub recording_type : String → Result RecordingType
recording_type format =
    if str_eq format "mp4" || str_eq format "webm"
    then ok audio_and_video
    else if str_eq format "mp3"
    then ok audio_only
    else if str_eq format "none"
    then ok no_recording
    else raise value_error

abbrev pub is_no_recording : RecordingType → Bool
is_no_recording no_recording = true
is_no_recording t = false

-- `transcription__isnull=True, failure_data__isnull=True`
abbrev pub is_in_progress : Utterance → Bool
is_in_progress u = not (u.has_transcription) && not (is_some u.failure_data)

-- `failure_data__isnull=False`
abbrev pub is_failed : Utterance → Bool
is_failed u = is_some u.failure_data

-- The reasons of the utterances whose failure data has one.
abbrev pub reasons : List Utterance → List String
reasons [] = []
reasons (u ∷ us) =
    let rest = reasons us in
    elim u.failure_data [
      | none ↦ rest
      | some data' ↦ elim data' [ none ↦ rest | some reason ↦ reason ∷ rest ]
    ]

abbrev mem : String → List String → Bool
mem s [] = false
mem s (t ∷ ts) = str_eq s t || mem s ts

-- `.distinct()`. The database gives no order; the model keeps the last of equal reasons.
abbrev pub distinct : List String → List String
distinct [] = []
distinct (s ∷ ss) = let rest = distinct ss in if mem s rest then rest else s ∷ rest

abbrev pub still_in_progress : String
still_in_progress = "utterances_still_in_progress_when_recording_terminated"

unfoldable pub failure_reasons : List Utterance → List String
failure_reasons us =
    if any is_in_progress us
    then distinct (reasons us) ++ still_in_progress ∷ []
    else distinct (reasons us)

-- The first half: the recording itself.
unfoldable pub end_recording : Bool → ℕ → String → Recording → Result Saved
unfolding set_recording_complete set_recording_failed recording_type
end_recording stale now format r =
    if is r.state RecordingState.in_progress || is r.state RecordingState.paused
    then if r.has_file
      then set_recording_complete stale now r
      else (recording_type format >>= λ t.
          if is_no_recording t
          then set_recording_complete stale now r
          else set_recording_failed stale r)
    else ok (r, [])

-- The second half: its transcription.
unfoldable pub end_transcription : Bool → Recording → Result Saved
unfolding set_recording_transcription_complete set_recording_transcription_failed
end_transcription stale r =
    if transcription_is r.transcription_state TranscriptionState.in_progress
    then if any is_failed r.utterances || any is_in_progress r.utterances
      then set_recording_transcription_failed stale (failure_reasons r.utterances) r
      else set_recording_transcription_complete stale r
    else ok (r, [])

unfoldable pub terminate_recording : Bool → ℕ → String → Recording → Result Saved
terminate_recording stale now format r = do
  ended ← end_recording stale now format r
  transcribed ← end_transcription stale ended.0
  ok (transcribed.0, ended.1 ++ transcribed.1)
