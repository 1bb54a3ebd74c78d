-- ===== src/Recordings/Termination.antt =====
-- bots/models.py, RecordingManager.terminate_recording, beside a table of what is expected of it.
use attendee.Base.{
  ℕ, String, ◌≡◌, refl, Bool, true, false, ◌&&◌, ◌||◌, not, Option, some, List, [], ◌∷◌, any, count,
  is_some, arith,
}
use attendee.Base.Outcome.{ok}
use attendee.Recordings.{
  RecordingState, TranscriptionState, is, RecordingType, Utterance, Recording, Deferred,
  generate_meeting_summary,
}
use attendee.Recordings.Terminate.{
  recording_type, is_no_recording, is_in_progress, is_failed, failure_reasons, end_recording,
  end_transcription, terminate_recording,
}

-- No utterance has both a transcription and a failure.
abbrev pub IsSettledOnce : List Utterance → Type 0
IsSettledOnce [] = Unit
IsSettledOnce (u ∷ us) = (u.has_transcription && is_some u.failure_data ≡ false) × IsSettledOnce us

-- Some utterance failed, or still waits for its transcription.
abbrev pub has_loose_ends : Recording → Bool
has_loose_ends r = any is_failed r.utterances || any is_in_progress r.utterances

all_transcribed :
    (us : List Utterance)
    → IsSettledOnce us
    → count (λ u. not (u.has_transcription)) us ≡ 0
    → any is_failed us || any is_in_progress us ≡ false
all_transcribed [] h e = refl
all_transcribed (u ∷ us) h e = ground (arith, all_transcribed us h.1)

-- A recording is ended as complete if it has its file or wants none.
abbrev pub ended_state : Bool → RecordingState
ended_state true = RecordingState.complete
ended_state false = RecordingState.failed

abbrev pub ended_at : Bool → ℕ → Recording → Option ℕ
ended_at true now r = some now
ended_at false now r = r.completed_at

abbrev pub ended_transcription : TranscriptionState → Bool → TranscriptionState
ended_transcription TranscriptionState.in_progress true = TranscriptionState.failed
ended_transcription TranscriptionState.in_progress false = TranscriptionState.complete
ended_transcription s loose = s

abbrev pub ended_failures : TranscriptionState → Bool → Recording → Option (List String)
ended_failures TranscriptionState.in_progress true r = some (failure_reasons r.utterances)
ended_failures s loose r = r.transcription_failure_data

abbrev pub summaries : TranscriptionState → Bool → Bool → List Deferred
summaries TranscriptionState.in_progress false true = generate_meeting_summary ∷ []
summaries s loose default = []

-- What is expected of a running recording: it ends as complete if it has its file or wants none,
-- else as failed; a running transcription ends as complete if every utterance was transcribed.
abbrev pub terminated : ℕ → RecordingType → Recording → Recording × List Deferred
terminated now t r = (
  record r {
    state = ended_state (r.has_file || is_no_recording t);
    completed_at = ended_at (r.has_file || is_no_recording t) now r;
    transcription_state = ended_transcription r.transcription_state (has_loose_ends r);
    transcription_failure_data = ended_failures r.transcription_state (has_loose_ends r) r;
  },
  summaries r.transcription_state (has_loose_ends r) r.is_default_recording,
)

-- Of a running recording whose clips have not both a transcription and a failure, and whose bot has a
-- known format, `terminate_recording` makes, undisturbed, exactly what is expected.
pub terminate_recording-eq-terminated :
    (now : ℕ) (format : String) (t : RecordingType) (r : Recording)
    → recording_type format ≡ ok t
    → is r.state RecordingState.in_progress || is r.state RecordingState.paused ≡ true
    → IsSettledOnce r.utterances
    → terminate_recording false now format r ≡ ok (terminated now t r)
unfolding terminate_recording end_recording end_transcription
terminate_recording-eq-terminated now format t r known running settled =
    ground (arith, all_transcribed r.utterances settled)
