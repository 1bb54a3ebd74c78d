-- ===== src/Tests/Utterances.antt =====
-- The theorems on the transcription of an utterance.
use attendee.Base.{ℕ, Bool, true, false, some, none, [], ◌∷◌, ◌≡◌, refl, inr, arith}
use attendee.Recordings.{Recording, RecordingState, TranscriptionState, transcription_is}
use attendee.Utterances.{Answer, FailureReason, Desk, Run, desk_of, process_utterance, process_runs}
use attendee.Base.Outcome.{ok, Ensures}
use attendee.States.{BotState}
use attendee.Utterances.Retry.{Row, Shelf, Reply, retry_failed_transcription}
use attendee.Utterances.Retry.Again.{repeated, retry_failed_transcription-repeated}
use attendee.Utterances.Waiting.{process_runs-waits}
use attendee.Utterances.Settled.{
  is_settled, process_runs-is_settled, process_runs-keeps_recording,
  process_utterance-ends_transcription,
}

abbrev over : Recording
over = record {
  is_default_recording = true;
  state = RecordingState.complete;
  transcription_state = TranscriptionState.in_progress;
  transcription_failure_data = none;
  started_at = some 10;
  completed_at = some 90;
  has_file = true;
  utterances = [];
}

-- The last utterance of the recording, tried some times.
abbrev desk : ℕ → Desk
desk attempts = record {
  has_transcription = false;
  failure_data = none;
  transcription_attempt_count = attempts;
  is_async = false;
  has_audio = true;
  recording = over;
  others_transcribed = true ∷ true ∷ [];
  transcript_updates = 2;
  deferred = [];
}

abbrev limited : Run
limited = record {
  answer = Answer.failure FailureReason.rate_limit_exceeded;
  keeps_audio = false;
  stale = false;
  failure_reasons = "rate_limit_exceeded" ∷ [];
}

abbrev answered : Run
answered = record limited { answer = Answer.transcript true }

abbrev disturbed : Run
disturbed = record limited { stale = true }

process_runs-is_settled_example :
    is_settled (process_runs (limited ∷ limited ∷ limited ∷ limited ∷ []) (desk 1)) ≡ true
process_runs-is_settled_example =
    process_runs-is_settled (limited ∷ limited ∷ limited ∷ limited ∷ []) (desk 1) (omega arith)
      (omega arith)

process_runs-keeps_recording_example :
    (process_runs (disturbed ∷ answered ∷ limited ∷ []) (desk 4)).recording ≡ over
process_runs-keeps_recording_example =
    process_runs-keeps_recording disturbed (answered ∷ limited ∷ [])
      FailureReason.rate_limit_exceeded (desk 4) refl refl (inr (omega arith)) refl

answered_settles : is_settled (desk_of (process_utterance answered (desk 1))) ≡ true
unfolding process_utterance
answered_settles = refl

process_utterance-ends_transcription_example :
    transcription_is
      (desk_of (process_utterance answered (desk 1))).recording.transcription_state
      TranscriptionState.in_progress
    ≡ false
process_utterance-ends_transcription_example =
    process_utterance-ends_transcription answered (desk 1) refl refl refl refl refl refl
      answered_settles

abbrev lost : Desk
lost = record (desk 0) { others_transcribed = false ∷ [] }

process_runs-waits_example : (process_runs (answered ∷ answered ∷ []) lost).recording ≡ over
process_runs-waits_example = process_runs-waits (answered ∷ answered ∷ []) lost refl refl

abbrev row : ℕ → Bool → Row
row id has_audio = record {
  id = id;
  is_async = false;
  failure_data = some FailureReason.timed_out;
  has_audio = has_audio;
  transcription_attempt_count = 5;
}

abbrev shelf : Shelf
shelf = record {
  recording = some (record over { transcription_state = TranscriptionState.failed });
  rows = row 1 true ∷ row 2 false ∷ [];
  queued = [];
}

-- After the request is answered once.
abbrev once : Shelf
once = record {
  recording = some over;
  rows =
      record (row 1 true) { failure_data = none; transcription_attempt_count = 0 }
      ∷ row 2 false
      ∷ [];
  queued = 1 ∷ [];
}

retried_once : retry_failed_transcription false BotState.ended shelf ≡ ok (Reply.retried 1, once)
unfolding retry_failed_transcription
retried_once = refl

retry_failed_transcription-repeated_example :
    Ensures
      (λ p. retry_failed_transcription false BotState.ended p.1 ≡ ok (repeated p.0, p.1))
      (retry_failed_transcription false BotState.ended shelf)
retry_failed_transcription-repeated_example =
    retry_failed_transcription-repeated false false BotState.ended shelf
