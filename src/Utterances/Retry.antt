-- ===== src/Utterances/Retry.antt =====
-- bots/bots_api_utils.py, retry_failed_transcription: the request to transcribe again what has failed.
pub mod Again
use attendee.Base.{
  ℕ, Bool, true, false, not, ◌&&◌, ◌||◌, Option, none, some, List, [], ◌∷◌, ◌++◌, map, length,
  if◌then◌else◌, is_some, ◌==◌,
}
use attendee.Base.Outcome.{Outcome, ok, raise, ◌>>=◌}
use attendee.Errors.{Result}
use attendee.States.{BotState, state_in, post_meeting_states, same_state}
use attendee.Recordings.{
  Recording, TranscriptionState, transcription_is, Saved,
  set_recording_transcription_failed_to_in_progress_for_retry,
}
use attendee.Utterances.{FailureReason}

-- A row of the recording's utterances; it has audio if it has an audio chunk, or the old column is filled.
pub record Row : Type 0 where
  pub id : ℕ
  pub is_async : Bool
  pub failure_data : Option FailureReason
  pub has_audio : Bool
  pub transcription_attempt_count : ℕ

-- The default recording of the bot, its utterances, and the utterances queued to be processed.
pub record Shelf : Type 0 where
  pub recording : Option Recording
  pub rows : List Row
  pub queued : List ℕ

pub data Reply : Type 0 where
  retried : ℕ → Reply
  not_over no_recording : Reply

abbrev pub is_retryable : Row → Bool
is_retryable row = not (row.is_async) && is_some row.failure_data && row.has_audio

unfoldable pub retryable_utterances : List Row → List Row
retryable_utterances [] = []
retryable_utterances (row ∷ rows) =
    let rest = retryable_utterances rows in if is_retryable row then row ∷ rest else rest

-- One round of the loop over the rows that are tried again.
abbrev pub reset : Row → Row
reset row =
    if is_retryable row
    then record row { failure_data = none; transcription_attempt_count = 0 }
    else row

abbrev pub back_in_progress : Bool → Recording → Result Recording
back_in_progress stale r =
    if transcription_is r.transcription_state TranscriptionState.failed
    then (set_recording_transcription_failed_to_in_progress_for_retry stale r
        >>= (λ saved. ok (saved.0)))
    else ok r

abbrev pub queue_again : List Row → List ℕ → Recording → Result (Reply × Shelf)
unfolding retryable_utterances
queue_again rows queued r = ok (
  retried (length (retryable_utterances rows)),
  record {
    recording = some r;
    rows = map reset rows;
    queued = queued ++ map (λ row. row.id) (retryable_utterances rows);
  },
)

unfoldable pub retry_rows : Bool → Recording → List Row → List ℕ → Result (Reply × Shelf)
unfolding set_recording_transcription_failed_to_in_progress_for_retry retryable_utterances
retry_rows stale r rows queued =
    let chosen = retryable_utterances rows in
    if length chosen == 0
    then ok (retried 0, record { recording = some r; rows = rows; queued = queued })
    else back_in_progress stale r >>= queue_again rows queued

unfoldable pub retry_in : Option Recording → Bool → Shelf → Result (Reply × Shelf)
unfolding retry_rows
retry_in none stale shelf = ok (no_recording, shelf)
retry_in (some r) stale shelf = retry_rows stale r shelf.rows shelf.queued

unfoldable pub retry_failed_transcription : Bool → BotState → Shelf → Result (Reply × Shelf)
unfolding retry_in
retry_failed_transcription stale state shelf =
    if not (state_in state post_meeting_states) || same_state state BotState.data_deleted
    then ok (not_over, shelf)
    else retry_in shelf.recording stale shelf
