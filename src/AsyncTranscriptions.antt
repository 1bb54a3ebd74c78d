-- ===== src/AsyncTranscriptions.antt =====
-- bots/models.py, AsyncTranscriptionStates, AsyncTranscription and AsyncTranscriptionManager: a
-- transcription that is asked for after the meeting. An operation reads the row afresh, so it is a
-- function of the row.
pub mod Stamps
pub mod Grouping
pub mod Task
use attendee.Base.{
  ◌≡◌, false, ℕ, Bool, ◌||◌, List, [], ◌∷◌, ◌==◌, if◌then◌else◌, String, Option, none, some,
}
use attendee.Base.Outcome.{ok, ◌>>=◌, ◌>>◌, require}
use attendee.Base.Tables.{get_by_value}
use attendee.Errors.{Error, Result, value_error, save}
use attendee.Webhooks.{TriggerType, Subscription, DeliveryAttempt, trigger_webhook}

pub data AsyncTranscriptionState : Type 0 where
  not_started in_progress complete failed : AsyncTranscriptionState

abbrev pub value : AsyncTranscriptionState → ℕ
value not_started = 1
value in_progress = 2
value complete = 3
value failed = 4

abbrev pub api_codes : List (AsyncTranscriptionState × String)
api_codes =
    (not_started, "not_started")
    ∷ (in_progress, "in_progress")
    ∷ (complete, "complete")
    ∷ (failed, "failed")
    ∷ []

-- `AsyncTranscriptionStates.state_to_api_code`
unfoldable pub state_to_api_code : ℕ → Option String
state_to_api_code = get_by_value value api_codes

-- `async_transcription.state == other`
abbrev pub is : AsyncTranscriptionState → AsyncTranscriptionState → Bool
is s other = value s == value other

-- The failure data is kept as its text.
pub record AsyncTranscription : Type 0 where
  pub object_id : String
  pub state : AsyncTranscriptionState
  pub started_at : Option ℕ
  pub failed_at : Option ℕ
  pub completed_at : Option ℕ
  pub failure_data : Option String

-- The payload of the webhook of a change of state.
pub record Notice : Type 0 where
  pub state : Option String
  pub id : String
  pub failure_data : Option String

-- What surrounds a call: the bot and its project, the subscriptions, the first free identifier of a
-- delivery, whether another process writes the row meanwhile, the clock, and the exception of
-- delivery_webhook, which comes after the save, if it raises one. The task makes use of the last.
pub record Around : Type 0 where
  pub project : ℕ
  pub bot : ℕ
  pub subscriptions : List Subscription
  pub next_delivery_id : ℕ
  pub stale : Bool
  pub now : ℕ
  pub delivery_error : Option Error

-- The row is not written meanwhile, and the delivery raises nothing.
abbrev pub IsQuiet : Around → Type 0
IsQuiet around = (around.stale ≡ false) × (around.delivery_error ≡ none)

-- The row and the new rows of the table of deliveries.
abbrev pub Told : Type 0
Told = AsyncTranscription × List (DeliveryAttempt Notice)

abbrev pub notice_of : AsyncTranscription → Notice
notice_of a = record {
  state = state_to_api_code (value a.state);
  id = a.object_id;
  failure_data = a.failure_data;
}

abbrev pub delivery_webhook : Around → AsyncTranscription → List (DeliveryAttempt Notice)
delivery_webhook around a =
    trigger_webhook TriggerType.async_transcription_state_change around.project around.bot
      (notice_of a) around.next_delivery_id around.subscriptions

unfoldable pub set_async_transcription_in_progress : Around → AsyncTranscription → Result Told
set_async_transcription_in_progress around a =
    if is a.state AsyncTranscriptionState.in_progress then ok (a, []) else do
      require (is a.state AsyncTranscriptionState.not_started) value_error
      saved ←
          save around.stale
            (record a { state = AsyncTranscriptionState.in_progress; started_at = some around.now })
      ok (saved, delivery_webhook around saved)

unfoldable pub set_async_transcription_complete : Around → AsyncTranscription → Result Told
set_async_transcription_complete around a =
    if is a.state AsyncTranscriptionState.complete then ok (a, []) else do
      require (is a.state AsyncTranscriptionState.in_progress) value_error
      saved ←
          save around.stale
            (record a { state = AsyncTranscriptionState.complete; completed_at = some around.now })
      ok (saved, delivery_webhook around saved)

unfoldable pub set_async_transcription_failed : Around → String → AsyncTranscription → Result Told
set_async_transcription_failed around failure_data a =
    if is a.state AsyncTranscriptionState.failed then ok (a, []) else do
      require
          (is a.state AsyncTranscriptionState.in_progress
            || is a.state AsyncTranscriptionState.not_started)
          value_error
      saved ← save around.stale (record a {
        state = AsyncTranscriptionState.failed;
        failure_data = some failure_data;
        failed_at = some around.now;
      })
      ok (saved, delivery_webhook around saved)
