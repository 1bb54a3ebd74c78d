-- ===== src/Lifecycle.antt =====
-- bots/models.py, BotEvent and BotEventManager: an event that happens to a bot, with everything that
-- the change of state sets off. The state is the rows of one bot and of its organization.
pub mod Hooks
pub mod Ending
pub mod CreateEvent
pub mod OneHook
pub mod Frame
pub mod History
pub mod Log
pub mod Aftermath
pub mod Retries
pub mod EndsOnce
pub mod Breakout
pub mod ActionTaken
use attendee.Base.{
  ℕ, ◌+◌, String, Bool, true, false, not, Option, none, some, List, [], ◌∷◌, ◌++◌, map, get_last?,
}
use attendee.Errors.{Result}
use attendee.States.{BotState}
use attendee.Events.Types.{EventType}
use attendee.Events.SubTypes.{EventSubType}
use attendee.Recordings.{Recording, Saved, Deferred}
use attendee.Credits.{Ledger, Interference}
use attendee.Bots.{Bot}
use attendee.Webhooks.{Subscription, DeliveryAttempt}

-- The keys of an event's metadata that the code reads or writes; none where a key is absent.
pub record Metadata : Type 0 where
  pub join_at : Option String
  pub bot_duration_seconds : Option ℕ
  pub transcription_errors : Option (List String)
  -- In hundredths.
  pub credits_consumed : Option ℕ

pub record BotEvent : Type 0 where
  pub old_state : BotState
  pub new_state : BotState
  pub event_type : EventType
  pub event_sub_type : Option EventSubType
  pub metadata : Metadata
  pub requested_bot_action_taken_at : Option ℕ

-- The payload of the webhook of a change of state.
pub record StateChange : Type 0 where
  pub event_type : Option String
  pub event_sub_type : Option String
  pub metadata : Metadata
  pub old_state : Option String
  pub new_state : Option String

-- What runs once the transaction commits.
pub data Task : Type 0 where
  summary : Deferred → Task
  maybe_create_replacement_bot : Option EventSubType → Task
  deliver_webhook : ℕ → Task

-- The rows that an event reads and writes. The events stand in the order of their creation.
pub record World : Type 0 where
  pub project : ℕ
  pub bot : Bot
  pub recordings : List Recording
  pub events : List BotEvent
  pub ledger : Ledger
  pub subscriptions : List Subscription
  pub deliveries : List (DeliveryAttempt StateChange)
  pub next_delivery_id : ℕ
  pub on_commit : List Task

-- The setting `CHARGE_CREDITS_FOR_BOTS`.
pub record Settings : Type 0 where
  pub charge_credits_for_bots : Bool

-- What happens around one attempt at an event: what other processes commit between the read of the
-- bot and its save, whether the save then finds the row changed, what another thread makes of the
-- bot's state in memory, whether a recording is found changed when it is saved, what happens around
-- the charge, and the clock.
pub record Round : Type 0 where
  pub commits : World → World
  pub bot_stale : Bool
  pub thread : BotState → BotState
  pub recording_stale : Bool
  pub charging : ℕ → Interference
  pub now : ℕ

-- `bot.last_bot_event()`
abbrev pub last_bot_event : World → Option BotEvent
last_bot_event w = get_last? w.events

abbrev pub origin_of : Option BotEvent → Option (BotState × EventType)
origin_of none = none
origin_of (some e) = some (e.old_state, e.event_type)

-- The recordings as an operation of their manager left them, with what it defers.
abbrev pub with_recordings : World → List Recording × List Deferred → World
with_recordings w (rs, ds) = record w { recordings = rs; on_commit = w.on_commit ++ map summary ds }
