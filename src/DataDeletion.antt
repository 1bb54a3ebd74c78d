-- ===== src/DataDeletion.antt =====
-- bots/models.py, Bot.delete_data: the content of a meeting is deleted, and the bot's row and its log are
-- kept. Rows whose columns do not matter are given by their identifiers.
pub mod Erased
use attendee.Base.{
  ℕ, Bool, true, false, if◌then◌else◌, Option, none, some, List, [], ◌∷◌, ◌==◌, keep,
}
use attendee.Base.Outcome.{ok, raise, ◌>>=◌, ◌>>◌, require}
use attendee.Errors.{Result, value_error, save}
use attendee.Events.Types.{EventType}
use attendee.Transitions.{event_can_be_created_for_state}
use attendee.Recordings.{Recording}
use attendee.Webhooks
use attendee.Webhooks.{TriggerType}
use attendee.Lifecycle.{Metadata, World, Settings, Round}
use attendee.Lifecycle.CreateEvent.{Event, create_event}
use attendee.Summaries.{Meeting, wipe}

-- What delete_data does not touch: rows of the other tables that refer to the bot or to one of its
-- recordings. The title, which is in `meeting`, stays as well.
pub record Aside : Type 0 where
  pub share_tokens : List ℕ
  pub logs : List ℕ
  pub media_requests : List ℕ
  pub chat_message_requests : List ℕ
  pub resource_snapshots : List ℕ
  pub async_transcriptions : List ℕ

-- All that belongs to a bot. The rows of `world` have only the deliveries that changes of state cause;
-- of the others the triggers are kept here. The events of participants go with them.
pub record BotData : Type 0 where
  pub world : World
  pub meeting : Meeting
  pub debug_screenshots : List ℕ
  pub audio_chunks : List ℕ
  pub participants : List ℕ
  pub participant_events : List ℕ
  pub chat_messages : List ℕ
  pub other_deliveries : List TriggerType
  pub aside : Aside

-- The loop over the recordings: the utterances are deleted, and the file if there is one, which saves the
-- recording's row; `stale` says that another process is found to have changed it.
unfoldable pub erase : Bool → List Recording → Result (List Recording)
erase stale [] = ok []
erase stale (r ∷ rs) = do
  r' ←
      if r.has_file
      then save stale (record r { utterances = []; has_file = false })
      else ok (record r { utterances = [] })
  rs' ← erase stale rs
  ok (r' ∷ rs')

abbrev pub is_state_change : TriggerType → Bool
is_state_change t = Webhooks.value t == Webhooks.value TriggerType.bot_state_change

-- What is deleted before the event, with the recordings that are left.
unfoldable pub cleared : BotData → List Recording → BotData
unfolding wipe
cleared d recordings = record {
  world = record d.world { recordings = recordings };
  meeting = wipe d.meeting;
  debug_screenshots = [];
  audio_chunks = [];
  participants = [];
  participant_events = [];
  chat_messages = [];
  other_deliveries = keep is_state_change d.other_deliveries;
  aside = d.aside;
}

abbrev pub deletion : Event
deletion = record {
  event_type = EventType.data_deleted;
  event_sub_type = none;
  event_metadata = record {
    join_at = none;
    bot_duration_seconds = none;
    transcription_errors = none;
    credits_consumed = none;
  };
}

abbrev pub with_world : BotData → Option World → BotData
with_world d none = d
with_world d (some w) = record d { world = w }

-- The event, after the rows are deleted.
abbrev pub finish_deletion : Settings → (ℕ → Round) → BotData → Result BotData
finish_deletion settings rounds d =
    create_event settings 3 rounds deletion d.world >>= λ written. ok (with_world d written)

-- The whole of it is a transaction, so nothing is deleted if a save or the event raises.
unfoldable pub delete_data : Settings → Bool → (ℕ → Round) → BotData → Result BotData
unfolding erase cleared event_can_be_created_for_state create_event
delete_data settings stale rounds d = do
  allowed ← event_can_be_created_for_state EventType.data_deleted d.world.bot.state
  require allowed value_error
  recordings ← erase stale d.world.recordings
  finish_deletion settings rounds (cleared d recordings)
