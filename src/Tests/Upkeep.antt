-- ===== src/Tests/Upkeep.antt =====
-- The theorems on the deletion of old rows and of the data of a meeting, on stuck bots, and on other bots.
use attendee.Base.{ℕ, Bool, true, false, ◌≡◌, refl, ◌↔◌, none, some, [], ◌∷◌, ◌==◌, arith}
use attendee.Base.Outcome.{Ensures, ok, raise}
use attendee.Errors.{Result}
use attendee.Transitions.{next_state, event_can_be_created_for_state}
use attendee.Lifecycle.Hooks.{run_hooks}
use attendee.Events.Constraint.{insert_accepted}
use attendee.Lifecycle.CreateEvent.{
  create_event, create_event_loop, attempt, after_save, finish_meeting, insert_event, notify,
}
use attendee.States.{BotState, same_state}
use attendee.Webhooks.{TriggerType}
use attendee.Summaries.{SummaryState}
use attendee.Cleanup.{
  Row, Tables, cleanup_old_utterances, cleanup_old_audio_chunks, cleanup_old_bot_resource_snapshots,
}
use attendee.Cleanup.Complete.{recent, old_count, cleanup_deletes_old}
use attendee.StuckBots.{Candidate, Scan, handle, never_launched, is_stale_local}
use attendee.StuckBots.Ready.{handle-keeps_ready}
use attendee.DataDeletion.{BotData, erase, cleared, delete_data}
use attendee.DataDeletion.Erased.{AreQuiet, IsErased, delete_data-IsErased}
use attendee.AutomaticLeave.{
  Characters, split_string_into_lower_case_words, participant_is_another_bot,
}
use attendee.AutomaticLeave.Phrase.{HasPhrase, participant_is_another_bot_iff}
use attendee.Tests.{world, finished, charging, quiet}

abbrev row : ℕ → ℕ → Row
row id created_at = record { id = id; created_at = created_at }

abbrev tables : Tables
tables = record {
  utterances = row 1 10 ∷ row 3 90 ∷ row 4 20 ∷ row 8 30 ∷ [];
  audio_chunks = row 2 10 ∷ [];
  bot_resource_snapshots = [];
}

cleanup_deletes_old_example :
    (cleanup_old_utterances 50 2 false tables
      ≡ some (
        record tables { utterances = recent 50 tables.utterances },
        old_count 50 tables.utterances,
      ))
    × (cleanup_old_audio_chunks 50 2 false tables
        ≡ some (
          record tables { audio_chunks = recent 50 tables.audio_chunks },
          old_count 50 tables.audio_chunks,
        ))
    × (cleanup_old_bot_resource_snapshots 50 2 false tables
        ≡ some (
          record tables { bot_resource_snapshots = recent 50 tables.bot_resource_snapshots },
          old_count 50 tables.bot_resource_snapshots,
        ))
cleanup_deletes_old_example =
    cleanup_deletes_old 50 1 false tables (ground arith, ground arith) (ground arith, ground arith)
      (tt, tt)

-- A bot that was created two hours ago and was never asked to join.
abbrev forgotten : Candidate
forgotten = record {
  world = record (world BotState.ready finished []) {
    bot = record (world BotState.ready finished []).bot {
      first_heartbeat_timestamp = none;
      last_heartbeat_timestamp = none;
    };
  };
  created_at = 1000000;
  join_at = none;
}

abbrev scan : Scan
scan = record {
  settings = charging;
  now = 1007200;
  global_runtime_timeout_seconds = 108000;
  rounds = λ sub_type k. quiet;
}

forgotten_selected : never_launched 1007200 forgotten ≡ true
unfolding never_launched
forgotten_selected = refl

handle-keeps_ready_example : handle scan forgotten ≡ (forgotten, is_stale_local 1007200 forgotten)
handle-keeps_ready_example = handle-keeps_ready scan forgotten refl

abbrev meeting_data : BotData
meeting_data = record {
  world = world BotState.ended finished [];
  meeting = record {
    summary_state = SummaryState.done;
    summary = some "notes";
    summary_error = none;
    summary_generated_at = some 10;
    summary_started_at = none;
    name = none;
  };
  debug_screenshots = 1 ∷ [];
  audio_chunks = 2 ∷ 3 ∷ [];
  participants = 4 ∷ [];
  participant_events = 6 ∷ 7 ∷ [];
  chat_messages = 5 ∷ [];
  other_deliveries = TriggerType.transcript_update ∷ TriggerType.bot_state_change ∷ [];
  aside = record {
    share_tokens = [];
    logs = 8 ∷ [];
    media_requests = [];
    chat_message_requests = 9 ∷ [];
    resource_snapshots = [];
    async_transcriptions = [];
  };
}

is_deleted : Result BotData → Bool
is_deleted (ok d) = same_state d.world.bot.state BotState.data_deleted
is_deleted (raise e) = false

data_is_deleted : is_deleted (delete_data charging false (λ k. quiet) meeting_data) ≡ true
unfolding is_deleted delete_data erase cleared event_can_be_created_for_state create_event
    create_event_loop attempt after_save next_state run_hooks finish_meeting insert_event
    insert_accepted notify
data_is_deleted = refl

nothing_back : AreQuiet (λ k. quiet)
nothing_back k w erased = erased

delete_data-IsErased_example :
    Ensures (IsErased meeting_data) (delete_data charging false (λ k. quiet) meeting_data)
delete_data-IsErased_example =
    delete_data-IsErased charging false (λ k. quiet) meeting_data nothing_back

-- Zero stands for a space, and there is no upper case.
abbrev ascii : Characters
ascii = record { is_delimiter = λ c. c == 0; lower = λ word. word }

participant_is_another_bot_iff_example :
    (participant_is_another_bot ascii (1 ∷ 0 ∷ 2 ∷ 3 ∷ 0 ∷ 4 ∷ []) false ((2 ∷ 3 ∷ []) ∷ []) ≡ true)
    ↔ ((false ≡ false)
        × HasPhrase ascii
            (split_string_into_lower_case_words ascii (1 ∷ 0 ∷ 2 ∷ 3 ∷ 0 ∷ 4 ∷ []))
            ((2 ∷ 3 ∷ []) ∷ []))
participant_is_another_bot_iff_example =
    participant_is_another_bot_iff ascii (1 ∷ 0 ∷ 2 ∷ 3 ∷ 0 ∷ 4 ∷ []) false ((2 ∷ 3 ∷ []) ∷ [])
