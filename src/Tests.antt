-- ===== src/Tests.antt =====
-- Rows on which the theorems are tried, and runs of the definitions on them.
mod Lifecycle
mod Rows
mod Machine
mod Told
mod Charges
mod Audio
mod Transcribing
mod Summaries
mod Upkeep
mod Local
mod Utterances
use attendee.Base.{ℕ, String, Bool, true, false, Option, none, some, List, [], ◌∷◌, ◌≡◌, refl}
use attendee.Base.Int.{pos}
use attendee.Base.Outcome.{Outcome, ok, raise}
use attendee.Errors.{Result}
use attendee.States.{BotState}
use attendee.Events.Types.{EventType}
use attendee.Recordings.{RecordingState, TranscriptionState, Utterance, Recording}
use attendee.Credits.{CreditTransaction, Ledger, Interference, Charge}
use attendee.Bots.{SessionType, Bot}
use attendee.Webhooks.{TriggerType, Subscription}
use attendee.Lifecycle.{Metadata, BotEvent, World, Settings, Round}
use attendee.Lifecycle.CreateEvent.{Event}

-- The value of a call that returns one.
abbrev pub value_of : {A : Type 0} → A → Result A → A
value_of default (ok a) = a
value_of default (raise e) = default

abbrev pub no_metadata : Metadata
no_metadata = record {
  join_at = none;
  bot_duration_seconds = none;
  transcription_errors = none;
  credits_consumed = none;
}

abbrev pub clip : Utterance
clip = record { has_transcription = true; failure_data = none }

abbrev pub lost_clip : Utterance
lost_clip = record { has_transcription = false; failure_data = some (some "timed_out") }

abbrev pub running : Recording
running = record {
  is_default_recording = true;
  state = RecordingState.in_progress;
  transcription_state = TranscriptionState.in_progress;
  transcription_failure_data = none;
  started_at = some 10;
  completed_at = none;
  has_file = true;
  utterances = clip ∷ lost_clip ∷ [];
}

abbrev pub paused : Recording
paused = record running { state = RecordingState.paused }

abbrev pub finished : Recording
finished = record running {
  state = RecordingState.complete;
  completed_at = some 20;
  transcription_state = TranscriptionState.complete;
  utterances = clip ∷ [];
}

abbrev pub transaction : CreditTransaction
transaction = record {
  id = 1;
  centicredits_before = pos 500;
  centicredits_after = pos 1500;
  centicredits_delta = pos 1000;
  parent_transaction = none;
  bot = none;
  stripe_payment_intent_id = some "pi_1";
}

abbrev pub ledger : Ledger
ledger = record { centicredits = pos 1500; transactions = transaction ∷ []; next_id = 2 }

abbrev pub quiet_ledger : ℕ → Interference
quiet_ledger k = record { commits = λ l. l; stale = false }

abbrev pub bot_in : BotState → Bot
bot_in s = record {
  id = 7;
  state = s;
  session_type = SessionType.bot;
  join_at = none;
  first_heartbeat_timestamp = some 1000;
  last_heartbeat_timestamp = some 4600;
  recording_format = "mp4";
}

abbrev pub subscription : Subscription
subscription = record {
  id = 3;
  project = 1;
  bot = none;
  triggers = TriggerType.bot_state_change ∷ [];
  is_active = true;
}

-- A bot in a state, with a recording and a log.
abbrev pub world : BotState → Recording → List BotEvent → World
world s r evs = record {
  project = 1;
  bot = bot_in s;
  recordings = r ∷ [];
  events = evs;
  ledger = ledger;
  subscriptions = subscription ∷ [];
  deliveries = [];
  next_delivery_id = 1;
  on_commit = [];
}

abbrev pub logged : BotState → BotState → EventType → BotEvent
logged s t e = record {
  old_state = s;
  new_state = t;
  event_type = e;
  event_sub_type = none;
  metadata = no_metadata;
  requested_bot_action_taken_at = none;
}

abbrev pub event : EventType → Event
event e = record { event_type = e; event_sub_type = none; event_metadata = no_metadata }

abbrev pub charging : Settings
charging = record { charge_credits_for_bots = true }

-- A round that no other process disturbs, and one in which the bot's row is written meanwhile.
abbrev pub quiet : Round
quiet = record {
  commits = λ w. w;
  bot_stale = false;
  thread = λ s. s;
  recording_stale = false;
  charging = quiet_ledger;
  now = 5000;
}

abbrev pub disturbed : Round
disturbed = record quiet { bot_stale = true }
