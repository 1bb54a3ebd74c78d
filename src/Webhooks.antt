-- ===== src/Webhooks.antt =====
-- bots/models.py, WebhookTriggerTypes, WebhookSubscription and WebhookDeliveryAttempt, and
-- bots/webhook_utils.py, trigger_webhook: which subscriptions hear of something that happened to a bot.
pub mod Delivery
pub mod Told
use attendee.Base.{
  ℕ, ◌+◌, String, Bool, false, ◌&&◌, not, Option, none, some, List, [], ◌∷◌, map, ◌==◌,
  if◌then◌else◌, is_in, any, keep, is_some,
}
use attendee.Base.Tables.{get_by_value, get_by_code}

pub data TriggerType : Type 0 where
  bot_state_change transcript_update chat_messages_update participant_events_join_leave
        calendar_events_update calendar_state_change async_transcription_state_change
        zoom_oauth_connection_state_change bot_logs_update participant_events_speech_start_stop :
      TriggerType

-- The integer value that the database stores.
abbrev pub value : TriggerType → ℕ
value bot_state_change = 1
value transcript_update = 2
value chat_messages_update = 3
value participant_events_join_leave = 4
value calendar_events_update = 5
value calendar_state_change = 6
value async_transcription_state_change = 7
value zoom_oauth_connection_state_change = 8
value bot_logs_update = 9
value participant_events_speech_start_stop = 10

abbrev pub api_codes : List (TriggerType × String)
api_codes =
    (bot_state_change, "bot.state_change")
    ∷ (transcript_update, "transcript.update")
    ∷ (chat_messages_update, "chat_messages.update")
    ∷ (participant_events_join_leave, "participant_events.join_leave")
    ∷ (calendar_events_update, "calendar.events_update")
    ∷ (calendar_state_change, "calendar.state_change")
    ∷ (async_transcription_state_change, "async_transcription.state_change")
    ∷ (zoom_oauth_connection_state_change, "zoom_oauth_connection.state_change")
    ∷ (bot_logs_update, "bot_logs.update")
    ∷ (participant_events_speech_start_stop, "participant_events.speech_start_stop")
    ∷ []

-- `WebhookTriggerTypes.trigger_type_to_api_code` and `api_code_to_trigger_type`
unfoldable pub trigger_type_to_api_code : ℕ → Option String
trigger_type_to_api_code = get_by_value value api_codes

unfoldable pub api_code_to_trigger_type : String → Option TriggerType
api_code_to_trigger_type = get_by_code api_codes

-- A subscription of a project; one with a bot belongs to that bot alone.
pub record Subscription : Type 0 where
  pub id : ℕ
  pub project : ℕ
  pub bot : Option ℕ
  pub triggers : List TriggerType
  pub is_active : Bool

-- `WebhookDeliveryAttemptStatus`
pub data DeliveryStatus : Type 0 where
  pending success failure : DeliveryStatus

-- What is kept of the answer: its text, or a note that there was none, with the kind of the error.
pub data Body : Type 0 where
  text : String → Body
  no_answer : String → Body

-- A row of the table of deliveries, with its payload.
pub record DeliveryAttempt (P : Type 0) : Type 0 where
  pub id : ℕ
  pub webhook_subscription : ℕ
  pub webhook_trigger_type : TriggerType
  pub bot : ℕ
  pub payload : P
  pub status : DeliveryStatus
  pub attempt_count : ℕ
  pub last_attempt_at : Option ℕ
  pub succeeded_at : Option ℕ
  pub response_body_list : List Body

abbrev pub is_of_bot : ℕ → Subscription → Bool
is_of_bot bot s = elim s.bot [ none ↦ false | some b ↦ b == bot ]

abbrev pub is_of_project : ℕ → Subscription → Bool
is_of_project project s = s.project == project && not (is_some s.bot)

-- `triggers__contains=[webhook_trigger_type], is_active=True`
abbrev pub hears : TriggerType → Subscription → Bool
hears t s = is_in (value t) (map value s.triggers) && s.is_active

-- The subscriptions that are told: the bot's own if it has any at all, else the project's.
unfoldable pub subscriptions_for : TriggerType → ℕ → ℕ → List Subscription → List Subscription
subscriptions_for t project bot table =
    if any (is_of_bot bot) table
    then keep (λ s. is_of_bot bot s && hears t s) table
    else keep (λ s. is_of_project project s && hears t s) table

-- The rows that are created, from the first free identifier on.
abbrev pub attempts_for :
    {P : Type 0} → TriggerType → ℕ → P → ℕ → List Subscription → List (DeliveryAttempt P)
attempts_for t bot payload id [] = []
attempts_for t bot payload id (s ∷ ss) =
    record {
      id = id;
      webhook_subscription = s.id;
      webhook_trigger_type = t;
      bot = bot;
      payload = payload;
      status = DeliveryStatus.pending;
      attempt_count = 0;
      last_attempt_at = none;
      succeeded_at = none;
      response_body_list = [];
    }
    ∷ attempts_for t bot payload (id + 1) ss

-- `trigger_webhook` for a bot, given a payload, which is never empty: the new rows. Each of them is
-- handed to `deliver_webhook` once the transaction commits.
unfoldable pub trigger_webhook :
    {P : Type 0} → TriggerType → ℕ → ℕ → P → ℕ → List Subscription → List (DeliveryAttempt P)
unfolding subscriptions_for
trigger_webhook t project bot payload id table =
    attempts_for t bot payload id (subscriptions_for t project bot table)
