-- ===== src/Lifecycle/CreateEvent.antt =====
-- bots/models.py, BotEventManager.create_event: one attempt, which is a transaction, and the loop
-- that tries again when another process has changed a row meanwhile.
use attendee.Base.{
  ℕ, zero, suc, ◌+◌, String, Bool, true, false, ◌&&◌, not, length, Option, none, some, [], ◌∷◌,
  ◌++◌, map, ◌==◌, if◌then◌else◌,
}
use attendee.Base.Outcome.{ok, raise, ◌>>=◌, ◌>>◌, require}
use attendee.Errors.{Result, validation_error, integrity_error, record_modified_error, save}
use attendee.States
use attendee.States.{BotState, same_state, state_to_api_code}
use attendee.Events.Types
use attendee.Events.Types.{EventType, type_to_api_code}
use attendee.Events.SubTypes
use attendee.Events.SubTypes.{EventSubType, sub_type_to_api_code}
use attendee.Events.Constraint.{insert_accepted}
use attendee.Transitions.{next_state, is_post_meeting_state}
use attendee.Bots.{Bot, SessionType}
use attendee.Webhooks.{TriggerType, trigger_webhook}
use attendee.Lifecycle.{
  Metadata, BotEvent, StateChange, deliver_webhook, World, Settings, Round, last_bot_event,
  origin_of,
}
use attendee.Lifecycle.Hooks.{run_hooks}
use attendee.Lifecycle.Ending.{after_transition_to_post_meeting_state}

-- The arguments of `create_event`.
pub record Event : Type 0 where
  pub event_type : EventType
  pub event_sub_type : Option EventSubType
  pub event_metadata : Metadata

-- `event_metadata.update(additional_event_metadata)`: a key that is present replaces.
abbrev or_else : {A : Type 0} → Option A → Option A → Option A
or_else none old = old
or_else (some a) old = some a

abbrev pub update : Metadata → Metadata → Metadata
update old new = record {
  join_at = or_else new.join_at old.join_at;
  bot_duration_seconds = or_else new.bot_duration_seconds old.bot_duration_seconds;
  transcription_errors = or_else new.transcription_errors old.transcription_errors;
  credits_consumed = or_else new.credits_consumed old.credits_consumed;
}

-- The hooks for a transition to a post-meeting state, with the metadata that the event then has.
unfoldable pub finish_meeting :
    Settings → Round → Event → BotState → BotState → World → Result (World × Metadata)
finish_meeting settings round e old_state new_state w =
    if is_post_meeting_state new_state && not (is_post_meeting_state old_state)
    then (after_transition_to_post_meeting_state settings round e.event_type w
        >>= (λ r. ok (r.0, update e.event_metadata r.1)))
    else ok (w, e.event_metadata)

abbrev pub new_event : Event → BotState → BotState → Metadata → BotEvent
new_event e old_state new_state metadata = record {
  old_state = old_state;
  new_state = new_state;
  event_type = e.event_type;
  event_sub_type = e.event_sub_type;
  metadata = metadata;
  requested_bot_action_taken_at = none;
}

-- `BotEvent.objects.create`, under the check constraint of the table.
unfoldable pub insert_event : BotEvent → World → Result World
insert_event ev w =
    if insert_accepted ev.event_type ev.event_sub_type
    then ok (record w { events = w.events ++ ev ∷ [] })
    else raise integrity_error

abbrev sub_type_code : Option EventSubType → Option String
sub_type_code none = none
sub_type_code (some s) = sub_type_to_api_code (SubTypes.value s)

abbrev pub payload_of : BotEvent → StateChange
payload_of ev = record {
  event_type = type_to_api_code (Types.value ev.event_type);
  event_sub_type = sub_type_code ev.event_sub_type;
  metadata = ev.metadata;
  old_state = state_to_api_code (States.value ev.old_state);
  new_state = state_to_api_code (States.value ev.new_state);
}

-- The rows that `trigger_webhook` creates, and a task for each.
unfoldable pub deliver : BotEvent → World → World
deliver ev w =
    let ds =
      trigger_webhook TriggerType.bot_state_change w.project w.bot.id (payload_of ev)
        w.next_delivery_id w.subscriptions in
    record w {
      deliveries = w.deliveries ++ ds;
      next_delivery_id = w.next_delivery_id + length ds;
      on_commit = w.on_commit ++ map (λ d. deliver_webhook d.id) ds;
    }

-- The webhook of the change of state, which a local recording does not send.
abbrev pub notifies : SessionType → Bool
notifies SessionType.bot = true
notifies SessionType.app_session = true
notifies SessionType.local_recording = false

unfoldable pub notify : BotEvent → World → World
unfolding deliver
notify ev w = if notifies w.bot.session_type then deliver ev w else w

-- What follows the save of the bot's row: the hooks, the event and the webhook.
unfoldable pub after_save : Settings → Round → Event → BotState → BotState → World → Result World
after_save settings round e old_state new_state w = do
  hooked ← run_hooks round e.event_type e.event_sub_type e.event_metadata new_state w
  finished ← finish_meeting settings round e old_state new_state hooked
  let ev = new_event e old_state new_state finished.1
  written ← insert_event ev finished.0
  ok (notify ev written)

-- The row of the bot, as it is saved.
abbrev pub with_state : Bot → BotState → Bot
with_state b s = record b { state = s }

-- One attempt: a transaction that starts from the rows `w`. If it raises, nothing is kept of it.
unfoldable pub attempt : Settings → Round → Event → World → Result World
attempt settings round e w = do
  new_state ← next_state e.event_type w.bot.state (origin_of (last_bot_event w))
  saved ← save round.bot_stale (with_state w.bot new_state)
  require (same_state (round.thread new_state) new_state) validation_error
  after_save settings round e w.bot.state new_state (record (round.commits w) { bot = saved })

-- The loop, with the attempts that are left; `rounds` gives what happens around each of them. What
-- other processes have committed stays. With no attempts at all the call returns no event.
unfoldable pub create_event_loop :
    Settings → ℕ → ℕ → (ℕ → Round) → Event → World → Result (Option World)
create_event_loop settings zero k rounds e w = ok none
create_event_loop settings (suc left) k rounds e w =
    let again = create_event_loop settings left (k + 1) rounds e ((rounds k).commits w) in
    elim (attempt settings (rounds k) e w) [
      | ok w' ↦ ok (some w')
      | raise record_modified_error ↦ if left == 0 then raise record_modified_error else again
      | raise x ↦ raise x
    ]

-- `create_event`, with `max_retries`, which is 3 unless it is given.
unfoldable pub create_event : Settings → ℕ → (ℕ → Round) → Event → World → Result (Option World)
create_event settings max_retries rounds e w = create_event_loop settings max_retries 0 rounds e w
