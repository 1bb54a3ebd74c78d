-- ===== src/Lifecycle/Breakout.antt =====
-- bots/models.py, BotEventManager: a bot whose recording is paused when it is moved to a breakout room.
use attendee.Base.{◌≡◌, refl, false, some, arith, count}
use attendee.Base.Outcome.{ok, raise}
use attendee.Errors.{validation_error}
use attendee.States.{BotState}
use attendee.Events.Types.{EventType}
use attendee.Transitions.{next_state}
use attendee.Lifecycle.{World, Settings, Round, last_bot_event, origin_of}
use attendee.Lifecycle.Hooks.{is_recording, after_new_state_is_joined_recording_paused}
use attendee.Lifecycle.OneHook.{run_hooks-eq-hook_of}
use attendee.Lifecycle.CreateEvent.{Event, after_save, attempt}

-- The breakout room is entered, or left.
pub data IsReturn : EventType → BotState → EventType → Type 0 where
  joined :
      IsReturn EventType.bot_joined_breakout_room BotState.joining_breakout_room
        EventType.bot_began_joining_breakout_room
  left :
      IsReturn EventType.bot_left_breakout_room BotState.leaving_breakout_room
        EventType.bot_began_leaving_breakout_room

back_to_paused :
    (e : EventType) (s : BotState) (began : EventType)
    → IsReturn e s began
    → next_state e s (some (BotState.joined_recording_paused, began))
      ≡ ok BotState.joined_recording_paused
unfolding next_state
back_to_paused e s began joined = refl
back_to_paused e s began left = refl

paused_hook_refused :
    (round : Round) (w : World)
    → count is_recording w.recordings ≡ 0
    → after_new_state_is_joined_recording_paused round w ≡ raise validation_error
unfolding after_new_state_is_joined_recording_paused
paused_hook_refused round w idle = ground arith

after_save_refused :
    (settings : Settings) (round : Round) (e : Event) (s : BotState) (w : World)
    → count is_recording w.recordings ≡ 0
    → after_save settings round e s BotState.joined_recording_paused w ≡ raise validation_error
unfolding after_save
after_save_refused settings round e s w idle =
    rw
      (run_hooks-eq-hook_of round e.event_type e.event_sub_type e.event_metadata
        BotState.joined_recording_paused w)
      (rw (paused_hook_refused round w idle) refl)

-- If a bot's last event took it from the paused state towards or out of a breakout room, and none of
-- its recordings is in progress, as is so while its recording is paused, then an attempt at the event
-- that completes the move, disturbed by no other process, raises a validation error.
pub attempt-paused_return_refused :
    (settings : Settings) (round : Round) (e : Event) (began : EventType) (w : World)
    → IsReturn e.event_type w.bot.state began
    → origin_of (last_bot_event w) ≡ some (BotState.joined_recording_paused, began)
    → round.bot_stale ≡ false
    → round.thread BotState.joined_recording_paused ≡ BotState.joined_recording_paused
    → count is_recording ((round.commits w).recordings) ≡ 0
    → attempt settings round e w ≡ raise validation_error
unfolding attempt
attempt-paused_return_refused settings round e began w return last fresh kept idle = rw last (
    rw (back_to_paused e.event_type w.bot.state began return)
      (rw fresh (rw kept (after_save_refused settings _ e w.bot.state _ idle))))
