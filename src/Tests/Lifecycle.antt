-- ===== src/Tests/Lifecycle.antt =====
-- The theorems on events, at concrete rows.
use attendee.Base.{ℕ, zero, suc, ◌≢◌, ◌≡◌, refl, true, some, [], ◌∷◌, count, arith}
use attendee.Base.Outcome.{ok, raise}
use attendee.Errors.{validation_error, record_modified_error}
use attendee.States.{BotState}
use attendee.Events.Types.{EventType}
use attendee.Events.Constraint.{insert_accepted}
use attendee.Recordings.Terminate.{end_recording, end_transcription, terminate_recording}
use attendee.Credits.{create_transaction}
use attendee.Base.Int.{pos, ◌+ℤ◌}
use attendee.Bots.Billing.{centicredits_consumed}
use attendee.Transitions.{next_state, is_post_meeting_state}
use attendee.Lifecycle.{World, Round}
use attendee.Lifecycle.Hooks.{run_hooks}
use attendee.Lifecycle.Ending.{
  terminate_running, amount_due, charge_bot, after_transition_to_post_meeting_state,
}
use attendee.Lifecycle.CreateEvent.{
  finish_meeting, insert_event, notify, after_save, attempt, create_event_loop, create_event,
}
use attendee.Lifecycle.Log.{IsConsistent, IsHonest, HappensIn, create_event-HappensIn}
use attendee.Lifecycle.Aftermath.{IsSettled, attempt-IsSettled}
use attendee.Lifecycle.EndsOnce.{is_ending, IsUntouched, attempt-ends_once}
use attendee.Lifecycle.Retries.{outcome_of, attempt_after, create_event_settles}
use attendee.Lifecycle.ActionTaken.{set_requested_bot_action_taken_at}
use attendee.Lifecycle.Breakout.{joined, attempt-paused_return_refused}
use attendee.Tests.{
  value_of, running, paused, finished, world, logged, event, charging, quiet, disturbed,
}

abbrev ready : World
ready = world BotState.ready finished []

abbrev always_quiet : ℕ → Round
always_quiet k = quiet

abbrev always_disturbed : ℕ → Round
always_disturbed k = disturbed

-- Disturbed once, and then not.
abbrev disturbed_once : ℕ → Round
disturbed_once zero = disturbed
disturbed_once (suc k) = quiet

quiet-IsHonest : IsHonest BotState.ready always_quiet
quiet-IsHonest k w h = (h, λ fresh. refl)

abbrev joining : World
joining = value_of ready (attempt charging quiet (event EventType.join_requested) ready)

joining_done :
    create_event charging 3 always_quiet (event EventType.join_requested) ready ≡ ok (some joining)
unfolding create_event create_event_loop attempt after_save next_state run_hooks finish_meeting
    insert_event insert_accepted notify
joining_done = refl

create_event-HappensIn_example :
    HappensIn BotState.ready always_quiet 3 (event EventType.join_requested) ready joining
create_event-HappensIn_example =
    create_event-HappensIn charging 3 always_quiet BotState.ready (event EventType.join_requested)
      ready joining quiet-IsHonest refl joining_done

abbrev wrapping_up : World
wrapping_up = world BotState.post_processing running []

abbrev ended : World
ended =
    value_of wrapping_up
      (attempt charging quiet (event EventType.post_processing_completed) wrapping_up)

ended_done :
    attempt charging quiet (event EventType.post_processing_completed) wrapping_up ≡ ok ended
unfolding attempt after_save next_state run_hooks finish_meeting insert_event insert_accepted notify
    after_transition_to_post_meeting_state terminate_running terminate_recording end_recording
    end_transcription charge_bot amount_due centicredits_consumed create_transaction
ended_done = refl

ended_state : is_post_meeting_state ended.bot.state ≡ true
unfolding attempt after_save next_state run_hooks finish_meeting insert_event insert_accepted notify
    after_transition_to_post_meeting_state terminate_running terminate_recording end_recording
    end_transcription charge_bot amount_due centicredits_consumed create_transaction
ended_state = refl

attempt-IsSettled_example :
    IsSettled charging quiet EventType.post_processing_completed wrapping_up.ledger ended
attempt-IsSettled_example =
    attempt-IsSettled charging quiet (event EventType.post_processing_completed) wrapping_up ended
      refl ended_state ended_done

-- What is left of the bot's hour.
ended_credits : ended.ledger.centicredits ≡ pos 1400
unfolding attempt after_save next_state run_hooks finish_meeting insert_event insert_accepted notify
    after_transition_to_post_meeting_state terminate_running terminate_recording end_recording
    end_transcription charge_bot amount_due create_transaction centicredits_consumed ◌+ℤ◌
ended_credits = refl

abbrev logged_end : World
logged_end = world BotState.fatal_error finished (
    logged BotState.ready BotState.joining EventType.join_requested
    ∷ logged BotState.joining BotState.fatal_error EventType.fatal_error
    ∷ [])

abbrev logged_deletion : World
logged_deletion =
    value_of logged_end (attempt charging quiet (event EventType.data_deleted) logged_end)

logged_deletion_done :
    attempt charging quiet (event EventType.data_deleted) logged_end ≡ ok logged_deletion
unfolding attempt after_save next_state run_hooks finish_meeting insert_event insert_accepted notify
logged_deletion_done = refl

logged_end-IsConsistent : IsConsistent BotState.ready logged_end
unfolding next_state
logged_end-IsConsistent = (refl, refl, (refl, refl, refl))

attempt-ends_once_example :
    (count is_ending logged_end.events ≡ 1)
    × (is_post_meeting_state logged_end.bot.state ≡ true)
    × (is_post_meeting_state logged_deletion.bot.state ≡ true)
    × IsUntouched (quiet.commits logged_end) logged_deletion
attempt-ends_once_example =
    attempt-ends_once charging quiet BotState.ready (event EventType.data_deleted) logged_end
      logged_deletion logged_end-IsConsistent (omega arith) logged_deletion_done

stale_once :
    attempt charging disturbed (event EventType.join_requested) ready ≡ raise record_modified_error
unfolding attempt next_state
stale_once = refl

fresh_then :
    attempt_after charging disturbed_once (event EventType.join_requested) 0 1 ready ≡ ok joining
unfolding attempt after_save next_state run_hooks finish_meeting insert_event insert_accepted notify
fresh_then = refl

fresh_then-settles :
    attempt_after charging disturbed_once (event EventType.join_requested) 0 1 ready
    ≢ raise record_modified_error
fresh_then-settles h = ground (arith, fresh_then, h)

create_event_settles_example :
    create_event charging 3 disturbed_once (event EventType.join_requested) ready
    ≡ outcome_of (attempt_after charging disturbed_once (event EventType.join_requested) 0 1 ready)
create_event_settles_example =
    create_event_settles charging disturbed_once (event EventType.join_requested) 3 1 ready
      (omega arith) (stale_once, tt) fresh_then-settles

abbrev asked : World
asked =
    world BotState.joining finished
      (logged BotState.ready BotState.joining EventType.join_requested ∷ [])

asked-IsConsistent : IsConsistent BotState.ready asked
unfolding next_state
asked-IsConsistent = (refl, refl, refl)

abbrev acted : World
acted = value_of asked (set_requested_bot_action_taken_at 5000 asked)

acted_done : set_requested_bot_action_taken_at 5000 asked ≡ ok acted
unfolding set_requested_bot_action_taken_at
acted_done = refl

abbrev moving : World
moving = world BotState.joining_breakout_room paused (
    logged BotState.joined_recording_paused BotState.joining_breakout_room
      EventType.bot_began_joining_breakout_room
    ∷ [])

attempt-paused_return_refused_example :
    attempt charging quiet (event EventType.bot_joined_breakout_room) moving
    ≡ raise validation_error
attempt-paused_return_refused_example =
    attempt-paused_return_refused charging quiet (event EventType.bot_joined_breakout_room)
      EventType.bot_began_joining_breakout_room moving joined refl refl refl refl
