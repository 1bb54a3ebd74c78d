-- ===== src/StuckBots/Ready.antt =====
-- bots/management/commands/clean_up_bots_with_heartbeat_timeout_or_that_never_launched.py and the transitions
-- of bots/models.py: what becomes of a bot that was never asked to join.
use attendee.Base.{ℕ, ◌≡◌, refl, sym, ap, ◌∙◌, Bool, true, false, Option, arith, if◌then◌else◌}
use attendee.Base.Outcome.{ok, raise}
use attendee.Errors.{Result, validation_error, record_modified_error}
use attendee.States.{BotState, same_state}
use attendee.Events.Types.{EventType}
use attendee.Events.SubTypes.{EventSubType}
use attendee.Transitions.{next_state, is_post_meeting_state}
use attendee.Lifecycle.{World, Settings, Round}
use attendee.Lifecycle.CreateEvent.{attempt, create_event}
use attendee.Lifecycle.Retries.{outcome_of, create_event_settles}
use attendee.StuckBots.{
  Candidate, after_call, Scan, fatal_error, terminate_bot, terminate_if, has_heartbeat_timeout,
  has_runtime_timeout, never_launched, is_stale_local, terminate_bots_with_heartbeat_timeout,
  terminate_bots_with_global_runtime_timeout, terminate_bots_that_never_launched, handle,
}

-- A bot whose meeting is not over may fail in every state but one: when it is ready.
pub next_state_of_failure :
    (s : BotState) (last : Option (BotState × EventType))
    → is_post_meeting_state s ≡ false
    → next_state EventType.fatal_error s last
      ≡ (if same_state s BotState.ready then raise validation_error else ok BotState.fatal_error)
unfolding next_state
next_state_of_failure s last running = ground (arith, running)

attempt_refused :
    (settings : Settings) (round : Round) (sub_type : EventSubType) (w : World)
    → w.bot.state ≡ BotState.ready
    → attempt settings round (fatal_error sub_type) w ≡ raise validation_error
unfolding attempt next_state
attempt_refused settings round sub_type w ready = rw ready

other_error :
    {A : Type 0} → ◌≡◌ {A = Result A} (raise validation_error) (raise record_modified_error) → ⊥
other_error e = cc

event_refused :
    (settings : Settings) (rounds : ℕ → Round) (sub_type : EventSubType) (w : World)
    → w.bot.state ≡ BotState.ready
    → create_event settings 3 rounds (fatal_error sub_type) w ≡ raise validation_error
event_refused settings rounds sub_type w ready =
    let refused = attempt_refused settings (rounds 0) sub_type w ready in
    create_event_settles settings rounds (fatal_error sub_type) 3 0 w (omega arith) tt
      (λ stale. other_error (sym refused ∙ stale))
    ∙ ap outcome_of refused

terminate_bot_kept :
    (settings : Settings) (rounds : ℕ → Round) (sub_type : EventSubType) (c : Candidate)
    → c.world.bot.state ≡ BotState.ready
    → terminate_bot settings rounds sub_type c ≡ c
unfolding terminate_bot
terminate_bot_kept settings rounds sub_type c ready =
    ap (after_call c) (event_refused settings rounds sub_type c.world ready)

terminate_if_kept :
    (selected : Bool) (s : Scan) (sub_type : EventSubType) (c : Candidate)
    → c.world.bot.state ≡ BotState.ready
    → terminate_if selected s sub_type c ≡ c
terminate_if_kept false s sub_type c ready = refl
terminate_if_kept true s sub_type c ready =
    terminate_bot_kept s.settings (s.rounds sub_type) sub_type c ready

heartbeat_kept :
    (s : Scan) (c : Candidate)
    → c.world.bot.state ≡ BotState.ready
    → terminate_bots_with_heartbeat_timeout s c ≡ c
unfolding terminate_bots_with_heartbeat_timeout
heartbeat_kept s c ready =
    terminate_if_kept (has_heartbeat_timeout s.now c.world.bot) s
      EventSubType.fatal_error_heartbeat_timeout c ready

runtime_kept :
    (s : Scan) (c : Candidate)
    → c.world.bot.state ≡ BotState.ready
    → terminate_bots_with_global_runtime_timeout s c ≡ c
unfolding terminate_bots_with_global_runtime_timeout
runtime_kept s c ready =
    terminate_if_kept (has_runtime_timeout s.global_runtime_timeout_seconds c.world.bot) s
      EventSubType.fatal_error_global_runtime_timeout c ready

launch_kept :
    (s : Scan) (c : Candidate)
    → c.world.bot.state ≡ BotState.ready
    → terminate_bots_that_never_launched s c ≡ c
unfolding terminate_bots_that_never_launched
launch_kept s c ready =
    terminate_if_kept (never_launched s.now c) s EventSubType.fatal_error_bot_not_launched c ready

-- The command never ends a bot that is ready, also one that never launched and is selected for it: the
-- failure is no valid event in that state, and the bot's rows stay as they are.
pub handle-keeps_ready :
    (s : Scan) (c : Candidate)
    → c.world.bot.state ≡ BotState.ready
    → handle s c ≡ (c, is_stale_local s.now c)
unfolding handle
handle-keeps_ready s c ready =
    ap (λ c'. (c', is_stale_local s.now c'))
      (ap (terminate_bots_that_never_launched s) (
          ap (terminate_bots_with_global_runtime_timeout s) (heartbeat_kept s c ready)
          ∙ runtime_kept s c ready)
        ∙ launch_kept s c ready)
