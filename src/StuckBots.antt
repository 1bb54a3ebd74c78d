-- ===== src/StuckBots.antt =====
-- bots/management/commands/clean_up_bots_with_heartbeat_timeout_or_that_never_launched.py: the command
-- that ends bots which have stopped to work. Each bot is looked at on its own; times are seconds. The
-- removal of pods and containers is left out.
pub mod Selected
pub mod Ready
use attendee.Base.{
  ℕ, zero, suc, ◌+◌, Bool, true, false, not, ◌&&◌, ◌||◌, Option, none, some, if◌then◌else◌, ltb,
  is_some,
}
use attendee.Base.Outcome.{ok, raise}
use attendee.Errors.{Result}
use attendee.States.{BotState, same_state}
use attendee.Events.Types.{EventType}
use attendee.Events.SubTypes.{EventSubType}
use attendee.Transitions.{is_post_meeting_state}
use attendee.Bots.{Bot, SessionType}
use attendee.Lifecycle.{Metadata, World, Settings, Round}
use attendee.Lifecycle.CreateEvent.{Event, create_event}

-- The rows of a bot, with the columns that only this command reads.
pub record Candidate : Type 0 where
  pub world : World
  pub created_at : ℕ
  pub join_at : Option ℕ

abbrev pub is_local : SessionType → Bool
is_local SessionType.local_recording = true
is_local session_type = false

-- `~post_meeting & ...` and `.exclude(session_type=LOCAL)`
abbrev pub is_running_bot : Bot → Bool
is_running_bot b = not (is_post_meeting_state b.state) && not (is_local b.session_type)

-- `column < time`, which a null is not.
abbrev pub before : Option ℕ → ℕ → Bool
before none time = false
before (some t) time = ltb t time

-- `time < column`
abbrev pub after : Option ℕ → ℕ → Bool
after none time = false
after (some t) time = ltb time t

-- The last heartbeat is more than ten minutes old.
unfoldable pub has_heartbeat_timeout : ℕ → Bot → Bool
has_heartbeat_timeout now b =
    is_running_bot b
    && (elim b.last_heartbeat_timestamp [ none ↦ false | some t ↦ ltb (t + 600) now ])

-- The heartbeats span more than the limit.
unfoldable pub has_runtime_timeout : ℕ → Bot → Bool
has_runtime_timeout limit b = is_running_bot b && (elim b.first_heartbeat_timestamp [
  | none ↦ false
  | some first ↦ elim b.last_heartbeat_timestamp [
    | none ↦ false
    | some last ↦ ltb (first + limit) last
  ]
])

abbrev pub seven_days : ℕ
seven_days = 604800

-- Between seven days and one hour ago.
abbrev pub is_due : ℕ → ℕ → Bool
is_due now t = ltb now (t + seven_days) && ltb (t + 3600) now

-- A bot without a heartbeat that was to join a while ago, or was created then and has no time to join.
unfoldable pub never_launched : ℕ → Candidate → Bool
never_launched now c =
    is_running_bot c.world.bot
    && (is_due now c.created_at
          && not (is_some c.world.bot.first_heartbeat_timestamp)
          && not (is_some c.join_at)
        || (elim c.join_at [ none ↦ false | some t ↦ is_due now t ])
          && not (is_some c.world.bot.first_heartbeat_timestamp))

-- A local session that has gone quiet or never sent anything.
unfoldable pub is_stale_local : ℕ → Candidate → Bool
is_stale_local now c =
    is_local c.world.bot.session_type
    && same_state c.world.bot.state BotState.ready
    && (elim c.world.bot.last_heartbeat_timestamp [
      | none ↦ ltb (c.created_at + 600) now
      | some t ↦ ltb (t + 600) now
    ])

abbrev pub no_metadata : Metadata
no_metadata = record {
  join_at = none;
  bot_duration_seconds = none;
  transcription_errors = none;
  credits_consumed = none;
}

abbrev pub fatal_error : EventSubType → Event
fatal_error sub_type = record {
  event_type = EventType.fatal_error;
  event_sub_type = some sub_type;
  event_metadata = no_metadata;
}

-- The rows after a call of `create_event`. An exception is logged and nothing is kept of the event; what
-- other processes have committed by then is not shown.
abbrev pub after_call : Candidate → Result (Option World) → Candidate
after_call c (ok none) = c
after_call c (ok (some w)) = record c { world = w }
after_call c (raise e) = c

unfoldable pub terminate_bot : Settings → (ℕ → Round) → EventSubType → Candidate → Candidate
unfolding create_event
terminate_bot settings rounds sub_type c =
    after_call c (create_event settings 3 rounds (fatal_error sub_type) c.world)

-- What surrounds a run of the command: the clock, the limit, and what happens around each scan's event.
pub record Scan : Type 0 where
  pub settings : Settings
  pub now : ℕ
  pub global_runtime_timeout_seconds : ℕ
  pub rounds : EventSubType → ℕ → Round

abbrev pub terminate_if : Bool → Scan → EventSubType → Candidate → Candidate
terminate_if selected s sub_type c =
    if selected then terminate_bot s.settings (s.rounds sub_type) sub_type c else c

unfoldable pub terminate_bots_with_heartbeat_timeout : Scan → Candidate → Candidate
unfolding has_heartbeat_timeout terminate_bot
terminate_bots_with_heartbeat_timeout s c =
    terminate_if (has_heartbeat_timeout s.now c.world.bot) s
      EventSubType.fatal_error_heartbeat_timeout c

unfoldable pub terminate_bots_with_global_runtime_timeout : Scan → Candidate → Candidate
unfolding has_runtime_timeout terminate_bot
terminate_bots_with_global_runtime_timeout s c =
    terminate_if (has_runtime_timeout s.global_runtime_timeout_seconds c.world.bot) s
      EventSubType.fatal_error_global_runtime_timeout c

unfoldable pub terminate_bots_that_never_launched : Scan → Candidate → Candidate
unfolding never_launched terminate_bot
terminate_bots_that_never_launched s c =
    terminate_if (never_launched s.now c) s EventSubType.fatal_error_bot_not_launched c

-- The command, for one bot: its rows, and whether the end of a local session is queued.
unfoldable pub handle : Scan → Candidate → Candidate × Bool
unfolding terminate_bots_with_heartbeat_timeout terminate_bots_with_global_runtime_timeout
    terminate_bots_that_never_launched is_stale_local
handle s c =
    let c' =
      terminate_bots_that_never_launched s (
        terminate_bots_with_global_runtime_timeout s (terminate_bots_with_heartbeat_timeout s c)) in
    (c', is_stale_local s.now c')
