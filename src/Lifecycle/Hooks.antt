-- ===== src/Lifecycle/Hooks.antt =====
-- bots/models.py, the `after_new_state_is_...` methods of BotEventManager.
use text.Mathlib.Text.{◌==◌ as str_eq}
use attendee.Base.{
  Bool, ◌||◌, Option, none, some, List, [], ◌∷◌, ◌++◌, ◌==◌, if◌then◌else◌, leb, count,
}
use attendee.Base.Outcome.{ok, raise, ◌>>=◌, ◌>>◌, require}
use attendee.Errors.{Result, validation_error, attribute_error}
use attendee.States.{BotState, same_state}
use attendee.Events.Types.{EventType, same_type}
use attendee.Events.SubTypes.{EventSubType}
use attendee.Recordings.{
  RecordingState, is, Recording, Saved, Deferred, set_recording_in_progress, set_recording_paused,
}
use attendee.Lifecycle.{Metadata, World, Round, with_recordings, maybe_create_replacement_bot}

-- `.first()` of a query, and a call of the manager on it: the other rows stay.
unfoldable pub on_first :
    (Recording → Bool)
    → (Recording → Result Saved)
    → List Recording
    → Result (List Recording × List Deferred)
on_first p f [] = ok ([], [])
on_first p f (r ∷ rs) =
    let here = f r >>= (λ s. ok (s.0 ∷ rs, s.1)) in
    let later = on_first p f rs >>= (λ s. ok (r ∷ s.0, s.1)) in if p r then here else later

abbrev pub is_pending : Recording → Bool
is_pending r = is r.state RecordingState.not_started || is r.state RecordingState.paused

abbrev pub is_recording : Recording → Bool
is_recording r = is r.state RecordingState.in_progress

abbrev is_breakout_event : EventType → Bool
is_breakout_event e =
    same_type e EventType.bot_joined_breakout_room || same_type e EventType.bot_left_breakout_room

-- Also `after_new_state_is_connected`, which calls it.
unfoldable pub after_new_state_is_joined_recording : Round → EventType → World → Result World
unfolding on_first set_recording_in_progress
after_new_state_is_joined_recording round e w =
    if count is_pending w.recordings == 1
    then on_first is_pending (set_recording_in_progress round.recording_stale round.now)
        w.recordings
      >>= (λ rs. ok (with_recordings w rs))
    else if is_breakout_event e
    then ok w
    else raise validation_error

unfoldable pub after_new_state_is_joined_recording_paused : Round → World → Result World
unfolding on_first set_recording_paused
after_new_state_is_joined_recording_paused round w = do
  require (count is_recording w.recordings == 1) validation_error
  rs ← on_first is_recording (set_recording_paused round.recording_stale) w.recordings
  ok (with_recordings w rs)

unfoldable pub after_new_state_is_joined_recording_permission_denied : Round → World → Result World
unfolding on_first set_recording_paused
after_new_state_is_joined_recording_permission_denied round w = do
  require (leb (count is_recording w.recordings) 1) validation_error
  if count is_recording w.recordings == 0
      then ok w
      else (on_first is_recording (set_recording_paused round.recording_stale) w.recordings
          >>= (λ rs. ok (with_recordings w rs)))

-- `join_at` must be given, and be the time that the row holds.
unfoldable pub after_new_state_is_staged : Metadata → World → Result World
after_new_state_is_staged m w = elim m.join_at [
  | none ↦ raise validation_error
  | some given ↦ elim w.bot.join_at [
    | none ↦ raise attribute_error
    | some stored ↦ if str_eq stored given then ok w else raise validation_error
  ]
]

-- The message to Slack is left out.
unfoldable pub after_new_state_is_fatal_error :
    EventType → Option EventSubType → World → Result World
after_new_state_is_fatal_error e sub w =
    if same_type e EventType.fatal_error
    then ok (record w { on_commit = w.on_commit ++ maybe_create_replacement_bot sub ∷ [] })
    else ok w

-- `if new_state == s: hook()`
abbrev pub on_state : BotState → BotState → (World → Result World) → World → Result World
on_state s new_state hook w = if same_state new_state s then hook w else ok w

-- The six tests of the new state, one after the other.
unfoldable pub run_hooks :
    Round → EventType → Option EventSubType → Metadata → BotState → World → Result World
unfolding after_new_state_is_joined_recording after_new_state_is_joined_recording_paused
    after_new_state_is_joined_recording_permission_denied after_new_state_is_staged
    after_new_state_is_fatal_error
run_hooks round e sub m new_state w =
    on_state BotState.staged new_state (after_new_state_is_staged m) w
    >>= on_state BotState.joined_recording new_state (after_new_state_is_joined_recording round e)
    >>= on_state BotState.connected new_state (after_new_state_is_joined_recording round e)
    >>= on_state BotState.joined_recording_paused new_state
        (after_new_state_is_joined_recording_paused round)
    >>= on_state BotState.joined_recording_permission_denied new_state
        (after_new_state_is_joined_recording_permission_denied round)
    >>= on_state BotState.fatal_error new_state (after_new_state_is_fatal_error e sub)
