-- ===== src/Lifecycle/Frame.antt =====
-- bots/models.py, the hooks of BotEventManager.create_event, beside the bot's row and its log.
use attendee.Base.{◌≡◌, refl, Option, arith}
use attendee.Base.Outcome.{Ensures}
use attendee.States.{BotState}
use attendee.Events.Types.{EventType}
use attendee.Events.SubTypes.{EventSubType}
use attendee.Lifecycle.{Metadata, World, Settings, Round}
use attendee.Lifecycle.Hooks.{
  after_new_state_is_joined_recording, after_new_state_is_joined_recording_paused,
  after_new_state_is_joined_recording_permission_denied, after_new_state_is_staged,
  after_new_state_is_fatal_error, run_hooks,
}
use attendee.Lifecycle.OneHook.{hook_of, run_hooks-eq-hook_of}
use attendee.Lifecycle.Ending.{charge_bot, after_transition_to_post_meeting_state}
use attendee.Lifecycle.CreateEvent.{Event, finish_meeting}

abbrev pub IsFramed : World → World → Type 0
IsFramed v w = (w.bot ≡ v.bot) × (w.events ≡ v.events)

recording-IsFramed :
    (round : Round) (e : EventType) (v w : World)
    → IsFramed v w
    → Ensures (IsFramed v) (after_new_state_is_joined_recording round e w)
unfolding after_new_state_is_joined_recording
recording-IsFramed round e v w h = ground arith

paused-IsFramed :
    (round : Round) (v w : World)
    → IsFramed v w
    → Ensures (IsFramed v) (after_new_state_is_joined_recording_paused round w)
unfolding after_new_state_is_joined_recording_paused
paused-IsFramed round v w h = ground arith

denied-IsFramed :
    (round : Round) (v w : World)
    → IsFramed v w
    → Ensures (IsFramed v) (after_new_state_is_joined_recording_permission_denied round w)
unfolding after_new_state_is_joined_recording_permission_denied
denied-IsFramed round v w h = ground arith

staged-IsFramed :
    (m : Metadata) (v w : World)
    → IsFramed v w
    → Ensures (IsFramed v) (after_new_state_is_staged m w)
unfolding after_new_state_is_staged
staged-IsFramed m v w h = ground arith

fatal-IsFramed :
    (e : EventType) (sub : Option EventSubType) (v w : World)
    → IsFramed v w
    → Ensures (IsFramed v) (after_new_state_is_fatal_error e sub w)
unfolding after_new_state_is_fatal_error
fatal-IsFramed e sub v w h = ground arith

hook-IsFramed :
    (round : Round) (e : EventType) (sub : Option EventSubType) (m : Metadata) (t : BotState)
    (w : World)
    → Ensures (IsFramed w) (hook_of round e sub m t w)
hook-IsFramed round e sub m BotState.staged w = staged-IsFramed m w w (refl, refl)
hook-IsFramed round e sub m BotState.joined_recording w =
    recording-IsFramed round e w w (refl, refl)
hook-IsFramed round e sub m BotState.connected w = recording-IsFramed round e w w (refl, refl)
hook-IsFramed round e sub m BotState.joined_recording_paused w =
    paused-IsFramed round w w (refl, refl)
hook-IsFramed round e sub m BotState.joined_recording_permission_denied w =
    denied-IsFramed round w w (refl, refl)
hook-IsFramed round e sub m BotState.fatal_error w = fatal-IsFramed e sub w w (refl, refl)
hook-IsFramed round e sub m t w = (refl, refl)

pub run_hooks-IsFramed :
    (round : Round) (e : EventType) (sub : Option EventSubType) (m : Metadata) (t : BotState)
    (w : World)
    → Ensures (IsFramed w) (run_hooks round e sub m t w)
run_hooks-IsFramed round e sub m t w =
    rw (run_hooks-eq-hook_of round e sub m t w) (hook-IsFramed round e sub m t w)

charge-IsFramed :
    (settings : Settings) (round : Round) (e : EventType) (v w : World)
    → IsFramed v w
    → Ensures (λ r. IsFramed v r.0) (charge_bot settings round e w)
unfolding charge_bot
charge-IsFramed settings round e v w h = ground arith

after_transition-IsFramed :
    (settings : Settings) (round : Round) (e : EventType) (w : World)
    → Ensures (λ r. IsFramed w r.0) (after_transition_to_post_meeting_state settings round e w)
unfolding after_transition_to_post_meeting_state
after_transition-IsFramed settings round e w = grind (arith, charge-IsFramed)

pub finish_meeting-IsFramed :
    (settings : Settings) (round : Round) (e : Event) (s t : BotState) (w : World)
    → Ensures (λ r. IsFramed w r.0) (finish_meeting settings round e s t w)
unfolding finish_meeting
finish_meeting-IsFramed settings round e s t w =
    ground (arith, after_transition-IsFramed settings round e.event_type w)
