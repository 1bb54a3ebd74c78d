-- ===== src/Transitions.antt =====
-- bots/models.py, BotEventManager.VALID_TRANSITIONS and the questions asked of it: which event may
-- happen in which state, and to which state it leads.
pub mod Graph
pub mod Slots
use attendee.Base.{
  ℕ, Bool, true, false, ◌||◌, Option, none, some, List, [], ◌∷◌, ◌==◌, if◌then◌else◌, get_last?,
}
use attendee.Base.Outcome.{ok, raise, ◌>>=◌, ◌>>◌, require}
use attendee.Errors.{
  Result, key_error, type_error, attribute_error, validation_error, unexpected_event,
  unexpected_from_state,
}
use attendee.States.{BotState, same_state, state_in, post_meeting_states}
use attendee.Events.Types
use attendee.Events.Types.{EventType, same_type}

-- The value under `from`: one state, or a list of states.
pub data Sources : Type 0 where
  one : BotState → Sources
  many : List BotState → Sources

-- The value under `to`: a state, or `get_to_state_for_bot_breakout_room_event`.
pub data Target : Type 0 where
  constant : BotState → Target
  breakout : Target

pub data Transition : Type 0 where
  transition : Sources → Target → Transition

abbrev pub sources : Transition → Sources
sources (transition from to) = from

abbrev pub target : Transition → Target
target (transition from to) = to

abbrev pub valid_transitions : List (EventType × Transition)
valid_transitions =
    (
      EventType.join_requested,
      transition (many (BotState.ready ∷ BotState.staged ∷ [])) (constant BotState.joining),
    )
    ∷ (EventType.staged, transition (one BotState.scheduled) (constant BotState.staged))
    ∷ (
      EventType.could_not_join,
      transition (many (BotState.joining ∷ BotState.waiting_room ∷ []))
          (constant BotState.fatal_error),
    )
    ∷ (
      EventType.fatal_error,
      transition
          (many (
            BotState.joining ∷ BotState.joined_recording_paused ∷ BotState.joined_recording
            ∷ BotState.joined_not_recording ∷ BotState.joined_recording_permission_denied
            ∷ BotState.waiting_room ∷ BotState.leaving ∷ BotState.post_processing ∷ BotState.staged
            ∷ BotState.scheduled ∷ BotState.joining_breakout_room ∷ BotState.leaving_breakout_room
            ∷ BotState.connecting ∷ BotState.disconnecting ∷ BotState.connected ∷ []))
          (constant BotState.fatal_error),
    )
    ∷ (
      EventType.bot_put_in_waiting_room,
      transition (one BotState.joining) (constant BotState.waiting_room),
    )
    ∷ (
      EventType.bot_joined_meeting,
      transition (many (BotState.waiting_room ∷ BotState.joining ∷ []))
          (constant BotState.joined_not_recording),
    )
    ∷ (
      EventType.bot_recording_permission_granted,
      transition
          (many (BotState.joined_not_recording ∷ BotState.joined_recording_permission_denied ∷ []))
          (constant BotState.joined_recording),
    )
    ∷ (
      EventType.meeting_ended,
      transition
          (many (
            BotState.joined_recording_paused ∷ BotState.joined_recording
            ∷ BotState.joined_not_recording ∷ BotState.joined_recording_permission_denied
            ∷ BotState.waiting_room ∷ BotState.joining ∷ BotState.leaving
            ∷ BotState.joining_breakout_room ∷ BotState.leaving_breakout_room ∷ []))
          (constant BotState.post_processing),
    )
    ∷ (
      EventType.leave_requested,
      transition
          (many (
            BotState.joined_recording_paused ∷ BotState.joined_recording
            ∷ BotState.joined_not_recording ∷ BotState.joined_recording_permission_denied
            ∷ BotState.waiting_room ∷ BotState.joining ∷ BotState.joining_breakout_room
            ∷ BotState.leaving_breakout_room ∷ []))
          (constant BotState.leaving),
    )
    ∷ (
      EventType.bot_left_meeting,
      transition (one BotState.leaving) (constant BotState.post_processing),
    )
    ∷ (
      EventType.post_processing_completed,
      transition (one BotState.post_processing) (constant BotState.ended),
    )
    ∷ (
      EventType.data_deleted,
      transition (many (BotState.fatal_error ∷ BotState.ended ∷ []))
          (constant BotState.data_deleted),
    )
    ∷ (
      EventType.recording_paused,
      transition (one BotState.joined_recording) (constant BotState.joined_recording_paused),
    )
    ∷ (
      EventType.recording_resumed,
      transition (one BotState.joined_recording_paused) (constant BotState.joined_recording),
    )
    ∷ (EventType.bot_joined_breakout_room, transition (one BotState.joining_breakout_room) breakout)
    ∷ (EventType.bot_left_breakout_room, transition (one BotState.leaving_breakout_room) breakout)
    ∷ (
      EventType.bot_began_joining_breakout_room,
      transition
          (many (
            BotState.joined_not_recording ∷ BotState.joined_recording_permission_denied
            ∷ BotState.joined_recording ∷ BotState.joined_recording_paused ∷ []))
          (constant BotState.joining_breakout_room),
    )
    ∷ (
      EventType.bot_began_leaving_breakout_room,
      transition
          (many (
            BotState.joined_not_recording ∷ BotState.joined_recording_permission_denied
            ∷ BotState.joined_recording ∷ BotState.joined_recording_paused ∷ []))
          (constant BotState.leaving_breakout_room),
    )
    ∷ (
      EventType.bot_recording_permission_denied,
      transition
          (many (
            BotState.joined_not_recording ∷ BotState.joined_recording_permission_denied
            ∷ BotState.joined_recording ∷ BotState.joined_recording_paused ∷ []))
          (constant BotState.joined_recording_permission_denied),
    )
    ∷ (
      EventType.app_session_connection_requested,
      transition (one BotState.ready) (constant BotState.connecting),
    )
    ∷ (
      EventType.app_session_connected,
      transition (one BotState.connecting) (constant BotState.connected),
    )
    ∷ (
      EventType.app_session_disconnect_requested,
      transition (many (BotState.connected ∷ BotState.connecting ∷ []))
          (constant BotState.disconnecting),
    )
    ∷ (
      EventType.app_session_disconnected,
      transition (one BotState.disconnecting) (constant BotState.post_processing),
    )
    ∷ (EventType.local_session_ended, transition (one BotState.ready) (constant BotState.ended))
    ∷ []

abbrev get : List (EventType × Transition) → EventType → Option Transition
get [] e = none
get ((k, t) ∷ rest) e = let later = get rest e in if same_type k e then some t else later

-- `VALID_TRANSITIONS.get(event_type)`
unfoldable pub get_transition : EventType → Option Transition
get_transition = get valid_transitions

-- `valid_from_states`, made a list where it is one state.
abbrev pub from_states : Sources → List BotState
from_states (one s) = s ∷ []
from_states (many l) = l

-- `state in` the value under `from`: a single state is no container.
abbrev pub state_in_sources : BotState → Sources → Result Bool
state_in_sources s (one t) = raise type_error
state_in_sources s (many l) = ok (state_in s l)

unfoldable pub event_can_be_created_for_state : EventType → BotState → Result Bool
unfolding get_transition
event_can_be_created_for_state e s = elim (get_transition e) [
  | none ↦ raise key_error
  | some t ↦ state_in_sources s (sources t)
]

abbrev pub in_from_states : EventType → BotState → Bool
in_from_states e s = elim (get_transition e) [
  | none ↦ false
  | some t ↦ state_in s (from_states (sources t))
]

unfoldable pub is_state_that_can_pause_recording : BotState → Bool
unfolding get_transition
is_state_that_can_pause_recording s = in_from_states EventType.recording_paused s

unfoldable pub is_state_that_can_resume_recording : BotState → Bool
unfolding get_transition
is_state_that_can_resume_recording s = in_from_states EventType.recording_resumed s

-- The test that `is_state_that_can_play_media`, `..._admit_from_waiting_room`,
-- `..._update_transcription_settings`, `..._change_gallery_view_page` and
-- `..._update_voice_agent_settings` all make.
unfoldable pub is_state_that_can_play_media : BotState → Bool
is_state_that_can_play_media s =
    same_state s BotState.joined_recording
    || same_state s BotState.joined_not_recording
    || same_state s BotState.joined_recording_permission_denied
    || same_state s BotState.joined_recording_paused

abbrev pub is_post_meeting_state : BotState → Bool
is_post_meeting_state s = state_in s post_meeting_states

abbrev pub bot_event_type_should_incur_charges : EventType → Bool
bot_event_type_should_incur_charges e = if same_type e EventType.fatal_error then false else true

-- The states in which a breakout room may be entered or left.
abbrev pub is_breakout_origin : BotState → Bool
is_breakout_origin s = state_in s (
    BotState.joined_not_recording ∷ BotState.joined_recording_permission_denied
    ∷ BotState.joined_recording ∷ BotState.joined_recording_paused ∷ [])

-- `get_to_state_for_bot_breakout_room_event`, of the old state and the type of the bot's last event.
unfoldable pub get_to_state_for_bot_breakout_room_event :
    Option (BotState × EventType) → Result BotState
get_to_state_for_bot_breakout_room_event none = raise attribute_error
get_to_state_for_bot_breakout_room_event (some (old_state, event_type)) = do
  require
      (same_type event_type EventType.bot_began_joining_breakout_room
        || same_type event_type EventType.bot_began_leaving_breakout_room)
      unexpected_event
  require (is_breakout_origin old_state) unexpected_from_state
  ok old_state

-- The new state: the constant, or what the function gives.
unfoldable pub to_state : Target → Option (BotState × EventType) → Result BotState
unfolding get_to_state_for_bot_breakout_room_event
to_state (constant s) last = ok s
to_state breakout last = get_to_state_for_bot_breakout_room_event last

-- The part of `create_event` that decides: the transition, the guard on the current state, and the
-- new state. `last` is the old state and the type of the bot's last event.
unfoldable pub next_state : EventType → BotState → Option (BotState × EventType) → Result BotState
unfolding get_transition to_state
next_state e s last = elim (get_transition e) [
  | none ↦ raise validation_error
  | some t ↦
      require (state_in s (from_states (sources t))) validation_error >> to_state (target t) last
]
