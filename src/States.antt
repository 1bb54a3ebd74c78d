-- ===== src/States.antt =====
-- bots/models.py, BotStates: the states of a bot, their integer values, their API codes and the
-- groups of states that other parts ask for.
pub mod Codes
use attendee.Base.{
  ℕ, String, Bool, ◌||◌, Option, none, some, List, [], ◌∷◌, map, ◌==◌, if◌then◌else◌, is_in,
}
use attendee.Base.Tables.{get_by_value, get_by_code}

pub data BotState : Type 0 where
  ready joining joined_not_recording joined_recording leaving post_processing fatal_error
        waiting_room ended data_deleted scheduled staged joined_recording_paused
        joining_breakout_room leaving_breakout_room joined_recording_permission_denied connecting
        connected disconnecting :
      BotState

-- The integer value that the database stores.
abbrev pub value : BotState → ℕ
value ready = 1
value joining = 2
value joined_not_recording = 3
value joined_recording = 4
value leaving = 5
value post_processing = 6
value fatal_error = 7
value waiting_room = 8
value ended = 9
value data_deleted = 10
value scheduled = 11
value staged = 12
value joined_recording_paused = 13
value joining_breakout_room = 14
value leaving_breakout_room = 15
value joined_recording_permission_denied = 16
value connecting = 100
value connected = 101
value disconnecting = 102

abbrev pub api_codes : List (BotState × String)
api_codes =
    (ready, "ready")
    ∷ (joining, "joining")
    ∷ (joined_not_recording, "joined_not_recording")
    ∷ (joined_recording, "joined_recording")
    ∷ (leaving, "leaving")
    ∷ (post_processing, "post_processing")
    ∷ (fatal_error, "fatal_error")
    ∷ (waiting_room, "waiting_room")
    ∷ (ended, "ended")
    ∷ (data_deleted, "data_deleted")
    ∷ (scheduled, "scheduled")
    ∷ (staged, "staged")
    ∷ (joined_recording_paused, "joined_recording_paused")
    ∷ (joining_breakout_room, "joining_breakout_room")
    ∷ (leaving_breakout_room, "leaving_breakout_room")
    ∷ (joined_recording_permission_denied, "joined_recording_permission_denied")
    ∷ (connecting, "connecting")
    ∷ (connected, "connected")
    ∷ (disconnecting, "disconnecting")
    ∷ []

-- `BotStates.state_to_api_code`, on the integer that a row holds.
unfoldable pub state_to_api_code : ℕ → Option String
state_to_api_code = get_by_value value api_codes

-- `BotStates.api_code_to_state`: the mapping read backwards.
unfoldable pub api_code_to_state : String → Option BotState
api_code_to_state = get_by_code api_codes

abbrev pub post_meeting_states : List BotState
post_meeting_states = fatal_error ∷ ended ∷ data_deleted ∷ []

abbrev pub pre_meeting_states : List BotState
pre_meeting_states = ready ∷ scheduled ∷ staged ∷ []

-- The states in which a bot holds its meeting's slot.
abbrev pub holds_meeting_slot_states : List BotState
holds_meeting_slot_states =
    ready ∷ joining ∷ joined_not_recording ∷ joined_recording ∷ leaving ∷ waiting_room ∷ scheduled
    ∷ staged ∷ joined_recording_paused ∷ joining_breakout_room ∷ leaving_breakout_room
    ∷ joined_recording_permission_denied ∷ []

abbrev pub same_state : BotState → BotState → Bool
same_state a b = value a == value b

-- `state in [...]`
abbrev pub state_in : BotState → List BotState → Bool
state_in s l = is_in (value s) (map value l)
