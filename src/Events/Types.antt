-- ===== src/Events/Types.antt =====
-- bots/models.py, BotEventTypes: the types of events, their integer values and their API codes.
use attendee.Base.{ℕ, String, Bool, Option, List, [], ◌∷◌, ◌==◌}
use attendee.Base.Tables.{get_by_value}

pub data EventType : Type 0 where
  bot_put_in_waiting_room bot_joined_meeting bot_recording_permission_granted meeting_ended
        bot_left_meeting join_requested fatal_error leave_requested could_not_join
        post_processing_completed data_deleted staged recording_paused recording_resumed
        bot_joined_breakout_room bot_left_breakout_room bot_began_joining_breakout_room
        bot_began_leaving_breakout_room bot_recording_permission_denied
        app_session_connection_requested app_session_connected app_session_disconnect_requested
        app_session_disconnected local_session_ended :
      EventType

-- The integer value that the database stores.
abbrev pub value : EventType → ℕ
value bot_put_in_waiting_room = 1
value bot_joined_meeting = 2
value bot_recording_permission_granted = 3
value meeting_ended = 4
value bot_left_meeting = 5
value join_requested = 6
value fatal_error = 7
value leave_requested = 8
value could_not_join = 9
value post_processing_completed = 10
value data_deleted = 11
value staged = 12
value recording_paused = 13
value recording_resumed = 14
value bot_joined_breakout_room = 15
value bot_left_breakout_room = 16
value bot_began_joining_breakout_room = 17
value bot_began_leaving_breakout_room = 18
value bot_recording_permission_denied = 19
value app_session_connection_requested = 100
value app_session_connected = 101
value app_session_disconnect_requested = 102
value app_session_disconnected = 103
value local_session_ended = 104

abbrev pub api_codes : List (EventType × String)
api_codes =
    (bot_put_in_waiting_room, "put_in_waiting_room")
    ∷ (bot_joined_meeting, "joined_meeting")
    ∷ (bot_recording_permission_granted, "recording_permission_granted")
    ∷ (meeting_ended, "meeting_ended")
    ∷ (bot_left_meeting, "left_meeting")
    ∷ (join_requested, "join_requested")
    ∷ (fatal_error, "fatal_error")
    ∷ (leave_requested, "leave_requested")
    ∷ (could_not_join, "could_not_join_meeting")
    ∷ (post_processing_completed, "post_processing_completed")
    ∷ (data_deleted, "data_deleted")
    ∷ (staged, "staged")
    ∷ (recording_paused, "recording_paused")
    ∷ (recording_resumed, "recording_resumed")
    ∷ (bot_joined_breakout_room, "joined_breakout_room")
    ∷ (bot_left_breakout_room, "left_breakout_room")
    ∷ (bot_began_joining_breakout_room, "began_joining_breakout_room")
    ∷ (bot_began_leaving_breakout_room, "began_leaving_breakout_room")
    ∷ (bot_recording_permission_denied, "recording_permission_denied")
    ∷ (app_session_connection_requested, "app_session_connection_requested")
    ∷ (app_session_connected, "app_session_connected")
    ∷ (app_session_disconnect_requested, "app_session_disconnect_requested")
    ∷ (app_session_disconnected, "app_session_disconnected")
    ∷ (local_session_ended, "local_session_ended")
    ∷ []

-- `BotEventTypes.type_to_api_code`
unfoldable pub type_to_api_code : ℕ → Option String
type_to_api_code = get_by_value value api_codes

abbrev pub same_type : EventType → EventType → Bool
same_type a b = value a == value b
