-- ===== src/Events/Constraint/Causes.antt =====
-- bots/models.py, BotEvent.Meta.constraints, beside the event types that the names of the sub-types say.
use attendee.Base.{Bool, true, Option, none, some, ◌≡◌, refl}
use attendee.Events.Types.{EventType, same_type}
use attendee.Events.SubTypes.{EventSubType}
use attendee.Events.Constraint.{insert_accepted}

-- The type of event that a sub-type explains, by its name.
abbrev explains : EventSubType → EventType
explains EventSubType.could_not_join_meeting_not_started_waiting_for_host = EventType.could_not_join
explains EventSubType.fatal_error_process_terminated = EventType.fatal_error
explains EventSubType.could_not_join_meeting_zoom_authorization_failed = EventType.could_not_join
explains EventSubType.could_not_join_meeting_zoom_meeting_status_failed = EventType.could_not_join
explains EventSubType.could_not_join_meeting_unpublished_zoom_app = EventType.could_not_join
explains EventSubType.fatal_error_rtmp_connection_failed = EventType.fatal_error
explains EventSubType.could_not_join_meeting_zoom_sdk_internal_error = EventType.could_not_join
explains EventSubType.fatal_error_ui_element_not_found = EventType.fatal_error
explains EventSubType.could_not_join_meeting_request_to_join_denied = EventType.could_not_join
explains EventSubType.leave_requested_user_requested = EventType.leave_requested
explains EventSubType.leave_requested_auto_leave_silence = EventType.leave_requested
explains EventSubType.leave_requested_auto_leave_only_participant_in_meeting =
    EventType.leave_requested
explains EventSubType.fatal_error_heartbeat_timeout = EventType.fatal_error
explains EventSubType.could_not_join_meeting_meeting_not_found = EventType.could_not_join
explains EventSubType.fatal_error_bot_not_launched = EventType.fatal_error
explains EventSubType.could_not_join_meeting_waiting_room_timeout_exceeded =
    EventType.could_not_join
explains EventSubType.leave_requested_auto_leave_max_uptime_exceeded = EventType.leave_requested
explains EventSubType.could_not_join_meeting_login_required = EventType.could_not_join
explains EventSubType.could_not_join_meeting_bot_login_attempt_failed = EventType.could_not_join
explains EventSubType.fatal_error_out_of_credits = EventType.fatal_error
explains EventSubType.could_not_join_unable_to_connect_to_meeting = EventType.could_not_join
explains EventSubType.fatal_error_attendee_internal_error = EventType.fatal_error
explains EventSubType.bot_recording_permission_denied_host_denied_permission =
    EventType.bot_recording_permission_denied
explains EventSubType.bot_recording_permission_denied_request_timed_out =
    EventType.bot_recording_permission_denied
explains EventSubType.bot_recording_permission_denied_host_client_cannot_grant_permission =
    EventType.bot_recording_permission_denied
explains EventSubType.leave_requested_auto_leave_could_not_enable_closed_captions =
    EventType.leave_requested
explains EventSubType.could_not_join_meeting_authorized_user_not_in_meeting_timeout_exceeded =
    EventType.could_not_join
explains EventSubType.could_not_join_meeting_blocked_by_captcha = EventType.could_not_join
explains EventSubType.bot_recording_permission_denied_webinar_attendee_needs_panelist_promotion =
    EventType.bot_recording_permission_denied
explains EventSubType.could_not_join_meeting_zoom_app_cannot_join_anonymously =
    EventType.could_not_join
explains EventSubType.fatal_error_global_runtime_timeout = EventType.fatal_error

abbrev pub is_cause : EventType → Option EventSubType → Bool
is_cause e none = true
is_cause e (some s) = same_type e (explains s)

accepted_none : (e : EventType) → insert_accepted e none ≡ true
unfolding insert_accepted
accepted_none EventType.fatal_error = refl
accepted_none e = refl

accepted_some :
    (e : EventType) (s : EventSubType) → insert_accepted e (some s) ≡ same_type e (explains s)
unfolding insert_accepted
accepted_some EventType.fatal_error EventSubType.fatal_error_bot_not_launched = refl
accepted_some EventType.fatal_error s = refl
accepted_some EventType.could_not_join EventSubType.fatal_error_bot_not_launched = refl
accepted_some EventType.could_not_join s = refl
accepted_some EventType.leave_requested EventSubType.fatal_error_bot_not_launched = refl
accepted_some EventType.leave_requested s = refl
accepted_some EventType.bot_recording_permission_denied EventSubType.fatal_error_bot_not_launched =
    refl
accepted_some EventType.bot_recording_permission_denied s = refl
accepted_some e EventSubType.fatal_error_bot_not_launched = refl
accepted_some e s = refl

-- A row with a sub-type is accepted exactly when the sub-type is one of the row's own event type; a
-- row with no sub-type is accepted whatever its type.
pub insert_accepted-is_cause :
    (e : EventType) (s : Option EventSubType) → insert_accepted e s ≡ is_cause e s
insert_accepted-is_cause e none = accepted_none e
insert_accepted-is_cause e (some s) = accepted_some e s
