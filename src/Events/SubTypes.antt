-- ===== src/Events/SubTypes.antt =====
-- bots/models.py, BotEventSubTypes: why an event happened.
use attendee.Base.{ℕ, String, Option, List, [], ◌∷◌}
use attendee.Base.Tables.{get_by_value}

pub data EventSubType : Type 0 where
  could_not_join_meeting_not_started_waiting_for_host fatal_error_process_terminated
        could_not_join_meeting_zoom_authorization_failed
        could_not_join_meeting_zoom_meeting_status_failed
        could_not_join_meeting_unpublished_zoom_app fatal_error_rtmp_connection_failed
        could_not_join_meeting_zoom_sdk_internal_error fatal_error_ui_element_not_found
        could_not_join_meeting_request_to_join_denied leave_requested_user_requested
        leave_requested_auto_leave_silence leave_requested_auto_leave_only_participant_in_meeting
        fatal_error_heartbeat_timeout could_not_join_meeting_meeting_not_found
        fatal_error_bot_not_launched could_not_join_meeting_waiting_room_timeout_exceeded
        leave_requested_auto_leave_max_uptime_exceeded could_not_join_meeting_login_required
        could_not_join_meeting_bot_login_attempt_failed fatal_error_out_of_credits
        could_not_join_unable_to_connect_to_meeting fatal_error_attendee_internal_error
        bot_recording_permission_denied_host_denied_permission
        bot_recording_permission_denied_request_timed_out
        bot_recording_permission_denied_host_client_cannot_grant_permission
        leave_requested_auto_leave_could_not_enable_closed_captions
        could_not_join_meeting_authorized_user_not_in_meeting_timeout_exceeded
        could_not_join_meeting_blocked_by_captcha
        bot_recording_permission_denied_webinar_attendee_needs_panelist_promotion
        could_not_join_meeting_zoom_app_cannot_join_anonymously fatal_error_global_runtime_timeout :
      EventSubType

-- The integer value that the database stores.
abbrev pub value : EventSubType → ℕ
value could_not_join_meeting_not_started_waiting_for_host = 1
value fatal_error_process_terminated = 2
value could_not_join_meeting_zoom_authorization_failed = 3
value could_not_join_meeting_zoom_meeting_status_failed = 4
value could_not_join_meeting_unpublished_zoom_app = 5
value fatal_error_rtmp_connection_failed = 6
value could_not_join_meeting_zoom_sdk_internal_error = 7
value fatal_error_ui_element_not_found = 8
value could_not_join_meeting_request_to_join_denied = 9
value leave_requested_user_requested = 10
value leave_requested_auto_leave_silence = 11
value leave_requested_auto_leave_only_participant_in_meeting = 12
value fatal_error_heartbeat_timeout = 13
value could_not_join_meeting_meeting_not_found = 14
value fatal_error_bot_not_launched = 15
value could_not_join_meeting_waiting_room_timeout_exceeded = 16
value leave_requested_auto_leave_max_uptime_exceeded = 17
value could_not_join_meeting_login_required = 18
value could_not_join_meeting_bot_login_attempt_failed = 19
value fatal_error_out_of_credits = 20
value could_not_join_unable_to_connect_to_meeting = 21
value fatal_error_attendee_internal_error = 22
value bot_recording_permission_denied_host_denied_permission = 23
value bot_recording_permission_denied_request_timed_out = 24
value bot_recording_permission_denied_host_client_cannot_grant_permission = 25
value leave_requested_auto_leave_could_not_enable_closed_captions = 26
value could_not_join_meeting_authorized_user_not_in_meeting_timeout_exceeded = 27
value could_not_join_meeting_blocked_by_captcha = 28
value bot_recording_permission_denied_webinar_attendee_needs_panelist_promotion = 29
value could_not_join_meeting_zoom_app_cannot_join_anonymously = 30
value fatal_error_global_runtime_timeout = 31

abbrev pub api_codes : List (EventSubType × String)
api_codes =
    (could_not_join_meeting_not_started_waiting_for_host, "meeting_not_started_waiting_for_host")
    ∷ (fatal_error_process_terminated, "process_terminated")
    ∷ (could_not_join_meeting_zoom_authorization_failed, "zoom_authorization_failed")
    ∷ (could_not_join_meeting_zoom_meeting_status_failed, "zoom_meeting_status_failed")
    ∷ (could_not_join_meeting_unpublished_zoom_app, "unpublished_zoom_app")
    ∷ (fatal_error_rtmp_connection_failed, "rtmp_connection_failed")
    ∷ (could_not_join_meeting_zoom_sdk_internal_error, "zoom_sdk_internal_error")
    ∷ (fatal_error_ui_element_not_found, "ui_element_not_found")
    ∷ (could_not_join_meeting_request_to_join_denied, "request_to_join_denied")
    ∷ (leave_requested_user_requested, "user_requested")
    ∷ (leave_requested_auto_leave_silence, "auto_leave_silence")
    ∷ (
      leave_requested_auto_leave_only_participant_in_meeting,
      "auto_leave_only_participant_in_meeting",
    )
    ∷ (fatal_error_heartbeat_timeout, "heartbeat_timeout")
    ∷ (could_not_join_meeting_meeting_not_found, "meeting_not_found")
    ∷ (fatal_error_bot_not_launched, "bot_not_launched")
    ∷ (could_not_join_meeting_waiting_room_timeout_exceeded, "waiting_room_timeout_exceeded")
    ∷ (leave_requested_auto_leave_max_uptime_exceeded, "auto_leave_max_uptime_exceeded")
    ∷ (could_not_join_meeting_login_required, "login_required")
    ∷ (could_not_join_meeting_bot_login_attempt_failed, "bot_login_attempt_failed")
    ∷ (fatal_error_out_of_credits, "out_of_credits")
    ∷ (could_not_join_unable_to_connect_to_meeting, "unable_to_connect_to_meeting")
    ∷ (fatal_error_attendee_internal_error, "attendee_internal_error")
    ∷ (bot_recording_permission_denied_host_denied_permission, "host_denied_permission")
    ∷ (bot_recording_permission_denied_request_timed_out, "request_timed_out")
    ∷ (
      bot_recording_permission_denied_host_client_cannot_grant_permission,
      "host_client_cannot_grant_permission",
    )
    ∷ (
      leave_requested_auto_leave_could_not_enable_closed_captions,
      "auto_leave_could_not_enable_closed_captions",
    )
    ∷ (
      could_not_join_meeting_authorized_user_not_in_meeting_timeout_exceeded,
      "authorized_user_not_in_meeting_timeout_exceeded",
    )
    ∷ (could_not_join_meeting_blocked_by_captcha, "blocked_by_captcha")
    ∷ (
      bot_recording_permission_denied_webinar_attendee_needs_panelist_promotion,
      "webinar_attendee_needs_panelist_promotion",
    )
    ∷ (could_not_join_meeting_zoom_app_cannot_join_anonymously, "zoom_app_cannot_join_anonymously")
    ∷ (fatal_error_global_runtime_timeout, "global_runtime_timeout")
    ∷ []

-- `BotEventSubTypes.sub_type_to_api_code`
unfoldable pub sub_type_to_api_code : ℕ → Option String
sub_type_to_api_code = get_by_value value api_codes
