-- ===== src/Events/Constraint.antt =====
-- bots/models.py, BotEvent.Meta.constraints: the check constraint on the type and the sub-type of an
-- event, in the logic of SQL, where a comparison with NULL is unknown and a check refuses a row
-- only if it is false.
pub mod Causes
use attendee.Base.{Bool, true, false, Option, none, some, List, [], ◌∷◌, ◌==◌}
use attendee.Events.Types
use attendee.Events.Types.{EventType}
use attendee.Events.SubTypes
use attendee.Events.SubTypes.{EventSubType}

pub data Truth : Type 0 where
  holds fails unknown : Truth

infixl 35 ◌∧q◌
infixl 30 ◌∨q◌
abbrev pub ◌∧q◌ : Truth → Truth → Truth
fails ∧q q = fails
holds ∧q q = q
unknown ∧q fails = fails
unknown ∧q holds = unknown
unknown ∧q unknown = unknown

abbrev pub ◌∨q◌ : Truth → Truth → Truth
holds ∨q q = holds
fails ∨q q = q
unknown ∨q holds = holds
unknown ∨q fails = unknown
unknown ∨q unknown = unknown

abbrev pub not_q : Truth → Truth
not_q holds = fails
not_q fails = holds
not_q unknown = unknown

abbrev pub known : Bool → Truth
known true = holds
known false = fails

-- `Q(event_type=t)`; the column is not null.
abbrev pub type_is : EventType → EventType → Truth
type_is t e = known (Types.value e == Types.value t)

-- `Q(event_sub_type=s)`; the column may be null.
abbrev pub sub_type_is : EventSubType → Option EventSubType → Truth
sub_type_is s none = unknown
sub_type_is s (some x) = known (SubTypes.value x == SubTypes.value s)

-- `Q(event_sub_type__isnull=True)`
abbrev pub sub_type_is_null : Option EventSubType → Truth
sub_type_is_null none = holds
sub_type_is_null (some x) = fails

-- `Q(event_sub_type=s1) | Q(event_sub_type=s2) | ...`
abbrev pub sub_type_one_of : List EventSubType → Option EventSubType → Truth
sub_type_one_of [] x = fails
sub_type_one_of (s ∷ []) x = sub_type_is s x
sub_type_one_of (s ∷ t ∷ rest) x = sub_type_is s x ∨q sub_type_one_of (t ∷ rest) x

abbrev pub accepts : Truth → Bool
accepts holds = true
accepts fails = false
accepts unknown = true

abbrev pub fatal_error_sub_types : List EventSubType
fatal_error_sub_types =
    EventSubType.fatal_error_process_terminated ∷ EventSubType.fatal_error_attendee_internal_error
    ∷ EventSubType.fatal_error_out_of_credits ∷ EventSubType.fatal_error_rtmp_connection_failed
    ∷ EventSubType.fatal_error_ui_element_not_found ∷ EventSubType.fatal_error_heartbeat_timeout
    ∷ EventSubType.fatal_error_global_runtime_timeout ∷ EventSubType.fatal_error_bot_not_launched
    ∷ []

abbrev pub could_not_join_sub_types : List EventSubType
could_not_join_sub_types =
    EventSubType.could_not_join_meeting_not_started_waiting_for_host
    ∷ EventSubType.could_not_join_unable_to_connect_to_meeting
    ∷ EventSubType.could_not_join_meeting_waiting_room_timeout_exceeded
    ∷ EventSubType.could_not_join_meeting_zoom_authorization_failed
    ∷ EventSubType.could_not_join_meeting_login_required
    ∷ EventSubType.could_not_join_meeting_authorized_user_not_in_meeting_timeout_exceeded
    ∷ EventSubType.could_not_join_meeting_bot_login_attempt_failed
    ∷ EventSubType.could_not_join_meeting_zoom_meeting_status_failed
    ∷ EventSubType.could_not_join_meeting_unpublished_zoom_app
    ∷ EventSubType.could_not_join_meeting_zoom_sdk_internal_error
    ∷ EventSubType.could_not_join_meeting_request_to_join_denied
    ∷ EventSubType.could_not_join_meeting_meeting_not_found
    ∷ EventSubType.could_not_join_meeting_blocked_by_captcha
    ∷ EventSubType.could_not_join_meeting_zoom_app_cannot_join_anonymously ∷ []

abbrev pub leave_requested_sub_types : List EventSubType
leave_requested_sub_types =
    EventSubType.leave_requested_user_requested ∷ EventSubType.leave_requested_auto_leave_silence
    ∷ EventSubType.leave_requested_auto_leave_only_participant_in_meeting
    ∷ EventSubType.leave_requested_auto_leave_max_uptime_exceeded
    ∷ EventSubType.leave_requested_auto_leave_could_not_enable_closed_captions ∷ []

abbrev pub bot_recording_permission_denied_sub_types : List EventSubType
bot_recording_permission_denied_sub_types =
    EventSubType.bot_recording_permission_denied_host_denied_permission
    ∷ EventSubType.bot_recording_permission_denied_request_timed_out
    ∷ EventSubType.bot_recording_permission_denied_host_client_cannot_grant_permission
    ∷ EventSubType.bot_recording_permission_denied_webinar_attendee_needs_panelist_promotion ∷ []

-- The constraint `valid_event_type_event_sub_type_combinations`.
unfoldable pub valid_combination : EventType → Option EventSubType → Truth
valid_combination e s =
    type_is EventType.fatal_error e ∧q sub_type_one_of fatal_error_sub_types s
    ∨q type_is EventType.could_not_join e ∧q sub_type_one_of could_not_join_sub_types s
    ∨q type_is EventType.leave_requested e
      ∧q (sub_type_one_of leave_requested_sub_types s ∨q sub_type_is_null s)
    ∨q type_is EventType.bot_recording_permission_denied e
      ∧q sub_type_one_of bot_recording_permission_denied_sub_types s
    ∨q not_q (type_is EventType.fatal_error e)
      ∧q not_q (type_is EventType.could_not_join e)
      ∧q not_q (type_is EventType.leave_requested e)
      ∧q sub_type_is_null s

-- The database inserts a row unless the check is false.
unfoldable pub insert_accepted : EventType → Option EventSubType → Bool
unfolding valid_combination
insert_accepted e s = accepts (valid_combination e s)
