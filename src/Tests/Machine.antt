-- ===== src/Tests/Machine.antt =====
-- The theorems on states, codes, requests and deliveries, at concrete values.
use attendee.Base.{
  String, ◌<◌, ◌≡◌, ◌↔◌, ◌⊎◌, refl, true, false, none, some, List, [], ◌∷◌, arith, any,
}
use attendee.Base.Outcome.{ok, Ensures}
use attendee.States.{BotState}
use attendee.Events.Types.{EventType}
use attendee.Events.SubTypes.{EventSubType}
use attendee.Events.Constraint.{insert_accepted}
use attendee.Events.Constraint.Causes.{is_cause, insert_accepted-is_cause}
use attendee.Transitions.{next_state, is_post_meeting_state}
use attendee.Transitions.Graph.{Run, here, step, post_meeting_absorbing}
use attendee.Webhooks.{TriggerType, DeliveryStatus, DeliveryAttempt}
use attendee.Webhooks.Delivery
use attendee.Webhooks.Delivery.{
  answer, request_exception, deliver_webhook, deliver_until_done, attempt_count_bounded,
  given_up_late,
}
use attendee.Recordings.{RecordingState, is}
use attendee.MeetingStatus.{Status, derive_status}
use attendee.MeetingStatus.Settled.{is_live, is_open, derive_status-done_iff}
use attendee.MediaRequests.{MediaRequest, MediaRequestState}
use attendee.MediaRequests.Exclusive
use attendee.MediaRequests.Exclusive.{IsKeyed, IsExclusive, IsStep, call-IsCarriedOut}
use attendee.ChatRequests.{ChatRequest, ChatRequestState}
use attendee.AsyncTranscriptions.{AsyncTranscription, AsyncTranscriptionState, Around}
use attendee.AsyncTranscriptions.Stamps.{IsTimed}
use attendee.Tests.{finished, subscription}

insert_accepted-is_cause_example :
    insert_accepted EventType.fatal_error (some EventSubType.fatal_error_heartbeat_timeout)
    ≡ is_cause EventType.fatal_error (some EventSubType.fatal_error_heartbeat_timeout)
insert_accepted-is_cause_example =
    insert_accepted-is_cause EventType.fatal_error (some EventSubType.fatal_error_heartbeat_timeout)

meeting_over :
    next_state EventType.meeting_ended BotState.leaving none ≡ ok BotState.post_processing
unfolding next_state
meeting_over = refl

data_wiped : next_state EventType.data_deleted BotState.ended none ≡ ok BotState.data_deleted
unfolding next_state
data_wiped = refl

wiping : Run BotState.ended BotState.data_deleted
wiping = step EventType.data_deleted none here data_wiped

post_meeting_absorbing_example : is_post_meeting_state BotState.data_deleted ≡ true
post_meeting_absorbing_example = post_meeting_absorbing wiping refl

started : next_state EventType.join_requested BotState.ready none ≡ ok BotState.joining
unfolding next_state
started = refl

not_live : is_live (derive_status BotState.ended (some finished) none none) ≡ false
unfolding derive_status
not_live = refl

derive_status-done_iff_example :
    (derive_status BotState.ended (some finished) none none ≡ Status.done) ↔ (
      (BotState.ended ≡ BotState.ended)
      × (is RecordingState.complete RecordingState.failed ≡ false)
      × (any is_open finished.utterances ≡ false))
derive_status-done_iff_example = derive_status-done_iff BotState.ended finished

abbrev delivery : DeliveryAttempt String
delivery = record {
  id = 1;
  webhook_subscription = 3;
  webhook_trigger_type = TriggerType.bot_state_change;
  bot = 7;
  payload = "{}";
  status = DeliveryStatus.pending;
  attempt_count = 0;
  last_attempt_at = none;
  succeeded_at = none;
  response_body_list = [];
}

abbrev run_with : Delivery.Response → Delivery.Run
run_with r = record {
  subscription_is_active = true;
  can_sign = true;
  is_rate_limited = false;
  response = r;
  now = 100;
}

abbrev limited : Delivery.Run
limited = record (run_with (request_exception "Timeout")) { is_rate_limited = true }

abbrev runs : List Delivery.Run
runs =
    run_with (answer 500 "oops")
    ∷ limited
    ∷ run_with (request_exception "Timeout")
    ∷ run_with (answer 503 "busy")
    ∷ run_with (answer 200 "ok")
    ∷ []

attempt_count_bounded_example :
    ((deliver_until_done 3 runs delivery).0.attempt_count < 3)
    ⊎ ((deliver_until_done 3 runs delivery).0.attempt_count ≡ 3)
      × ((deliver_until_done 3 runs delivery).1 ≡ true)
attempt_count_bounded_example = attempt_count_bounded 3 runs delivery (omega arith)

runs_done : (deliver_until_done 3 runs delivery).1 ≡ true
unfolding deliver_until_done deliver_webhook
runs_done = refl

abbrev song : MediaRequest
song = record { id = 1; bot = 7; media_type = 2; state = MediaRequestState.playing }

abbrev next_song : MediaRequest
next_song = record { id = 2; bot = 7; media_type = 2; state = MediaRequestState.enqueued }

songs-IsKeyed : IsKeyed (song ∷ next_song ∷ [])
songs-IsKeyed = (refl, (refl, tt))

songs-IsExclusive : IsExclusive (song ∷ next_song ∷ [])
songs-IsExclusive bot kind = ground arith

call-IsCarriedOut_example :
    IsStep Exclusive.finish song
      (song ∷ next_song ∷ [])
      (Exclusive.call Exclusive.finish song (song ∷ next_song ∷ []))
    × Ensures
        (λ s. IsKeyed s.1 × IsExclusive s.1)
        (Exclusive.call Exclusive.finish song (song ∷ next_song ∷ []))
call-IsCarriedOut_example =
    call-IsCarriedOut Exclusive.finish song (song ∷ next_song ∷ []) songs-IsKeyed songs-IsExclusive

abbrev message : ChatRequest
message = record { id = 1; state = ChatRequestState.enqueued; sent_at_timestamp_ms = none }

abbrev transcription : AsyncTranscription
transcription = record {
  object_id = "tran_1";
  state = AsyncTranscriptionState.not_started;
  started_at = none;
  failed_at = none;
  completed_at = none;
  failure_data = none;
}

abbrev around : Around
around = record {
  project = 1;
  bot = 7;
  subscriptions = subscription ∷ [];
  next_delivery_id = 1;
  stale = false;
  now = 100;
  delivery_error = none;
}

transcription-IsTimed : IsTimed transcription
transcription-IsTimed = record {
  started = refl;
  completed = refl;
  failed = refl;
  failure_kept = refl;
}
