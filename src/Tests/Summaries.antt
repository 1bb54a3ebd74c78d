-- ===== src/Tests/Summaries.antt =====
-- The theorems on summaries, at a meeting whose worker meets a busy model.
use attendee.Base.{
  ℕ, Bool, true, false, ◌≡◌, refl, ◌⊎◌, none, some, List, [], ◌∷◌, ◌==◌, if◌then◌else◌,
}
use attendee.Summaries.{SummaryState, is, Meeting, Fields, Operation, claim, steps}
use attendee.Summaries.Late.{IsWiped, late_writes_void}
use attendee.Summaries.Azure.{Reply, call_azure, EndsWith, call_azure-EndsWith}
use attendee.Summaries.Task.{Surroundings, generate_meeting_summary}
use attendee.Summaries.Ends.{HasEnded, holds, generate_meeting_summary_ends}

abbrev pending_meeting : Meeting
pending_meeting = record {
  summary_state = SummaryState.pending;
  summary = none;
  summary_error = none;
  summary_generated_at = none;
  summary_started_at = none;
  name = some "Standup";
}

-- Busy at first, then too long, then an answer to the concise request.
abbrev replies : ℕ → Bool → Reply
replies call concise =
    if call == 0
    then Reply.request_failed (record { unreachable = false; status = some 429 })
    else if concise
    then Reply.text "notes"
    else Reply.truncated

call_azure-EndsWith_example : EndsWith replies 4 (call_azure replies)
call_azure-EndsWith_example = call_azure-EndsWith replies

abbrev surroundings : Surroundings
surroundings = record {
  now = 50;
  meanwhile = λ m. m;
  readable = true;
  long_enough = true;
  has_credential = true;
  replies = replies;
  parse_response = λ text. some (some "Daily", text);
  generated_at = 60;
}

done_with_title : (generate_meeting_summary surroundings pending_meeting).name ≡ some "Daily"
unfolding generate_meeting_summary
done_with_title = refl

generate_meeting_summary_ends_example :
    let m' = surroundings.meanwhile (claim 50 pending_meeting).0 in
    let after = generate_meeting_summary surroundings pending_meeting in
    (is pending_meeting.summary_state SummaryState.pending ≡ false) × (after ≡ pending_meeting)
    ⊎ (is pending_meeting.summary_state SummaryState.pending ≡ true)
      × ((holds 50 m' ≡ true) × HasEnded m' after ⊎ (holds 50 m' ≡ false) × (after ≡ m'))
generate_meeting_summary_ends_example = generate_meeting_summary_ends surroundings pending_meeting

-- A worker that claimed the meeting at 50 writes after the deletion and a new claim.
abbrev late_write : List Operation
late_write =
    Operation.claim_at 70
    ∷ Operation.finish_of 50 (Fields.succeed "notes" 80 none)
    ∷ Operation.reap_before 75
    ∷ []

late_writes_void_example :
    IsWiped (50 ∷ []) (steps (Operation.delete_data ∷ late_write) pending_meeting)
late_writes_void_example = late_writes_void (50 ∷ []) late_write pending_meeting (refl, (refl, tt))
