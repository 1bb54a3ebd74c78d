-- ===== src/Summaries/Task.antt =====
-- bots/tasks/generate_meeting_summary_task.py, generate_meeting_summary: one run of a worker. What other
-- processes do to the row while it works is a function of the row.
use text.Mathlib.Text.{◌==◌ as str_eq}
use attendee.Base.{ℕ, String, Bool, not, Option, none, some, if◌then◌else◌}
use attendee.Summaries.{Meeting, Fields, Reason, claim, finish}
use attendee.Summaries.Azure.{Reply, call_azure, classify_failure}

-- What a run finds: whether the meeting can be read without an exception, whether its transcript is long
-- enough, whether there is a credential, the replies of the model, the title and the notes of a
-- text, or none where reading it raises, and the clock at the claim and at the end.
pub record Surroundings : Type 0 where
  pub now : ℕ
  pub meanwhile : Meeting → Meeting
  pub readable : Bool
  pub long_enough : Bool
  pub has_credential : Bool
  pub replies : ℕ → Bool → Reply
  pub parse_response : String → Option (Option String × String)
  pub generated_at : ℕ

-- A title that is not empty.
abbrev pub title_of : Option String → Option String
title_of none = none
title_of (some t) = if str_eq t "" then none else some t

-- The end of a run that has called the model.
unfoldable pub end_of_reply : Surroundings → Reply → Fields
unfolding classify_failure
end_of_reply s (Reply.text t) = elim (s.parse_response t) [
  | none ↦ Fields.fail Reason.generation_failed
  | some parsed ↦
      if str_eq parsed.1 ""
      then Fields.fail Reason.empty_summary
      else Fields.succeed parsed.1 s.generated_at (title_of parsed.0)
]
end_of_reply s Reply.truncated = Fields.fail Reason.too_long
end_of_reply s (Reply.request_failed e) = Fields.fail (classify_failure e)
end_of_reply s Reply.crashed = Fields.fail Reason.generation_failed

-- The end of a run. The model always gives a reply to end with.
unfoldable pub end_of_run : Surroundings → Fields
unfolding end_of_reply call_azure
end_of_run s =
    if not (s.readable)
    then Fields.fail Reason.generation_failed
    else if not (s.long_enough)
    then Fields.skip
    else if not (s.has_credential)
    then Fields.fail Reason.no_credential
    else elim (call_azure s.replies).0 [
      | none ↦ Fields.fail Reason.generation_failed
      | some reply ↦ end_of_reply s reply
    ]

unfoldable pub generate_meeting_summary : Surroundings → Meeting → Meeting
unfolding claim finish end_of_run
generate_meeting_summary s m =
    let (claimed, mine) = claim s.now m in
    if mine then finish s.now (end_of_run s) (s.meanwhile claimed) else m
