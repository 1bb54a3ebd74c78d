-- ===== src/Summaries.antt =====
-- bots/tasks/generate_meeting_summary_task.py and the operations on a summary elsewhere: regenerate in
-- bots/meetings_api_views.py and Bot.delete_data in bots/models.py. Each operation is one UPDATE of
-- the bot's row, with its filter; times are numbers.
pub mod Azure
pub mod Task
pub mod Late
pub mod Ends
use attendee.Base.{
  ℕ, ◌+◌, String, Bool, true, false, not, ◌&&◌, Option, none, some, List, [], ◌∷◌, ◌==◌,
  if◌then◌else◌, ltb, is_some,
}

pub data SummaryState : Type 0 where
  pending generating done failed skipped : SummaryState

-- A number for each state, by which states are compared; the column holds its name.
abbrev pub value : SummaryState → ℕ
value pending = 0
value generating = 1
value done = 2
value failed = 3
value skipped = 4

abbrev pub is : SummaryState → SummaryState → Bool
is s other = value s == value other

-- The reasons that a member is shown, by their cause.
pub data Reason : Type 0 where
  no_credential empty_summary too_long generation_failed unreachable : Reason
  authentication_failed deployment_not_found request_rejected rate_limited temporary_error : Reason
  http_error : ℕ → Reason

-- The columns of a bot that belong to its summary, and its name.
pub record Meeting : Type 0 where
  pub summary_state : SummaryState
  pub summary : Option String
  pub summary_error : Option Reason
  pub summary_generated_at : Option ℕ
  pub summary_started_at : Option ℕ
  pub name : Option String

-- What a worker writes at its end: `_finish` with the columns of one of the four ends.
pub data Fields : Type 0 where
  skip : Fields
  fail : Reason → Fields
  succeed : String → ℕ → Option String → Fields

abbrev pub write : Fields → Meeting → Meeting
write skip m = record m { summary_state = SummaryState.skipped; summary_started_at = none }
write (fail reason) m = record m {
  summary_state = SummaryState.failed;
  summary_error = some reason;
  summary_started_at = none;
}
write (succeed notes now title) m = record m {
  summary_state = SummaryState.done;
  summary = some notes;
  summary_error = none;
  summary_generated_at = some now;
  summary_started_at = none;
  name = if is_some title then title else m.name;
}

-- The claim of a worker, and whether it has the row.
unfoldable pub claim : ℕ → Meeting → Meeting × Bool
claim now m =
    if is m.summary_state SummaryState.pending
    then (record m { summary_state = SummaryState.generating; summary_started_at = some now }, true)
    else (m, false)

abbrev pub at_time : Option ℕ → ℕ → Bool
at_time none time = false
at_time (some t) time = t == time

abbrev pub before : Option ℕ → ℕ → Bool
before none time = false
before (some t) time = ltb t time

unfoldable pub finish : ℕ → Fields → Meeting → Meeting
finish claim_time fields m =
    if is m.summary_state SummaryState.generating && at_time m.summary_started_at claim_time
    then write fields m
    else m

-- `reap_stale_summary_generations`, for one row; the cutoff is 30 minutes ago.
unfoldable pub reap : ℕ → Meeting → Meeting
reap cutoff m =
    if is m.summary_state SummaryState.generating && before m.summary_started_at cutoff
    then record m { summary_state = SummaryState.pending; summary_started_at = none }
    else m

-- `_summary_run_in_flight`
abbrev pub summary_run_in_flight : ℕ → Meeting → Bool
summary_run_in_flight fresh_after m =
    is m.summary_state SummaryState.generating
    && (elim m.summary_started_at [ none ↦ false | some t ↦ ltb fresh_after t ])

-- The request to generate the summary again. It decides by the row as it was read, which another
-- process may have changed since; the task is queued if the second component says so.
unfoldable pub regenerate : ℕ → Meeting → Meeting → Meeting × Bool
regenerate fresh_after seen m =
    if summary_run_in_flight fresh_after seen
    then (m, false)
    else if is seen.summary_state SummaryState.pending
    then (m, true)
    else (record m { summary_state = SummaryState.pending; summary_error = none }, true)

-- What `delete_data` makes of the columns.
unfoldable pub wipe : Meeting → Meeting
wipe m = record m {
  summary = none;
  summary_error = none;
  summary_generated_at = none;
  summary_started_at = none;
  summary_state = SummaryState.pending;
}

-- The operations, of which each is atomic.
pub data Operation : Type 0 where
  claim_at : ℕ → Operation
  finish_of : ℕ → Fields → Operation
  reap_before : ℕ → Operation
  regenerate_after : ℕ → Meeting → Operation
  delete_data : Operation

unfoldable pub step : Operation → Meeting → Meeting
unfolding claim finish reap regenerate wipe
step (claim_at now) m = (claim now m).0
step (finish_of claim_time fields) m = finish claim_time fields m
step (reap_before cutoff) m = reap cutoff m
step (regenerate_after fresh_after seen) m = (regenerate fresh_after seen m).0
step delete_data m = wipe m

unfoldable pub steps : List Operation → Meeting → Meeting
unfolding step
steps [] m = m
steps (o ∷ os) m = steps os (step o m)
