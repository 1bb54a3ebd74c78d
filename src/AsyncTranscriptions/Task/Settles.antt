-- ===== src/AsyncTranscriptions/Task/Settles.antt =====
-- bots/tasks/process_async_transcription_task.py: how a run of the task ends.
use mathlib.Core.Path.{subst}
use attendee.Base.{
  ℕ, ◌+◌, ◌≡◌, refl, sym, ap, ◌∙◌, ◌⊎◌, inl, inr, Bool, true, false, ◌&&◌, not, some, [], ◌∷◌,
  arith, any, ltb, if◌then◌else◌, get_last?, get_last?-append,
}
use attendee.Base.Outcome.{Returns, ok, raise, ◌>>=◌}
use attendee.Recordings.Terminate.{is_in_progress, is_failed}
use attendee.AsyncTranscriptions.{
  IsQuiet, AsyncTranscriptionState, is, set_async_transcription_in_progress,
  set_async_transcription_complete, set_async_transcription_failed,
}
use attendee.AsyncTranscriptions.Stamps.{is_over}
use attendee.AsyncTranscriptions.Task.{
  Kept, catch, process_try, Task, Job, Run, outcomes, max_runtime, queue,
  process_async_transcription, check_for_transcription_completion, terminate_transcription,
  create_utterances_for_transcription, create_utterances_for_transcription_using_groups,
  create_utterances_for_transcription_without_using_groups,
}

-- Whether a run waits for utterances: some are in progress, and there is time left.
abbrev pub waits : Run → ℕ → Job → Bool
waits run start job =
    any is_in_progress (outcomes job.utterances)
    && not (ltb (start + max_runtime job.utterances) run.now)

-- Whether all utterances have been transcribed.
abbrev pub all_transcribed : Job → Bool
all_transcribed job =
    let us = outcomes job.utterances in not (any is_failed us) && not (any is_in_progress us)

-- How a transcription ends: complete if all utterances have been transcribed, else failed.
abbrev pub IsSettled : Job → Job → Type 0
IsSettled job job' =
    (job'.transcription.state ≡ (
      if all_transcribed job
      then AsyncTranscriptionState.complete
      else AsyncTranscriptionState.failed))
    × (job'.utterances ≡ job.utterances)
    × (job'.tasks ≡ job.tasks)

terminate_settles :
    (run : Run) (job : Job)
    → job.transcription.state ≡ AsyncTranscriptionState.in_progress
    → IsQuiet run.ending
    → Returns (IsSettled job) (terminate_transcription run job)
unfolding terminate_transcription set_async_transcription_complete set_async_transcription_failed
terminate_settles run job running quiet = ground arith

check_settles :
    (run : Run) (job : Job) (start : ℕ)
    → job.transcription.state ≡ AsyncTranscriptionState.in_progress
    → job.transcription.started_at ≡ some start
    → IsQuiet run.ending
    → (waits run start job ≡ true)
        × (check_for_transcription_completion run job
            ≡ ok (queue (Task.process_again run.check_interval_seconds ∷ []) job))
      ⊎ (waits run start job ≡ false)
        × Returns (IsSettled job) (check_for_transcription_completion run job)
unfolding check_for_transcription_completion
check_settles run job start running started quiet =
    ground (arith, started, terminate_settles run job running quiet)

not_over :
    (run : Run) (job : Job)
    → job.transcription.state ≡ AsyncTranscriptionState.in_progress
    → process_async_transcription run job ≡ catch run (check_for_transcription_completion run job)
unfolding process_async_transcription
not_over run job running = rw running

Returns-catch :
    (run : Run) (P : Job → Type 0) (k k' : Kept) → Returns P k → k' ≡ catch run k → Returns P k'
Returns-catch run P (ok job) k' holds e = subst (Returns P) (sym e) holds
Returns-catch run P (raise r) k' holds e = absurd holds

-- If a transcription is in progress since some time, and its row is not written while it is ended, and the
-- delivery of that raises nothing, then a run of the task that waits queues the next one and changes no
-- more, and any other run ends the transcription: it is complete exactly if all utterances have been
-- transcribed, and failed otherwise.
pub process_async_transcription-settles :
    (run : Run) (job : Job) (start : ℕ)
    → job.transcription.state ≡ AsyncTranscriptionState.in_progress
    → job.transcription.started_at ≡ some start
    → IsQuiet run.ending
    → (waits run start job ≡ true)
        × (process_async_transcription run job
            ≡ ok (queue (Task.process_again run.check_interval_seconds ∷ []) job))
      ⊎ (waits run start job ≡ false)
        × Returns (IsSettled job) (process_async_transcription run job)
unfolding process_async_transcription
process_async_transcription-settles run job start running started quiet =
    elim (check_settles run job start running started quiet) [
      | inl (waiting, same) ↦ inl (waiting, not_over run job running ∙ ap (catch run) same)
      | inr (ready, settled) ↦
          inr (ready, Returns-catch run (IsSettled job) _ _ settled (not_over run job running))
    ]

-- A result from which the task can go on: a transcription that is over or that is looked at again, or an
-- exception at one that is not complete.
abbrev IsSound : Run → Kept → Type 0
IsSound run (ok job) =
    (is_over job.transcription.state ≡ true)
    ⊎ (get_last? job.tasks ≡ some (Task.process_again run.check_interval_seconds))
IsSound run (raise r) = is r.1.transcription.state AsyncTranscriptionState.complete ≡ false

-- The transcription is not complete, whether or not there was an exception.
abbrev IsLive : Kept → Type 0
IsLive (ok job) = is job.transcription.state AsyncTranscriptionState.complete ≡ false
IsLive (raise r) = is r.1.transcription.state AsyncTranscriptionState.complete ≡ false

terminate-IsSound :
    (run : Run) (job : Job)
    → IsQuiet run.ending
    → is job.transcription.state AsyncTranscriptionState.complete ≡ false
    → IsSound run (terminate_transcription run job)
unfolding terminate_transcription set_async_transcription_complete set_async_transcription_failed
terminate-IsSound run job quiet live = ground arith

check-IsSound :
    (run : Run) (job : Job)
    → IsQuiet run.ending
    → is job.transcription.state AsyncTranscriptionState.complete ≡ false
    → IsSound run (check_for_transcription_completion run job)
unfolding check_for_transcription_completion
check-IsSound run job quiet live = ground (
  arith,
  terminate-IsSound run job quiet live,
  get_last?-append job.tasks (Task.process_again run.check_interval_seconds),
)

create-IsLive :
    (run : Run) (job : Job)
    → is job.transcription.state AsyncTranscriptionState.complete ≡ false
    → IsLive (create_utterances_for_transcription run job)
unfolding create_utterances_for_transcription create_utterances_for_transcription_using_groups
    create_utterances_for_transcription_without_using_groups set_async_transcription_in_progress
create-IsLive run job live = ground arith

go_on-IsSound :
    (run : Run) (k : Kept)
    → IsQuiet run.ending
    → IsLive k
    → IsSound run (k >>= check_for_transcription_completion run)
go_on-IsSound run (ok job) quiet live = check-IsSound run job quiet live
go_on-IsSound run (raise r) quiet live = live

try-IsSound :
    (run : Run) (job : Job)
    → IsQuiet run.ending
    → is job.transcription.state AsyncTranscriptionState.complete ≡ false
    → IsSound run (process_try run job)
try-IsSound run job quiet live = ground (
  arith,
  check-IsSound run job quiet live,
  go_on-IsSound run (create_utterances_for_transcription run job) quiet
      (create-IsLive run job live),
)

-- After an exception the failure is stored.
caught :
    (run : Run) (k : Kept)
    → IsSound run k
    → IsQuiet run.failing
    → Returns (λ job'. IsSound run (ok job')) (catch run k)
unfolding set_async_transcription_failed
caught run (ok job) sound quiet = sound
caught run (raise (e, job)) sound quiet = ground arith

Returns-if :
    (over : Bool) (P : Job → Type 0) (job : Job) (k : Kept)
    → (over ≡ true → P job)
    → (over ≡ false → Returns P k)
    → Returns P (if over then ok job else k)
Returns-if true P job k if_over if_not = if_over refl
Returns-if false P job k if_over if_not = if_not refl

-- If the row is not written while the transcription is ended or a failure is stored, and the deliveries of
-- these raise nothing, then a run of the task raises nothing, whether the creation of utterances and tasks,
-- the start of the transcription, its delivery or the test of the time raise, and after it the
-- transcription is over or the last task in the queue runs it again.
pub process_async_transcription_goes_on :
    (run : Run) (job : Job)
    → IsQuiet run.ending
    → IsQuiet run.failing
    → Returns
        (λ job'.
          (is_over job'.transcription.state ≡ true)
          ⊎ (get_last? job'.tasks ≡ some (Task.process_again run.check_interval_seconds)))
        (process_async_transcription run job)
unfolding process_async_transcription
process_async_transcription_goes_on run job ending quiet =
    Returns-if (is_over job.transcription.state) (λ job'. IsSound run (ok job')) job
      (catch run (process_try run job)) inl
      λ running.
        caught run (process_try run job) (try-IsSound run job ending (ground (arith, running)))
          quiet
