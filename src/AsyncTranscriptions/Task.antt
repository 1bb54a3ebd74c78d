-- ===== src/AsyncTranscriptions/Task.antt =====
-- bots/tasks/process_async_transcription_task.py: the task that starts an asynchronous transcription and
-- runs again until it is over. What another call or service does between two runs shows in the job
-- that the next run is given.
pub mod Starts
pub mod Settles
use attendee.Base.{
  ℕ, suc, ◌+◌, ◌*◌, Bool, true, false, not, ◌&&◌, ◌||◌, Option, none, some, String, List, [], ◌∷◌,
  ◌++◌, if◌then◌else◌, ltb, length, any, ◌==◌,
}
use attendee.Base.Outcome.{Outcome, ok, raise, ◌>>=◌}
use attendee.Errors.{Error, Result, type_error, zero_division_error}
use attendee.Recordings.Terminate.{is_in_progress, is_failed, reasons, distinct}
use attendee.Recordings.{Utterance}
use attendee.Webhooks.{DeliveryAttempt}
use attendee.AsyncTranscriptions.{
  AsyncTranscriptionState, is, AsyncTranscription, Around, Told, Notice,
  set_async_transcription_in_progress, set_async_transcription_complete,
  set_async_transcription_failed,
}
use attendee.AsyncTranscriptions.Grouping.{Clip, ids, groups_of}

-- A chunk of audio that one participant spoke, without its bytes.
pub record AudioChunk : Type 0 where
  pub id : ℕ
  pub participant_id : ℕ
  pub timestamp_ms : ℕ
  pub duration_ms : ℕ

-- What is put into the queue of tasks, with its delay in seconds.
pub data Task : Type 0 where
  process_utterance : ℕ → ℕ → Task
  process_utterance_group : List ℕ → ℕ → Task
  process_again : ℕ → Task

-- The rows that the task reads and writes: the transcription, the audio of its recording in the order
-- of the query, its utterances, the first free identifier of one, the queue of tasks and the
-- deliveries.
pub record Job : Type 0 where
  pub transcription : AsyncTranscription
  pub use_grouped_utterances : Bool
  pub audio_chunks : List AudioChunk
  pub utterances : List Clip
  pub next_utterance_id : ℕ
  pub tasks : List Task
  pub deliveries : List (DeliveryAttempt Notice)

-- The environment: the two settings, the text of failure reasons as JSON, the clock, what surrounds the
-- calls of the manager at the start, at the end and after an exception, and the exception of a `create` or
-- `apply_async` at the start, if one raises, with the utterances and tasks that were there before it.
pub record Run : Type 0 where
  pub max_group_duration_ms : ℕ
  pub check_interval_seconds : ℕ
  pub dumps : List String → String
  pub now : ℕ
  pub starting : Around
  pub ending : Around
  pub failing : Around
  pub creation_error : Option (Error × List Clip × List Task)

-- A call that keeps what it has written before it raises.
abbrev pub Kept : Type 0
Kept = Outcome (Error × Job) Job

-- What a call of the manager leaves: the row, with the deliveries; but if the state has changed, so that a
-- delivery is due, and this raises, then the row alone, and the exception.
abbrev pub told : Around → Job → Result Told → Kept
told around job (ok t) =
    let job' = record job { transcription = t.0 } in
    let done = ok (record job' { deliveries = job.deliveries ++ t.1 }) in
    if is job.transcription.state t.0.state
    then done
    else elim around.delivery_error [ none ↦ done | some e ↦ raise (e, job') ]
told around job (raise e) = raise (e, job)

abbrev pub untouched : Utterance
untouched = record { has_transcription = false; failure_data = none }

-- `Utterance.objects.create` for each chunk of audio.
unfoldable pub create_utterances : ℕ → List AudioChunk → List Clip
create_utterances next [] = []
create_utterances next (chunk ∷ chunks) =
    record {
      id = next;
      participant_id = chunk.participant_id;
      audio_chunk = chunk.id;
      timestamp_ms = chunk.timestamp_ms;
      duration_ms = chunk.duration_ms;
      transcribed = untouched;
    }
    ∷ create_utterances (next + 1) chunks

abbrev pub with_utterances : Job → Job
with_utterances job =
    let created = create_utterances job.next_utterance_id job.audio_chunks in
    record job {
      utterances = job.utterances ++ created;
      next_utterance_id = job.next_utterance_id + length created;
    }

-- A task for each utterance, a second apart.
unfoldable pub utterance_tasks : ℕ → List Clip → List Task
utterance_tasks delay [] = []
utterance_tasks delay (u ∷ us) = process_utterance u.id delay ∷ utterance_tasks (delay + 1) us

-- A task for each group, a second apart.
unfoldable pub group_tasks : ℕ → List (List Clip) → List Task
group_tasks delay [] = []
group_tasks delay (g ∷ gs) = process_utterance_group (ids g) delay ∷ group_tasks (delay + 1) gs

abbrev pub queue : List Task → Job → Job
queue tasks job = record job { tasks = job.tasks ++ tasks }

unfoldable pub create_utterances_for_transcription_without_using_groups : Run → Job → Kept
unfolding create_utterances utterance_tasks
create_utterances_for_transcription_without_using_groups run job =
    let created = create_utterances job.next_utterance_id job.audio_chunks in
    let job' = queue (utterance_tasks 0 created) (with_utterances job) in
    told run.starting job' (set_async_transcription_in_progress run.starting job'.transcription)

-- A longest duration of zero is divided by, after the utterances are there.
unfoldable pub create_utterances_for_transcription_using_groups : Run → Job → Kept
unfolding create_utterances group_tasks groups_of
create_utterances_for_transcription_using_groups run job =
    let created = create_utterances job.next_utterance_id job.audio_chunks in
    if run.max_group_duration_ms == 0
    then raise (zero_division_error, with_utterances job)
    else (let job' =
          queue (group_tasks 0 (groups_of run.max_group_duration_ms created))
            (with_utterances job) in
        told run.starting job'
          (set_async_transcription_in_progress run.starting job'.transcription))

-- The utterances and tasks of a start that breaks off.
abbrev pub started_partly : List Clip → List Task → Job → Job
started_partly created tasks job = record job {
  utterances = job.utterances ++ created;
  next_utterance_id = job.next_utterance_id + length created;
  tasks = job.tasks ++ tasks;
}

unfoldable pub create_utterances_for_transcription : Run → Job → Kept
unfolding create_utterances_for_transcription_without_using_groups
    create_utterances_for_transcription_using_groups
create_utterances_for_transcription run job = elim run.creation_error [
  | some broken ↦ raise (broken.0, started_partly broken.1 broken.2 job)
  | none ↦
      if job.use_grouped_utterances
      then create_utterances_for_transcription_using_groups run job
      else create_utterances_for_transcription_without_using_groups run job
]

-- What has become of each utterance.
abbrev pub outcomes : List Clip → List Utterance
outcomes [] = []
outcomes (u ∷ us) = u.transcribed ∷ outcomes us

abbrev pub still_in_progress : String
still_in_progress = "utterances_still_in_progress_when_transcription_terminated"

abbrev pub failure_reasons : List Utterance → List String
failure_reasons us =
    if any is_in_progress us
    then distinct (reasons us) ++ still_in_progress ∷ []
    else distinct (reasons us)

unfoldable pub terminate_transcription : Run → Job → Kept
terminate_transcription run job =
    let us = outcomes job.utterances in
    if any is_failed us || any is_in_progress us
    then told run.ending job (
        set_async_transcription_failed run.ending (run.dumps (failure_reasons us))
          job.transcription)
    else told run.ending job (set_async_transcription_complete run.ending job.transcription)

-- `max(1800, async_transcription.utterances.count() * 3)`; the clock counts seconds.
abbrev pub max_runtime : List Clip → ℕ
max_runtime us = if ltb 1800 (length us * 3) then length us * 3 else 1800

-- Whether the transcription has run for too long. A null start raises.
abbrev pub timed_out : Run → Job → Result Bool
timed_out run job = elim job.transcription.started_at [
  | none ↦ raise type_error
  | some start ↦ ok (ltb (start + max_runtime job.utterances) run.now)
]

unfoldable pub check_for_transcription_completion : Run → Job → Kept
unfolding terminate_transcription
check_for_transcription_completion run job =
    if any is_in_progress (outcomes job.utterances)
    then elim (timed_out run job) [
      | raise e ↦ raise (e, job)
      | ok true ↦ terminate_transcription run job
      | ok false ↦ ok (queue (process_again run.check_interval_seconds ∷ []) job)
    ]
    else terminate_transcription run job

-- The `try` of the task.
abbrev pub process_try : Run → Job → Kept
process_try run job =
    if is job.transcription.state AsyncTranscriptionState.not_started
    then create_utterances_for_transcription run job >>= check_for_transcription_completion run
    else check_for_transcription_completion run job

-- The `except` of the task.
abbrev pub catch : Run → Kept → Kept
catch run (ok job) = ok job
catch run (raise (e, job)) =
    told run.failing job (set_async_transcription_failed run.failing "{}" job.transcription)

unfoldable pub process_async_transcription : Run → Job → Kept
unfolding create_utterances_for_transcription check_for_transcription_completion
process_async_transcription run job =
    if is job.transcription.state AsyncTranscriptionState.complete
      || is job.transcription.state AsyncTranscriptionState.failed
    then ok job
    else catch run (process_try run job)
