-- ===== src/Tests/Transcribing.antt =====
-- The theorems on asynchronous transcriptions, at a recording with three chunks of audio.
use attendee.Base.{ℕ, true, false, ◌≡◌, refl, ◌⊎◌, none, some, [], ◌∷◌, get_last?}
use attendee.Base.Outcome.{ok, Returns}
use attendee.Errors.{attribute_error}
use attendee.AsyncTranscriptions.{AsyncTranscriptionState, AsyncTranscription, Around}
use attendee.AsyncTranscriptions.Stamps.{is_over}
use attendee.AsyncTranscriptions.Grouping.{groups_of, members}
use attendee.AsyncTranscriptions.Task.{
  AudioChunk, Task, Job, Run, create_utterances, process_async_transcription, queue,
}
use attendee.AsyncTranscriptions.Task.Settles.{
  IsSettled, waits, process_async_transcription-settles, process_async_transcription_goes_on,
}
use attendee.Tests.{subscription, lost_clip}

abbrev new_row : AsyncTranscription
new_row = record {
  object_id = "tran_1";
  state = AsyncTranscriptionState.not_started;
  started_at = none;
  failed_at = none;
  completed_at = none;
  failure_data = none;
}

abbrev chunk : ℕ → ℕ → AudioChunk
chunk id start = record { id = id; participant_id = 1; timestamp_ms = start; duration_ms = 700 }

abbrev new_job : Job
new_job = record {
  transcription = new_row;
  use_grouped_utterances = true;
  audio_chunks = chunk 5 0 ∷ chunk 6 1000 ∷ chunk 7 2000 ∷ [];
  utterances = [];
  next_utterance_id = 20;
  tasks = [];
  deliveries = [];
}

abbrev around : Around
around = record {
  project = 1;
  bot = 7;
  subscriptions = subscription ∷ [];
  next_delivery_id = 1;
  stale = false;
  now = 1000;
  delivery_error = none;
}

abbrev run : Run
run = record {
  max_group_duration_ms = 1500;
  check_interval_seconds = 60;
  dumps = λ reasons. "[]";
  now = 1001;
  starting = around;
  ending = around;
  failing = around;
  creation_error = none;
}

two_groups :
    members (groups_of 1500 (create_utterances 20 new_job.audio_chunks))
    ≡ create_utterances 20 new_job.audio_chunks
unfolding groups_of create_utterances
two_groups = refl

-- One utterance is transcribed, one has failed, and the time is up.
abbrev running_job : Job
running_job = record new_job {
  transcription = record new_row {
    state = AsyncTranscriptionState.in_progress;
    started_at = some 1000;
  };
  utterances =
      record {
        id = 20;
        participant_id = 1;
        audio_chunk = 5;
        timestamp_ms = 0;
        duration_ms = 700;
        transcribed = lost_clip;
      }
      ∷ [];
}

process_async_transcription-settles_example :
    (waits run 1000 running_job ≡ true)
      × (process_async_transcription run running_job
          ≡ ok (queue (Task.process_again 60 ∷ []) running_job))
    ⊎ (waits run 1000 running_job ≡ false)
      × Returns (IsSettled running_job) (process_async_transcription run running_job)
process_async_transcription-settles_example =
    process_async_transcription-settles run running_job 1000 refl refl (refl, refl)

process_async_transcription_goes_on_example :
    Returns
      (λ job'.
        (is_over job'.transcription.state ≡ true)
        ⊎ (get_last? job'.tasks ≡ some (Task.process_again 60)))
      (process_async_transcription run new_job)
process_async_transcription_goes_on_example =
    process_async_transcription_goes_on run new_job (refl, refl) (refl, refl)

abbrev undelivered : Run
undelivered = record run { ending = record around { delivery_error = some attribute_error } }

abbrev done_job : Job
done_job = record running_job { utterances = [] }
