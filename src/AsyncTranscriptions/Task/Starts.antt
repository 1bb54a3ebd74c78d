-- ===== src/AsyncTranscriptions/Task/Starts.antt =====
-- bots/tasks/process_async_transcription_task.py: what is queued when a transcription starts.
use attendee.Base.{ℕ, ◌≡◌, List, [], ◌∷◌, ◌++◌}
use attendee.AsyncTranscriptions.{AsyncTranscriptionState}
use attendee.AsyncTranscriptions.Grouping.{ids}
use attendee.AsyncTranscriptions.Task.{Task, Job, create_utterances}

-- The utterances that the tasks of a queue transcribe, in order.
abbrev pub queued_ids : List Task → List ℕ
queued_ids [] = []
queued_ids (t ∷ ts) = elim t [
  | Task.process_utterance id delay ↦ id ∷ queued_ids ts
  | Task.process_utterance_group group delay ↦ group ++ queued_ids ts
  | Task.process_again delay ↦ queued_ids ts
]

-- How a transcription is when it has started: in progress, with an utterance for each chunk of audio,
-- each of which is queued once and in order, alone or in a group.
abbrev pub HasStarted : Job → Job → Type 0
HasStarted job job' =
    let created = create_utterances job.next_utterance_id job.audio_chunks in
    (job'.transcription.state ≡ AsyncTranscriptionState.in_progress)
    × (job'.utterances ≡ job.utterances ++ created)
    × (queued_ids job'.tasks ≡ queued_ids job.tasks ++ ids created)
