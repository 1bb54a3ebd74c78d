-- ===== src/Utterances/Settled.antt =====
-- bots/tasks/process_utterance_task.py: how often an utterance is tried, and what a disturbed run leaves.
use attendee.Base.{
  ℕ, ◌+◌, ◌≤◌, ◌≡◌, ◌⊎◌, inl, inr, refl, ap, ◌∙◌, Bool, true, false, not, ◌||◌, List, [], ◌∷◌,
  length, count, is_some, arith,
}
use attendee.Recordings.{
  TranscriptionState, transcription_is, set_recording_transcription_complete,
  set_recording_transcription_failed,
}
use attendee.Utterances.{
  Answer, FailureReason, Desk, Run, desk_of, is_over, is_retryable_failure, finish_recording,
  store_transcript, store_failure, fail_run, transcribe, process_utterance, process_runs,
}

-- The utterance has a transcription or has failed for good.
abbrev pub is_settled : Desk → Bool
is_settled d = d.has_transcription || is_some d.failure_data

-- A run settles the utterance, or counts one more attempt, below five, of which there was none before.
abbrev IsProgress : Desk → Desk → Bool → Type 0
IsProgress d d' settled =
    (is_settled d' ≡ true)
    ⊎ (settled ≡ false)
      × (d'.transcription_attempt_count ≡ d.transcription_attempt_count + 1)
      × (d'.transcription_attempt_count ≤ 4)

finish-is_settled :
    (run : Run) (d : Desk)
    → (is_settled (desk_of (finish_recording run d)) ≡ is_settled d)
      × ((desk_of (finish_recording run d)).transcription_attempt_count
          ≡ d.transcription_attempt_count)
unfolding finish_recording set_recording_transcription_complete
finish-is_settled run d = ground arith

failure-is_settled :
    (run : Run) (reason : FailureReason) (d : Desk)
    → is_settled (desk_of (store_failure run reason d)) ≡ true
unfolding store_failure set_recording_transcription_failed
failure-is_settled run reason d = ground arith

failed_run :
    (run : Run) (reason : FailureReason) (d : Desk) (n : ℕ)
    → IsProgress
        (record d { transcription_attempt_count = n })
        (desk_of (fail_run run reason (record d { transcription_attempt_count = n + 1 })))
        false
unfolding fail_run
failed_run run reason d n = ground (arith, failure-is_settled run reason)

transcribe-IsProgress :
    (answer : Answer) (run : Run) (d : Desk) (n : ℕ)
    → IsProgress
        (record d { transcription_attempt_count = n })
        (desk_of (transcribe answer run (record d { transcription_attempt_count = n + 1 })))
        false
unfolding transcribe store_transcript
transcribe-IsProgress (Answer.transcript has_text) run d n = inl (
    (finish-is_settled run
      (store_transcript run has_text (record d { transcription_attempt_count = n + 1 }))).0)
transcribe-IsProgress (Answer.failure reason) run d n = failed_run run reason d n

process_utterance-IsProgress :
    (run : Run) (d : Desk) → IsProgress d (desk_of (process_utterance run d)) (is_settled d)
unfolding process_utterance
process_utterance-IsProgress run d = ground (
  arith,
  finish-is_settled run d,
  transcribe-IsProgress run.answer run d d.transcription_attempt_count,
)

-- What is enough for some runs to settle an utterance.
abbrev IsEnough : List Run → Desk → Type 0
IsEnough runs d =
    (is_settled d ≡ true)
    ⊎ (d.transcription_attempt_count ≤ 4) × (5 ≤ length runs + d.transcription_attempt_count)

progress-IsEnough :
    (run : Run) (runs : List Run) (d d' : Desk)
    → IsEnough (run ∷ runs) d
    → IsProgress d d' (is_settled d)
    → IsEnough runs d'
progress-IsEnough run runs d d' enough (inl settled) = inl settled
progress-IsEnough run runs d d' (inl e) (inr (unsettled, counted, few)) = absurd (grind arith)
progress-IsEnough run runs d d' (inr (few_before, enough)) (inr (unsettled, counted, few)) =
    inr (few, omega arith)

settled_at_last :
    (runs : List Run) (d : Desk) → IsEnough runs d → is_settled (process_runs runs d) ≡ true
unfolding process_runs
settled_at_last [] d (inl e) = e
settled_at_last [] d (inr (few, enough)) = absurd (omega arith)
settled_at_last (run ∷ runs) d enough = settled_at_last runs (desk_of (process_utterance run d)) (
    progress-IsEnough run runs d (desk_of (process_utterance run d)) enough
      (process_utterance-IsProgress run d))

-- An utterance tried fewer than five times is transcribed or has failed for good after so many runs that,
-- with the attempts before, they make five.
pub process_runs-is_settled :
    (runs : List Run) (d : Desk)
    → d.transcription_attempt_count ≤ 4
    → 5 ≤ length runs + d.transcription_attempt_count
    → is_settled (process_runs runs d) ≡ true
process_runs-is_settled runs d few enough = settled_at_last runs d (inr (few, enough))

after_failure :
    (runs : List Run) (d : Desk) → is_some d.failure_data ≡ true → process_runs runs d ≡ d
unfolding process_runs process_utterance
after_failure [] d e = refl
after_failure (run ∷ runs) d e = ground (arith, after_failure runs d e)

disturbed_failure :
    (run : Run) (reason : FailureReason) (d : Desk)
    → run.stale ≡ true
    → ((desk_of (store_failure run reason d)).recording ≡ d.recording)
      × (is_some (desk_of (store_failure run reason d)).failure_data ≡ true)
unfolding store_failure set_recording_transcription_failed
disturbed_failure run reason d refused = ground arith

first_failure :
    (run : Run) (reason : FailureReason) (d : Desk)
    → is_settled d ≡ false
    → run.answer ≡ Answer.failure reason
    → process_utterance run d
      ≡ fail_run run reason
          (record d { transcription_attempt_count = d.transcription_attempt_count + 1 })
unfolding process_utterance transcribe
first_failure run reason d unsettled fails =
    let d' = record d { transcription_attempt_count = d.transcription_attempt_count + 1 } in
    let e = ap (λ answer. transcribe answer run d') fails in ground (arith, e)

disturbed_run :
    (run : Run) (reason : FailureReason) (d : Desk)
    → is_settled d ≡ false
    → run.answer ≡ Answer.failure reason
    → (is_retryable_failure reason ≡ false) ⊎ (4 ≤ d.transcription_attempt_count)
    → run.stale ≡ true
    → ((desk_of (process_utterance run d)).recording ≡ d.recording)
      × (is_some (desk_of (process_utterance run d)).failure_data ≡ true)
unfolding fail_run
disturbed_run run reason d unsettled fails for_good refused =
    let d' = record d { transcription_attempt_count = d.transcription_attempt_count + 1 } in
    ground
      (arith, first_failure run reason d unsettled fails, disturbed_failure run reason d' refused)

-- A run that fails for good when the recording is over, and whose save of the recording is refused,
-- leaves it as it was whatever runs follow, so that its transcription stays in progress.
pub process_runs-keeps_recording :
    (run : Run) (later : List Run) (reason : FailureReason) (d : Desk)
    → is_settled d ≡ false
    → run.answer ≡ Answer.failure reason
    → (is_retryable_failure reason ≡ false) ⊎ (4 ≤ d.transcription_attempt_count)
    → run.stale ≡ true
    → (process_runs (run ∷ later) d).recording ≡ d.recording
unfolding process_runs
process_runs-keeps_recording run later reason d unsettled fails for_good refused =
    let (kept, failed) = disturbed_run run reason d unsettled fails for_good refused in
    ap (λ x. x.recording) (after_failure later (desk_of (process_utterance run d)) failed) ∙ kept

settled_over :
    (answer : Answer) (run : Run) (d : Desk)
    → run.stale ≡ false
    → d.is_async ≡ false
    → is_over d ≡ true
    → count (λ b. not b) d.others_transcribed ≡ 0
    → d.recording.transcription_state ≡ TranscriptionState.in_progress
    → is_settled (desk_of (transcribe answer run d)) ≡ true
    → is_settled d ≡ false
    → transcription_is
        (desk_of (transcribe answer run d)).recording.transcription_state
        TranscriptionState.in_progress
      ≡ false
unfolding transcribe finish_recording fail_run store_transcript store_failure
    set_recording_transcription_failed set_recording_transcription_complete
settled_over (Answer.transcript has_text) run d fresh sync over rest going settled before =
    ground arith
settled_over (Answer.failure reason) run d fresh sync over rest going settled before = ground arith

-- An undisturbed run that settles the last utterance of a recording that is over ends the transcription of
-- the recording: it is not in progress any more.
pub process_utterance-ends_transcription :
    (run : Run) (d : Desk)
    → run.stale ≡ false
    → d.is_async ≡ false
    → is_over d ≡ true
    → count (λ b. not b) d.others_transcribed ≡ 0
    → d.recording.transcription_state ≡ TranscriptionState.in_progress
    → is_settled d ≡ false
    → is_settled (desk_of (process_utterance run d)) ≡ true
    → transcription_is
        (desk_of (process_utterance run d)).recording.transcription_state
        TranscriptionState.in_progress
      ≡ false
unfolding process_utterance
process_utterance-ends_transcription run d fresh sync over rest going before settled =
    let d' = record d { transcription_attempt_count = d.transcription_attempt_count + 1 } in
    ground (arith, settled_over run.answer run d' fresh sync over rest going)
