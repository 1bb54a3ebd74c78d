-- ===== src/Utterances/Waiting.antt =====
-- bots/tasks/process_utterance_task.py: how the end of the task waits for the other utterances.
use attendee.Base.{
  ◌+◌, Bool, true, false, not, ◌&&◌, List, [], ◌∷◌, count, ◌==◌, ◌≡◌, refl, ap, ◌∙◌, arith,
}
use attendee.Recordings.{set_recording_transcription_complete}
use attendee.Utterances.{
  Answer, Desk, Run, desk_of, finish_recording, store_transcript, transcribe, process_utterance,
  process_runs,
}

abbrev pub is_transcript : Answer → Bool
is_transcript (Answer.transcript has_text) = true
is_transcript (Answer.failure reason) = false

abbrev pub are_transcripts : List Run → Bool
are_transcripts [] = true
are_transcripts (run ∷ runs) = is_transcript run.answer && are_transcripts runs

-- No other utterance is without a transcription.
abbrev pub is_last : Desk → Bool
is_last d = count (λ b. not b) d.others_transcribed == 0

abbrev IsWaiting : Desk → Desk → Type 0
IsWaiting d d' = (d'.recording ≡ d.recording) × (d'.others_transcribed ≡ d.others_transcribed)

finish_recording-IsWaiting :
    (run : Run) (d : Desk) → is_last d ≡ false → IsWaiting d (desk_of (finish_recording run d))
unfolding finish_recording set_recording_transcription_complete
finish_recording-IsWaiting run d e = ground arith

transcribe-IsWaiting :
    (answer : Answer) (run : Run) (d : Desk)
    → is_last d ≡ false
    → is_transcript answer ≡ true
    → IsWaiting d (desk_of (transcribe answer run d))
unfolding transcribe store_transcript
transcribe-IsWaiting (Answer.transcript has_text) run d e t =
    finish_recording-IsWaiting run (store_transcript run has_text d) e
transcribe-IsWaiting (Answer.failure reason) run d e t = ground arith

process_utterance-IsWaiting :
    (run : Run) (d : Desk)
    → is_last d ≡ false
    → is_transcript run.answer ≡ true
    → IsWaiting d (desk_of (process_utterance run d))
unfolding process_utterance
process_utterance-IsWaiting run d e t =
    let d' = record d { transcription_attempt_count = d.transcription_attempt_count + 1 } in
    ground (arith, finish_recording-IsWaiting run d e, transcribe-IsWaiting run.answer run d' e t)

both : (a b : Bool) → a && b ≡ true → (a ≡ true) × (b ≡ true)
both a b e = ground arith

-- While another utterance of the recording is without a transcription, even if that one has failed for
-- good, runs that transcribe this one leave the recording as it is.
pub process_runs-waits :
    (runs : List Run) (d : Desk)
    → is_last d ≡ false
    → are_transcripts runs ≡ true
    → (process_runs runs d).recording ≡ d.recording
unfolding process_runs
process_runs-waits [] d e t = refl
process_runs-waits (run ∷ runs) d e t =
    let (t1, t2) = both (is_transcript run.answer) (are_transcripts runs) t in
    let (kept, same) = process_utterance-IsWaiting run d e t1 in
    process_runs-waits runs (desk_of (process_utterance run d))
      (ap (λ l. count (λ b. not b) l == 0) same ∙ e) t2
    ∙ kept
