-- ===== src/Recordings/Invariant.antt =====
-- bots/models.py, RecordingManager: when a recording is valid, and the public operations as calls.
use attendee.Base.{ℕ, String, ◌≡◌, Bool, true, false, ◌&&◌, ◌||◌, not, List, ◌++◌, is_some, arith}
use attendee.Base.Outcome.{ok, raise, ◌>>=◌, Ensures}
use attendee.Errors.{Result}
use attendee.Recordings.{
  RecordingState, TranscriptionState, transcription_is, is, Recording, Saved, has_begun,
  is_terminal_state, set_recording_in_progress, set_recording_paused, set_recording_complete,
  set_recording_failed, set_recording_transcription_in_progress,
  set_recording_transcription_complete, set_recording_transcription_failed,
  set_recording_transcription_failed_to_in_progress_for_retry,
}
use attendee.Recordings.Terminate.{end_recording, end_transcription, terminate_recording}

-- The stamps follow the state, and the transcription does not run ahead of the recording.
pub record IsValid (r : Recording) : Type 0 where
  pub started : is_some r.started_at ≡ has_begun r.state
  pub completed : is_some r.completed_at ≡ is r.state RecordingState.complete
  pub transcribing :
      transcription_is r.transcription_state TranscriptionState.not_started || has_begun r.state
      ≡ true
  pub transcribed :
      not (transcription_is r.transcription_state TranscriptionState.complete)
        || is_terminal_state r.state
      ≡ true
  pub failure_kept :
      is_some r.transcription_failure_data
      ≡ transcription_is r.transcription_state TranscriptionState.failed

-- A call that returns leaves such a row; one that raises saves nothing.
abbrev pub Leaves : (Recording → Type 0) → Result Saved → Type 0
Leaves P = Ensures (λ s. P s.0)

-- Two calls in a row, as `terminate_recording` makes them.
Leaves-chain :
    (P : Recording → Type 0) (m : Result Saved) (f : Recording → Result Saved)
    → Leaves P m
    → ((r : Recording) → P r → Leaves P (f r))
    → Leaves P (m >>= λ a. f a.0 >>= λ b. ok (b.0, a.1 ++ b.1))
Leaves-chain P (raise e) f h k = tt
Leaves-chain P (ok a) f h k = last (f a.0) (k a.0 h)
  where
    last : (n : Result Saved) → Leaves P n → Leaves P (n >>= λ b. ok (b.0, a.1 ++ b.1))
    last (raise e) g = tt
    last (ok b) g = g

-- The public operations of `RecordingManager`, with their arguments other than the row.
pub data Call : Type 0 where
  start pause finish fail begin_transcription finish_transcription retry_transcription : Call
  fail_transcription : List String → Call
  terminate : String → Call

unfoldable pub call : Call → Bool → ℕ → Recording → Result Saved
unfolding set_recording_in_progress set_recording_paused set_recording_complete set_recording_failed
    set_recording_transcription_in_progress set_recording_transcription_complete
    set_recording_transcription_failed set_recording_transcription_failed_to_in_progress_for_retry
call start stale now r = set_recording_in_progress stale now r
call pause stale now r = set_recording_paused stale r
call finish stale now r = set_recording_complete stale now r
call fail stale now r = set_recording_failed stale r
call begin_transcription stale now r = set_recording_transcription_in_progress stale r
call finish_transcription stale now r = set_recording_transcription_complete stale r
call retry_transcription stale now r =
    set_recording_transcription_failed_to_in_progress_for_retry stale r
call (fail_transcription reasons) stale now r = set_recording_transcription_failed stale reasons r
call (terminate format) stale now r = terminate_recording stale now format r

end_recording-IsValid :
    (stale : Bool) (now : ℕ) (format : String) (r : Recording)
    → IsValid r
    → Leaves IsValid (end_recording stale now format r)
unfolding end_recording
end_recording-IsValid stale now format r valid = ground arith

end_transcription-IsValid :
    (stale : Bool) (r : Recording) → IsValid r → Leaves IsValid (end_transcription stale r)
unfolding end_transcription
end_transcription-IsValid stale r valid = ground arith

terminate-IsValid :
    (stale : Bool) (now : ℕ) (format : String) (r : Recording)
    → IsValid r
    → Leaves IsValid (terminate_recording stale now format r)
unfolding terminate_recording
terminate-IsValid stale now format r valid =
    Leaves-chain IsValid (end_recording stale now format r) (end_transcription stale)
      (end_recording-IsValid stale now format r valid) (end_transcription-IsValid stale)

-- Every operation that returns leaves a valid recording valid.
pub call-IsValid :
    (c : Call) (stale : Bool) (now : ℕ) (r : Recording)
    → IsValid r
    → Leaves IsValid (call c stale now r)
unfolding call
call-IsValid (terminate format) stale now r valid = terminate-IsValid stale now format r valid
call-IsValid c stale now r valid = ground arith

-- What an operation may do to a recording that has ended, as it was at `r`.
abbrev pub IsFinal : Recording → Recording → Type 0
IsFinal r s =
    (s.state ≡ r.state) × (s.started_at ≡ r.started_at) × (s.completed_at ≡ r.completed_at)

terminate-IsFinal :
    (stale : Bool) (now : ℕ) (format : String) (r : Recording)
    → is_terminal_state r.state ≡ true
    → Leaves (IsFinal r) (terminate_recording stale now format r)
unfolding terminate_recording end_recording end_transcription
terminate-IsFinal stale now format r ended = ground arith

-- A recording that has ended stays as it ended: no operation that returns changes its state or its
-- stamps.
pub call-IsFinal :
    (c : Call) (stale : Bool) (now : ℕ) (r : Recording)
    → is_terminal_state r.state ≡ true
    → Leaves (IsFinal r) (call c stale now r)
unfolding call
call-IsFinal (terminate format) stale now r ended = terminate-IsFinal stale now format r ended
call-IsFinal c stale now r ended = ground arith

abbrev is_retry : Call → Bool
is_retry retry_transcription = true
is_retry c = false

-- A transcription that has ended stays as it ended, in a call that returns, unless a failed one is retried.
pub call-transcription_final :
    (c : Call) (stale : Bool) (now : ℕ) (r : Recording)
    → transcription_is r.transcription_state TranscriptionState.complete
        || transcription_is r.transcription_state TranscriptionState.failed && not (is_retry c)
      ≡ true
    → Leaves (λ s. s.transcription_state ≡ r.transcription_state) (call c stale now r)
unfolding call terminate_recording end_recording end_transcription
call-transcription_final start stale now r ended = ground arith
call-transcription_final c stale now r ended = ground arith
