-- ===== src/AsyncTranscriptions/Stamps.antt =====
-- bots/models.py, AsyncTranscriptionManager: the stamps and the webhooks of its operations.
use attendee.Base.{not, ◌≡◌, ◌≢◌, Bool, true, false, ◌||◌, [], String, arith, is_some, ◌⊎◌}
use attendee.Base.Outcome.{Ensures}
use attendee.Errors.{Result}
use attendee.AsyncTranscriptions.{
  AsyncTranscriptionState, is, AsyncTranscription, Around, Told, delivery_webhook,
  set_async_transcription_in_progress, set_async_transcription_complete,
  set_async_transcription_failed,
}

pub record IsTimed (a : AsyncTranscription) : Type 0 where
  pub started :
      not (
          is a.state AsyncTranscriptionState.in_progress
          || is a.state AsyncTranscriptionState.complete)
        || is_some a.started_at
      ≡ true
  pub completed : is_some a.completed_at ≡ is a.state AsyncTranscriptionState.complete
  pub failed : is_some a.failed_at ≡ is a.state AsyncTranscriptionState.failed
  pub failure_kept : is_some a.failure_data ≡ is a.state AsyncTranscriptionState.failed

-- The public operations of `AsyncTranscriptionManager`.
pub data Call : Type 0 where
  start finish : Call
  fail : String → Call

unfoldable pub call : Call → Around → AsyncTranscription → Result Told
unfolding set_async_transcription_in_progress set_async_transcription_complete
    set_async_transcription_failed
call start around a = set_async_transcription_in_progress around a
call finish around a = set_async_transcription_complete around a
call (fail reason) around a = set_async_transcription_failed around reason a

-- Every operation that returns leaves a valid row valid.
pub call-IsTimed :
    (c : Call) (around : Around) (a : AsyncTranscription)
    → IsTimed a
    → Ensures (λ t. IsTimed t.0) (call c around a)
unfolding call
call-IsTimed start around a valid = ground arith
call-IsTimed finish around a valid = ground arith
call-IsTimed (fail d) around a valid = ground arith

-- The end of a transcription.
abbrev pub is_over : AsyncTranscriptionState → Bool
is_over s = is s AsyncTranscriptionState.complete || is s AsyncTranscriptionState.failed

-- An operation that returns either leaves the row as it is and tells nobody, or takes a row that is not
-- over to another state and tells the subscriptions of the new row.
pub call-told_once :
    (c : Call) (around : Around) (a : AsyncTranscription)
    → Ensures
        (λ t.
          (t.0 ≡ a) × (t.1 ≡ [])
          ⊎ (is_over a.state ≡ false) × (t.0.state ≢ a.state) × (t.1 ≡ delivery_webhook around t.0))
        (call c around a)
unfolding call
call-told_once start around a = ground arith
call-told_once finish around a = ground arith
call-told_once (fail d) around a = ground arith
