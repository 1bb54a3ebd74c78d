-- ===== src/Utterances/Retry/Again.antt =====
-- bots/bots_api_utils.py: that a retry leaves nothing to retry.
use attendee.Base.{
  ℕ, Bool, true, false, Option, none, some, List, [], ◌∷◌, ◌++◌, map, length, ◌≡◌, refl, ap, ◌==◌,
  if◌then◌else◌, ◌||◌, not, arith,
}
use attendee.Base.Outcome.{ok, ◌>>=◌, Ensures, Ensures-then}
use attendee.States.{BotState, state_in, same_state, post_meeting_states}
use attendee.Recordings.{Recording}
use attendee.Errors.{Result}
use attendee.Utterances.Retry.{
  Row, Shelf, Reply, retried, not_over, no_recording, is_retryable, reset, retryable_utterances,
  back_in_progress, queue_again, retry_rows, retry_in, retry_failed_transcription,
}

-- The answer to the same request made again.
abbrev pub repeated : Reply → Reply
repeated (retried n) = retried 0
repeated not_over = not_over
repeated no_recording = no_recording

reset_retryable : (row : Row) → is_retryable (reset row) ≡ false
reset_retryable row = ground arith

retryable_utterances-map : (rows : List Row) → retryable_utterances (map reset rows) ≡ []
unfolding retryable_utterances
retryable_utterances-map [] = refl
retryable_utterances-map (row ∷ rows) =
    ground (arith, reset_retryable row, retryable_utterances-map rows)

nothing_left :
    (stale : Bool) (r : Recording) (rows : List Row) (queued : List ℕ)
    → length (retryable_utterances rows) == 0 ≡ true
    → retry_rows stale r rows queued
      ≡ ok (retried 0, record { recording = some r; rows = rows; queued = queued })
unfolding retry_rows
nothing_left stale r rows queued e = ground (arith, e)

-- What a retry leaves is left by the same request made again.
abbrev IsStable : Bool → Reply × Shelf → Type 0
IsStable again p = retry_in p.1.recording again p.1 ≡ ok (repeated p.0, p.1)

retry_rows-IsStable :
    (stale again : Bool) (r : Recording) (rows : List Row) (queued : List ℕ)
    → Ensures (IsStable again) (retry_rows stale r rows queued)
unfolding retry_rows retry_in
retry_rows-IsStable stale again r rows queued =
    elim (length (retryable_utterances rows) == 0)
        as (λ b.
          length (retryable_utterances rows) == 0 ≡ b
          → Ensures (IsStable again) (
              if b
              then ok (retried 0, record { recording = some r; rows = rows; queued = queued })
              else back_in_progress stale r >>= queue_again rows queued)) [
                | true ↦ λ e. nothing_left again r rows queued e
                | false ↦ λ e.
                    Ensures-then (IsStable again) (back_in_progress stale r)
                      (queue_again rows queued)
                      (λ r'.
                        nothing_left again r' (map reset rows)
                          (queued ++ map (λ row. row.id) (retryable_utterances rows))
                          (ap (λ l. length l == 0) (retryable_utterances-map rows)))
              ]
      refl

retry_in-IsStable :
    (stale again : Bool) (r : Option Recording) (shelf : Shelf)
    → shelf.recording ≡ r
    → Ensures (IsStable again) (retry_in r stale shelf)
unfolding retry_in
retry_in-IsStable stale again none shelf e = ap (λ o. retry_in o again shelf) e
retry_in-IsStable stale again (some r) shelf e =
    retry_rows-IsStable stale again r shelf.rows shelf.queued

after_check :
    (late : Bool) (again : Bool) (shelf : Shelf) (m : Result (Reply × Shelf))
    → Ensures (IsStable again) m
    → Ensures
        (λ p.
          (if late then ok (not_over, p.1) else retry_in p.1.recording again p.1)
          ≡ ok (repeated p.0, p.1))
        (if late then ok (not_over, shelf) else m)
after_check true again shelf m h = refl
after_check false again shelf m h = h

-- A retry that returns leaves nothing to retry: the same request made again answers none, or the same
-- refusal, and changes nothing.
pub retry_failed_transcription-repeated :
    (stale again : Bool) (state : BotState) (shelf : Shelf)
    → Ensures
        (λ p. retry_failed_transcription again state p.1 ≡ ok (repeated p.0, p.1))
        (retry_failed_transcription stale state shelf)
unfolding retry_failed_transcription
retry_failed_transcription-repeated stale again state shelf =
    after_check (not (state_in state post_meeting_states) || same_state state BotState.data_deleted)
      again shelf (retry_in shelf.recording stale shelf)
      (retry_in-IsStable stale again shelf.recording shelf refl)
