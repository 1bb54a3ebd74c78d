-- ===== src/Lifecycle/Ending.antt =====
-- bots/models.py, BotEventManager.after_transition_to_post_meeting_state: the recordings are ended,
-- their failures are collected, and the organization is charged.
use attendee.Base.{
  ℕ, Bool, ◌&&◌, ◌||◌, String, Option, none, some, List, [], ◌∷◌, ◌++◌, if◌then◌else◌, ltb, leb,
  count,
}
use attendee.Base.Int.{neg_ℕ}
use attendee.Base.Outcome.{ok, ◌>>=◌, ◌>>◌, require}
use attendee.Errors.{Result, validation_error}
use attendee.Events.Types.{EventType}
use attendee.Recordings.{
  RecordingState, is, TranscriptionState, transcription_is, Recording, Deferred,
}
use attendee.Recordings.Terminate.{terminate_recording}
use attendee.Credits.{Charge, create_transaction}
use attendee.Bots.{Bot, bot_duration_seconds}
use attendee.Bots.Billing.{centicredits_consumed}
use attendee.Transitions.{bot_event_type_should_incur_charges}
use attendee.Lifecycle.{Metadata, World, Settings, Round, with_recordings}

-- `state__in=[RecordingStates.IN_PROGRESS, RecordingStates.PAUSED]`
abbrev pub is_running : Recording → Bool
is_running r = is r.state RecordingState.in_progress || is r.state RecordingState.paused

-- `for recording in in_progress_recordings`
unfoldable pub terminate_running :
    Round → String → List Recording → Result (List Recording × List Deferred)
terminate_running round format [] = ok ([], [])
terminate_running round format (r ∷ rs) =
    (if is_running r
      then terminate_recording round.recording_stale round.now format r
      else ok (r, []))
    >>= (λ s. terminate_running round format rs >>= (λ t. ok (s.0 ∷ t.0, s.1 ++ t.1)))

-- The failures of the recordings whose transcription failed; none if there are no such failures.
abbrev extend : Option (List String) → Option (List String) → Option (List String)
extend sofar none = sofar
extend sofar (some []) = sofar
extend none (some (s ∷ ss)) = some (s ∷ ss)
extend (some l) (some (s ∷ ss)) = some (l ++ s ∷ ss)

abbrev collect : Option (List String) → List Recording → Option (List String)
collect sofar [] = sofar
collect sofar (r ∷ rs) =
    collect
      (if transcription_is r.transcription_state TranscriptionState.failed
        then extend sofar r.transcription_failure_data
        else sofar)
      rs

unfoldable pub transcription_errors : List Recording → Option (List String)
transcription_errors rs = collect none rs

-- What a bot owes, if it is charged at all.
unfoldable pub amount_due : Settings → EventType → Bot → ℕ
amount_due settings e b =
    if settings.charge_credits_for_bots && bot_event_type_should_incur_charges e
    then centicredits_consumed b
    else 0

-- The charge. With it comes the amount for the metadata.
unfoldable pub charge_bot : Settings → Round → EventType → World → Result (World × Option ℕ)
charge_bot settings round e w =
    let due = amount_due settings e w.bot in
    let charge : Charge = record {
      centicredits_delta = neg_ℕ due;
      bot = some w.bot.id;
      stripe_payment_intent_id = none;
    } in
    if ltb 0 due
    then (create_transaction round.charging w.ledger charge
        >>= (λ l. ok (record w { ledger = l }, some due)))
    else ok (w, none)

-- The rows after the transition, and the keys that the event's metadata gains.
unfoldable pub after_transition_to_post_meeting_state :
    Settings → Round → EventType → World → Result (World × Metadata)
after_transition_to_post_meeting_state settings round e w = do
  require (leb (count is_running w.recordings) 1) validation_error
  rs ← terminate_running round w.bot.recording_format w.recordings
  charged ← charge_bot settings round e (with_recordings w rs)
  ok (
    charged.0,
    record {
      join_at = none;
      bot_duration_seconds = some (bot_duration_seconds w.bot);
      transcription_errors = transcription_errors rs.0;
      credits_consumed = charged.1;
    },
  )
