-- ===== src/Tests/Rows.antt =====
-- The theorems on recordings, credits, deliveries and requests, at concrete rows.
use mathlib.Core.List.{append-nil}
use attendee.Base.{
  List, [], arith, count, false, none, refl, some, suc, sym, true, zero, ℕ, ◌∷◌, ◌≡◌, ◌≤◌,
}
use attendee.Base.Int.{pos, neg_ℕ, ◌+ℤ◌}
use attendee.Base.Outcome.{ok, raise}
use attendee.Errors.{runtime_error}
use attendee.Recordings.{RecordingType}
use attendee.Recordings.Terminate.{recording_type, terminate_recording}
use attendee.Recordings.Termination.{terminated, terminate_recording-eq-terminated}
use attendee.Recordings.Invariant
use attendee.Recordings.Invariant.{
  Leaves, terminate, call, call-IsValid, IsFinal, call-IsFinal, call-transcription_final,
}
use attendee.Credits.{Ledger, Charge, create_transaction}
use attendee.Credits.Chain
use attendee.Credits.Chain.{leaf-eq-last}
use attendee.Credits.Transactions.{
  Grows, is_charged, IsHonest, IsCharged, create_transaction-IsCharged, create_transaction_charged,
}
use attendee.Bots.Heartbeat.{Beat}
use attendee.Bots.Recovery
use attendee.Bots.Recovery.{
  Crash, is_recent, maybe_create_replacement_bot, after_crashes, replacements_capped,
}
use attendee.Events.Types.{EventType}
use attendee.Events.SubTypes.{EventSubType}
use attendee.States.{BotState}
use attendee.Bots.Billing.{centicredits_for}
use attendee.Bots.Billing.Price.{IsFair, centicredits_for-IsFair}
use attendee.Tests.{bot_in, value_of, running, finished, ledger, quiet_ledger}

running-IsValid : Invariant.IsValid running
running-IsValid = record {
  started = refl;
  completed = refl;
  transcribing = refl;
  transcribed = refl;
  failure_kept = refl;
}

finished-IsValid : Invariant.IsValid finished
finished-IsValid = record {
  started = refl;
  completed = refl;
  transcribing = refl;
  transcribed = refl;
  failure_kept = refl;
}

mp4 : recording_type "mp4" ≡ ok RecordingType.audio_and_video
unfolding recording_type
mp4 = refl

terminate_recording-eq-terminated_example :
    terminate_recording false 50 "mp4" running
    ≡ ok (terminated 50 RecordingType.audio_and_video running)
terminate_recording-eq-terminated_example =
    terminate_recording-eq-terminated 50 "mp4" RecordingType.audio_and_video running mp4 refl
      (refl, (refl, tt))

call-IsValid_example : Leaves Invariant.IsValid (call (terminate "mp4") false 50 running)
call-IsValid_example = call-IsValid (terminate "mp4") false 50 running running-IsValid

call-IsFinal_example : Leaves (IsFinal finished) (call (terminate "mp4") false 50 finished)
call-IsFinal_example = call-IsFinal (terminate "mp4") false 50 finished refl

ledger-IsValid : Chain.IsValid (pos 500) ledger
unfolding ◌+ℤ◌
ledger-IsValid = record {
  chained = (refl, refl, refl, omega arith, tt);
  balanced = refl;
  fresh = omega arith;
}

abbrev charge : Charge
charge = record { centicredits_delta = neg_ℕ 100; bot = some 7; stripe_payment_intent_id = none }

abbrev charged : Ledger
charged = value_of ledger (create_transaction quiet_ledger ledger charge)

charged_done : create_transaction quiet_ledger ledger charge ≡ ok charged
unfolding create_transaction
charged_done = refl

quiet_ledger-Grows : (round : ℕ) (l : Ledger) → Grows l ((quiet_ledger round).commits l)
quiet_ledger-Grows round l = ([], sym (append-nil l.transactions))

quiet_ledger-IsHonest : IsHonest (pos 500) quiet_ledger
quiet_ledger-IsHonest round l v = (v, quiet_ledger-Grows round l)

create_transaction-IsCharged_example : IsCharged (pos 500) quiet_ledger 10 ledger charge charged
create_transaction-IsCharged_example =
    create_transaction-IsCharged (pos 500) quiet_ledger ledger charge charged quiet_ledger-IsHonest
      ledger-IsValid charged_done

charged_bot : is_charged (some 7) charged.transactions ≡ true
unfolding create_transaction
charged_bot = refl

create_transaction_charged_example :
    create_transaction quiet_ledger charged charge ≡ raise runtime_error
create_transaction_charged_example =
    create_transaction_charged quiet_ledger charged charge quiet_ledger-Grows charged_bot

centicredits_for-IsFair_example : IsFair 3600 (centicredits_for 3600)
centicredits_for-IsFair_example = centicredits_for-IsFair 3600 (omega arith)

-- Just over four minutes cost a hundredth more than their price, seven.
seven_times_36 : centicredits_for 252 ≡ 8
unfolding centicredits_for
seven_times_36 = refl

-- A beat that another process disturbs, and then one that it does not.
abbrev beats : ℕ → Beat
beats zero = record { row = bot_in BotState.joining; stale = true; now = 4700 }
beats (suc k) = record { row = bot_in BotState.joining; stale = false; now = 4701 }

abbrev crash : Crash
crash = record {
  event_sub_type = some EventSubType.fatal_error_heartbeat_timeout;
  is_found = true;
  auto_rejoin_on_failure = true;
  event_types = EventType.join_requested ∷ EventType.bot_joined_meeting ∷ [];
  ledger = ledger;
  is_at_concurrency_limit = false;
  has_default_recording = true;
  creation = Recovery.created;
  launch_raises = false;
}

abbrev crashes : List (ℕ × Crash)
crashes = (60, crash) ∷ (60, crash) ∷ (60, crash) ∷ (60, crash) ∷ []

-- The fourth crash is not replaced.
three_replacements : count (is_recent 1240) ((after_crashes 1000 crashes []).1) ≡ 3
unfolding maybe_create_replacement_bot
three_replacements = refl

replacements_capped_example : count (is_recent 1240) ((after_crashes 1000 crashes []).1) ≤ 3
replacements_capped_example = replacements_capped 1000 crashes [] (omega arith)
