-- ===== src/Tests/Charges.antt =====
-- A charge that nobody disturbs, at a concrete ledger.
use attendee.Base.{◌≡◌, refl, none, some, arith}
use attendee.Base.Int.{pos, neg_ℕ, ◌+ℤ◌}
use attendee.Base.Outcome.{ok}
use attendee.Credits.{Charge, new_transaction, appended, create_transaction}
use attendee.Credits.Chain.{IsValid}
use attendee.Credits.Uncontended.{create_transaction-eq-appended}
use attendee.Tests.{ledger, quiet_ledger}

opened-IsValid : IsValid (pos 500) ledger
unfolding ◌+ℤ◌
opened-IsValid = record {
  chained = (refl, refl, refl, omega arith, tt);
  balanced = refl;
  fresh = omega arith;
}

abbrev bot_charge : Charge
bot_charge = record {
  centicredits_delta = neg_ℕ 100;
  bot = some 7;
  stripe_payment_intent_id = none;
}

create_transaction-eq-appended_example :
    create_transaction quiet_ledger ledger bot_charge
    ≡ ok (appended ledger (new_transaction ledger 2 bot_charge))
create_transaction-eq-appended_example =
    create_transaction-eq-appended (pos 500) quiet_ledger ledger bot_charge opened-IsValid refl refl
      refl
