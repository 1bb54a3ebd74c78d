-- ===== src/Credits.antt =====
-- bots/models.py, CreditTransaction and CreditTransactionManager, and accounts/models.py,
-- Organization: the credits of an organization and the chain of the transactions that made them.
-- Amounts are hundredths of a credit; that the database refuses one that does not fit 32 bits is left out.
-- Identifiers come from the counter of the table.
pub mod Chain
pub mod Balance
pub mod Transactions
pub mod Uncontended
use text.Mathlib.Text.{◌==◌ as str_eq}
use attendee.Base.{
  ℕ, zero, suc, ◌+◌, String, Bool, true, false, ◌||◌, not, Option, none, some, List, [], ◌∷◌, ◌++◌,
  ◌==◌, if◌then◌else◌, any, find?,
}
use attendee.Base.Int.{ℤ, neg_ℕ, ◌+ℤ◌, ltb_ℤ}
use attendee.Base.Outcome.{ok, raise}
use attendee.Errors.{Result, integrity_error, runtime_error, record_modified_error}

pub record CreditTransaction : Type 0 where
  pub id : ℕ
  pub centicredits_before : ℤ
  pub centicredits_after : ℤ
  pub centicredits_delta : ℤ
  pub parent_transaction : Option ℕ
  pub bot : Option ℕ
  pub stripe_payment_intent_id : Option String

-- The organization's balance, and the rows of its transactions in the order of their identifiers.
pub record Ledger : Type 0 where
  pub centicredits : ℤ
  pub transactions : List CreditTransaction
  pub next_id : ℕ

-- `Organization.out_of_credits`: `credits() < -1`, in hundredths.
unfoldable pub out_of_credits : Ledger → Bool
out_of_credits l = ltb_ℤ l.centicredits (neg_ℕ 100)

abbrev pub is_child_of : ℕ → CreditTransaction → Bool
is_child_of id t = elim t.parent_transaction [ none ↦ false | some p ↦ p == id ]

-- `child_transactions__isnull=True`
abbrev pub is_leaf : List CreditTransaction → CreditTransaction → Bool
is_leaf all t = not (any (is_child_of t.id) all)

abbrev pub leaf : List CreditTransaction → Option CreditTransaction
leaf all = find? (is_leaf all) all

abbrev pub id_of : Option CreditTransaction → Option ℕ
id_of none = none
id_of (some t) = some t.id

abbrev pub both_equal : Option ℕ → Option ℕ → Bool
both_equal none b = false
both_equal (some a) none = false
both_equal (some a) (some b) = a == b

abbrev pub both_same_text : Option String → Option String → Bool
both_same_text none b = false
both_same_text (some a) none = false
both_same_text (some a) (some b) = str_eq a b

abbrev pub both_roots : Option ℕ → Option ℕ → Bool
both_roots none none = true
both_roots none (some b) = false
both_roots (some a) b = false

-- The four unique constraints of the table.
abbrev pub conflicts : CreditTransaction → CreditTransaction → Bool
conflicts t u =
    both_equal t.parent_transaction u.parent_transaction
    || both_roots t.parent_transaction u.parent_transaction
    || both_equal t.bot u.bot
    || both_same_text t.stripe_payment_intent_id u.stripe_payment_intent_id

-- What other processes do between the read and the write of one attempt: what they commit to the
-- ledger, and whether the organization's row is found changed when it is saved.
pub record Interference : Type 0 where
  pub commits : Ledger → Ledger
  pub stale : Bool

-- The arguments of `create_transaction`.
pub record Charge : Type 0 where
  pub centicredits_delta : ℤ
  pub bot : Option ℕ
  pub stripe_payment_intent_id : Option String

-- The row that an attempt inserts: it is made from the ledger as read, with the next identifier.
abbrev pub new_transaction : Ledger → ℕ → Charge → CreditTransaction
new_transaction seen id c = record {
  id = id;
  centicredits_before = seen.centicredits;
  centicredits_after = seen.centicredits +ℤ c.centicredits_delta;
  centicredits_delta = c.centicredits_delta;
  parent_transaction = id_of (leaf seen.transactions);
  bot = c.bot;
  stripe_payment_intent_id = c.stripe_payment_intent_id;
}

-- The ledger `now` with the row inserted and the organization's balance written.
abbrev pub appended : Ledger → CreditTransaction → Ledger
appended now t = record now {
  centicredits = t.centicredits_after;
  transactions = now.transactions ++ t ∷ [];
  next_id = now.next_id + 1;
}

-- The atomic block: it read the ledger `seen` and writes to the ledger `now`.
unfoldable pub attempt : Bool → Ledger → Ledger → Charge → Result Ledger
attempt stale seen now c =
    let t = new_transaction seen now.next_id c in
    if any (conflicts t) now.transactions
    then raise integrity_error
    else if stale
    then raise record_modified_error
    else ok (appended now t)

-- The retry loop, with the rounds that are left; `schedule` gives the interference of each round.
-- The loop of the source begins with ten rounds, and so never ends with none.
unfoldable pub create_transaction_loop :
    ℕ → ℕ → (ℕ → Interference) → Ledger → Charge → Result Ledger
create_transaction_loop zero round schedule l c = raise runtime_error
create_transaction_loop (suc left) round schedule l c =
    let now = (schedule round).commits l in
    let again = create_transaction_loop left (round + 1) schedule now c in
    elim (attempt (schedule round).stale l now c) [
      | ok l' ↦ ok l'
      | raise integrity_error ↦ if left == 0 then raise runtime_error else again
      | raise e ↦ raise e
    ]

abbrev pub max_retries : ℕ
max_retries = 10

unfoldable pub create_transaction : (ℕ → Interference) → Ledger → Charge → Result Ledger
unfolding create_transaction_loop attempt
create_transaction schedule l c = create_transaction_loop max_retries 0 schedule l c
