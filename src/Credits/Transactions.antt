-- ===== src/Credits/Transactions.antt =====
-- bots/models.py, CreditTransactionManager.create_transaction, with what other processes commit meanwhile.
use mathlib.Core.Path.{subst}
use mathlib.Core.List.{append_assoc, append-nil}
use attendee.Base.{
  ℕ, zero, suc, ◌+◌, ◌≡◌, ◌<◌, refl, sym, ap, ◌∙◌, Bool, true, ◌⊎◌, inl, inr, Option, some, List,
  [], ◌∷◌, ◌++◌, arith, any,
}
use attendee.Base.Int.{ℤ, pos, ◌+ℤ◌, int_laws}
use attendee.Base.Outcome.{ok, raise}
use attendee.Errors.{integrity_error, runtime_error}
use attendee.Credits.{
  CreditTransaction, Ledger, Interference, Charge, conflicts, both_equal, new_transaction, appended,
  attempt, create_transaction_loop, create_transaction, max_retries,
}
use attendee.Credits.Chain.{IsChain, balance, IsValid, any-append}
use attendee.Credits.Balance.{attempt-IsValid}

-- The sum of the amounts of some transactions.
abbrev pub total : List CreditTransaction → ℤ
total [] = pos 0
total (t ∷ ts) = t.centicredits_delta +ℤ total ts

balance-total :
    (b : ℤ) (p : Option ℕ) (low : ℕ) (ts : List CreditTransaction)
    → IsChain b p low ts
    → balance b ts ≡ b +ℤ total ts
balance-total b p low [] c = omega int_laws
balance-total b p low (t ∷ ts) c =
    balance-total t.centicredits_after (some t.id) (suc t.id) ts c.4
    ∙ ap (λ a. a +ℤ total ts) (c.1 ∙ ap (λ a. a +ℤ t.centicredits_delta) refl)
    ∙ omega int_laws

-- The balance of a valid ledger is the opening balance and the sum of all its transactions.
pub centicredits-eq-total :
    (opening : ℤ) (l : Ledger)
    → IsValid opening l
    → l.centicredits ≡ opening +ℤ total l.transactions
centicredits-eq-total opening l v = v.balanced ∙ balance-total opening _ 0 l.transactions v.chained

-- `m` has the transactions of `l` and perhaps more.
abbrev pub Grows : Ledger → Ledger → Type 0
Grows l m = (extra : List CreditTransaction) × (m.transactions ≡ l.transactions ++ extra)

-- Other processes keep the ledger valid, and only add to it.
abbrev pub IsHonest : ℤ → (ℕ → Interference) → Type 0
IsHonest opening schedule =
    (round : ℕ) (l : Ledger)
    → IsValid opening l
    → IsValid opening ((schedule round).commits l) × Grows l ((schedule round).commits l)

Grows-trans : (l m n : Ledger) → Grows l m → Grows m n → Grows l n
Grows-trans l m n (a, e) (b, f) =
    (a ++ b, f ∙ ap (λ ts. ts ++ b) e ∙ append_assoc l.transactions a b)

-- A round of the loop either is the last one or leaves the rest to the next.
loop_cases :
    (left round : ℕ) (schedule : ℕ → Interference) (l : Ledger) (c : Charge) (l' : Ledger)
    → create_transaction_loop (suc left) round schedule l c ≡ ok l'
    → let now = (schedule round).commits l in
      (attempt (schedule round).stale l now c ≡ ok l')
      ⊎ (create_transaction_loop left (round + 1) schedule now c ≡ ok l')
unfolding create_transaction_loop
loop_cases left round schedule l c l' e = ground arith

-- The ledger after some rounds, as far as other processes go.
abbrev pub ledger_after : (ℕ → Interference) → ℕ → Ledger → Ledger
ledger_after schedule zero l = l
ledger_after schedule (suc k) l = (schedule k).commits (ledger_after schedule k l)

-- A row that charges for `c` from a balance on.
abbrev pub IsRowOf : ℤ → Charge → CreditTransaction → Type 0
IsRowOf before c t =
    (t.centicredits_before ≡ before)
    × (t.centicredits_after ≡ before +ℤ c.centicredits_delta)
    × (t.centicredits_delta ≡ c.centicredits_delta)
    × (t.bot ≡ c.bot)
    × (t.stripe_payment_intent_id ≡ c.stripe_payment_intent_id)

-- The ledger `l'` is `now` with exactly one row behind it, which charges for `c`, and with its balance.
abbrev pub IsChargedOn : Ledger → Charge → Ledger → Type 0
IsChargedOn now c l' =
    (l'.centicredits ≡ now.centicredits +ℤ c.centicredits_delta)
    × ((t : CreditTransaction) × (l'.transactions ≡ now.transactions ++ t ∷ [])
        × IsRowOf now.centicredits c t)

appended-IsChargedOn :
    (now : Ledger) (c : Charge) (l' : Ledger)
    → l' ≡ appended now (new_transaction now now.next_id c)
    → IsChargedOn now c l'
appended-IsChargedOn now c l' e = (
  ap (λ x. x.centicredits) e,
  (new_transaction now now.next_id c, ap (λ x. x.transactions) e, (refl, refl, refl, refl, refl)),
)

-- It is so of the ledger that other processes had left in some round before the limit, with all that they
-- had added, and is valid.
abbrev pub IsCharged : ℤ → (ℕ → Interference) → ℕ → Ledger → Charge → Ledger → Type 0
IsCharged opening schedule limit l c l' =
    (k : ℕ) × (k < limit)
    × let now = ledger_after schedule (suc k) l in
      Grows l now × IsValid opening l' × IsChargedOn now c l'

next_ledger :
    (schedule : ℕ → Interference) (k : ℕ) (l : Ledger)
    → ledger_after schedule (suc k) l ≡ ledger_after schedule (k + 1) l
next_ledger schedule k l =
    let e : suc k ≡ k + 1 = omega arith in ap (λ n. ledger_after schedule n l) e

loop-IsCharged :
    (opening : ℤ) (left round : ℕ) (schedule : ℕ → Interference) (l : Ledger) (c : Charge)
    (l' : Ledger)
    → IsHonest opening schedule
    → IsValid opening (ledger_after schedule round l)
    → Grows l (ledger_after schedule round l)
    → create_transaction_loop left round schedule (ledger_after schedule round l) c ≡ ok l'
    → IsCharged opening schedule (round + left) l c l'
unfolding create_transaction_loop
loop-IsCharged opening zero round schedule l c l' honest v grown e = cc
loop-IsCharged opening (suc left) round schedule l c l' honest v grown e =
    let seen = ledger_after schedule round l in
    let same = next_ledger schedule round l in
    let Goes : Ledger → Type 0 =
      λ m. create_transaction_loop left (round + 1) schedule m c ≡ ok l' in
    let (vn, more) = honest round seen v in
    let grown' = Grows-trans l seen ((schedule round).commits seen) grown more in
    elim (loop_cases left round schedule seen c l' e) [
      | inl done ↦
          let written =
            attempt-IsValid opening (schedule round).stale seen ((schedule round).commits seen) c
              more.0 l' v vn more.1 done in
          (
            round,
            omega arith,
            (
              grown',
              written.0,
              appended-IsChargedOn ((schedule round).commits seen) c l' written.1,
            ),
          )
      | inr again ↦
          let (k, early, rest) =
            loop-IsCharged opening left (round + 1) schedule l c l' honest
              (subst (IsValid opening) same vn) (subst (Grows l) same grown')
              (subst Goes same again) in
          (k, omega (arith, early), rest)
    ]

-- If `create_transaction` returns, then its ledger is the one that the others had left after some of its
-- rounds, which has everything they added, and exactly one row more: the charge, which starts at the
-- newest balance, and whose amount the balance has changed by. The ledger is valid, so that the row also
-- has the newest one as its parent. This takes other processes
-- to keep the ledger valid and only to add transactions.
pub create_transaction-IsCharged :
    (opening : ℤ) (schedule : ℕ → Interference) (l : Ledger) (c : Charge) (l' : Ledger)
    → IsHonest opening schedule
    → IsValid opening l
    → create_transaction schedule l c ≡ ok l'
    → IsCharged opening schedule max_retries l c l'
unfolding create_transaction
create_transaction-IsCharged opening schedule l c l' honest v e =
    loop-IsCharged opening max_retries 0 schedule l c l' honest v
      ([], sym (append-nil l.transactions)) e

-- Some transaction charges this bot.
abbrev pub is_charged : Option ℕ → List CreditTransaction → Bool
is_charged bot ts = any (λ t. both_equal bot t.bot) ts

conflicts_of_bot :
    (t : CreditTransaction) (ts : List CreditTransaction)
    → is_charged t.bot ts ≡ true
    → any (conflicts t) ts ≡ true
conflicts_of_bot t [] h = cc
conflicts_of_bot t (u ∷ us) h = ground (arith, conflicts_of_bot t us)

attempt_charged :
    (stale : Bool) (seen now : Ledger) (c : Charge)
    → is_charged c.bot now.transactions ≡ true
    → attempt stale seen now c ≡ raise integrity_error
unfolding attempt
attempt_charged stale seen now c h =
    rw (conflicts_of_bot (new_transaction seen now.next_id c) now.transactions h)

Grows-is_charged :
    (bot : Option ℕ) (l m : Ledger)
    → Grows l m
    → is_charged bot l.transactions ≡ true
    → is_charged bot m.transactions ≡ true
Grows-is_charged bot l m (extra, e) h =
    rw e (rw (any-append (λ t. both_equal bot t.bot) l.transactions extra) (rw h))

loop_charged :
    (left round : ℕ) (schedule : ℕ → Interference) (l : Ledger) (c : Charge)
    → ((round : ℕ) (l : Ledger) → Grows l ((schedule round).commits l))
    → is_charged c.bot l.transactions ≡ true
    → create_transaction_loop left round schedule l c ≡ raise runtime_error
unfolding create_transaction_loop
loop_charged zero round schedule l c grows h = refl
loop_charged (suc left) round schedule l c grows h =
    let now = (schedule round).commits l in
    let h' = Grows-is_charged c.bot l now (grows round l) h in
    ground (
      arith,
      attempt_charged (schedule round).stale l now c h',
      loop_charged left (round + 1) schedule now c grows h',
    )

-- A bot that has a transaction is not charged again: whatever other processes add meanwhile, the call
-- raises a runtime error.
pub create_transaction_charged :
    (schedule : ℕ → Interference) (l : Ledger) (c : Charge)
    → ((round : ℕ) (l : Ledger) → Grows l ((schedule round).commits l))
    → is_charged c.bot l.transactions ≡ true
    → create_transaction schedule l c ≡ raise runtime_error
unfolding create_transaction
create_transaction_charged schedule l c grows h = loop_charged max_retries 0 schedule l c grows h
