-- ===== src/Credits/Balance.antt =====
-- bots/models.py, CreditTransactionManager.create_transaction: one attempt, and the chain of transactions.
use mathlib.Core.Path.{subst}
use mathlib.Core.List.{append-nil}
use attendee.Base.{
  ℕ, suc, ◌≤◌, ◌≡◌, refl, sym, ap, ◌∙◌, Bool, true, Option, none, some, List, [], ◌∷◌, ◌++◌, arith,
  any, get_last?,
}
use attendee.Base.Int.{ℤ, ◌+ℤ◌}
use attendee.Base.Outcome.{ok}
use attendee.Credits.{
  CreditTransaction, Ledger, Charge, leaf, id_of, conflicts, new_transaction, appended, attempt,
}
use attendee.Credits.Chain.{IsChain, balance, next_low, IsValid, leaf-eq-last, any-append}

-- The identifier of the last row: the parent of the next one.
abbrev last_id : Option ℕ → List CreditTransaction → Option ℕ
last_id p [] = p
last_id p (t ∷ ts) = last_id (some t.id) ts

last_id-get_last? :
    (t : CreditTransaction) (ts : List CreditTransaction)
    → id_of (get_last? (t ∷ ts)) ≡ last_id (some t.id) ts
last_id-get_last? t [] = refl
last_id-get_last? t (u ∷ ts) = last_id-get_last? u ts

id-leaf :
    (b : ℤ) (ts : List CreditTransaction) → IsChain b none 0 ts → id_of (leaf ts) ≡ last_id none ts
id-leaf b [] c = refl
id-leaf b (t ∷ ts) c = rw (leaf-eq-last b (t ∷ ts) c) (last_id-get_last? t ts)

-- A chain is lengthened by a row that starts where it ends.
IsChain-snoc :
    (b : ℤ) (p : Option ℕ) (low : ℕ) (ts : List CreditTransaction) (t : CreditTransaction)
    → IsChain b p low ts
    → t.centicredits_before ≡ balance b ts
    → t.centicredits_after ≡ balance b ts +ℤ t.centicredits_delta
    → t.parent_transaction ≡ last_id p ts
    → next_low low ts ≤ t.id
    → IsChain b p low (ts ++ t ∷ [])
IsChain-snoc b p low [] t c before after parent bound = (before, after, parent, bound, tt)
IsChain-snoc b p low (u ∷ ts) t c before after parent bound = (
  c.0,
  c.1,
  c.2,
  c.3,
  IsChain-snoc u.centicredits_after (some u.id) (suc u.id) ts t c.4 before after parent bound,
)

balance-append :
    (b : ℤ) (ts us : List CreditTransaction) → balance b (ts ++ us) ≡ balance (balance b ts) us
balance-append b [] us = refl
balance-append b (t ∷ ts) us = balance-append t.centicredits_after ts us

next_low-append :
    (low : ℕ) (ts us : List CreditTransaction)
    → next_low low (ts ++ us) ≡ next_low (next_low low ts) us
next_low-append low [] us = refl
next_low-append low (t ∷ ts) us = next_low-append (suc t.id) ts us

last_id-append :
    (p : Option ℕ) (ts us : List CreditTransaction)
    → last_id p (ts ++ us) ≡ last_id (last_id p ts) us
last_id-append p [] us = refl
last_id-append p (t ∷ ts) us = last_id-append (some t.id) ts us

parent_of_next :
    (b : ℤ) (p : Option ℕ) (low : ℕ) (ts : List CreditTransaction) (u : CreditTransaction)
    (us : List CreditTransaction)
    → IsChain b p low (ts ++ u ∷ us)
    → u.parent_transaction ≡ last_id p ts
parent_of_next b p low [] u us c = c.2
parent_of_next b p low (t ∷ ts) u us c =
    parent_of_next t.centicredits_after (some t.id) (suc t.id) ts u us c.4

same_parent_conflicts :
    (t u : CreditTransaction) → u.parent_transaction ≡ t.parent_transaction → conflicts t u ≡ true
same_parent_conflicts t u e = ground arith

-- A row that another process has put behind the leaf is found by the unique constraints.
any_conflict :
    (t u : CreditTransaction) (ts us : List CreditTransaction)
    → u.parent_transaction ≡ t.parent_transaction
    → any (conflicts t) (ts ++ u ∷ us) ≡ true
any_conflict t u ts us e =
    rw (any-append (conflicts t) ts (u ∷ us)) (ground (arith, same_parent_conflicts t u))

module _ (opening : ℤ) where
  appended-IsValid :
      (seen now : Ledger) (c : Charge)
      → IsValid opening seen
      → IsValid opening now
      → now.transactions ≡ seen.transactions
      → let l = appended now (new_transaction seen now.next_id c) in
        IsValid opening l × (l ≡ appended now (new_transaction now now.next_id c))
  appended-IsValid seen now c vs vn same = (
    record {
      chained =
          IsChain-snoc opening none 0 now.transactions t vn.chained before
            (ap (λ b. b +ℤ c.centicredits_delta) before)
            (id-leaf opening seen.transactions vs.chained ∙ ap (last_id none) (sym same)) vn.fresh;
      balanced = sym (balance-append opening now.transactions (t ∷ []));
      fresh = rw (next_low-append 0 now.transactions (t ∷ [])) (omega arith);
    },
    rw (before ∙ sym vn.balanced) (rw same refl),
  )
    where
      t : CreditTransaction
      t = new_transaction seen now.next_id c

      before : seen.centicredits ≡ balance opening now.transactions
      before = vs.balanced ∙ ap (balance opening) (sym same)

  -- An attempt that succeeds appends the row that it would have made of the newest ledger.
  pub attempt-IsValid :
      (stale : Bool) (seen now : Ledger) (c : Charge) (extra : List CreditTransaction) (l : Ledger)
      → IsValid opening seen
      → IsValid opening now
      → now.transactions ≡ seen.transactions ++ extra
      → attempt stale seen now c ≡ ok l
      → IsValid opening l × (l ≡ appended now (new_transaction now now.next_id c))
  unfolding attempt
  attempt-IsValid stale seen now c [] l vs vn grown e =
      let written = appended-IsValid seen now c vs vn (grown ∙ append-nil seen.transactions) in
      ground (arith, written)
  attempt-IsValid stale seen now c (u ∷ us) l vs vn grown e =
      let t = new_transaction seen now.next_id c in
      let chained : IsChain opening none 0 (seen.transactions ++ u ∷ us) =
        subst (IsChain opening none 0) grown vn.chained in
      let parent = parent_of_next opening none 0 seen.transactions u us chained in
      let same = parent ∙ sym (id-leaf opening seen.transactions vs.chained) in
      let clash = any_conflict t u seen.transactions us same in
      let clash' : any (conflicts t) now.transactions ≡ true = rw grown clash in
      ground (arith, clash')
