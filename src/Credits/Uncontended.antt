-- ===== src/Credits/Uncontended.antt =====
-- bots/models.py, CreditTransactionManager.create_transaction, where no other process commits meanwhile.
use attendee.Base.{
  ℕ, suc, ◌≡◌, refl, sym, ◌∙◌, ap, Bool, true, false, ◌||◌, inl, inr, none, some, List, [], ◌∷◌,
  arith, any, find?, get_last?, Option-cases,
}
use attendee.Base.Int.{ℤ}
use attendee.Base.Outcome.{ok}
use attendee.Credits.{
  CreditTransaction, Ledger, Interference, Charge, is_child_of, is_leaf, leaf, both_equal,
  both_same_text, conflicts, new_transaction, appended, attempt, create_transaction_loop,
  create_transaction,
}
use attendee.Credits.Chain.{IsValid, leaf-eq-last}

-- Some transaction is of the charge's bot, or of its payment.
abbrev pub is_claimed : Charge → List CreditTransaction → Bool
is_claimed c ts =
    any
      (λ u.
        both_equal c.bot u.bot
        || both_same_text c.stripe_payment_intent_id u.stripe_payment_intent_id)
      ts

find?-eq-some :
    (p : CreditTransaction → Bool) (ts : List CreditTransaction) (t : CreditTransaction)
    → find? p ts ≡ some t
    → p t ≡ true
find?-eq-some p [] t h = cc
find?-eq-some p (u ∷ ts) t h = ground (arith, find?-eq-some p ts t)

no_last : (ts : List CreditTransaction) → get_last? ts ≡ none → ts ≡ []
no_last [] h = refl
no_last (t ∷ []) h = cc
no_last (t ∷ u ∷ ts) h = let impossible : u ∷ ts ≡ [] = no_last (u ∷ ts) h in cc

child_free :
    (seen : Ledger) (id parent : ℕ) (c : Charge) (ts : List CreditTransaction)
    → any (is_child_of parent) ts ≡ false
    → is_claimed c ts ≡ false
    → any (conflicts (record (new_transaction seen id c) { parent_transaction = some parent })) ts
      ≡ false
child_free seen id parent c [] free unclaimed = refl
child_free seen id parent c (u ∷ ts) free unclaimed = ground (arith, child_free seen id parent c ts)

unopposed :
    (opening : ℤ) (l : Ledger) (c : Charge)
    → IsValid opening l
    → is_claimed c l.transactions ≡ false
    → any (conflicts (new_transaction l l.next_id c)) l.transactions ≡ false
unopposed opening l c valid unclaimed = elim (Option-cases (leaf l.transactions)) [
  | inl nothing ↦
      let empty : l.transactions ≡ [] =
        no_last l.transactions
          (sym (leaf-eq-last opening l.transactions valid.chained) ∙ nothing) in
      ap (λ ts. any (conflicts (new_transaction l l.next_id c)) ts) empty
  | inr found ↦ rw (found.1) (
      child_free l l.next_id found.0.id c l.transactions
        (ground (arith, find?-eq-some (is_leaf l.transactions) l.transactions found.0 found.1))
        unclaimed)
]

attempt_unopposed :
    (opening : ℤ) (l : Ledger) (c : Charge)
    → IsValid opening l
    → is_claimed c l.transactions ≡ false
    → attempt false l l c ≡ ok (appended l (new_transaction l l.next_id c))
unfolding attempt
attempt_unopposed opening l c valid unclaimed = rw (unopposed opening l c valid unclaimed) refl

loop_returns :
    (left k : ℕ) (schedule : ℕ → Interference) (l l' : Ledger) (c : Charge)
    → attempt (schedule k).stale l ((schedule k).commits l) c ≡ ok l'
    → create_transaction_loop (suc left) k schedule l c ≡ ok l'
unfolding create_transaction_loop
loop_returns left k schedule l l' c h = ground (arith, h)

-- On a valid ledger without a transaction of the charge's bot or payment, a call that no other process
-- disturbs returns at once, with the one new row appended and the balance written.
pub create_transaction-eq-appended :
    (opening : ℤ) (schedule : ℕ → Interference) (l : Ledger) (c : Charge)
    → IsValid opening l
    → is_claimed c l.transactions ≡ false
    → (schedule 0).commits l ≡ l
    → (schedule 0).stale ≡ false
    → create_transaction schedule l c ≡ ok (appended l (new_transaction l l.next_id c))
unfolding create_transaction
create_transaction-eq-appended opening schedule l c valid unclaimed quiet fresh =
    loop_returns 9 0 schedule l (appended l (new_transaction l l.next_id c)) c (
      ap (λ stale. attempt stale l ((schedule 0).commits l) c) fresh
      ∙ ap (λ now. attempt false l now c) quiet
      ∙ attempt_unopposed opening l c valid unclaimed)
