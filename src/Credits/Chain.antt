-- ===== src/Credits/Chain.antt =====
-- bots/models.py, CreditTransaction: when the transactions of an organization form a chain, and the query
-- for its leaf.
use mathlib.Core.Path.{subst}
use mathlib.Core.List.{append_assoc}
use attendee.Base.{
  ℕ, suc, ◌≤◌, ◌<◌, ◌≡◌, refl, Bool, true, false, ◌||◌, Option, none, some, List, [], ◌∷◌, ◌++◌,
  arith, any, find?, get_last?,
}
use attendee.Base.Int.{ℤ, ◌+ℤ◌}
use attendee.Credits.{CreditTransaction, Ledger, is_child_of, is_leaf, leaf}

-- A chain that starts from a balance, a parent and a lower bound of its identifiers.
abbrev pub IsChain : ℤ → Option ℕ → ℕ → List CreditTransaction → Type 0
IsChain b p low [] = Unit
IsChain b p low (t ∷ ts) =
    (t.centicredits_before ≡ b)
    × (t.centicredits_after ≡ b +ℤ t.centicredits_delta)
    × (t.parent_transaction ≡ p)
    × (low ≤ t.id)
    × IsChain t.centicredits_after (some t.id) (suc t.id) ts

-- The balance at which a chain ends, and the least identifier that may follow it.
abbrev pub balance : ℤ → List CreditTransaction → ℤ
balance b [] = b
balance b (t ∷ ts) = balance t.centicredits_after ts

abbrev pub next_low : ℕ → List CreditTransaction → ℕ
next_low low [] = low
next_low low (t ∷ ts) = next_low (suc t.id) ts

-- The ledger of an organization that began with the balance `opening`.
pub record IsValid (opening : ℤ) (l : Ledger) : Type 0 where
  pub chained : IsChain opening none 0 l.transactions
  pub balanced : l.centicredits ≡ balance opening l.transactions
  pub fresh : next_low 0 l.transactions ≤ l.next_id

pub any-append {ℓ} :
    {A : Type ℓ} (p : A → Bool) (xs ys : List A) → any p (xs ++ ys) ≡ any p xs || any p ys
any-append p [] ys = refl
any-append p (x ∷ xs) ys = ground (arith, any-append p xs ys)

-- Each row but the last has a child among `all`, and the last has none.
abbrev Seen : List CreditTransaction → List CreditTransaction → Type 0
Seen all [] = Unit
Seen all (t ∷ []) = any (is_child_of t.id) all ≡ false
Seen all (t ∷ u ∷ ts) = (any (is_child_of t.id) all ≡ true) × Seen all (u ∷ ts)

find-last : (all ts : List CreditTransaction) → Seen all ts → find? (is_leaf all) ts ≡ get_last? ts
find-last all [] h = refl
find-last all (t ∷ []) h = rw h
find-last all (t ∷ u ∷ ts) h = rw (h.0) (find-last all (u ∷ ts) h.1)

-- No row has a parent of this identifier or a later one.
abbrev ParentsBelow : ℕ → List CreditTransaction → Type 0
ParentsBelow k ts = (id : ℕ) → k ≤ id → any (is_child_of id) ts ≡ false

abbrev IsBefore : Option ℕ → ℕ → Type 0
IsBefore none low = Unit
IsBefore (some q) low = q < low

ParentsBelow-snoc :
    (low : ℕ) (pre : List CreditTransaction) (t : CreditTransaction)
    → ParentsBelow low pre
    → IsBefore t.parent_transaction low
    → low ≤ t.id
    → ParentsBelow t.id (pre ++ t ∷ [])
ParentsBelow-snoc low pre t below parent bound id h =
    rw (any-append (is_child_of id) pre (t ∷ [])) (ground (arith, below id))

has_child :
    (pre ts : List CreditTransaction) (t u : CreditTransaction)
    → u.parent_transaction ≡ some t.id
    → any (is_child_of t.id) (pre ++ t ∷ u ∷ ts) ≡ true
has_child pre ts t u e = rw (any-append (is_child_of t.id) pre (t ∷ u ∷ ts)) (ground arith)

IsChain-Seen :
    (b : ℤ) (p : Option ℕ) (low : ℕ) (pre ts : List CreditTransaction)
    → ParentsBelow low pre
    → IsBefore p low
    → IsChain b p low ts
    → Seen (pre ++ ts) ts
IsChain-Seen b p low pre [] below parent c = tt
IsChain-Seen b p low pre (t ∷ []) below parent (_, _, e, bound, _) =
    ParentsBelow-snoc low pre t below (rw e parent) bound t.id (omega arith)
IsChain-Seen b p low pre (t ∷ u ∷ ts) below parent (_, _, e, bound, c) = (
  has_child pre ts t u c.2,
  subst (λ all. Seen all (u ∷ ts)) (append_assoc pre (t ∷ []) (u ∷ ts))
      (IsChain-Seen t.centicredits_after (some t.id) (suc t.id) (pre ++ t ∷ []) (u ∷ ts)
        (λ id h. ParentsBelow-snoc low pre t below (rw e parent) bound id (omega arith))
        (omega arith) c),
)

-- In a chain the row without children is the last one.
pub leaf-eq-last :
    (b : ℤ) (ts : List CreditTransaction) → IsChain b none 0 ts → leaf ts ≡ get_last? ts
leaf-eq-last b ts c = find-last ts ts (IsChain-Seen b none 0 [] ts (λ id h. refl) tt c)
