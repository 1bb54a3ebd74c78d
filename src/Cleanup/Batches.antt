-- ===== src/Cleanup/Batches.antt =====
-- bots/cleanup_utils.py: a batch of the deletion, as a pass over the table that drops the first old rows.
use attendee.Base.{
  ℕ, zero, suc, ◌+◌, ◌<◌, ◌≤◌, ◌≡◌, ◌⊎◌, inl, refl, Bool, true, false, not, ◌&&◌, ◌||◌, List, [],
  ◌∷◌, if◌then◌else◌, ltb, keep, count, take, is_in, arith,
}
use attendee.Cleanup.{Row, Table, ids_of, among, delete_among, last_of}

-- The rows have identifiers above a bound.
abbrev pub AreAbove : ℕ → Table → Type 0
AreAbove k [] = Unit
AreAbove k (r ∷ rs) = (k < r.id) × AreAbove k rs

-- The rows stand in the order of their identifiers.
abbrev pub IsOrdered : Table → Type 0
IsOrdered [] = Unit
IsOrdered (r ∷ rs) = AreAbove r.id rs × IsOrdered rs

module _ (old : Row → Bool) where
  -- The table without its first `n` old rows.
  abbrev pub sweep : ℕ → Table → Table
  sweep zero rs = rs
  sweep (suc n) [] = []
  sweep (suc n) (r ∷ rs) = if old r then sweep n rs else r ∷ sweep (suc n) rs

  -- The old rows have identifiers above a bound.
  abbrev pub OldAbove : ℕ → Table → Type 0
  OldAbove k [] = Unit
  OldAbove k (r ∷ rs) = (not (old r) || ltb k r.id ≡ true) × OldAbove k rs

  -- The identifiers of the first old rows.
  abbrev pub first_ids : ℕ → Table → List ℕ
  first_ids n rs = ids_of (take n (keep old rs))

  AreAbove-keep : (k : ℕ) (rs : Table) → AreAbove k rs → AreAbove k (keep old rs)
  AreAbove-keep k [] above = tt
  AreAbove-keep k (r ∷ rs) (higher, above) = ground (arith, AreAbove-keep k rs above, higher)

  pub AreAbove-sweep : (k n : ℕ) (rs : Table) → AreAbove k rs → AreAbove k (sweep n rs)
  AreAbove-sweep k zero rs above = above
  AreAbove-sweep k (suc n) [] above = tt
  AreAbove-sweep k (suc n) (r ∷ rs) (higher, above) =
      ground (arith, AreAbove-sweep k n rs above, AreAbove-sweep k (suc n) rs above, higher)

  pub IsOrdered-sweep : (n : ℕ) (rs : Table) → IsOrdered rs → IsOrdered (sweep n rs)
  IsOrdered-sweep zero rs ordered = ordered
  IsOrdered-sweep (suc n) [] ordered = tt
  IsOrdered-sweep (suc n) (r ∷ rs) (above, ordered) = ground (
    arith,
    IsOrdered-sweep n rs ordered,
    IsOrdered-sweep (suc n) rs ordered,
    AreAbove-sweep r.id (suc n) rs above,
  )

AreAbove-take : (k n : ℕ) (rs : Table) → AreAbove k rs → AreAbove k (take n rs)
AreAbove-take k zero rs above = tt
AreAbove-take k (suc n) [] above = tt
AreAbove-take k (suc n) (r ∷ rs) (higher, above) = (higher, AreAbove-take k n rs above)

not_in_above : (k : ℕ) (rs : Table) → AreAbove k rs → is_in k (ids_of rs) ≡ false
not_in_above k [] above = refl
not_in_above k (r ∷ rs) (higher, above) = ground (arith, not_in_above k rs above)

-- A lower identifier is of none of the rows.
delete_cons :
    (k : ℕ) (ids : List ℕ) (rs : Table)
    → AreAbove k rs
    → (delete_among (k ∷ ids) rs ≡ delete_among ids rs)
      × (count (among (k ∷ ids)) rs ≡ count (among ids) rs)
delete_cons k ids [] above = (refl, refl)
delete_cons k ids (r ∷ rs) (higher, above) = ground (arith, delete_cons k ids rs above)

pub delete_none : (rs : Table) → (delete_among [] rs ≡ rs) × (count (among []) rs ≡ 0)
delete_none [] = (refl, refl)
delete_none (r ∷ rs) = ground (arith, delete_none rs)

IsOrdered-tail : (r : Row) (rs : Table) → IsOrdered (r ∷ rs) → IsOrdered rs
IsOrdered-tail r rs ordered = ordered.1

module _ (old : Row → Bool) where
  -- Deleting the first old rows by their identifiers deletes no other row.
  pub delete-first_ids :
      (n : ℕ) (rs : Table)
      → IsOrdered rs
      → (delete_among (first_ids old n rs) rs ≡ sweep old n rs)
        × (count (among (first_ids old n rs)) rs + count old (sweep old n rs) ≡ count old rs)
  delete-first_ids zero rs ordered = ground (arith, delete_none rs)
  delete-first_ids (suc n) [] ordered = ground arith
  delete-first_ids (suc n) (r ∷ rs) (above, ordered) = ground (
    arith,
    delete-first_ids n rs ordered,
    delete-first_ids (suc n) rs ordered,
    delete_cons r.id (first_ids old n rs) rs above,
    not_in_above r.id (take (suc n) (keep old rs))
        (AreAbove-take r.id (suc n) (keep old rs) (AreAbove-keep old r.id rs above)),
  )

  pub AreAbove-OldAbove : (k : ℕ) (rs : Table) → AreAbove k rs → OldAbove old k rs
  AreAbove-OldAbove k [] above = tt
  AreAbove-OldAbove k (r ∷ rs) (higher, above) =
      ground (arith, AreAbove-OldAbove k rs above, higher)

  -- What is left of the old rows lies above the last identifier that was deleted.
  pub OldAbove-sweep :
      (k n : ℕ) (rs : Table)
      → IsOrdered rs
      → OldAbove old k rs
      → OldAbove old (last_of k (first_ids old n rs)) (sweep old n rs)
  OldAbove-sweep k zero rs ordered above = above
  OldAbove-sweep k (suc n) [] ordered above = tt
  OldAbove-sweep k (suc n) (r ∷ rs) (higher, ordered) (old_higher, above) = ground (
    arith,
    OldAbove-sweep k (suc n) rs ordered above,
    old_higher,
    OldAbove-sweep r.id n rs ordered (AreAbove-OldAbove r.id rs higher),
  )

  -- A row is old and above a bound exactly if it is old, where all old rows are above it.
  pub keep-OldAbove :
      (k : ℕ) (rs : Table) → OldAbove old k rs → keep (λ r. old r && ltb k r.id) rs ≡ keep old rs
  keep-OldAbove k [] above = refl
  keep-OldAbove k (r ∷ rs) (higher, above) = ground (arith, keep-OldAbove k rs above, higher)

  pub keep_new-sweep :
      (n : ℕ) (rs : Table) → keep (λ r. not (old r)) (sweep old n rs) ≡ keep (λ r. not (old r)) rs
  keep_new-sweep zero rs = refl
  keep_new-sweep (suc n) [] = refl
  keep_new-sweep (suc n) (r ∷ rs) = ground (arith, keep_new-sweep n rs, keep_new-sweep (suc n) rs)

  count-sweep : (n : ℕ) (rs : Table) → count old (sweep old n rs) ≤ count old rs
  count-sweep zero rs = omega arith
  count-sweep (suc n) [] = omega arith
  count-sweep (suc n) (r ∷ rs) = ground (arith, count-sweep n rs, count-sweep (suc n) rs)

  -- A batch that is empty means that no row is old, and any other makes the old rows fewer.
  pub sweep_progress :
      (n : ℕ) (rs : Table)
      → (first_ids old (suc n) rs ≡ []) × (count old rs ≡ 0) × (keep (λ r. not (old r)) rs ≡ rs)
        ⊎ (count old (sweep old (suc n) rs) < count old rs)
  sweep_progress n [] = inl (refl, omega arith, refl)
  sweep_progress n (r ∷ rs) = ground (arith, sweep_progress n rs, count-sweep n rs)

  pub keep_old-sweep_none : (rs : Table) → count old rs ≡ 0 → keep old rs ≡ []
  keep_old-sweep_none [] e = refl
  keep_old-sweep_none (r ∷ rs) e = ground (arith, keep_old-sweep_none rs)
