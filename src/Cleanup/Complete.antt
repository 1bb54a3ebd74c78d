-- ===== src/Cleanup/Complete.antt =====
-- bots/cleanup_utils.py: what a deletion leaves, and what it returns.
use attendee.Base.{
  ℕ, zero, suc, ◌+◌, ◌<◌, ◌≡◌, refl, sym, ap, ◌∙◌, ◌⊎◌, inl, inr, Bool, true, false, not, Option,
  some, List, [], ◌∷◌, keep, count, take, length, arith, if◌then◌else◌,
}
use attendee.Cleanup.{
  Table, Tables, ids_of, is_old, among, delete_among, last_of, next_ids, cleanup_loop, cleanup,
  cleanup_old_utterances, cleanup_old_audio_chunks, cleanup_old_bot_resource_snapshots,
}
use attendee.Cleanup.Batches.{
  IsOrdered, AreAbove, OldAbove, AreAbove-OldAbove, first_ids, sweep, delete_none, delete-first_ids,
  OldAbove-sweep, keep-OldAbove, keep_new-sweep, sweep_progress, IsOrdered-sweep,
}

-- The loop after a batch.
round : ℕ → ℕ → ℕ → ℕ → ℕ → Table → List ℕ → Option (Table × ℕ)
round cutoff batch_size fuel last_id total table [] = some (table, total)
round cutoff batch_size fuel last_id total table (i ∷ is) =
    cleanup_loop cutoff batch_size fuel (last_of last_id (i ∷ is))
      (total + count (among (i ∷ is)) table) (delete_among (i ∷ is) table)

cleanup_loop-eq-round :
    (cutoff batch_size fuel last_id total : ℕ) (table : Table) {ids : List ℕ}
    → next_ids cutoff batch_size last_id table ≡ ids
    → cleanup_loop cutoff batch_size (suc fuel) last_id total table
      ≡ round cutoff batch_size fuel last_id total table ids
unfolding cleanup_loop round
cleanup_loop-eq-round cutoff batch_size fuel last_id total table e =
    unfolded (next_ids cutoff batch_size last_id table)
    ∙ ap (round cutoff batch_size fuel last_id total table) e
  where
    unfolded :
        (ids : List ℕ)
        → (elim ids as (λ x. Option (Table × ℕ)) [
          | [] ↦ some (table, total)
          | i ∷ is ↦
              cleanup_loop cutoff batch_size fuel
                (last_of i is)
                (total + count (among (i ∷ is)) table)
                (delete_among (i ∷ is) table)
        ])
          ≡ round cutoff batch_size fuel last_id total table ids
    unfolded [] = refl
    unfolded (i ∷ is) = refl

-- The table without its old rows, and how many there were beside those counted.
abbrev pub cleaned : ℕ → ℕ → Table → Option (Table × ℕ)
cleaned cutoff total table =
    some (keep (λ r. not (is_old cutoff r)) table, total + count (is_old cutoff) table)

next_ids-eq-first_ids :
    (cutoff batch_size last_id : ℕ) (table : Table)
    → OldAbove (is_old cutoff) last_id table
    → next_ids cutoff batch_size last_id table ≡ first_ids (is_old cutoff) batch_size table
unfolding next_ids
next_ids-eq-first_ids cutoff batch_size last_id table above =
    ap (λ rs. ids_of (take batch_size rs)) (keep-OldAbove (is_old cutoff) last_id table above)

List-cases : (xs : List ℕ) → (xs ≡ []) ⊎ ((i : ℕ) × (is : List ℕ) × (xs ≡ i ∷ is))
List-cases [] = inl refl
List-cases (i ∷ is) = inr (i, is, refl)

unswept :
    (cutoff n : ℕ) (table : Table)
    → IsOrdered table
    → first_ids (is_old cutoff) (suc n) table ≡ []
    → count (is_old cutoff) (sweep (is_old cutoff) (suc n) table) ≡ count (is_old cutoff) table
unswept cutoff n table ordered empty =
    let counted = (delete-first_ids (is_old cutoff) (suc n) table ordered).1 in
    ground (arith, counted, empty, delete_none table)

-- A batch moves old rows from the table to the sum.
cleaned-sweep :
    (cutoff n total : ℕ) (table : Table)
    → IsOrdered table
    → let ids = first_ids (is_old cutoff) n table in
      cleaned cutoff (total + count (among ids) table) (sweep (is_old cutoff) n table)
      ≡ cleaned cutoff total table
cleaned-sweep cutoff n total table ordered = ground (
  arith,
  keep_new-sweep (is_old cutoff) n table,
  delete-first_ids (is_old cutoff) n table ordered,
)

cleanup_loop-eq-cleaned :
    (cutoff n fuel last_id total : ℕ) (table : Table)
    → IsOrdered table
    → OldAbove (is_old cutoff) last_id table
    → count (is_old cutoff) table < fuel
    → cleanup_loop cutoff (suc n) fuel last_id total table ≡ cleaned cutoff total table
unfolding round
cleanup_loop-eq-cleaned cutoff n zero last_id total table ordered above enough =
    absurd (omega arith)
cleanup_loop-eq-cleaned cutoff n (suc fuel) last_id total table ordered above enough =
    let old = is_old cutoff in
    let xs = first_ids old (suc n) table in
    let same = next_ids-eq-first_ids cutoff (suc n) last_id table above in
    elim (sweep_progress old n table) [
      | inl (empty, no_old, all_new) ↦
          cleanup_loop-eq-round cutoff (suc n) fuel last_id total table (same ∙ empty)
          ∙ ground (arith, no_old, all_new)
      | inr fewer ↦
          (let deleted = (delete-first_ids old (suc n) table ordered).0 in
            let rest =
              cleanup_loop-eq-cleaned cutoff n fuel (last_of last_id xs)
                (total + count (among xs) table) (sweep old (suc n) table)
                (IsOrdered-sweep old (suc n) table ordered)
                (OldAbove-sweep old last_id (suc n) table ordered above)
                (omega (arith, fewer, enough)) in
            elim (List-cases xs) [
              | inl empty ↦ absurd (omega (arith, fewer, unswept cutoff n table ordered empty))
              | inr (i, is, e) ↦
                  cleanup_loop-eq-round cutoff (suc n) fuel last_id total table (same ∙ e)
                  ∙ ap
                      (λ ids.
                        cleanup_loop cutoff (suc n) fuel (last_of last_id ids)
                          (total + count (among ids) table) (delete_among ids table))
                      (sym e)
                  ∙ ap
                      (λ t.
                        cleanup_loop cutoff (suc n) fuel (last_of last_id xs)
                          (total + count (among xs) table) t)
                      deleted
                  ∙ rest
                  ∙ cleaned-sweep cutoff (suc n) total table ordered
            ])
    ]

-- A table in the order of its identifiers, which are positive.
abbrev pub IsKeyed : Table → Type 0
IsKeyed table = AreAbove 0 table × IsOrdered table

enough_fuel : (cutoff : ℕ) (table : Table) → count (is_old cutoff) table < suc (length table)
enough_fuel cutoff [] = omega arith
enough_fuel cutoff (r ∷ rs) = ground (arith, enough_fuel cutoff rs)

cleanup-eq-cleaned :
    (cutoff n : ℕ) (table : Table)
    → IsKeyed table
    → cleanup cutoff (suc n) false table ≡ cleaned cutoff 0 table
cleanup-eq-cleaned cutoff n table (positive, ordered) =
    cleanup_loop-eq-cleaned cutoff n (suc (length table)) 0 0 table ordered
      (AreAbove-OldAbove (is_old cutoff) 0 table positive) (enough_fuel cutoff table)

-- The rows that are not older than the cutoff, and the number of those that are.
abbrev pub recent : ℕ → Table → Table
recent cutoff table = keep (λ r. not (is_old cutoff r)) table

abbrev pub old_count : ℕ → Table → ℕ
old_count cutoff table = count (is_old cutoff) table

-- With a batch of one row or more and positive identifiers, each of the three deletions ends, deletes
-- exactly the rows of its table that are older than the cutoff and none of the other tables, unless it
-- is a dry run, and returns their number.
pub cleanup_deletes_old :
    (cutoff n : ℕ) (dry_run : Bool) (t : Tables)
    → IsKeyed t.utterances
    → IsKeyed t.audio_chunks
    → IsKeyed t.bot_resource_snapshots
    → (cleanup_old_utterances cutoff (suc n) dry_run t
        ≡ some (
          if dry_run then t else record t { utterances = recent cutoff t.utterances },
          old_count cutoff t.utterances,
        ))
      × (cleanup_old_audio_chunks cutoff (suc n) dry_run t
          ≡ some (
            if dry_run then t else record t { audio_chunks = recent cutoff t.audio_chunks },
            old_count cutoff t.audio_chunks,
          ))
      × (cleanup_old_bot_resource_snapshots cutoff (suc n) dry_run t
          ≡ some (
            if dry_run
                then t
                else record t { bot_resource_snapshots = recent cutoff t.bot_resource_snapshots },
            old_count cutoff t.bot_resource_snapshots,
          ))
unfolding cleanup_old_utterances cleanup_old_audio_chunks cleanup_old_bot_resource_snapshots
cleanup_deletes_old cutoff n true t keyed keyed' keyed'' = (refl, refl, refl)
cleanup_deletes_old cutoff n false t keyed keyed' keyed'' = (
  ground (arith, cleanup-eq-cleaned cutoff n t.utterances keyed),
  ground (arith, cleanup-eq-cleaned cutoff n t.audio_chunks keyed'),
  ground (arith, cleanup-eq-cleaned cutoff n t.bot_resource_snapshots keyed''),
)
