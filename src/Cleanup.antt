-- ===== src/Cleanup.antt =====
-- bots/cleanup_utils.py: the deletion of old rows, a batch of identifiers at a time. A table is the list
-- of its rows in the order of their identifiers, which is the order that the query asks for.
pub mod Batches
pub mod Complete
use attendee.Base.{
  ℕ, zero, suc, ◌+◌, Bool, true, false, not, ◌&&◌, Option, none, some, List, [], ◌∷◌, if◌then◌else◌,
  ltb, length, keep, count, take, is_in,
}

-- A row of one of the three tables, whose rows no deletion of the others cascades to.
pub record Row : Type 0 where
  pub id : ℕ
  pub created_at : ℕ

abbrev pub Table : Type 0
Table = List Row

abbrev pub ids_of : Table → List ℕ
ids_of [] = []
ids_of (r ∷ rs) = r.id ∷ ids_of rs

-- `created_at__lt=cutoff`
abbrev pub is_old : ℕ → Row → Bool
is_old cutoff r = ltb r.created_at cutoff

-- The identifiers of the next batch.
unfoldable pub next_ids : ℕ → ℕ → ℕ → Table → List ℕ
next_ids cutoff batch_size last_id table =
    ids_of (take batch_size (keep (λ r. is_old cutoff r && ltb last_id r.id) table))

-- `filter(id__in=ids)`
abbrev pub among : List ℕ → Row → Bool
among ids r = is_in r.id ids

abbrev pub delete_among : List ℕ → Table → Table
delete_among ids table = keep (λ r. not (among ids r)) table

-- `ids[-1]`, or the first argument for no identifiers.
abbrev pub last_of : ℕ → List ℕ → ℕ
last_of k [] = k
last_of k (i ∷ ids) = last_of i ids

-- The loop: the table and the number of deleted rows, or none without fuel.
unfoldable pub cleanup_loop : ℕ → ℕ → ℕ → ℕ → ℕ → Table → Option (Table × ℕ)
unfolding next_ids
cleanup_loop cutoff batch_size zero last_id total_deleted table = none
cleanup_loop cutoff batch_size (suc fuel) last_id total_deleted table =
    let ids = next_ids cutoff batch_size last_id table in
    elim ids [
      | [] ↦ some (table, total_deleted)
      | i ∷ is ↦
          cleanup_loop cutoff batch_size fuel (last_of i is)
            (total_deleted + count (among (i ∷ is)) table) (delete_among (i ∷ is) table)
    ]

-- What each of the three functions does with its table: the table that it leaves, and its result. Each
-- round but the last deletes a row, so the number of rows is enough fuel for the others.
abbrev pub cleanup : ℕ → ℕ → Bool → Table → Option (Table × ℕ)
cleanup cutoff batch_size dry_run table =
    if dry_run
    then some (table, count (is_old cutoff) table)
    else cleanup_loop cutoff batch_size (suc (length table)) 0 0 table

-- The three tables.
pub record Tables : Type 0 where
  pub utterances : Table
  pub audio_chunks : Table
  pub bot_resource_snapshots : Table

unfoldable pub cleanup_old_utterances : ℕ → ℕ → Bool → Tables → Option (Tables × ℕ)
unfolding cleanup_loop
cleanup_old_utterances cutoff batch_size dry_run t =
    elim (cleanup cutoff batch_size dry_run t.utterances) [
      | none ↦ none
      | some r ↦ some (record t { utterances = r.0 }, r.1)
    ]

unfoldable pub cleanup_old_audio_chunks : ℕ → ℕ → Bool → Tables → Option (Tables × ℕ)
unfolding cleanup_loop
cleanup_old_audio_chunks cutoff batch_size dry_run t =
    elim (cleanup cutoff batch_size dry_run t.audio_chunks) [
      | none ↦ none
      | some r ↦ some (record t { audio_chunks = r.0 }, r.1)
    ]

unfoldable pub cleanup_old_bot_resource_snapshots : ℕ → ℕ → Bool → Tables → Option (Tables × ℕ)
unfolding cleanup_loop
cleanup_old_bot_resource_snapshots cutoff batch_size dry_run t =
    elim (cleanup cutoff batch_size dry_run t.bot_resource_snapshots) [
      | none ↦ none
      | some r ↦ some (record t { bot_resource_snapshots = r.0 }, r.1)
    ]
