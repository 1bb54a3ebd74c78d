-- ===== src/Lineage.antt =====
-- bots/bots_api_utils.py, resolve_meeting_lineage: the bots that covered one meeting, each of which replaced
-- another that had crashed. Object identifiers and fingerprints are numbers; the table holds the bots of
-- the project.
pub mod Linked
use attendee.Base.{
  ℕ, zero, suc, ◌+◌, Bool, true, false, not, ◌&&◌, ◌||◌, Option, none, some, List, [], ◌∷◌, ◌++◌,
  ◌==◌, if◌then◌else◌, ltb, leb, length, keep, any, find?, is_in,
}

pub record LineageBot : Type 0 where
  pub id : ℕ
  pub object_id : ℕ
  -- `metadata.replaces`
  pub replaces : Option ℕ
  pub meeting_dedup_key : Option ℕ
  pub created_at : ℕ

abbrev pub meeting_lineage_max_bots : ℕ
meeting_lineage_max_bots = 50

abbrev pub fingerprints_agree : LineageBot → LineageBot → Bool
fingerprints_agree a b = elim a.meeting_dedup_key [
  | none ↦ true
  | some j ↦ elim b.meeting_dedup_key [ none ↦ true | some k ↦ j == k ]
]

-- `bot.id in lineage_by_id`
abbrev pub is_listed : LineageBot → List LineageBot → Bool
is_listed b lineage = any (λ c. c.id == b.id) lineage

abbrev pub with_object_id : ℕ → List LineageBot → Option LineageBot
with_object_id k bots = find? (λ b. b.object_id == k) bots

abbrev pub replaced_by : LineageBot → List LineageBot → Option LineageBot
replaced_by b bots = elim b.replaces [ none ↦ none | some k ↦ with_object_id k bots ]

-- The next bot of the walk backwards, if there is one to add.
unfoldable pub predecessor_of : List LineageBot → List LineageBot → LineageBot → Option LineageBot
predecessor_of table lineage current = elim (replaced_by current table) [
  | none ↦ none
  | some p ↦ if is_listed p lineage || not (fingerprints_agree current p) then none else some p
]

-- The walk backwards. Each round adds a bot, so the limit on their number is enough fuel.
unfoldable pub walk_backwards : ℕ → List LineageBot → List LineageBot → LineageBot → List LineageBot
unfolding predecessor_of
walk_backwards zero table lineage current = lineage
walk_backwards (suc fuel) table lineage current =
    if ltb (length lineage) meeting_lineage_max_bots
    then elim (predecessor_of table lineage current) [
      | none ↦ lineage
      | some p ↦ walk_backwards fuel table (lineage ++ p ∷ []) p
    ]
    else lineage

-- Whether a successor is added: it is new, and it replaced a bot of the lineage for the same meeting.
unfoldable pub is_added : List LineageBot → LineageBot → Bool
is_added lineage s =
    not (is_listed s lineage)
    && (elim (replaced_by s lineage) [ none ↦ false | some p ↦ fingerprints_agree s p ])

-- The loop over the successors: the lineage and the new frontier.
unfoldable pub add_successors :
    List LineageBot → List LineageBot → List LineageBot → List LineageBot × List LineageBot
unfolding is_added
add_successors [] lineage frontier = (lineage, frontier)
add_successors (s ∷ ss) lineage frontier =
    let added = is_added lineage s in
    add_successors ss (if added then lineage ++ s ∷ [] else lineage)
      (if added then frontier ++ s ∷ [] else frontier)

abbrev pub is_successor : List LineageBot → LineageBot → Bool
is_successor frontier b = elim b.replaces [
  | none ↦ false
  | some k ↦ any (λ f. f.object_id == k) frontier
]

abbrev pub no_bots : List LineageBot → Bool
no_bots [] = true
no_bots (b ∷ bs) = false

-- The walk forwards, or none without fuel.
unfoldable pub walk_forwards :
    ℕ → List LineageBot → List LineageBot → List LineageBot → Option (List LineageBot)
unfolding add_successors
walk_forwards zero table lineage frontier = none
walk_forwards (suc fuel) table lineage frontier =
    let next = add_successors (keep (is_successor frontier) table) lineage [] in
    let rest = walk_forwards fuel table next.0 next.1 in
    if not (no_bots frontier) && ltb (length lineage) meeting_lineage_max_bots
    then rest
    else some lineage

-- `sorted(..., key=created_at)`
abbrev pub insert_by_time : LineageBot → List LineageBot → List LineageBot
insert_by_time b [] = b ∷ []
insert_by_time b (c ∷ cs) =
    let rest = insert_by_time b cs in if leb b.created_at c.created_at then b ∷ c ∷ cs else c ∷ rest

abbrev pub sort_by_time : List LineageBot → List LineageBot
sort_by_time [] = []
sort_by_time (b ∷ bs) = insert_by_time b (sort_by_time bs)

abbrev pub sorted : Option (List LineageBot) → Option (List LineageBot)
sorted none = none
sorted (some bots) = some (sort_by_time bots)

-- A round of the walk forwards that adds no bot is the last but one, so that two rounds more than the limit
-- are enough.
unfoldable pub resolve_meeting_lineage : List LineageBot → LineageBot → Option (List LineageBot)
unfolding walk_backwards walk_forwards
resolve_meeting_lineage table bot =
    let back = walk_backwards meeting_lineage_max_bots table (bot ∷ []) bot in
    sorted (walk_forwards (meeting_lineage_max_bots + 2) table back back)
