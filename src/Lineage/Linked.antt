-- ===== src/Lineage/Linked.antt =====
-- bots/bots_api_utils.py, resolve_meeting_lineage: what connects the bots of a lineage, and the end of the
-- walks.
use mathlib.Core.Path.{subst}
use attendee.Base.{
  ℕ, zero, suc, ◌+◌, ◌-◌, ◌≤◌, ◌≡◌, ◌⊎◌, inl, inr, refl, sym, ap, ◌∙◌, Bool, true, false, not, ◌&&◌,
  Option, none, some, List, [], ◌∷◌, ◌++◌, ==_iff, if◌then◌else◌, ltb, leb, length, length-append,
  keep, arith, Option-cases,
}
use attendee.Lineage.{
  LineageBot, meeting_lineage_max_bots, fingerprints_agree, with_object_id, replaced_by,
  predecessor_of, walk_backwards, is_added, add_successors, is_successor, no_bots, walk_forwards,
  insert_by_time, sort_by_time, sorted, resolve_meeting_lineage,
}

-- A bot replaced another one for the same meeting, by their fingerprints.
pub record HasReplaced (b c : LineageBot) : Type 0 where
  pub replaces : b.replaces ≡ some c.object_id
  pub agree : fingerprints_agree b c ≡ true

-- A chain of replacements, in either direction, leads from the first bot to the other one.
pub data IsLinked (bot : LineageBot) : LineageBot → Type 0 where
  itself : IsLinked bot bot
  backwards : {b c : LineageBot} → IsLinked bot b → HasReplaced b c → IsLinked bot c
  forwards : {b c : LineageBot} → IsLinked bot b → HasReplaced c b → IsLinked bot c

abbrev pub AreLinked : LineageBot → List LineageBot → Type 0
AreLinked bot [] = Unit
AreLinked bot (b ∷ bs) = IsLinked bot b × AreLinked bot bs

AreLinked-append :
    (bot : LineageBot) (bs : List LineageBot) (c : LineageBot)
    → AreLinked bot bs
    → IsLinked bot c
    → AreLinked bot (bs ++ c ∷ [])
AreLinked-append bot [] c linked new = (new, tt)
AreLinked-append bot (b ∷ bs) c (old, linked) new = (old, AreLinked-append bot bs c linked new)

found_cases :
    (k : ℕ) (c d : LineageBot) (bots : List LineageBot)
    → with_object_id k (d ∷ bots) ≡ some c
    → (d.object_id ≡ k) × (d ≡ c) ⊎ (with_object_id k bots ≡ some c)
found_cases k c d bots e = ground (arith, e, ==_iff d.object_id k)

found_id :
    (k : ℕ) (c : LineageBot) (bots : List LineageBot)
    → with_object_id k bots ≡ some c
    → c.object_id ≡ k
found_id k c [] e = absurd (ground (arith, e))
found_id k c (d ∷ bots) e = elim (found_cases k c d bots e) [
  | inl (same, first) ↦ ap (λ b. b.object_id) (sym first) ∙ same
  | inr later ↦ found_id k c bots later
]

with_object_id-IsLinked :
    (bot : LineageBot) (k : ℕ) (c : LineageBot) (bots : List LineageBot)
    → AreLinked bot bots
    → with_object_id k bots ≡ some c
    → IsLinked bot c
with_object_id-IsLinked bot k c [] linked e = absurd (ground (arith, e))
with_object_id-IsLinked bot k c (d ∷ bots) (first, linked) e = elim (found_cases k c d bots e) [
  | inl (same, first_found) ↦ subst (IsLinked bot) first_found first
  | inr later ↦ with_object_id-IsLinked bot k c bots linked later
]

-- What a bot replaced, as it is found in a list.
replaced_cases :
    (b c : LineageBot) (bots : List LineageBot)
    → replaced_by b bots ≡ some c
    → (k : ℕ) × (b.replaces ≡ some k) × (with_object_id k bots ≡ some c)
replaced_cases b c bots e = elim (Option-cases b.replaces) [
  | inl null ↦ absurd (ground (arith, e, null))
  | inr (k, given) ↦ (k, given, ground (arith, e, given))
]

found-HasReplaced :
    (b c : LineageBot) (bots : List LineageBot)
    → replaced_by b bots ≡ some c
    → fingerprints_agree b c ≡ true
    → HasReplaced b c
found-HasReplaced b c bots e agree =
    let (k, given, found) = replaced_cases b c bots e in
    record { replaces = given ∙ ap (λ j. some j) (sym (found_id k c bots found)); agree = agree }

predecessor_replaced :
    (table lineage : List LineageBot) (current p : LineageBot)
    → predecessor_of table lineage current ≡ some p
    → HasReplaced current p
unfolding predecessor_of
predecessor_replaced table lineage current p e = elim (Option-cases (replaced_by current table)) [
  | inl missing ↦ absurd (ground (arith, e, missing))
  | inr (q, found) ↦
      (let (agree, same) = kept_cases q found in
        found-HasReplaced current p table (found ∙ ap (λ b. some b) same)
          (ap (fingerprints_agree current) (sym same) ∙ agree))
]
  where
    kept_cases :
        (q : LineageBot)
        → replaced_by current table ≡ some q
        → (fingerprints_agree current q ≡ true) × (q ≡ p)
    kept_cases q found = ground (arith, e, found)

walk_backwards-AreLinked :
    (bot : LineageBot) (fuel : ℕ) (table lineage : List LineageBot) (current : LineageBot)
    → AreLinked bot lineage
    → IsLinked bot current
    → AreLinked bot (walk_backwards fuel table lineage current)
unfolding walk_backwards
walk_backwards-AreLinked bot zero table lineage current linked here = linked
walk_backwards-AreLinked bot (suc fuel) table lineage current linked here =
    elim (ltb (length lineage) meeting_lineage_max_bots)
      as (λ b. AreLinked bot (
        if b
        then (elim (predecessor_of table lineage current) [
          | none ↦ lineage
          | some p ↦ walk_backwards fuel table (lineage ++ p ∷ []) p
        ])
        else lineage)) [
          | true ↦ go (predecessor_of table lineage current) refl λ p replaced.
              let new = IsLinked.backwards here replaced in
              walk_backwards-AreLinked bot fuel table (lineage ++ p ∷ []) p
                (AreLinked-append bot lineage p linked new) new
          | false ↦ linked
        ]
  where
    go :
        (o : Option LineageBot)
        → predecessor_of table lineage current ≡ o
        → ((p : LineageBot)
            → HasReplaced current p
            → AreLinked bot (walk_backwards fuel table (lineage ++ p ∷ []) p))
        → AreLinked bot (elim o as (λ x. List LineageBot) [
          | none ↦ lineage
          | some p ↦ walk_backwards fuel table (lineage ++ p ∷ []) p
        ])
    go none e rest = linked
    go (some p) e rest = rest p (predecessor_replaced table lineage current p e)

-- A successor that is added.
added-IsLinked :
    (bot : LineageBot) (lineage : List LineageBot) (s : LineageBot)
    → AreLinked bot lineage
    → is_added lineage s ≡ true
    → IsLinked bot s
unfolding is_added
added-IsLinked bot lineage s linked e = elim (Option-cases (replaced_by s lineage)) [
  | inl missing ↦ absurd (ground (arith, e, missing))
  | inr (p, found) ↦
      (let (k, given, there) = replaced_cases s p lineage found in
        IsLinked.forwards (with_object_id-IsLinked bot k p lineage linked there)
          (found-HasReplaced s p lineage found (ground (arith, e, found))))
]

add_successors-AreLinked :
    (bot : LineageBot) (ss lineage frontier : List LineageBot)
    → AreLinked bot lineage
    → AreLinked bot (add_successors ss lineage frontier).0
unfolding add_successors
add_successors-AreLinked bot [] lineage frontier linked = linked
add_successors-AreLinked bot (s ∷ ss) lineage frontier linked =
    add_successors-AreLinked bot ss _ _ (grown (is_added lineage s) refl)
  where
    grown :
        (b : Bool)
        → is_added lineage s ≡ b
        → AreLinked bot (if b then lineage ++ s ∷ [] else lineage)
    grown true e = AreLinked-append bot lineage s linked (added-IsLinked bot lineage s linked e)
    grown false e = linked

add_successors_grow :
    (ss lineage frontier : List LineageBot)
    → let next = add_successors ss lineage frontier in
      length next.0 + length frontier ≡ length lineage + length next.1
unfolding add_successors
add_successors_grow [] lineage frontier = omega arith
add_successors_grow (s ∷ ss) lineage frontier =
    elim (is_added lineage s)
      as (λ b.
        let next =
          add_successors ss (if b then lineage ++ s ∷ [] else lineage)
            (if b then frontier ++ s ∷ [] else frontier) in
        length next.0 + length frontier ≡ length lineage + length next.1) [
          | true ↦ omega (
            arith,
            add_successors_grow ss (lineage ++ s ∷ []) (frontier ++ s ∷ []),
            length-append lineage (s ∷ []),
            length-append frontier (s ∷ []),
          )
          | false ↦ add_successors_grow ss lineage frontier
        ]

-- A list of linked bots.
abbrev pub HasLineage : LineageBot → Option (List LineageBot) → Type 0
HasLineage bot none = ⊥
HasLineage bot (some bots) = AreLinked bot bots

-- The rounds that are left at most.
abbrev rounds_left : List LineageBot → List LineageBot → ℕ
rounds_left lineage frontier =
    if no_bots frontier then 1 else meeting_lineage_max_bots - length lineage + 2

few_rounds :
    (lineage frontier : List LineageBot)
    → rounds_left lineage frontier ≤ meeting_lineage_max_bots + 2
few_rounds lineage frontier = ground arith

some_bots : (bots : List LineageBot) → no_bots bots ≡ false → 1 ≤ length bots
some_bots [] e = absurd (ground (arith, e))
some_bots (b ∷ bots) e = omega arith

next_rounds :
    (lineage lineage' frontier frontier' : List LineageBot) (fuel : ℕ)
    → rounds_left lineage frontier ≤ suc fuel
    → not (no_bots frontier) && ltb (length lineage) meeting_lineage_max_bots ≡ true
    → length lineage' ≡ length lineage + length frontier'
    → rounds_left lineage' frontier' ≤ fuel
next_rounds lineage lineage' frontier frontier' fuel enough going grown =
    ground (arith, enough, going, grown, some_bots frontier')

walk_forwards-HasLineage :
    (bot : LineageBot) (fuel : ℕ) (table lineage frontier : List LineageBot)
    → AreLinked bot lineage
    → rounds_left lineage frontier ≤ fuel
    → HasLineage bot (walk_forwards fuel table lineage frontier)
unfolding walk_forwards
walk_forwards-HasLineage bot zero table lineage frontier linked enough =
    absurd (ground (arith, enough))
walk_forwards-HasLineage bot (suc fuel) table lineage frontier linked enough =
    go (not (no_bots frontier) && ltb (length lineage) meeting_lineage_max_bots) refl λ going.
      walk_forwards-HasLineage bot fuel table next.0 next.1
        (add_successors-AreLinked bot (keep (is_successor frontier) table) lineage [] linked)
        (next_rounds lineage next.0 frontier next.1 fuel enough going
          (omega (arith, add_successors_grow (keep (is_successor frontier) table) lineage [])))
  where
    next : List LineageBot × List LineageBot
    next = add_successors (keep (is_successor frontier) table) lineage []

    go :
        (b : Bool)
        → not (no_bots frontier) && ltb (length lineage) meeting_lineage_max_bots ≡ b
        → (not (no_bots frontier) && ltb (length lineage) meeting_lineage_max_bots ≡ true
            → HasLineage bot (walk_forwards fuel table next.0 next.1))
        → HasLineage bot (if b then walk_forwards fuel table next.0 next.1 else some lineage)
    go true e rest = rest e
    go false e rest = linked

insert-AreLinked :
    (bot b : LineageBot) (bots : List LineageBot)
    → IsLinked bot b
    → AreLinked bot bots
    → AreLinked bot (insert_by_time b bots)
insert-AreLinked bot b [] new linked = (new, tt)
insert-AreLinked bot b (c ∷ cs) new (first, linked) =
    elim (leb b.created_at c.created_at)
      as (λ x. AreLinked bot (if x then b ∷ c ∷ cs else c ∷ insert_by_time b cs)) [
        | true ↦ (new, (first, linked))
        | false ↦ (first, insert-AreLinked bot b cs new linked)
      ]

sort-AreLinked :
    (bot : LineageBot) (bots : List LineageBot)
    → AreLinked bot bots
    → AreLinked bot (sort_by_time bots)
sort-AreLinked bot [] linked = tt
sort-AreLinked bot (b ∷ bots) (first, linked) =
    insert-AreLinked bot b (sort_by_time bots) first (sort-AreLinked bot bots linked)

sorted-HasLineage :
    (bot : LineageBot) (o : Option (List LineageBot)) → HasLineage bot o → HasLineage bot (sorted o)
sorted-HasLineage bot none h = h
sorted-HasLineage bot (some bots) h = sort-AreLinked bot bots h

-- The walks over the bots of a project end, also where bots replace one another in a circle, and each bot
-- that is found is connected with the given one by a chain of replacements whose fingerprints agree.
pub resolve_meeting_lineage-HasLineage :
    (table : List LineageBot) (bot : LineageBot)
    → HasLineage bot (resolve_meeting_lineage table bot)
unfolding resolve_meeting_lineage
resolve_meeting_lineage-HasLineage table bot =
    let back = walk_backwards meeting_lineage_max_bots table (bot ∷ []) bot in
    sorted-HasLineage bot (walk_forwards (meeting_lineage_max_bots + 2) table back back) (
      walk_forwards-HasLineage bot (meeting_lineage_max_bots + 2) table back back
        (walk_backwards-AreLinked bot meeting_lineage_max_bots table (bot ∷ []) bot
          (IsLinked.itself, tt) IsLinked.itself)
        (few_rounds back back))
