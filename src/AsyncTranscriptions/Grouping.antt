-- ===== src/AsyncTranscriptions/Grouping.antt =====
-- bots/tasks/process_async_transcription_task.py, create_utterances_for_transcription_using_groups: the
-- groups of utterances that are transcribed together.
use mathlib.Core.Path.{subst}
use mathlib.Core.List.{append_assoc, append-nil}
use attendee.Base.{
  ℕ, ◌+◌, ◌-◌, ◌*◌, ◌^◌, ◌≤◌, Bool, ◌&&◌, ◌≡◌, refl, sym, ap, ◌∙◌, List, [], ◌∷◌, ◌++◌,
  if◌then◌else◌, ltb, leb, ◌==◌, arith, length, length-append,
}
use attendee.Bots.Billing.{Double, true_div, ceil}
use attendee.Recordings.{Utterance}

-- An utterance of an asynchronous transcription: its columns, and what has become of it.
pub record Clip : Type 0 where
  pub id : ℕ
  pub participant_id : ℕ
  pub audio_chunk : ℕ
  pub timestamp_ms : ℕ
  pub duration_ms : ℕ
  pub transcribed : Utterance

abbrev pub ids : List Clip → List ℕ
ids [] = []
ids (u ∷ us) = u.id ∷ ids us

-- `sum(u.duration_ms for u in utterances)`
unfoldable pub total_duration : List Clip → ℕ
total_duration [] = 0
total_duration (u ∷ us) = u.duration_ms + total_duration us

-- `current_group_duration_ms >= target_group_duration_ms`, of which the latter is a double.
abbrev pub reaches : ℕ → Double → Bool
reaches duration target = leb target.mantissa (duration * 2 ^ target.shift)

-- The groups that are closed, the group that is being filled, and its duration.
pub record Grouping : Type 0 where
  pub groups : List (List Clip)
  pub current_group : List Clip
  pub current_group_duration_ms : ℕ

abbrev pub add_to_group : Clip → Grouping → Grouping
add_to_group u g = record g {
  current_group = g.current_group ++ u ∷ [];
  current_group_duration_ms = g.current_group_duration_ms + u.duration_ms;
}

abbrev pub close_group : Grouping → Grouping
close_group g = record {
  groups = g.groups ++ g.current_group ∷ [];
  current_group = [];
  current_group_duration_ms = 0;
}

-- A group is closed when it reaches the target, unless it is the last one.
unfoldable pub group_utterance : Double → ℕ → Clip → Grouping → Grouping
group_utterance target num_groups u g =
    let g' = add_to_group u g in
    if reaches g'.current_group_duration_ms target && ltb (length g'.groups + 1) num_groups
    then close_group g'
    else g'

unfoldable pub group_loop : Double → ℕ → List Clip → Grouping → Grouping
unfolding group_utterance
group_loop target num_groups [] g = g
group_loop target num_groups (u ∷ us) g =
    group_loop target num_groups us (group_utterance target num_groups u g)

-- The last group, if anything is left for it.
abbrev pub close_last : Grouping → List (List Clip)
close_last g = elim g.current_group [ [] ↦ g.groups | u ∷ us ↦ g.groups ++ (u ∷ us) ∷ [] ]

-- How many groups there are to be at most, of a duration that is not zero.
unfoldable pub num_groups : ℕ → ℕ → ℕ
unfolding true_div ceil
num_groups total_duration_ms max_group_duration_ms =
    ceil (true_div total_duration_ms max_group_duration_ms)

abbrev pub no_groups : Grouping
no_groups = record { groups = []; current_group = []; current_group_duration_ms = 0 }

-- The groups of some utterances; the longest duration of a group is not zero.
unfoldable pub groups_of : ℕ → List Clip → List (List Clip)
unfolding total_duration group_loop num_groups true_div
groups_of max_group_duration_ms utterances =
    let sum = total_duration utterances in
    let total = if sum == 0 then 1 else sum in
    let n = num_groups total max_group_duration_ms in
    close_last (group_loop (true_div total n) n utterances no_groups)

-- The utterances of some groups, one group after another.
abbrev pub members : List (List Clip) → List Clip
members [] = []
members (g ∷ gs) = g ++ members gs

-- No group is empty.
abbrev pub AllFilled : List (List Clip) → Type 0
AllFilled [] = Unit
AllFilled ([] ∷ gs) = ⊥
AllFilled ((u ∷ us) ∷ gs) = AllFilled gs

members-append : (gs hs : List (List Clip)) → members (gs ++ hs) ≡ members gs ++ members hs
members-append [] hs = refl
members-append (g ∷ gs) hs =
    ap (λ us. g ++ us) (members-append gs hs) ∙ sym (append_assoc g (members gs) (members hs))

AllFilled-append :
    (gs : List (List Clip)) (u : Clip) (us : List Clip)
    → AllFilled gs
    → AllFilled (gs ++ (u ∷ us) ∷ [])
AllFilled-append [] u us filled = tt
AllFilled-append ([] ∷ gs) u us filled = absurd filled
AllFilled-append ((v ∷ vs) ∷ gs) u us filled = AllFilled-append gs u us filled

-- The utterances that have been grouped so far.
abbrev grouped : Grouping → List Clip
grouped g = members g.groups ++ g.current_group

-- What holds while the groups are filled.
abbrev IsPartial : ℕ → List Clip → Grouping → Type 0
IsPartial n before g = (grouped g ≡ before) × AllFilled g.groups × (length g.groups ≤ n - 1)

closed : (g : Grouping) → grouped (close_group g) ≡ grouped g
closed g =
    append-nil (members (g.groups ++ g.current_group ∷ []))
    ∙ members-append g.groups (g.current_group ∷ [])
    ∙ ap (λ us. members g.groups ++ us) (append-nil g.current_group)

added : (u : Clip) (g : Grouping) → grouped (add_to_group u g) ≡ grouped g ++ u ∷ []
added u g = sym (append_assoc (members g.groups) g.current_group (u ∷ []))

AllFilled-close :
    (u : Clip) (g : Grouping)
    → AllFilled g.groups
    → AllFilled (g.groups ++ (g.current_group ++ u ∷ []) ∷ [])
AllFilled-close u g filled =
    elim g.current_group as (λ us. AllFilled (g.groups ++ (us ++ u ∷ []) ∷ [])) [
      | [] ↦ AllFilled-append g.groups u [] filled
      | v ∷ vs ↦ AllFilled-append g.groups v (vs ++ u ∷ []) filled
    ]

group_utterance-IsPartial :
    (target : Double) (n : ℕ) (u : Clip) (before : List Clip) (g : Grouping)
    → IsPartial n before g
    → IsPartial n (before ++ u ∷ []) (group_utterance target n u g)
unfolding group_utterance
group_utterance-IsPartial target n u before g (same, filled, few) = ground (
  arith,
  AllFilled-close u g filled,
  added u g,
  closed (add_to_group u g),
  length-append g.groups ((g.current_group ++ u ∷ []) ∷ []),
)

group_loop-IsPartial :
    (target : Double) (n : ℕ) (us before : List Clip) (g : Grouping)
    → IsPartial n before g
    → IsPartial n (before ++ us) (group_loop target n us g)
unfolding group_loop
group_loop-IsPartial target n [] before g (same, filled, few) =
    (same ∙ sym (append-nil before), filled, few)
group_loop-IsPartial target n (u ∷ us) before g partial =
    subst (λ all. IsPartial n all (group_loop target n us (group_utterance target n u g)))
      (append_assoc before (u ∷ []) us)
      (group_loop-IsPartial target n us (before ++ u ∷ []) (group_utterance target n u g)
        (group_utterance-IsPartial target n u before g partial))

-- The groups of the utterances hold each of them once and in order, none of them is empty, and beside
-- the last there are fewer than the number of groups asked for.
abbrev pub IsGrouped : ℕ → List Clip → List (List Clip) → Type 0
IsGrouped n us groups = (members groups ≡ us) × AllFilled groups × (length groups ≤ n - 1 + 1)

close_last-IsGrouped :
    (n : ℕ) (us : List Clip) (g : Grouping) → IsPartial n us g → IsGrouped n us (close_last g)
close_last-IsGrouped n us g partial = go g.current_group refl
  where
    go : (vs : List Clip) → g.current_group ≡ vs → IsGrouped n us (close_last g)
    go [] e = ground (arith, append-nil (members g.groups), partial)
    go (v ∷ vs) e = ground (
      arith,
      partial,
      members-append g.groups ((v ∷ vs) ∷ []),
      append-nil (v ∷ vs),
      AllFilled-append g.groups v vs partial.1,
      length-append g.groups ((v ∷ vs) ∷ []),
    )

pub groups_of-IsGrouped :
    (max_group_duration_ms : ℕ) (us : List Clip)
    → let sum = total_duration us in
      let n = num_groups (if sum == 0 then 1 else sum) max_group_duration_ms in
      IsGrouped n us (groups_of max_group_duration_ms us)
unfolding groups_of
groups_of-IsGrouped max_group_duration_ms us =
    close_last-IsGrouped _ us (group_loop _ _ us no_groups)
      (group_loop-IsPartial _ _ us [] no_groups (refl, tt, omega arith))
