-- ===== src/Summaries/Late.antt =====
-- bots/tasks/generate_meeting_summary_task.py and Bot.delete_data: workers that write after the data of
-- the meeting is deleted, and the columns of a summary over any operations.
use attendee.Base.{
  ℕ, ◌≡◌, refl, true, false, not, ◌||◌, ◌&&◌, none, some, List, [], ◌∷◌, arith, is_in, is_some,
}
use attendee.Summaries.{
  SummaryState, is, Meeting, Fields, Operation, claim, finish, reap, regenerate, wipe, step, steps,
}

-- The operations after the deletion: those of workers that had claimed the meeting before, at one of
-- the given times, while any newer worker claims it at another time and has not finished.
abbrev pub AreLate : List ℕ → List Operation → Type 0
AreLate old [] = Unit
AreLate old (Operation.claim_at now ∷ os) = (is_in now old ≡ false) × AreLate old os
AreLate old (Operation.finish_of claim_time fields ∷ os) =
    (is_in claim_time old ≡ true) × AreLate old os
AreLate old (Operation.reap_before cutoff ∷ os) = AreLate old os
AreLate old (Operation.regenerate_after fresh_after seen ∷ os) = AreLate old os
AreLate old (Operation.delete_data ∷ os) = AreLate old os

-- A row without a summary, which no old worker holds.
abbrev pub IsWiped : List ℕ → Meeting → Type 0
IsWiped old m =
    (m.summary ≡ none)
    × (m.summary_generated_at ≡ none)
    × (m.summary_error ≡ none)
    × ((elim m.summary_started_at [ none ↦ false | some t ↦ is_in t old ]) ≡ false)

finish_late :
    (old : List ℕ) (claim_time : ℕ) (fields : Fields) (m : Meeting)
    → is_in claim_time old ≡ true
    → IsWiped old m
    → finish claim_time fields m ≡ m
unfolding finish
finish_late old claim_time fields m late wiped = ground (arith, late, wiped)

steps-IsWiped :
    (old : List ℕ) (os : List Operation) (m : Meeting)
    → AreLate old os
    → IsWiped old m
    → IsWiped old (steps os m)
unfolding steps step claim finish reap regenerate wipe
steps-IsWiped old [] m late wiped = wiped
steps-IsWiped old (Operation.claim_at now ∷ os) m (fresh, late) wiped =
    steps-IsWiped old os (step (Operation.claim_at now) m) late (ground (arith, fresh, wiped))
steps-IsWiped old (Operation.finish_of claim_time fields ∷ os) m (stale, late) wiped =
    steps-IsWiped old os (finish claim_time fields m) late
      (ground (arith, finish_late old claim_time fields m stale wiped, wiped))
steps-IsWiped old (Operation.reap_before cutoff ∷ os) m late wiped =
    steps-IsWiped old os (reap cutoff m) late (ground (arith, wiped))
steps-IsWiped old (Operation.regenerate_after fresh_after seen ∷ os) m late wiped =
    steps-IsWiped old os (step (Operation.regenerate_after fresh_after seen) m) late
      (ground (arith, wiped))
steps-IsWiped old (Operation.delete_data ∷ os) m late wiped =
    steps-IsWiped old os (wipe m) late (ground (arith, wiped))

-- Once the data of a meeting is deleted, no worker that claimed it before brings back a summary, its
-- time or a failure, in any order of late writes, new claims, reapings and requests.
pub late_writes_void :
    (old : List ℕ) (os : List Operation) (m : Meeting)
    → AreLate old os
    → IsWiped old (steps (Operation.delete_data ∷ os) m)
unfolding steps step wipe
late_writes_void old os m late = steps-IsWiped old os (wipe m) late (refl, refl, refl, refl)

-- The columns of a summary agree with its state: a claim that is held has its time and an end has none,
-- there is a failure exactly if the state is failed, and a summary with its time if it is done.
pub record IsCoherent (m : Meeting) : Type 0 where
  pub held : not (is m.summary_state SummaryState.generating) || is_some m.summary_started_at ≡ true
  pub released :
      is m.summary_state SummaryState.pending
        || is m.summary_state SummaryState.generating
        || not (is_some m.summary_started_at)
      ≡ true
  pub failed : is_some m.summary_error ≡ is m.summary_state SummaryState.failed
  pub summarized :
      not (is m.summary_state SummaryState.done)
        || (is_some m.summary && is_some m.summary_generated_at)
      ≡ true

-- Each operation keeps the columns of a summary coherent.
pub step-IsCoherent : (o : Operation) (m : Meeting) → IsCoherent m → IsCoherent (step o m)
unfolding step claim finish reap regenerate wipe
step-IsCoherent (Operation.claim_at now) m coherent = ground arith
step-IsCoherent (Operation.finish_of claim_time Fields.skip) m coherent = ground arith
step-IsCoherent (Operation.finish_of claim_time (Fields.fail reason)) m coherent = ground arith
step-IsCoherent (Operation.finish_of claim_time (Fields.succeed notes now title)) m coherent =
    ground arith
step-IsCoherent (Operation.reap_before cutoff) m coherent = ground arith
step-IsCoherent (Operation.regenerate_after fresh_after seen) m coherent = ground arith
step-IsCoherent Operation.delete_data m coherent = ground arith
