-- ===== src/Summaries/Ends.antt =====
-- bots/tasks/generate_meeting_summary_task.py, generate_meeting_summary: what a run leaves.
use mathlib.Core.Path.{subst}
use attendee.Base.{
  ℕ, refl, sym, ap, ◌∙◌, inl, inr, Bool-cases, ◌≡◌, ◌⊎◌, Bool, true, false, ◌&&◌, none, arith,
  if◌then◌else◌,
}
use attendee.Summaries.{SummaryState, is, Meeting, Fields, write, claim, finish, at_time}
use attendee.Summaries.Task.{Surroundings, end_of_run, generate_meeting_summary}

-- A run has ended with one of the three ends; unless it is done, the name and the summary are as before.
abbrev pub HasEnded : Meeting → Meeting → Type 0
HasEnded m m' =
    (m'.summary_started_at ≡ none)
    × ((m'.summary_state ≡ SummaryState.done)
        ⊎ ((m'.summary_state ≡ SummaryState.failed) ⊎ (m'.summary_state ≡ SummaryState.skipped))
          × (m'.summary ≡ m.summary)
          × (m'.name ≡ m.name))

-- Whether a worker holds the meeting by its claim.
abbrev pub holds : ℕ → Meeting → Bool
holds claim_time m =
    is m.summary_state SummaryState.generating && at_time m.summary_started_at claim_time

write-HasEnded : (fields : Fields) (m : Meeting) → HasEnded m (write fields m)
write-HasEnded Fields.skip m = ground arith
write-HasEnded (Fields.fail reason) m = ground arith
write-HasEnded (Fields.succeed notes now title) m = ground arith

finish_cases :
    (claim_time : ℕ) (fields : Fields) (m : Meeting)
    → (holds claim_time m ≡ true) × HasEnded m (finish claim_time fields m)
      ⊎ (holds claim_time m ≡ false) × (finish claim_time fields m ≡ m)
unfolding finish
finish_cases claim_time fields m =
    elim (holds claim_time m)
      as (λ h.
        let r = if h then write fields m else m in
        (h ≡ true) × HasEnded m r ⊎ (h ≡ false) × (r ≡ m)) [
          | true ↦ inl (refl, write-HasEnded fields m)
          | false ↦ inr (refl, refl)
        ]

claimed_iff : (now : ℕ) (m : Meeting) → (claim now m).1 ≡ is m.summary_state SummaryState.pending
unfolding claim
claimed_iff now m = ground arith

run_cases :
    (s : Surroundings) (m : Meeting) {b : Bool}
    → (claim s.now m).1 ≡ b
    → generate_meeting_summary s m
      ≡ (if b then finish s.now (end_of_run s) (s.meanwhile (claim s.now m).0) else m)
unfolding generate_meeting_summary
run_cases s m e =
    ap (λ b. if b then finish s.now (end_of_run s) (s.meanwhile (claim s.now m).0) else m) e

-- A run leaves a meeting that is not pending as it is. Else it claims it; if the claim is still held when
-- the run is over, the meeting has ended, and its name and summary change only if it is done; if the
-- claim was lost, the run writes nothing more.
pub generate_meeting_summary_ends :
    (s : Surroundings) (m : Meeting)
    → let m' = s.meanwhile (claim s.now m).0 in
      let after = generate_meeting_summary s m in
      (is m.summary_state SummaryState.pending ≡ false) × (after ≡ m)
      ⊎ (is m.summary_state SummaryState.pending ≡ true)
        × ((holds s.now m' ≡ true) × HasEnded m' after ⊎ (holds s.now m' ≡ false) × (after ≡ m'))
generate_meeting_summary_ends s m = elim (Bool-cases (is m.summary_state SummaryState.pending)) [
  | inl pending ↦ inr (
    pending,
    subst
        (λ after.
          let m' = s.meanwhile (claim s.now m).0 in
          (holds s.now m' ≡ true) × HasEnded m' after ⊎ (holds s.now m' ≡ false) × (after ≡ m'))
        (sym (run_cases s m (claimed_iff s.now m ∙ pending)))
        (finish_cases s.now (end_of_run s) (s.meanwhile (claim s.now m).0)),
  )
  | inr other ↦ inl (other, run_cases s m (claimed_iff s.now m ∙ other))
]
