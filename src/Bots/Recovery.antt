-- ===== src/Bots/Recovery.antt =====
-- bots/bot_recovery_utils.py: whether a crashed bot is replaced. The lineage of a meeting, that is the
-- chain of the bots that covered it, is given as a list of rows.
use attendee.Base.{
  ℕ, ◌+◌, ◌≤◌, Bool, true, false, ◌&&◌, not, Option, none, some, List, [], ◌∷◌, ◌++◌, if◌then◌else◌,
  ltb, leb, count, any, is_in, arith,
}
use attendee.Events.Types.{EventType, same_type}
use attendee.Events.SubTypes
use attendee.Events.SubTypes.{EventSubType}
use attendee.Credits.{Ledger, out_of_credits}

-- A bot of the lineage: whether its metadata says that it replaces another, and when it was created.
pub record LineageBot : Type 0 where
  pub replaces : Bool
  pub created_at : ℕ

-- How the transaction that creates the replacement ends: the constraint of one active bot per meeting
-- may refuse it, and anything else may fail.
pub data Creation : Type 0 where
  created slot_taken failed : Creation

-- The bot that crashed, what the policy reads, and the outcomes of the creation and of the launch.
pub record Crash : Type 0 where
  pub event_sub_type : Option EventSubType
  pub is_found : Bool
  pub auto_rejoin_on_failure : Bool
  pub event_types : List EventType
  pub ledger : Ledger
  pub is_at_concurrency_limit : Bool
  pub has_default_recording : Bool
  pub creation : Creation
  pub launch_raises : Bool

abbrev pub replaceable_fatal_error_sub_types : List ℕ
replaceable_fatal_error_sub_types =
    SubTypes.value EventSubType.fatal_error_heartbeat_timeout
    ∷ SubTypes.value EventSubType.fatal_error_process_terminated
    ∷ SubTypes.value EventSubType.fatal_error_attendee_internal_error
    ∷ []

abbrev pub is_replaceable : Option EventSubType → Bool
is_replaceable none = false
is_replaceable (some s) = is_in (SubTypes.value s) replaceable_fatal_error_sub_types

abbrev pub max_replacements_per_meeting_per_hour : ℕ
max_replacements_per_meeting_per_hour = 3

-- A replacement that was created less than an hour ago.
abbrev pub is_recent : ℕ → LineageBot → Bool
is_recent now b = b.replaces && ltb now (b.created_at + 3600)

-- All the early returns before the creation.
unfoldable pub may_replace : ℕ → Crash → List LineageBot → Bool
unfolding out_of_credits
may_replace now c lineage =
    if not (is_replaceable c.event_sub_type)
    then false
    else if not (c.is_found && c.auto_rejoin_on_failure)
    then false
    else if not (any (λ e. same_type e EventType.bot_joined_meeting) c.event_types)
    then false
    else if out_of_credits c.ledger
    then false
    else if c.is_at_concurrency_limit
    then false
    else if leb max_replacements_per_meeting_per_hour (count (is_recent now) lineage)
    then false
    else c.has_default_recording

abbrev new_bot : ℕ → LineageBot
new_bot now = record { replaces = true; created_at = now }

-- `maybe_create_replacement_bot`, which never raises: what it returns, and the lineage that it leaves.
-- A launch that raises comes after the creation is committed.
unfoldable pub maybe_create_replacement_bot :
    ℕ → Crash → List LineageBot → Option LineageBot × List LineageBot
unfolding may_replace
maybe_create_replacement_bot now c lineage =
    if may_replace now c lineage
    then elim c.creation [
      | created ↦
          if c.launch_raises
          then (none, lineage ++ new_bot now ∷ [])
          else (some (new_bot now), lineage ++ new_bot now ∷ [])
      | slot_taken ↦ (none, lineage)
      | failed ↦ (none, lineage)
    ]
    else (none, lineage)

-- Crashes of the bots of one meeting, each some seconds after the one before it: the time and the
-- lineage at the end.
abbrev pub after_crashes : ℕ → List (ℕ × Crash) → List LineageBot → ℕ × List LineageBot
after_crashes now [] lineage = (now, lineage)
after_crashes now ((delay, c) ∷ rest) lineage =
    after_crashes (now + delay) rest ((maybe_create_replacement_bot (now + delay) c lineage).1)

count-snoc :
    (p : LineageBot → Bool) (bs : List LineageBot) (b : LineageBot)
    → count p (bs ++ b ∷ []) ≤ count p bs + 1
count-snoc p [] b = ground arith
count-snoc p (x ∷ bs) b = ground (arith, count-snoc p bs b)

fewer_later :
    (now delay : ℕ) (bs : List LineageBot)
    → count (is_recent (now + delay)) bs ≤ count (is_recent now) bs
fewer_later now delay [] = omega arith
fewer_later now delay (b ∷ bs) = ground (arith, fewer_later now delay bs)

one_more :
    (now : ℕ) (c : Crash) (lineage : List LineageBot)
    → count (is_recent now) lineage ≤ 3
    → count (is_recent now) ((maybe_create_replacement_bot now c lineage).1) ≤ 3
unfolding maybe_create_replacement_bot
one_more now c lineage few = ground (arith, count-snoc (is_recent now) lineage (new_bot now))

-- Whatever crashes follow one another in a meeting, whose lineage each check sees, the meeting never
-- has more than three replacements of the last hour if it had no more at the start.
pub replacements_capped :
    (now : ℕ) (crashes : List (ℕ × Crash)) (lineage : List LineageBot)
    → count (is_recent now) lineage ≤ 3
    → let (later, left) = after_crashes now crashes lineage in count (is_recent later) left ≤ 3
replacements_capped now [] lineage few = few
replacements_capped now ((delay, c) ∷ rest) lineage few =
    replacements_capped (now + delay) rest
      ((maybe_create_replacement_bot (now + delay) c lineage).1)
      (one_more (now + delay) c lineage (omega (arith, few, fewer_later now delay lineage)))
