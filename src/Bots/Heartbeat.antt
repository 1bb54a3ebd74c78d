-- ===== src/Bots/Heartbeat.antt =====
-- bots/models.py, Bot.set_heartbeat: the time at which a bot was last seen alive. Other processes may
-- write the row between the read and the save of an attempt.
use attendee.Base.{
  ℕ, zero, suc, ◌+◌, ◌<◌, ◌≡◌, Bool, true, false, Option, none, some, arith, ◌==◌, if◌then◌else◌,
}
use attendee.Base.Outcome.{ok, raise}
use attendee.Errors.{Result, record_modified_error, save}
use attendee.Bots.{Bot}

-- One attempt: the row as it is read, whether the save finds it changed, and the clock.
pub record Beat : Type 0 where
  pub row : Bot
  pub stale : Bool
  pub now : ℕ

abbrev first_or : ℕ → Option ℕ → Option ℕ
first_or now none = some now
first_or now (some first) = some first

abbrev pub beaten : Beat → Bot
beaten b = record b.row {
  first_heartbeat_timestamp = first_or b.now b.row.first_heartbeat_timestamp;
  last_heartbeat_timestamp = some b.now;
}

-- The loop, with the attempts that are left; the source begins with ten and so never ends with none.
unfoldable pub set_heartbeat_loop : ℕ → ℕ → (ℕ → Beat) → Result Bot
set_heartbeat_loop zero k beats = raise record_modified_error
set_heartbeat_loop (suc left) k beats =
    let again = set_heartbeat_loop left (k + 1) beats in
    elim (save (beats k).stale (beaten (beats k))) [
      | ok b ↦ ok b
      | raise record_modified_error ↦ if left == 0 then raise record_modified_error else again
      | raise e ↦ raise e
    ]

unfoldable pub set_heartbeat : (ℕ → Beat) → Result Bot
unfolding set_heartbeat_loop
set_heartbeat beats = set_heartbeat_loop 10 0 beats

-- The first attempts, from `k` on, are refused.
abbrev pub AllStale : ℕ → ℕ → (ℕ → Beat) → Type 0
AllStale k zero beats = Unit
AllStale k (suc j) beats = ((beats k).stale ≡ true) × AllStale (k + 1) j beats

-- The attempt after `j` others.
abbrev pub beat_after : ℕ → ℕ → (ℕ → Beat) → Beat
beat_after k zero beats = beats k
beat_after k (suc j) beats = beat_after (k + 1) j beats

loop_beats :
    (left k j : ℕ) (beats : ℕ → Beat)
    → j < left
    → AllStale k j beats
    → (beat_after k j beats).stale ≡ false
    → set_heartbeat_loop left k beats ≡ ok (beaten (beat_after k j beats))
unfolding set_heartbeat_loop
loop_beats zero k j beats few stale fresh = absurd (omega arith)
loop_beats (suc left) k zero beats few stale fresh = ground arith
loop_beats (suc left) k (suc j) beats few stale fresh =
    ground (arith, loop_beats left (k + 1) j beats)

-- If fewer than ten attempts find the row changed and the next one does not, then the call writes the
-- row that this attempt reads, with the clock as the last heartbeat, and as the first one if there
-- was none.
pub set_heartbeat_beats :
    (j : ℕ) (beats : ℕ → Beat)
    → j < 10
    → AllStale 0 j beats
    → (beat_after 0 j beats).stale ≡ false
    → set_heartbeat beats ≡ ok (beaten (beat_after 0 j beats))
unfolding set_heartbeat
set_heartbeat_beats j beats few stale fresh = loop_beats 10 0 j beats few stale fresh
