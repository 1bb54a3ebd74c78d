-- ===== src/Lifecycle/Retries.antt =====
-- bots/models.py, BotEventManager.create_event: how often it tries.
use attendee.Base.{ℕ, zero, suc, ◌+◌, ◌<◌, ◌≡◌, ◌≢◌, Option, some, arith}
use attendee.Base.Outcome.{ok, raise}
use attendee.Errors.{Result, record_modified_error}
use attendee.Lifecycle.{World, Settings, Round}
use attendee.Lifecycle.CreateEvent.{Event, attempt, create_event_loop, create_event}

-- What the call gives for the outcome of its last attempt.
abbrev pub outcome_of : Result World → Result (Option World)
outcome_of (ok w) = ok (some w)
outcome_of (raise e) = raise e

module _ (settings : Settings) (rounds : ℕ → Round) (e : Event) where
  -- Attempts that find a row changed.
  abbrev pub AllStale : ℕ → ℕ → World → Type 0
  AllStale k zero w = Unit
  AllStale k (suc j) w =
      (attempt settings (rounds k) e w ≡ raise record_modified_error)
      × AllStale (k + 1) j ((rounds k).commits w)

  -- The attempt after `j` others, which found a row changed.
  abbrev pub attempt_after : ℕ → ℕ → World → Result World
  attempt_after k zero w = attempt settings (rounds k) e w
  attempt_after k (suc j) w = attempt_after (k + 1) j ((rounds k).commits w)

  loop_settles :
      (left k j : ℕ) (w : World)
      → j < left
      → AllStale k j w
      → attempt_after k j w ≢ raise record_modified_error
      → create_event_loop settings left k rounds e w ≡ outcome_of (attempt_after k j w)
  unfolding create_event_loop
  loop_settles zero k j w few stale fresh = absurd (omega arith)
  loop_settles (suc left) k zero w few stale fresh = ground arith
  loop_settles (suc left) k (suc j) w few stale fresh =
      ground (arith, loop_settles left (k + 1) j ((rounds k).commits w))

  loop_exhausted :
      (left k : ℕ) (w : World)
      → AllStale k (suc left) w
      → create_event_loop settings (suc left) k rounds e w ≡ raise record_modified_error
  unfolding create_event_loop
  loop_exhausted zero k w stale = ground arith
  loop_exhausted (suc left) k w stale =
      ground (arith, loop_exhausted left (k + 1) ((rounds k).commits w))

  -- If the first `j` attempts find a row changed and the next one, within the limit, does not, then the
  -- call ends as that attempt ends.
  pub create_event_settles :
      (max_retries j : ℕ) (w : World)
      → j < max_retries
      → AllStale 0 j w
      → attempt_after 0 j w ≢ raise record_modified_error
      → create_event settings max_retries rounds e w ≡ outcome_of (attempt_after 0 j w)
  unfolding create_event
  create_event_settles max_retries j w few stale fresh =
      loop_settles max_retries 0 j w few stale fresh

  -- If all attempts find a row changed, and there is one at least, then the call raises that error.
  pub create_event_exhausted :
      (left : ℕ) (w : World)
      → AllStale 0 (suc left) w
      → create_event settings (suc left) rounds e w ≡ raise record_modified_error
  unfolding create_event
  create_event_exhausted left w stale = loop_exhausted left 0 w stale
