-- ===== src/StuckBots/Selected.antt =====
-- bots/management/commands/clean_up_bots_with_heartbeat_timeout_or_that_never_launched.py: which bots are
-- left alone.
use attendee.Base.{◌≡◌, ap, ◌∙◌, true, false, ◌||◌, arith}
use attendee.Transitions.{is_post_meeting_state}
use attendee.StuckBots.{
  Candidate, Scan, is_local, is_running_bot, has_heartbeat_timeout, has_runtime_timeout,
  never_launched, is_stale_local, terminate_bots_with_heartbeat_timeout,
  terminate_bots_with_global_runtime_timeout, terminate_bots_that_never_launched, handle,
}

heartbeat_kept :
    (s : Scan) (c : Candidate)
    → is_running_bot c.world.bot ≡ false
    → terminate_bots_with_heartbeat_timeout s c ≡ c
unfolding terminate_bots_with_heartbeat_timeout has_heartbeat_timeout
heartbeat_kept s c resting = rw resting

runtime_kept :
    (s : Scan) (c : Candidate)
    → is_running_bot c.world.bot ≡ false
    → terminate_bots_with_global_runtime_timeout s c ≡ c
unfolding terminate_bots_with_global_runtime_timeout has_runtime_timeout
runtime_kept s c resting = rw resting

launch_kept :
    (s : Scan) (c : Candidate)
    → is_running_bot c.world.bot ≡ false
    → terminate_bots_that_never_launched s c ≡ c
unfolding terminate_bots_that_never_launched never_launched
launch_kept s c resting = rw resting

-- The command writes no row of a local session or of a bot whose meeting is over; it ends exactly the
-- local sessions that are stale.
pub handle-keeps_resting :
    (s : Scan) (c : Candidate)
    → is_local c.world.bot.session_type || is_post_meeting_state c.world.bot.state ≡ true
    → handle s c ≡ (c, is_stale_local s.now c)
unfolding handle
handle-keeps_resting s c resting =
    ap (λ c'. (c', is_stale_local s.now c'))
      (ap (terminate_bots_that_never_launched s) (
          ap (terminate_bots_with_global_runtime_timeout s) (heartbeat_kept s c kept)
          ∙ runtime_kept s c kept)
        ∙ launch_kept s c kept)
  where
    kept : is_running_bot c.world.bot ≡ false
    kept = ground (arith, resting)
