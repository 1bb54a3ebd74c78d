-- ===== src/MeetingStatus/Settled.antt =====
-- bots/meeting_status.py, derive_status: the live statuses, and the one that says that all is done.
use attendee.Base.{
  ◌≡◌, ◌↔◌, refl, Bool, true, false, not, ◌||◌, Option, none, some, List, [], ◌∷◌, arith, any,
  is_some, count,
}
use attendee.States.{BotState}
use attendee.Recordings.{RecordingState, is, Utterance, Recording}
use attendee.Transitions.{is_post_meeting_state}
use attendee.Transitions.Graph.{Run, post_meeting_absorbing}
use attendee.MeetingStatus.{Status, is_pending, has_failed, live_status, derive_status}

abbrev pub is_live : Status → Bool
is_live Status.recording = true
is_live Status.paused = true
is_live Status.finalizing = true
is_live s = false

live_status-is_live : (r : Option Recording) → is_live (live_status r) ≡ true
live_status-is_live none = refl
live_status-is_live (some r) = ground arith

is_live_iff :
    (s : BotState) (r : Option Recording)
    → is_live (derive_status s r none none) ≡ not (is_post_meeting_state s)
unfolding derive_status
is_live_iff s r = ground (arith, live_status-is_live r)

-- Once the status of a meeting is not a live one, it is never live again, whatever events follow and
-- whatever becomes of the recording and its clips.
pub derive_status-not_live_again :
    {s t : BotState}
    → Run s t
    → (r r' : Option Recording) → is_live (derive_status s r none none) ≡ false
    → is_live (derive_status t r' none none) ≡ false
derive_status-not_live_again {s} {t} run r r' h =
    ground (arith, is_live_iff s r, is_live_iff t r', post_meeting_absorbing run)

-- A clip that keeps a meeting from being done.
abbrev pub is_open : Utterance → Bool
is_open u = not u.has_transcription || is_some u.failure_data

no_open :
    (us : List Utterance)
    → ((count is_pending us ≡ 0) × (count has_failed us ≡ 0)) ↔ (any is_open us ≡ false)
no_open [] = ground arith
no_open (u ∷ us) = ground (arith, no_open us)

-- The status is done exactly if the bot has ended, the recording has not failed, and every clip has
-- its transcription and no failure.
pub derive_status-done_iff :
    (s : BotState) (r : Recording)
    → (derive_status s (some r) none none ≡ Status.done) ↔ (
        (s ≡ BotState.ended)
        × (is r.state RecordingState.failed ≡ false)
        × (any is_open r.utterances ≡ false))
unfolding derive_status
derive_status-done_iff s r = ground (arith, no_open r.utterances)
