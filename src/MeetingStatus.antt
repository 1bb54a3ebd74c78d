-- ===== src/MeetingStatus.antt =====
-- bots/meeting_status.py: the status of a meeting that a user sees, as a function of the bot's state,
-- of its recording and of the clips of the recording.
pub mod Settled
use attendee.Base.{
  ℕ, Bool, true, false, ◌&&◌, not, Option, none, some, ◌==◌, if◌then◌else◌, count, is_some, ltb,
}
use attendee.States.{BotState, same_state, state_in, post_meeting_states}
use attendee.Recordings.{RecordingState, is, Utterance, Recording}

pub data Status : Type 0 where
  recording paused finalizing processing done partially_failed failed deleted : Status

abbrev pub is_pending : Utterance → Bool
is_pending u = not u.has_transcription && not (is_some u.failure_data)

abbrev pub has_failed : Utterance → Bool
has_failed u = is_some u.failure_data

-- The clips of the recording that are still to be transcribed, and those that could not be.
abbrev pub transcription_counts : Option Recording → ℕ × ℕ
transcription_counts none = (0, 0)
transcription_counts (some r) = (count is_pending r.utterances, count has_failed r.utterances)

abbrev pub live_status : Option Recording → Status
live_status none = Status.recording
live_status (some r) =
    if is r.state RecordingState.paused
    then Status.paused
    else if is r.state RecordingState.complete
    then Status.finalizing
    else Status.recording

abbrev recording_failed : Option Recording → Bool
recording_failed none = false
recording_failed (some r) = is r.state RecordingState.failed

-- The counts that the caller has fetched, if it has fetched both.
abbrev pub counts_of : Option ℕ → Option ℕ → Option Recording → ℕ × ℕ
counts_of none given r = transcription_counts r
counts_of (some p) none r = transcription_counts r
counts_of (some p) (some f) r = (p, f)

unfoldable pub derive_status : BotState → Option Recording → Option ℕ → Option ℕ → Status
derive_status s r given_pending given_failed =
    let (pending_count, failed_count) = counts_of given_pending given_failed r in
    if same_state s BotState.data_deleted
    then Status.deleted
    else if same_state s BotState.fatal_error
    then Status.failed
    else if not (state_in s post_meeting_states)
    then live_status r
    else if ltb 0 pending_count
    then Status.processing
    else if ltb 0 failed_count
    then Status.partially_failed
    else if recording_failed r
    then Status.failed
    else Status.done
