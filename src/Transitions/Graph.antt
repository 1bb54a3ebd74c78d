-- ===== src/Transitions/Graph.antt =====
-- bots/models.py, BotEventManager.VALID_TRANSITIONS as a graph: phases of states, and runs.
use attendee.Base.{
  ℕ, ◌<◌, ◌≤◌, ◌≡◌, refl, ◌⊎◌, Bool, true, ◌&&◌, ◌||◌, Option, arith, ltb, leb, ◌==◌,
}
use attendee.Base.Outcome.{ok, raise}
use attendee.Errors.{Result}
use attendee.States.{BotState}
use attendee.Events.Types.{EventType}
use attendee.Transitions.{next_state, is_post_meeting_state}

-- How far a bot has come: waiting to be launched, heading to its meeting, in it, leaving it, done with
-- it, ended, and wiped.
abbrev pub phase : BotState → ℕ
phase BotState.scheduled = 0
phase BotState.staged = 1
phase BotState.ready = 1
phase BotState.joining = 2
phase BotState.connecting = 2
phase BotState.waiting_room = 3
phase BotState.joined_not_recording = 4
phase BotState.joined_recording = 4
phase BotState.joined_recording_paused = 4
phase BotState.joined_recording_permission_denied = 4
phase BotState.joining_breakout_room = 4
phase BotState.leaving_breakout_room = 4
phase BotState.connected = 4
phase BotState.leaving = 5
phase BotState.disconnecting = 5
phase BotState.post_processing = 6
phase BotState.fatal_error = 7
phase BotState.ended = 7
phase BotState.data_deleted = 8

-- A step that stays in its phase stays in the meeting.
abbrev pub is_forward : BotState → BotState → Bool
is_forward s t = ltb (phase s) (phase t) || (phase s == 4 && phase t == 4)

-- Every result that is a state passes the test.
abbrev pub leads : (BotState → Bool) → Result BotState → Bool
leads p (ok t) = p t
leads p (raise e) = true

-- Coming back from a breakout room is a step within the meeting.
back_from_breakout :
    (e : EventType) (last : Option (BotState × EventType))
    → leads
          (is_forward BotState.joining_breakout_room)
          (next_state e BotState.joining_breakout_room last)
        && leads
            (is_forward BotState.leaving_breakout_room)
            (next_state e BotState.leaving_breakout_room last)
      ≡ true
unfolding next_state
back_from_breakout EventType.bot_joined_breakout_room last = ground arith
back_from_breakout EventType.bot_left_breakout_room last = ground arith
back_from_breakout e last = refl

forward :
    (e : EventType) (s : BotState) (last : Option (BotState × EventType))
    → leads (is_forward s) (next_state e s last) ≡ true
unfolding next_state
forward e BotState.joining_breakout_room last = ground (arith, back_from_breakout e last)
forward e BotState.leaving_breakout_room last = ground (arith, back_from_breakout e last)
forward EventType.fatal_error s last = refl
forward e s last = refl

-- A step either goes on to a later phase or stays in the meeting.
pub next_state-forward :
    (e : EventType) (s : BotState) (last : Option (BotState × EventType)) (t : BotState)
    → next_state e s last ≡ ok t
    → (phase s < phase t) ⊎ (phase s ≡ 4) × (phase t ≡ 4)
next_state-forward e s last t h =
    let passed : is_forward s t ≡ true = rw h at (forward e s last) in ground (arith, passed)

-- The states that a bot may go through, one event after the other, whatever its last events are.
pub data Run (s : BotState) : BotState → Type 0 where
  here : Run s s
  step :
      {t u : BotState} (e : EventType) (last : Option (BotState × EventType))
      → Run s t
      → next_state e t last ≡ ok u
      → Run s u

pub Run-phase : {s t : BotState} → Run s t → phase s ≤ phase t
Run-phase here = omega arith
Run-phase (step {t} {u} e last r h) = ground (arith, Run-phase r, next_state-forward e t last u h)

is_post-phase : (s : BotState) → is_post_meeting_state s ≡ leb 7 (phase s)
is_post-phase BotState.ready = refl
is_post-phase s = refl

-- A bot that has left its meeting for good never comes back, by any events.
pub post_meeting_absorbing :
    {s t : BotState} → Run s t → is_post_meeting_state s ≡ true → is_post_meeting_state t ≡ true
post_meeting_absorbing {s} {t} r h = ground (arith, Run-phase r, is_post-phase s, is_post-phase t)
