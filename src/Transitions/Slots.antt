-- ===== src/Transitions/Slots.antt =====
-- bots/models.py, BotEventManager.VALID_TRANSITIONS and BotStates.holds_meeting_slot_states.
use attendee.Base.{◌≡◌, refl, Bool, true, ◌||◌, not, Option, arith}
use attendee.Base.Outcome.{ok}
use attendee.States.{BotState, state_in, holds_meeting_slot_states}
use attendee.Events.Types.{EventType}
use attendee.Transitions.{next_state}
use attendee.Transitions.Graph.{leads}

abbrev pub holds_slot : BotState → Bool
holds_slot s = state_in s holds_meeting_slot_states

abbrev keeps_slot : BotState → BotState → Bool
keeps_slot s t = holds_slot s || not (holds_slot t)

slot_kept :
    (e : EventType) (s : BotState) (last : Option (BotState × EventType))
    → leads (keeps_slot s) (next_state e s last) ≡ true
unfolding next_state
slot_kept e BotState.joining_breakout_room last = ground arith
slot_kept e BotState.leaving_breakout_room last = ground arith
slot_kept EventType.fatal_error s last = refl
slot_kept e s last = refl

-- An event leads into a state that holds the meeting's slot only from a state that holds it.
pub next_state-holds_slot :
    (e : EventType) (s : BotState) (last : Option (BotState × EventType)) (t : BotState)
    → next_state e s last ≡ ok t
    → holds_slot t ≡ true
    → holds_slot s ≡ true
next_state-holds_slot e s last t h slot =
    let passed : keeps_slot s t ≡ true = rw h at (slot_kept e s last) in ground (arith, passed)
