-- ===== src/Lifecycle/ActionTaken.antt =====
-- bots/models.py, BotEventManager.set_requested_bot_action_taken_at: the last event of a bot is marked
-- as acted upon.
use attendee.Base.{
  ℕ, ◌≡◌, refl, true, not, Option, none, some, List, [], ◌∷◌, arith, get_last?, is_some,
}
use attendee.Base.Outcome.{ok, raise, ◌>>◌, require}
use attendee.Errors.{Result, value_error}
use attendee.States.{BotState}
use attendee.Events.Types.{EventType, same_type}
use attendee.Lifecycle.{BotEvent, World, last_bot_event}
use attendee.Lifecycle.History.{IsHistory}
use attendee.Lifecycle.Log.{IsConsistent}

-- The event that a bot in this state has been asked for.
abbrev pub request_type : BotState → Option EventType
request_type BotState.joining = some EventType.join_requested
request_type BotState.leaving = some EventType.leave_requested
request_type BotState.connecting = some EventType.app_session_connection_requested
request_type BotState.disconnecting = some EventType.app_session_disconnect_requested
request_type s = none

abbrev pub mark : ℕ → BotEvent → BotEvent
mark now ev = record ev { requested_bot_action_taken_at = some now }

-- The log with its last event changed.
abbrev pub on_last : (BotEvent → BotEvent) → List BotEvent → List BotEvent
on_last f [] = []
on_last f (ev ∷ []) = f ev ∷ []
on_last f (ev ∷ x ∷ evs) = ev ∷ on_last f (x ∷ evs)

unfoldable pub set_requested_bot_action_taken_at : ℕ → World → Result World
set_requested_bot_action_taken_at now w = elim (request_type w.bot.state) [
  | none ↦ raise value_error
  | some e ↦ elim (last_bot_event w) [
    | none ↦ raise value_error
    | some ev ↦
        require (same_type ev.event_type e) value_error
        >> require (not (is_some ev.requested_bot_action_taken_at)) value_error
        >> ok (record w { events = on_last (mark now) w.events })
  ]
]

get_last?-on_last :
    (now : ℕ) (evs : List BotEvent) (ev : BotEvent)
    → get_last? evs ≡ some ev
    → get_last? (on_last (mark now) evs) ≡ some (mark now ev)
get_last?-on_last now [] ev h = cc
get_last?-on_last now (x ∷ []) ev h = ground arith
get_last?-on_last now (x ∷ y ∷ []) ev h = ground arith
get_last?-on_last now (x ∷ y ∷ z ∷ evs) ev h = get_last?-on_last now (y ∷ z ∷ evs) ev h

mark-IsHistory :
    (now : ℕ) (s : BotState) (last : Option (BotState × EventType)) (evs : List BotEvent)
    (t : BotState)
    → IsHistory s last evs t
    → IsHistory s last (on_last (mark now) evs) t
mark-IsHistory now s last [] t h = h
mark-IsHistory now s last (ev ∷ []) t h = h
mark-IsHistory now s last (ev ∷ x ∷ evs) t h =
    (h.0, h.1, mark-IsHistory now ev.new_state (some (ev.old_state, ev.event_type)) (x ∷ evs) t h.2)

marked :
    (now : ℕ) (w w' : World)
    → set_requested_bot_action_taken_at now w ≡ ok w'
    → (ev : BotEvent) × (last_bot_event w ≡ some ev)
      × (w' ≡ record w { events = on_last (mark now) w.events })
unfolding set_requested_bot_action_taken_at
marked now w w' h = ground arith

refused :
    (now : ℕ) (w : World) (ev : BotEvent)
    → last_bot_event w ≡ some ev
    → is_some ev.requested_bot_action_taken_at ≡ true
    → set_requested_bot_action_taken_at now w ≡ raise value_error
unfolding set_requested_bot_action_taken_at
refused now w ev h taken = ground arith

-- A call that returns, on rows whose log is a history, leaves a history, and any later call on the rows
-- that it leaves raises a value error.
pub set_requested_bot_action_taken_at-once :
    (now later : ℕ) (initial : BotState) (w w' : World)
    → IsConsistent initial w
    → set_requested_bot_action_taken_at now w ≡ ok w'
    → IsConsistent initial w' × (set_requested_bot_action_taken_at later w' ≡ raise value_error)
set_requested_bot_action_taken_at-once now later initial w w' consistent done =
    let (ev, was_last, same) = marked now w w' done in
    rw same (
      mark-IsHistory now initial none w.events w.bot.state consistent,
      refused later (record w { events = on_last (mark now) w.events }) (mark now ev)
          (get_last?-on_last now w.events ev was_last) refl,
    )
