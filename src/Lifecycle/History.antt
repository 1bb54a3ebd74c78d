-- ===== src/Lifecycle/History.antt =====
-- bots/models.py, BotEventManager.create_event: when the log of a bot is a history, and one attempt on it.
-- In a history each event starts in the state in which the one before it ended and follows a valid
-- transition.
use mathlib.Core.Path.{subst}
use attendee.Base.{
  ◌≡◌, refl, sym, ap, ◌∙◌, false, Option, none, some, List, [], ◌∷◌, ◌++◌, arith, get_last?,
}
use attendee.Base.Outcome.{ok, ◌>>=◌, Ensures, Ensures-bind}
use attendee.States.{BotState}
use attendee.Events.Types.{EventType}
use attendee.Transitions.{next_state}
use attendee.Transitions.Graph.{Run, step}
use attendee.Lifecycle.{BotEvent, Metadata, World, Settings, Round, last_bot_event, origin_of}
use attendee.Lifecycle.Hooks.{run_hooks}
use attendee.Lifecycle.Frame.{IsFramed, run_hooks-IsFramed, finish_meeting-IsFramed}
use attendee.Lifecycle.CreateEvent.{
  Event, finish_meeting, new_event, insert_event, notify, after_save, with_state, attempt,
}

notify-IsFramed : (ev : BotEvent) (w : World) → IsFramed w (notify ev w)
unfolding notify
notify-IsFramed ev w = ground arith

insert_event_log :
    (ev : BotEvent) (w : World)
    → Ensures (λ v. (v.bot ≡ w.bot) × (v.events ≡ w.events ++ ev ∷ [])) (insert_event ev w)
unfolding insert_event
insert_event_log ev w = ground arith

-- What an attempt does to the log, after the bot's row is saved.
abbrev pub IsLogged : Event → BotState → BotState → World → World → Type 0
IsLogged e s t v w =
    (w.bot ≡ v.bot) × ((m : Metadata) × (w.events ≡ v.events ++ new_event e s t m ∷ []))

pub after_save-IsLogged :
    (settings : Settings) (round : Round) (e : Event) (s t : BotState) (v : World)
    → Ensures (IsLogged e s t v) (after_save settings round e s t v)
unfolding after_save
after_save-IsLogged settings round e s t v =
    Ensures-bind (IsFramed v) (IsLogged e s t v)
      (run_hooks round e.event_type e.event_sub_type e.event_metadata t v) _
      (run_hooks-IsFramed round e.event_type e.event_sub_type e.event_metadata t v)
      λ hooked framed.
        Ensures-bind (λ r. IsFramed hooked r.0) (IsLogged e s t v)
          (finish_meeting settings round e s t hooked) _
          (finish_meeting-IsFramed settings round e s t hooked)
          λ finished kept. logged hooked finished framed kept
  where
    logged :
        (hooked : World) (finished : World × Metadata)
        → IsFramed v hooked
        → IsFramed hooked finished.0
        → let ev = new_event e s t finished.1 in
          Ensures (IsLogged e s t v) (insert_event ev finished.0 >>= λ w. ok (notify ev w))
    logged hooked finished framed kept =
        let ev = new_event e s t finished.1 in
        Ensures-bind (λ w. (w.bot ≡ finished.0.bot) × (w.events ≡ finished.0.events ++ ev ∷ []))
          (IsLogged e s t v) (insert_event ev finished.0) _ (insert_event_log ev finished.0)
          λ w written.
            let (same_bot, same_events) = notify-IsFramed ev w in
            (
              same_bot ∙ written.0 ∙ kept.0 ∙ framed.0,
              (
                finished.1,
                same_events ∙ written.1 ∙ ap (λ evs. evs ++ ev ∷ []) (kept.1 ∙ framed.1),
              ),
            )

pub attempt-eq-ok :
    (settings : Settings) (round : Round) (e : Event) (w w' : World)
    → attempt settings round e w ≡ ok w'
    → (t : BotState) × (next_state e.event_type w.bot.state (origin_of (last_bot_event w)) ≡ ok t)
      × (round.bot_stale ≡ false)
      × (after_save settings round e w.bot.state t
            (record (round.commits w) { bot = with_state w.bot t })
          ≡ ok w')
unfolding attempt
attempt-eq-ok settings round e w w' h = ground arith

-- A history that starts in a state, after an event that came before.
abbrev pub IsHistory : BotState → Option (BotState × EventType) → List BotEvent → BotState → Type 0
IsHistory s last [] t = s ≡ t
IsHistory s last (ev ∷ evs) t =
    (ev.old_state ≡ s)
    × (next_state ev.event_type s last ≡ ok ev.new_state)
    × IsHistory ev.new_state (some (ev.old_state, ev.event_type)) evs t

-- The last event of some after an earlier one.
abbrev pub origin_after :
    Option (BotState × EventType) → List BotEvent → Option (BotState × EventType)
origin_after last [] = last
origin_after last (ev ∷ evs) = origin_after (some (ev.old_state, ev.event_type)) evs

origin_after-get_last? :
    (ev : BotEvent) (evs : List BotEvent)
    → origin_of (get_last? (ev ∷ evs)) ≡ origin_after (some (ev.old_state, ev.event_type)) evs
origin_after-get_last? ev [] = refl
origin_after-get_last? ev (x ∷ evs) = origin_after-get_last? x evs

pub origin_of_last : (evs : List BotEvent) → origin_of (get_last? evs) ≡ origin_after none evs
origin_of_last [] = refl
origin_of_last (ev ∷ evs) = origin_after-get_last? ev evs

pub IsHistory-snoc :
    (s : BotState) (last : Option (BotState × EventType)) (evs : List BotEvent) (t : BotState)
    (ev : BotEvent)
    → IsHistory s last evs t
    → ev.old_state ≡ t
    → next_state ev.event_type t (origin_after last evs) ≡ ok ev.new_state
    → IsHistory s last (evs ++ ev ∷ []) ev.new_state
IsHistory-snoc s last [] t ev h old valid = (old ∙ sym h, rw h valid, refl)
IsHistory-snoc s last (x ∷ evs) t ev h old valid =
    (h.0, h.1, IsHistory-snoc x.new_state (some (x.old_state, x.event_type)) evs t ev h.2 old valid)

-- Such a log, followed back to the abstract machine.
pub IsHistory-Run :
    (s : BotState) (last : Option (BotState × EventType)) (evs : List BotEvent) (r t : BotState)
    → IsHistory s last evs t
    → Run r s
    → Run r t
IsHistory-Run s last [] r t h run = subst (Run r) h run
IsHistory-Run s last (ev ∷ evs) r t h run =
    IsHistory-Run ev.new_state (some (ev.old_state, ev.event_type)) evs r t h.2
      (step ev.event_type last run h.1)
