-- ===== src/Lifecycle/Log.antt =====
-- bots/models.py, BotEventManager.create_event: the log of a bot, with what other processes do meanwhile.
use mathlib.Core.Path.{subst}
use attendee.Base.{
  ℕ, zero, suc, ◌+◌, ◌<◌, ◌≡◌, refl, sym, ap, ◌∙◌, ◌⊎◌, inl, inr, false, none, some, [], ◌∷◌, ◌++◌,
  arith,
}
use attendee.Base.Outcome.{ok, Ensures-ok}
use attendee.States.{BotState}
use attendee.Transitions.{next_state}
use attendee.Lifecycle.{Metadata, BotEvent, World, Settings, Round, last_bot_event, origin_of}
use attendee.Lifecycle.CreateEvent.{
  Event, new_event, after_save, with_state, attempt, create_event_loop, create_event,
}
use attendee.Lifecycle.History.{
  IsHistory, IsHistory-snoc, origin_of_last, IsLogged, after_save-IsLogged, attempt-eq-ok,
}

-- The log leads from the state in which the bot was created to the state of its row.
abbrev pub IsConsistent : BotState → World → Type 0
IsConsistent initial w = IsHistory initial none w.events w.bot.state

-- Other processes keep the log consistent, and a save that is not refused has found the bot's row,
-- and with it the log, as they were read.
abbrev pub IsHonest : BotState → (ℕ → Round) → Type 0
IsHonest initial rounds =
    (k : ℕ) (w : World)
    → IsConsistent initial w
    → IsConsistent initial ((rounds k).commits w)
      × ((rounds k).bot_stale ≡ false → ((rounds k).commits w).events ≡ w.events)

-- The rows after some rounds, as far as other processes go.
abbrev pub rows_after : (ℕ → Round) → ℕ → World → World
rows_after rounds zero w = w
rows_after rounds (suc k) w = (rounds k).commits (rows_after rounds k w)

-- The entry of the log for an event that took a bot from a state to another.
abbrev pub IsEntryOf : Event → BotState → BotState → BotEvent → Type 0
IsEntryOf e s t ev =
    (ev.event_type ≡ e.event_type)
    × (ev.event_sub_type ≡ e.event_sub_type)
    × (ev.old_state ≡ s)
    × (ev.new_state ≡ t)

-- The event has happened to a bot whose rows were `seen`, and `now` when it was saved, and has led to `w`:
-- the log has one entry more than that of `now`.
abbrev pub HasHappened : BotState → Event → World → World → World → Type 0
HasHappened initial e seen now w =
    (next_state e.event_type seen.bot.state (origin_of (last_bot_event seen)) ≡ ok w.bot.state)
    × ((ev : BotEvent) × (w.events ≡ now.events ++ ev ∷ [])
        × IsEntryOf e seen.bot.state w.bot.state ev)
    × IsConsistent initial w

-- It has happened in some round before the limit, to the rows that the others had left by then.
abbrev pub HappensIn : BotState → (ℕ → Round) → ℕ → Event → World → World → Type 0
HappensIn initial rounds limit e w w' =
    (k : ℕ) × (k < limit)
    × HasHappened initial e (rows_after rounds k w) (rows_after rounds (suc k) w) w'

attempt-HasHappened :
    (settings : Settings) (rounds : ℕ → Round) (k : ℕ) (initial : BotState) (e : Event)
    (w w' : World)
    → IsHonest initial rounds
    → IsConsistent initial w
    → attempt settings (rounds k) e w ≡ ok w'
    → HasHappened initial e w ((rounds k).commits w) w'
attempt-HasHappened settings rounds k initial e w w' honest h done = (
  subst (Leads w) (sym state) valid,
  (new_event e w.bot.state t m, logged.1.1, (refl, refl, refl, sym state)),
  subst (λ evs. IsHistory initial none evs w'.bot.state) (sym log)
      (subst (IsHistory initial none (w.events ++ new_event e w.bot.state t m ∷ [])) (sym state)
        history),
)
  where
    Leads : World → BotState → Type 0
    Leads v s = next_state e.event_type v.bot.state (origin_of (last_bot_event v)) ≡ ok s

    Logs : World → Metadata → BotState → Type 0
    Logs v m s = w'.events ≡ v.events ++ new_event e w.bot.state s m ∷ []

    parts :
        (t : BotState) × Leads w t
        × ((rounds k).bot_stale ≡ false)
        × (after_save settings
              (rounds k)
              e
              w.bot.state
              t
              (record ((rounds k).commits w) { bot = with_state w.bot t })
            ≡ ok w')
    parts = attempt-eq-ok settings (rounds k) e w w' done

    t : BotState
    t = parts.0

    valid : Leads w t
    valid = parts.1

    logged :
        IsLogged e w.bot.state t (record ((rounds k).commits w) { bot = with_state w.bot t }) w'
    logged =
        Ensures-ok _ _
          (after_save-IsLogged settings (rounds k) e w.bot.state t
            (record ((rounds k).commits w) { bot = with_state w.bot t }))
          parts.3

    state : w'.bot.state ≡ t
    state = ap (λ b. b.state) logged.0

    m : Metadata
    m = logged.1.0

    log : Logs w m t
    log =
        logged.1.1 ∙ ap (λ evs. evs ++ new_event e w.bot.state t m ∷ []) ((honest k w h).1 parts.2)

    history : IsHistory initial none (w.events ++ new_event e w.bot.state t m ∷ []) t
    history =
        IsHistory-snoc initial none w.events w.bot.state (new_event e w.bot.state t m) h refl (
          subst (λ o. next_state e.event_type w.bot.state o ≡ ok t) (origin_of_last w.events) valid)

pub loop_cases :
    (settings : Settings) (left k : ℕ) (rounds : ℕ → Round) (e : Event) (w w' : World)
    → create_event_loop settings (suc left) k rounds e w ≡ ok (some w')
    → (attempt settings (rounds k) e w ≡ ok w')
      ⊎ (create_event_loop settings left (k + 1) rounds e ((rounds k).commits w) ≡ ok (some w'))
unfolding create_event_loop
loop_cases settings left k rounds e w w' h = ground arith

next_rows :
    (rounds : ℕ → Round) (k : ℕ) (w : World)
    → rows_after rounds (suc k) w ≡ rows_after rounds (k + 1) w
next_rows rounds k w = let e : suc k ≡ k + 1 = omega arith in ap (λ n. rows_after rounds n w) e

loop-HappensIn :
    (settings : Settings) (left k : ℕ) (rounds : ℕ → Round) (initial : BotState) (e : Event)
    (w w' : World)
    → IsHonest initial rounds
    → IsConsistent initial (rows_after rounds k w)
    → create_event_loop settings left k rounds e (rows_after rounds k w) ≡ ok (some w')
    → HappensIn initial rounds (k + left) e w w'
unfolding create_event_loop
loop-HappensIn settings zero k rounds initial e w w' honest h done = cc
loop-HappensIn settings (suc left) k rounds initial e w w' honest h done =
    let seen = rows_after rounds k w in
    let same = next_rows rounds k w in
    let Goes : World → Type 0 =
      λ v. create_event_loop settings left (k + 1) rounds e v ≡ ok (some w') in
    elim (loop_cases settings left k rounds e seen w' done) [
      | inl now ↦
          (k, omega arith, attempt-HasHappened settings rounds k initial e seen w' honest h now)
      | inr later ↦
          let (n, early, happened) =
            loop-HappensIn settings left (k + 1) rounds initial e w w' honest
              (subst (IsConsistent initial) same ((honest k seen h).0)) (subst Goes same later) in
          (n, omega (arith, early), happened)
    ]

-- If `create_event` returns an event, then in some round before the limit the transition was valid in the
-- state of the rows that the others had left before that round, and the log is the one that they left in
-- it with exactly one entry more, of this type, from that state to the state of the bot's row; and it is
-- a history again. This takes other processes to keep the log a history, and to leave it alone in a round
-- in which the save of the bot is not refused.
pub create_event-HappensIn :
    (settings : Settings) (max_retries : ℕ) (rounds : ℕ → Round) (initial : BotState) (e : Event)
    (w w' : World)
    → IsHonest initial rounds
    → IsConsistent initial w
    → create_event settings max_retries rounds e w ≡ ok (some w')
    → HappensIn initial rounds max_retries e w w'
unfolding create_event
create_event-HappensIn settings max_retries rounds initial e w w' honest h done =
    let (k, early, happened) =
      loop-HappensIn settings max_retries 0 rounds initial e w w' honest h done in
    (k, omega (arith, early), happened)
