-- ===== src/Lifecycle/EndsOnce.antt =====
-- bots/models.py, BotEventManager: the events of a log that end the recordings and charge for the bot.
use attendee.Base.{
  ◌≤◌, ◌<◌, ◌≡◌, ◌⊎◌, inl, inr, sym, ap, refl, Bool, true, ◌&&◌, not, Option, none, some, List, [],
  ◌∷◌, arith, count,
}
use attendee.Base.Outcome.{ok, Ensures, Ensures-ok}
use attendee.States.{BotState}
use attendee.Events.Types.{EventType}
use attendee.Transitions.{is_post_meeting_state, next_state}
use attendee.Transitions.Graph.{here, step, post_meeting_absorbing}
use attendee.Lifecycle.{BotEvent, World, Settings, Round, origin_of, last_bot_event}
use attendee.Lifecycle.Hooks.{run_hooks, after_new_state_is_fatal_error}
use attendee.Lifecycle.CreateEvent.{
  Event, after_save, finish_meeting, insert_event, notify, deliver, with_state, attempt,
}
use attendee.Lifecycle.History.{IsHistory, attempt-eq-ok, after_save-IsLogged}
use attendee.Lifecycle.Log.{IsConsistent}

-- The event that ends the recordings and charges the organization.
abbrev pub is_ending : BotEvent → Bool
is_ending ev = is_post_meeting_state ev.new_state && not (is_post_meeting_state ev.old_state)

stays_post :
    (e : EventType) (s t : BotState) (last : Option (BotState × EventType))
    → next_state e s last ≡ ok t
    → is_post_meeting_state s ≡ true
    → is_post_meeting_state t ≡ true
stays_post e s t last h post = post_meeting_absorbing (step e last here h) post

none_after_end :
    (s : BotState) (last : Option (BotState × EventType)) (evs : List BotEvent) (t : BotState)
    → IsHistory s last evs t
    → is_post_meeting_state s ≡ true
    → count is_ending evs ≡ 0
none_after_end s last [] t h post = refl
none_after_end s last (ev ∷ evs) t h post =
    let old : is_post_meeting_state ev.old_state ≡ true = rw h.0 post in
    ground (
      arith,
      old,
      none_after_end ev.new_state (some (ev.old_state, ev.event_type)) evs t h.2
          (stays_post ev.event_type s ev.new_state last h.1 post),
    )

history_ends_once :
    (s : BotState) (last : Option (BotState × EventType)) (evs : List BotEvent) (t : BotState)
    → IsHistory s last evs t
    → count is_ending evs ≤ 1
history_ends_once s last [] t h = omega arith
history_ends_once s last (ev ∷ evs) t h = ground (
  arith,
  history_ends_once ev.new_state (some (ev.old_state, ev.event_type)) evs t h.2,
  none_after_end ev.new_state (some (ev.old_state, ev.event_type)) evs t h.2,
)

-- In a log that is a history at most one event takes the bot out of its meeting for good.
at_most_one_ending :
    (initial : BotState) (w : World) → IsConsistent initial w → count is_ending w.events ≤ 1
at_most_one_ending initial w h = history_ends_once initial none w.events w.bot.state h

-- After an ending event the bot is past its meeting.
ended_for_good :
    (s : BotState) (last : Option (BotState × EventType)) (evs : List BotEvent) (t : BotState)
    → IsHistory s last evs t
    → (0 < count is_ending evs) ⊎ (is_post_meeting_state s ≡ true)
    → is_post_meeting_state t ≡ true
ended_for_good s last [] t h (inl some_ending) = absurd (omega arith)
ended_for_good s last [] t h (inr post) = rw (sym h) post
ended_for_good s last (ev ∷ evs) t h ended =
    ended_for_good ev.new_state (some (ev.old_state, ev.event_type)) evs t h.2
      (ground (arith, ended, stays_post ev.event_type s ev.new_state last h.1))

-- The ledger and the recordings are as they were.
abbrev pub IsUntouched : World → World → Type 0
IsUntouched v w = (w.ledger ≡ v.ledger) × (w.recordings ≡ v.recordings)

after_save-IsUntouched :
    (settings : Settings) (round : Round) (e : Event) (s t : BotState) (w : World)
    → is_post_meeting_state s ≡ true
    → is_post_meeting_state t ≡ true
    → Ensures (IsUntouched w) (after_save settings round e s t w)
unfolding after_save run_hooks finish_meeting insert_event notify deliver
    after_new_state_is_fatal_error
after_save-IsUntouched settings round e s t w was is = rw was (ground (arith, is))

-- Once the log has an ending event, it has exactly one, and an attempt at a further event that succeeds is
-- no second one, as it leads from a post-meeting state to another, and leaves the recordings and the ledger
-- as the others had left them: nothing is ended or charged again.
pub attempt-ends_once :
    (settings : Settings) (round : Round) (initial : BotState) (e : Event) (w w' : World)
    → IsConsistent initial w
    → 0 < count is_ending w.events
    → attempt settings round e w ≡ ok w'
    → (count is_ending w.events ≡ 1)
      × (is_post_meeting_state w.bot.state ≡ true)
      × (is_post_meeting_state w'.bot.state ≡ true)
      × IsUntouched (round.commits w) w'
attempt-ends_once settings round initial e w w' h ended done =
    let was = ended_for_good initial none w.events w.bot.state h (inl ended) in
    let (t, valid, fresh, saved) = attempt-eq-ok settings round e w w' done in
    let is = stays_post e.event_type w.bot.state t (origin_of (last_bot_event w)) valid was in
    let v = record (round.commits w) { bot = with_state w.bot t } in
    let logged = Ensures-ok _ _ (after_save-IsLogged settings round e w.bot.state t v) saved in
    (
      omega (arith, at_most_one_ending initial w h),
      was,
      rw (ap (λ b. b.state) logged.0) is,
      Ensures-ok _ _ (after_save-IsUntouched settings round e w.bot.state t v was is) saved,
    )
