-- ===== src/Lifecycle/Aftermath.antt =====
-- bots/models.py, BotEventManager.create_event: the recordings and the ledger after the end of a bot.
use mathlib.Core.Path.{subst}
use attendee.Base.{
  ℕ, String, ◌≡◌, refl, ap, Bool, true, false, Option, none, some, List, [], ◌∷◌, arith, any, ◌⊎◌,
  ◌<◌,
}
use attendee.Base.Int.{neg_ℕ}
use attendee.Base.Outcome.{ok, ◌>>=◌, Ensures, Ensures-bind, Ensures-ok}
use attendee.States.{BotState}
use attendee.Events.Types.{EventType}
use attendee.Recordings.{Recording, Saved}
use attendee.Recordings.Terminate.{end_recording, end_transcription, terminate_recording}
use attendee.Credits.{Ledger, create_transaction}
use attendee.Bots.{Bot}
use attendee.Transitions.{is_post_meeting_state}
use attendee.Lifecycle.{BotEvent, Metadata, World, Settings, Round}
use attendee.Lifecycle.Hooks.{run_hooks, after_new_state_is_fatal_error}
use attendee.Lifecycle.OneHook.{hook_of, run_hooks-eq-hook_of}
use attendee.Events.SubTypes.{EventSubType}
use attendee.Lifecycle.Ending.{
  is_running, terminate_running, amount_due, charge_bot, after_transition_to_post_meeting_state,
}
use attendee.Lifecycle.CreateEvent.{
  Event, finish_meeting, new_event, insert_event, notify, after_save, with_state, attempt,
}
use attendee.Lifecycle.History.{attempt-eq-ok, IsLogged, after_save-IsLogged}

ended-not-running :
    (stale : Bool) (now : ℕ) (format : String) (r : Recording)
    → is_running r ≡ true
    → Ensures (λ (s : Saved). is_running s.0 ≡ false) (terminate_recording stale now format r)
unfolding terminate_recording end_recording end_transcription
ended-not-running stale now format r h = ground arith

terminate_running-none :
    (round : Round) (format : String) (rs : List Recording)
    → Ensures (λ t. any is_running t.0 ≡ false) (terminate_running round format rs)
unfolding terminate_running
terminate_running-none round format [] = refl
terminate_running-none round format (r ∷ rs) = ground (
  arith,
  ended-not-running round.recording_stale round.now format r,
  terminate_running-none round format rs,
)

charge_bot-recordings :
    (settings : Settings) (round : Round) (e : EventType) (w : World)
    → Ensures (λ r. r.0.recordings ≡ w.recordings) (charge_bot settings round e w)
unfolding charge_bot
charge_bot-recordings settings round e w = ground arith

after_transition-none_running :
    (settings : Settings) (round : Round) (e : EventType) (w : World)
    → Ensures
        (λ r. any is_running r.0.recordings ≡ false)
        (after_transition_to_post_meeting_state settings round e w)
unfolding after_transition_to_post_meeting_state
after_transition-none_running settings round e w =
    grind (arith, charge_bot-recordings, terminate_running-none)

-- The ledger after the ending of a bot: nothing is due, or a transaction took what was due.
abbrev pub IsPaid : Settings → Round → EventType → Bot → Ledger → Ledger → Type 0
IsPaid settings round e b l l' =
    (amount_due settings e b ≡ 0) × (l' ≡ l)
    ⊎ (0 < amount_due settings e b)
      × (create_transaction round.charging l (record {
        centicredits_delta = neg_ℕ (amount_due settings e b);
        bot = some b.id;
        stripe_payment_intent_id = none;
      })
          ≡ ok l')

charge_bot-IsPaid :
    (settings : Settings) (round : Round) (e : EventType) (w : World)
    → Ensures
        (λ r. IsPaid settings round e w.bot w.ledger r.0.ledger)
        (charge_bot settings round e w)
unfolding charge_bot
charge_bot-IsPaid settings round e w = ground arith

-- How an event that ends its bot leaves the rows, where the ledger was `l` before.
abbrev pub IsSettled : Settings → Round → EventType → Ledger → World → Type 0
IsSettled settings round e l w =
    (any is_running w.recordings ≡ false) × IsPaid settings round e w.bot l w.ledger

charge_bot-IsFramed :
    (settings : Settings) (round : Round) (e : EventType) (w : World)
    → Ensures (λ r. r.0.bot ≡ w.bot) (charge_bot settings round e w)
unfolding charge_bot
charge_bot-IsFramed settings round e w = ground arith

after_transition-IsSettled :
    (settings : Settings) (round : Round) (e : EventType) (w : World)
    → Ensures
        (λ r. IsSettled settings round e w.ledger r.0)
        (after_transition_to_post_meeting_state settings round e w)
unfolding after_transition_to_post_meeting_state
after_transition-IsSettled settings round e w =
    grind
      (arith, charge_bot-recordings, terminate_running-none, charge_bot-IsPaid, charge_bot-IsFramed)

hooks-ledger :
    (round : Round) (e : EventType) (sub : Option EventSubType) (m : Metadata) (t : BotState)
    (w : World)
    → is_post_meeting_state t ≡ true
    → Ensures (λ v. (v.ledger ≡ w.ledger) × (v.bot ≡ w.bot)) (hook_of round e sub m t w)
unfolding after_new_state_is_fatal_error
hooks-ledger round e sub m BotState.fatal_error w h = ground arith
hooks-ledger round e sub m BotState.ended w h = (refl, refl)
hooks-ledger round e sub m BotState.data_deleted w h = (refl, refl)
hooks-ledger round e sub m t w h = ground arith

written-IsSettled :
    (settings : Settings) (round : Round) (e : EventType) (l : Ledger) (ev : BotEvent) (w : World)
    → IsSettled settings round e l w
    → Ensures (IsSettled settings round e l) (insert_event ev w >>= λ v. ok (notify ev v))
unfolding insert_event notify
written-IsSettled settings round e l ev w h = ground arith

finish_meeting-IsSettled :
    (settings : Settings) (round : Round) (e : Event) (s t : BotState) (w : World)
    → is_post_meeting_state s ≡ false
    → is_post_meeting_state t ≡ true
    → Ensures
        (λ r. IsSettled settings round e.event_type w.ledger r.0)
        (finish_meeting settings round e s t w)
unfolding finish_meeting
finish_meeting-IsSettled settings round e s t w hs ht =
    ground (arith, after_transition-IsSettled settings round e.event_type w)

after_save-IsSettled :
    (settings : Settings) (round : Round) (e : Event) (s t : BotState) (w : World)
    → is_post_meeting_state s ≡ false
    → is_post_meeting_state t ≡ true
    → Ensures (IsSettled settings round e.event_type w.ledger) (after_save settings round e s t w)
unfolding after_save
after_save-IsSettled settings round e s t w hs ht =
    Ensures-bind (λ v. (v.ledger ≡ w.ledger) × (v.bot ≡ w.bot))
      (IsSettled settings round e.event_type w.ledger)
      (run_hooks round e.event_type e.event_sub_type e.event_metadata t w) _
      (rw (run_hooks-eq-hook_of round e.event_type e.event_sub_type e.event_metadata t w)
        (hooks-ledger round e.event_type e.event_sub_type e.event_metadata t w ht))
      λ hooked kept.
        Ensures-bind (λ r. IsSettled settings round e.event_type hooked.ledger r.0)
          (IsSettled settings round e.event_type w.ledger)
          (finish_meeting settings round e s t hooked) _
          (finish_meeting-IsSettled settings round e s t hooked hs ht)
          λ finished done.
            written-IsSettled settings round e.event_type w.ledger (new_event e s t finished.1)
              finished.0
              (subst (λ l. IsSettled settings round e.event_type l finished.0) (kept.0) done)

-- If an attempt at an event takes the bot out of its meeting for good, then no recording is left in
-- progress or paused, and the ledger is what `create_transaction` makes, with a charge of what is due,
-- of the ledger that other processes had left, or is that ledger where nothing is due.
pub attempt-IsSettled :
    (settings : Settings) (round : Round) (e : Event) (w w' : World)
    → is_post_meeting_state w.bot.state ≡ false
    → is_post_meeting_state w'.bot.state ≡ true
    → attempt settings round e w ≡ ok w'
    → IsSettled settings round e.event_type ((round.commits w).ledger) w'
attempt-IsSettled settings round e w w' hs ht done =
    let (t, _, _, after) = attempt-eq-ok settings round e w w' done in
    let v : World = record (round.commits w) { bot = with_state w.bot t } in
    let logged : IsLogged e w.bot.state t v w' =
      Ensures-ok _ _ (after_save-IsLogged settings round e w.bot.state t v) after in
    let state : w'.bot.state ≡ t = ap (λ b. b.state) logged.0 in
    Ensures-ok _ _
      (after_save-IsSettled settings round e w.bot.state t v hs
        (subst (λ s. is_post_meeting_state s ≡ true) state ht))
      after
