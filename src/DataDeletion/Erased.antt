-- ===== src/DataDeletion/Erased.antt =====
-- bots/models.py, Bot.delete_data: what is left of a meeting.
use mathlib.Core.Path.{subst}
use attendee.Base.{
  ℕ, zero, suc, ◌+◌, ◌≡◌, ◌⊎◌, inl, inr, refl, sym, true, false, not, Option, none, some, List, [],
  ◌∷◌, arith, any, keep, Bool, ap, ◌∙◌, get_last?, get_last?-append,
}
use attendee.Base.Outcome.{
  Ensures-then, require, ok, raise, Ensures, Ensures-bind, Ensures-ok, Ensures-of,
}
use attendee.Errors.{value_error, validation_error}
use attendee.States.{BotState}
use attendee.Events.Types.{EventType}
use attendee.Transitions.{next_state, is_post_meeting_state, event_can_be_created_for_state}
use attendee.Recordings.{Recording}
use attendee.Webhooks.{TriggerType}
use attendee.Summaries.{wipe}
use attendee.Summaries.Late.{IsWiped}
use attendee.Lifecycle.{BotEvent, World, Settings, Round, origin_of, last_bot_event}
use attendee.Lifecycle.Hooks.{run_hooks}
use attendee.Lifecycle.CreateEvent.{
  Event, new_event, attempt, after_save, finish_meeting, insert_event, notify, deliver, with_state,
  create_event_loop, create_event,
}
use attendee.Lifecycle.Log.{loop_cases}
use attendee.Lifecycle.History.{attempt-eq-ok, after_save-IsLogged}
use attendee.DataDeletion.{
  BotData, erase, is_state_change, cleared, deletion, with_world, finish_deletion, delete_data,
}

-- No recording has a file or utterances.
abbrev pub AreErased : List Recording → Type 0
AreErased [] = Unit
AreErased (r ∷ rs) = (r.has_file ≡ false) × (r.utterances ≡ []) × AreErased rs

erase-AreErased : (stale : Bool) (rs : List Recording) → Ensures AreErased (erase stale rs)
unfolding erase
erase-AreErased stale [] = tt
erase-AreErased stale (r ∷ rs) = ground (arith, erase-AreErased stale rs)

state_changes :
    (ts : List TriggerType) → any (λ t. not (is_state_change t)) (keep is_state_change ts) ≡ false
state_changes [] = refl
state_changes (t ∷ ts) = ground (arith, state_changes ts)

-- The data of a meeting may be deleted once it is over.
next_state_of_deletion :
    (s : BotState) (last : Option (BotState × EventType))
    → (next_state EventType.data_deleted s last ≡ ok BotState.data_deleted)
        × (is_post_meeting_state s ≡ true)
      ⊎ (next_state EventType.data_deleted s last ≡ raise validation_error)
unfolding next_state
next_state_of_deletion s last = ground arith

-- The event leaves the recordings as they are, and the bot in its last state.
abbrev pub IsDeletion : World → World → Type 0
IsDeletion v w = (w.recordings ≡ v.recordings) × (w.bot.state ≡ v.bot.state)

after_save-IsDeletion :
    (settings : Settings) (round : Round) (s : BotState) (w : World)
    → is_post_meeting_state s ≡ true
    → Ensures (IsDeletion w) (after_save settings round deletion s BotState.data_deleted w)
unfolding after_save run_hooks finish_meeting insert_event notify deliver
after_save-IsDeletion settings round s w over = rw over (ground arith)

attempt-IsDeletion :
    (settings : Settings) (round : Round) (w : World)
    → Ensures
        (λ w'.
          (w'.recordings ≡ (round.commits w).recordings) × (w'.bot.state ≡ BotState.data_deleted))
        (attempt settings round deletion w)
unfolding attempt
attempt-IsDeletion settings round w =
    elim (next_state_of_deletion w.bot.state (origin_of (last_bot_event w))) [
      | inl (moves, over) ↦ rw moves (
          ground (
            arith,
            after_save-IsDeletion settings round w.bot.state
                (record (round.commits w) { bot = with_state w.bot BotState.data_deleted }) over,
          ))
      | inr refused ↦ rw refused tt
    ]

-- Other processes bring back no file and no utterance.
abbrev pub AreQuiet : (ℕ → Round) → Type 0
AreQuiet rounds =
    (k : ℕ) (w : World) → AreErased w.recordings → AreErased ((rounds k).commits w).recordings

-- The last entry of the log is the deletion of the data after the meeting.
abbrev pub IsLoggedDeletion : World → Type 0
IsLoggedDeletion w =
    (ev : BotEvent) × (get_last? w.events ≡ some ev)
    × (ev.event_type ≡ EventType.data_deleted)
    × (ev.new_state ≡ BotState.data_deleted)

attempt-IsLoggedDeletion :
    (settings : Settings) (round : Round) (w w' : World)
    → attempt settings round deletion w ≡ ok w'
    → w'.bot.state ≡ BotState.data_deleted
    → IsLoggedDeletion w'
attempt-IsLoggedDeletion settings round w w' done last =
    let (t, valid, fresh, saved) = attempt-eq-ok settings round deletion w w' done in
    let v = record (round.commits w) { bot = with_state w.bot t } in
    let (same, (m, log)) =
      Ensures-ok _ _ (after_save-IsLogged settings round deletion w.bot.state t v) saved in
    let ev = new_event deletion w.bot.state t m in
    (ev, ap get_last? log ∙ get_last?-append v.events ev, refl, sym (ap (λ b. b.state) same) ∙ last)

abbrev pub IsErasedWorld : World → Type 0
IsErasedWorld w =
    AreErased w.recordings × (w.bot.state ≡ BotState.data_deleted) × IsLoggedDeletion w

loop-IsErasedWorld :
    (settings : Settings) (left k : ℕ) (rounds : ℕ → Round) (w w' : World)
    → AreQuiet rounds
    → AreErased w.recordings
    → create_event_loop settings left k rounds deletion w ≡ ok (some w')
    → IsErasedWorld w'
unfolding create_event_loop
loop-IsErasedWorld settings zero k rounds w w' quiet erased done = cc
loop-IsErasedWorld settings (suc left) k rounds w w' quiet erased done =
    elim (loop_cases settings left k rounds deletion w w' done) [
      | inl now ↦
          (let (same, last) = Ensures-ok _ _ (attempt-IsDeletion settings (rounds k) w) now in
            (
              subst AreErased (sym same) (quiet k w erased),
              last,
              attempt-IsLoggedDeletion settings (rounds k) w w' now last,
            ))
      | inr later ↦
          loop-IsErasedWorld settings left (k + 1) rounds ((rounds k).commits w) w' quiet
            (quiet k w erased) later
    ]

loop_returns_event :
    (settings : Settings) (left k : ℕ) (rounds : ℕ → Round) (e : Event) (w : World)
    → create_event_loop settings (suc left) k rounds e w ≡ ok none
    → ⊥
unfolding create_event_loop
loop_returns_event settings zero k rounds e w done = ground (arith, done)
loop_returns_event settings (suc left) k rounds e w done =
    ground (arith, done, loop_returns_event settings left (k + 1) rounds e ((rounds k).commits w))

-- What a deletion makes of the data of a bot: its row and its log are left, which ends with the event, and
-- the recordings without files and utterances, and the title and what is set aside, unchanged; the rows of the meeting
-- that it is to delete are gone, with the deliveries of content, and so is the summary.
pub record IsErased (before d : BotData) : Type 0 where
  pub world : IsErasedWorld d.world
  pub summary : IsWiped [] d.meeting
  pub debug_screenshots : d.debug_screenshots ≡ []
  pub audio_chunks : d.audio_chunks ≡ []
  pub participants : d.participants ≡ []
  pub participant_events : d.participant_events ≡ []
  pub chat_messages : d.chat_messages ≡ []
  pub deliveries : any (λ t. not (is_state_change t)) d.other_deliveries ≡ false
  pub aside : d.aside ≡ before.aside
  pub name : d.meeting.name ≡ before.meeting.name

cleared_with :
    (d : BotData) (rs : List Recording) (w : World)
    → IsErasedWorld w
    → IsErased d (with_world (cleared d rs) (some w))
unfolding cleared wipe
cleared_with d rs w erased = record {
  world = erased;
  summary = (refl, refl, refl, refl);
  debug_screenshots = refl;
  audio_chunks = refl;
  participants = refl;
  participant_events = refl;
  chat_messages = refl;
  deliveries = state_changes d.other_deliveries;
  aside = refl;
  name = refl;
}

written-IsErased :
    (settings : Settings) (rounds : ℕ → Round) (d : BotData) (rs : List Recording)
    (o : Option World)
    → AreQuiet rounds
    → AreErased rs
    → create_event settings 3 rounds deletion (cleared d rs).world ≡ ok o
    → IsErased d (with_world (cleared d rs) o)
unfolding create_event cleared
written-IsErased settings rounds d rs none quiet erased done =
    absurd (loop_returns_event settings 2 0 rounds deletion (cleared d rs).world done)
written-IsErased settings rounds d rs (some w) quiet erased done =
    cleared_with d rs w
      (loop-IsErasedWorld settings 3 0 rounds (cleared d rs).world w quiet erased done)

finish-IsErased :
    (settings : Settings) (rounds : ℕ → Round) (d : BotData) (rs : List Recording)
    → AreQuiet rounds
    → AreErased rs
    → Ensures (IsErased d) (finish_deletion settings rounds (cleared d rs))
finish-IsErased settings rounds d rs quiet erased =
    let event = create_event settings 3 rounds deletion (cleared d rs).world in
    let P : Option World → Type 0 = λ o. IsErased d (with_world (cleared d rs) o) in
    Ensures-bind P (IsErased d) event (λ o. ok (with_world (cleared d rs) o))
      (Ensures-of P event (λ o done. written-IsErased settings rounds d rs o quiet erased done))
      (λ o done. done)

-- A delete_data that returns leaves no file and no utterance of any recording, no debug screenshot, audio
-- chunk, participant or chat message, no delivery but those of changes of state, and no summary; the bot's
-- state is that its data is deleted, and its log ends with that event; and the title and what is set aside are as they were.
-- This takes other processes to bring back no file and no utterance meanwhile.
pub delete_data-IsErased :
    (settings : Settings) (stale : Bool) (rounds : ℕ → Round) (d : BotData)
    → AreQuiet rounds
    → Ensures (IsErased d) (delete_data settings stale rounds d)
unfolding delete_data
delete_data-IsErased settings stale rounds d quiet =
    Ensures-then (IsErased d)
      (event_can_be_created_for_state EventType.data_deleted d.world.bot.state) _
      λ allowed. Ensures-then (IsErased d) (require allowed value_error) _ λ unit.
        Ensures-bind AreErased (IsErased d) (erase stale d.world.recordings)
          (λ rs. finish_deletion settings rounds (cleared d rs))
          (erase-AreErased stale d.world.recordings)
          λ rs erased. finish-IsErased settings rounds d rs quiet erased
