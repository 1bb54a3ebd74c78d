-- ===== src/Lifecycle/OneHook.antt =====
-- bots/models.py, BotEventManager.create_event: its six tests of the new state as one case distinction.
use attendee.Base.{◌≡◌, refl, Option}
use attendee.Base.Outcome.{ok, raise, ◌>>=◌}
use attendee.Errors.{Result}
use attendee.States.{BotState}
use attendee.Events.Types.{EventType}
use attendee.Events.SubTypes.{EventSubType}
use attendee.Lifecycle.{Metadata, World, Round}
use attendee.Lifecycle.Hooks.{
  after_new_state_is_joined_recording, after_new_state_is_joined_recording_paused,
  after_new_state_is_joined_recording_permission_denied, after_new_state_is_staged,
  after_new_state_is_fatal_error, run_hooks,
}

abbrev pub hook_of :
    Round → EventType → Option EventSubType → Metadata → BotState → World → Result World
hook_of round e sub m BotState.staged w = after_new_state_is_staged m w
hook_of round e sub m BotState.joined_recording w = after_new_state_is_joined_recording round e w
hook_of round e sub m BotState.connected w = after_new_state_is_joined_recording round e w
hook_of round e sub m BotState.joined_recording_paused w =
    after_new_state_is_joined_recording_paused round w
hook_of round e sub m BotState.joined_recording_permission_denied w =
    after_new_state_is_joined_recording_permission_denied round w
hook_of round e sub m BotState.fatal_error w = after_new_state_is_fatal_error e sub w
hook_of round e sub m t w = ok w

-- A hook followed by hooks that do nothing.
then_nothing : (m : Result World) → (m >>= ok) ≡ m
then_nothing (ok w) = refl
then_nothing (raise e) = refl

then_nothing_2 : (m : Result World) → (m >>= ok >>= ok) ≡ m
then_nothing_2 (ok w) = refl
then_nothing_2 (raise e) = refl

then_nothing_3 : (m : Result World) → (m >>= ok >>= ok >>= ok) ≡ m
then_nothing_3 (ok w) = refl
then_nothing_3 (raise e) = refl

then_nothing_4 : (m : Result World) → (m >>= ok >>= ok >>= ok >>= ok) ≡ m
then_nothing_4 (ok w) = refl
then_nothing_4 (raise e) = refl

then_nothing_5 : (m : Result World) → (m >>= ok >>= ok >>= ok >>= ok >>= ok) ≡ m
then_nothing_5 (ok w) = refl
then_nothing_5 (raise e) = refl

pub run_hooks-eq-hook_of :
    (round : Round) (e : EventType) (sub : Option EventSubType) (m : Metadata) (t : BotState)
    (w : World)
    → run_hooks round e sub m t w ≡ hook_of round e sub m t w
unfolding run_hooks
run_hooks-eq-hook_of round e sub m BotState.staged w =
    then_nothing_5 (after_new_state_is_staged m w)
run_hooks-eq-hook_of round e sub m BotState.joined_recording w =
    then_nothing_4 (after_new_state_is_joined_recording round e w)
run_hooks-eq-hook_of round e sub m BotState.connected w =
    then_nothing_3 (after_new_state_is_joined_recording round e w)
run_hooks-eq-hook_of round e sub m BotState.joined_recording_paused w =
    then_nothing_2 (after_new_state_is_joined_recording_paused round w)
run_hooks-eq-hook_of round e sub m BotState.joined_recording_permission_denied w =
    then_nothing (after_new_state_is_joined_recording_permission_denied round w)
run_hooks-eq-hook_of round e sub m BotState.fatal_error w = refl
run_hooks-eq-hook_of round e sub m t w = refl
