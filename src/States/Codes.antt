-- ===== src/States/Codes.antt =====
-- bots/models.py, BotStates: the codes of states, written and read.
use attendee.Base.{String, ◌≡◌, refl, ◌↔◌, Option, none, some}
use attendee.Base.Tables.{IsFound, get_by_code_found}
use attendee.States.{BotState, value, state_to_api_code, api_code_to_state, api_codes}

-- The code of a state, if it has one, read as a state.
abbrev read_back : Option String → Option BotState
read_back none = none
read_back (some code) = api_code_to_state code

round_trip : (s : BotState) → read_back (state_to_api_code (value s)) ≡ some s
unfolding state_to_api_code api_code_to_state
round_trip BotState.ready = refl
round_trip s = refl

code-back :
    (s : BotState) (code : String)
    → state_to_api_code (value s) ≡ some code
    → api_code_to_state code ≡ some s
code-back s code e = rw e at (round_trip s)

codes-IsFound : IsFound (λ s. state_to_api_code (value s)) api_codes
unfolding state_to_api_code
codes-IsFound = (
  refl,
  (
    refl,
    (
      refl,
      (
        refl,
        (
          refl,
          (
            refl,
            (
              refl,
              (
                refl,
                (
                  refl,
                  (
                    refl,
                    (refl, (refl, (refl, (refl, (refl, (refl, (refl, (refl, (refl, tt))))))))),
                  ),
                ),
              ),
            ),
          ),
        ),
      ),
    ),
  ),
)

-- A text is the API code of a state exactly when reading that text gives the state back.
pub state_to_api_code_iff :
    (s : BotState) (code : String)
    → (state_to_api_code (value s) ≡ some code) ↔ (api_code_to_state code ≡ some s)
unfolding api_code_to_state
state_to_api_code_iff s code = (
  code-back s code,
  get_by_code_found (λ a. state_to_api_code (value a)) api_codes code s codes-IsFound,
)
