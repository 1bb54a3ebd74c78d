-- ===== src/MediaRequests.antt =====
-- bots/models.py, BotMediaRequestStates, BotMediaRequest and BotMediaRequestManager: the media that a
-- bot is asked to play. The manager works on a row in memory, which `save` then writes to the table.
pub mod Exclusive
use attendee.Base.{
  ℕ, Bool, true, false, ◌&&◌, ◌||◌, not, List, [], ◌∷◌, ◌==◌, if◌then◌else◌, any, String, Option,
}
use attendee.Base.Outcome.{ok, raise, ◌>>=◌, ◌>>◌, require}
use attendee.Base.Tables.{get_by_value}
use attendee.Errors.{Result, value_error, integrity_error}

pub data MediaRequestState : Type 0 where
  enqueued playing dropped finished failed_to_play : MediaRequestState

abbrev pub value : MediaRequestState → ℕ
value enqueued = 1
value playing = 2
value dropped = 3
value finished = 4
value failed_to_play = 5

abbrev pub api_codes : List (MediaRequestState × String)
api_codes =
    (enqueued, "enqueued")
    ∷ (playing, "playing")
    ∷ (dropped, "dropped")
    ∷ (finished, "finished")
    ∷ (failed_to_play, "failed_to_play")
    ∷ []

-- `BotMediaRequestStates.state_to_api_code`
abbrev pub state_to_api_code : ℕ → Option String
state_to_api_code = get_by_value value api_codes

-- `media_request.state == other`
abbrev pub is : MediaRequestState → MediaRequestState → Bool
is s other = value s == value other

-- The media type is the integer of `BotMediaRequestMediaTypes`.
pub record MediaRequest : Type 0 where
  pub id : ℕ
  pub bot : ℕ
  pub media_type : ℕ
  pub state : MediaRequestState

abbrev pub plays : ℕ → ℕ → MediaRequest → Bool
plays bot media_type m =
    m.bot == bot && m.media_type == media_type && is m.state MediaRequestState.playing

-- `unique_playing_media_request_per_bot_and_type`, which a row must respect when it is written.
abbrev pub conflicts : MediaRequest → MediaRequest → Bool
conflicts m other =
    is m.state MediaRequestState.playing && not (other.id == m.id) && plays m.bot m.media_type other

-- The table with the row of this identifier replaced, or added where there is none.
abbrev pub write : MediaRequest → List MediaRequest → List MediaRequest
write m [] = m ∷ []
write m (r ∷ rs) = let rest = r ∷ write m rs in if r.id == m.id then m ∷ rs else rest

-- The row in memory and the table.
abbrev pub Saved : Type 0
Saved = MediaRequest × List MediaRequest

unfoldable pub save_request : MediaRequest → List MediaRequest → Result Saved
save_request m table =
    if any (conflicts m) table then raise integrity_error else ok (m, write m table)

abbrev with_state : MediaRequest → MediaRequestState → MediaRequest
with_state m s = record m { state = s }

unfoldable pub set_media_request_playing : MediaRequest → List MediaRequest → Result Saved
unfolding save_request
set_media_request_playing m table =
    if is m.state MediaRequestState.playing then ok (m, table) else do
      require (is m.state MediaRequestState.enqueued) value_error
      save_request (with_state m MediaRequestState.playing) table

unfoldable pub set_media_request_finished : MediaRequest → List MediaRequest → Result Saved
unfolding save_request
set_media_request_finished m table =
    if is m.state MediaRequestState.finished then ok (m, table) else do
      require (is m.state MediaRequestState.playing) value_error
      save_request (with_state m MediaRequestState.finished) table

unfoldable pub set_media_request_failed_to_play : MediaRequest → List MediaRequest → Result Saved
unfolding save_request
set_media_request_failed_to_play m table =
    if is m.state MediaRequestState.failed_to_play then ok (m, table) else do
      require (is m.state MediaRequestState.playing) value_error
      save_request (with_state m MediaRequestState.failed_to_play) table

unfoldable pub set_media_request_dropped : MediaRequest → List MediaRequest → Result Saved
unfolding save_request
set_media_request_dropped m table =
    if is m.state MediaRequestState.dropped then ok (m, table) else do
      require (is m.state MediaRequestState.playing || is m.state MediaRequestState.enqueued)
          value_error
      save_request (with_state m MediaRequestState.dropped) table
