-- ===== src/ChatRequests.antt =====
-- bots/models.py, BotChatMessageRequestStates, BotChatMessageRequest and BotChatMessageRequestManager:
-- the messages that a bot is asked to send. A row has no version, so its save is not refused.
pub mod Sent
use attendee.Base.{ℕ, ◌*◌, Bool, ◌==◌, if◌then◌else◌, Option, some}
use attendee.Base.Outcome.{ok, ◌>>=◌, ◌>>◌, require}
use attendee.Errors.{Result, value_error}

pub data ChatRequestState : Type 0 where
  enqueued sent failed : ChatRequestState

abbrev pub value : ChatRequestState → ℕ
value enqueued = 1
value sent = 2
value failed = 3

-- `chat_message_request.state == other`
abbrev pub is : ChatRequestState → ChatRequestState → Bool
is s other = value s == value other

-- The columns that the manager writes.
pub record ChatRequest : Type 0 where
  pub id : ℕ
  pub state : ChatRequestState
  pub sent_at_timestamp_ms : Option ℕ

-- `now_ms` is the clock, in milliseconds.
unfoldable pub set_chat_message_request_sent : ℕ → ChatRequest → Result ChatRequest
set_chat_message_request_sent now_ms m = if is m.state ChatRequestState.sent then ok m else do
  require (is m.state ChatRequestState.enqueued) value_error
  ok (record m { state = ChatRequestState.sent; sent_at_timestamp_ms = some now_ms })

unfoldable pub set_chat_message_request_failed : ChatRequest → Result ChatRequest
set_chat_message_request_failed m = if is m.state ChatRequestState.failed then ok m else do
  require (is m.state ChatRequestState.enqueued) value_error
  ok (record m { state = ChatRequestState.failed })
