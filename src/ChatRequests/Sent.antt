-- ===== src/ChatRequests/Sent.antt =====
-- bots/models.py, BotChatMessageRequestManager: sequences of its operations.
use attendee.Base.{
  Bool-cases, ◌⊎◌, inl, inr, true, ℕ, ◌≡◌, refl, false, List, [], ◌∷◌, arith, is_some,
}
use attendee.Base.Outcome.{ok, raise, Ensures}
use attendee.Errors.{Result}
use attendee.ChatRequests.{
  ChatRequestState, is, ChatRequest, set_chat_message_request_sent, set_chat_message_request_failed,
}

-- The public operations of `BotChatMessageRequestManager`.
pub data Call : Type 0 where
  send : ℕ → Call
  fail : Call

unfoldable pub call : Call → ChatRequest → Result ChatRequest
unfolding set_chat_message_request_sent set_chat_message_request_failed
call (send now_ms) m = set_chat_message_request_sent now_ms m
call fail m = set_chat_message_request_failed m

-- Several operations, where one that raises leaves the row as it was.
unfoldable pub calls : List Call → ChatRequest → ChatRequest
unfolding call
calls [] m = m
calls (c ∷ cs) m = elim (call c m) [ ok m' ↦ calls cs m' | raise e ↦ calls cs m ]

settled_once :
    (cs : List Call) (m : ChatRequest)
    → is m.state ChatRequestState.enqueued ≡ false
    → calls cs m ≡ m
unfolding calls
settled_once [] m h = refl
settled_once (send now_ms ∷ cs) m h = ground (arith, settled_once cs m h)
settled_once (fail ∷ cs) m h = ground (arith, settled_once cs m h)

-- The time of sending is there exactly if the request is sent.
abbrev pub IsStamped : ChatRequest → Type 0
IsStamped m = is_some m.sent_at_timestamp_ms ≡ is m.state ChatRequestState.sent

call-IsStamped : (c : Call) (m : ChatRequest) → IsStamped m → Ensures IsStamped (call c m)
unfolding call
call-IsStamped (send now_ms) m h = ground arith
call-IsStamped fail m h = ground arith

calls-IsStamped : (cs : List Call) (m : ChatRequest) → IsStamped m → IsStamped (calls cs m)
unfolding calls
calls-IsStamped [] m h = h
calls-IsStamped (c ∷ cs) m h =
    stamped_either_way (call c m) (call-IsStamped c m h) (calls-IsStamped cs)
      (calls-IsStamped cs m h)
  where
    stamped_either_way :
        (o : Result ChatRequest)
        → Ensures IsStamped o
        → ((m' : ChatRequest) → IsStamped m' → IsStamped (calls cs m'))
        → IsStamped (calls cs m)
        → IsStamped (elim o [ ok m' ↦ calls cs m' | raise e ↦ calls cs m ])
    stamped_either_way (ok m') g returned raised = returned m' g
    stamped_either_way (raise e) g returned raised = raised

-- Whatever operations follow, the time of sending is there exactly if the request is sent, and a request
-- that was not enqueued stays as it was.
pub calls-settled :
    (cs : List Call) (m : ChatRequest)
    → IsStamped m
    → IsStamped (calls cs m) × ((is m.state ChatRequestState.enqueued ≡ true) ⊎ (calls cs m ≡ m))
calls-settled cs m h = (
  calls-IsStamped cs m h,
  elim (Bool-cases (is m.state ChatRequestState.enqueued)) [
    | inl waiting ↦ inl waiting
    | inr settled ↦ inr (settled_once cs m settled)
  ],
)
