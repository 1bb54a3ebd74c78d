-- ===== src/Webhooks/Delivery.antt =====
-- bots/tasks/deliver_webhook_task.py, deliver_webhook: one run of the task on a row of the deliveries.
-- The queue runs the task again after an exception.
use Prim.Native.String.{[] as []ₛ, ◌∷◌ as ◌∷ₛ◌}
use attendee.Base.{
  inl, ℕ, zero, suc, ◌+◌, ◌≤◌, ◌<◌, ◌≡◌, ◌⊎◌, String, Bool, true, false, ◌&&◌, Option, none, some,
  List, [], ◌∷◌, ◌++◌, if◌then◌else◌, leb, ltb, arith, any, not,
}
use attendee.Webhooks.{DeliveryStatus, Body, text, no_answer, DeliveryAttempt}

-- What posting the request gives: an answer with its status code and text, or an exception of the
-- HTTP library, by the name of its class.
pub data Response : Type 0 where
  answer : ℕ → String → Response
  request_exception : String → Response

-- The exceptions that a run ends with.
pub data Retry : Type 0 where
  preparation_failed rate_limited delivery_failed : Retry

-- What surrounds one run: the subscription's flag, whether the payload can be signed, whether the
-- limit of deliveries is reached, the answer of the receiver, and the clock.
pub record Run : Type 0 where
  pub subscription_is_active : Bool
  pub can_sign : Bool
  pub is_rate_limited : Bool
  pub response : Response
  pub now : ℕ

-- `text[:n]`
abbrev take_text : ℕ → String → String
take_text zero s = []ₛ
take_text (suc n) []ₛ = []ₛ
take_text (suc n) (c ∷ₛ s) = c ∷ₛ take_text n s

abbrev is_success_code : ℕ → Bool
is_success_code code = leb 200 code && ltb code 300

-- `delivery.status == WebhookDeliveryAttemptStatus.FAILURE`
abbrev pub is_failure : DeliveryStatus → Bool
is_failure DeliveryStatus.failure = true
is_failure s = false

module _ {P : Type 0} where
  -- `delivery.add_to_response_body_list(body)`
  abbrev add_body : Body → DeliveryAttempt P → DeliveryAttempt P
  add_body b d = record d { response_body_list = d.response_body_list ++ b ∷ [] }

  -- The row once the receiver has answered, or has not.
  unfoldable pub after_response : ℕ → Response → DeliveryAttempt P → DeliveryAttempt P
  after_response now (answer code body) d =
      let answered = add_body (text (take_text 1000 body)) d in
      if is_success_code code
      then record answered { status = DeliveryStatus.success; succeeded_at = some now }
      else record answered { status = DeliveryStatus.failure }
  after_response now (request_exception name) d =
      add_body (no_answer name) (record d { status = DeliveryStatus.failure })

  -- One run, given `MAX_WEBHOOK_DELIVERY_ATTEMPTS`: the row as it is saved, and the exception that
  -- the run ends with, if any.
  unfoldable pub deliver_webhook : ℕ → Run → DeliveryAttempt P → DeliveryAttempt P × Option Retry
  unfolding after_response
  deliver_webhook max run d =
      if not run.subscription_is_active
      then (
        add_body (no_answer "InactiveSubscription") (record d { status = DeliveryStatus.failure }),
        none,
      )
      else if not run.can_sign
      then (d, some preparation_failed)
      else if run.is_rate_limited
      then (d, some rate_limited)
      else (let posted =
            after_response run.now run.response
              (record d { attempt_count = d.attempt_count + 1; last_attempt_at = some run.now }) in
          if is_failure posted.status && ltb posted.attempt_count max
          then (posted, some delivery_failed)
          else (posted, none))

  -- The runs of a task, one after the other, until one ends without an exception; with the row comes
  -- whether one has.
  unfoldable pub deliver_until_done : ℕ → List Run → DeliveryAttempt P → DeliveryAttempt P × Bool
  deliver_until_done max [] d = (d, false)
  deliver_until_done max (run ∷ runs) d =
      let (d', raised) = deliver_webhook max run d in
      let later = deliver_until_done max runs d' in
      elim raised [ none ↦ (d', true) | some x ↦ later ]

  -- A row to which fewer than `max` attempts were made has, after any runs of the task, still fewer, or
  -- has `max` of them and the task is done.
  pub attempt_count_bounded :
      (max : ℕ) (runs : List Run) (d : DeliveryAttempt P)
      → d.attempt_count < max
      → let (d', done) = deliver_until_done max runs d in
        (d'.attempt_count < max) ⊎ (d'.attempt_count ≡ max) × (done ≡ true)
  unfolding deliver_until_done deliver_webhook
  attempt_count_bounded max [] d few = inl few
  attempt_count_bounded max (run ∷ runs) d few = grind (arith, attempt_count_bounded max runs)

  -- If the runs of a task end without an exception, then the delivery has succeeded, or it has failed
  -- and either all the attempts were made or some run found the subscription inactive.
  pub given_up_late :
      (max : ℕ) (runs : List Run) (d : DeliveryAttempt P)
      → (deliver_until_done max runs d).1 ≡ true
      → let d' = (deliver_until_done max runs d).0 in
        (d'.status ≡ DeliveryStatus.success)
        ⊎ (d'.status ≡ DeliveryStatus.failure)
          × ((max ≤ d'.attempt_count) ⊎ (any (λ r. not r.subscription_is_active) runs ≡ true))
  unfolding deliver_until_done deliver_webhook
  given_up_late max [] d done = cc
  given_up_late max (run ∷ runs) d done = grind (arith, given_up_late max runs)
