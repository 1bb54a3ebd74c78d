-- ===== src/Webhooks/Told.antt =====
-- bots/webhook_utils.py, trigger_webhook: the subscriptions that are told.
use attendee.Base.{
  ℕ, ◌≡◌, refl, sym, Bool, true, false, ◌&&◌, List, [], ◌∷◌, any, keep, arith, ◌+◌, inl, inr,
  Bool-cases, if◌then◌else◌,
}
use mathlib.Core.Path.{subst}
use attendee.Webhooks.{
  TriggerType, Subscription, DeliveryStatus, DeliveryAttempt, is_of_bot, is_of_project, hears,
  subscriptions_for, attempts_for, trigger_webhook,
}

-- A subscription that is to be told, where `own` says whether the bot has any of its own.
abbrev pub is_told : Bool → TriggerType → ℕ → ℕ → Subscription → Bool
is_told own t project bot s =
    hears t s && (if own then is_of_bot bot s else is_of_project project s)

-- What a delivery of a change to a subscription holds before it is attempted.
abbrev pub IsDelivery :
    {P : Type 0} → TriggerType → ℕ → P → ℕ → Subscription → DeliveryAttempt P → Type 0
IsDelivery t bot payload id s d =
    (d.id ≡ id)
    × (d.webhook_subscription ≡ s.id)
    × (d.webhook_trigger_type ≡ t)
    × (d.bot ≡ bot)
    × (d.payload ≡ payload)
    × (d.status ≡ DeliveryStatus.pending)
    × (d.attempt_count ≡ 0)

-- The deliveries go to the subscriptions of the table that have a property, one to each and in the order
-- of the table, under successive identifiers.
pub data GoTo {P : Type 0} (p : Subscription → Bool) (t : TriggerType) (bot : ℕ) (payload : P)
    : ℕ → List Subscription → List (DeliveryAttempt P) → Type 0 where
  at_end : {id : ℕ} → GoTo p t bot payload id [] []
  left_out :
      {id : ℕ} {s : Subscription} {table : List Subscription} {ds : List (DeliveryAttempt P)}
      → p s ≡ false
      → GoTo p t bot payload id table ds
      → GoTo p t bot payload id (s ∷ table) ds
  told :
      {id : ℕ} {s : Subscription} {table : List Subscription} {d : DeliveryAttempt P}
      {ds : List (DeliveryAttempt P)}
      → p s ≡ true
      → IsDelivery t bot payload id s d
      → GoTo p t bot payload (id + 1) table ds
      → GoTo p t bot payload id (s ∷ table) (d ∷ ds)

kept-GoTo :
    {P : Type 0} (p : Subscription → Bool) (t : TriggerType) (bot : ℕ) (payload : P) (id : ℕ)
    (table : List Subscription)
    → GoTo p t bot payload id table (attempts_for t bot payload id (keep p table))
kept-GoTo p t bot payload id [] = GoTo.at_end
kept-GoTo p t bot payload id (s ∷ table) =
    elim (p s)
        as (λ b.
          p s ≡ b
          → GoTo p t bot payload id (s ∷ table)
              (attempts_for t bot payload id (if b then s ∷ keep p table else keep p table))) [
                | true ↦ λ e.
                    GoTo.told e (refl, refl, refl, refl, refl, refl, refl)
                      (kept-GoTo p t bot payload (id + 1) table)
                | false ↦ λ e. GoTo.left_out e (kept-GoTo p t bot payload id table)
              ]
      refl

keep_same :
    (p q : Subscription → Bool) (table : List Subscription)
    → ((s : Subscription) → p s ≡ q s)
    → keep p table ≡ keep q table
keep_same p q [] same = refl
keep_same p q (s ∷ table) same = ground (arith, keep_same p q table same, same s)

subscriptions_for-eq-keep :
    (t : TriggerType) (project bot : ℕ) (table : List Subscription)
    → subscriptions_for t project bot table
      ≡ keep (is_told (any (is_of_bot bot) table) t project bot) table
unfolding subscriptions_for
subscriptions_for-eq-keep t project bot table = elim (Bool-cases (any (is_of_bot bot) table)) [
  | inl own ↦ rw own (keep_same _ _ table (λ s. ground arith))
  | inr none_own ↦ rw none_own (keep_same _ _ table (λ s. ground arith))
]

-- The deliveries of a change go to exactly the subscriptions of the table that are active, list the
-- trigger and are the bot's own, or, if the bot has none at all, active or not, those of its project
-- alone: one to each, in order, with the trigger, the bot and the payload, still to be attempted.
pub trigger_webhook-GoTo :
    {P : Type 0} (t : TriggerType) (project bot : ℕ) (payload : P) (id : ℕ)
    (table : List Subscription)
    → GoTo
        (is_told (any (is_of_bot bot) table) t project bot)
        t
        bot
        payload
        id
        table
        (trigger_webhook t project bot payload id table)
unfolding trigger_webhook
trigger_webhook-GoTo t project bot payload id table =
    let p = is_told (any (is_of_bot bot) table) t project bot in
    subst (λ ss. GoTo p t bot payload id table (attempts_for t bot payload id ss))
      (sym (subscriptions_for-eq-keep t project bot table)) (kept-GoTo p t bot payload id table)
