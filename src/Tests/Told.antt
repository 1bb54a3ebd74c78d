-- ===== src/Tests/Told.antt =====
-- The theorem on the subscriptions that are told.
use attendee.Base.{String, some, List, [], ◌∷◌, any}
use attendee.Webhooks.{TriggerType, Subscription, is_of_bot, trigger_webhook}
use attendee.Webhooks.Told.{is_told, GoTo, trigger_webhook-GoTo}
use attendee.Tests.{subscription}

abbrev table : List Subscription
table = subscription ∷ record subscription { id = 4; bot = some 7 } ∷ []

abbrev payload : String
payload = "{}"

trigger_webhook-GoTo_example :
    GoTo
      (is_told (any (is_of_bot 7) table) TriggerType.bot_state_change 1 7)
      TriggerType.bot_state_change
      7
      payload
      1
      table
      (trigger_webhook TriggerType.bot_state_change 1 7 payload 1 table)
trigger_webhook-GoTo_example = trigger_webhook-GoTo TriggerType.bot_state_change 1 7 payload 1 table
