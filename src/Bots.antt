-- ===== src/Bots.antt =====
-- bots/models.py, Bot: the columns that the lifecycle uses, and the time that a bot is charged for.
pub mod Billing
pub mod Recovery
pub mod Heartbeat
use attendee.Base.{ℕ, String, Option, none, some, if◌then◌else◌, ltb, ◌==◌, ◌-◌}
use attendee.States.{BotState}

-- `SessionTypes`
pub data SessionType : Type 0 where
  bot app_session local_recording : SessionType

-- `join_at` is the text of the time, or null; `recording_format` is what the settings give.
pub record Bot : Type 0 where
  pub id : ℕ
  pub state : BotState
  pub session_type : SessionType
  pub join_at : Option String
  pub first_heartbeat_timestamp : Option ℕ
  pub last_heartbeat_timestamp : Option ℕ
  pub recording_format : String

-- The seconds between two heartbeats; a bot with a single heartbeat counts as 30 seconds.
abbrev pub seconds_active : ℕ → ℕ → ℕ
seconds_active first last = if ltb last first then 0 else if last == first then 30 else last - first

unfoldable pub bot_duration_seconds : Bot → ℕ
bot_duration_seconds b = elim b.first_heartbeat_timestamp [
  | none ↦ 0
  | some first ↦ elim b.last_heartbeat_timestamp [
    | none ↦ 0
    | some last ↦ seconds_active first last
  ]
]
