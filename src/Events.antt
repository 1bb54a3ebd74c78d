-- ===== src/Events.antt =====
-- bots/models.py, BotEventTypes, BotEventSubTypes and BotEvent: what happened to a bot, why, and the
-- check constraint that the table of events carries.
pub mod Types
pub mod SubTypes
pub mod Constraint
