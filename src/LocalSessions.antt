-- ===== src/LocalSessions.antt =====
-- Local sessions, which a desktop records without a bot: when a group of utterances is transcribed, and
-- where a full buffer of audio is split.
pub mod Groups
pub mod Split
