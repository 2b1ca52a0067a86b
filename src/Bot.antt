-- ===== src/Bot.antt =====
-- The bot process: backend/app/bot.
pub mod Handlers
pub mod Start
pub mod Throttle
pub mod Background
pub mod Messages
pub mod Reading
pub mod Gateway
