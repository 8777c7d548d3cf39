-- ===== src/Bot.antt =====
-- internal/telegram/bot.go: the Bot API backend.
pub mod Cursor
pub mod Update
pub mod History
pub mod Queue
pub mod Updates
pub mod Promises
pub mod Resume
mod Tests
