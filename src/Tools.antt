-- ===== src/Tools.antt =====
-- internal/tools: the tools beside `message`, one module each.
pub mod Chats
pub mod Media
pub mod Filing
pub mod Profile
pub mod Contacts
pub mod Setup
mod Tests
