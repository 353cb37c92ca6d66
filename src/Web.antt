-- ===== src/Web.antt =====
-- apps/web/src/lib, stores and hooks: what the client keeps of messages, channels and typing.
pub mod TypingEmitter
pub mod Caches
pub mod Shown
pub mod ChatStore
pub mod Typing
pub mod Grouping
pub mod Tests
