-- ===== src/Chat.antt =====
-- apps/api/src/chat/chat.gateway.ts: the handlers of the socket events.
pub mod Broadcasts
pub mod Events
pub mod Guards
pub mod Outcomes
pub mod Tombstones
pub mod Gateway
mod Tests
unfoldable pub use Gateway.*
