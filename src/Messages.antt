-- ===== src/Messages.antt =====
-- apps/api/src/messages: what a message is to a client (`Mapper`), the patterns of message content
-- (`Patterns`) and the service (`Service`), with their properties below.
mod Mapper
mod Patterns
mod Service
pub mod Tests
pub mod History
pub mod Search
pub mod SearchTests
pub mod Keeps
pub mod Deleted
pub mod Updates
pub mod Creation
unfoldable pub use Mapper.{to_user_summary, to_attachment_dto, to_reply_preview, to_message_dto}
pub use Mapper.{Env}
unfoldable pub use Patterns.{ticket_description, find_url}
unfoldable pub use Service.*
