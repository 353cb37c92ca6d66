-- ===== src/Store.antt =====
-- The database as the API uses it. The rows follow apps/api/prisma/schema.prisma; the client that
-- reads and writes them is generated from that schema, so it is a parameter here: its operations,
-- and what its documentation promises of them.
mod Rows
mod Client
pub mod Table
pub mod Memory
pub use Rows.*
unfoldable pub use Client.{patched, hydrated, find_message}
pub use Client.{Stores, marked_read, Prisma}
