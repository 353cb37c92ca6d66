-- ===== src/Pdf/Parser.antt =====
-- apps/web/src/lib/pdf/types.ts and parser.ts. The parser's position is the bytes after the last token
-- that it has read: the buffer of tokens that it has looked at is what the lexer gives from there.
mod Objects
mod Streams
mod Descent
unfoldable pub use Objects.*
unfoldable pub use Streams.*
unfoldable pub use Descent.*
pub mod Total
pub mod Buffer
