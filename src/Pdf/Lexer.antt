-- ===== src/Pdf/Lexer.antt =====
-- apps/web/src/lib/pdf/lexer.ts. The lexer's position is the bytes that it has not read; a token comes
-- with the bytes after its end.
mod Bytes
mod Strings
mod Tokens
unfoldable pub use Bytes.*
unfoldable pub use Strings.*
unfoldable pub use Tokens.*
pub mod Progress
pub mod StringsBack
