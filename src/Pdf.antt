-- ===== src/Pdf.antt =====
-- apps/web/src/lib/pdf: the filters, the lexer, the parser and the encodings of the PDF viewer.
pub mod AsciiHex
pub mod Ascii85
pub mod Ascii85Words
pub mod RunLength
pub mod Predictor
pub mod PngRows
pub mod TiffRows
pub mod Lexer
pub mod Parser
pub mod Lzw
pub mod Filters
pub mod Layers
pub mod Encodings
pub mod ObjectTests
pub mod Tests
