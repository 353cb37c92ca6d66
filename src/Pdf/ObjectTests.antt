-- ===== src/Pdf/ObjectTests.antt =====
-- The lexer and the parser at concrete bytes, with numbers that are natural ones.
use munichat.Prelude.{
  ℕ, arith, List, Option, none, true, ◌<◌, ◌≡◌, ◌⊎◌, refl, some, [], ◌∷◌, ◌++◌, length,
}
use munichat.Text.{lit, number_of, strip_prefix}
use munichat.Pdf.AsciiHex
use munichat.Pdf.RunLength
use munichat.Pdf.Lzw.{lzw_decode}
use munichat.Pdf.Filters.{Format, is_image_filter, decode_stream}
use munichat.Pdf.Layers.{image, hex, runs, seen, decode_stream-Layers}
use munichat.Pdf.Lexer.{Numbers, Token, eof, string, next_on, next}
use munichat.Pdf.Lexer.Progress.{next-Advances}
use munichat.Pdf.Lexer.StringsBack.{write_literal, next-write_literal}
use munichat.Pdf.Parser.{
  PdfObject, PdfDict, item, no_items, entry, no_entries, parse_object, parse_indirect_object_at,
}
use munichat.Pdf.Parser.Total.{Returns, parse_object-Returns}
use munichat.Pdf.Parser.Buffer.{
  reading, peeking, seek, with_buffer, without_buffer, with_buffer-seek,
}

abbrev numbers : Numbers
numbers = record { Num = ℕ; parse_float = number_of; zero_num = 0; natural = λ n. some n }

next-Advances_example :
    (next numbers (lit "> % gone\n7 0 R")
      ≡ next_on numbers (Token.number 9, []) 15 (lit "> % gone\n7 0 R"))
    × ((next numbers (lit "> % gone\n7 0 R") ≡ (eof, []))
        ⊎ (length (next numbers (lit "> % gone\n7 0 R")).1 < 14))
next-Advances_example = next-Advances numbers (Token.number 9, []) (lit "> % gone\n7 0 R")

-- A stray bracket and a comment are skipped.
number_is_read : next numbers (lit "> % gone\n7 0 R") ≡ (Token.number 7, lit " 0 R")
unfolding next number_of
number_is_read = refl

next-write_literal_example :
    next numbers (lit "(" ++ (write_literal (lit "a)\\(") ++ b')' ∷ lit " Tj"))
    ≡ (string (lit "a)\\("), lit " Tj")
next-write_literal_example = next-write_literal numbers (lit "a)\\(") (lit " Tj")

octal_is_read : next numbers (lit "(\\101\\7z(b))") ≡ (string (65 ∷ 7 ∷ lit "z(b)"), [])
unfolding next
octal_is_read = refl

parse_object-Returns_example :
    Returns numbers
      (parse_object numbers (lit "[1 0 R <41> (b"))
      (length (next numbers (lit "[1 0 R <41> (b")).1)
parse_object-Returns_example = parse_object-Returns numbers (lit "[1 0 R <41> (b")

dictionary_is_read :
    parse_object numbers (lit "<< /A#42 [1 0 R 2] >> x")
    ≡ some (
      PdfObject.dict (
          entry
            (lit "AB")
            (PdfObject.array (item (PdfObject.ref 1 0) (item (PdfObject.number 2) no_items)))
            no_entries),
      lit " x",
    )
unfolding parse_object number_of
dictionary_is_read = refl

-- The length is wrong, so that the end of the data is looked for.
stream_is_read :
    parse_indirect_object_at numbers (lit "1 0 obj << /Length 9 >> stream\nabc\nendstream endobj") 0
    ≡ some (record {
      num = 1;
      gen = 0;
      value = PdfObject.stream (entry (lit "Length") (PdfObject.number 9) no_entries) (lit "abc");
    })
unfolding parse_indirect_object_at number_of strip_prefix
stream_is_read = refl

with_buffer-seek_example :
    with_buffer numbers (peeking 1 ∷ reading ∷ reading ∷ []) (seek numbers (lit "1 0 R"))
    ≡ without_buffer numbers (peeking 1 ∷ reading ∷ reading ∷ []) (lit "1 0 R")
with_buffer-seek_example =
    with_buffer-seek numbers (peeking 1 ∷ reading ∷ reading ∷ []) (lit "1 0 R")

-- The example of the PDF specification for this filter.
specification_is_decoded :
    lzw_decode 1 (0x80 ∷ 0x0b ∷ 0x60 ∷ 0x50 ∷ 0x22 ∷ 0x0c ∷ 0x0c ∷ 0x85 ∷ 0x01 ∷ [])
    ≡ 45 ∷ 45 ∷ 45 ∷ 45 ∷ 45 ∷ 65 ∷ 45 ∷ 45 ∷ 45 ∷ 66 ∷ []
unfolding lzw_decode
specification_is_decoded = refl

-- A stream of an image in two layers, whose inflating would fail.
abbrev cannot_inflate : List ℕ → Format → Option (List ℕ)
cannot_inflate data' format = none

abbrev two_bytes : List RunLength.Run
two_bytes = RunLength.literal 65 (66 ∷ []) ∷ []

abbrev in_digits : List ℕ → List AsciiHex.Written
in_digits [] = []
in_digits (b ∷ bs) = record { byte = b; is_upper = true; filler = [] } ∷ in_digits bs

abbrev layered : PdfDict ℕ
layered =
    entry (lit "Filter")
      (PdfObject.array (
        item (PdfObject.name (lit "AHx"))
          (item (PdfObject.name (lit "RL")) (item (PdfObject.name (lit "DCT")) no_items))))
      no_entries

decode_stream-Layers_example :
    seen (
      decode_stream cannot_inflate
        (λ o. o)
        layered
        (AsciiHex.written (in_digits (RunLength.written two_bytes []))))
    ≡ some (65 ∷ 66 ∷ [], some (lit "DCT"))
unfolding decode_stream is_image_filter
decode_stream-Layers_example =
    decode_stream-Layers cannot_inflate (λ o. o) layered
      (hex true (in_digits (RunLength.written two_bytes [])) {bytes = 65 ∷ 66 ∷ []} (ground arith)
        (runs true two_bytes [] (ground arith) (image refl)))
