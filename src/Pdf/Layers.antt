-- ===== src/Pdf/Layers.antt =====
-- The chain of filters of apps/web/src/lib/pdf/filters.ts on data that was encoded filter by filter.
use munichat.Prelude.{
  ℕ, ◌<◌, ◌≡◌, refl, Bool, true, false, Option, none, some, List, [], ◌∷◌, All, if◌then◌else◌,
}
use munichat.Text.{Text, lit}
use munichat.Pdf.AsciiHex
use munichat.Pdf.AsciiHex.{ascii_hex_decode-written}
use munichat.Pdf.RunLength
use munichat.Pdf.RunLength.{run_length_decode-written}
use munichat.Pdf.Ascii85Words.{ascii85_encode, ascii85_decode-encode}
use munichat.Pdf.Parser.{PdfObject, PdfDict}
use munichat.Pdf.Filters.{
  Resolver, Format, DecodeResult, is_image_filter, filter_loop, other_params, stream_filters,
  decode_stream,
}

abbrev hex_name : Bool → Text
hex_name is_short = if is_short then lit "AHx" else lit "ASCIIHexDecode"

abbrev run_name : Bool → Text
run_name is_short = if is_short then lit "RL" else lit "RunLengthDecode"

abbrev base85_name : Bool → Text
base85_name is_short = if is_short then lit "A85" else lit "ASCII85Decode"

-- `Layers names encoded plain image`: the encoded bytes are made from the plain ones by an encoder
-- for each of the filters, up to the first filter of images where there is one.
pub data Layers : List Text → List ℕ → List ℕ → Option Text → Type 0 where
  plain : {bytes : List ℕ} → Layers [] bytes bytes none
  image :
      {n : Text} {names : List Text} {bytes : List ℕ}
      → is_image_filter n ≡ true
      → Layers (n ∷ names) bytes bytes (some n)
  hex :
      (is_short : Bool) (ws : List AsciiHex.Written) {names : List Text} {bytes : List ℕ}
      {i : Option Text}
      → All AsciiHex.IsWritten ws
      → Layers names (AsciiHex.bytes ws) bytes i
      → Layers (hex_name is_short ∷ names) (AsciiHex.written ws) bytes i
  runs :
      (is_short : Bool) (rs : List RunLength.Run) (rest : List ℕ) {names : List Text}
      {bytes : List ℕ} {i : Option Text}
      → All RunLength.IsRun rs
      → Layers names (RunLength.expanded rs) bytes i
      → Layers (run_name is_short ∷ names) (RunLength.written rs rest) bytes i
  base85 :
      (is_short : Bool) (bs : List ℕ) {names : List Text} {bytes : List ℕ} {i : Option Text}
      → All (λ b. b < 256) bs
      → Layers names bs bytes i
      → Layers (base85_name is_short ∷ names) (0x3c ∷ 0x7e ∷ ascii85_encode bs) bytes i

-- The bytes of a result and the filter of images that it ends at.
abbrev pub seen : Option DecodeResult → Option (List ℕ × Option Text)
seen none = none
seen (some r) = some (r.bytes, r.image_filter)

module _ (inflate_with : List ℕ → Format → Option (List ℕ)) (resolve : Resolver) where
  filter_loop-Layers :
      {names : List Text} {encoded bytes : List ℕ} {i : Option Text}
      (ps : List (Option (PdfObject ℕ)))
      → Layers names encoded bytes i
      → seen (filter_loop inflate_with resolve names ps encoded) ≡ some (bytes, i)
  unfolding filter_loop
  filter_loop-Layers ps plain = refl
  filter_loop-Layers ps (image e) = rw (e, filter_loop) refl
  filter_loop-Layers ps (hex true ws h l) =
      rw (ascii_hex_decode-written ws h) (filter_loop-Layers (other_params ps) l)
  filter_loop-Layers ps (hex false ws h l) =
      rw (ascii_hex_decode-written ws h) (filter_loop-Layers (other_params ps) l)
  filter_loop-Layers ps (runs true rs rest h l) =
      rw (run_length_decode-written rs rest h) (filter_loop-Layers (other_params ps) l)
  filter_loop-Layers ps (runs false rs rest h l) =
      rw (run_length_decode-written rs rest h) (filter_loop-Layers (other_params ps) l)
  filter_loop-Layers ps (base85 true bs h l) =
      rw (ascii85_decode-encode bs h) (filter_loop-Layers (other_params ps) l)
  filter_loop-Layers ps (base85 false bs h l) =
      rw (ascii85_decode-encode bs h) (filter_loop-Layers (other_params ps) l)

  -- A stream whose data was encoded by an encoder for each of its filters in turn decodes without a
  -- failure to the plain bytes, for the ASCII filters and run lengths under their long and short names.
  -- A filter of images ends the chain: the bytes are then those that it encodes, and it is named.
  pub decode_stream-Layers :
      (d : PdfDict ℕ) {encoded bytes : List ℕ} {i : Option Text}
      → Layers (stream_filters inflate_with resolve d) encoded bytes i
      → seen (decode_stream inflate_with resolve d encoded) ≡ some (bytes, i)
  unfolding decode_stream
  decode_stream-Layers d l = filter_loop-Layers _ l
