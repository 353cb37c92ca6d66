-- ===== src/Pdf/Tests.antt =====
-- The filters on concrete data.
use munichat.Prelude.{ℕ, ◌≡◌, refl, true, false, List, [], ◌∷◌, arith}
use munichat.Pdf.AsciiHex
use munichat.Pdf.AsciiHex.{ascii_hex_decode, ascii_hex_decode-written}
use munichat.Pdf.Predictor.{PredictorParams, png_predictor, tiff_predictor2}
use munichat.Pdf.PngRows.{png_encode, png_predictor-encode}
use munichat.Pdf.TiffRows.{tiff_encode, tiff_predictor2-encode}

-- "4a 4B>" and what follows.
abbrev hex_text : List AsciiHex.Written
hex_text =
    record { byte = 0x4a; is_upper = false; filler = 32 ∷ [] }
    ∷ record { byte = 0x4b; is_upper = true; filler = [] }
    ∷ []

abbrev rows : List (ℕ × List ℕ)
rows = (1, 10 ∷ 20 ∷ 250 ∷ []) ∷ (4, 12 ∷ 3 ∷ 255 ∷ []) ∷ []

png_predictor-encode_example :
    png_predictor (png_encode 1 (0 ∷ 0 ∷ 0 ∷ []) rows) 3 1 ≡ 10 ∷ 20 ∷ 250 ∷ 12 ∷ 3 ∷ 255 ∷ []
png_predictor-encode_example = png_predictor-encode 3 1 rows (
  (refl, (omega arith, (omega arith, (omega arith, tt)))),
  ((refl, (omega arith, (omega arith, (omega arith, tt)))), tt),
)

abbrev rgb : PredictorParams
rgb = record { predictor = 2; colors = 3; bpc = 8; columns = 1 }

tiff_predictor2-encode_example :
    tiff_predictor2 (tiff_encode 3 ((1 ∷ 2 ∷ 3 ∷ 0 ∷ []) ∷ []) (9 ∷ [])) rgb 4
    ≡ 1 ∷ 2 ∷ 3 ∷ 0 ∷ 9 ∷ []
tiff_predictor2-encode_example =
    tiff_predictor2-encode rgb 4 ((1 ∷ 2 ∷ 3 ∷ 0 ∷ []) ∷ []) (9 ∷ []) refl (omega arith)
      ((refl, (omega arith, (omega arith, (omega arith, (omega arith, tt))))), tt)
