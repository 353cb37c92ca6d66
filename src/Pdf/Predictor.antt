-- ===== src/Pdf/Predictor.antt =====
-- `applyPredictor`, `pngPredictor`, `paeth` and `tiffPredictor2` of apps/web/src/lib/pdf/filters.ts
use munichat.Prelude.{
  ℕ, zero, suc, ◌+◌, ◌-◌, ◌*◌, ◌/◌, ◌%◌, ◌≤◌, ◌<◌, ◌≡◌, ◌&&◌, Option, none, some, List, [], ◌∷◌,
  ◌++◌, arith, ltb, leb, ◌==◌, if◌then◌else◌, take, drop, length, replicate,
}

-- `readPredictorParams` gives `none` where there is nothing to undo.
pub record PredictorParams : Type 0 where
  pub predictor : ℕ
  pub colors : ℕ
  pub bpc : ℕ
  pub columns : ℕ

-- A byte of an array; the loops stay inside their arrays.
abbrev pub byte_at : ℕ → List ℕ → ℕ
byte_at i [] = 0
byte_at zero (b ∷ bytes) = b
byte_at (suc i) (b ∷ bytes) = byte_at i bytes

-- `i >= bpp ? row[i - bpp] : 0`
abbrev pub back : ℕ → ℕ → List ℕ → ℕ
back bpp i row = if leb bpp i then byte_at (i - bpp) row else 0

-- The distance of two numbers.
abbrev pub dist : ℕ → ℕ → ℕ
dist x y = (x - y) + (y - x)

-- `paeth`: with p = a + b - c, |p - a| is the distance of a + b and a + c.
unfoldable pub paeth : ℕ → ℕ → ℕ → ℕ
paeth a b c =
    if leb (dist (a + b) (a + c)) (dist (a + b) (b + c))
      && leb (dist (a + b) (a + c)) (dist (a + b) (c + c))
    then a
    else if leb (dist (a + b) (b + c)) (dist (a + b) (c + c))
    then b
    else c

-- What each of the filters adds to the raw byte.
unfoldable pub predicted : ℕ → ℕ → ℕ → ℕ → ℕ
unfolding paeth
predicted filter a b c =
    if filter == 1
    then a
    else if filter == 2
    then b
    else if filter == 3
    then (a + b) / 2
    else if filter == 4
    then paeth a b c
    else 0

-- The prediction for the next byte of the row `cur`, with the row above it.
unfoldable pub png_prediction : ℕ → ℕ → List ℕ → List ℕ → ℕ
unfolding predicted
png_prediction filter bpp prev cur =
    predicted filter (back bpp (length cur) cur) (byte_at (length cur) prev)
      (back bpp (length cur) prev)

-- The loop over a row.
unfoldable pub png_row : ℕ → ℕ → List ℕ → List ℕ → List ℕ → List ℕ
unfolding png_prediction
png_row filter bpp prev cur [] = cur
png_row filter bpp prev cur (raw ∷ raws) =
    png_row filter bpp prev (cur ++ (raw + png_prediction filter bpp prev cur) % 256 ∷ []) raws

-- The loop over the rows.
unfoldable pub png_rows : ℕ → ℕ → ℕ → List ℕ → List ℕ → List ℕ
unfolding png_row
png_rows zero row_len bpp prev data' = []
png_rows (suc rows) row_len bpp prev [] = []
png_rows (suc rows) row_len bpp prev (filter ∷ data') =
    let cur = png_row filter bpp prev [] (take row_len data') in
    cur ++ png_rows rows row_len bpp cur (drop row_len data')

unfoldable pub png_predictor : List ℕ → ℕ → ℕ → List ℕ
unfolding png_rows
png_predictor data' row_len bpp =
    png_rows (length data' / (row_len + 1)) row_len bpp (replicate row_len 0) data'

-- The loop over a row of at least one color, in place: `cur` is the part that is done.
unfoldable pub tiff_row : ℕ → List ℕ → List ℕ → List ℕ
tiff_row colors cur [] = cur
tiff_row colors cur (raw ∷ raws) =
    tiff_row colors
      (cur
        ++ (if ltb (length cur) colors
            then raw
            else (raw + byte_at (length cur - colors) cur) % 256)
          ∷ [])
      raws

-- The loop over the rows; what is left behind the last whole row stays as it is.
unfoldable pub tiff_rows : ℕ → ℕ → ℕ → List ℕ → List ℕ
unfolding tiff_row
tiff_rows zero row_len colors out = out
tiff_rows (suc rows) row_len colors out =
    tiff_row colors [] (take row_len out) ++ tiff_rows rows row_len colors (drop row_len out)

unfoldable pub tiff_predictor2 : List ℕ → PredictorParams → ℕ → List ℕ
unfolding tiff_rows
tiff_predictor2 data' p row_len =
    if p.bpc == 8 then tiff_rows (length data' / row_len) row_len p.colors data' else data'

-- `Math.ceil(n / 8)`
abbrev pub bytes_of_bits : ℕ → ℕ
bytes_of_bits n = (n + 7) / 8

unfoldable pub apply_predictor : List ℕ → Option PredictorParams → List ℕ
unfolding tiff_predictor2 png_predictor
apply_predictor data' none = data'
apply_predictor data' (some p) =
    let bytes_per_pixel =
      if ltb (bytes_of_bits (p.colors * p.bpc)) 1 then 1 else bytes_of_bits (p.colors * p.bpc) in
    let row_len = bytes_of_bits (p.colors * p.bpc * p.columns) in
    if row_len == 0
    then data'
    else if p.predictor == 2
    then tiff_predictor2 data' p row_len
    else png_predictor data' row_len bytes_per_pixel

-- A byte is restored from its difference to any prediction.
pub restored : (p q : ℕ) → p < 256 → ((p + 256 - q % 256) % 256 + q) % 256 ≡ p
restored p q h = omega arith

-- The value that `paeth` picks is as near to a + b - c as each of the three.

-- The value that `paeth` picks is as near to a + b - c as each of the three.
pub paeth_nearest :
    (a b c : ℕ)
    → (dist (a + b) (paeth a b c + c) ≤ dist (a + b) (a + c))
      × (dist (a + b) (paeth a b c + c) ≤ dist (a + b) (b + c))
      × (dist (a + b) (paeth a b c + c) ≤ dist (a + b) (c + c))
unfolding paeth
paeth_nearest a b c = (ground arith, ground arith, ground arith)
