-- ===== src/Pdf/PngRows.antt =====
-- The PNG predictor undoes what an encoder did to rows of bytes.
use munichat.Prelude.{
  ℕ, zero, suc, true, false, Option, none, some, get_elem?, ltb, ◌==◌, if◌then◌else◌, ◌+◌, ◌-◌, ◌*◌,
  ◌/◌, ◌%◌, ◌<◌, ◌≡◌, refl, sym, ap, ◌∙◌, List, [], ◌∷◌, ◌++◌, arith, All, length, replicate,
  length-append, take-append, drop-append,
}
use mathlib.Core.List.{append_assoc, append-nil}
use native.Mathlib.Nat.{mul-div_cancel}
use munichat.Pdf.Predictor.{
  byte_at, back, paeth, predicted, png_prediction, png_row, png_rows, png_predictor, restored,
}

-- The byte of a row at a place, where there is one.
abbrev or_zero : Option ℕ → ℕ
or_zero none = 0
or_zero (some b) = b

-- Of two candidates the one that is nearer to `a + b - c`, the first one where they are as near.
abbrev gap : ℕ → ℕ → ℕ → ℕ → ℕ
gap a b c x = (a + b - (x + c)) + (x + c - (a + b))

abbrev nearer : ℕ → ℕ → ℕ → ℕ → ℕ → ℕ
nearer a b c x y = if ltb (gap a b c y) (gap a b c x) then y else x

-- What the PNG specification predicts of a byte from the one to its left, the one above and the one to
-- the left of that: nothing, the left one, the upper one, their average, or of the three the one that
-- is nearest to the sum of the first two without the third.
abbrev prediction_of : ℕ → ℕ → ℕ → ℕ → ℕ
prediction_of filter a b c = elim (filter == 1) [
  | true ↦ a
  | false ↦ elim (filter == 2) [
    | true ↦ b
    | false ↦ elim (filter == 3) [
      | true ↦ (a + b) / 2
      | false ↦ elim (filter == 4) [ true ↦ nearer a b c (nearer a b c a b) c | false ↦ 0 ]
    ]
  ]
]

-- The byte that stands as many places to the left of a place as a pixel has bytes; 0 outside the row.
abbrev left_of : ℕ → List ℕ → ℕ → ℕ
left_of bpp row i = if ltb i bpp then 0 else or_zero (get_elem? row (i - bpp))

-- What is predicted of the byte behind those of `cur`, below the row `prev`.
abbrev pub expected : ℕ → ℕ → List ℕ → List ℕ → ℕ
expected filter bpp prev cur =
    prediction_of filter (left_of bpp cur (length cur)) (or_zero (get_elem? prev (length cur)))
      (left_of bpp prev (length cur))

-- A row as it stands in the data: the bytes less what is predicted of them.
abbrev pub filtered : ℕ → ℕ → List ℕ → List ℕ → List ℕ → List ℕ
filtered filter bpp prev cur [] = []
filtered filter bpp prev cur (p ∷ pixels) =
    (p + 256 - expected filter bpp prev cur % 256) % 256
    ∷ filtered filter bpp prev (cur ++ p ∷ []) pixels

byte_at-get_elem? : (row : List ℕ) (i : ℕ) → byte_at i row ≡ or_zero (get_elem? row i)
byte_at-get_elem? [] i = refl
byte_at-get_elem? (b ∷ row) zero = refl
byte_at-get_elem? (b ∷ row) (suc i) = byte_at-get_elem? row i

back-left_of : (bpp : ℕ) (row : List ℕ) (i : ℕ) → back bpp i row ≡ left_of bpp row i
back-left_of bpp row i = rw (byte_at-get_elem? row (i - bpp)) (ground arith)

predicted-prediction_of : (filter a b c : ℕ) → predicted filter a b c ≡ prediction_of filter a b c
unfolding predicted paeth
predicted-prediction_of filter a b c = ground arith

png_prediction-expected :
    (filter bpp : ℕ) (prev cur : List ℕ)
    → png_prediction filter bpp prev cur ≡ expected filter bpp prev cur
unfolding png_prediction
png_prediction-expected filter bpp prev cur = rw (back-left_of bpp cur (length cur)) (
    rw (back-left_of bpp prev (length cur)) (
      rw (byte_at-get_elem? prev (length cur)) (
        predicted-prediction_of filter (left_of bpp cur (length cur))
          (or_zero (get_elem? prev (length cur))) (left_of bpp prev (length cur)))))

abbrev pub png_encode : ℕ → List ℕ → List (ℕ × List ℕ) → List ℕ
png_encode bpp prev [] = []
png_encode bpp prev ((filter, pixels) ∷ rows) =
    filter ∷ (filtered filter bpp prev [] pixels ++ png_encode bpp pixels rows)

abbrev pub pixels_of : List (ℕ × List ℕ) → List ℕ
pixels_of [] = []
pixels_of ((filter, pixels) ∷ rows) = pixels ++ pixels_of rows

-- A row of bytes, as long as all rows are.
abbrev pub IsRow : ℕ → ℕ × List ℕ → Type 0
IsRow row_len (filter, pixels) = (length pixels ≡ row_len) × All (λ p. p < 256) pixels

png_row-filtered :
    (filter bpp : ℕ) (prev cur pixels : List ℕ)
    → All (λ p. p < 256) pixels
    → png_row filter bpp prev cur (filtered filter bpp prev cur pixels) ≡ cur ++ pixels
unfolding png_row
png_row-filtered filter bpp prev cur [] h = sym (append-nil cur)
png_row-filtered filter bpp prev cur (p ∷ pixels) (small, h) =
    ap
      (λ v.
        png_row filter bpp prev (cur ++ v ∷ []) (filtered filter bpp prev (cur ++ p ∷ []) pixels))
      (ap (λ q. ((p + 256 - expected filter bpp prev cur % 256) % 256 + q) % 256)
          (png_prediction-expected filter bpp prev cur)
        ∙ restored p (expected filter bpp prev cur) small)
    ∙ png_row-filtered filter bpp prev (cur ++ p ∷ []) pixels h
    ∙ append_assoc cur (p ∷ []) pixels

length-filtered :
    (filter bpp : ℕ) (prev cur pixels : List ℕ)
    → length (filtered filter bpp prev cur pixels) ≡ length pixels
length-filtered filter bpp prev cur [] = refl
length-filtered filter bpp prev cur (p ∷ pixels) =
    ap suc (length-filtered filter bpp prev (cur ++ p ∷ []) pixels)

length-encode :
    (row_len bpp : ℕ) (prev : List ℕ) (rows : List (ℕ × List ℕ))
    → All (IsRow row_len) rows
    → length (png_encode bpp prev rows) ≡ length rows * (row_len + 1)
length-encode row_len bpp prev [] h = omega arith
length-encode row_len bpp prev ((filter, pixels) ∷ rows) ((n, _), h) =
    let e : length (filtered filter bpp prev [] pixels ++ png_encode bpp pixels rows)
        ≡ length (filtered filter bpp prev [] pixels) + length (png_encode bpp pixels rows) =
      length-append (filtered filter bpp prev [] pixels) (png_encode bpp pixels rows) in
    omega (
      arith,
      e,
      length-filtered filter bpp prev [] pixels,
      length-encode row_len bpp pixels rows h,
      n,
    )

png_rows-encode :
    (row_len bpp : ℕ) (prev : List ℕ) (rows : List (ℕ × List ℕ))
    → All (IsRow row_len) rows
    → png_rows (length rows) row_len bpp prev (png_encode bpp prev rows) ≡ pixels_of rows
unfolding png_rows
png_rows-encode row_len bpp prev [] h = refl
png_rows-encode row_len bpp prev ((filter, pixels) ∷ rows) ((n, small), h) =
    let line = filtered filter bpp prev [] pixels in
    let rest = png_encode bpp pixels rows in
    let m : length line ≡ row_len = length-filtered filter bpp prev [] pixels ∙ n in
    rw (take-append line rest row_len m) (
      rw (drop-append line rest row_len m) (
        rw (png_row-filtered filter bpp prev [] pixels small)
          (ap (λ t. pixels ++ t) (png_rows-encode row_len bpp pixels rows h))))

-- Undoing the PNG predictor gives back the rows of bytes that an encoder filtered, whatever filter
-- each row chose, whatever the distance to the left byte and however many rows there are.
pub png_predictor-encode :
    (row_len bpp : ℕ) (rows : List (ℕ × List ℕ))
    → All (IsRow row_len) rows
    → png_predictor (png_encode bpp (replicate row_len 0) rows) row_len bpp ≡ pixels_of rows
unfolding png_predictor
png_predictor-encode row_len bpp rows h =
    ap
      (λ n.
        png_rows n row_len bpp (replicate row_len 0) (png_encode bpp (replicate row_len 0) rows))
      (ap (λ n. n / (row_len + 1)) (length-encode row_len bpp (replicate row_len 0) rows h)
        ∙ mul-div_cancel (length rows) (omega arith))
    ∙ png_rows-encode row_len bpp (replicate row_len 0) rows h
