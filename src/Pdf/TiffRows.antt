-- ===== src/Pdf/TiffRows.antt =====
-- TIFF's predictor 2 undoes what an encoder did to rows of 8-bit samples.
use munichat.Prelude.{
  ℕ, suc, ◌+◌, ◌-◌, ◌*◌, ◌/◌, ◌%◌, ◌<◌, ◌≡◌, refl, sym, ap, ◌∙◌, Bool, true, false, List, [], ◌∷◌,
  ◌++◌, arith, ltb, if◌then◌else◌, All, length, length-append, take-append, drop-append,
}
use mathlib.Core.List.{append_assoc, append-nil}
use native.Mathlib.Nat.{add-mul-div_right, div-eq_of_lt}
use munichat.Pdf.Predictor.{
  PredictorParams, byte_at, tiff_row, tiff_rows, tiff_predictor2, restored,
}

-- The differences that TIFF's predictor 2 stores.
abbrev pub differences : ℕ → List ℕ → List ℕ → List ℕ
differences colors cur [] = []
differences colors cur (p ∷ pixels) =
    (if ltb (length cur) colors
      then p
      else (p + 256 - byte_at (length cur - colors) cur % 256) % 256)
    ∷ differences colors (cur ++ p ∷ []) pixels

stored_back :
    (is_first : Bool) (p q : ℕ)
    → p < 256
    → (if is_first
        then (if is_first then p else (p + 256 - q % 256) % 256)
        else ((if is_first then p else (p + 256 - q % 256) % 256) + q) % 256)
      ≡ p
stored_back true p q h = refl
stored_back false p q h = restored p q h

tiff_row-differences :
    (colors : ℕ) (cur pixels : List ℕ)
    → All (λ p. p < 256) pixels
    → tiff_row colors cur (differences colors cur pixels) ≡ cur ++ pixels
unfolding tiff_row
tiff_row-differences colors cur [] h = sym (append-nil cur)
tiff_row-differences colors cur (p ∷ pixels) (small, h) =
    ap (λ v. tiff_row colors (cur ++ v ∷ []) (differences colors (cur ++ p ∷ []) pixels))
      (stored_back (ltb (length cur) colors) p (byte_at (length cur - colors) cur) small)
    ∙ tiff_row-differences colors (cur ++ p ∷ []) pixels h
    ∙ append_assoc cur (p ∷ []) pixels

-- Rows of differences, and what stands behind the last whole row.
abbrev pub tiff_encode : ℕ → List (List ℕ) → List ℕ → List ℕ
tiff_encode colors [] tail = tail
tiff_encode colors (pixels ∷ rows) tail =
    differences colors [] pixels ++ tiff_encode colors rows tail

abbrev pub lines_of : List (List ℕ) → List ℕ → List ℕ
lines_of [] tail = tail
lines_of (pixels ∷ rows) tail = pixels ++ lines_of rows tail

abbrev pub IsLine : ℕ → List ℕ → Type 0
IsLine row_len pixels = (length pixels ≡ row_len) × All (λ p. p < 256) pixels

length-differences :
    (colors : ℕ) (cur pixels : List ℕ) → length (differences colors cur pixels) ≡ length pixels
length-differences colors cur [] = refl
length-differences colors cur (p ∷ pixels) =
    ap suc (length-differences colors (cur ++ p ∷ []) pixels)

length-tiff_encode :
    (row_len colors : ℕ) (rows : List (List ℕ)) (tail : List ℕ)
    → All (IsLine row_len) rows
    → length (tiff_encode colors rows tail) ≡ length tail + length rows * row_len
length-tiff_encode row_len colors [] tail h = omega arith
length-tiff_encode row_len colors (pixels ∷ rows) tail ((n, _), h) =
    let e : length (differences colors [] pixels ++ tiff_encode colors rows tail)
        ≡ length (differences colors [] pixels) + length (tiff_encode colors rows tail) =
      length-append (differences colors [] pixels) (tiff_encode colors rows tail) in
    omega (
      arith,
      e,
      length-differences colors [] pixels,
      length-tiff_encode row_len colors rows tail h,
      n,
    )

rows_of : (r q n : ℕ) → r < n → (r + q * n) / n ≡ q
rows_of r q n h =
    add-mul-div_right r q (omega arith) ∙ ap (λ k. k + q) (div-eq_of_lt h) ∙ omega arith

tiff_rows-encode :
    (row_len colors : ℕ) (rows : List (List ℕ)) (tail : List ℕ)
    → All (IsLine row_len) rows
    → tiff_rows (length rows) row_len colors (tiff_encode colors rows tail) ≡ lines_of rows tail
unfolding tiff_rows
tiff_rows-encode row_len colors [] tail h = refl
tiff_rows-encode row_len colors (pixels ∷ rows) tail ((n, small), h) =
    let line = differences colors [] pixels in
    let rest = tiff_encode colors rows tail in
    let m : length line ≡ row_len = length-differences colors [] pixels ∙ n in
    rw (take-append line rest row_len m) (
      rw (drop-append line rest row_len m) (
        rw (tiff_row-differences colors [] pixels small)
          (ap (λ t. pixels ++ t) (tiff_rows-encode row_len colors rows tail h))))

-- Undoing the TIFF predictor on 8-bit samples gives back the rows whose differences were stored and
-- leaves what stands behind the last whole row as it is.
pub tiff_predictor2-encode :
    (p : PredictorParams) (row_len : ℕ) (rows : List (List ℕ)) (tail : List ℕ)
    → p.bpc ≡ 8
    → length tail < row_len
    → All (IsLine row_len) rows
    → tiff_predictor2 (tiff_encode p.colors rows tail) p row_len ≡ lines_of rows tail
unfolding tiff_predictor2
tiff_predictor2-encode p row_len rows tail depth short h =
    let e : length (tiff_encode p.colors rows tail) / row_len ≡ length rows =
      ap (λ n. n / row_len) (length-tiff_encode row_len p.colors rows tail h)
      ∙ rows_of (length tail) (length rows) row_len short in
    rw depth (
      ap (λ n. tiff_rows n row_len p.colors (tiff_encode p.colors rows tail)) e
      ∙ tiff_rows-encode row_len p.colors rows tail h)
