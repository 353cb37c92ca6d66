-- ===== src/Pdf/Parser/Streams.antt =====
-- `parseStream` of parser.ts: the extent of a stream's data.
use munichat.Prelude.{
  ℕ, suc, ◌+◌, ◌&&◌, ◌||◌, Option, none, some, List, [], ◌∷◌, if◌then◌else◌, ◌==◌, length, take,
  drop, reverse,
}
use munichat.Text.{lit, starts_with}
use munichat.Pdf.Parser.Objects.{PdfObject, number, PdfDict, get}

-- `ENDSTREAM`
abbrev pub endstream : List ℕ
endstream = lit "endstream"

-- `indexOf(b, ENDSTREAM, from)`, counted from there
unfoldable pub index_of : List ℕ → List ℕ → Option ℕ
unfolding starts_with
index_of needle [] = if starts_with needle [] then some 0 else none
index_of needle (c ∷ t) =
    let later = index_of needle t in
    if starts_with needle (c ∷ t)
    then some 0
    else (elim later [ none ↦ none | some i ↦ some (suc i) ])

-- What follows the line end after `stream`.
unfoldable pub data_start : List ℕ → List ℕ
data_start [] = []
data_start (c ∷ []) = if c == 10 || c == 13 then [] else c ∷ []
data_start (c ∷ d ∷ t) =
    if c == 13 && d == 10 then t else if c == 10 || c == 13 then d ∷ t else c ∷ d ∷ t

-- `while (… CR || … LF) probe++`
unfoldable pub skip_line_ends : List ℕ → List ℕ
skip_line_ends [] = []
skip_line_ends (c ∷ t) = let rest = skip_line_ends t in if c == 13 || c == 10 then rest else c ∷ t

-- A trailing line feed and then a trailing carriage return are dropped; the data is in reverse.
abbrev drop_first : ℕ → List ℕ → List ℕ
drop_first b [] = []
drop_first b (c ∷ t) = if c == b then t else c ∷ t

unfoldable pub trim_line_end : List ℕ → List ℕ
trim_line_end data' = reverse (drop_first 13 (drop_first 10 (reverse data')))

-- The length of the data up to the next `endstream`, or of all of it.
abbrev or_length : List ℕ → Option ℕ → ℕ
or_length data' none = length data'
or_length data' (some i) = i

-- The data by the search for `endstream`.
unfoldable pub scanned : List ℕ → List ℕ
unfolding index_of trim_line_end
scanned data' = trim_line_end (take (or_length data' (index_of endstream data')) data')

-- The data by `/Length`, where `endstream` really follows it.
unfoldable pub measured : Option ℕ → List ℕ → Option (List ℕ)
unfolding skip_line_ends starts_with
measured none data' = none
measured (some n) data' =
    if starts_with endstream (skip_line_ends (drop n data')) then some (take n data') else none

-- `dict['Length']` where it is a natural number; the code's test of another number fails, as no
-- `endstream` stands at an offset that is none.
abbrev length_of : {N : Type 0} → (N → Option ℕ) → Option (PdfObject N) → Option ℕ
length_of natural (some (number n)) = natural n
length_of natural o = none

module _ {N : Type 0} (natural : N → Option ℕ) where
  -- `raw`
  unfoldable pub stream_data : PdfDict N → List ℕ → List ℕ
  unfolding measured scanned get
  stream_data d data' = elim (measured (length_of natural (get (lit "Length") d)) data') [
    | none ↦ scanned data'
    | some raw ↦ raw
  ]

  -- `parseStream`: the raw bytes, and what follows the first `endstream` after them.
  unfoldable pub parse_stream : PdfDict N → List ℕ → List ℕ × List ℕ
  unfolding stream_data data_start index_of
  parse_stream d after =
      let data' = data_start after in
      let raw = stream_data d data' in
      let following = drop (length raw) data' in
      (
        raw,
        elim (index_of endstream following) [
          | none ↦ []
          | some i ↦ drop (i + length endstream) following
        ],
      )
