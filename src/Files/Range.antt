-- ===== src/Files/Range.antt =====
-- `parseByteRange` of apps/api/src/files/files.controller.ts
use munichat.Prelude.{ℕ, ◌-◌, ◌||◌, Option, none, some, [], ◌∷◌, ltb, leb, ◌==◌, if◌then◌else◌}
use munichat.Text.{Text, lit, trim, strip_prefix, span_digits, number_of}

pub data ByteRange : Type 0 where
  ignored : ByteRange
  unsatisfiable : ByteRange
  window : ℕ → ℕ → ByteRange

-- The two groups of `/^bytes=(\d*)-(\d*)$/`.
abbrev pub after_dash : Text → Text × Text → Option (Text × Text)
after_dash raw_start (raw_end, []) = some (raw_start, raw_end)
after_dash raw_start (raw_end, c ∷ rest) = none

abbrev pub after_start : Text × Text → Option (Text × Text)
after_start (raw_start, []) = none
after_start (raw_start, c ∷ rest) =
    if c == b'-' then after_dash raw_start (span_digits rest) else none

unfoldable pub range_groups : Text → Option (Text × Text)
unfolding strip_prefix span_digits
range_groups t = elim (strip_prefix (lit "bytes=") t) [
  | none ↦ none
  | some rest ↦ after_start (span_digits rest)
]

-- `start > end || start >= size`, with `end` moved into the object.
unfoldable pub bounded : ℕ → ℕ → ℕ → ByteRange
bounded start end size =
    if ltb end start || leb size start
    then unsatisfiable
    else window start (if leb end (size - 1) then end else size - 1)

-- The window of the two groups. For an object of no bytes `size - 1` is -1 in the source; `start` is
-- not below the size then, whatever the end is.
unfoldable pub window_of : Text → Text → ℕ → ByteRange
unfolding bounded
window_of [] raw_end size = elim (number_of raw_end) [
  | none ↦ ignored
  | some suffix ↦ if suffix == 0 then ignored else bounded (size - suffix) (size - 1) size
]
window_of (c ∷ raw_start) [] size = elim (number_of (c ∷ raw_start)) [
  | none ↦ ignored
  | some start ↦ bounded start (size - 1) size
]
window_of (c ∷ raw_start) (d ∷ raw_end) size = elim (number_of (c ∷ raw_start)) [
  | none ↦ ignored
  | some start ↦ elim (number_of (d ∷ raw_end)) [
    | none ↦ ignored
    | some end ↦ bounded start end size
  ]
]

unfoldable pub parse_byte_range : Option Text → ℕ → ByteRange
unfolding window_of range_groups trim
parse_byte_range none size = ignored
parse_byte_range (some header) size = elim (range_groups (trim header)) [
  | none ↦ ignored
  | some groups ↦ window_of groups.0 groups.1 size
]
