-- ===== src/Pdf/Lzw.antt =====
-- `lzwDecode` of apps/web/src/lib/pdf/filters.ts
use munichat.Prelude.{
  ℕ, zero, suc, ◌+◌, ◌-◌, ◌*◌, ◌/◌, ◌%◌, ◌^◌, true, false, ◌&&◌, Option, none, some, List, [], ◌∷◌,
  ◌++◌, if◌then◌else◌, ◌==◌, ltb, length, get_elem?,
}

-- `dict[i] = [i]` for the 256 bytes, then the two codes that stand for no bytes.
unfoldable pub reset_dict : ℕ → List (List ℕ) → List (List ℕ)
reset_dict zero rest = rest
reset_dict (suc i) rest = reset_dict i ((i ∷ []) ∷ rest)

abbrev pub initial_dict : List (List ℕ)
initial_dict = reset_dict 256 ([] ∷ [] ∷ [])

-- The variables of the loop.
pub record Lzw : Type 0 where
  pub dict : List (List ℕ)
  pub code_width : ℕ
  pub bit_buffer : ℕ
  pub bit_count : ℕ
  pub prev : Option (List ℕ)

-- The width after an entry was added, which the code sees as `dict.length + earlyChangeVal`.
unfoldable pub next_width : ℕ → ℕ → ℕ
next_width size width =
    if ltb 511 size && width == 9
    then 10
    else if ltb 1023 size && width == 10
    then 11
    else if ltb 2047 size && width == 11
    then 12
    else width

abbrev first_of : List ℕ → List ℕ
first_of [] = []
first_of (b ∷ bs) = b ∷ []

abbrev or_empty : Option (List ℕ) → List ℕ
or_empty none = []
or_empty (some bytes) = bytes

-- The bytes that a code stands for: those of its entry, or for a code that is not there yet the ones
-- before and their first.
unfoldable pub entry_of : Lzw → ℕ → Option (List ℕ)
entry_of s code = elim (or_empty (get_elem? s.dict code)) [
  | b ∷ bs ↦ some (b ∷ bs)
  | [] ↦ elim s.prev [ none ↦ none | some p ↦ some (p ++ first_of p) ]
]

-- The end of a turn: the dictionary has one more entry, where a code came before.
unfoldable pub after_entry : ℕ → Lzw → List ℕ → Lzw
unfolding next_width
after_entry early_change s entry = elim s.prev [
  | none ↦ record s { prev = some entry }
  | some p ↦ record s {
    dict = s.dict ++ (p ++ first_of entry) ∷ [];
    code_width = next_width (length s.dict + 1 + early_change) s.code_width;
    prev = some entry;
  }
]

-- What a code leads to: the end, or bytes to put out and the next state.
pub data Turn : Type 0 where
  finished : Turn
  decoded : List ℕ → Lzw → Turn

abbrev turn_of_entry : ℕ → Lzw → Option (List ℕ) → Turn
turn_of_entry early_change s none = finished
turn_of_entry early_change s (some entry) = decoded entry (after_entry early_change s entry)

-- A turn of the loop on a code.
unfoldable pub code_turn : ℕ → Lzw → ℕ → Turn
unfolding entry_of after_entry reset_dict
code_turn early_change s code =
    if code == 257
    then finished
    else if code == 256
    then decoded [] (record s { dict = initial_dict; code_width = 9; prev = none })
    else turn_of_entry early_change s (entry_of s code)

-- `bitBuffer = (bitBuffer << 8) | data[pos++]`, on 32 bits
unfoldable pub push_byte : Lzw → ℕ → Lzw
push_byte s b = record s {
  bit_buffer = (s.bit_buffer * 256 + b) % 2 ^ 32;
  bit_count = s.bit_count + 8;
}

-- `(bitBuffer >> bitCount) & ((1 << codeWidth) - 1)`, after the bits of the code are taken off
unfoldable pub code_of : Lzw → ℕ
code_of s = s.bit_buffer / 2 ^ (s.bit_count - s.code_width) % 2 ^ s.code_width

-- The loop, on the bytes that are left. After a code fewer than eight bits are left over, so the next
-- one takes at least one byte; without another byte it is the end.
unfoldable pub lzw_loop : ℕ → Lzw → List ℕ → List ℕ
unfolding code_turn push_byte code_of
lzw_loop early_change s [] = []
lzw_loop early_change s (b ∷ t) =
    let filled = push_byte s b in
    elim (ltb filled.bit_count filled.code_width) [
      | true ↦ lzw_loop early_change filled t
      | false ↦
          elim (code_turn early_change
            (record filled { bit_count = filled.bit_count - filled.code_width }) (code_of filled)) [
              | finished ↦ []
              | decoded out s' ↦ out ++ lzw_loop early_change s' t
            ]
    ]

-- `lzwDecode`
unfoldable pub lzw_decode : ℕ → List ℕ → List ℕ
unfolding lzw_loop reset_dict
lzw_decode early_change data' =
    lzw_loop early_change
      (record { dict = initial_dict; code_width = 9; bit_buffer = 0; bit_count = 0; prev = none })
      data'
