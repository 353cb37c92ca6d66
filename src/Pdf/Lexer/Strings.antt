-- ===== src/Pdf/Lexer/Strings.antt =====
-- `readLiteralString`, `readHexString` and `readName`.
use munichat.Prelude.{
  ℕ, zero, suc, ◌-◌, ◌+◌, ◌*◌, ◌%◌, Bool, ◌&&◌, Option, none, some, List, [], ◌∷◌, ◌++◌,
  if◌then◌else◌, ◌==◌, leb,
}
use munichat.Pdf.Lexer.Bytes.{is_regular, hex_val}

-- Where the loop of `readLiteralString` stands: at a byte of the string, after a backslash, after
-- a backslash and a CR, or in an octal escape with the value so far and the digits that may follow.
pub data Literal : Type 0 where
  at_byte : Literal
  escape : Literal
  after_cr : Literal
  octal : ℕ → ℕ → Literal

-- What a byte leads to: the end of the string, with the bytes that are still to be put out, or the
-- bytes to put out, the depth of parentheses and the next state.
pub data Step : Type 0 where
  closed : List ℕ → Step
  go_on : List ℕ → ℕ → Literal → Step

unfoldable pub byte_step : List ℕ → ℕ → ℕ → Step
byte_step out depth c =
    if c == 0x5c
    then go_on out depth escape
    else if c == 0x28
    then go_on (out ++ c ∷ []) (depth + 1) at_byte
    else if c == 0x29
    then if depth - 1 == 0 then closed out else go_on (out ++ c ∷ []) (depth - 1) at_byte
    else go_on (out ++ c ∷ []) depth at_byte

abbrev pub is_octal : ℕ → Bool
is_octal e = leb 0x30 e && leb e 0x37

-- The `switch` on the byte after a backslash.
unfoldable pub escape_step : ℕ → ℕ → Step
escape_step depth e =
    if e == b'n'
    then go_on (10 ∷ []) depth at_byte
    else if e == b'r'
    then go_on (13 ∷ []) depth at_byte
    else if e == b't'
    then go_on (9 ∷ []) depth at_byte
    else if e == b'b'
    then go_on (8 ∷ []) depth at_byte
    else if e == b'f'
    then go_on (12 ∷ []) depth at_byte
    else if e == 13
    then go_on [] depth after_cr
    else if e == 10
    then go_on [] depth at_byte
    else if is_octal e
    then go_on [] depth (octal (e - 0x30) 2)
    else go_on (e ∷ []) depth at_byte

-- A digit of an octal escape, of which at most three are read.
unfoldable pub octal_step : ℕ → ℕ → ℕ → ℕ → Step
unfolding byte_step
octal_step depth val zero c = byte_step (val % 256 ∷ []) depth c
octal_step depth val (suc zero) c =
    if is_octal c
    then go_on ((val * 8 + (c - 0x30)) % 256 ∷ []) depth at_byte
    else byte_step (val % 256 ∷ []) depth c
octal_step depth val (suc (suc more)) c =
    if is_octal c
    then go_on [] depth (octal (val * 8 + (c - 0x30)) (suc more))
    else byte_step (val % 256 ∷ []) depth c

unfoldable pub literal_step : ℕ → Literal → ℕ → Step
unfolding byte_step escape_step octal_step
literal_step depth at_byte c = byte_step [] depth c
literal_step depth escape c = escape_step depth c
literal_step depth after_cr c = if c == 10 then go_on [] depth at_byte else byte_step [] depth c
literal_step depth (octal val more) c = octal_step depth val more c

-- What the end of the input leaves to put out.
abbrev pending : Literal → List ℕ
pending at_byte = []
pending escape = []
pending after_cr = []
pending (octal val more) = val % 256 ∷ []

-- The loop of `readLiteralString`, from a depth and a state on: the bytes of the string, and what
-- follows its end.
unfoldable pub literal_loop : ℕ → Literal → List ℕ → List ℕ × List ℕ
unfolding literal_step
literal_loop depth state [] = (pending state, [])
literal_loop depth state (c ∷ t) = elim (literal_step depth state c) [
  | closed out ↦ (out, t)
  | go_on out depth' state' ↦
      let (bytes, rest) = literal_loop depth' state' t in (out ++ bytes, rest)
]

-- `readLiteralString`, after the parenthesis
unfoldable pub read_literal_string : List ℕ → List ℕ × List ℕ
unfolding literal_loop
read_literal_string t = literal_loop 1 at_byte t

-- What a byte is in a hexadecimal string.
pub data HexByte : Type 0 where
  ended : HexByte
  ignored : HexByte
  value : ℕ → HexByte

unfoldable pub hex_byte : ℕ → HexByte
unfolding hex_val
hex_byte c = if c == 0x3e then ended else (elim (hex_val c) [ none ↦ ignored | some v ↦ value v ])

-- The loop of `readHexString` with `hi`; -1 is `none`. A digit without a partner stands for a
-- multiple of 16.
unfoldable pub hex_string_loop : Option ℕ → List ℕ → List ℕ × List ℕ
unfolding hex_byte
hex_string_loop none [] = ([], [])
hex_string_loop (some hi) [] = (hi * 16 ∷ [], [])
hex_string_loop none (c ∷ t) = elim (hex_byte c) [
  | ended ↦ ([], t)
  | ignored ↦ hex_string_loop none t
  | value v ↦ hex_string_loop (some v) t
]
hex_string_loop (some hi) (c ∷ t) = elim (hex_byte c) [
  | ended ↦ (hi * 16 ∷ [], t)
  | ignored ↦ hex_string_loop (some hi) t
  | value v ↦ let (bytes, rest) = hex_string_loop none t in ((hi * 16 + v) ∷ bytes, rest)
]

-- `readHexString`, after the `<`
unfoldable pub read_hex_string : List ℕ → List ℕ × List ℕ
unfolding hex_string_loop
read_hex_string t = hex_string_loop none t

abbrev pair_of : Option ℕ → Option ℕ → Option ℕ
pair_of (some hi) (some lo) = some (hi * 16 + lo)
pair_of (some hi) none = none
pair_of none lo = none

-- The byte that a name's `#XX` stands for, with the two bytes after the first.
unfoldable pub name_escape : ℕ → ℕ → ℕ → Option ℕ
unfolding hex_val
name_escape c h l = if c == 0x23 then pair_of (hex_val h) (hex_val l) else none

-- The loop of `readName`: the name, and what follows it.
unfoldable pub name_loop : List ℕ → List ℕ × List ℕ
unfolding name_escape is_regular
name_loop [] = ([], [])
name_loop (c ∷ []) = if is_regular c then (c ∷ [], []) else ([], c ∷ [])
name_loop (c ∷ h ∷ []) =
    let (name, rest) = name_loop (h ∷ []) in
    if is_regular c then (c ∷ name, rest) else ([], c ∷ h ∷ [])
name_loop (c ∷ h ∷ l ∷ t) =
    if is_regular c
    then (elim (name_escape c h l) [
      | some d ↦ let (name, rest) = name_loop t in (d ∷ name, rest)
      | none ↦ let (name, rest) = name_loop (h ∷ l ∷ t) in (c ∷ name, rest)
    ])
    else ([], c ∷ h ∷ l ∷ t)
