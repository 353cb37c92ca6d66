-- ===== src/Pdf/Lexer/Bytes.antt =====
-- The classes of bytes, and what the lexer skips.
use munichat.Prelude.{
  ℕ, ◌-◌, ◌+◌, Bool, true, false, not, ◌&&◌, ◌||◌, Option, none, some, List, [], ◌∷◌, if◌then◌else◌,
  ◌==◌, leb,
}

-- `isWhitespace`
unfoldable pub is_whitespace : ℕ → Bool
is_whitespace b = b == 0 || b == 9 || b == 10 || b == 12 || b == 13 || b == 32

-- `isDelimiter`
unfoldable pub is_delimiter : ℕ → Bool
is_delimiter b =
    b == 0x28
    || b == 0x29
    || b == 0x3c
    || b == 0x3e
    || b == 0x5b
    || b == 0x5d
    || b == 0x7b
    || b == 0x7d
    || b == 0x2f
    || b == 0x25

-- `isRegular`
unfoldable pub is_regular : ℕ → Bool
unfolding is_whitespace is_delimiter
is_regular b = not (is_whitespace b) && not (is_delimiter b)

-- `isDigit`
unfoldable pub is_digit : ℕ → Bool
is_digit b = leb 0x30 b && leb b 0x39

-- `hexVal`; -1 is `none`.
unfoldable pub hex_val : ℕ → Option ℕ
hex_val b =
    if leb 0x30 b && leb b 0x39
    then some (b - 0x30)
    else if leb 0x41 b && leb b 0x46
    then some (b - 0x41 + 10)
    else if leb 0x61 b && leb b 0x66
    then some (b - 0x61 + 10)
    else none

-- What `skipWhitespaceAndComments` makes of a byte: inside a comment it looks for the end of the line,
-- which is white space.
pub data Skipped : Type 0 where
  outside inside stop : Skipped

unfoldable pub skip_byte : Bool → ℕ → Skipped
unfolding is_whitespace
skip_byte false b =
    if is_whitespace b then Skipped.outside else if b == 0x25 then Skipped.inside else Skipped.stop
skip_byte true b = if b == 10 || b == 13 then Skipped.outside else Skipped.inside

-- `skipWhitespaceAndComments`; the flag says whether a comment has begun.
unfoldable pub skip : Bool → List ℕ → List ℕ
unfolding skip_byte
skip in_comment [] = []
skip in_comment (b ∷ t) = elim (skip_byte in_comment b) [
  | Skipped.outside ↦ skip false t
  | Skipped.inside ↦ skip true t
  | Skipped.stop ↦ b ∷ t
]

-- The longest prefix of bytes of a class, and what follows it.
unfoldable pub span : (ℕ → Bool) → List ℕ → List ℕ × List ℕ
span class [] = ([], [])
span class (b ∷ t) =
    let (word, rest) = span class t in if class b then (b ∷ word, rest) else ([], b ∷ t)
