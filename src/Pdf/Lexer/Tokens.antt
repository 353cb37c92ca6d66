-- ===== src/Pdf/Lexer/Tokens.antt =====
-- `Lexer.next`.
use munichat.Prelude.{
  ℕ, zero, suc, Bool, false, ◌||◌, Option, none, some, List, [], ◌∷◌, if◌then◌else◌, ◌==◌, length,
}
use munichat.Pdf.Lexer.Bytes.{is_regular, is_digit, skip, span}
use munichat.Pdf.Lexer.Strings.{read_literal_string, read_hex_string, name_loop}

-- The numbers of the platform: `parseFloat`, where NaN is `none`, and the number 0.
pub record Numbers : Type 1 where
  pub Num : Type 0
  pub parse_float : List ℕ → Option Num
  pub zero_num : Num
  -- a number that is a natural one
  pub natural : Num → Option ℕ

-- `Token` without its offsets
pub data Token (N : Type 0) : Type 0 where
  number : N → Token N
  name : List ℕ → Token N
  string : List ℕ → Token N
  dict_open : Token N
  dict_close : Token N
  array_open : Token N
  array_close : Token N
  brace_open : Token N
  brace_close : Token N
  keyword : List ℕ → Token N
  eof : Token N

-- The bytes that `readNumber` takes: digits, signs, full stops and exponents.
unfoldable pub is_number_byte : ℕ → Bool
unfolding is_digit
is_number_byte c = is_digit c || c == 0x2b || c == 0x2d || c == 0x2e || c == 0x45 || c == 0x65

abbrev starts_number : ℕ → Bool
starts_number c = is_digit c || c == 0x2b || c == 0x2d || c == 0x2e

-- The byte that a token begins with, as the `switch` of `next` tells them apart.
pub data Start : Type 0 where
  open_array close_array open_brace close_brace open_angle close_angle : Start
  open_paren slash numeric regular unknown : Start

unfoldable pub start_of : ℕ → Start
unfolding is_digit is_regular
start_of c =
    if c == 0x5b
    then open_array
    else if c == 0x5d
    then close_array
    else if c == 0x7b
    then open_brace
    else if c == 0x7d
    then close_brace
    else if c == 0x3c
    then open_angle
    else if c == 0x3e
    then close_angle
    else if c == 0x28
    then open_paren
    else if c == 0x2f
    then slash
    else if starts_number c
    then numeric
    else if is_regular c
    then regular
    else unknown

-- The byte after an angle bracket is another one of it.
abbrev pub doubled : ℕ → List ℕ → Option (List ℕ)
doubled c [] = none
doubled c (d ∷ t) = if d == c then some t else none

module _ (numbers : Numbers) where
  -- `parseFloat(s)`, and 0 for NaN
  unfoldable pub number_of_text : List ℕ → numbers.Num
  number_of_text s = elim (numbers.parse_float s) [ none ↦ numbers.zero_num | some n ↦ n ]

  -- The token that begins with a byte, from that byte and those after it; `later` is the token after
  -- the byte, where it begins none.
  unfoldable pub token_from :
      Start → ℕ → List ℕ → Token numbers.Num × List ℕ → Token numbers.Num × List ℕ
  unfolding is_number_byte number_of_text span read_hex_string read_literal_string name_loop
  token_from open_array c t later = (array_open, t)
  token_from close_array c t later = (array_close, t)
  token_from open_brace c t later = (brace_open, t)
  token_from close_brace c t later = (brace_close, t)
  token_from open_angle c t later = elim (doubled c t) [
    | some rest ↦ (dict_open, rest)
    | none ↦ let (bytes, rest) = read_hex_string t in (string bytes, rest)
  ]
  token_from close_angle c t later = elim (doubled c t) [
    | some rest ↦ (dict_close, rest)
    | none ↦ later
  ]
  token_from open_paren c t later =
      let (bytes, rest) = read_literal_string t in (string bytes, rest)
  token_from slash c t later = let (n, rest) = name_loop t in (name n, rest)
  token_from numeric c t later =
      let (s, rest) = span is_number_byte (c ∷ t) in (number (number_of_text s), rest)
  token_from regular c t later = let (s, rest) = span is_regular (c ∷ t) in (keyword s, rest)
  token_from unknown c t later = later

  unfoldable pub token_of : ℕ → List ℕ → Token numbers.Num × List ℕ → Token numbers.Num × List ℕ
  unfolding start_of token_from
  token_of c t later = token_from (start_of c) c t later

  -- `next` from the first byte that is not skipped on, with `next` for what follows it.
  unfoldable pub token_at :
      (List ℕ → Token numbers.Num × List ℕ) → List ℕ → Token numbers.Num × List ℕ
  unfolding token_of
  token_at again [] = (eof, [])
  token_at again (c ∷ t) = token_of c t (again t)

  -- `next`, on fuel for the bytes that begin no token, and with what is given where the fuel runs out.
  unfoldable pub next_on : Token numbers.Num × List ℕ → ℕ → List ℕ → Token numbers.Num × List ℕ
  unfolding token_at skip
  next_on stuck zero bytes = stuck
  next_on stuck (suc fuel) bytes = token_at (next_on stuck fuel) (skip false bytes)

  -- `next`: the fuel never runs out.
  unfoldable pub next : List ℕ → Token numbers.Num × List ℕ
  unfolding next_on
  next bytes = next_on (eof, []) (suc (length bytes)) bytes
