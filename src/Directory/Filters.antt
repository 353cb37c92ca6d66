-- ===== src/Directory/Filters.antt =====
-- A reader of filter values after RFC 4515, and what it makes of the values that the code writes.
use munichat.Prelude.{
  ℕ, ◌-◌, ◌*◌, ◌+◌, ◌/◌, ◌%◌, ◌<◌, ltb, ◌≡◌, refl, ap, ◌∙◌, true, false, ◌&&◌, ◌||◌, Option, none,
  some, [], ◌∷◌, ◌++◌, if◌then◌else◌, ◌==◌, leb, arith, Bool-cases, inl, inr,
}
use munichat.Text.{Text}
use munichat.Directory.Names.{is_filter_special, hex_digit_of, escape_filter_value}

-- The value of a hexadecimal digit.
abbrev pub hex_value : ℕ → Option ℕ
hex_value d =
    if leb 48 d && leb d 57
    then some (d - 48)
    else if leb 97 d && leb d 102
    then some (d - 87)
    else if leb 65 d && leb d 70
    then some (d - 55)
    else none

abbrev pub prepended : ℕ → Option (Text × Text) → Option (Text × Text)
prepended c none = none
prepended c (some (t, rest)) = some (c ∷ t, rest)

-- What a code unit is inside an assertion value.
pub data Kind : Type 0 where
  closing escape forbidden plain : Kind

abbrev pub kind_of : ℕ → Kind
kind_of c =
    if c == b')'
    then closing
    else if c == b'\\'
    then escape
    else if c == b'(' || c == b'*' || c == 0
    then forbidden
    else plain

-- Before a code unit of the value, after a backslash, or after its first digit.
pub data Reading : Type 0 where
  at_unit : Reading
  at_first : Reading
  at_second : ℕ → Reading

-- The assertion value up to its closing parenthesis, and what follows it: a backslash begins the two
-- digits of a code, and an opening parenthesis, an asterisk or NUL is no part of a value.
unfoldable pub read_from : Reading → Text → Option (Text × Text)
read_from r [] = none
read_from at_unit (c ∷ t) = elim (kind_of c) [
  | closing ↦ some ([], t)
  | escape ↦ read_from at_first t
  | forbidden ↦ none
  | plain ↦ prepended c (read_from at_unit t)
]
read_from at_first (c ∷ t) = elim (hex_value c) [
  | none ↦ none
  | some high ↦ read_from (at_second high) t
]
read_from (at_second high) (c ∷ t) = elim (hex_value c) [
  | none ↦ none
  | some low ↦ prepended (high * 16 + low) (read_from at_unit t)
]

hex_value-hex_digit_of : (n : ℕ) → n < 16 → hex_value (hex_digit_of n) ≡ some n
hex_value-hex_digit_of n h = elim (Bool-cases (ltb n 10)) [
  | inl small ↦ ground arith
  | inr large ↦ ground arith
]

special_bound : (c : ℕ) → is_filter_special c ≡ true → c < 256
special_bound c h = ground arith

kind_of_plain : (c : ℕ) → is_filter_special c ≡ false → kind_of c ≡ plain
kind_of_plain c h = ground arith

by_16 : (c : ℕ) → c < 256 → c / 16 < 16
by_16 c h = omega arith

digits_of : (c : ℕ) → c / 16 * 16 + c % 16 ≡ c
digits_of c = omega arith

read_escaped :
    (d e h l : ℕ) (t v rest : Text)
    → hex_value d ≡ some h
    → hex_value e ≡ some l
    → read_from at_unit t ≡ some (v, rest)
    → read_from at_unit (b'\\' ∷ d ∷ e ∷ t) ≡ some ((h * 16 + l) ∷ v, rest)
unfolding read_from
read_escaped d e h l t v rest first second read =
    rw (first, read_from) (rw (second, read_from) (rw (read, read_from) refl))

read_plain :
    (c : ℕ) (t v rest : Text)
    → kind_of c ≡ plain
    → read_from at_unit t ≡ some (v, rest)
    → read_from at_unit (c ∷ t) ≡ some (c ∷ v, rest)
unfolding read_from
read_plain c t v rest kind read = rw (kind, read_from) (rw (read, read_from) refl)

-- A value that the code has escaped, put before the closing parenthesis of a filter, is read back as
-- it was: whatever the value is, it neither ends the filter early nor adds to it, and what follows
-- the parenthesis is untouched.
pub escape_filter_value_read :
    (value rest : Text)
    → read_from at_unit (escape_filter_value value ++ b')' ∷ rest) ≡ some (value, rest)
unfolding read_from escape_filter_value
escape_filter_value_read [] rest = refl
escape_filter_value_read (c ∷ t) rest = elim (Bool-cases (is_filter_special c)) [
  | inl special ↦ rw special (
      read_escaped (hex_digit_of (c / 16)) (hex_digit_of (c % 16)) (c / 16) (c % 16)
        (escape_filter_value t ++ b')' ∷ rest) t rest
        (hex_value-hex_digit_of (c / 16) (by_16 c (special_bound c special)))
        (hex_value-hex_digit_of (c % 16) (omega arith)) (escape_filter_value_read t rest)
      ∙ ap (λ d. some (d ∷ t, rest)) (digits_of c))
  | inr ordinary ↦ rw ordinary (
      read_plain c (escape_filter_value t ++ b')' ∷ rest) t rest (kind_of_plain c ordinary)
        (escape_filter_value_read t rest))
]
