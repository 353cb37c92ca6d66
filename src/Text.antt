-- ===== src/Text.antt =====
-- Strings as the program sees them: lists of UTF-16 code units, with the operations of
-- `String.prototype` that the code calls (trim, slice, startsWith, toLowerCase on ASCII).
pub mod Laws
use Prim.Native.Char.{code}
use Prim.Native.String
use Prim.Native.String.{String}
use munichat.Prelude.{
  ℕ, zero, suc, ◌+◌, ◌-◌, ◌*◌, ◌/◌, ◌%◌, Bool, true, false, ◌&&◌, ◌||◌, Option, none, some, List,
  [], ◌∷◌, ◌++◌, reverse, ltb, leb, ◌==◌, if◌then◌else◌,
}

abbrev pub Text : Type 0
Text = List ℕ

-- The code units of a literal of the source (all of them are in the basic plane).
abbrev pub lit : String → Text
lit String.[] = []
lit (String.◌∷◌ c s) = code c ∷ lit s

-- `===` on strings.
abbrev pub text_eq : Text → Text → Bool
text_eq [] [] = true
text_eq [] (d ∷ t) = false
text_eq (c ∷ s) [] = false
text_eq (c ∷ s) (d ∷ t) = c == d && text_eq s t

-- The white space of `\s` and of `trim`.
unfoldable pub is_space : ℕ → Bool
is_space c =
    leb 9 c && leb c 13
    || c == 32
    || c == 0xa0
    || c == 0x1680
    || leb 0x2000 c && leb c 0x200a
    || c == 0x2028
    || c == 0x2029
    || c == 0x202f
    || c == 0x205f
    || c == 0x3000
    || c == 0xfeff

unfoldable pub trim_start : Text → Text
unfolding is_space
trim_start [] = []
trim_start (c ∷ t) = if is_space c then trim_start t else c ∷ t

unfoldable pub trim : Text → Text
unfolding trim_start
trim t = reverse (trim_start (reverse (trim_start t)))

-- `toLowerCase` on the ASCII letters.
unfoldable pub lower : ℕ → ℕ
lower c = if leb b'A' c && leb c b'Z' then c + 32 else c

-- What follows a prefix, compared exactly.
unfoldable pub strip_prefix : Text → Text → Option Text
strip_prefix [] t = some t
strip_prefix (p ∷ ps) [] = none
strip_prefix (p ∷ ps) (c ∷ t) = if c == p then strip_prefix ps t else none

-- What follows a prefix of lower-case ASCII, compared as the regex flag `i` does.
unfoldable pub strip_prefix_ci : Text → Text → Option Text
unfolding lower
strip_prefix_ci [] t = some t
strip_prefix_ci (p ∷ ps) [] = none
strip_prefix_ci (p ∷ ps) (c ∷ t) = if lower c == p then strip_prefix_ci ps t else none

-- `\S*`, greedy.
unfoldable pub take_word : Text → Text
unfolding is_space
take_word [] = []
take_word (c ∷ t) = if is_space c then [] else c ∷ take_word t

-- A number as `String(n)` writes it.
digits : ℕ → ℕ → Text → Text
digits zero n acc = acc
digits (suc f) n acc =
    let rest = digits f (n / 10) ((n % 10 + 48) ∷ acc) in if ltb n 10 then (n + 48) ∷ acc else rest

unfoldable pub show : ℕ → Text
unfolding digits
show n = digits (suc n) n []

-- The value of a text of decimal digits; `none` where it is empty or holds anything else.
abbrev pub is_digit : ℕ → Bool
is_digit c = leb 48 c && leb c 57

unfoldable pub decimal : ℕ → Text → Option ℕ
decimal n [] = some n
decimal n (c ∷ t) = if is_digit c then decimal (n * 10 + (c - 48)) t else none

unfoldable pub number_of : Text → Option ℕ
unfolding decimal
number_of [] = none
number_of (c ∷ t) = decimal 0 (c ∷ t)

-- `\d*`, greedy, and what follows it.
unfoldable pub span_digits : Text → Text × Text
span_digits [] = ([], [])
span_digits (c ∷ t) =
    let (word, rest) = span_digits t in if is_digit c then (c ∷ word, rest) else ([], c ∷ t)

-- `split(separator)` at one code unit; the last part comes back by itself.
unfoldable pub split_on : ℕ → Text → Text × List Text
split_on sep [] = ([], [])
split_on sep (c ∷ t) =
    let (part, parts) = split_on sep t in if c == sep then ([], part ∷ parts) else (c ∷ part, parts)

-- `startsWith`
unfoldable pub starts_with : Text → Text → Bool
unfolding strip_prefix
starts_with p t = elim (strip_prefix p t) [ none ↦ false | some rest ↦ true ]

-- `includes`
unfoldable pub includes : Text → Text → Bool
unfolding starts_with
includes p [] = starts_with p []
includes p (c ∷ t) = starts_with p (c ∷ t) || includes p t
