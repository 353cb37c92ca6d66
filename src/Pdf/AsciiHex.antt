-- ===== src/Pdf/AsciiHex.antt =====
-- `asciiHexDecode` of apps/web/src/lib/pdf/filters.ts
use munichat.Prelude.{
  ℕ, ◌+◌, ◌-◌, ◌*◌, ◌/◌, ◌%◌, ◌<◌, ◌≡◌, refl, ap, ◌∙◌, Bool, true, false, ◌&&◌, Option, none, some,
  List, [], ◌∷◌, ◌++◌, arith, ltb, leb, ◌==◌, if◌then◌else◌, All,
}

-- `hexDigit`; `none` is -1.
unfoldable pub hex_digit : ℕ → Option ℕ
hex_digit c =
    if leb 0x30 c && leb c 0x39
    then some (c - 0x30)
    else if leb 0x41 c && leb c 0x46
    then some (c - 0x41 + 10)
    else if leb 0x61 c && leb c 0x66
    then some (c - 0x61 + 10)
    else none

-- An odd number of digits: the missing one is 0.
abbrev pub flush : Option ℕ → List ℕ
flush none = []
flush (some hi) = hi * 16 ∷ []

-- The loop, with the first digit of a pair that is pending.
unfoldable pub hex_loop : Option ℕ → List ℕ → List ℕ
unfolding hex_digit
hex_loop hi [] = flush hi
hex_loop hi (c ∷ data') = elim (c == 0x3e) [
  | true ↦ flush hi
  | false ↦ elim (hex_digit c) [
    | none ↦ hex_loop hi data'
    | some v ↦ elim hi [
      | none ↦ hex_loop (some v) data'
      | some h ↦ (h * 16 + v) ∷ hex_loop none data'
    ]
  ]
]

unfoldable pub ascii_hex_decode : List ℕ → List ℕ
unfolding hex_loop
ascii_hex_decode data' = hex_loop none data'

-- What an encoder may write: each byte as two digits, of either case, with bytes between that are no
-- digits and do not end the data.
abbrev pub upper_digit : ℕ → ℕ
upper_digit n = if ltb n 10 then n + 0x30 else n + 0x37

abbrev pub lower_digit : ℕ → ℕ
lower_digit n = if ltb n 10 then n + 0x30 else n + 0x57

-- A byte as it was written: its value, the case of its digits and the filler behind it.
pub record Written : Type 0 where
  pub byte : ℕ
  pub is_upper : Bool
  pub filler : List ℕ

abbrev pub digit : Bool → ℕ → ℕ
digit true n = upper_digit n
digit false n = lower_digit n

abbrev pub IsFiller : ℕ → Type 0
IsFiller c = ((c == 0x3e) ≡ false) × (hex_digit c ≡ none)

abbrev pub IsWritten : Written → Type 0
IsWritten w = (w.byte < 256) × All IsFiller w.filler

abbrev pub written : List Written → List ℕ
written [] = 0x3e ∷ []
written (w ∷ ws) =
    digit w.is_upper (w.byte / 16) ∷ digit w.is_upper (w.byte % 16) ∷ (w.filler ++ written ws)

abbrev pub bytes : List Written → List ℕ
bytes [] = []
bytes (w ∷ ws) = w.byte ∷ bytes ws

hex_digit-digit : (u : Bool) (n : ℕ) → n < 16 → hex_digit (digit u n) ≡ some n
unfolding hex_digit
hex_digit-digit true n h = ground arith
hex_digit-digit false n h = ground arith

digit-ne-end : (u : Bool) (n : ℕ) → n < 16 → (digit u n == 0x3e) ≡ false
digit-ne-end true n h = ground arith
digit-ne-end false n h = ground arith

hex_loop-filler :
    (filler rest : List ℕ)
    → All IsFiller filler
    → hex_loop none (filler ++ rest) ≡ hex_loop none rest
unfolding hex_loop
hex_loop-filler [] rest h = refl
hex_loop-filler (c ∷ filler) rest ((e, f), h) =
    rw (e, hex_loop) (rw (f, hex_digit) (hex_loop-filler filler rest h))

hex_loop-byte :
    (u : Bool) (b : ℕ) (rest : List ℕ)
    → b < 256
    → hex_loop none (digit u (b / 16) ∷ digit u (b % 16) ∷ rest) ≡ b ∷ hex_loop none rest
unfolding hex_loop
hex_loop-byte u b rest h =
    rw (digit-ne-end u (b / 16) (omega arith), hex_loop)
      (rw (hex_digit-digit u (b / 16) (omega arith)) (
        rw (digit-ne-end u (b % 16) (omega arith)) (
          rw (hex_digit-digit u (b % 16) (omega arith))
            (ap (λ n. n ∷ hex_loop none rest) (omega arith)))))

-- Decoding gives back the bytes that were written as hexadecimal digits, whatever the case of the
-- digits and whatever stands between the pairs that is neither a digit nor '>'.
pub ascii_hex_decode-written :
    (ws : List Written) → All IsWritten ws → ascii_hex_decode (written ws) ≡ bytes ws
unfolding ascii_hex_decode
ascii_hex_decode-written [] h = refl
ascii_hex_decode-written (w ∷ ws) ((small, filler), h) =
    hex_loop-byte w.is_upper w.byte (w.filler ++ written ws) small
    ∙ ap (λ t. w.byte ∷ t)
        (hex_loop-filler w.filler (written ws) filler ∙ ascii_hex_decode-written ws h)
