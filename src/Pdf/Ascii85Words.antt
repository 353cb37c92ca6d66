-- ===== src/Pdf/Ascii85Words.antt =====
-- ASCII85 data as an encoder writes it, and what the decoder makes of it.
use munichat.Prelude.{
  ℕ, ◌+◌, ◌-◌, ◌*◌, ◌/◌, ◌%◌, ◌^◌, ◌<◌, ◌≡◌, refl, ap, ◌∙◌, false, List, [], ◌∷◌, ◌++◌, arith, leb,
  ◌==◌, All, take, length, length-append,
}
use munichat.Pdf.Ascii85.{value_from, word_bytes, last_bytes, ascii85_loop, ascii85_decode}

-- The encoding: a word of four bytes as five digits, and at the end one to three bytes, padded with
-- zero bytes, as one digit more than there are bytes.
abbrev pub word : ℕ → ℕ → ℕ → ℕ → ℕ
word a b c d = a * 2 ^ 24 + b * 2 ^ 16 + c * 2 ^ 8 + d

abbrev pub digit_at : ℕ → ℕ → ℕ
digit_at n weight = n / weight % 85 + 0x21

abbrev pub five_digits : ℕ → List ℕ
five_digits n =
    digit_at n (85 ^ 4)
    ∷ digit_at n (85 ^ 3)
    ∷ digit_at n (85 ^ 2)
    ∷ digit_at n 85
    ∷ digit_at n 1
    ∷ []

unfoldable pub ascii85_encode : List ℕ → List ℕ
ascii85_encode [] = 0x7e ∷ 0x3e ∷ []
ascii85_encode (a ∷ []) = take 2 (five_digits (word a 0 0 0)) ++ 0x7e ∷ 0x3e ∷ []
ascii85_encode (a ∷ b ∷ []) = take 3 (five_digits (word a b 0 0)) ++ 0x7e ∷ 0x3e ∷ []
ascii85_encode (a ∷ b ∷ c ∷ []) = take 4 (five_digits (word a b c 0)) ++ 0x7e ∷ 0x3e ∷ []
ascii85_encode (a ∷ b ∷ c ∷ d ∷ bytes) = five_digits (word a b c d) ++ ascii85_encode bytes

-- The tests a digit passes on its way into the group.
digit-not-end : (d : ℕ) → d < 85 → ((d + 0x21) == 0x7e) ≡ false
digit-not-end d h = ground arith

digit-not-space : (d : ℕ) → d < 85 → leb (d + 0x21) 0x20 ≡ false
digit-not-space d h = ground arith

digit-not-z : (d : ℕ) → d < 85 → ((d + 0x21) == 0x7a) ≡ false
digit-not-z d h = ground arith

digit-value : (d : ℕ) → d + 0x21 - 0x21 ≡ d
digit-value d = omega arith

short_group : (n : ℕ) → n < 4 → ((n + 1) == 5) ≡ false
short_group n h = ground arith

-- One digit, in the loop.
loop-digit :
    (group rest : List ℕ) (d : ℕ)
    → d < 85
    → length group < 4
    → ascii85_loop group ((d + 0x21) ∷ rest) ≡ ascii85_loop (group ++ d ∷ []) rest
unfolding ascii85_loop
loop-digit group rest d h k =
    rw (digit-not-end d h, ascii85_loop)
      (rw (digit-not-space d h) (
        rw (digit-not-z d h) (
          rw (digit-value d) (
            rw (length-append group (d ∷ [])) (
              rw (short_group (length group) k)
                (ap (λ x. ascii85_loop (group ++ x ∷ []) rest) (digit-value d)))))))

loop-fifth :
    (a b c d e : ℕ) (rest : List ℕ)
    → e < 85
    → ascii85_loop (a ∷ b ∷ c ∷ d ∷ []) ((e + 0x21) ∷ rest)
      ≡ word_bytes (value_from 0 (a ∷ b ∷ c ∷ d ∷ e ∷ [])) ++ ascii85_loop [] rest
unfolding ascii85_loop
loop-fifth a b c d e rest h =
    rw (digit-not-end e h, ascii85_loop)
      (rw (digit-not-space e h) (rw (digit-not-z e h) (rw (digit-value e) refl)))

five-value :
    (n : ℕ)
    → n < 85 ^ 5
    → value_from 0
        (n / 85 ^ 4 % 85 ∷ n / 85 ^ 3 % 85 ∷ n / 85 ^ 2 % 85 ∷ n / 85 % 85 ∷ n / 1 % 85 ∷ [])
      ≡ n
five-value n h = omega arith

mod85 : (n : ℕ) → n % 85 < 85
mod85 n = omega arith

word-bytes :
    (a b c d : ℕ)
    → a < 256
    → b < 256
    → c < 256
    → d < 256
    → word_bytes (word a b c d) ≡ a ∷ b ∷ c ∷ d ∷ []
word-bytes a b c d ha hb hc hd =
    let p : word a b c d / 2 ^ 24 % 256 ≡ a = omega arith in
    let q : word a b c d / 2 ^ 16 % 256 ≡ b = omega arith in
    let r : word a b c d / 2 ^ 8 % 256 ≡ c = omega arith in
    let s : word a b c d % 256 ≡ d = omega arith in cc

-- The first digits of a group fill it.
loop-two :
    (n : ℕ) (rest : List ℕ)
    → ascii85_loop [] (digit_at n (85 ^ 4) ∷ digit_at n (85 ^ 3) ∷ rest)
      ≡ ascii85_loop (n / 85 ^ 4 % 85 ∷ n / 85 ^ 3 % 85 ∷ []) rest
loop-two n rest =
    loop-digit [] (digit_at n (85 ^ 3) ∷ rest) (n / 85 ^ 4 % 85) (mod85 (n / 85 ^ 4)) (omega arith)
    ∙ loop-digit (n / 85 ^ 4 % 85 ∷ []) rest (n / 85 ^ 3 % 85) (mod85 (n / 85 ^ 3)) (omega arith)

loop-three :
    (n : ℕ) (rest : List ℕ)
    → ascii85_loop [] (digit_at n (85 ^ 4) ∷ digit_at n (85 ^ 3) ∷ digit_at n (85 ^ 2) ∷ rest)
      ≡ ascii85_loop (n / 85 ^ 4 % 85 ∷ n / 85 ^ 3 % 85 ∷ n / 85 ^ 2 % 85 ∷ []) rest
loop-three n rest =
    loop-two n (digit_at n (85 ^ 2) ∷ rest)
    ∙ loop-digit (n / 85 ^ 4 % 85 ∷ n / 85 ^ 3 % 85 ∷ []) rest (n / 85 ^ 2 % 85)
        (mod85 (n / 85 ^ 2)) (omega arith)

loop-four :
    (n : ℕ) (rest : List ℕ)
    → ascii85_loop []
        (digit_at n (85 ^ 4) ∷ digit_at n (85 ^ 3) ∷ digit_at n (85 ^ 2) ∷ digit_at n 85 ∷ rest)
      ≡ ascii85_loop (n / 85 ^ 4 % 85 ∷ n / 85 ^ 3 % 85 ∷ n / 85 ^ 2 % 85 ∷ n / 85 % 85 ∷ []) rest
loop-four n rest =
    loop-three n (digit_at n 85 ∷ rest)
    ∙ loop-digit (n / 85 ^ 4 % 85 ∷ n / 85 ^ 3 % 85 ∷ n / 85 ^ 2 % 85 ∷ []) rest (n / 85 % 85)
        (mod85 (n / 85)) (omega arith)

loop-word :
    (a b c d : ℕ) (rest : List ℕ)
    → a < 256
    → b < 256
    → c < 256
    → d < 256
    → ascii85_loop [] (five_digits (word a b c d) ++ rest) ≡ a ∷ b ∷ c ∷ d ∷ ascii85_loop [] rest
loop-word a b c d rest ha hb hc hd =
    loop-four (word a b c d) (digit_at (word a b c d) 1 ∷ rest)
    ∙ loop-fifth (word a b c d / 85 ^ 4 % 85) (word a b c d / 85 ^ 3 % 85)
        (word a b c d / 85 ^ 2 % 85) (word a b c d / 85 % 85) (word a b c d / 1 % 85) rest
        (mod85 (word a b c d / 1))
    ∙ ap (λ n. word_bytes n ++ ascii85_loop [] rest) (five-value (word a b c d) (omega arith))
    ∙ ap (λ bytes. bytes ++ ascii85_loop [] rest) (word-bytes a b c d ha hb hc hd)

-- The last bytes: the digits that are missing count as 84, which changes lower bytes only.
last-one :
    (a : ℕ)
    → a < 256
    → last_bytes (word a 0 0 0 / 85 ^ 4 % 85 ∷ word a 0 0 0 / 85 ^ 3 % 85 ∷ []) ≡ a ∷ []
unfolding last_bytes
last-one a ha = ap (λ x. x ∷ []) (omega arith)

last-two :
    (a b : ℕ)
    → a < 256
    → b < 256
    → last_bytes
        (word a b 0 0 / 85 ^ 4 % 85 ∷ word a b 0 0 / 85 ^ 3 % 85 ∷ word a b 0 0 / 85 ^ 2 % 85 ∷ [])
      ≡ a ∷ b ∷ []
unfolding last_bytes
last-two a b ha hb =
    let p : value_from 0 (
            word a b 0 0 / 85 ^ 4 % 85
            ∷ word a b 0 0 / 85 ^ 3 % 85
            ∷ word a b 0 0 / 85 ^ 2 % 85
            ∷ 84
            ∷ 84
            ∷ [])
          / 2 ^ 24
          % 256
        ≡ a =
      omega arith in
    let q : value_from 0 (
            word a b 0 0 / 85 ^ 4 % 85
            ∷ word a b 0 0 / 85 ^ 3 % 85
            ∷ word a b 0 0 / 85 ^ 2 % 85
            ∷ 84
            ∷ 84
            ∷ [])
          / 2 ^ 16
          % 256
        ≡ b =
      omega arith in
    cc

last-three :
    (a b c : ℕ)
    → a < 256
    → b < 256
    → c < 256
    → last_bytes (
        word a b c 0 / 85 ^ 4 % 85
        ∷ word a b c 0 / 85 ^ 3 % 85
        ∷ word a b c 0 / 85 ^ 2 % 85
        ∷ word a b c 0 / 85 % 85
        ∷ [])
      ≡ a ∷ b ∷ c ∷ []
unfolding last_bytes
last-three a b c ha hb hc =
    let p : value_from 0 (
            word a b c 0 / 85 ^ 4 % 85
            ∷ word a b c 0 / 85 ^ 3 % 85
            ∷ word a b c 0 / 85 ^ 2 % 85
            ∷ word a b c 0 / 85 % 85
            ∷ 84
            ∷ [])
          / 2 ^ 24
          % 256
        ≡ a =
      omega arith in
    let q : value_from 0 (
            word a b c 0 / 85 ^ 4 % 85
            ∷ word a b c 0 / 85 ^ 3 % 85
            ∷ word a b c 0 / 85 ^ 2 % 85
            ∷ word a b c 0 / 85 % 85
            ∷ 84
            ∷ [])
          / 2 ^ 16
          % 256
        ≡ b =
      omega arith in
    let r : value_from 0 (
            word a b c 0 / 85 ^ 4 % 85
            ∷ word a b c 0 / 85 ^ 3 % 85
            ∷ word a b c 0 / 85 ^ 2 % 85
            ∷ word a b c 0 / 85 % 85
            ∷ 84
            ∷ [])
          / 2 ^ 8
          % 256
        ≡ c =
      omega arith in
    cc

loop-end : (group : List ℕ) → ascii85_loop group (0x7e ∷ 0x3e ∷ []) ≡ last_bytes group
unfolding ascii85_loop
loop-end group = refl

decode_loop :
    (bytes : List ℕ) → All (λ b. b < 256) bytes → ascii85_loop [] (ascii85_encode bytes) ≡ bytes
unfolding ascii85_encode last_bytes
decode_loop [] h = loop-end []
decode_loop (a ∷ []) (ha, _) =
    loop-two (word a 0 0 0) (0x7e ∷ 0x3e ∷ []) ∙ loop-end _ ∙ last-one a ha
decode_loop (a ∷ b ∷ []) (ha, (hb, _)) =
    loop-three (word a b 0 0) (0x7e ∷ 0x3e ∷ []) ∙ loop-end _ ∙ last-two a b ha hb
decode_loop (a ∷ b ∷ c ∷ []) (ha, (hb, (hc, _))) =
    loop-four (word a b c 0) (0x7e ∷ 0x3e ∷ []) ∙ loop-end _ ∙ last-three a b c ha hb hc
decode_loop (a ∷ b ∷ c ∷ d ∷ bytes) (ha, (hb, (hc, (hd, h)))) =
    loop-word a b c d (ascii85_encode bytes) ha hb hc hd
    ∙ ap (λ t. a ∷ b ∷ c ∷ d ∷ t) (decode_loop bytes h)

-- Decoding an Ascii85 encoding that stands behind the mark "<~" gives back the bytes, the last group
-- of one to three bytes included.
pub ascii85_decode-encode :
    (bytes : List ℕ)
    → All (λ b. b < 256) bytes
    → ascii85_decode (0x3c ∷ 0x7e ∷ ascii85_encode bytes) ≡ bytes
unfolding ascii85_decode
ascii85_decode-encode bytes h = decode_loop bytes h
