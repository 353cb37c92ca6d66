-- ===== src/Pdf/Ascii85.antt =====
-- `ascii85Decode` of apps/web/src/lib/pdf/filters.ts
use munichat.Prelude.{
  ℕ, ◌+◌, ◌-◌, ◌*◌, ◌/◌, ◌%◌, ◌^◌, true, false, ◌&&◌, List, [], ◌∷◌, ◌++◌, leb, ◌==◌, if◌then◌else◌,
  take, length, is_empty, replicate,
}

-- `for (g = 0; g < 5; g++) n = n * 85 + group[g]`
abbrev pub value_from : ℕ → List ℕ → ℕ
value_from n [] = n
value_from n (d ∷ group) = value_from (n * 85 + d) group

-- `(n >>> 24) & 0xff, (n >>> 16) & 0xff, (n >>> 8) & 0xff, n & 0xff`
abbrev pub word_bytes : ℕ → List ℕ
word_bytes n = n / 2 ^ 24 % 256 ∷ n / 2 ^ 16 % 256 ∷ n / 2 ^ 8 % 256 ∷ n % 256 ∷ []

-- What is left when the data ends: the group is padded with 84 and gives one byte less than it had.
unfoldable pub last_bytes : List ℕ → List ℕ
last_bytes group =
    if is_empty group
    then []
    else take (length group - 1)
        (word_bytes (value_from 0 (group ++ replicate (5 - length group) 84)))

-- The loop over the data.
unfoldable pub ascii85_loop : List ℕ → List ℕ → List ℕ
unfolding last_bytes
ascii85_loop group [] = last_bytes group
ascii85_loop group (c ∷ data') = elim (c == 0x7e) [
  | true ↦ last_bytes group
  | false ↦ elim (leb c 0x20) [
    | true ↦ ascii85_loop group data'
    | false ↦ elim (c == 0x7a && is_empty group) [
      | true ↦ 0 ∷ 0 ∷ 0 ∷ 0 ∷ ascii85_loop group data'
      | false ↦ elim (length (group ++ (c - 0x21) ∷ []) == 5) [
        | true ↦ word_bytes (value_from 0 (group ++ (c - 0x21) ∷ [])) ++ ascii85_loop [] data'
        | false ↦ ascii85_loop (group ++ (c - 0x21) ∷ []) data'
      ]
    ]
  ]
]

-- The optional `<~` in front.
unfoldable pub skip_mark : List ℕ → List ℕ
skip_mark (a ∷ b ∷ data') = if a == 0x3c && b == 0x7e then data' else a ∷ b ∷ data'
skip_mark data' = data'

unfoldable pub ascii85_decode : List ℕ → List ℕ
unfolding ascii85_loop skip_mark
ascii85_decode data' = ascii85_loop [] (skip_mark data')
