-- ===== src/Pdf/Lexer/Progress.antt =====
-- The lexer ends: each token takes a byte, so the fuel of `next` is enough.
use munichat.Prelude.{
  ℕ, zero, suc, ◌+◌, ◌*◌, ◌≤◌, ◌<◌, ◌≡◌, refl, ap, ◌⊎◌, inl, inr, Bool, true, false, Option, none,
  some, List, [], ◌∷◌, ◌++◌, ◌==◌, arith, length, Bool-cases, Option-cases,
}
use munichat.Pdf.Lexer.Bytes.{is_regular, is_digit, Skipped, skip_byte, skip, span}
use munichat.Pdf.Lexer.Strings.{
  Literal, at_byte, Step, closed, go_on, literal_step, literal_loop, read_literal_string, HexByte,
  ended, ignored, value, hex_byte, hex_string_loop, read_hex_string, name_escape, name_loop,
}
use munichat.Pdf.Lexer.Tokens.{
  Numbers, Token, eof, Start, open_array, close_array, open_brace, close_brace, open_angle,
  close_angle, open_paren, slash, numeric, regular, unknown, start_of, is_number_byte, token_from,
  token_of, token_at, next_on, next,
}

length-skip : (b : Bool) (t : List ℕ) → length (skip b t) ≤ length t
unfolding skip
length-skip b [] = omega arith
length-skip b (c ∷ t) = go (λ d. length-skip d t) (skip_byte b c)
  where
    go :
        ((d : Bool) → length (skip d t) ≤ length t)
        → (s : Skipped)
        → length (elim s as (λ _. List ℕ) [
          | Skipped.outside ↦ skip false t
          | Skipped.inside ↦ skip true t
          | Skipped.stop ↦ c ∷ t
        ])
          ≤ length (c ∷ t)
    go ih Skipped.outside = let h = ih false in omega arith
    go ih Skipped.inside = let h = ih true in omega arith
    go ih Skipped.stop = omega arith

length-span : (class : ℕ → Bool) (t : List ℕ) → length (span class t).1 ≤ length t
unfolding span
length-span class [] = omega arith
length-span class (c ∷ t) = elim (Bool-cases (class c)) [
  | inl holds ↦ let h = length-span class t in rw holds (omega arith)
  | inr fails ↦ rw fails (omega arith)
]

length-literal_loop :
    (depth : ℕ) (state : Literal) (t : List ℕ) → length (literal_loop depth state t).1 ≤ length t
unfolding literal_loop
length-literal_loop depth state [] = omega arith
length-literal_loop depth state (c ∷ t) =
    go (λ d s. length-literal_loop d s t) (literal_step depth state c)
  where
    go :
        ((d : ℕ) (s : Literal) → length (literal_loop d s t).1 ≤ length t)
        → (s : Step)
        → length
            (elim s as (λ _. List ℕ × List ℕ) [
              | closed out ↦ (out, t)
              | go_on out depth' state' ↦
                  let (bytes, rest) = literal_loop depth' state' t in (out ++ bytes, rest)
            ]).1
          ≤ length (c ∷ t)
    go ih (closed out) = omega arith
    go ih (go_on out depth' state') = let h = ih depth' state' in omega arith

length-hex_string_loop : (hi : Option ℕ) (t : List ℕ) → length (hex_string_loop hi t).1 ≤ length t
unfolding hex_string_loop
length-hex_string_loop none [] = omega arith
length-hex_string_loop (some hi) [] = omega arith
length-hex_string_loop none (c ∷ t) = go (λ o. length-hex_string_loop o t) (hex_byte c)
  where
    go :
        ((o : Option ℕ) → length (hex_string_loop o t).1 ≤ length t)
        → (k : HexByte)
        → length
            (elim k as (λ _. List ℕ × List ℕ) [
              | ended ↦ ([], t)
              | ignored ↦ hex_string_loop none t
              | value v ↦ hex_string_loop (some v) t
            ]).1
          ≤ length (c ∷ t)
    go ih ended = omega arith
    go ih ignored = let h = ih none in omega arith
    go ih (value v) = let h = ih (some v) in omega arith
length-hex_string_loop (some hi) (c ∷ t) = go (λ o. length-hex_string_loop o t) (hex_byte c)
  where
    go :
        ((o : Option ℕ) → length (hex_string_loop o t).1 ≤ length t)
        → (k : HexByte)
        → length
            (elim k as (λ _. List ℕ × List ℕ) [
              | ended ↦ (hi * 16 ∷ [], t)
              | ignored ↦ hex_string_loop (some hi) t
              | value v ↦
                  let (bytes, rest) = hex_string_loop none t in ((hi * 16 + v) ∷ bytes, rest)
            ]).1
          ≤ length (c ∷ t)
    go ih ended = omega arith
    go ih ignored = let h = ih (some hi) in omega arith
    go ih (value v) = let h = ih none in omega arith

length-name_loop : (t : List ℕ) → length (name_loop t).1 ≤ length t
unfolding name_loop
length-name_loop [] = omega arith
length-name_loop (c ∷ []) = ground arith
length-name_loop (c ∷ h ∷ []) =
    let rest = length-name_loop (h ∷ []) in
    elim (Bool-cases (is_regular c)) [
      | inl holds ↦ rw holds (omega arith)
      | inr fails ↦ rw fails (omega arith)
    ]
length-name_loop (c ∷ h ∷ l ∷ t) = elim (Bool-cases (is_regular c)) [
  | inr fails ↦ rw fails (omega arith)
  | inl holds ↦ elim (Option-cases (name_escape c h l)) [
    | inl plain ↦ let rest = length-name_loop (h ∷ l ∷ t) in rw holds (rw plain (omega arith))
    | inr (d, escaped) ↦ let rest = length-name_loop t in rw holds (rw escaped (omega arith))
  ]
]

length-span_first :
    (class : ℕ → Bool) (c : ℕ) (t : List ℕ)
    → class c ≡ true
    → length (span class (c ∷ t)).1 < suc (length t)
unfolding span
length-span_first class c t holds = let h = length-span class t in rw holds (omega arith)

numeric_first : (c : ℕ) → start_of c ≡ Start.numeric → is_number_byte c ≡ true
unfolding start_of is_number_byte is_digit is_regular
numeric_first c e = ground (arith, e)

regular_first : (c : ℕ) → start_of c ≡ Start.regular → is_regular c ≡ true
unfolding start_of is_digit
regular_first c e = ground (arith, e)

module _ (numbers : Numbers) where
  -- With more fuel than bytes the fuel does not run out: neither its amount nor what would be given
  -- then changes the result.
  next_on_enough :
      (x y : Token numbers.Num × List ℕ) (f g : ℕ) (bytes : List ℕ)
      → length bytes < f
      → length bytes < g
      → next_on numbers x f bytes ≡ next_on numbers y g bytes
  unfolding next_on token_at
  next_on_enough x y zero g bytes h k = absurd (omega arith)
  next_on_enough x y (suc f) zero bytes h k = absurd (omega arith)
  next_on_enough x y (suc f) (suc g) bytes h k =
      go (next_on_enough x y f g) (skip false bytes) (length-skip false bytes)
    where
      go :
          ((t : List ℕ)
            → length t < f
            → length t < g
            → next_on numbers x f t ≡ next_on numbers y g t)
          → (s : List ℕ) → length s ≤ length bytes
          → token_at numbers (next_on numbers x f) s ≡ token_at numbers (next_on numbers y g) s
      go ih [] le = refl
      go ih (c ∷ t) le = ap (token_of numbers c t) (ih t (omega arith) (omega arith))

  -- `next` satisfies the equation of the source, which calls itself for the bytes after one that begins
  -- no token: the fuel of the definition is always enough.
  pub next_unrolled :
      (bytes : List ℕ) → next numbers bytes ≡ token_at numbers (next numbers) (skip false bytes)
  unfolding next next_on token_at
  next_unrolled bytes = go (skip false bytes) (length-skip false bytes)
    where
      go :
          (s : List ℕ)
          → length s ≤ length bytes
          → token_at numbers (next_on numbers (eof, []) (length bytes)) s
            ≡ token_at numbers (next numbers) s
      go [] le = refl
      go (c ∷ t) le = ap (token_of numbers c t) (
          next_on_enough (eof, []) (eof, []) (length bytes) (suc (length t)) t (omega arith)
            (omega arith))

  -- Whether a token is the end of the input, or some bytes were read.
  abbrev pub Advances : Token numbers.Num × List ℕ → ℕ → Type 0
  Advances p n = (p ≡ (eof, [])) ⊎ (length p.1 < n)

  token_from-Advances :
      (k : Start) (c : ℕ) (t : List ℕ) (later : Token numbers.Num × List ℕ)
      → start_of c ≡ k
      → Advances later (suc (length t))
      → Advances (token_from numbers k c t later) (suc (length t))
  unfolding token_from read_hex_string read_literal_string
  token_from-Advances open_array c t later e h = inr (omega arith)
  token_from-Advances close_array c t later e h = inr (omega arith)
  token_from-Advances open_brace c t later e h = inr (omega arith)
  token_from-Advances close_brace c t later e h = inr (omega arith)
  token_from-Advances open_angle c t later e h = angle t
    where
      angle : (u : List ℕ) → Advances (token_from numbers open_angle c u later) (suc (length u))
      angle [] = inr (let r = length-hex_string_loop none [] in omega arith)
      angle (d ∷ u) = elim (Bool-cases (d == c)) [
        | inl same ↦ inr (rw (same, token_from) (omega arith))
        | inr other ↦
            inr
              (let r = length-hex_string_loop none (d ∷ u) in rw (other, token_from) (omega arith))
      ]
  token_from-Advances close_angle c t later e h = angle t h
    where
      angle :
          (u : List ℕ)
          → Advances later (suc (length u))
          → Advances (token_from numbers close_angle c u later) (suc (length u))
      angle [] g = g
      angle (d ∷ u) g = elim (Bool-cases (d == c)) [
        | inl same ↦ inr (rw (same, token_from) (omega arith))
        | inr other ↦ rw (other, token_from) g
      ]
  token_from-Advances open_paren c t later e h =
      inr (let r = length-literal_loop 1 at_byte t in omega arith)
  token_from-Advances slash c t later e h = inr (let r = length-name_loop t in omega arith)
  token_from-Advances numeric c t later e h =
      inr (length-span_first is_number_byte c t (numeric_first c e))
  token_from-Advances regular c t later e h =
      inr (length-span_first is_regular c t (regular_first c e))
  token_from-Advances unknown c t later e h = h

  next_on-Advances :
      (x : Token numbers.Num × List ℕ) (f : ℕ) (bytes : List ℕ)
      → length bytes < f
      → Advances (next_on numbers x f bytes) (length bytes)
  unfolding next_on token_at token_of
  next_on-Advances x zero bytes h = absurd (omega arith)
  next_on-Advances x (suc f) bytes h =
      go (next_on-Advances x f) (skip false bytes) (length-skip false bytes)
    where
      widened : (p : Token numbers.Num × List ℕ) (m n : ℕ) → m ≤ n → Advances p m → Advances p n
      widened p m n le (inl over) = inl over
      widened p m n le (inr less) = inr (omega arith)

      go :
          ((t : List ℕ) → length t < f → Advances (next_on numbers x f t) (length t))
          → (s : List ℕ) → length s ≤ length bytes
          → Advances (token_at numbers (next_on numbers x f) s) (length bytes)
      go ih [] le = inl refl
      go ih (c ∷ t) le =
          widened (token_of numbers c t (next_on numbers x f t)) (suc (length t)) (length bytes) le
            (token_from-Advances (start_of c) c t (next_on numbers x f t) refl (
              widened (next_on numbers x f t) (length t) (suc (length t)) (omega arith)
                (ih t (omega arith))))

  -- The lexer always ends and advances: the fuel of `next` does not run out, since what would be given
  -- then has no part in its result, and `next` either gives the end of the input with nothing left, or
  -- leaves fewer bytes than it was given.
  pub next-Advances :
      (stuck : Token numbers.Num × List ℕ) (bytes : List ℕ)
      → (next numbers bytes ≡ next_on numbers stuck (suc (length bytes)) bytes)
        × ((next numbers bytes ≡ (eof, [])) ⊎ (length (next numbers bytes).1 < length bytes))
  unfolding next
  next-Advances stuck bytes = (
    next_on_enough (eof, []) stuck (suc (length bytes)) (suc (length bytes)) bytes (omega arith)
        (omega arith),
    next_on-Advances (eof, []) (suc (length bytes)) bytes (omega arith),
  )
