-- ===== src/Pdf/Lexer/StringsBack.antt =====
-- Literal strings are read back as they were written.
use munichat.Prelude.{
  ℕ, ◌≡◌, refl, ap, Bool, true, false, ◌||◌, List, [], ◌∷◌, ◌++◌, if◌then◌else◌, ◌==◌, arith,
  Bool-cases, inl, inr,
}
use munichat.Pdf.Lexer.Bytes.{skip}
use munichat.Pdf.Lexer.Strings.{
  at_byte, go_on, byte_step, escape_step, literal_step, literal_loop, read_literal_string,
}
use munichat.Pdf.Lexer.Tokens.{Numbers, string, token_from, token_of, token_at, next_on, next}

abbrev is_special : ℕ → Bool
is_special c = c == 0x28 || c == 0x29 || c == 0x5c

-- The bytes of a string between its parentheses, with a backslash before each parenthesis and each
-- backslash.
unfoldable pub write_literal : List ℕ → List ℕ
write_literal [] = []
write_literal (c ∷ t) =
    let rest = write_literal t in if is_special c then 0x5c ∷ c ∷ rest else c ∷ rest

plain_step : (c : ℕ) → is_special c ≡ false → byte_step [] 1 c ≡ go_on (c ∷ []) 1 at_byte
unfolding byte_step
plain_step c h = ground (arith, h)

escaped_step : (c : ℕ) → is_special c ≡ true → escape_step 1 c ≡ go_on (c ∷ []) 1 at_byte
unfolding escape_step
escaped_step c h = ground (arith, h)

loop_of_step :
    (c d : ℕ) (t s rest : List ℕ)
    → byte_step [] 1 c ≡ go_on (d ∷ []) 1 at_byte
    → literal_loop 1 at_byte t ≡ (s, rest)
    → literal_loop 1 at_byte (c ∷ t) ≡ (d ∷ s, rest)
unfolding literal_loop literal_step
loop_of_step c d t s rest e h = rw (e, literal_loop) (rw (h, literal_loop) refl)

loop_of_escape :
    (c d : ℕ) (t s rest : List ℕ)
    → escape_step 1 c ≡ go_on (d ∷ []) 1 at_byte
    → literal_loop 1 at_byte t ≡ (s, rest)
    → literal_loop 1 at_byte (0x5c ∷ c ∷ t) ≡ (d ∷ s, rest)
unfolding literal_loop literal_step byte_step
loop_of_escape c d t s rest e h = rw (e, literal_loop) (rw (h, literal_loop) refl)

read-write_literal :
    (s rest : List ℕ) → literal_loop 1 at_byte (write_literal s ++ 0x29 ∷ rest) ≡ (s, rest)
unfolding write_literal literal_loop literal_step byte_step
read-write_literal [] rest = refl
read-write_literal (c ∷ t) rest = elim (Bool-cases (is_special c)) [
  | inl special ↦ rw special (
      loop_of_escape c c (write_literal t ++ 0x29 ∷ rest) t rest (escaped_step c special)
        (read-write_literal t rest))
  | inr plain ↦ rw plain (
      loop_of_step c c (write_literal t ++ 0x29 ∷ rest) t rest (plain_step c plain)
        (read-write_literal t rest))
]

-- A string that is written between parentheses is read back as one token with its bytes, whatever they
-- are and whatever follows, and what follows is left unread.
pub next-write_literal :
    (numbers : Numbers) (s rest : List ℕ)
    → next numbers (0x28 ∷ (write_literal s ++ 0x29 ∷ rest)) ≡ (string s, rest)
unfolding next next_on token_at token_of token_from skip read_literal_string
next-write_literal numbers s rest = ap (λ p. (string p.0, p.1)) (read-write_literal s rest)
