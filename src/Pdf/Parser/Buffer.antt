-- ===== src/Pdf/Parser/Buffer.antt =====
-- `read`, `peek` and `seek` of parser.ts on their buffer, and what they are without it.
use munichat.Prelude.{
  ℕ, zero, suc, ◌+◌, ◌-◌, ◌<◌, ◌≡◌, refl, ap, List, [], ◌∷◌, ◌++◌, length, arith,
}
use munichat.Pdf.Lexer.{Numbers, Token, eof, next}

module _ (numbers : Numbers) where
  -- The parser: the tokens that it has looked at, and the lexer's position.
  pub record Parser : Type 0 where
    pub buffer : List (Token numbers.Num)
    pub position : List ℕ

  -- `read`
  unfoldable pub read : Parser → Token numbers.Num × Parser
  unfolding next
  read p = elim p.buffer [
    | t ∷ ts ↦ (t, record p { buffer = ts })
    | [] ↦ ((next numbers p.position).0, record p { position = (next numbers p.position).1 })
  ]

  -- `this.buffer.push(this.lexer.next())`
  abbrev pub push : Parser → Parser
  push p = record {
    buffer = p.buffer ++ (next numbers p.position).0 ∷ [];
    position = (next numbers p.position).1;
  }

  -- The loop of `peek`, which pushes as many tokens as are missing.
  unfoldable pub fill : ℕ → Parser → Parser
  unfolding next
  fill zero p = p
  fill (suc missing) p = fill missing (push p)

  -- `this.buffer[n]`
  abbrev nth : ℕ → List (Token numbers.Num) → Token numbers.Num
  nth n [] = eof
  nth zero (t ∷ ts) = t
  nth (suc n) (t ∷ ts) = nth n ts

  -- `peek(n)`
  unfoldable pub peek : ℕ → Parser → Token numbers.Num × Parser
  unfolding fill
  peek n p = let p' = fill (suc n - length p.buffer) p in (nth n p'.buffer, p')

  -- `seek`
  unfoldable pub seek : List ℕ → Parser
  seek s = record { buffer = []; position = s }

  -- The bytes after so many tokens, and the token that stands there.
  unfoldable pub after : ℕ → List ℕ → List ℕ
  unfolding next
  after zero s = s
  after (suc n) s = after n (next numbers s).1

  -- The parser stands at `s`: its buffer holds the tokens from there on, up to its lexer's position.
  abbrev Holds : List (Token numbers.Num) → List ℕ → List ℕ → Type 0
  Holds [] q s = q ≡ s
  Holds (t ∷ ts) q s = (t ≡ (next numbers s).0) × Holds ts q (next numbers s).1

  abbrev pub StandsAt : Parser → List ℕ → Type 0
  StandsAt p s = Holds p.buffer p.position s

  read-StandsAt :
      (p : Parser) (s : List ℕ)
      → StandsAt p s
      → ((read p).0 ≡ (next numbers s).0) × StandsAt (read p).1 (next numbers s).1
  unfolding read
  read-StandsAt p s h = go p.buffer h
    where
      go :
          (ts : List (Token numbers.Num))
          → Holds ts p.position s
          → ((read (record p { buffer = ts })).0 ≡ (next numbers s).0)
            × StandsAt (read (record p { buffer = ts })).1 (next numbers s).1
      go [] at = (ap (λ q. (next numbers q).0) at, ap (λ q. (next numbers q).1) at)
      go (t ∷ ts) at = at

  Holds-push :
      (ts : List (Token numbers.Num)) (q s : List ℕ)
      → Holds ts q s
      → Holds (ts ++ (next numbers q).0 ∷ []) (next numbers q).1 s
  Holds-push [] q s h = (ap (λ r. (next numbers r).0) h, ap (λ r. (next numbers r).1) h)
  Holds-push (t ∷ ts) q s h = (h.0, Holds-push ts q (next numbers s).1 h.1)

  length-push :
      (ts : List (Token numbers.Num)) (t : Token numbers.Num)
      → length (ts ++ t ∷ []) ≡ length ts + 1
  length-push [] t = omega arith
  length-push (u ∷ ts) t = let h = length-push ts t in omega arith

  fill-StandsAt : (k : ℕ) (p : Parser) (s : List ℕ) → StandsAt p s → StandsAt (fill k p) s
  unfolding fill
  fill-StandsAt zero p s h = h
  fill-StandsAt (suc k) p s h = fill-StandsAt k (push p) s (Holds-push p.buffer p.position s h)

  length-fill : (k : ℕ) (p : Parser) → length (fill k p).buffer ≡ length p.buffer + k
  unfolding fill
  length-fill zero p = omega arith
  length-fill (suc k) p =
      let h = length-fill k (push p) in
      let l = length-push p.buffer (next numbers p.position).0 in omega arith

  nth-Holds :
      (n : ℕ) (ts : List (Token numbers.Num)) (q s : List ℕ)
      → Holds ts q s
      → n < length ts
      → nth n ts ≡ (next numbers (after n s)).0
  unfolding after
  nth-Holds n [] q s h less = absurd (omega arith)
  nth-Holds zero (t ∷ ts) q s h less = h.0
  nth-Holds (suc n) (t ∷ ts) q s h less = nth-Holds n ts q (next numbers s).1 h.1 (omega arith)

  peek-StandsAt :
      (n : ℕ) (p : Parser) (s : List ℕ)
      → StandsAt p s
      → ((peek n p).0 ≡ (next numbers (after n s)).0) × StandsAt (peek n p).1 s
  unfolding peek
  peek-StandsAt n p s h =
      let filled = fill-StandsAt (suc n - length p.buffer) p s h in
      let long = length-fill (suc n - length p.buffer) p in
      (
        nth-Holds n (fill (suc n - length p.buffer) p).buffer
            (fill (suc n - length p.buffer) p).position s filled (omega arith),
        filled,
      )

  -- The calls that the parser makes of its buffer.
  pub data Call : Type 0 where
    reading : Call
    peeking : ℕ → Call

  -- The tokens that a sequence of calls gives, on the buffer and on the bytes alone.
  unfoldable pub with_buffer : List Call → Parser → List (Token numbers.Num)
  unfolding read peek
  with_buffer [] p = []
  with_buffer (reading ∷ cs) p = (read p).0 ∷ with_buffer cs (read p).1
  with_buffer (peeking n ∷ cs) p = (peek n p).0 ∷ with_buffer cs (peek n p).1

  unfoldable pub without_buffer : List Call → List ℕ → List (Token numbers.Num)
  unfolding after
  without_buffer [] s = []
  without_buffer (reading ∷ cs) s = (next numbers s).0 ∷ without_buffer cs (next numbers s).1
  without_buffer (peeking n ∷ cs) s = (next numbers (after n s)).0 ∷ without_buffer cs s

  calls_agree :
      (cs : List Call) (p : Parser) (s : List ℕ)
      → StandsAt p s
      → with_buffer cs p ≡ without_buffer cs s
  unfolding with_buffer without_buffer
  calls_agree [] p s h = refl
  calls_agree (reading ∷ cs) p s h =
      let (same, at) = read-StandsAt p s h in
      let rest = calls_agree cs (read p).1 (next numbers s).1 at in cc
  calls_agree (peeking n ∷ cs) p s h =
      let (same, at) = peek-StandsAt n p s h in let rest = calls_agree cs (peek n p).1 s at in cc

  -- The buffer of the parser cannot be seen: after a `seek`, any sequence of `read` and `peek` calls
  -- gives the tokens that the lexer gives at the places which the reads have reached, however the two
  -- kinds of call are mixed.
  pub with_buffer-seek :
      (calls : List Call) (s : List ℕ) → with_buffer calls (seek s) ≡ without_buffer calls s
  unfolding seek
  with_buffer-seek calls s = calls_agree calls (seek s) s refl
