-- ===== src/Pdf/Parser/Total.antt =====
-- The parser ends: the fuel of `parseObject` and of its loops is enough for any bytes.
use munichat.Prelude.{
  ℕ, zero, suc, ◌+◌, ◌≤◌, ◌<◌, ◌≡◌, refl, sym, ap, ◌∙◌, subst, inl, inr, Bool, true, false, Option,
  none, some, List, [], ◌∷◌, arith, length, drop, Bool-cases, Option-cases,
}
use munichat.Pdf.Lexer.{eof, Numbers, Token, next}
use munichat.Pdf.Lexer.Progress.{next-Advances}
use munichat.Pdf.Parser.Objects.{PdfItems, PdfDict, item, set}
use munichat.Pdf.Parser.Streams.{endstream, index_of, data_start, stream_data, parse_stream}
use munichat.Pdf.Parser.Descent.{
  Object, Parsed, ref_of, maybe_ref, then_items, items_of, parse_items, then_entries, entries_of,
  parse_entries, is_stream_keyword, dict_or_stream, array_of, dict_of_entries, object_of,
  parse_object_on, parse_object,
}

length-drop_le : (n : ℕ) (t : List ℕ) → length (drop n t) ≤ length t
length-drop_le zero t = omega arith
length-drop_le (suc n) [] = omega arith
length-drop_le (suc n) (c ∷ t) = let h = length-drop_le n t in omega arith

length-data_start : (t : List ℕ) → length (data_start t) ≤ length t
unfolding data_start
length-data_start [] = omega arith
length-data_start (c ∷ []) = ground arith
length-data_start (c ∷ d ∷ t) = ground arith

module _ {N : Type 0} (natural : N → Option ℕ) where
  length-parse_stream :
      (d : PdfDict N) (t : List ℕ) → length (parse_stream natural d t).1 ≤ length t
  unfolding parse_stream
  length-parse_stream d t = go (index_of endstream following)
    where
      following : List ℕ
      following = drop (length (stream_data natural d (data_start t))) (data_start t)

      le : length following ≤ length t
      le =
          let h = length-drop_le (length (stream_data natural d (data_start t))) (data_start t) in
          let k = length-data_start t in omega arith

      go :
          (o : Option ℕ)
          → length (elim o as (λ _. List ℕ) [
            | none ↦ []
            | some i ↦ drop (i + length endstream) following
          ])
            ≤ length t
      go none = omega arith
      go (some i) = let h = length-drop_le (i + length endstream) following in omega (arith, le)

module _ (numbers : Numbers) where
  -- A parser returned, and left at most so many bytes.
  abbrev pub Returns : {A : Type 0} → Parsed numbers A → ℕ → Type 0
  Returns {A} p n = (a : A) × (rest : List ℕ) × (p ≡ some (a, rest)) × (length rest ≤ n)

  abbrev is_eof : Token numbers.Num → Bool
  is_eof Token.eof = true
  is_eof t = false

  next_less :
      (s : List ℕ) → is_eof (next numbers s).0 ≡ false → length (next numbers s).1 < length s
  next_less s more = elim ((next-Advances numbers (eof, []) s).1) [
    | inl over ↦ absurd (cc (ap (λ p. is_eof (p.0)) (sym over) ∙ more))
    | inr less ↦ less
  ]

  next_le : (s : List ℕ) → length (next numbers s).1 ≤ length s
  next_le s = elim ((next-Advances numbers (eof, []) s).1) [
    | inl over ↦
        subst (λ (p : Token numbers.Num × List ℕ). length p.1 ≤ length s) (sym over) (omega arith)
    | inr less ↦ omega arith
  ]

  -- `parseObject` at bytes of at most this number.
  abbrev AllReturn : (List ℕ → Parsed numbers (Object numbers)) → ℕ → Type 0
  AllReturn parse n = (u : List ℕ) → length u ≤ n → Returns (parse u) (length (next numbers u).1)

  then_items-Returns :
      (again : List ℕ → Parsed numbers (PdfItems numbers.Num)) (p : Parsed numbers (Object numbers))
      (m n : ℕ)
      → Returns p m
      → m < n
      → ((u : List ℕ) → length u < n → Returns (again u) (length u))
      → Returns (then_items numbers again p) n
  then_items-Returns again p m n (o, rest, e, le) less loop =
      let (os, rest', e', le') = loop rest (omega arith) in
      (item o os, rest', rw e (rw e' refl), omega arith)

  items_of-Returns :
      (parse : List ℕ → Parsed numbers (Object numbers))
      (again : List ℕ → Parsed numbers (PdfItems numbers.Num)) (t : Token numbers.Num)
      (s rest : List ℕ)
      → (is_eof t ≡ false → length rest < length s)
      → length rest ≤ length s
      → Returns (parse s) (length rest)
      → ((u : List ℕ) → length u < length s → Returns (again u) (length u))
      → Returns (items_of numbers parse again t s rest) (length s)
  unfolding items_of
  items_of-Returns parse again Token.array_close s rest h le p loop = (_, rest, refl, le)
  items_of-Returns parse again Token.eof s rest h le p loop = (_, s, refl, omega arith)
  items_of-Returns parse again (Token.number n) s rest h le p loop =
      then_items-Returns again (parse s) (length rest) (length s) p (h refl) loop
  items_of-Returns parse again (Token.name k) s rest h le p loop =
      then_items-Returns again (parse s) (length rest) (length s) p (h refl) loop
  items_of-Returns parse again (Token.string bs) s rest h le p loop =
      then_items-Returns again (parse s) (length rest) (length s) p (h refl) loop
  items_of-Returns parse again Token.dict_open s rest h le p loop =
      then_items-Returns again (parse s) (length rest) (length s) p (h refl) loop
  items_of-Returns parse again Token.dict_close s rest h le p loop =
      then_items-Returns again (parse s) (length rest) (length s) p (h refl) loop
  items_of-Returns parse again Token.array_open s rest h le p loop =
      then_items-Returns again (parse s) (length rest) (length s) p (h refl) loop
  items_of-Returns parse again Token.brace_open s rest h le p loop =
      then_items-Returns again (parse s) (length rest) (length s) p (h refl) loop
  items_of-Returns parse again Token.brace_close s rest h le p loop =
      then_items-Returns again (parse s) (length rest) (length s) p (h refl) loop
  items_of-Returns parse again (Token.keyword k) s rest h le p loop =
      then_items-Returns again (parse s) (length rest) (length s) p (h refl) loop

  parse_items-Returns :
      (parse : List ℕ → Parsed numbers (Object numbers)) (fuel : ℕ) (s : List ℕ)
      → length s < fuel
      → AllReturn parse (length s)
      → Returns (parse_items numbers parse fuel s) (length s)
  unfolding parse_items
  parse_items-Returns parse zero s h all_return = absurd (omega arith)
  parse_items-Returns parse (suc fuel) s h all_return =
      items_of-Returns parse (parse_items numbers parse fuel) (next numbers s).0 s
        (next numbers s).1 (next_less s) (next_le s) (all_return s (omega arith))
        (λ u less.
          parse_items-Returns parse fuel u (omega arith) (λ v le. all_return v (omega arith)))

  then_entries-Returns :
      (again : PdfDict numbers.Num → List ℕ → Parsed numbers (PdfDict numbers.Num)) (key : List ℕ)
      (d : PdfDict numbers.Num) (p : Parsed numbers (Object numbers)) (m n : ℕ)
      → Returns p m
      → m < n
      → ((d : PdfDict numbers.Num) (u : List ℕ) → length u < n → Returns (again d u) (length u))
      → Returns (then_entries numbers again key d p) n
  then_entries-Returns again key d p m n (o, rest, e, le) less loop =
      let (d', rest', e', le') = loop (set key o d) rest (omega arith) in
      (d', rest', rw e e', omega arith)

  again-Returns :
      (p : Parsed numbers (PdfDict numbers.Num)) (m n : ℕ) → Returns p m → m ≤ n → Returns p n
  again-Returns p m n (d, rest, e, le) le' = (d, rest, e, omega arith)

  entries_of-Returns :
      (parse : List ℕ → Parsed numbers (Object numbers))
      (again : PdfDict numbers.Num → List ℕ → Parsed numbers (PdfDict numbers.Num))
      (t : Token numbers.Num) (d : PdfDict numbers.Num) (rest : List ℕ) (n : ℕ)
      → (is_eof t ≡ false → length rest < n)
      → length rest ≤ n
      → Returns (parse rest) (length (next numbers rest).1)
      → ((d : PdfDict numbers.Num) (u : List ℕ) → length u < n → Returns (again d u) (length u))
      → Returns (entries_of numbers parse again t d rest) n
  unfolding entries_of
  entries_of-Returns parse again Token.dict_close d rest n h le p loop = (d, rest, refl, le)
  entries_of-Returns parse again Token.eof d rest n h le p loop = (d, rest, refl, le)
  entries_of-Returns parse again (Token.name key) d rest n h le p loop =
      let less = h refl in
      let read = next_le rest in
      then_entries-Returns again key d (parse rest) (length (next numbers rest).1) n p (omega arith)
        loop
  entries_of-Returns parse again (Token.number k) d rest n h le p loop =
      again-Returns (again d rest) (length rest) n (loop d rest (h refl)) le
  entries_of-Returns parse again (Token.string bs) d rest n h le p loop =
      again-Returns (again d rest) (length rest) n (loop d rest (h refl)) le
  entries_of-Returns parse again Token.dict_open d rest n h le p loop =
      again-Returns (again d rest) (length rest) n (loop d rest (h refl)) le
  entries_of-Returns parse again Token.array_open d rest n h le p loop =
      again-Returns (again d rest) (length rest) n (loop d rest (h refl)) le
  entries_of-Returns parse again Token.array_close d rest n h le p loop =
      again-Returns (again d rest) (length rest) n (loop d rest (h refl)) le
  entries_of-Returns parse again Token.brace_open d rest n h le p loop =
      again-Returns (again d rest) (length rest) n (loop d rest (h refl)) le
  entries_of-Returns parse again Token.brace_close d rest n h le p loop =
      again-Returns (again d rest) (length rest) n (loop d rest (h refl)) le
  entries_of-Returns parse again (Token.keyword k) d rest n h le p loop =
      again-Returns (again d rest) (length rest) n (loop d rest (h refl)) le

  parse_entries-Returns :
      (parse : List ℕ → Parsed numbers (Object numbers)) (fuel : ℕ) (d : PdfDict numbers.Num)
      (s : List ℕ)
      → length s < fuel
      → AllReturn parse (length s)
      → Returns (parse_entries numbers parse fuel d s) (length s)
  unfolding parse_entries
  parse_entries-Returns parse zero d s h all_return = absurd (omega arith)
  parse_entries-Returns parse (suc fuel) d s h all_return =
      entries_of-Returns parse (parse_entries numbers parse fuel) (next numbers s).0 d
        (next numbers s).1 (length s) (next_less s) (next_le s)
        (all_return (next numbers s).1 (next_le s))
        (λ d' u less.
          parse_entries-Returns parse fuel d' u (omega arith) (λ v le. all_return v (omega arith)))

  length-dict_or_stream :
      (d : PdfDict numbers.Num) (s : List ℕ) → length (dict_or_stream numbers d s).1 ≤ length s
  unfolding dict_or_stream
  length-dict_or_stream d s = elim (Bool-cases (is_stream_keyword numbers (next numbers s).0)) [
    | inl holds ↦
        let h = length-parse_stream numbers.natural d (next numbers s).1 in
        let k = next_le s in rw (holds, dict_or_stream) (omega arith)
    | inr fails ↦ rw (fails, dict_or_stream) (omega arith)
  ]

  length-maybe_ref : (n : numbers.Num) (s : List ℕ) → length (maybe_ref numbers n s).1 ≤ length s
  unfolding maybe_ref
  length-maybe_ref n s =
      let h = next_le s in
      let k = next_le (next numbers s).1 in
      elim (Option-cases (ref_of numbers (next numbers s).0 (next numbers (next numbers s).1).0)) [
        | inl plain ↦ rw (plain, maybe_ref) (omega arith)
        | inr (g, found) ↦ rw (found, maybe_ref) (omega arith)
      ]

  object_of-Returns :
      (parse : List ℕ → Parsed numbers (Object numbers)) (t : Token numbers.Num) (rest : List ℕ)
      → (is_eof t ≡ false → AllReturn parse (length rest))
      → Returns (object_of numbers parse t rest) (length rest)
  unfolding object_of
  object_of-Returns parse (Token.number n) rest h = (_, _, refl, length-maybe_ref n rest)
  object_of-Returns parse Token.array_open rest h =
      let (os, r, e, le) =
        parse_items-Returns parse (suc (length rest)) rest (omega arith) (h refl) in
      (_, r, ap (array_of numbers) e, le)
  object_of-Returns parse Token.dict_open rest h =
      let (d, r, e, le) =
        parse_entries-Returns parse (suc (length rest)) _ rest (omega arith) (h refl) in
      let le' = length-dict_or_stream d r in (_, _, ap (dict_of_entries numbers) e, omega arith)
  object_of-Returns parse (Token.name k) rest h = (_, rest, refl, omega arith)
  object_of-Returns parse (Token.string bs) rest h = (_, rest, refl, omega arith)
  object_of-Returns parse (Token.keyword k) rest h = (_, rest, refl, omega arith)
  object_of-Returns parse Token.array_close rest h = (_, rest, refl, omega arith)
  object_of-Returns parse Token.dict_close rest h = (_, rest, refl, omega arith)
  object_of-Returns parse Token.brace_open rest h = (_, rest, refl, omega arith)
  object_of-Returns parse Token.brace_close rest h = (_, rest, refl, omega arith)
  object_of-Returns parse Token.eof rest h = (_, rest, refl, omega arith)

  parse_object_on-Returns :
      (fuel : ℕ) (s : List ℕ)
      → length s < fuel
      → Returns (parse_object_on numbers fuel s) (length (next numbers s).1)
  unfolding parse_object_on
  parse_object_on-Returns zero s h = absurd (omega arith)
  parse_object_on-Returns (suc fuel) s h =
      object_of-Returns (parse_object_on numbers fuel) (next numbers s).0 (next numbers s).1
        (λ more u le. let less = next_less s more in parse_object_on-Returns fuel u (omega arith))

  -- The parser returns an object for any bytes, malformed ones included, and never reads backwards: what
  -- is left is at most what its first token left.
  pub parse_object-Returns :
      (s : List ℕ) → Returns (parse_object numbers s) (length (next numbers s).1)
  unfolding parse_object
  parse_object-Returns s = parse_object_on-Returns (suc (length s)) s (omega arith)
