-- ===== src/Pdf/Parser/Descent.antt =====
-- `parseObject`, `maybeRef`, `parseArray`, `parseDictOrStream` and `parseIndirectObjectAt`.
use munichat.Prelude.{
  ℕ, zero, suc, Bool, true, false, Option, none, some, List, if◌then◌else◌, length, drop,
}
use munichat.Text.{lit, text_eq}
use munichat.Pdf.Lexer.{Numbers, Token, next}
use munichat.Pdf.Parser.Objects.{
  PdfObject, null, boolean, number, bytes, name, ref, array, dict, stream, PdfItems, no_items, item,
  PdfDict, no_entries, set,
}
use munichat.Pdf.Parser.Streams.{parse_stream}

module _ (numbers : Numbers) where
  abbrev pub Object : Type 0
  Object = PdfObject numbers.Num

  -- What a parser returns: a value and the bytes after it; `none` stands for fuel that ran out.
  abbrev pub Parsed : Type 0 → Type 0
  Parsed A = Option (A × List ℕ)

  -- `t1.type === Number && t2.type === Keyword && t2.name === 'R'`
  abbrev pub ref_of : Token numbers.Num → Token numbers.Num → Option numbers.Num
  ref_of (Token.number g) (Token.keyword k) = if text_eq k (lit "R") then some g else none
  ref_of t1 t2 = none

  -- `maybeRef`
  unfoldable pub maybe_ref : numbers.Num → List ℕ → Object × List ℕ
  unfolding next
  maybe_ref n s =
      let (t1, s1) = next numbers s in
      let (t2, s2) = next numbers s1 in
      elim (ref_of t1 t2) [ some g ↦ (ref n g, s2) | none ↦ (number n, s) ]

  abbrev with_item : Object → Parsed (PdfItems numbers.Num) → Parsed (PdfItems numbers.Num)
  with_item o none = none
  with_item o (some (os, rest)) = some (item o os, rest)

  -- What follows an item, with the loop for the rest.
  abbrev pub then_items :
      (List ℕ → Parsed (PdfItems numbers.Num)) → Parsed Object → Parsed (PdfItems numbers.Num)
  then_items again none = none
  then_items again (some (o, rest)) = with_item o (again rest)

  -- A turn of the loop of `parseArray`: the token that it looks at, where it stands and what follows
  -- the token, with `parseObject` and the loop.
  unfoldable pub items_of :
      (List ℕ → Parsed Object)
      → (List ℕ → Parsed (PdfItems numbers.Num))
      → Token numbers.Num
      → List ℕ
      → List ℕ
      → Parsed (PdfItems numbers.Num)
  items_of parse again Token.array_close s rest = some (no_items, rest)
  items_of parse again Token.eof s rest = some (no_items, s)
  items_of parse again t s rest = then_items again (parse s)

  -- The loop of `parseArray`, on fuel.
  unfoldable pub parse_items : (List ℕ → Parsed Object) → ℕ → List ℕ → Parsed (PdfItems numbers.Num)
  unfolding next items_of
  parse_items parse zero s = none
  parse_items parse (suc fuel) s =
      items_of parse (parse_items parse fuel) (next numbers s).0 s (next numbers s).1

  abbrev pub then_entries :
      (PdfDict numbers.Num → List ℕ → Parsed (PdfDict numbers.Num))
      → List ℕ
      → PdfDict numbers.Num
      → Parsed Object
      → Parsed (PdfDict numbers.Num)
  then_entries again key d none = none
  then_entries again key d (some (o, rest)) = again (set key o d) rest

  -- A turn of the loop of `parseDictOrStream`: the token that it reads and what follows it, with
  -- `parseObject` and the loop.
  unfoldable pub entries_of :
      (List ℕ → Parsed Object)
      → (PdfDict numbers.Num → List ℕ → Parsed (PdfDict numbers.Num))
      → Token numbers.Num
      → PdfDict numbers.Num
      → List ℕ
      → Parsed (PdfDict numbers.Num)
  unfolding set
  entries_of parse again Token.dict_close d rest = some (d, rest)
  entries_of parse again Token.eof d rest = some (d, rest)
  entries_of parse again (Token.name key) d rest = then_entries again key d (parse rest)
  entries_of parse again t d rest = again d rest

  -- The loop of `parseDictOrStream`, on fuel.
  unfoldable pub parse_entries :
      (List ℕ → Parsed Object) → ℕ → PdfDict numbers.Num → List ℕ → Parsed (PdfDict numbers.Num)
  unfolding next entries_of
  parse_entries parse zero d s = none
  parse_entries parse (suc fuel) d s =
      entries_of parse (parse_entries parse fuel) (next numbers s).0 d (next numbers s).1

  -- `next.type === Keyword && next.name === 'stream'`
  abbrev pub is_stream_keyword : Token numbers.Num → Bool
  is_stream_keyword (Token.keyword k) = text_eq k (lit "stream")
  is_stream_keyword t = false

  -- The end of `parseDictOrStream`.
  unfoldable pub dict_or_stream : PdfDict numbers.Num → List ℕ → Object × List ℕ
  unfolding next parse_stream
  dict_or_stream d s =
      if is_stream_keyword (next numbers s).0
      then (let (raw, rest) = parse_stream numbers.natural d (next numbers s).1 in
          (stream d raw, rest))
      else (dict d, s)

  -- A keyword that stands where an object is expected.
  abbrev keyword_object : List ℕ → Object
  keyword_object k =
      if text_eq k (lit "true")
      then boolean true
      else if text_eq k (lit "false")
      then boolean false
      else null

  abbrev pub array_of : Parsed (PdfItems numbers.Num) → Parsed Object
  array_of none = none
  array_of (some (os, rest)) = some (array os, rest)

  abbrev pub dict_of_entries : Parsed (PdfDict numbers.Num) → Parsed Object
  dict_of_entries none = none
  dict_of_entries (some (d, rest)) = some (dict_or_stream d rest)

  -- The `switch` of `parseObject` on the token that it has read, with `parseObject` for what an
  -- array or a dictionary holds.
  unfoldable pub object_of : (List ℕ → Parsed Object) → Token numbers.Num → List ℕ → Parsed Object
  unfolding maybe_ref parse_items parse_entries dict_or_stream
  object_of parse (Token.number n) rest = some (maybe_ref n rest)
  object_of parse (Token.name k) rest = some (name k, rest)
  object_of parse (Token.string bs) rest = some (bytes bs, rest)
  object_of parse Token.array_open rest = array_of (parse_items parse (suc (length rest)) rest)
  object_of parse Token.dict_open rest =
      dict_of_entries (parse_entries parse (suc (length rest)) no_entries rest)
  object_of parse (Token.keyword k) rest = some (keyword_object k, rest)
  object_of parse t rest = some (null, rest)

  -- `parseObject`, on fuel for the depth of nesting
  unfoldable pub parse_object_on : ℕ → List ℕ → Parsed Object
  unfolding next object_of
  parse_object_on zero s = none
  parse_object_on (suc fuel) s =
      object_of (parse_object_on fuel) (next numbers s).0 (next numbers s).1

  -- `parseObject`
  unfoldable pub parse_object : List ℕ → Parsed Object
  unfolding parse_object_on
  parse_object s = parse_object_on (suc (length s)) s

  pub record IndirectObject : Type 0 where
    pub num : numbers.Num
    pub gen : numbers.Num
    pub value : Object

  abbrev indirect : numbers.Num → numbers.Num → Parsed Object → Option IndirectObject
  indirect n g none = none
  indirect n g (some (o, rest)) = some (record { num = n; gen = g; value = o })

  -- `numTok`, `genTok` and `objTok` of a definition
  abbrev header_of :
      Token numbers.Num → Token numbers.Num → Token numbers.Num → Option (numbers.Num × numbers.Num)
  header_of (Token.number n) (Token.number g) (Token.keyword k) =
      if text_eq k (lit "obj") then some (n, g) else none
  header_of t u v = none

  -- `parseIndirectObjectAt`; `none` is the error that it throws.
  unfoldable pub parse_indirect_object_at : List ℕ → ℕ → Option IndirectObject
  unfolding next parse_object
  parse_indirect_object_at file offset =
      let (t, s) = next numbers (drop offset file) in
      let (u, s') = next numbers s in
      let (v, s'') = next numbers s' in
      elim (header_of t u v) [ none ↦ none | some (n, g) ↦ indirect n g (parse_object s'') ]
