-- ===== src/Pdf/Encodings.antt =====
-- apps/web/src/lib/pdf/encodings.ts: the characters of byte codes and of glyph names. A text is the
-- list of its code units.
use munichat.Prelude.{
  ℕ, zero, suc, ◌+◌, ◌*◌, ◌%◌, ◌^◌, ◌≡◌, refl, Option, none, some, List, [], ◌∷◌, ◌&&◌, leb, ◌==◌,
  if◌then◌else◌,
}
use munichat.Text.{Text, lit, text_eq, strip_prefix}
use munichat.Pdf.AsciiHex.{hex_digit}

-- `WIN1252_80_9F`
abbrev win1252_80_9f : List (ℕ × ℕ)
win1252_80_9f =
    (0x80, 0x20ac)
    ∷ (0x82, 0x201a)
    ∷ (0x83, 0x0192)
    ∷ (0x84, 0x201e)
    ∷ (0x85, 0x2026)
    ∷ (0x86, 0x2020)
    ∷ (0x87, 0x2021)
    ∷ (0x88, 0x02c6)
    ∷ (0x89, 0x2030)
    ∷ (0x8a, 0x0160)
    ∷ (0x8b, 0x2039)
    ∷ (0x8c, 0x0152)
    ∷ (0x8e, 0x017d)
    ∷ (0x91, 0x2018)
    ∷ (0x92, 0x2019)
    ∷ (0x93, 0x201c)
    ∷ (0x94, 0x201d)
    ∷ (0x95, 0x2022)
    ∷ (0x96, 0x2013)
    ∷ (0x97, 0x2014)
    ∷ (0x98, 0x02dc)
    ∷ (0x99, 0x2122)
    ∷ (0x9a, 0x0161)
    ∷ (0x9b, 0x203a)
    ∷ (0x9c, 0x0153)
    ∷ (0x9e, 0x017e)
    ∷ (0x9f, 0x0178)
    ∷ []

unfoldable pub code_unit_in : ℕ → List (ℕ × ℕ) → Text
code_unit_in code [] = []
code_unit_in code ((k, u) ∷ rest) =
    let later = code_unit_in code rest in if code == k then u ∷ [] else later

-- `winAnsiChar`
unfoldable pub win_ansi_char : ℕ → Text
unfolding code_unit_in
win_ansi_char code =
    if leb 0x80 code && leb code 0x9f then code_unit_in code win1252_80_9f else code % 2 ^ 16 ∷ []

-- `AGL`, the names of one word with their code units
abbrev agl : List (Text × ℕ)
agl =
    (lit "space", 0x20)
    ∷ (lit "period", 0x2e)
    ∷ (lit "comma", 0x2c)
    ∷ (lit "colon", 0x3a)
    ∷ (lit "semicolon", 0x3b)
    ∷ (lit "hyphen", 0x2d)
    ∷ (lit "underscore", 0x5f)
    ∷ (lit "slash", 0x2f)
    ∷ (lit "backslash", 0x5c)
    ∷ (lit "bar", 0x7c)
    ∷ (lit "exclam", 0x21)
    ∷ (lit "question", 0x3f)
    ∷ (lit "quotesingle", 0x27)
    ∷ (lit "quotedbl", 0x22)
    ∷ (lit "grave", 0x60)
    ∷ (lit "asciitilde", 0x7e)
    ∷ (lit "at", 0x40)
    ∷ (lit "numbersign", 0x23)
    ∷ (lit "dollar", 0x24)
    ∷ (lit "percent", 0x25)
    ∷ (lit "ampersand", 0x26)
    ∷ (lit "asterisk", 0x2a)
    ∷ (lit "plus", 0x2b)
    ∷ (lit "equal", 0x3d)
    ∷ (lit "less", 0x3c)
    ∷ (lit "greater", 0x3e)
    ∷ (lit "parenleft", 0x28)
    ∷ (lit "parenright", 0x29)
    ∷ (lit "bracketleft", 0x5b)
    ∷ (lit "bracketright", 0x5d)
    ∷ (lit "braceleft", 0x7b)
    ∷ (lit "braceright", 0x7d)
    ∷ (lit "zero", 0x30)
    ∷ (lit "one", 0x31)
    ∷ (lit "two", 0x32)
    ∷ (lit "three", 0x33)
    ∷ (lit "four", 0x34)
    ∷ (lit "five", 0x35)
    ∷ (lit "six", 0x36)
    ∷ (lit "seven", 0x37)
    ∷ (lit "eight", 0x38)
    ∷ (lit "nine", 0x39)
    ∷ (lit "bullet", 0x2022)
    ∷ (lit "endash", 0x2013)
    ∷ (lit "emdash", 0x2014)
    ∷ (lit "quoteleft", 0x2018)
    ∷ (lit "quoteright", 0x2019)
    ∷ (lit "quotedblleft", 0x201c)
    ∷ (lit "quotedblright", 0x201d)
    ∷ (lit "ellipsis", 0x2026)
    ∷ (lit "degree", 0xb0)
    ∷ (lit "ordfeminine", 0xaa)
    ∷ (lit "ordmasculine", 0xba)
    ∷ (lit "aacute", 0xe1)
    ∷ (lit "acircumflex", 0xe2)
    ∷ (lit "atilde", 0xe3)
    ∷ (lit "agrave", 0xe0)
    ∷ (lit "ccedilla", 0xe7)
    ∷ (lit "eacute", 0xe9)
    ∷ (lit "ecircumflex", 0xea)
    ∷ (lit "iacute", 0xed)
    ∷ (lit "oacute", 0xf3)
    ∷ (lit "ocircumflex", 0xf4)
    ∷ (lit "otilde", 0xf5)
    ∷ (lit "uacute", 0xfa)
    ∷ (lit "udieresis", 0xfc)
    ∷ (lit "Aacute", 0xc1)
    ∷ (lit "Acircumflex", 0xc2)
    ∷ (lit "Atilde", 0xc3)
    ∷ (lit "Agrave", 0xc0)
    ∷ (lit "Ccedilla", 0xc7)
    ∷ (lit "Eacute", 0xc9)
    ∷ (lit "Ecircumflex", 0xca)
    ∷ (lit "Iacute", 0xcd)
    ∷ (lit "Oacute", 0xd3)
    ∷ (lit "Ocircumflex", 0xd4)
    ∷ (lit "Otilde", 0xd5)
    ∷ (lit "Uacute", 0xda)
    ∷ (lit "Udieresis", 0xdc)
    ∷ []

-- The names that every object has from its prototype.
abbrev prototype_names : List Text
prototype_names =
    lit "constructor"
    ∷ lit "__defineGetter__"
    ∷ lit "__defineSetter__"
    ∷ lit "hasOwnProperty"
    ∷ lit "__lookupGetter__"
    ∷ lit "__lookupSetter__"
    ∷ lit "isPrototypeOf"
    ∷ lit "propertyIsEnumerable"
    ∷ lit "toString"
    ∷ lit "valueOf"
    ∷ lit "__proto__"
    ∷ lit "toLocaleString"
    ∷ []

-- A glyph's name has a text, or is a member of the prototype of the table, which is no text, or has
-- nothing.
pub data Glyph : Type 0 where
  unicode : Text → Glyph
  inherited : Text → Glyph
  unknown : Glyph

unfoldable pub inherited_in : Text → List Text → Glyph
inherited_in n [] = unknown
inherited_in n (p ∷ ps) =
    let later = inherited_in n ps in if text_eq n p then inherited n else later

-- `AGL[name] ?? null`
unfoldable pub agl_in : Text → List (Text × ℕ) → Glyph
unfolding inherited_in
agl_in n [] = inherited_in n prototype_names
agl_in n ((k, u) ∷ rest) =
    let later = agl_in n rest in if text_eq n k then unicode (u ∷ []) else later

-- The value of four hexadecimal digits, where just these are there.
unfoldable pub hex_value_of : ℕ → ℕ → Text → Option ℕ
unfolding hex_digit
hex_value_of zero v [] = some v
hex_value_of zero v (c ∷ t) = none
hex_value_of (suc n) v [] = none
hex_value_of (suc n) v (c ∷ t) = elim (hex_digit c) [
  | none ↦ none
  | some d ↦ hex_value_of n (v * 16 + d) t
]

-- `/^uni([0-9A-Fa-f]{4})$/` and the value of what it takes
unfoldable pub uni_of : Text → Option ℕ
unfolding hex_value_of strip_prefix
uni_of n = elim (strip_prefix (lit "uni") n) [ none ↦ none | some digits ↦ hex_value_of 4 0 digits ]

abbrev of_name : Text → Glyph
of_name [] = agl_in [] agl
of_name (c ∷ []) = unicode (c ∷ [])
of_name (c ∷ d ∷ t) = agl_in (c ∷ d ∷ t) agl

-- `glyphNameToUnicode`
unfoldable pub glyph_name_to_unicode : Text → Glyph
unfolding uni_of agl_in
glyph_name_to_unicode n = elim (uni_of n) [ some u ↦ unicode (u ∷ []) | none ↦ of_name n ]

-- The sign of the euro, of code 0x80.
euro_is_known : win_ansi_char 0x80 ≡ 0x20ac ∷ []
unfolding win_ansi_char
euro_is_known = refl

names_are_known :
    (glyph_name_to_unicode (lit "ccedilla") ≡ unicode (0xe7 ∷ []))
    × (glyph_name_to_unicode (lit "uni20AC") ≡ unicode (0x20ac ∷ []))
    × (glyph_name_to_unicode (lit "A") ≡ unicode (lit "A"))
    × (glyph_name_to_unicode (lit "constructor") ≡ inherited (lit "constructor"))
    × (glyph_name_to_unicode (lit "Alpha") ≡ unknown)
unfolding glyph_name_to_unicode
names_are_known = (refl, refl, refl, refl, refl)
