-- ===== src/Directory/Components.antt =====
-- Distinguished names written after RFC 4514, and what the code reads of them.
use munichat.Prelude.{
  ℕ, ◌≡◌, refl, ap, ◌∙◌, Bool, true, false, not, ◌&&◌, ◌||◌, some, List, [], ◌∷◌, ◌++◌, map, ◌==◌,
  arith, All,
}
use munichat.Text.{Text, lit, trim}
use munichat.Directory.Names.{
  is_line_end, split_commas, split_dn, unescape_dn_value, join_commas, any_line_end, unit_value,
  department_of, department_from_dn,
}

-- A component in which every comma follows a backslash, and which does not end in a backslash.
abbrev pub is_part : Bool → Text → Bool
is_part escaped [] = not escaped
is_part escaped (c ∷ t) = (not (c == b',') || escaped) && is_part (c == b'\\') t

abbrev pub IsComponent : Text → Type 0
IsComponent p = (is_part false p ≡ true) × (trim p ≡ p)

-- The two halves of the test of a component.
part_inv :
    (escaped : Bool) (c : ℕ) (t : Text)
    → is_part escaped (c ∷ t) ≡ true
    → (c == b',' && not escaped ≡ false) × (is_part (c == b'\\') t ≡ true)
part_inv escaped c t h = (ground (arith, h), ground (arith, h))

split_commas_last :
    (escaped : Bool) (p : Text) → is_part escaped p ≡ true → split_commas escaped p ≡ (p, [])
unfolding split_commas
split_commas_last escaped [] h = refl
split_commas_last escaped (c ∷ t) h =
    let (separate, rest) = part_inv escaped c t h in
    rw (split_commas_last (c == b'\\') t rest, split_commas) (rw separate refl)

split_commas_part :
    (escaped : Bool) (p rest : Text)
    → is_part escaped p ≡ true
    → split_commas escaped (p ++ b',' ∷ rest)
      ≡ (p, (split_commas false rest).0 ∷ (split_commas false rest).1)
unfolding split_commas
split_commas_part true [] rest h = absurd (ground (arith, h))
split_commas_part false [] rest h = refl
split_commas_part escaped (c ∷ t) rest h =
    let (separate, more) = part_inv escaped c t h in
    rw (split_commas_part (c == b'\\') t rest more, split_commas) (rw separate refl)

split_commas-join_commas :
    (p : Text) (ps : List Text)
    → All IsComponent (p ∷ ps)
    → split_commas false (join_commas (p ∷ ps)) ≡ (p, ps)
unfolding join_commas
split_commas-join_commas p [] h = split_commas_last false p h.0.0
split_commas-join_commas p (q ∷ qs) h =
    split_commas_part false p (join_commas (q ∷ qs)) h.0.0
    ∙ rw (split_commas-join_commas q qs h.1) refl

map-trim_components : (ps : List Text) → All IsComponent ps → map trim ps ≡ ps
map-trim_components [] h = refl
map-trim_components (p ∷ ps) h = rw (h.0.1) (rw (map-trim_components ps h.1) refl)

-- The components of a name are read back as they were, where they are joined with commas.
pub split_dn-join_commas :
    (p : Text) (ps : List Text)
    → All IsComponent (p ∷ ps)
    → split_dn (join_commas (p ∷ ps)) ≡ p ∷ ps
unfolding split_dn
split_dn-join_commas p ps h =
    rw (split_commas-join_commas p ps h, split_dn) (map-trim_components (p ∷ ps) h)

-- The characters that RFC 4514 writes with a backslash before them, the first of them also where they
-- need none.
abbrev is_dn_special : ℕ → Bool
is_dn_special c =
    c == b'"' || c == b'+' || c == b',' || c == b';' || c == b'<' || c == b'>' || c == b'\\'

abbrev may_be_escaped : ℕ → Bool
may_be_escaped c = is_dn_special c || c == b' ' || c == b'#' || c == b'='

-- `IsWritten text value`: the text is the value of an attribute after RFC 4514, without its pairs of
-- hexadecimal digits. A special character has a backslash before it, and so may have a space, a `#` and
-- a `=`.
pub data IsWritten : Text → Text → Type 0 where
  nothing : IsWritten [] []
  plainly :
      (c : ℕ) {text value : Text}
      → is_dn_special c ≡ false
      → IsWritten text value
      → IsWritten (c ∷ text) (c ∷ value)
  escaped :
      (c : ℕ) {text value : Text}
      → may_be_escaped c ≡ true
      → IsWritten text value
      → IsWritten (b'\\' ∷ c ∷ text) (c ∷ value)

unescape_plain :
    (c : ℕ) (t : Text) → c == b'\\' ≡ false → unescape_dn_value (c ∷ t) ≡ c ∷ unescape_dn_value t
unfolding unescape_dn_value
unescape_plain c [] h = refl
unescape_plain c (d ∷ t) h = rw h refl

no_backslash : (c : ℕ) → is_dn_special c ≡ false → c == b'\\' ≡ false
no_backslash c h = ground (arith, h)

no_line_end : (c : ℕ) → may_be_escaped c ≡ true → is_line_end c ≡ false
no_line_end c h = ground (arith, h)

unescape_dn_value-IsWritten :
    {text value : Text} → IsWritten text value → unescape_dn_value text ≡ value
unfolding unescape_dn_value
unescape_dn_value-IsWritten nothing = refl
unescape_dn_value-IsWritten (plainly c {text = t} h w) =
    unescape_plain c t (no_backslash c h) ∙ ap (λ x. c ∷ x) (unescape_dn_value-IsWritten w)
unescape_dn_value-IsWritten (escaped c h w) =
    rw (no_line_end c h) (ap (λ x. c ∷ x) (unescape_dn_value-IsWritten w))

any_line_end-IsWritten :
    {text value : Text}
    → IsWritten text value
    → any_line_end value ≡ false
    → any_line_end text ≡ false
any_line_end-IsWritten nothing h = refl
any_line_end-IsWritten (plainly c e w) h = ground (arith, any_line_end-IsWritten w, h)
any_line_end-IsWritten (escaped c e w) h = ground (arith, any_line_end-IsWritten w, h)

written_nonempty :
    {text : Text} {c : ℕ} {value : Text}
    → IsWritten text (c ∷ value)
    → (d : ℕ) × (x : Text) × (text ≡ d ∷ x)
written_nonempty (plainly c {text = t} e w) = (c, t, refl)
written_nonempty (escaped c {text = t} e w) = (b'\\', c ∷ t, refl)

unit_value-IsWritten :
    (text : Text) (c : ℕ) (t : Text)
    → IsWritten text (c ∷ t)
    → any_line_end (c ∷ t) ≡ false
    → unit_value (lit "OU=" ++ text) ≡ some text
unfolding unit_value
unit_value-IsWritten text c t w h =
    let (d, x, e) = written_nonempty w in
    let clean = any_line_end-IsWritten w h in rw e (rw (rw e at clean) refl)

-- The department of an account is its parent unit: of a name with the components `account`, `OU=` with
-- the unit's name as RFC 4514 writes it without hexadecimal pairs, and `above`, the code reads that
-- name, and the unit with those above it as its place. The components must neither begin nor end with
-- white space nor end in a backslash, and the unit's name must have a character and no line end.
pub department_from_dn-IsWritten :
    (account text : Text) (c : ℕ) (t : Text) (above : List Text)
    → IsWritten text (c ∷ t)
    → All IsComponent (account ∷ (lit "OU=" ++ text) ∷ above)
    → any_line_end (c ∷ t) ≡ false
    → department_from_dn (join_commas (account ∷ (lit "OU=" ++ text) ∷ above))
      ≡ some (record { dn = join_commas ((lit "OU=" ++ text) ∷ above); name = c ∷ t })
unfolding department_from_dn
department_from_dn-IsWritten account text c t above w h clean =
    ap department_of (split_dn-join_commas account ((lit "OU=" ++ text) ∷ above) h)
    ∙ (rw (unit_value-IsWritten text c t w clean, department_of)
        (rw (unescape_dn_value-IsWritten w) refl))
