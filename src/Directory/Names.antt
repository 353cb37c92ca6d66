-- ===== src/Directory/Names.antt =====
-- Distinguished names and filter values, as ldap.service.ts reads and writes them.
use munichat.Prelude.{
  ℕ, ◌/◌, ◌%◌, ◌+◌, Bool, false, not, ◌&&◌, ◌||◌, Option, none, some, List, [], ◌∷◌, ◌++◌, map,
  if◌then◌else◌, ◌==◌, ltb,
}
use munichat.Text.{Text, lit, trim, strip_prefix_ci}

-- What `.` of a pattern does not match.
abbrev pub is_line_end : ℕ → Bool
is_line_end c = c == 10 || c == 13 || c == 0x2028 || c == 0x2029

-- `dn.split(/(?<!\\),/)`: at the commas that no backslash precedes. The flag says whether the code
-- unit before the text is a backslash; the last part comes back by itself.
unfoldable pub split_commas : Bool → Text → Text × List Text
split_commas escaped [] = ([], [])
split_commas escaped (c ∷ t) =
    let (part, parts) = split_commas (c == b'\\') t in
    if c == b',' && not escaped then ([], part ∷ parts) else (c ∷ part, parts)

-- `splitDn`
unfoldable pub split_dn : Text → List Text
unfolding split_commas trim
split_dn dn = let (part, parts) = split_commas false dn in map trim (part ∷ parts)

-- `value.replace(/\\(.)/g, '$1')`
unfoldable pub unescape_dn_value : Text → Text
unescape_dn_value [] = []
unescape_dn_value (c ∷ []) = c ∷ []
unescape_dn_value (c ∷ d ∷ t) =
    let unescaped = unescape_dn_value t in
    let literal = unescape_dn_value (d ∷ t) in
    if c == b'\\' && not (is_line_end d) then d ∷ unescaped else c ∷ literal

-- `parts.join(',')`
unfoldable pub join_commas : List Text → Text
join_commas [] = []
join_commas (p ∷ []) = p
join_commas (p ∷ q ∷ ps) = p ++ b',' ∷ join_commas (q ∷ ps)

-- The name and the place of the department.
pub record Department : Type 0 where
  pub dn : Text
  pub name : Text

abbrev pub any_line_end : Text → Bool
any_line_end [] = false
any_line_end (c ∷ t) = is_line_end c || any_line_end t

-- `/^OU=(.+)$/i.exec(parentRdn)`, the group
unfoldable pub unit_value : Text → Option Text
unfolding strip_prefix_ci
unit_value rdn = elim (strip_prefix_ci (lit "ou=") rdn) [
  | none ↦ none
  | some [] ↦ none
  | some (c ∷ t) ↦ if any_line_end (c ∷ t) then none else some (c ∷ t)
]

-- `departmentFromDn` on the components of the name; an empty component has no unit either, as the
-- code's test of `parentRdn` says.
unfoldable pub department_of : List Text → Option Department
unfolding unit_value unescape_dn_value join_commas
department_of [] = none
department_of (account ∷ []) = none
department_of (account ∷ parent ∷ above) = elim (unit_value parent) [
  | none ↦ none
  | some value ↦ some (record { dn = join_commas (parent ∷ above); name = unescape_dn_value value })
]

-- `departmentFromDn`
unfoldable pub department_from_dn : Text → Option Department
unfolding split_dn department_of
department_from_dn dn = department_of (split_dn dn)

-- A hexadecimal digit as `toString(16)` writes it.
abbrev pub hex_digit_of : ℕ → ℕ
hex_digit_of n = if ltb n 10 then n + 48 else n + 87

-- `[\\*()\0]`
abbrev pub is_filter_special : ℕ → Bool
is_filter_special c = c == b'\\' || c == b'*' || c == b'(' || c == b')' || c == 0

-- `escapeFilterValue`
unfoldable pub escape_filter_value : Text → Text
escape_filter_value [] = []
escape_filter_value (c ∷ t) =
    let rest = escape_filter_value t in
    if is_filter_special c
    then b'\\' ∷ hex_digit_of (c / 16) ∷ hex_digit_of (c % 16) ∷ rest
    else c ∷ rest
