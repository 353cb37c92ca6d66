-- ===== src/Pdf/Parser/Objects.antt =====
-- The objects of types.ts.
use munichat.Prelude.{ℕ, Bool, true, false, Option, none, some, List, if◌then◌else◌}
use munichat.Text.{text_eq}

mutual
  pub data PdfObject (N : Type 0) : Type 0 where
    null : PdfObject N
    boolean : Bool → PdfObject N
    number : N → PdfObject N
    bytes : List ℕ → PdfObject N
    name : List ℕ → PdfObject N
    ref : N → N → PdfObject N
    array : PdfItems N → PdfObject N
    dict : PdfDict N → PdfObject N
    stream : PdfDict N → List ℕ → PdfObject N

  pub data PdfItems (N : Type 0) : Type 0 where
    no_items : PdfItems N
    item : PdfObject N → PdfItems N → PdfItems N

  -- The entries in the order in which their keys were first set.
  pub data PdfDict (N : Type 0) : Type 0 where
    no_entries : PdfDict N
    entry : List ℕ → PdfObject N → PdfDict N → PdfDict N

module _ {N : Type 0} where
  -- `dict[key] = value`
  unfoldable pub set : List ℕ → PdfObject N → PdfDict N → PdfDict N
  set key value no_entries = entry key value no_entries
  set key value (entry k v rest) =
      let others = set key value rest in
      if text_eq k key then entry k value rest else entry k v others

  -- `dict[key]`
  unfoldable pub get : List ℕ → PdfDict N → Option (PdfObject N)
  get key no_entries = none
  get key (entry k v rest) = let later = get key rest in if text_eq k key then some v else later

  -- `isName` without a name, `isRef`, `isStream`, `isBytes`, `isNumber`, `isArray` and `isDict`
  unfoldable pub is_name : PdfObject N → Bool
  is_name (name n) = true
  is_name o = false

  unfoldable pub is_ref : PdfObject N → Bool
  is_ref (ref n g) = true
  is_ref o = false

  unfoldable pub is_stream : PdfObject N → Bool
  is_stream (stream d raw) = true
  is_stream o = false

  unfoldable pub is_dict : PdfObject N → Bool
  is_dict (dict d) = true
  is_dict o = false

  -- `dictOf`
  unfoldable pub dict_of : PdfObject N → Option (PdfDict N)
  dict_of (dict d) = some d
  dict_of (stream d raw) = some d
  dict_of o = none
