-- ===== src/Pdf/Filters.antt =====
-- `decodeStream` of apps/web/src/lib/pdf/filters.ts and what it reads from a dictionary, where the
-- numbers are natural ones. Inflating is the platform's, resolving a reference the document's.
use munichat.Prelude.{
  ℕ, Bool, true, false, ◌||◌, Option, none, some, List, [], ◌∷◌, ◌++◌, leb, length, if◌then◌else◌,
}
use munichat.Text.{Text, lit, text_eq}
use munichat.Pdf.AsciiHex.{ascii_hex_decode}
use munichat.Pdf.Ascii85.{ascii85_decode}
use munichat.Pdf.RunLength.{run_length_decode}
use munichat.Pdf.Lzw.{lzw_decode}
use munichat.Pdf.Predictor.{PredictorParams, apply_predictor}
use munichat.Pdf.Parser.{
  PdfObject, null, number, name, array, dict, PdfItems, no_items, item, PdfDict, get,
}

abbrev pub Resolver : Type 0
Resolver = Option (PdfObject ℕ) → Option (PdfObject ℕ)

pub record DecodeResult : Type 0 where
  pub bytes : List ℕ
  pub image_filter : Option Text
  pub image_params : Option (PdfObject ℕ)

-- `IMAGE_FILTERS.has(name)`
unfoldable pub is_image_filter : Text → Bool
is_image_filter n =
    text_eq n (lit "DCTDecode")
    || text_eq n (lit "DCT")
    || text_eq n (lit "JPXDecode")
    || text_eq n (lit "CCITTFaxDecode")
    || text_eq n (lit "CCF")
    || text_eq n (lit "JBIG2Decode")

abbrev name_and : Option (PdfObject ℕ) → List Text → List Text
name_and (some (name n)) rest = n ∷ rest
name_and o rest = rest

abbrev pub names_in : Resolver → PdfItems ℕ → List Text
names_in resolve no_items = []
names_in resolve (item x rest) = name_and (resolve (some x)) (names_in resolve rest)

unfoldable pub names_of_value : Resolver → Option (PdfObject ℕ) → List Text
names_of_value resolve (some (name n)) = n ∷ []
names_of_value resolve (some (array items)) = names_in resolve items
names_of_value resolve o = []

-- `filterNames`
unfoldable pub filter_names : Option (PdfObject ℕ) → Resolver → List Text
unfolding names_of_value
filter_names o resolve = names_of_value resolve (resolve o)

abbrev pub resolved_items : Resolver → PdfItems ℕ → List (Option (PdfObject ℕ))
resolved_items resolve no_items = []
resolved_items resolve (item x rest) = resolve (some x) ∷ resolved_items resolve rest

-- The list of one value; beyond its end everything is `undefined`, as in the array of the code.
unfoldable pub params_of_value : Resolver → Option (PdfObject ℕ) → ℕ → List (Option (PdfObject ℕ))
params_of_value resolve (some (array items)) count = resolved_items resolve items
params_of_value resolve o count = if leb 1 count then o ∷ [] else []

-- `paramsList`
unfoldable pub params_list : Option (PdfObject ℕ) → Resolver → ℕ → List (Option (PdfObject ℕ))
unfolding params_of_value
params_list o resolve count = params_of_value resolve (resolve o) count

-- `numOr`
unfoldable pub num_or : Option (PdfObject ℕ) → ℕ → ℕ
num_or (some (number n)) fallback = n
num_or o fallback = fallback

unfoldable pub predictor_in : Resolver → Option (PdfObject ℕ) → Option PredictorParams
unfolding num_or get
predictor_in resolve (some (dict p)) =
    let predictor = num_or (resolve (get (lit "Predictor") p)) 1 in
    if leb predictor 1
    then none
    else some (record {
      predictor = predictor;
      colors = num_or (resolve (get (lit "Colors") p)) 1;
      bpc = num_or (resolve (get (lit "BitsPerComponent") p)) 8;
      columns = num_or (resolve (get (lit "Columns") p)) 1;
    })
predictor_in resolve o = none

-- `readPredictorParams`
unfoldable pub read_predictor_params : Option (PdfObject ℕ) → Resolver → Option PredictorParams
unfolding predictor_in
read_predictor_params parms resolve = predictor_in resolve (resolve parms)

unfoldable pub early_change_in : Option (PdfObject ℕ) → ℕ
unfolding num_or get
early_change_in (some (dict p)) = num_or (get (lit "EarlyChange") p) 1
early_change_in o = 1

-- `earlyChange`
unfoldable pub early_change : Option (PdfObject ℕ) → Resolver → ℕ
unfolding early_change_in
early_change parms resolve = early_change_in (resolve parms)

-- The two formats of `inflateWith`.
pub data Format : Type 0 where
  deflate : Format
  deflate_raw : Format

-- `??`
abbrev pub or_else : Option (PdfObject ℕ) → Option (PdfObject ℕ) → Option (PdfObject ℕ)
or_else none o = o
or_else (some null) o = o
or_else (some v) o = some v

abbrev pub first_param : List (Option (PdfObject ℕ)) → Option (PdfObject ℕ)
first_param [] = none
first_param (p ∷ ps) = p

abbrev pub other_params : List (Option (PdfObject ℕ)) → List (Option (PdfObject ℕ))
other_params [] = []
other_params (p ∷ ps) = ps

module _ (inflate_with : List ℕ → Format → Option (List ℕ)) (resolve : Resolver) where
  -- `inflate`; `none` is a rejected promise.
  unfoldable pub inflate : List ℕ → Option (List ℕ)
  inflate data' = elim (inflate_with data' deflate) [
    | some out ↦ some out
    | none ↦ inflate_with data' deflate_raw
  ]

  abbrev predicted : Option (PdfObject ℕ) → Option (List ℕ) → Option (List ℕ)
  predicted parms none = none
  predicted parms (some out) = some (apply_predictor out (read_predictor_params parms resolve))

  -- The `switch` on a filter that is not one of images.
  unfoldable pub apply_filter : Text → Option (PdfObject ℕ) → List ℕ → Option (List ℕ)
  unfolding inflate
  apply_filter n parms bytes =
      if text_eq n (lit "FlateDecode") || text_eq n (lit "Fl")
      then predicted parms (inflate bytes)
      else if text_eq n (lit "LZWDecode") || text_eq n (lit "LZW")
      then predicted parms (some (lzw_decode (early_change parms resolve) bytes))
      else if text_eq n (lit "ASCII85Decode") || text_eq n (lit "A85")
      then some (ascii85_decode bytes)
      else if text_eq n (lit "ASCIIHexDecode") || text_eq n (lit "AHx")
      then some (ascii_hex_decode bytes)
      else if text_eq n (lit "RunLengthDecode") || text_eq n (lit "RL")
      then some (run_length_decode bytes)
      else some bytes

  -- The loop over the names, with the parameters that are left.
  unfoldable pub filter_loop :
      List Text → List (Option (PdfObject ℕ)) → List ℕ → Option DecodeResult
  unfolding apply_filter is_image_filter
  filter_loop [] ps bytes =
      some (record { bytes = bytes; image_filter = none; image_params = none })
  filter_loop (n ∷ names) ps bytes = elim (is_image_filter n) [
    | true ↦ some (record { bytes = bytes; image_filter = some n; image_params = first_param ps })
    | false ↦ elim (apply_filter n (first_param ps) bytes) [
      | none ↦ none
      | some out ↦ filter_loop names (other_params ps) out
    ]
  ]

  -- The names of the filters of a stream.
  unfoldable pub stream_filters : PdfDict ℕ → List Text
  unfolding filter_names get
  stream_filters d =
      filter_names (get (lit "Filter") d) resolve ++ filter_names (get (lit "F") d) resolve

  -- `decodeStream`
  unfoldable pub decode_stream : PdfDict ℕ → List ℕ → Option DecodeResult
  unfolding filter_loop stream_filters params_list get
  decode_stream d raw =
      filter_loop (stream_filters d)
        (params_list (or_else (get (lit "DecodeParms") d) (get (lit "DP") d)) resolve
          (length (stream_filters d)))
        raw
