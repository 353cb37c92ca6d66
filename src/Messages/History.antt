-- ===== src/Messages/History.antt =====
-- apps/api/src/messages/messages.service.ts, `getHistory`, with the cursors of
-- message-response.mapper.ts.
pub mod Window
pub mod Paging
use munichat.Prelude.{
  ℕ, zero, suc, ◌-◌, ◌+◌, ◌≡◌, ◌≢◌, Bool, Option, none, some, List, [], ◌∷◌, ◌++◌, reverse,
  if◌then◌else◌, ◌==◌, ltb, take, length, get_elem?, All, is_empty,
}
use munichat.Text.{Text, lit}
use munichat.Store.{Message}
use munichat.Store.Table.{CursorKey, DecodedCursor, key_of, MessageTable}

-- The parts of the standard library that a cursor goes through, with their documented behaviour.
pub record Codec : Type 0 where
  pub to_iso_string : ℕ → Text
  -- `new Date(text)`; `none` is an invalid date
  pub parse_date : Text → Option ℕ
  pub to_base64 : Text → Text
  pub from_base64 : Text → Text
  pub parse_iso : (t : ℕ) → parse_date (to_iso_string t) ≡ some t
  pub iso_has_no_underscore : (t : ℕ) → All (λ c. c ≢ b'_') (to_iso_string t)
  pub from_to_base64 : (t : Text) → from_base64 (to_base64 t) ≡ t
  pub base64_not_empty : (c : ℕ) (t : Text) → is_empty (to_base64 (c ∷ t)) ≡ Bool.false

-- The first part of `split('_')`.
unfoldable pub first_part : Text → Text
first_part [] = []
first_part (c ∷ t) = if c == b'_' then [] else c ∷ first_part t

-- The second part of `split('_')`; without an underscore it is `undefined`.
unfoldable pub second_part : Text → Option Text
unfolding first_part
second_part [] = none
second_part (c ∷ t) = if c == b'_' then some (first_part t) else second_part t

module _ (codec : Codec) where
  unfoldable pub encode_cursor : CursorKey → Text
  encode_cursor key = codec.to_base64 (codec.to_iso_string key.created_at ++ (lit "_" ++ key.id))

  unfoldable pub decode_cursor : Text → DecodedCursor
  unfolding second_part
  decode_cursor cursor =
      let text = codec.from_base64 cursor in
      record { created_at = codec.parse_date (first_part text); id = second_part text }

  -- `cursor ? decodeCursor(cursor) : null`
  unfoldable pub decode_optional : Option Text → Option DecodedCursor
  unfolding decode_cursor
  decode_optional none = none
  decode_optional (some cursor) = if is_empty cursor then none else some (decode_cursor cursor)

pub record HistoryPage : Type 0 where
  pub messages : List Message
  pub next_cursor : Option Text

module _ (codec : Codec) (table : MessageTable) where
  -- What is done with the rows that the query returned.
  unfoldable pub to_page : ℕ → List Message → HistoryPage
  unfolding encode_cursor
  to_page limit rows =
      let page = take limit rows in
      record {
        messages = reverse page;
        next_cursor =
            if ltb limit (length rows)
            then (elim (get_elem? page (length page - 1)) [
              | none ↦ none
              | some last ↦ some (encode_cursor codec (key_of last))
            ])
            else none;
      }

  -- `getHistory`
  unfoldable pub get_history : table.State → Text → Option Text → ℕ → Option HistoryPage
  unfolding to_page decode_optional
  get_history s channel cursor limit =
      elim (table.find_many s channel (decode_optional codec cursor) (limit + 1)) [
        | none ↦ none
        | some rows ↦ some (to_page limit rows)
      ]
