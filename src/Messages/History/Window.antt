-- ===== src/Messages/History/Window.antt =====
-- The window of a cursor is what follows its row, and a cursor survives the trip to the client.
use munichat.Prelude.{
  ◌≡◌, ◌≢◌, ◌∙◌, refl, ap, true, false, some, List, [], ◌∷◌, ◌++◌, arith, keep, All, is_empty,
}
use munichat.Text.{Text}
use munichat.Store.{Message}
use munichat.Store.Table.{
  CursorKey, decoded, key_of, is_before, in_window, IsNewestFirst, MessageTable,
}
use munichat.Messages.History.{
  Codec, first_part, second_part, encode_cursor, decode_cursor, decode_optional,
}

module _ (table : MessageTable) where
  keep-All :
      (key : CursorKey) (rows : List Message)
      → All (λ o. is_before table.id_lt key o ≡ true) rows
      → keep (in_window table.id_lt (some key)) rows ≡ rows
  keep-All key [] h = refl
  keep-All key (m ∷ rows) (h, hs) = rw (h, keep) (ap (λ t. m ∷ t) (keep-All key rows hs))

  is_before_irrefl : (m : Message) → is_before table.id_lt (key_of m) m ≡ false
  is_before_irrefl m = ground (arith, table.id_lt_asymm m.row.id m.row.id)

  is_before_asymm :
      (m o : Message)
      → is_before table.id_lt (key_of m) o ≡ true
      → is_before table.id_lt (key_of o) m ≡ false
  is_before_asymm m o h = ground (arith, table.id_lt_asymm m.row.id o.row.id)

  All-middle :
      (P : Message → Type 0) (newer : List Message) (m : Message) (older : List Message)
      → All P (newer ++ m ∷ older)
      → P m
  All-middle P [] m older h = h.0
  All-middle P (n ∷ newer) m older h = All-middle P newer m older h.1

  -- In an ordered channel the window of a message is what stands behind it.
  pub window_of :
      (newer : List Message) (m : Message) (older : List Message)
      → IsNewestFirst table.id_lt (newer ++ m ∷ older)
      → keep (in_window table.id_lt (some (key_of m))) (newer ++ m ∷ older) ≡ older
  window_of [] m older (h, _) = rw (is_before_irrefl m, keep) (keep-All (key_of m) older h)
  window_of (n ∷ newer) m older (h, hs) =
      rw (is_before_asymm n m (All-middle _ newer m older h), keep) (window_of newer m older hs)

first_part-append : (s t : Text) → All (λ c. c ≢ b'_') s → first_part (s ++ b'_' ∷ t) ≡ s
unfolding first_part
first_part-append [] t h = refl
first_part-append (c ∷ s) t (h, hs) = ground (arith, first_part-append s t hs)

first_part_of_none : (s : Text) → All (λ c. c ≢ b'_') s → first_part s ≡ s
unfolding first_part
first_part_of_none [] h = refl
first_part_of_none (c ∷ s) (h, hs) = ground (arith, first_part_of_none s hs)

second_part-append :
    (s t : Text)
    → All (λ c. c ≢ b'_') s
    → All (λ c. c ≢ b'_') t
    → second_part (s ++ b'_' ∷ t) ≡ some t
unfolding second_part
second_part-append [] t h k = ap some (first_part_of_none t k)
second_part-append (c ∷ s) t (h, hs) k = ground (arith, second_part-append s t hs k)

module _ (codec : Codec) where
  -- A cursor whose identifier has no underscore decodes to the key that it was made of.
  pub decode-encode :
      (key : CursorKey)
      → All (λ c. c ≢ b'_') key.id
      → decode_cursor codec (encode_cursor codec key) ≡ decoded key
  unfolding decode_cursor encode_cursor
  decode-encode key h =
      let clean = codec.iso_has_no_underscore key.created_at in
      let date =
        ap codec.parse_date (first_part-append (codec.to_iso_string key.created_at) key.id clean)
        ∙ codec.parse_iso key.created_at in
      let id = second_part-append (codec.to_iso_string key.created_at) key.id clean h in
      rw (codec.from_to_base64 _) (λ i. record { created_at = date i; id = id i })

  encode_not_empty : (t s : Text) → is_empty (codec.to_base64 (t ++ b'_' ∷ s)) ≡ false
  encode_not_empty [] s = codec.base64_not_empty _ _
  encode_not_empty (c ∷ t) s = codec.base64_not_empty _ _

  pub decode_optional-encode :
      (key : CursorKey)
      → All (λ c. c ≢ b'_') key.id
      → decode_optional codec (some (encode_cursor codec key)) ≡ some (decoded key)
  unfolding decode_optional encode_cursor
  decode_optional-encode key h =
      rw (encode_not_empty (codec.to_iso_string key.created_at) key.id)
        (ap some (decode-encode key h))
