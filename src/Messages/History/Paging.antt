-- ===== src/Messages/History/Paging.antt =====
-- Following the cursors from the newest page visits every message of a channel once, in order.
use mathlib.Core.Option
use mathlib.Core.List.{append_assoc, reverse-append}
use munichat.Prelude.{
  ℕ, zero, suc, ◌+◌, ◌-◌, ◌<◌, ◌≤◌, ◌≡◌, ◌≢◌, ◌∙◌, refl, sym, ap, inl, inr, true, false, Option,
  none, some, List, [], ◌∷◌, ◌++◌, reverse, arith, ltb, keep, take, length, get_elem?, All,
  Bool-cases, length-append, take_of_length_le, lt→ltb, ltb→lt, subst,
}
use munichat.Text.{Text}
use munichat.Store.{Message}
use munichat.Store.Table.{key_of, in_window, IsNewestFirst, MessageTable}
use munichat.Messages.History.{Codec, encode_cursor, decode_optional, to_page, get_history}
use munichat.Messages.History.Window.{window_of, decode_optional-encode}

-- The longer lists are cut behind their first `k + 1` messages.
record Cut (k : ℕ) (rows : List Message) : Type 0 where
  newer : List Message
  last : Message
  next : Message
  older : List Message
  count : length newer ≡ k
  whole : rows ≡ newer ++ last ∷ next ∷ older

cut : (k : ℕ) (rows : List Message) → suc k < length rows → Cut k rows
cut k [] h = absurd (omega arith)
cut k (a ∷ []) h = absurd (omega arith)
cut zero (a ∷ b ∷ rows) h = record {
  newer = [];
  last = a;
  next = b;
  older = rows;
  count = refl;
  whole = refl;
}
cut (suc k) (a ∷ b ∷ rows) h =
    let c = cut k (b ∷ rows) (omega arith) in
    record {
      newer = a ∷ c.newer;
      last = c.last;
      next = c.next;
      older = c.older;
      count = ap suc c.count;
      whole = ap (λ t. a ∷ t) c.whole;
    }

take-cut :
    (newer : List Message) (a b : Message) (older : List Message)
    → take (suc (length newer)) (take (suc (suc (length newer))) (newer ++ a ∷ b ∷ older))
      ≡ newer ++ a ∷ []
take-cut [] a b older = refl
take-cut (n ∷ newer) a b older = ap (λ t. n ∷ t) (take-cut newer a b older)

length-take-cut :
    (newer : List Message) (a b : Message) (older : List Message)
    → length (take (suc (suc (length newer))) (newer ++ a ∷ b ∷ older)) ≡ suc (suc (length newer))
length-take-cut [] a b older = refl
length-take-cut (n ∷ newer) a b older = ap suc (length-take-cut newer a b older)

last-append :
    (newer : List Message) (a : Message)
    → get_elem? (newer ++ a ∷ []) (length (newer ++ a ∷ []) - 1) ≡ some a
last-append newer a =
    let e : length (newer ++ a ∷ []) - 1 ≡ length newer =
      omega (arith, length-append newer (a ∷ [])) in
    ap (get_elem? (newer ++ a ∷ [])) e ∙ at_length newer
  where
    at_length : (l : List Message) → get_elem? (l ++ a ∷ []) (length l) ≡ some a
    at_length [] = refl
    at_length (x ∷ l) = at_length l

le→not_ltb : (a b : ℕ) → a ≤ b → ltb b a ≡ false
le→not_ltb a b h = ground arith

All-behind :
    (P : Message → Type 0) (newer : List Message) (m : Message) (older : List Message)
    → All P (newer ++ m ∷ older)
    → P m × All P older
All-behind P [] m older h = h
All-behind P (n ∷ newer) m older h = All-behind P newer m older h.1

module _ (codec : Codec) (table : MessageTable) where
  -- The last page: no cursor, and all that is left.
  to_page_end :
      (limit : ℕ) (rest : List Message)
      → length rest ≤ limit
      → to_page codec table limit (take (limit + 1) rest)
        ≡ record { messages = reverse rest; next_cursor = none }
  unfolding to_page
  to_page_end limit rest h =
      rw (take_of_length_le (limit + 1) rest (omega arith))
        (rw (le→not_ltb (length rest) limit h, take_of_length_le limit rest h) refl)

  to_page_of :
      (limit : ℕ) (rows page : List Message) (last : Message)
      → take limit rows ≡ page
      → ltb limit (length rows) ≡ true
      → get_elem? page (length page - 1) ≡ some last
      → to_page codec table limit rows
        ≡ record { messages = reverse page; next_cursor = some (encode_cursor codec (key_of last)) }
  unfolding to_page
  to_page_of limit rows page last p q r = rw p (rw (q, r))

  -- Any other page: `limit` messages, and the cursor of the oldest of them.
  to_page_more :
      (newer : List Message) (a b : Message) (older : List Message)
      → to_page codec table
          (suc (length newer))
          (take (suc (length newer) + 1) (newer ++ a ∷ b ∷ older))
        ≡ record {
          messages = reverse (newer ++ a ∷ []);
          next_cursor = some (encode_cursor codec (key_of a));
        }
  to_page_more newer a b older =
      let n : suc (length newer) + 1 ≡ suc (suc (length newer)) = omega arith in
      to_page_of (suc (length newer)) _ (newer ++ a ∷ []) a
        (ap (λ k. take (suc (length newer)) (take k (newer ++ a ∷ b ∷ older))) n
          ∙ take-cut newer a b older)
        (lt→ltb _ _ (rw n (rw (length-take-cut newer a b older) (omega arith))))
        (last-append newer a)

  -- The client's scroll to the top: page after page, each from the cursor of the one before it, the
  -- older messages put in front. `none` is a rejected page, or too little fuel.
  pub scroll : ℕ → table.State → Text → ℕ → Option Text → Option (List Message)
  scroll zero s channel limit cursor = none
  scroll (suc fuel) s channel limit cursor = elim (get_history codec table s channel cursor limit) [
    | none ↦ none
    | some page ↦ elim page.next_cursor [
      | none ↦ some page.messages
      | some next ↦
          Option.map (λ older. older ++ page.messages) (scroll fuel s channel limit (some next))
    ]
  ]

  scroll_end :
      (fuel : ℕ) (s : table.State) (channel : Text) (limit : ℕ) (cursor : Option Text)
      (shown : List Message)
      → get_history codec table s channel cursor limit
        ≡ some (record { messages = shown; next_cursor = none })
      → scroll (suc fuel) s channel limit cursor ≡ some shown
  unfolding scroll
  scroll_end fuel s channel limit cursor shown e = rw (e, scroll)

  scroll_more :
      (fuel : ℕ) (s : table.State) (channel : Text) (limit : ℕ) (cursor : Option Text)
      (shown older : List Message) (next : Text)
      → get_history codec table s channel cursor limit
        ≡ some (record { messages = shown; next_cursor = some next })
      → scroll fuel s channel limit (some next) ≡ some older
      → scroll (suc fuel) s channel limit cursor ≡ some (older ++ shown)
  unfolding scroll
  scroll_more fuel s channel limit cursor shown older next e h = rw (e, scroll) (rw h)

  -- The page that a cursor asks for.
  history_before :
      (s : table.State) (channel : Text) (limit : ℕ) (newer older : List Message) (m : Message)
      → table.messages s channel ≡ newer ++ m ∷ older
      → All (λ c. c ≢ b'_') m.row.id
      → get_history codec table s channel (some (encode_cursor codec (key_of m))) limit
        ≡ some (to_page codec table limit (take (limit + 1) older))
  unfolding get_history
  history_before s channel limit newer older m whole clean =
      let order = subst (IsNewestFirst table.id_lt) whole (table.messages_order s channel) in
      let window =
        ap (keep (in_window table.id_lt (some (key_of m)))) whole
        ∙ window_of table newer m older order in
      let rows =
        table.find_many_before s channel (key_of m) (limit + 1)
        ∙ ap (λ l. some (take (limit + 1) l)) window in
      rw (decode_optional-encode codec (key_of m) clean, get_history) (rw rows)

  newest_page :
      (s : table.State) (channel : Text) (limit : ℕ)
      → get_history codec table s channel none limit
        ≡ some (to_page codec table limit (take (limit + 1) (table.messages s channel)))
  unfolding get_history decode_optional
  newest_page s channel limit = rw (table.find_many_newest s channel (limit + 1), get_history)

  -- From a point of the scroll where `rest` is left.
  scroll_rest :
      (fuel : ℕ) (s : table.State) (channel : Text) (limit : ℕ) (cursor : Option Text)
      (newer rest : List Message)
      → 0 < limit
      → length rest < fuel
      → table.messages s channel ≡ newer ++ rest
      → All (λ m. All (λ c. c ≢ b'_') m.row.id) rest
      → get_history codec table s channel cursor limit
        ≡ some (to_page codec table limit (take (limit + 1) rest))
      → scroll fuel s channel limit cursor ≡ some (reverse rest)
  scroll_rest zero s channel limit cursor newer rest pos enough whole clean page =
      absurd (omega arith)
  scroll_rest (suc fuel) s channel zero cursor newer rest pos enough whole clean page =
      absurd (omega arith)
  scroll_rest (suc fuel) s channel (suc k) cursor newer rest pos enough whole clean page =
      elim (Bool-cases (ltb (suc k) (length rest))) [
        | inr short ↦
            scroll_end fuel s channel (suc k) cursor (reverse rest)
              (page ∙ ap some (to_page_end (suc k) rest (ground arith)))
        | inl long ↦ onward (scroll_rest fuel s channel (suc k)) (cut k rest (ltb→lt _ _ long))
      ]
    where
      onward :
          ((cursor : Option Text) (newer rest : List Message)
            → 0 < suc k
            → length rest < fuel
            → table.messages s channel ≡ newer ++ rest
            → All (λ m. All (λ c. c ≢ b'_') m.row.id) rest
            → get_history codec table s channel cursor (suc k)
              ≡ some (to_page codec table (suc k) (take (suc k + 1) rest))
            → scroll fuel s channel (suc k) cursor ≡ some (reverse rest))
          → Cut k rest
          → scroll (suc fuel) s channel (suc k) cursor ≡ some (reverse rest)
      onward ih c =
          let front = c.newer ++ c.last ∷ [] in
          let behind = c.next ∷ c.older in
          let shown =
            subst
              (λ n.
                to_page codec table (suc n) (take (suc n + 1) (c.newer ++ c.last ∷ behind))
                ≡ record {
                  messages = reverse front;
                  next_cursor = some (encode_cursor codec (key_of c.last));
                })
              c.count (to_page_more c.newer c.last c.next c.older) in
          let here =
            page
            ∙ ap (λ r. some (to_page codec table (suc k) (take (suc k + 1) r))) c.whole
            ∙ ap some shown in
          let at_last : table.messages s channel ≡ (newer ++ c.newer) ++ c.last ∷ behind =
            whole
            ∙ ap (λ r. newer ++ r) c.whole
            ∙ sym (append_assoc newer c.newer (c.last ∷ behind)) in
          let (last_clean, behind_clean) =
            All-behind _ c.newer c.last behind (subst (All _) c.whole clean) in
          let older =
            ih (some (encode_cursor codec (key_of c.last))) ((newer ++ c.newer) ++ c.last ∷ [])
              behind pos (omega (arith, ap length c.whole, length-append c.newer (c.last ∷ behind)))
              (at_last ∙ sym (append_assoc (newer ++ c.newer) (c.last ∷ []) behind)) behind_clean
              (history_before s channel (suc k) (newer ++ c.newer) behind c.last at_last
                last_clean) in
          scroll_more fuel s channel (suc k) cursor (reverse front) (reverse behind) _ here older
          ∙ ap some (
              sym (reverse-append front behind)
              ∙ ap reverse (append_assoc c.newer (c.last ∷ []) behind ∙ sym c.whole))

  -- Scrolling to the top of a channel, at least one message to a page, ends, and shows every
  -- message of the channel exactly once, the oldest first, if the identifiers have no underscore.
  pub scroll_shows_everything :
      (s : table.State) (channel : Text) (limit : ℕ)
      → 0 < limit
      → All (λ m. All (λ c. c ≢ b'_') m.row.id) (table.messages s channel)
      → scroll (suc (length (table.messages s channel))) s channel limit none
        ≡ some (reverse (table.messages s channel))
  scroll_shows_everything s channel limit pos clean =
      scroll_rest _ s channel limit none [] (table.messages s channel) pos (omega arith) refl clean
        (newest_page s channel limit)
