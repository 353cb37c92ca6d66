-- ===== src/Messages/Search.antt =====
-- `search` of apps/api/src/messages/messages.service.ts, with the handlers of
-- messages-search.controller.ts and messages.controller.ts
pub mod Scope
use munichat.Prelude.{
  ℕ, ◌+◌, ◌-◌, ◌≡◌, Bool, true, false, ◌||◌, ◌&&◌, ◌==◌, keep, Option, none, some, List, [], ◌∷◌,
  map, if◌then◌else◌, ltb, take, length, get_elem?, All, is_empty,
}
use munichat.Text.{Text, text_eq}
use munichat.Shared.{MessageDto}
use munichat.Store.{Prisma, MessageRow, Message, Channel}
use munichat.Store.Table.{DecodedCursor, key_of, MessageTable}
use munichat.Server.{Result, ok, thrown, http, rejected}
use munichat.Channels.{is_member, list_for_user}
use munichat.Messages.Mapper.{Env, to_message_dto}
use munichat.Messages.History.{Codec, HistoryPage, encode_cursor, decode_optional, get_history}

-- Membership of a text in a list.
abbrev pub has : Text → List Text → Bool
has t [] = false
has t (u ∷ us) = text_eq t u || has t us

pub record SearchTable (db : Prisma) : Type 0 where
  -- the rows of the table `Message`
  pub all_rows : db.State → List MessageRow
  -- `message_search_vector(content) @@ websearch_to_tsquery('portuguese', query)`
  pub is_match : Text → Text → Bool
  -- the order in which the database compares identifiers
  pub id_lt : Text → Text → Bool
  -- whether the query is rejected, as for an invalid date
  pub refuses : db.State → Option DecodedCursor → Bool
  -- `message.findMany({ where: { id: { in } } })`
  pub find_in : db.State → List Text → List Message
  pub all_rows_stored :
      (s : db.State) → All (λ (r : MessageRow). db.find_row s r.id ≡ some r) (all_rows s)
  pub find_in_rows :
      (s : db.State) (ids : List Text)
      → All (λ (m : Message). db.find_row s m.row.id ≡ some m.row) (find_in s ids)
  -- a membership that is listed is found by its channel
  pub memberships_found :
      (s : db.State) (user : Text)
      → All (λ (c : Channel). is_member db s user c.id ≡ true) (list_for_user db s user)

abbrev is_null : Option ℕ → Bool
is_null none = true
is_null (some at) = false

-- `(createdAt, id) < (at, last)`
abbrev row_lt : (Text → Text → Bool) → MessageRow → ℕ → Text → Bool
row_lt id_lt r at last = ltb r.created_at at || r.created_at == at && id_lt r.id last

-- The optional condition on the cursor; a comparison with NULL does not hold.
abbrev after_cursor : (Text → Text → Bool) → Option DecodedCursor → MessageRow → Bool
after_cursor id_lt none r = true
after_cursor id_lt (some d) r = elim d.created_at [
  | none ↦ false
  | some at ↦ elim d.id [ none ↦ false | some last ↦ row_lt id_lt r at last ]
]

-- `ORDER BY "createdAt" DESC, "id" DESC`
unfoldable pub insert_row : (Text → Text → Bool) → MessageRow → List MessageRow → List MessageRow
insert_row id_lt r [] = r ∷ []
insert_row id_lt r (q ∷ qs) =
    let rest = insert_row id_lt r qs in
    if row_lt id_lt r q.created_at q.id then q ∷ rest else r ∷ q ∷ qs

unfoldable pub newest_first : (Text → Text → Bool) → List MessageRow → List MessageRow
unfolding insert_row
newest_first id_lt [] = []
newest_first id_lt (r ∷ rs) = insert_row id_lt r (newest_first id_lt rs)

module _ (db : Prisma) (table : SearchTable db) where
  -- The conditions after WHERE.
  unfoldable pub is_found : List Text → Text → Option DecodedCursor → MessageRow → Bool
  is_found channels q cursor r =
      has r.channel_id channels
      && is_null r.deleted_at
      && table.is_match r.content q
      && after_cursor table.id_lt cursor r

  -- The raw query: the identifiers of the messages that match; `none` is a rejected promise.
  unfoldable pub query : db.State → List Text → Text → Option DecodedCursor → ℕ → Option (List Text)
  unfolding is_found newest_first
  query s channels q cursor n =
      if table.refuses s cursor
      then none
      else some (
          map (λ (r : MessageRow). r.id)
            (take n
              (newest_first table.id_lt (keep (is_found channels q cursor) (table.all_rows s)))))

-- `rowsById.get(id)`
unfoldable pub by_id : List Message → Text → Option Message
by_id [] id = none
by_id (m ∷ ms) id = let later = by_id ms id in if text_eq m.row.id id then some m else later

-- `.map((row) => rowsById.get(row.id)).filter(…)`
unfoldable pub hydrate : List Message → List Text → List Message
unfolding by_id
hydrate rows [] = []
hydrate rows (id ∷ ids) = elim (by_id rows id) [
  | none ↦ hydrate rows ids
  | some m ↦ m ∷ hydrate rows ids
]

-- The answer of the handlers of messages.
pub record MessagesResponse : Type 0 where
  pub messages : List MessageDto
  pub next_cursor : Option Text

abbrev pub respond : Env → Option HistoryPage → Result MessagesResponse
respond env none = thrown rejected
respond env (some page) =
    ok
      (record { messages = map (to_message_dto env) page.messages; next_cursor = page.next_cursor })

module _ (db : Prisma) (table : SearchTable db) (codec : Codec) where
  -- `hasMore && lastRow ? encodeCursor(lastRow) : null`
  unfoldable pub next_cursor : Bool → List Message → List Text → Option Text
  unfolding by_id encode_cursor
  next_cursor has_more rows page = elim (get_elem? page (length page - 1)) [
    | none ↦ none
    | some last ↦ elim (by_id rows last) [
      | none ↦ none
      | some m ↦ if has_more then some (encode_cursor codec (key_of m)) else none
    ]
  ]

  -- `search`, from the matches on
  unfoldable pub to_results : db.State → ℕ → List Text → HistoryPage
  unfolding hydrate next_cursor
  to_results s limit matches =
      let page = take limit matches in
      let rows = table.find_in s page in
      if is_empty page then record { messages = []; next_cursor = none } else record {
        messages = hydrate rows page;
        next_cursor = next_cursor (ltb limit (length matches)) rows page;
      }

  -- `search`; `none` is a rejected promise.
  unfoldable pub search_messages :
      db.State → Text → List Text → Option Text → ℕ → Option HistoryPage
  unfolding to_results decode_optional query
  search_messages s q [] cursor limit = some (record { messages = []; next_cursor = none })
  search_messages s q (channel ∷ channels) cursor limit =
      elim (query db table s (channel ∷ channels) q (decode_optional codec cursor) (limit + 1)) [
        | none ↦ none
        | some matches ↦ some (to_results s limit matches)
      ]

  -- `resolveSearchScope`; an empty text is no channel.
  unfoldable pub resolve_search_scope : db.State → Text → Option Text → Result (List Text)
  unfolding is_member list_for_user
  resolve_search_scope s user none = ok (map (λ (c : Channel). c.id) (list_for_user db s user))
  resolve_search_scope s user (some []) = ok (map (λ (c : Channel). c.id) (list_for_user db s user))
  resolve_search_scope s user (some (c ∷ t)) =
      if is_member db s user (c ∷ t)
      then ok ((c ∷ t) ∷ [])
      else thrown (http 403 "You are not a member of this channel")

  abbrev pub respond_in :
      Env → db.State → Text → Option Text → ℕ → Result (List Text) → Result MessagesResponse
  respond_in env s q cursor limit (thrown e) = thrown e
  respond_in env s q cursor limit (ok channels) =
      respond env (search_messages s q channels cursor limit)

  -- `MessagesSearchController.search`
  unfoldable pub search_handler :
      Env → db.State → Text → Text → Option Text → Option Text → ℕ → Result MessagesResponse
  unfolding resolve_search_scope search_messages to_message_dto
  search_handler env s user q channel cursor limit =
      respond_in env s q cursor limit (resolve_search_scope s user channel)

  -- `MessagesController.getHistory`, on the messages of the channels
  unfoldable pub history_handler :
      (history : MessageTable)
      → history.State
      → Env
      → db.State
      → Text
      → Text
      → Option Text
      → ℕ
      → Result MessagesResponse
  unfolding is_member get_history to_message_dto
  history_handler history h env s user channel cursor limit =
      if is_member db s user channel
      then respond env (get_history codec history h channel cursor limit)
      else thrown (http 403 "You are not a member of this channel")
