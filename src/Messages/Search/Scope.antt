-- ===== src/Messages/Search/Scope.antt =====
-- What a search shows: messages of the searcher's channels only.
use munichat.Prelude.{
  ℕ, zero, suc, Bool, false, keep, ltb, ◌==◌, ◌||◌, ◌&&◌, if◌then◌else◌, ◌≡◌, refl, sym, ap, ◌∙◌,
  subst, true, Option, none, some, List, [], ◌∷◌, map, take, ◌+◌, arith, All, is_empty, Bool-cases,
  Option-cases, inl, inr,
}
use munichat.Text.{Text, text_eq}
use munichat.Text.Laws.{text_eq_iff}
use munichat.Shared.{MessageDto}
use munichat.Store.{Prisma, MessageRow, Message, Channel}
use munichat.Server.{Result, ok, thrown, Failure}
use munichat.Channels.{is_member, list_for_user}
use munichat.Messages.Mapper.{Env, to_message_dto}
use munichat.Store.Table.{DecodedCursor}
use munichat.Messages.History.{Codec, HistoryPage, decode_optional}
use munichat.Messages.Search.{
  has, SearchTable, insert_row, newest_first, is_found, query, by_id, hydrate, to_results,
  search_messages, resolve_search_scope, MessagesResponse, respond, respond_in, search_handler,
}

some-eq_inv {ℓ} : {A : Type ℓ} {a b : A} → some a ≡ some b → a ≡ b
some-eq_inv e = cc

has_All :
    (P : Text → Type 0) (c : Text) (channels : List Text)
    → All P channels
    → has c channels ≡ true
    → P c
has_All P c [] h e = absurd (cc e)
has_All P c (d ∷ ds) h e = elim (Bool-cases (text_eq c d)) [
  | inl same ↦ subst P (sym ((text_eq_iff c d).0 same)) (h.0)
  | inr other ↦ has_All P c ds (h.1) (rw other at e)
]

by_id_inv :
    (P : Message → Type 0) (rows : List Message) (id : Text) (m : Message)
    → All P rows
    → by_id rows id ≡ some m
    → P m × (m.row.id ≡ id)
unfolding by_id
by_id_inv P [] id m h e = absurd (cc e)
by_id_inv P (r ∷ rs) id m h e = elim (Bool-cases (text_eq r.row.id id)) [
  | inl same ↦
      let found = some-eq_inv (rw (same, by_id) at e) in
      (
        subst P found (h.0),
        ap (λ (n : Message). n.row.id) (sym found) ∙ (text_eq_iff r.row.id id).0 same,
      )
  | inr other ↦ by_id_inv P rs id m (h.1) (rw (other, by_id) at e)
]

All-implies :
    (P Q : Message → Type 0) (ms : List Message) → ((m : Message) → P m → Q m) → All P ms → All Q ms
All-implies P Q [] f h = tt
All-implies P Q (m ∷ ms) f h = (f m (h.0), All-implies P Q ms f (h.1))

All-map_dto :
    (P : Text → Type 0) (env : Env) (ms : List Message)
    → All (λ (m : Message). P m.row.channel_id) ms
    → All (λ (d : MessageDto). P d.channel_id) (map (to_message_dto env) ms)
unfolding to_message_dto
All-map_dto P env [] h = tt
All-map_dto P env (m ∷ ms) h = (h.0, All-map_dto P env ms (h.1))

thrown-ne-ok : {A : Type 0} {e : Failure} {a : A} → thrown e ≡ ok a → ⊥
thrown-ne-ok e = ground (arith, e)

ok-eq_inv : {A : Type 0} {a b : A} → ok a ≡ ok b → a ≡ b
ok-eq_inv e = cc

All-take_rows :
    (P : MessageRow → Type 0) (n : ℕ) (rs : List MessageRow) → All P rs → All P (take n rs)
All-take_rows P zero rs h = tt
All-take_rows P (suc n) [] h = tt
All-take_rows P (suc n) (r ∷ rs) h = (h.0, All-take_rows P n rs (h.1))

All-insert_row :
    (P : MessageRow → Type 0) (id_lt : Text → Text → Bool) (r : MessageRow) (rs : List MessageRow)
    → P r
    → All P rs
    → All P (insert_row id_lt r rs)
unfolding insert_row
All-insert_row P id_lt r [] p h = (p, tt)
All-insert_row P id_lt r (q ∷ qs) p h = go (row_before r q) (All-insert_row P id_lt r qs p (h.1))
  where
    row_before : MessageRow → MessageRow → Bool
    row_before a b =
        ltb a.created_at b.created_at || a.created_at == b.created_at && id_lt a.id b.id

    go :
        (b : Bool)
        → All P (insert_row id_lt r qs)
        → All P (if b then q ∷ insert_row id_lt r qs else r ∷ q ∷ qs)
    go true k = (h.0, k)
    go false k = (p, h)

All-newest_first :
    (P : MessageRow → Type 0) (id_lt : Text → Text → Bool) (rs : List MessageRow)
    → All P rs
    → All P (newest_first id_lt rs)
unfolding newest_first
All-newest_first P id_lt [] h = tt
All-newest_first P id_lt (r ∷ rs) h =
    All-insert_row P id_lt r (newest_first id_lt rs) (h.0) (All-newest_first P id_lt rs (h.1))

module _ (db : Prisma) (table : SearchTable db) (codec : Codec) (s : db.State) where
  -- A stored row in these channels.
  abbrev Found : List Text → MessageRow → Type 0
  Found channels r = (db.find_row s r.id ≡ some r) × (has r.channel_id channels ≡ true)

  All-keep :
      (channels : List Text) (f : MessageRow → Bool) (rs : List MessageRow)
      → ((r : MessageRow) → f r ≡ true → has r.channel_id channels ≡ true)
      → All (λ (r : MessageRow). db.find_row s r.id ≡ some r) rs
      → All (Found channels) (keep f rs)
  All-keep channels f [] inside h = tt
  All-keep channels f (r ∷ rs) inside h = go (f r) refl (All-keep channels f rs inside (h.1))
    where
      go :
          (b : Bool)
          → f r ≡ b
          → All (Found channels) (keep f rs)
          → All
              (Found channels)
              (elim b as (λ _. List MessageRow) [ true ↦ r ∷ keep f rs | false ↦ keep f rs ])
      go true e k = ((h.0, inside r e), k)
      go false e k = k

  -- The row of an identifier that the query found in these channels.
  abbrev InScope : List Text → Text → Type 0
  InScope channels id =
      (r : MessageRow) × (db.find_row s id ≡ some r) × (has r.channel_id channels ≡ true)

  All-ids :
      (channels : List Text) (rs : List MessageRow)
      → All (Found channels) rs
      → All (InScope channels) (map (λ (r : MessageRow). r.id) rs)
  All-ids channels [] h = tt
  All-ids channels (r ∷ rs) h = ((r, h.0.0, h.0.1), All-ids channels rs (h.1))

  query-InScope :
      (channels : List Text) (q : Text) (cursor : Option DecodedCursor) (n : ℕ) (ids : List Text)
      → query db table s channels q cursor n ≡ some ids
      → All (InScope channels) ids
  unfolding query is_found
  query-InScope channels q cursor n ids e = elim (Bool-cases (table.refuses s cursor)) [
    | inl refused ↦ absurd (cc (rw (refused, query) at e))
    | inr accepted ↦ subst (All (InScope channels)) (some-eq_inv (rw (accepted, query) at e)) (
        All-ids channels (take n _) (
          All-take_rows (Found channels) n _ (
            All-newest_first (Found channels) table.id_lt _ (
              All-keep channels (is_found db table channels q cursor) (table.all_rows s)
                (λ r h. ground (arith, h)) (table.all_rows_stored s)))))
  ]

  hydrate-InScope :
      (channels : List Text) (rows : List Message) (ids : List Text)
      → All (λ (m : Message). db.find_row s m.row.id ≡ some m.row) rows
      → All (InScope channels) ids
      → All (λ (m : Message). has m.row.channel_id channels ≡ true) (hydrate rows ids)
  unfolding hydrate
  hydrate-InScope channels rows [] found h = tt
  hydrate-InScope channels rows (id ∷ ids) found h = elim (Option-cases (by_id rows id)) [
    | inl missing ↦ rw (missing, hydrate) (hydrate-InScope channels rows ids found (h.1))
    | inr (m, got) ↦
        let (row, same) =
          by_id_inv (λ n. db.find_row s n.row.id ≡ some n.row) rows id m found got in
        let (r, stored, inside) = h.0 in
        let equal = some-eq_inv (sym stored ∙ (ap (λ i. db.find_row s i) (sym same) ∙ row)) in
        rw (got, hydrate)
          (
            subst (λ (q : MessageRow). has q.channel_id channels ≡ true) equal inside,
            hydrate-InScope channels rows ids found (h.1),
          )
  ]

  All-take : (P : Text → Type 0) (n : ℕ) (ids : List Text) → All P ids → All P (take n ids)
  All-take P zero ids h = tt
  All-take P (suc n) [] h = tt
  All-take P (suc n) (id ∷ ids) h = (h.0, All-take P n ids (h.1))

  to_results-InScope :
      (channels : List Text) (limit : ℕ) (matches : List Text)
      → All (InScope channels) matches
      → All
          (λ (m : Message). has m.row.channel_id channels ≡ true)
          (to_results db table codec s limit matches).messages
  unfolding to_results
  to_results-InScope channels limit matches h = elim (Bool-cases (is_empty (take limit matches))) [
    | inl none_found ↦ rw (none_found, to_results) tt
    | inr more ↦
        rw (more, to_results)
          (hydrate-InScope channels (table.find_in s (take limit matches)) (take limit matches)
            (table.find_in_rows s (take limit matches))
            (All-take (InScope channels) limit matches h))
  ]

  search_messages-InScope :
      (q : Text) (channels : List Text) (cursor : Option Text) (limit : ℕ) (page : HistoryPage)
      → search_messages db table codec s q channels cursor limit ≡ some page
      → All (λ (m : Message). has m.row.channel_id channels ≡ true) page.messages
  unfolding search_messages
  search_messages-InScope q [] cursor limit page e =
      subst (λ (p : HistoryPage). All (λ (m : Message). has m.row.channel_id [] ≡ true) p.messages)
        (some-eq_inv e) tt
  search_messages-InScope q (c ∷ cs) cursor limit page e =
      elim (Option-cases (query db table s (c ∷ cs) q (decode_optional codec cursor) (limit + 1))) [
        | inl refused ↦ absurd (cc (rw (refused, search_messages) at e))
        | inr (matches, found) ↦
            subst
              (λ (p : HistoryPage).
                All (λ (m : Message). has m.row.channel_id (c ∷ cs) ≡ true) p.messages)
              (some-eq_inv (rw (found, search_messages) at e))
              (to_results-InScope (c ∷ cs) limit matches
                (query-InScope (c ∷ cs) q (decode_optional codec cursor) (limit + 1) matches found))
      ]

  All-map_channel :
      (P : Text → Type 0) (cs : List Channel)
      → All (λ (c : Channel). P c.id) cs
      → All P (map (λ (c : Channel). c.id) cs)
  All-map_channel P [] h = tt
  All-map_channel P (c ∷ cs) h = (h.0, All-map_channel P cs (h.1))

  module _ (user : Text) where
    abbrev pub IsOwn : Text → Type 0
    IsOwn c = is_member db s user c ≡ true

    resolve-IsOwn :
        (channel : Option Text) (channels : List Text)
        → resolve_search_scope db table codec s user channel ≡ ok channels
        → All IsOwn channels
    unfolding resolve_search_scope
    resolve-IsOwn none channels e =
        subst (All IsOwn) (ok-eq_inv e)
          (All-map_channel IsOwn (list_for_user db s user) (table.memberships_found s user))
    resolve-IsOwn (some []) channels e =
        subst (All IsOwn) (ok-eq_inv e)
          (All-map_channel IsOwn (list_for_user db s user) (table.memberships_found s user))
    resolve-IsOwn (some (c ∷ t)) channels e = elim (Bool-cases (is_member db s user (c ∷ t))) [
      | inl own ↦ subst (All IsOwn) (ok-eq_inv (rw (own, resolve_search_scope) at e)) (own, tt)
      | inr other ↦ absurd (thrown-ne-ok (rw (other, resolve_search_scope) at e))
    ]

    -- A search shows only messages of channels that the searcher is a member of, whichever channel is
    -- asked for, whatever the words and the cursor are.
    pub search_handler-IsOwn :
        (env : Env) (q : Text) (channel cursor : Option Text) (limit : ℕ)
        (response : MessagesResponse)
        → search_handler db table codec env s user q channel cursor limit ≡ ok response
        → All (λ (d : MessageDto). is_member db s user d.channel_id ≡ true) response.messages
    unfolding search_handler
    search_handler-IsOwn env q channel cursor limit response =
        scoped (resolve_search_scope db table codec s user channel) refl
      where
        shown :
            (channels : List Text) (r : Option HistoryPage)
            → All IsOwn channels
            → search_messages db table codec s q channels cursor limit ≡ r
            → respond env r ≡ ok response
            → All (λ (d : MessageDto). is_member db s user d.channel_id ≡ true) response.messages
        shown channels none own found e = absurd (thrown-ne-ok e)
        shown channels (some page) own found e =
            subst
              (λ (a : MessagesResponse). All (λ (d : MessageDto). IsOwn d.channel_id) a.messages)
              (ok-eq_inv e)
              (All-map_dto IsOwn env page.messages (
                All-implies (λ m. has m.row.channel_id channels ≡ true)
                  (λ m. IsOwn m.row.channel_id) page.messages
                  (λ m inside. has_All IsOwn m.row.channel_id channels own inside)
                  (search_messages-InScope q channels cursor limit page found)))

        scoped :
            (r : Result (List Text))
            → resolve_search_scope db table codec s user channel ≡ r
            → respond_in db table codec env s q cursor limit r ≡ ok response
            → All (λ (d : MessageDto). is_member db s user d.channel_id ≡ true) response.messages
        scoped (thrown failure) known e = absurd (thrown-ne-ok e)
        scoped (ok channels) known e =
            shown channels (search_messages db table codec s q channels cursor limit)
              (resolve-IsOwn channel channels known) refl e
