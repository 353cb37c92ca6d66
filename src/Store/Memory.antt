-- ===== src/Store/Memory.antt =====
-- A database in memory: it keeps the documented behaviour of the client, and the tests run on it.
use mathlib.Core.Option
use munichat.Text.Laws.{text_eq_refl}
use munichat.Prelude.{
  ℕ, suc, ◌≡◌, refl, sym, ap, subst, ◌∙◌, Option, none, some, [], ◌++◌, if◌then◌else◌, ◌&&◌,
}
use munichat.Text.{Text, lit, text_eq, show}
use munichat.Store.Rows.{
  User, ChannelMember, MessageRow, Extras, NewMessage, MessagePatch, RmmAlertRef, TicketRefRow,
  LinkPreviewRow,
}
use munichat.Store.Client.{patched, marked_read, Stores, Prisma}

pub record Memory : Type 0 where
  pub rows : Text → Option MessageRow
  pub members : Text → Text → Option ChannelMember
  pub user : User
  pub next : ℕ
  pub alerts : Text → Option RmmAlertRef
  pub tickets : ℕ → Option TicketRefRow
  pub previews : Text → Option LinkPreviewRow

abbrev pub new_row : NewMessage → ℕ → MessageRow
new_row n at = record {
  id = lit "m" ++ show at;
  channel_id = n.channel_id;
  author_id = n.author_id;
  content = n.content;
  type = n.type;
  reply_to_id = n.reply_to_id;
  edited_at = none;
  deleted_at = none;
  created_at = at;
}

abbrev pub extras : Memory → MessageRow → Extras
extras s r = record {
  author = s.user;
  attachments = [];
  link_preview = none;
  ticket_ref = none;
  reply_to = elim r.reply_to_id [
    | none ↦ none
    | some id ↦ Option.map (λ q. record { row = q; author = s.user; attachments = [] }) (s.rows id)
  ];
}

abbrev pub added : MessageRow → Memory → Memory
added r s = record s {
  rows = λ id. if text_eq r.id id then some r else s.rows id;
  next = suc s.next;
}

abbrev pub create_message : NewMessage → Memory → Option (MessageRow × Memory)
create_message n s = elim (s.rows (new_row n s.next).id) [
  | some taken ↦ none
  | none ↦ some (new_row n s.next, added (new_row n s.next) s)
]

abbrev pub changed : Text → MessagePatch → Memory → Memory
changed id p s = record s {
  rows = λ j. if text_eq id j then Option.map (patched p) (s.rows j) else s.rows j;
}

abbrev pub update_message : Text → MessagePatch → Memory → Option Memory
update_message id p s = elim (s.rows id) [ none ↦ none | some r ↦ some (changed id p s) ]

abbrev pub marked : Text → Text → Text → ℕ → Memory → Memory
marked user channel message at s = record s {
  members = λ u c.
      if text_eq user u && text_eq channel c
      then Option.map (marked_read message at) (s.members u c)
      else s.members u c;
}

abbrev pub update_member : Text → Text → Text → ℕ → Memory → Option Memory
update_member user channel message at s = elim (s.members user channel) [
  | none ↦ none
  | some m ↦ some (marked user channel message at s)
]

pub create_message_inv :
    (n : NewMessage) (s s' : Memory) (r : MessageRow)
    → create_message n s ≡ some (r, s')
    → (s.rows (new_row n s.next).id ≡ none)
      × (new_row n s.next ≡ r)
      × (added (new_row n s.next) s ≡ s')
create_message_inv n s s' r e = go (s.rows (new_row n s.next).id) refl e
  where
    go :
        (o : Option MessageRow)
        → s.rows (new_row n s.next).id ≡ o
        → ◌≡◌ {A = Option (MessageRow × Memory)}
            (elim o [
              | some taken ↦ none
              | none ↦ some (new_row n s.next, added (new_row n s.next) s)
            ])
            (some (r, s'))
        → (s.rows (new_row n s.next).id ≡ none)
          × (new_row n s.next ≡ r)
          × (added (new_row n s.next) s ≡ s')
    go none free e = (free, cc, cc)
    go (some taken) free e = absurd (cc e)

pub update_message_inv :
    (id : Text) (p : MessagePatch) (s s' : Memory)
    → update_message id p s ≡ some s'
    → changed id p s ≡ s'
update_message_inv id p s s' = go (s.rows id)
  where
    go :
        (o : Option MessageRow)
        → elim o [ none ↦ none | some r ↦ some (changed id p s) ] ≡ some s'
        → changed id p s ≡ s'
    go none e = absurd (cc e)
    go (some r) e = cc

pub update_member_inv :
    (user channel message : Text) (at : ℕ) (s s' : Memory)
    → update_member user channel message at s ≡ some s'
    → marked user channel message at s ≡ s'
update_member_inv user channel message at s s' = go (s.members user channel)
  where
    go :
        (o : Option ChannelMember)
        → elim o [ none ↦ none | some m ↦ some (marked user channel message at s) ] ≡ some s'
        → marked user channel message at s ≡ s'
    go none e = absurd (cc e)
    go (some m) e = cc

abbrev pub memory : Prisma
memory = record {
  State = Memory;
  extras = extras;
  find_row = λ s id. s.rows id;
  find_user = λ s id. if text_eq s.user.id id then some s.user else none;
  find_member = λ s u c. s.members u c;
  memberships = λ s u. [];
  create_message = create_message;
  update_message = update_message;
  update_member = update_member;
  create_stores = λ n s s' r e.
      let (free, row, state) = create_message_inv n s s' r e in
      subst (Stores n) row (record {
        channel_id = refl;
        author_id = refl;
        content = refl;
        type = refl;
        reply_to_id = refl;
        edited_at = refl;
        deleted_at = refl;
      });
  create_fresh = λ n s s' r e.
      let (free, row, state) = create_message_inv n s s' r e in
      subst (λ (q : MessageRow). s.rows q.id ≡ none) row free;
  create_rows = λ n s s' r id e.
      let (free, row, state) = create_message_inv n s s' r e in
      subst (λ (q : MessageRow). s'.rows id ≡ (if text_eq q.id id then some q else s.rows id)) row
        (ap (λ (m : Memory). m.rows id) (sym state));
  create_members = λ n s s' r user channel e.
      let (free, row, state) = create_message_inv n s s' r e in
      ap (λ (m : Memory). m.members user channel) (sym state);
  update_total = λ id p s r e. (changed id p s, rw (e, update_message));
  update_rows =
      λ id p s s' j e. ap (λ (m : Memory). m.rows j) (sym (update_message_inv id p s s' e));
  update_member_total =
      λ user channel message at s m e. (marked user channel message at s, rw (e, update_member));
  update_member_rows = λ user channel message at s s' id e.
      ap (λ (m : Memory). m.rows id) (sym (update_member_inv user channel message at s s' e));
  update_member_mark = λ user channel message at s s' e.
      ap (λ (m : Memory). m.members user channel)
        (sym (update_member_inv user channel message at s s' e))
      ∙ rw (text_eq_refl user, text_eq_refl channel);
  extras_reply = λ s r q id e found. rw e (rw found);
}
