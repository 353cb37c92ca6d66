-- ===== src/Store/Client.antt =====
-- The Prisma client: the calls that the services make of it, and the documented behaviour of each.
use mathlib.Core.Option
use munichat.Prelude.{ℕ, ◌≡◌, Option, none, some, List, if◌then◌else◌}
use munichat.Text.{Text, text_eq}
use munichat.Store.Rows.{
  User, Channel, ChannelMember, MessageRow, Message, Extras, ReplyToMessage, NewMessage,
  MessagePatch,
}

-- What an update with a patch makes of a row: only the given fields are written.
unfoldable pub patched : MessagePatch → MessageRow → MessageRow
patched p r = record r {
  content = p.content;
  edited_at = elim p.edited_at [ none ↦ r.edited_at | some t ↦ some t ];
  deleted_at = elim p.deleted_at [ none ↦ r.deleted_at | some t ↦ some t ];
}

-- What `create` stores: the given data; the identifier and the time are the database's.
pub record Stores (n : NewMessage) (r : MessageRow) : Type 0 where
  pub channel_id : r.channel_id ≡ n.channel_id
  pub author_id : r.author_id ≡ n.author_id
  pub content : r.content ≡ n.content
  pub type : r.type ≡ n.type
  pub reply_to_id : r.reply_to_id ≡ n.reply_to_id
  pub edited_at : r.edited_at ≡ none
  pub deleted_at : r.deleted_at ≡ none

abbrev pub marked_read : Text → ℕ → ChannelMember → ChannelMember
marked_read message at m = record m { last_read_message_id = some message; last_read_at = some at }

pub record Prisma : Type 1 where
  pub State : Type 0
  -- the relations of a row, as `include: MESSAGE_INCLUDE` loads them
  pub extras : State → MessageRow → Extras
  pub find_row : State → Text → Option MessageRow
  pub find_user : State → Text → Option User
  pub find_member : State → Text → Text → Option ChannelMember
  pub memberships : State → Text → List (ChannelMember × Channel)
  -- `none` is a rejected promise, the state unchanged
  pub create_message : NewMessage → State → Option (MessageRow × State)
  pub update_message : Text → MessagePatch → State → Option State
  pub update_member : Text → Text → Text → ℕ → State → Option State
  -- what the client's documentation promises
  pub create_stores :
      (n : NewMessage) (s s' : State) (r : MessageRow)
      → create_message n s ≡ some (r, s')
      → Stores n r
  pub create_fresh :
      (n : NewMessage) (s s' : State) (r : MessageRow)
      → create_message n s ≡ some (r, s')
      → find_row s r.id ≡ none
  pub create_rows :
      (n : NewMessage) (s s' : State) (r : MessageRow) (id : Text)
      → create_message n s ≡ some (r, s')
      → find_row s' id ≡ (if text_eq r.id id then some r else find_row s id)
  pub create_members :
      (n : NewMessage) (s s' : State) (r : MessageRow) (user channel : Text)
      → create_message n s ≡ some (r, s')
      → find_member s' user channel ≡ find_member s user channel
  pub update_total :
      (id : Text) (p : MessagePatch) (s : State) (r : MessageRow)
      → find_row s id ≡ some r
      → (s' : State) × (update_message id p s ≡ some s')
  pub update_rows :
      (id : Text) (p : MessagePatch) (s s' : State) (j : Text)
      → update_message id p s ≡ some s'
      → find_row s' j
        ≡ (if text_eq id j then Option.map (patched p) (find_row s j) else find_row s j)
  pub update_member_total :
      (user channel message : Text) (at : ℕ) (s : State) (m : ChannelMember)
      → find_member s user channel ≡ some m
      → (s' : State) × (update_member user channel message at s ≡ some s')
  pub update_member_rows :
      (user channel message : Text) (at : ℕ) (s s' : State) (id : Text)
      → update_member user channel message at s ≡ some s'
      → find_row s' id ≡ find_row s id
  pub update_member_mark :
      (user channel message : Text) (at : ℕ) (s s' : State)
      → update_member user channel message at s ≡ some s'
      → find_member s' user channel
        ≡ Option.map (marked_read message at) (find_member s user channel)
  pub extras_reply :
      (s : State) (r q : MessageRow) (id : Text)
      → r.reply_to_id ≡ some id
      → find_row s id ≡ some q
      → Option.map (λ (m : ReplyToMessage). m.row) (extras s r).reply_to ≡ some q

module _ (db : Prisma) where
  -- A row with its relations.
  unfoldable pub hydrated : db.State → MessageRow → Message
  hydrated s r = record { row = r; extras = db.extras s r }

  -- `message.findUnique({ where: { id }, include: MESSAGE_INCLUDE })`
  unfoldable pub find_message : db.State → Text → Option Message
  unfolding hydrated
  find_message s id = Option.map (hydrated s) (db.find_row s id)
