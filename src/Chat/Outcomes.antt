-- ===== src/Chat/Outcomes.antt =====
-- What an edit, a deletion or a read mark that passes the guards does.
use munichat.Prelude.{ℕ, ◌≡◌, ◌≢◌, refl, ap, Option, none, some, [], ◌∷◌, ◌++◌, arith}
use munichat.Text.{Text}
use munichat.Shared.{MessageDto, EditMessageRequest, parse_edit}
use munichat.Store.{Prisma, MessageRow, MessagePatch, patched, find_message, hydrated}
use munichat.Server.{Socket, World, ok, ◌>>=◌}
use munichat.Messages.{Env, to_message_dto, update, soft_delete, get_by_id}
use munichat.Messages.Deleted.{IsTombstone}
use munichat.Messages.Updates.{update_row-eq-ok}
use munichat.Chat.Broadcasts.{to_room, told, edit_of_own, delete_of_own}
use munichat.Chat.Gateway.{MessageMutationAck, handle_message_edit, handle_message_delete}

-- What clients see of a deleted message: that it was one.
pub record IsScrubbed (dto : MessageDto) : Type 0 where
  pub deleted : dto.deleted_at ≢ none
  pub content : dto.content ≡ []
  pub attachments : dto.attachments ≡ []
  pub link_preview : dto.link_preview ≡ none
  pub ticket_ref : dto.ticket_ref ≡ none

module _ (db : Prisma) (env : Env) (real_object_size : Text → Option ℕ) where
  -- The author of a live message can edit it: the edit is acknowledged with the trimmed content,
  -- which is what the database then holds, with the message still live.
  pub edit_succeeds :
      (socket : Socket) (body : Option EditMessageRequest) (request : EditMessageRequest)
      (r : MessageRow) (w : World db.State)
      → parse_edit body ≡ some request
      → db.find_row w.db request.message_id ≡ some r
      → r.author_id ≡ socket.user.id
      → r.deleted_at ≡ none
      → (dto : MessageDto) × (w' : World db.State) × (r' : MessageRow) × (handle_message_edit db env
            real_object_size socket body w
          ≡ (ok (MessageMutationAck.message dto), w'))
        × (dto.content ≡ request.content)
        × (db.find_row w'.db request.message_id ≡ some r')
        × (r'.content ≡ request.content)
        × (r'.deleted_at ≡ none)
  unfolding handle_message_edit get_by_id find_message hydrated update patched to_message_dto ◌>>=◌
  edit_succeeds socket body request r w parsed stored own live =
      let patch : MessagePatch = record {
        content = request.content;
        edited_at = some w.now;
        deleted_at = none;
      } in
      let (m, s, updated, row, kept) = update_row-eq-ok db request.message_id patch w r stored in
      let edited =
        edit_of_own db env real_object_size socket request (hydrated db w.db r) m w
          (record w { db = s }) own live updated in
      (
        to_message_dto env m,
        told db env real_object_size (record w { db = s }) (to_message_dto env m),
        patched patch r,
        rw (parsed, handle_message_edit) (rw (stored, find_message) edited),
        ap (λ (q : MessageRow). q.content) row,
        kept,
        refl,
        live,
      )

  -- The author of a message can delete it, deleted already or not: what is acknowledged is scrubbed,
  -- the same goes to the room of its channel and nothing else is emitted, and the database holds a
  -- tombstone.
  pub delete_succeeds :
      (socket : Socket) (id : Text) (r : MessageRow) (w : World db.State)
      → db.find_row w.db id ≡ some r
      → r.author_id ≡ socket.user.id
      → (dto : MessageDto) × (w' : World db.State) × (r' : MessageRow) × (handle_message_delete db
            env real_object_size socket
            (some (record { message_id = id }))
            w
          ≡ (ok (MessageMutationAck.message dto), w'))
        × IsScrubbed dto
        × (w'.emitted ≡ w.emitted ++ to_room dto ∷ [])
        × (db.find_row w'.db id ≡ some r')
        × IsTombstone r'
  unfolding handle_message_delete get_by_id find_message hydrated soft_delete patched to_message_dto
      ◌>>=◌
  delete_succeeds socket id r w stored own =
      let patch : MessagePatch = record {
        content = [];
        edited_at = none;
        deleted_at = some w.now;
      } in
      let (m, s, updated, row, kept) = update_row-eq-ok db id patch w r stored in
      let deleted =
        delete_of_own db env real_object_size socket id (hydrated db w.db r) m w
          (record w { db = s }) own updated in
      let gone : m.row.deleted_at ≡ some w.now = ap (λ (q : MessageRow). q.deleted_at) row in
      (
        to_message_dto env m,
        told db env real_object_size (record w { db = s }) (to_message_dto env m),
        patched patch r,
        rw (stored, find_message) deleted,
        record {
          deleted = ground arith;
          content = ap (λ (q : MessageRow). q.content) row;
          attachments = rw gone;
          link_preview = rw gone;
          ticket_ref = rw gone;
        },
        refl,
        kept,
        record { deleted = ground arith; blank = refl },
      )
