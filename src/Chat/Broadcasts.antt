-- ===== src/Chat/Broadcasts.antt =====
-- What the clients are told of a message that its author edits or deletes.
use munichat.Prelude.{ℕ, ◌≡◌, sym, ◌∙◌, refl, ap, subst, Option, none, some, [], ◌∷◌, ◌++◌, arith}
use mathlib.Core.Option
use munichat.Text.{Text}
use munichat.Text.Laws.{text_eq_iff}
use munichat.Shared.{MessageDto, EditMessageRequest, message_updated}
use munichat.Store.{Prisma, MessageRow, Message, patched}
use munichat.Server.{Socket, Emission, room, Payload, World, Result, ok, ◌>>=◌}
use munichat.Messages.{Env, to_message_dto, update, soft_delete}
use munichat.Messages.Updates.{update_row-eq-ok}
use munichat.Messages.Deleted.{IsTombstone}
use munichat.Chat.Gateway.{MessageMutationAck, channel_room, edit, delete}

-- `message:updated` to the whole room of the message's channel.
abbrev pub to_room : MessageDto → Emission
to_room dto = record {
  audience = room (channel_room dto.channel_id);
  event = message_updated;
  payload = Payload.message dto;
}

-- What is shown of a message is the state of its row.
pub record IsStateOf (env : Env) (r : MessageRow) (dto : MessageDto) : Type 0 where
  pub id : dto.id ≡ r.id
  pub channel : dto.channel_id ≡ r.channel_id
  pub author : dto.author_id ≡ r.author_id
  pub content : dto.content ≡ r.content
  pub edited : dto.edited_at ≡ Option.map env.to_iso_string r.edited_at
  pub deleted : dto.deleted_at ≡ Option.map env.to_iso_string r.deleted_at

to_message_dto-IsStateOf : (env : Env) (m : Message) → IsStateOf env m.row (to_message_dto env m)
unfolding to_message_dto
to_message_dto-IsStateOf env m = record {
  id = refl;
  channel = refl;
  author = refl;
  content = refl;
  edited = refl;
  deleted = refl;
}

module _ (db : Prisma) (env : Env) (real_object_size : Text → Option ℕ) where
  -- Where the world goes when a message is broadcast.
  abbrev pub told : World db.State → MessageDto → World db.State
  told v dto = record v { emitted = v.emitted ++ to_room dto ∷ [] }

  pub edit_of_own :
      (socket : Socket) (request : EditMessageRequest) (existing m : Message) (w v : World db.State)
      → existing.row.author_id ≡ socket.user.id
      → existing.row.deleted_at ≡ none
      → update db request.message_id request.content w ≡ (ok m, v)
      → edit db env real_object_size socket request (some existing) w
        ≡ (ok (MessageMutationAck.message (to_message_dto env m)), told v (to_message_dto env m))
  unfolding edit ◌>>=◌
  edit_of_own socket request existing m w v own live done =
      ground (arith, text_eq_iff existing.row.author_id socket.user.id)

  pub delete_of_own :
      (socket : Socket) (id : Text) (existing m : Message) (w v : World db.State)
      → existing.row.author_id ≡ socket.user.id
      → soft_delete db id w ≡ (ok m, v)
      → delete db env real_object_size socket id (some existing) w
        ≡ (ok (MessageMutationAck.message (to_message_dto env m)), told v (to_message_dto env m))
  unfolding delete ◌>>=◌
  delete_of_own socket id existing m w v own done =
      ground (arith, text_eq_iff existing.row.author_id socket.user.id)

  acknowledged_inv :
      {dto dto' : MessageDto} {w w' : World db.State}
      → ◌≡◌ {A = Result MessageMutationAck × World db.State}
          (ok (MessageMutationAck.message dto), w)
          (ok (MessageMutationAck.message dto'), w')
      → (dto ≡ dto') × (w ≡ w')
  acknowledged_inv e = (cc, cc)

  -- The row that the database holds after an action on a message, and what was said of it.
  abbrev pub Holds : Text → World db.State → MessageDto → (MessageRow → Type 0) → Type 0
  Holds id w' dto P =
      (r' : MessageRow) × (db.find_row w'.db id ≡ some r') × P r' × IsStateOf env r' dto

  pub edit_holds :
      (socket : Socket) (request : EditMessageRequest) (existing : Message) (r : MessageRow)
      (w w' : World db.State) (dto : MessageDto)
      → db.find_row w.db request.message_id ≡ some r
      → existing.row.author_id ≡ socket.user.id
      → existing.row.deleted_at ≡ none
      → edit db env real_object_size socket request (some existing) w
        ≡ (ok (MessageMutationAck.message dto), w')
      → Holds request.message_id w' dto
          (λ r'. (r'.content ≡ request.content) × (r'.edited_at ≡ some w.now))
  unfolding update patched ◌>>=◌
  edit_holds socket request existing r w w' dto stored own live e =
      let (m, s, updated, row, kept) =
        update_row-eq-ok db request.message_id
          (record { content = request.content; edited_at = some w.now; deleted_at = none }) w r
          stored in
      let (same, there) = acknowledged_inv (
        sym (edit_of_own socket request existing m w (record w { db = s }) own live updated) ∙ e) in
      (
        m.row,
        ap (λ v. db.find_row (World.db v) request.message_id) (sym there)
            ∙ (kept ∙ ap some (sym row)),
        (ap (λ (q : MessageRow). q.content) row, ap (λ (q : MessageRow). q.edited_at) row),
        subst (IsStateOf env m.row) same (to_message_dto-IsStateOf env m),
      )

  pub delete_holds :
      (socket : Socket) (id : Text) (existing : Message) (r : MessageRow) (w w' : World db.State)
      (dto : MessageDto)
      → db.find_row w.db id ≡ some r
      → existing.row.author_id ≡ socket.user.id
      → delete db env real_object_size socket id (some existing) w
        ≡ (ok (MessageMutationAck.message dto), w')
      → Holds id w' dto IsTombstone
  unfolding soft_delete patched ◌>>=◌
  delete_holds socket id existing r w w' dto stored own e =
      let (m, s, updated, row, kept) =
        update_row-eq-ok db id (record { content = []; edited_at = none; deleted_at = some w.now })
          w r stored in
      let (same, there) =
        acknowledged_inv
          (sym (delete_of_own socket id existing m w (record w { db = s }) own updated) ∙ e) in
      let gone : m.row.deleted_at ≡ some w.now = ap (λ (q : MessageRow). q.deleted_at) row in
      (
        m.row,
        ap (λ v. db.find_row (World.db v) id) (sym there) ∙ (kept ∙ ap some (sym row)),
        record { deleted = ground arith; blank = ap (λ (q : MessageRow). q.content) row },
        subst (IsStateOf env m.row) same (to_message_dto-IsStateOf env m),
      )
