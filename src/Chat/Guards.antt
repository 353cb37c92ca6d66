-- ===== src/Chat/Guards.antt =====
-- Who may do what: the guards of the gateway's handlers, and what each handler emits.
use Prim.Native.String.{String}
use munichat.Prelude.{
  ℕ, ◌≡◌, sym, ◌∙◌, inl, inr, refl, ap, true, false, Option, none, some, [], ◌∷◌, ◌++◌, arith,
  Bool-cases, Option-cases, ◌⊎◌,
}
use munichat.Text.{Text}
use munichat.Text.Laws.{text_eq_iff}
use munichat.Shared.{
  MessageDto, SendMessageRequest, EditMessageRequest, DeleteMessageRequest, message_new, parse_send,
  parse_edit,
}
use munichat.Store.{Prisma, MessageRow, Message, NewMessage, find_message}
use munichat.Server.{Socket, Emission, room_except, Payload, World, Result, ok, ◌>>=◌, bind-eq-ok}
use munichat.Server.Keeps.{Preorder, Keeps}
use munichat.Channels.{is_member, mark_read}
use munichat.Messages.{
  Env, CreateMessageInput, CreateMessageResult, created, error, create, create_row, get_by_id,
}
use munichat.Messages.Keeps.{create-Keeps}
use munichat.Messages.Deleted.{IsTombstone}
use munichat.Chat.Broadcasts.{to_room, Holds, edit_holds, delete_holds}
use munichat.Chat.Gateway.{
  MessageMutationAck, channel_room, publish, send, handle_message_send, edit, handle_message_edit,
  delete, handle_message_delete,
}

-- `message:new` to the room of a channel, without the sender.
abbrev pub to_others : Socket → Text → MessageDto → Emission
to_others socket channel dto = record {
  audience = room_except (channel_room channel) socket.id;
  event = message_new;
  payload = Payload.message dto;
}

module _ (db : Prisma) where
  -- An action that emits nothing.
  abbrev silent : Preorder db.State
  silent = record {
    Le = λ w w'. w'.emitted ≡ w.emitted;
    le_refl = λ w. refl;
    le_trans = λ u v w h k. k ∙ h;
  }

  create_row-silent : (n : NewMessage) → Keeps silent (create_row db n)
  unfolding create_row
  create_row-silent n = record { at = λ w. ground arith }

  create-silent :
      (real_object_size : Text → Option ℕ) (input : CreateMessageInput)
      → Keeps silent (create db real_object_size input)
  create-silent = create-Keeps db silent (λ w q a t. refl) (λ w jobs. refl) create_row-silent

module _ (db : Prisma) (env : Env) (real_object_size : Text → Option ℕ) where
  -- A send that fails the schema or comes from outside the channel is refused, and changes nothing.
  pub send_refused :
      (socket : Socket) (body : Option SendMessageRequest) (w : World db.State)
      → (parse_send body ≡ none)
        ⊎ ((request : SendMessageRequest) × (parse_send body ≡ some request)
            × (is_member db w.db socket.user.id request.channel_id ≡ false))
      → (problem : String) × (handle_message_send db env real_object_size socket body w
          ≡ (ok (MessageMutationAck.refused problem), w))
  unfolding handle_message_send send ◌>>=◌
  send_refused socket body w (inl bad) = ("Invalid message payload", rw (bad, handle_message_send))
  send_refused socket body w (inr (request, parsed, stranger)) = (
    "You are not a member of this channel",
    rw (parsed, handle_message_send) (rw (stranger, is_member)),
  )

  publish-eq-message :
      (socket : Socket) (channel : Text) (r : CreateMessageResult) (v w' : World db.State)
      (dto : MessageDto)
      → publish db env real_object_size socket channel r v
        ≡ (ok (MessageMutationAck.message dto), w')
      → w'.emitted ≡ v.emitted ++ to_others socket channel dto ∷ []
  unfolding ◌>>=◌ mark_read
  publish-eq-message socket channel (error problem) v w' dto e = ground arith
  publish-eq-message socket channel (created m) v w' dto e = ground arith

  row_of_found :
      (s : db.State) (id : Text) (m : Message)
      → find_message db s id ≡ some m
      → (r : MessageRow) × (db.find_row s id ≡ some r) × (r ≡ m.row)
  unfolding find_message
  row_of_found s id m e = (m.row, ground arith, refl)

  message-ne-refused :
      {answer : Result MessageMutationAck × World db.State} {w w' : World db.State}
      {problem : String} {dto : MessageDto}
      → answer ≡ (ok (MessageMutationAck.refused problem), w)
      → answer ≡ (ok (MessageMutationAck.message dto), w')
      → ⊥
  message-ne-refused h k = ground arith

  send-eq-message :
      (socket : Socket) (request : SendMessageRequest) (w w' : World db.State) (dto : MessageDto)
      → send db env real_object_size socket request w ≡ (ok (MessageMutationAck.message dto), w')
      → (is_member db w.db socket.user.id request.channel_id ≡ true)
        × (w'.emitted ≡ w.emitted ++ to_others socket request.channel_id dto ∷ [])
  unfolding send ◌>>=◌
  send-eq-message socket request w w' dto e =
      elim (Bool-cases (is_member db w.db socket.user.id request.channel_id)) [
        | inr stranger ↦ absurd (ground arith)
        | inl member ↦
            let (r, v, made, sent) =
              bind-eq-ok (create db real_object_size _)
                (publish db env real_object_size socket request.channel_id) w _ w'
                (rw member at e) in
            let quiet = (create-silent db real_object_size _).at w in
            (
              member,
              publish-eq-message socket request.channel_id r v w' dto sent
                  ∙ ap (λ l. l ++ to_others socket request.channel_id dto ∷ [])
                      (sym (ap (λ p. p.1.emitted) made) ∙ quiet),
            )
      ]

  -- A message is sent only by a member of its channel, from a body that the schema accepts; the
  -- acknowledged message then goes, as `message:new`, to the channel's room without the sender, and
  -- nothing else is emitted.
  pub send_acknowledged :
      (socket : Socket) (body : Option SendMessageRequest) (w w' : World db.State)
      (dto : MessageDto)
      → handle_message_send db env real_object_size socket body w
        ≡ (ok (MessageMutationAck.message dto), w')
      → (request : SendMessageRequest) × (parse_send body ≡ some request)
        × (is_member db w.db socket.user.id request.channel_id ≡ true)
        × (w'.emitted ≡ w.emitted ++ to_others socket request.channel_id dto ∷ [])
  unfolding handle_message_send
  send_acknowledged socket body w w' dto e = elim (Option-cases (parse_send body)) [
    | inl bad ↦ absurd (message-ne-refused (send_refused socket body w (inl bad)).1 e)
    | inr (request, parsed) ↦
        let (member, emitted) =
          send-eq-message socket request w w' dto (rw (parsed, handle_message_send) at e) in
        (request, parsed, member, emitted)
  ]

  -- An edit that is refused changes nothing and emits nothing.
  pub edit_refused :
      (socket : Socket) (body : Option EditMessageRequest) (w w' : World db.State)
      (problem : String)
      → handle_message_edit db env real_object_size socket body w
        ≡ (ok (MessageMutationAck.refused problem), w')
      → w' ≡ w
  unfolding handle_message_edit ◌>>=◌
  edit_refused socket body w w' problem e = ground arith

  delete_refused :
      (socket : Socket) (body : Option DeleteMessageRequest) (w w' : World db.State)
      (problem : String)
      → handle_message_delete db env real_object_size socket body w
        ≡ (ok (MessageMutationAck.refused problem), w')
      → w' ≡ w
  unfolding handle_message_delete ◌>>=◌
  delete_refused socket none w w' problem e = ground arith
  delete_refused socket (some request) w w' problem e = ground arith

  edit-eq-message :
      (socket : Socket) (request : EditMessageRequest) (existing : Option Message)
      (w w' : World db.State) (dto : MessageDto)
      → edit db env real_object_size socket request existing w
        ≡ (ok (MessageMutationAck.message dto), w')
      → (m : Message) × (existing ≡ some m)
        × (m.row.author_id ≡ socket.user.id)
        × (m.row.deleted_at ≡ none)
        × (w'.emitted ≡ w.emitted ++ to_room dto ∷ [])
  unfolding edit ◌>>=◌
  edit-eq-message socket request none w w' dto e = ground arith
  edit-eq-message socket request (some m) w w' dto e = (
    m,
    refl,
    ground (arith, text_eq_iff m.row.author_id socket.user.id),
    ground arith,
    ground arith,
  )

  delete-eq-message :
      (socket : Socket) (id : Text) (existing : Option Message) (w w' : World db.State)
      (dto : MessageDto)
      → delete db env real_object_size socket id existing w
        ≡ (ok (MessageMutationAck.message dto), w')
      → (m : Message) × (existing ≡ some m)
        × (m.row.author_id ≡ socket.user.id)
        × (w'.emitted ≡ w.emitted ++ to_room dto ∷ [])
  unfolding delete ◌>>=◌
  delete-eq-message socket id none w w' dto e = ground arith
  delete-eq-message socket id (some m) w w' dto e =
      (m, refl, ground (arith, text_eq_iff m.row.author_id socket.user.id), ground arith)

  -- An edit is acknowledged only to the author of a message that is there and not deleted. The database
  -- then holds a row with the content of the request and the time of the edit; what is acknowledged is
  -- the state of that row, and it goes, as `message:updated`, to the room of its channel, and nothing
  -- else is emitted.
  pub edit_acknowledged :
      (socket : Socket) (body : Option EditMessageRequest) (w w' : World db.State)
      (dto : MessageDto)
      → handle_message_edit db env real_object_size socket body w
        ≡ (ok (MessageMutationAck.message dto), w')
      → (request : EditMessageRequest) × (r : MessageRow) × (parse_edit body ≡ some request)
        × (db.find_row w.db request.message_id ≡ some r)
        × (r.author_id ≡ socket.user.id)
        × (r.deleted_at ≡ none)
        × (w'.emitted ≡ w.emitted ++ to_room dto ∷ [])
        × Holds db env real_object_size request.message_id w' dto
            (λ r'. (r'.content ≡ request.content) × (r'.edited_at ≡ some w.now))
  unfolding handle_message_edit get_by_id ◌>>=◌
  edit_acknowledged socket body w w' dto e = elim (Option-cases (parse_edit body)) [
    | inl bad ↦ absurd (
        message-ne-refused {w = w} {problem = "Invalid message payload"}
          (rw (bad, handle_message_edit)) e)
    | inr (request, parsed) ↦
        let (m, there, own, live, emitted) =
          edit-eq-message socket request (find_message db w.db request.message_id) w w' dto
            (rw (parsed, handle_message_edit) at e) in
        let (r, stored, same) = row_of_found w.db request.message_id m there in
        let held =
          edit_holds db env real_object_size socket request m r w w' dto stored own live
            (rw there at (rw (parsed, handle_message_edit) at e)) in
        (request, r, parsed, stored, rw same own, rw same live, emitted, held)
  ]

  -- A deletion is acknowledged only to the author of a message that is there. The database then holds
  -- a tombstone for it; what is acknowledged is the state of that tombstone, and it goes, as
  -- `message:updated`, to the room of its channel, and nothing else is emitted.
  pub delete_acknowledged :
      (socket : Socket) (body : Option DeleteMessageRequest) (w w' : World db.State)
      (dto : MessageDto)
      → handle_message_delete db env real_object_size socket body w
        ≡ (ok (MessageMutationAck.message dto), w')
      → (request : DeleteMessageRequest) × (r : MessageRow) × (body ≡ some request)
        × (db.find_row w.db request.message_id ≡ some r)
        × (r.author_id ≡ socket.user.id)
        × (w'.emitted ≡ w.emitted ++ to_room dto ∷ [])
        × Holds db env real_object_size request.message_id w' dto IsTombstone
  unfolding handle_message_delete get_by_id ◌>>=◌
  delete_acknowledged socket none w w' dto e =
      absurd (message-ne-refused {w = w} {problem = "Invalid message payload"} refl e)
  delete_acknowledged socket (some request) w w' dto e =
      let (m, there, own, emitted) =
        delete-eq-message socket request.message_id (find_message db w.db request.message_id) w w'
          dto e in
      let (r, stored, same) = row_of_found w.db request.message_id m there in
      let held =
        delete_holds db env real_object_size socket request.message_id m r w w' dto stored own
          (rw there at e) in
      (request, r, refl, stored, rw same own, emitted, held)
