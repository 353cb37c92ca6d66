-- ===== src/Chat/Tombstones.antt =====
-- Whatever the sockets send, no message disappears, changes its author or channel, or comes back
-- after its deletion.
use munichat.Prelude.{
  ℕ, ◌≡◌, refl, inl, inr, false, Option, none, some, List, [], ◌∷◌, arith, Bool-cases,
}
use munichat.Text.{Text, text_eq}
use munichat.Shared.{
  SendMessageRequest, EditMessageRequest, DeleteMessageRequest, ChannelReadRequest,
  TypingClientPayload, SocketEvent, parse_send, parse_edit,
}
use munichat.Store.{Prisma, MessageRow, Message, find_message}
use munichat.Server.{Socket, World, Audience, Payload, emit, ◌>>=◌, writes}
use munichat.Server.Keeps.{Keeps, bind-Le, Keeps-pure, keeps_rules}
use munichat.Channels.{mark_read}
use munichat.Messages.{Env, get_by_id, CreateMessageResult, created, error}
use munichat.Messages.Deleted.{
  IsTombstone, Evolves, evolution, same_rows, create-Keeps, soft_delete-Keeps,
  update-Evolves_of_live,
}
use munichat.Chat.Gateway.{
  refuse, publish, send, handle_message_send, broadcast_updated, edit, handle_message_edit, delete,
  handle_message_delete, read_message, handle_channel_read, relay_typing, is_set,
}
use munichat.Chat.Events.{Event, step, run, outside}

module _ (db : Prisma) (env : Env) (real_object_size : Text → Option ℕ) where
  mark_read-Keeps :
      (user channel message : Text) (at : ℕ)
      → Keeps (evolution db) (mark_read db user channel message at)
  unfolding mark_read ◌>>=◌
  mark_read-Keeps user channel message at = record {
    at = λ w. go w (db.update_member user channel message at w.db) refl;
  }
    where
      go :
          (w : World db.State) (o : Option db.State)
          → db.update_member user channel message at w.db ≡ o
          → Evolves db w.db (mark_read db user channel message at w).1.db
      go w none e = rw (e, mark_read, writes) ((evolution db).le_refl w)
      go w (some s) e =
          rw (e, mark_read, writes)
            (same_rows db w.db s (λ id. db.update_member_rows user channel message at w.db s id e))

  emit-Keeps :
      (to : Audience) (event : SocketEvent) (p : Payload) → Keeps (evolution db) (emit to event p)
  unfolding ◌>>=◌
  emit-Keeps to event p = record { at = λ w. (evolution db).le_refl w }

  publish-Keeps :
      (socket : Socket) (channel : Text) (r : CreateMessageResult)
      → Keeps (evolution db) (publish db env real_object_size socket channel r)
  publish-Keeps socket channel (error problem) = Keeps-pure (evolution db) _
  publish-Keeps socket channel (created m) =
      search (keeps_rules, mark_read-Keeps, emit-Keeps) depth 8

  send-Keeps :
      (socket : Socket) (request : SendMessageRequest)
      → Keeps (evolution db) (send db env real_object_size socket request)
  unfolding send
  send-Keeps socket request = search (keeps_rules, create-Keeps db, publish-Keeps) depth 8

  handle_message_send-Keeps :
      (socket : Socket) (body : Option SendMessageRequest)
      → Keeps (evolution db) (handle_message_send db env real_object_size socket body)
  unfolding handle_message_send
  handle_message_send-Keeps socket body = go (parse_send body)
    where
      go :
          (parsed : Option SendMessageRequest)
          → Keeps (evolution db) (elim parsed [
            | none ↦ refuse db env real_object_size "Invalid message payload"
            | some request ↦ send db env real_object_size socket request
          ])
      go none = Keeps-pure (evolution db) _
      go (some request) = send-Keeps socket request

  broadcast_updated-Keeps :
      (m : Message) → Keeps (evolution db) (broadcast_updated db env real_object_size m)
  unfolding broadcast_updated
  broadcast_updated-Keeps m = search (keeps_rules, emit-Keeps)

  live_of_found :
      (s : db.State) (id : Text) (existing : Message)
      → find_message db s id ≡ some existing
      → is_set existing.row.deleted_at ≡ false
      → (r : MessageRow) → db.find_row s id ≡ some r
      → r.deleted_at ≡ none
  unfolding find_message
  live_of_found s id existing found unset r e = ground arith

  edit-Evolves :
      (socket : Socket) (request : EditMessageRequest) (existing : Option Message)
      (w : World db.State)
      → find_message db w.db request.message_id ≡ existing
      → Evolves db w.db (edit db env real_object_size socket request existing w).1.db
  unfolding edit
  edit-Evolves socket request none w found = (Keeps-pure (evolution db) _).at w
  edit-Evolves socket request (some m) w found =
      elim (Bool-cases (text_eq m.row.author_id socket.user.id)) [
        | inr other ↦ rw other ((Keeps-pure (evolution db) _).at w)
        | inl own ↦ elim (Bool-cases (is_set m.row.deleted_at)) [
          | inl gone ↦ rw (own, gone) ((Keeps-pure (evolution db) _).at w)
          | inr live ↦
              rw (own, live)
                (bind-Le (evolution db) _ _ w
                  (update-Evolves_of_live db request.message_id request.content w
                    (live_of_found w.db request.message_id m found live))
                  broadcast_updated-Keeps)
        ]
      ]

  handle_message_edit-Keeps :
      (socket : Socket) (body : Option EditMessageRequest)
      → Keeps (evolution db) (handle_message_edit db env real_object_size socket body)
  unfolding handle_message_edit get_by_id ◌>>=◌
  handle_message_edit-Keeps socket body = go (parse_edit body)
    where
      go :
          (parsed : Option EditMessageRequest)
          → Keeps (evolution db) (elim parsed [
            | none ↦ refuse db env real_object_size "Invalid message payload"
            | some request ↦
                (get_by_id db request.message_id >>= edit db env real_object_size socket request)
          ])
      go none = Keeps-pure (evolution db) _
      go (some request) = record { at = λ w. edit-Evolves socket request _ w refl }

  delete-Keeps :
      (socket : Socket) (id : Text) (existing : Option Message)
      → Keeps (evolution db) (delete db env real_object_size socket id existing)
  unfolding delete
  delete-Keeps socket id none = Keeps-pure (evolution db) _
  delete-Keeps socket id (some m) =
      search (keeps_rules, soft_delete-Keeps db, broadcast_updated-Keeps) depth 8

  get_by_id-Keeps : (id : Text) → Keeps (evolution db) (get_by_id db id)
  unfolding get_by_id
  get_by_id-Keeps id = record { at = λ w. (evolution db).le_refl w }

  handle_message_delete-Keeps :
      (socket : Socket) (body : Option DeleteMessageRequest)
      → Keeps (evolution db) (handle_message_delete db env real_object_size socket body)
  unfolding handle_message_delete
  handle_message_delete-Keeps socket none = Keeps-pure (evolution db) _
  handle_message_delete-Keeps socket (some request) =
      search (keeps_rules, get_by_id-Keeps, delete-Keeps)

  read_message-Keeps :
      (socket : Socket) (request : ChannelReadRequest) (found : Option Message)
      → Keeps (evolution db) (read_message db env real_object_size socket request found)
  unfolding read_message
  read_message-Keeps socket request none = Keeps-pure (evolution db) _
  read_message-Keeps socket request (some m) = search (keeps_rules, mark_read-Keeps)

  handle_channel_read-Keeps :
      (socket : Socket) (body : Option ChannelReadRequest)
      → Keeps (evolution db) (handle_channel_read db env real_object_size socket body)
  unfolding handle_channel_read
  handle_channel_read-Keeps socket none = Keeps-pure (evolution db) _
  handle_channel_read-Keeps socket (some request) =
      search (keeps_rules, get_by_id-Keeps, read_message-Keeps) depth 8

  relay_typing-Keeps :
      (socket : Socket) (body : Option TypingClientPayload) (event : SocketEvent)
      → Keeps (evolution db) (relay_typing db env real_object_size socket body event)
  unfolding relay_typing
  relay_typing-Keeps socket none event = Keeps-pure (evolution db) _
  relay_typing-Keeps socket (some request) event = search (keeps_rules, emit-Keeps) depth 8

  step-Evolves :
      (e : Event) (w : World db.State) → Evolves db w.db (step db env real_object_size e w).db
  unfolding step
  step-Evolves (Event.send socket body) w = (handle_message_send-Keeps socket body).at w
  step-Evolves (Event.edit socket body) w = (handle_message_edit-Keeps socket body).at w
  step-Evolves (Event.delete socket body) w = (handle_message_delete-Keeps socket body).at w
  step-Evolves (Event.read socket body) w = (handle_channel_read-Keeps socket body).at w
  step-Evolves (Event.typing socket body event) w = (relay_typing-Keeps socket body event).at w
  step-Evolves (outside now replies) w = (evolution db).le_refl w

  run-Evolves :
      (events : List Event) (w : World db.State)
      → Evolves db w.db (run db env real_object_size events w).db
  unfolding run
  run-Evolves [] w = (evolution db).le_refl w
  run-Evolves (e ∷ events) w =
      let w' = step db env real_object_size e w in
      (evolution db).le_trans w w' (run db env real_object_size events w') (step-Evolves e w)
        (run-Evolves events w')

  -- Whatever events the gateway handles, a message that was in the database is still found under
  -- its identifier, with the same channel, author and time of creation.
  pub run_keeps_origin :
      (events : List Event) (w : World db.State) (id : Text) (r : MessageRow)
      → db.find_row w.db id ≡ some r
      → (r' : MessageRow) × (db.find_row (run db env real_object_size events w).db id ≡ some r')
        × (r'.channel_id ≡ r.channel_id)
        × (r'.author_id ≡ r.author_id)
        × (r'.created_at ≡ r.created_at)
  run_keeps_origin events w id r e =
      let (r', e', l) = run-Evolves events w id r e in
      (r', e', l.channel_id, l.author_id, l.created_at)

  -- A message that is deleted, with its content gone, is still deleted and without content after
  -- any events that the gateway handles: no edit brings it back.
  pub run-IsTombstone :
      (events : List Event) (w : World db.State) (id : Text) (r : MessageRow)
      → db.find_row w.db id ≡ some r
      → IsTombstone r
      → (r' : MessageRow) × (db.find_row (run db env real_object_size events w).db id ≡ some r')
        × IsTombstone r'
  run-IsTombstone events w id r e h =
      let (r', e', l) = run-Evolves events w id r e in (r', e', l.tombstone h)
