-- ===== src/Chat/Gateway.antt =====
-- The handlers of `ChatGateway`. What Socket.IO does with an emission is the recorded `Emission`;
-- the rooms that a connecting socket joins are returned by the handler.
use Prim.Native.String.{String}
use munichat.Prelude.{ℕ, Bool, true, false, not, Option, none, some, ◌++◌, if◌then◌else◌}
use munichat.Text.{Text, lit, text_eq}
use munichat.Shared.{
  MessageDto, SendMessageRequest, EditMessageRequest, DeleteMessageRequest, ChannelReadRequest,
  TypingClientPayload, SocketEvent, message_new, message_updated, parse_send, parse_edit,
}
use munichat.Store.{Prisma, Message}
use munichat.Server.{Socket, room, room_except, Payload, Action, pure, ◌>>=◌, ◌>>◌, reads, emit}
use munichat.Channels.{is_member, mark_read}
use munichat.Messages.{
  Env, to_message_dto, CreateMessageResult, created, error, create, get_by_id, update, soft_delete,
}

-- chat/channel-room.ts
abbrev pub channel_room : Text → Text
channel_room channel = lit "channel:" ++ channel

-- `MessageMutationAck`
pub data MessageMutationAck : Type 0 where
  message : MessageDto → MessageMutationAck
  refused : String → MessageMutationAck

pub data ReadAck : Type 0 where
  read : ReadAck
  refused : String → ReadAck

abbrev pub is_set : Option ℕ → Bool
is_set none = false
is_set (some at) = true

module _ (db : Prisma) (env : Env) (real_object_size : Text → Option ℕ) where
  abbrev pub refuse : String → Action db.State MessageMutationAck
  refuse problem = pure (MessageMutationAck.refused problem)

  -- What follows a successful `messagesService.create`.
  abbrev pub publish : Socket → Text → CreateMessageResult → Action db.State MessageMutationAck
  publish socket channel (error problem) = refuse problem
  publish socket channel (created m) =
      let dto = to_message_dto env m in
      do
        mark_read db socket.user.id channel m.row.id m.row.created_at
        emit (room_except (channel_room channel) socket.id) message_new (Payload.message dto)
        pure (MessageMutationAck.message dto)

  unfoldable pub send : Socket → SendMessageRequest → Action db.State MessageMutationAck
  unfolding is_member mark_read create to_message_dto
  send socket request = do
    member ← reads (λ w. is_member db w.db socket.user.id request.channel_id)
    if member
        then (do
          result ← create db real_object_size (record {
            channel_id = request.channel_id;
            author_id = socket.user.id;
            content = request.content;
            reply_to_id = request.reply_to_id;
            attachments = request.attachments;
          })
          publish socket request.channel_id result)
        else refuse "You are not a member of this channel"

  -- `handleMessageSend`
  unfoldable pub handle_message_send :
      Socket → Option SendMessageRequest → Action db.State MessageMutationAck
  unfolding send parse_send
  handle_message_send socket body = elim (parse_send body) [
    | none ↦ refuse "Invalid message payload"
    | some request ↦ send socket request
  ]

  -- The end of an edit and of a deletion: the new state of the message goes to its whole room.
  unfoldable pub broadcast_updated : Message → Action db.State MessageMutationAck
  unfolding to_message_dto
  broadcast_updated m =
      let dto = to_message_dto env m in
      do
        emit (room (channel_room dto.channel_id)) message_updated (Payload.message dto)
        pure (MessageMutationAck.message dto)

  unfoldable pub edit :
      Socket → EditMessageRequest → Option Message → Action db.State MessageMutationAck
  unfolding update broadcast_updated
  edit socket request none = refuse "Message not found"
  edit socket request (some existing) =
      if not (text_eq existing.row.author_id socket.user.id)
      then refuse "You can only edit your own messages"
      else if is_set existing.row.deleted_at
      then refuse "Cannot edit a deleted message"
      else (do updated ← update db request.message_id request.content; broadcast_updated updated)

  -- `handleMessageEdit`
  unfoldable pub handle_message_edit :
      Socket → Option EditMessageRequest → Action db.State MessageMutationAck
  unfolding edit get_by_id parse_edit
  handle_message_edit socket body = elim (parse_edit body) [
    | none ↦ refuse "Invalid message payload"
    | some request ↦ (do existing ← get_by_id db request.message_id; edit socket request existing)
  ]

  unfoldable pub delete : Socket → Text → Option Message → Action db.State MessageMutationAck
  unfolding soft_delete broadcast_updated
  delete socket id none = refuse "Message not found"
  delete socket id (some existing) =
      if not (text_eq existing.row.author_id socket.user.id)
      then refuse "You can only delete your own messages"
      else (do updated ← soft_delete db id; broadcast_updated updated)

  -- `handleMessageDelete`
  unfoldable pub handle_message_delete :
      Socket → Option DeleteMessageRequest → Action db.State MessageMutationAck
  unfolding delete get_by_id
  handle_message_delete socket none = refuse "Invalid message payload"
  handle_message_delete socket (some request) = do
    existing ← get_by_id db request.message_id
    delete socket request.message_id existing

  abbrev pub refuse_read : String → Action db.State ReadAck
  refuse_read problem = pure (ReadAck.refused problem)

  unfoldable pub read_message :
      Socket → ChannelReadRequest → Option Message → Action db.State ReadAck
  unfolding mark_read
  read_message socket request none = refuse_read "Message not found in this channel"
  read_message socket request (some m) =
      if text_eq m.row.channel_id request.channel_id
      then (do
        mark_read db socket.user.id request.channel_id request.message_id m.row.created_at
        pure ReadAck.read)
      else refuse_read "Message not found in this channel"

  -- `handleChannelRead`
  unfoldable pub handle_channel_read : Socket → Option ChannelReadRequest → Action db.State ReadAck
  unfolding read_message is_member get_by_id
  handle_channel_read socket none = refuse_read "Invalid channel-read payload"
  handle_channel_read socket (some request) = do
    member ← reads (λ w. is_member db w.db socket.user.id request.channel_id)
    if member
        then (do found ← get_by_id db request.message_id; read_message socket request found)
        else refuse_read "You are not a member of this channel"

  -- `relayTyping`, for `typing:start` and `typing:stop`
  unfoldable pub relay_typing :
      Socket → Option TypingClientPayload → SocketEvent → Action db.State (Unit {0})
  unfolding is_member
  relay_typing socket none event = pure tt
  relay_typing socket (some request) event = do
    member ← reads (λ w. is_member db w.db socket.user.id request.channel_id)
    if member
        then (do
          emit (room_except (channel_room request.channel_id) socket.id) event (
              Payload.typing
                (record { channel_id = request.channel_id; user_id = socket.user.id })))
        else pure tt
