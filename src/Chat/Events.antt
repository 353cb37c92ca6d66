-- ===== src/Chat/Events.antt =====
-- The gateway as a machine: the events that reach it, in the order in which they are handled.
use munichat.Prelude.{ℕ, Option, List, [], ◌∷◌}
use munichat.Text.{Text}
use munichat.Shared.{
  SendMessageRequest, EditMessageRequest, DeleteMessageRequest, ChannelReadRequest,
  TypingClientPayload, SocketEvent,
}
use munichat.Store.{Prisma}
use munichat.Server.{Socket, World, Reply}
use munichat.Messages.{Env}
use munichat.Chat.Gateway.{
  handle_message_send, handle_message_edit, handle_message_delete, handle_channel_read,
  relay_typing,
}

pub data Event : Type 0 where
  send : Socket → Option SendMessageRequest → Event
  edit : Socket → Option EditMessageRequest → Event
  delete : Socket → Option DeleteMessageRequest → Event
  read : Socket → Option ChannelReadRequest → Event
  typing : Socket → Option TypingClientPayload → SocketEvent → Event
  -- time passes, and GLPI has new answers
  outside : ℕ → List Reply → Event

module _ (db : Prisma) (env : Env) (real_object_size : Text → Option ℕ) where
  unfoldable pub step : Event → World db.State → World db.State
  unfolding handle_message_send handle_message_edit handle_message_delete handle_channel_read
      relay_typing
  step (send socket body) w = (handle_message_send db env real_object_size socket body w).1
  step (edit socket body) w = (handle_message_edit db env real_object_size socket body w).1
  step (delete socket body) w = (handle_message_delete db env real_object_size socket body w).1
  step (read socket body) w = (handle_channel_read db env real_object_size socket body w).1
  step (typing socket body event) w = (relay_typing db env real_object_size socket body event w).1
  step (outside now replies) w = record w { now = now; replies = replies }

  unfoldable pub run : List Event → World db.State → World db.State
  unfolding step
  run [] w = w
  run (e ∷ events) w = run events (step e w)
