-- ===== src/Chat/Tests.antt =====
-- The gateway on a database in memory: the theorems at concrete inputs, and runs of the handlers.
use munichat.Prelude.{ℕ, ◌≡◌, refl, true, Option, none, some, List, [], ◌∷◌, ◌++◌, if◌then◌else◌}
use munichat.Text.{Text, lit, text_eq, show}
use munichat.Shared.{
  UserSummary, MessageDto, MessageType, MemberRole, SendMessageRequest, EditMessageRequest,
  DeleteMessageRequest, parse_send, parse_edit,
}
use munichat.Store.{patched, User, MessageRow, ChannelMember}
use munichat.Store.Memory.{Memory, memory}
use munichat.Server.{Socket, World, ok, ◌>>=◌}
use munichat.Channels.{is_member}
use munichat.Messages.{Env, ticket_description}
use munichat.Messages.Deleted.{IsTombstone}
use munichat.Chat.Gateway.{
  MessageMutationAck, handle_message_send, handle_message_edit, handle_message_delete,
}
use munichat.Chat.Events.{Event, run, edit, delete}
use munichat.Chat.Guards.{send_acknowledged, edit_acknowledged, delete_acknowledged, to_others}
use munichat.Chat.Broadcasts.{to_room, Holds}
use munichat.Chat.Outcomes.{edit_succeeds, delete_succeeds, IsScrubbed}
use munichat.Chat.Tombstones.{run-IsTombstone}

abbrev ann : User
ann = record {
  id = lit "u1";
  username = lit "ann";
  display_name = lit "Ann";
  avatar_url = none;
  is_active = true;
  token_version = 0;
}

abbrev socket : Socket
socket = record { id = lit "s1"; user = ann }

abbrev hello : MessageRow
hello = record {
  id = lit "m1";
  channel_id = lit "ti";
  author_id = lit "u1";
  content = lit "hello";
  type = MessageType.text;
  reply_to_id = none;
  edited_at = none;
  deleted_at = none;
  created_at = 5;
}

abbrev gone : MessageRow
gone = record hello { id = lit "m2"; content = []; deleted_at = some 7 }

abbrev membership : ChannelMember
membership = record {
  user_id = lit "u1";
  channel_id = lit "ti";
  role = MemberRole.member;
  last_read_message_id = none;
  last_read_at = none;
}

abbrev stored : Text → Option MessageRow
stored id =
    if text_eq id (lit "m1") then some hello else if text_eq id (lit "m2") then some gone else none

abbrev world : World Memory
world = record {
  db = record {
    rows = stored;
    members = λ u c. if text_eq c (lit "ti") then some membership else none;
    user = ann;
    next = 9;
    alerts = λ id. none;
    tickets = λ id. none;
    previews = λ id. none;
  };
  emitted = [];
  jobs = [];
  requests = [];
  replies = [];
  session_token = none;
  now = 100;
}

abbrev env : Env
env = record { glpi_url = lit "https://glpi"; to_iso_string = λ t. [] }

abbrev no_files : Text → Option ℕ
no_files key = none

abbrev to : Text → Text → Option SendMessageRequest
to channel content =
    some (record { channel_id = channel; content = content; reply_to_id = none; attachments = [] })

abbrev rewrite : Text → Text → Option EditMessageRequest
rewrite id content = some (record { message_id = id; content = content })

abbrev remove : Text → Option DeleteMessageRequest
remove id = some (record { message_id = id })

abbrev events : List Event
events =
    edit socket (rewrite (lit "m1") (lit " hi "))
    ∷ delete socket (remove (lit "m1"))
    ∷ edit socket (rewrite (lit "m1") (lit "back"))
    ∷ []

run-IsTombstone_example :
    (r' : MessageRow) × (memory.find_row (run memory env no_files events world).db (lit "m2")
      ≡ some r')
    × IsTombstone r'
run-IsTombstone_example =
    run-IsTombstone memory env no_files events world (lit "m2") gone refl
      (record { deleted = λ e. (cc e); blank = refl })

abbrev author_summary : UserSummary
author_summary = record {
  id = lit "u1";
  username = lit "ann";
  display_name = lit "Ann";
  avatar_url = none;
}

abbrev shown : Text → Text → Option Text → Option Text → MessageDto
shown id content edited deleted = record {
  id = id;
  channel_id = lit "ti";
  author_id = lit "u1";
  content = content;
  type = MessageType.text;
  reply_to_id = none;
  edited_at = edited;
  deleted_at = deleted;
  created_at = [];
  author = author_summary;
  attachments = [];
  link_preview = none;
  ticket_ref = none;
  reply_to = none;
}

abbrev outsider : SendMessageRequest
outsider = record { channel_id = lit "rh"; content = lit "x"; reply_to_id = none; attachments = [] }

abbrev after_send : World Memory
after_send = (handle_message_send memory env no_files socket (to (lit "ti") (lit " yo")) world).1

send_acknowledged_example :
    (request : SendMessageRequest) × (parse_send (to (lit "ti") (lit " yo")) ≡ some request)
    × (is_member memory world.db (lit "u1") request.channel_id ≡ true)
    × (after_send.emitted
        ≡ [] ++ to_others socket request.channel_id (shown (lit "m9") (lit "yo") none none) ∷ [])
unfolding handle_message_send ticket_description show ◌>>=◌
send_acknowledged_example =
    send_acknowledged memory env no_files socket (to (lit "ti") (lit " yo")) world after_send
      (shown (lit "m9") (lit "yo") none none) refl

abbrev after_edit : World Memory
after_edit =
    (handle_message_edit memory env no_files socket (rewrite (lit "m1") (lit " hi ")) world).1

edit_acknowledged_example :
    (request : EditMessageRequest) × (r : MessageRow) × (parse_edit
        (rewrite (lit "m1") (lit " hi "))
      ≡ some request)
    × (memory.find_row world.db request.message_id ≡ some r)
    × (r.author_id ≡ lit "u1")
    × (r.deleted_at ≡ none)
    × (after_edit.emitted ≡ [] ++ to_room (shown (lit "m1") (lit "hi") (some []) none) ∷ [])
    × Holds memory env no_files request.message_id after_edit
        (shown (lit "m1") (lit "hi") (some []) none)
        (λ r'. (r'.content ≡ request.content) × (r'.edited_at ≡ some world.now))
unfolding handle_message_edit patched ◌>>=◌
edit_acknowledged_example =
    edit_acknowledged memory env no_files socket (rewrite (lit "m1") (lit " hi ")) world after_edit
      (shown (lit "m1") (lit "hi") (some []) none) refl

abbrev after_delete : World Memory
after_delete = (handle_message_delete memory env no_files socket (remove (lit "m1")) world).1

delete_acknowledged_example :
    (request : DeleteMessageRequest) × (r : MessageRow) × (remove (lit "m1") ≡ some request)
    × (memory.find_row world.db request.message_id ≡ some r)
    × (r.author_id ≡ lit "u1")
    × (after_delete.emitted ≡ [] ++ to_room (shown (lit "m1") [] none (some [])) ∷ [])
    × Holds memory env no_files request.message_id after_delete
        (shown (lit "m1") [] none (some []))
        IsTombstone
unfolding handle_message_delete patched ◌>>=◌
delete_acknowledged_example =
    delete_acknowledged memory env no_files socket (remove (lit "m1")) world after_delete
      (shown (lit "m1") [] none (some [])) refl

edit_succeeds_example :
    (dto : MessageDto) × (w' : World Memory) × (r' : MessageRow) × (handle_message_edit memory env
        no_files socket
        (rewrite (lit "m1") (lit " hi "))
        world
      ≡ (ok (MessageMutationAck.message dto), w'))
    × (dto.content ≡ lit "hi")
    × (memory.find_row w'.db (lit "m1") ≡ some r')
    × (r'.content ≡ lit "hi")
    × (r'.deleted_at ≡ none)
unfolding parse_edit
edit_succeeds_example =
    edit_succeeds memory env no_files socket (rewrite (lit "m1") (lit " hi "))
      (record { message_id = lit "m1"; content = lit "hi" }) hello world refl refl refl refl

delete_succeeds_example :
    (dto : MessageDto) × (w' : World Memory) × (r' : MessageRow) × (handle_message_delete memory env
        no_files socket
        (remove (lit "m1"))
        world
      ≡ (ok (MessageMutationAck.message dto), w'))
    × IsScrubbed dto
    × (w'.emitted ≡ [] ++ to_room dto ∷ [])
    × (memory.find_row w'.db (lit "m1") ≡ some r')
    × IsTombstone r'
delete_succeeds_example =
    delete_succeeds memory env no_files socket (lit "m1") hello world refl refl
