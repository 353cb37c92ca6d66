-- ===== src/Messages/Service.antt =====
-- apps/api/src/messages/messages.service.ts, the methods that write.
use Prim.Native.String.{String}
use munichat.Prelude.{
  ℕ, ◌&&◌, Option, none, some, List, [], ◌∷◌, ◌++◌, if◌then◌else◌, ◌==◌, ltb, is_empty, length,
  take,
}
use munichat.Text.{Text, lit, trim}
use munichat.Shared.{MessageType, PendingAttachment}
use munichat.Store.{Prisma, NewMessage, MessagePatch, Message, User, hydrated, find_message}
use munichat.Server.{
  Result, ok, thrown, glpi_unavailable, rejected, Action, pure, throw, ◌>>=◌, ◌>>◌, reads, writes,
}
use munichat.Glpi.{CreateTicketInput, CreateTicketResult, create_ticket}
use munichat.Messages.Patterns.{ticket_description, find_url}

pub record CreateMessageInput : Type 0 where
  pub channel_id : Text
  pub author_id : Text
  pub content : Text
  pub reply_to_id : Option Text
  pub attachments : List PendingAttachment

pub data CreateMessageResult : Type 0 where
  created : Message → CreateMessageResult
  error : String → CreateMessageResult

abbrev ticket_title_max_length : ℕ
ticket_title_max_length = 80

-- The loop over the attachments. `real_object_size` is `FilesService.getRealObjectSize`, the size
-- that the object storage reports for a key.
unfoldable pub check_attachments : (Text → Option ℕ) → List PendingAttachment → Option String
check_attachments real_object_size [] = none
check_attachments real_object_size (a ∷ rest) = elim (real_object_size a.object_key) [
  | none ↦ some "Attachment was not found in storage"
  | some size ↦
      if size == a.size_bytes
      then check_attachments real_object_size rest
      else some "Attachment size does not match the uploaded file"
]

module _ (db : Prisma) where
  -- `prisma.message.create`, with the relations of the new row
  unfoldable pub create_row : NewMessage → Action db.State Message
  unfolding hydrated
  create_row n w = elim (db.create_message n w.db) [
    | none ↦ (thrown rejected, w)
    | some (r, s) ↦ (ok (hydrated db s r), record w { db = s })
  ]

  unfoldable pub get_by_id : Text → Action db.State (Option Message)
  unfolding find_message
  get_by_id id w = (ok (find_message db w.db id), w)

  unfoldable pub found_user : Option User → Action db.State User
  found_user none = throw rejected
  found_user (some user) = pure user

  -- `catch (err)` around `createTicket`
  abbrev caught : Result CreateTicketResult → Result (Option CreateTicketResult)
  caught (ok ticket) = ok (some ticket)
  caught (thrown glpi_unavailable) = ok none
  caught (thrown e) = thrown e

  abbrev glpi_label : User → Text
  glpi_label author =
      lit "Reported via Elyzian by "
      ++ (author.display_name ++ (lit " (" ++ (author.username ++ lit ")")))

  -- The message that holds a ticket which GLPI has opened. Without an identifier in GLPI's answer
  -- the insertion is refused.
  abbrev pub ticket_row :
      Text → Text → Text → CreateTicketResult → Action db.State CreateMessageResult
  ticket_row channel author description ticket = elim ticket.glpi_ticket_id [
    | none ↦ throw rejected
    | some id ↦ (do
      message ← create_row (record {
        channel_id = channel;
        author_id = author;
        content = description;
        type = MessageType.ticket;
        reply_to_id = none;
        attachments = [];
        ticket_ref =
            some (record { glpi_ticket_id = id; status = ticket.status; created_by_id = author });
      })
      pure (created message))
  ]

  abbrev pub after_glpi :
      Text → Text → Text → Option CreateTicketResult → Action db.State CreateMessageResult
  after_glpi channel author description none =
      pure (error "GLPI is unreachable. Please try again later.")
  after_glpi channel author description (some ticket) = ticket_row channel author description ticket

  unfoldable pub try_ticket : CreateTicketInput → Action db.State (Option CreateTicketResult)
  unfolding create_ticket
  try_ticket input w = let (r, w') = create_ticket input w in (caught r, w')

  -- `createTicketMessage`
  unfoldable pub create_ticket_message : Text → Text → Text → Action db.State CreateMessageResult
  unfolding create_row try_ticket found_user
  create_ticket_message channel author description =
      if is_empty description then pure (error "Ticket description cannot be empty") else (do
        found ← reads (λ w. db.find_user w.db author)
        user ← found_user found
        ticket ← try_ticket (record {
          title = take ticket_title_max_length description;
          content = description;
          requester_label = glpi_label user;
        })
        after_glpi channel author description ticket)

  abbrev pub preview_job : Message → Text → Option Text → Action db.State (Unit {0})
  preview_job message channel none w = (ok tt, w)
  preview_job message channel (some url) w = (
    ok tt,
    record w {
      jobs = w.jobs ++ record { message_id = message.row.id; channel_id = channel; url = url } ∷ [];
    },
  )

  -- `create`, for content that is no ticket and attachments that the storage has.
  unfoldable pub create_plain : CreateMessageInput → Action db.State CreateMessageResult
  unfolding create_row find_url
  create_plain input =
      let has_attachments = ltb 0 (length input.attachments) in
      do
        message ← create_row (record {
          channel_id = input.channel_id;
          author_id = input.author_id;
          content = input.content;
          type =
              if has_attachments && length (trim input.content) == 0
              then MessageType.file
              else MessageType.text;
          reply_to_id = input.reply_to_id;
          attachments = input.attachments;
          ticket_ref = none;
        })
        preview_job message input.channel_id (find_url input.content)
        pure (created message)

  -- `create`
  unfoldable pub create :
      (Text → Option ℕ) → CreateMessageInput → Action db.State CreateMessageResult
  unfolding create_ticket_message check_attachments create_plain
  create real_object_size input = elim (ticket_description input.content) [
    | some description ↦ create_ticket_message input.channel_id input.author_id description
    | none ↦ elim (check_attachments real_object_size input.attachments) [
      | some problem ↦ pure (error problem)
      | none ↦ create_plain input
    ]
  ]

  -- `createSystemMessage`
  unfoldable pub create_system_message : Text → Text → Text → Action db.State Message
  unfolding create_row
  create_system_message channel author content = create_row (record {
    channel_id = channel;
    author_id = author;
    content = content;
    type = MessageType.system;
    reply_to_id = none;
    attachments = [];
    ticket_ref = none;
  })

  abbrev or_rejected : Option Message → Action db.State Message
  or_rejected none = throw rejected
  or_rejected (some message) = pure message

  -- `prisma.message.update`, with the relations of the changed row
  unfoldable pub update_row : Text → MessagePatch → Action db.State Message
  unfolding find_message
  update_row id patch = do
    writes (db.update_message id patch)
    changed ← reads (λ w. find_message db w.db id)
    or_rejected changed

  -- `update`
  unfoldable pub update : Text → Text → Action db.State Message
  unfolding update_row
  update id content = do
    now ← reads (λ w. w.now)
    update_row id (record { content = content; edited_at = some now; deleted_at = none })

  -- `softDelete`
  unfoldable pub soft_delete : Text → Action db.State Message
  unfolding update_row
  soft_delete id = do
    now ← reads (λ w. w.now)
    update_row id (record { content = []; edited_at = none; deleted_at = some now })
