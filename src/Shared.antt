-- ===== src/Shared.antt =====
-- packages/shared/src: the enumerations, the data transfer objects and the request schemas that the
-- API and the clients agree on.
--
-- A request body is modelled after the shape check of its schema (the right fields with the right
-- JSON types): `none` is a body that fails the shape. What the schemas demand beyond the shape
-- (trim, min, max, superRefine) is translated here.
use munichat.Prelude.{
  ℕ, Bool, ◌&&◌, ◌||◌, Option, none, some, List, leb, ltb, if◌then◌else◌, length,
}
use munichat.Text.{Text, trim}

-- enums.ts
pub data MessageType : Type 0 where
  text file system ticket : MessageType

pub data MemberRole : Type 0 where
  member admin : MemberRole

pub data LinkPreviewStatus : Type 0 where
  ready failed : LinkPreviewStatus

-- user.dto.ts
pub record UserSummary : Type 0 where
  pub id : Text
  pub username : Text
  pub display_name : Text
  pub avatar_url : Option Text

-- attachment.dto.ts
pub record AttachmentDto : Type 0 where
  pub id : Text
  pub file_name : Text
  pub mime_type : Text
  pub size_bytes : ℕ

pub record PendingAttachment : Type 0 where
  pub object_key : Text
  pub file_name : Text
  pub mime_type : Text
  pub size_bytes : ℕ

-- link-preview.dto.ts
pub record LinkPreviewDto : Type 0 where
  pub url : Text
  pub title : Option Text
  pub description : Option Text
  pub image_url : Option Text
  pub status : LinkPreviewStatus

-- ticket-ref.dto.ts
pub record TicketRefDto : Type 0 where
  pub glpi_ticket_id : ℕ
  pub status : Text
  pub url : Text
  pub created_at : Text
  pub updated_at : Text

-- message.dto.ts
pub record ReplyPreview : Type 0 where
  pub id : Text
  pub author_id : Text
  pub author_display_name : Text
  pub content_preview : Option Text
  pub has_attachment : Bool
  pub deleted : Bool

pub record MessageDto : Type 0 where
  pub id : Text
  pub channel_id : Text
  pub author_id : Text
  pub content : Text
  pub type : MessageType
  pub reply_to_id : Option Text
  pub edited_at : Option Text
  pub deleted_at : Option Text
  pub created_at : Text
  pub author : UserSummary
  pub attachments : List AttachmentDto
  pub link_preview : Option LinkPreviewDto
  pub ticket_ref : Option TicketRefDto
  pub reply_to : Option ReplyPreview

pub record SendMessageRequest : Type 0 where
  pub channel_id : Text
  pub content : Text
  pub reply_to_id : Option Text
  pub attachments : List PendingAttachment

abbrev pub max_content : ℕ
max_content = 4000

-- The refinement of `sendMessageRequestSchema`, on the content that is trimmed already.
unfoldable pub is_sendable : SendMessageRequest → Bool
is_sendable r =
    leb (length r.content) max_content
    && leb (length r.attachments) 1
    && (ltb 0 (length (trim r.content)) || ltb 0 (length r.attachments))

-- `sendMessageRequestSchema.safeParse`
unfoldable pub parse_send : Option SendMessageRequest → Option SendMessageRequest
unfolding is_sendable trim
parse_send none = none
parse_send (some body) =
    let request = record body { content = trim body.content } in
    if is_sendable request then some request else none

-- socket-events.dto.ts
pub record EditMessageRequest : Type 0 where
  pub message_id : Text
  pub content : Text

-- `editMessageRequestSchema.safeParse`
unfoldable pub parse_edit : Option EditMessageRequest → Option EditMessageRequest
unfolding trim
parse_edit none = none
parse_edit (some body) =
    let content = trim body.content in
    if leb 1 (length content) && leb (length content) max_content
    then some (record body { content = content })
    else none

pub record DeleteMessageRequest : Type 0 where
  pub message_id : Text

pub record ChannelReadRequest : Type 0 where
  pub channel_id : Text
  pub message_id : Text

pub record TypingClientPayload : Type 0 where
  pub channel_id : Text

pub record TypingBroadcast : Type 0 where
  pub channel_id : Text
  pub user_id : Text

pub record PresenceSyncPayload : Type 0 where
  pub online_user_ids : List Text

pub record PresenceUpdatePayload : Type 0 where
  pub user_id : Text
  pub online : Bool

pub data SocketEvent : Type 0 where
  message_new message_updated typing_start typing_stop presence_sync presence_update : SocketEvent

pub data ChannelType : Type 0 where
  department general group dm : ChannelType

-- channel.dto.ts
pub record ChannelSummary : Type 0 where
  pub id : Text
  pub name : Text
  pub display_name : Text
  pub type : ChannelType
  pub created_at : Text
  pub unread_count : ℕ
