-- ===== src/Store/Rows.antt =====
-- The rows of apps/api/prisma/schema.prisma, with the relations that the services include.
use munichat.Prelude.{ℕ, Bool, Option, List}
use munichat.Text.{Text}
use munichat.Shared.{MessageType, MemberRole, LinkPreviewStatus, PendingAttachment}

pub record User : Type 0 where
  pub id : Text
  pub username : Text
  pub display_name : Text
  pub avatar_url : Option Text
  pub is_active : Bool
  pub token_version : ℕ

pub record Channel : Type 0 where
  pub id : Text
  pub name : Text
  pub display_name : Text

pub record ChannelMember : Type 0 where
  pub user_id : Text
  pub channel_id : Text
  pub role : MemberRole
  pub last_read_message_id : Option Text
  pub last_read_at : Option ℕ

-- The columns of `Message`; a `DateTime` is its number of milliseconds.
pub record MessageRow : Type 0 where
  pub id : Text
  pub channel_id : Text
  pub author_id : Text
  pub content : Text
  pub type : MessageType
  pub reply_to_id : Option Text
  pub edited_at : Option ℕ
  pub deleted_at : Option ℕ
  pub created_at : ℕ

pub record Attachment : Type 0 where
  pub id : Text
  pub file_name : Text
  pub mime_type : Text
  pub size_bytes : ℕ
  pub object_key : Text

pub record LinkPreview : Type 0 where
  pub url : Text
  pub title : Option Text
  pub description : Option Text
  pub image_url : Option Text
  pub status : LinkPreviewStatus

pub record TicketRef : Type 0 where
  pub glpi_ticket_id : ℕ
  pub status : Text
  pub created_by_id : Text
  pub created_at : ℕ
  pub updated_at : ℕ

-- `ReplyToMessage` of message-response.mapper.ts
pub record ReplyToMessage : Type 0 where
  pub row : MessageRow
  pub author : User
  pub attachments : List Attachment

-- The relations of `MESSAGE_INCLUDE`.
pub record Extras : Type 0 where
  pub author : User
  pub attachments : List Attachment
  pub link_preview : Option LinkPreview
  pub ticket_ref : Option TicketRef
  pub reply_to : Option ReplyToMessage

-- `MessageWithExtras` of message-response.mapper.ts
pub record Message : Type 0 where
  pub row : MessageRow
  pub extras : Extras

pub record NewTicketRef : Type 0 where
  pub glpi_ticket_id : ℕ
  pub status : Text
  pub created_by_id : Text

-- The `data` of `message.create`.
pub record NewMessage : Type 0 where
  pub channel_id : Text
  pub author_id : Text
  pub content : Text
  pub type : MessageType
  pub reply_to_id : Option Text
  pub attachments : List PendingAttachment
  pub ticket_ref : Option NewTicketRef

-- The `data` of `message.update`: a field that is `none` is not written.
pub record MessagePatch : Type 0 where
  pub content : Text
  pub edited_at : Option ℕ
  pub deleted_at : Option ℕ

-- `RmmAlertRef`
pub record RmmAlertRef : Type 0 where
  pub id : Text
  pub message_id : Text
  pub rmm_alert_id : Text
  pub severity : Text
  pub resolved : Bool

-- The `data` of `rmmAlertRef.create`.
pub record NewRmmAlertRef : Type 0 where
  pub message_id : Text
  pub rmm_alert_id : Text
  pub severity : Text

-- A row of `TicketRef`, with the columns that the webhook of GLPI reads and writes.
pub record TicketRefRow : Type 0 where
  pub id : Text
  pub message_id : Text
  pub glpi_ticket_id : ℕ
  pub status : Text
  pub updated_at : ℕ

-- A row of `LinkPreview`.
pub record LinkPreviewRow : Type 0 where
  pub preview : LinkPreview
  pub fetched_at : ℕ
