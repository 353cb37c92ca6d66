-- ===== src/Messages/Mapper.antt =====
-- apps/api/src/messages/message-response.mapper.ts and apps/api/src/users/user-summary.mapper.ts
use mathlib.Core.Option
use munichat.Prelude.{
  ℕ, Bool, true, false, Option, none, some, [], ◌∷◌, ◌++◌, map, if◌then◌else◌, take, length, ltb,
}
use munichat.Text.{Text, lit, show}
use munichat.Shared.{
  UserSummary, AttachmentDto, LinkPreviewDto, TicketRefDto, ReplyPreview, MessageDto,
}
use munichat.Store.{User, Attachment, LinkPreview, TicketRef, ReplyToMessage, Message}

-- The configured address of GLPI, and `Date.prototype.toISOString`.
pub record Env : Type 0 where
  pub glpi_url : Text
  pub to_iso_string : ℕ → Text

unfoldable pub to_user_summary : User → UserSummary
to_user_summary u = record {
  id = u.id;
  username = u.username;
  display_name = u.display_name;
  avatar_url = u.avatar_url;
}

unfoldable pub to_attachment_dto : Attachment → AttachmentDto
to_attachment_dto a = record {
  id = a.id;
  file_name = a.file_name;
  mime_type = a.mime_type;
  size_bytes = a.size_bytes;
}

abbrev is_deleted : Option ℕ → Bool
is_deleted none = false
is_deleted (some at) = true

-- `text || null`
abbrev or_null : Text → Option Text
or_null [] = none
or_null (c ∷ t) = some (c ∷ t)

unfoldable pub to_reply_preview : ReplyToMessage → ReplyPreview
to_reply_preview m =
    let deleted = is_deleted m.row.deleted_at in
    record {
      id = m.row.id;
      author_id = m.row.author_id;
      author_display_name = m.author.display_name;
      content_preview = if deleted then none else or_null (take 120 m.row.content);
      has_attachment = ltb 0 (length m.attachments);
      deleted = deleted;
    }

abbrev to_link_preview_dto : LinkPreview → LinkPreviewDto
to_link_preview_dto p = record {
  url = p.url;
  title = p.title;
  description = p.description;
  image_url = p.image_url;
  status = p.status;
}

module _ (env : Env) where
  abbrev to_ticket_ref_dto : TicketRef → TicketRefDto
  to_ticket_ref_dto t = record {
    glpi_ticket_id = t.glpi_ticket_id;
    status = t.status;
    url = env.glpi_url ++ (lit "/front/ticket.form.php?id=" ++ show t.glpi_ticket_id);
    created_at = env.to_iso_string t.created_at;
    updated_at = env.to_iso_string t.updated_at;
  }

  unfoldable pub to_message_dto : Message → MessageDto
  unfolding to_user_summary to_attachment_dto to_reply_preview
  to_message_dto m =
      let deleted = is_deleted m.row.deleted_at in
      record {
        id = m.row.id;
        channel_id = m.row.channel_id;
        author_id = m.row.author_id;
        content = m.row.content;
        type = m.row.type;
        reply_to_id = m.row.reply_to_id;
        edited_at = Option.map env.to_iso_string m.row.edited_at;
        deleted_at = Option.map env.to_iso_string m.row.deleted_at;
        created_at = env.to_iso_string m.row.created_at;
        author = to_user_summary m.extras.author;
        attachments = if deleted then [] else map to_attachment_dto m.extras.attachments;
        link_preview =
            if deleted then none else Option.map to_link_preview_dto m.extras.link_preview;
        ticket_ref = if deleted then none else Option.map to_ticket_ref_dto m.extras.ticket_ref;
        reply_to = Option.map to_reply_preview m.extras.reply_to;
      }
