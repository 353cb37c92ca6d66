-- ===== src/Files/Handlers.antt =====
-- `presignUpload`, `sanitizeFileName` of apps/api/src/files/files.service.ts and the handlers of
-- apps/api/src/files/files.controller.ts
use munichat.Prelude.{
  ℕ, ◌+◌, ◌-◌, Bool, true, false, ◌&&◌, ◌||◌, Option, none, some, ◌++◌, map, leb, ltb, ◌==◌,
  if◌then◌else◌, length, drop,
}
use munichat.Text.{Text, lit}
use munichat.Store.{Prisma, Attachment, User}
use munichat.Server.{Result, ok, thrown, http}
use munichat.Channels.{is_member}
use munichat.Files.Range.{ByteRange, ignored, unsatisfiable, window, parse_byte_range}

pub record PresignUploadInput : Type 0 where
  pub channel_id : Text
  pub file_name : Text
  pub mime_type : Text
  pub size_bytes : ℕ

-- The class `[a-zA-Z0-9._-]`.
abbrev pub is_safe : ℕ → Bool
is_safe c =
    leb b'a' c && leb c b'z'
    || leb b'A' c && leb c b'Z'
    || leb b'0' c && leb c b'9'
    || c == b'.'
    || c == b'_'
    || c == b'-'

abbrev pub safe_char : ℕ → ℕ
safe_char c = if is_safe c then c else b'_'

-- `.slice(-100)`
unfoldable pub sanitize_file_name : Text → Text
sanitize_file_name name = drop (length name - 100) (map safe_char name)

-- The object key of an upload, with the UUID that was drawn. The signed URL that is returned with it,
-- and when it expires, are the signer's of S3.
unfoldable pub object_key : Text → PresignUploadInput → Text
unfolding sanitize_file_name
object_key uuid input =
    lit "attachments/"
    ++ (input.channel_id ++ (lit "/" ++ (uuid ++ (lit "-" ++ sanitize_file_name input.file_name))))

pub record AttachmentForDownload : Type 0 where
  pub attachment : Attachment
  pub channel_id : Text
  pub deleted_at : Option ℕ

-- What a download streams: the object, its bytes from `start` to `end`, or nothing (416).
pub data Download : Type 0 where
  whole : Text → Option ℕ → Download
  part : Text → ℕ → ℕ → ℕ → Download
  no_content : ℕ → Download

abbrev pub served : Attachment → ByteRange → Download
served a unsatisfiable = no_content a.size_bytes
served a (window start end) = part a.object_key start end (end - start + 1)
served a ignored = whole a.object_key (if ltb 0 a.size_bytes then some a.size_bytes else none)

-- The handlers, with `attachment.findUnique` of the database client.
module _ (db : Prisma) (find_attachment : db.State → Text → Option AttachmentForDownload) where
  unfoldable pub presign : Text → db.State → User → PresignUploadInput → Result Text
  unfolding is_member object_key
  presign uuid s user input =
      if is_member db s user.id input.channel_id
      then ok (object_key uuid input)
      else thrown (http 403 "You are not a member of this channel")

  unfoldable pub download : db.State → User → Text → Option Text → Result Download
  unfolding is_member parse_byte_range
  download s user id range = elim (find_attachment s id) [
    | none ↦ thrown (http 404 "Attachment not found")
    | some a ↦ elim a.deleted_at [
      | some at ↦ thrown (http 404 "Attachment not found")
      | none ↦ elim (is_member db s user.id a.channel_id) [
        | false ↦ thrown (http 403 "You are not a member of this channel")
        | true ↦ ok (served a.attachment (parse_byte_range range a.attachment.size_bytes))
      ]
    ]
  ]
