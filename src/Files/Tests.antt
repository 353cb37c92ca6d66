-- ===== src/Files/Tests.antt =====
-- Downloads from the database in memory.
use munichat.Prelude.{
  arith, ◌≤◌, ◌≡◌, refl, true, Option, none, some, ◌++◌, length, All, if◌then◌else◌,
}
use munichat.Text.{Text, lit, text_eq, number_of}
use munichat.Shared.{MemberRole}
use munichat.Store.{User, ChannelMember}
use munichat.Store.Memory.{Memory, memory}
use munichat.Channels.{is_member}
use munichat.Files.Range.{parse_byte_range, window, unsatisfiable, ignored}
use munichat.Files.Handlers.{AttachmentForDownload, part, download, PresignUploadInput, object_key}
use munichat.Files.Served.{
  Serves, download-Serves, IsFileNameUnit, IsNoSeparator, object_key-IsConfined,
}

abbrev ann : User
ann = record {
  id = lit "u1";
  username = lit "ann";
  display_name = lit "Ann";
  avatar_url = none;
  is_active = true;
  token_version = 0;
}

abbrev membership : ChannelMember
membership = record {
  user_id = lit "u1";
  channel_id = lit "ti";
  role = MemberRole.member;
  last_read_message_id = none;
  last_read_at = none;
}

abbrev state : Memory
state = record {
  rows = λ id. none;
  members = λ u c. if text_eq c (lit "ti") then some membership else none;
  user = ann;
  next = 0;
  alerts = λ id. none;
  tickets = λ id. none;
  previews = λ id. none;
}

abbrev video : AttachmentForDownload
video = record {
  attachment = record {
    id = lit "a1";
    file_name = lit "v.mp4";
    mime_type = lit "video/mp4";
    size_bytes = 100;
    object_key = lit "k";
  };
  channel_id = lit "ti";
  deleted_at = none;
}

abbrev find : Memory → Text → Option AttachmentForDownload
find s id = some video

download-Serves_example :
    (a : AttachmentForDownload) × (find state (lit "a1") ≡ some a)
    × (a.deleted_at ≡ none)
    × (is_member memory state (lit "u1") a.channel_id ≡ true)
    × Serves a.attachment (part (lit "k") 90 99 10)
unfolding download number_of
download-Serves_example =
    download-Serves memory find state ann (lit "a1") (some (lit " bytes=-10 "))
      (part (lit "k") 90 99 10) refl

abbrev upload : PresignUploadInput
upload = record {
  channel_id = lit "ti";
  file_name = lit "../a b.png";
  mime_type = lit "image/png";
  size_bytes = 1;
}

object_key-IsConfined_example :
    (leaf name : Text) × (object_key (lit "id") upload
      ≡ lit "attachments/" ++ (lit "ti" ++ (lit "/" ++ leaf)))
    × All IsNoSeparator leaf
    × (leaf ≡ lit "id" ++ (lit "-" ++ name))
    × (length name ≤ 100)
    × All IsFileNameUnit name
object_key-IsConfined_example =
    object_key-IsConfined (lit "id") upload ((λ e. omega arith), ((λ e. omega arith), tt))

range_tests :
    (parse_byte_range (some (lit "bytes=5-")) 10 ≡ window 5 9)
    × (parse_byte_range (some (lit "bytes=5-3")) 10 ≡ unsatisfiable)
    × (parse_byte_range (some (lit "bytes=-0")) 10 ≡ ignored)
    × (parse_byte_range (some (lit "bytes=0-1,4-5")) 10 ≡ ignored)
    × (parse_byte_range (some (lit "bytes=0-0")) 0 ≡ unsatisfiable)
unfolding parse_byte_range number_of
range_tests = (refl, refl, refl, refl, refl)
