-- ===== src/Rmm/Tests.antt =====
-- A remote-control session on the database in memory.
use munichat.Prelude.{◌≡◌, refl, true, Option, none, some, if◌then◌else◌}
use munichat.Text.{Text, lit, text_eq}
use munichat.Shared.{MemberRole}
use munichat.Store.{User, Channel, ChannelMember}
use munichat.Store.Memory.{Memory, memory}
use munichat.Channels.{is_channel_admin}
use munichat.Rmm.{
  RmmServer, RmmRemoteControlUrls, done, log, AuditEntry, get_mesh_control_urls, get_remote_control,
}
use munichat.Rmm.Access.{request_entry, remote_control_granted}

abbrev operator : ChannelMember
operator = record {
  user_id = lit "u1";
  channel_id = lit "c1";
  role = MemberRole.admin;
  last_read_message_id = none;
  last_read_at = none;
}

abbrev ann : User
ann = record {
  id = lit "u1";
  username = lit "ann";
  display_name = lit "Ann";
  avatar_url = none;
  is_active = true;
  token_version = 0;
}

abbrev state : Memory
state = record {
  rows = λ id. none;
  members = λ u c. if text_eq u (lit "u1") then some operator else none;
  user = ann;
  next = 1;
  alerts = λ id. none;
  tickets = λ id. none;
  previews = λ id. none;
}

abbrev named : Memory → Text → Option Channel
named s name = some (record { id = lit "c1"; name = name; display_name = name })

abbrev server : RmmServer
server = record {
  agents = λ path. none;
  agent = λ path. none;
  mesh = λ path. some (record {
    status = 200;
    body = some (record { control = lit "d"; terminal = lit "t"; file = lit "f" });
  });
}

-- The audit table counts its rows.
abbrev counted : AuditEntry → Memory → Option Memory
counted entry s = some (record s { next = 2 })

abbrev urls : RmmRemoteControlUrls
urls = record { desktop_url = lit "d"; terminal_url = lit "t"; file_url = lit "f" }

remote_control_granted_example :
    (channel : Channel) × (named state (lit "ti") ≡ some channel)
    × (is_channel_admin memory state (lit "u1") channel.id ≡ true)
    × (get_mesh_control_urls server (lit "a1") ≡ done urls)
    × (record state { next = 2 }
        ≡ log counted
            (request_entry memory named server (lit "ti") counted (lit "u1") (lit "a1") none)
            state)
unfolding get_remote_control
remote_control_granted_example =
    remote_control_granted memory named server (lit "ti") counted (lit "u1") (lit "a1") none state
      (record state { next = 2 }) urls refl
