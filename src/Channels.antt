-- ===== src/Channels.antt =====
-- apps/api/src/channels/channels.service.ts
use munichat.Prelude.{ℕ, Bool, true, false, none, some, List, map}
use munichat.Text.{Text}
use munichat.Shared.{MemberRole}
use munichat.Store.{Prisma, Channel}
use munichat.Server.{Action, writes}

module _ (db : Prisma) where
  -- `listForUser`
  unfoldable pub list_for_user : db.State → Text → List Channel
  list_for_user s user = map (λ m. m.1) (db.memberships s user)

  -- `isMember`
  unfoldable pub is_member : db.State → Text → Text → Bool
  is_member s user channel = elim (db.find_member s user channel) [ none ↦ false | some m ↦ true ]

  -- `isChannelAdmin`
  unfoldable pub is_channel_admin : db.State → Text → Text → Bool
  is_channel_admin s user channel = elim (db.find_member s user channel) [
    | none ↦ false
    | some m ↦ elim m.role [ MemberRole.admin ↦ true | MemberRole.member ↦ false ]
  ]

  -- `markRead`
  unfoldable pub mark_read : Text → Text → Text → ℕ → Action db.State (Unit {0})
  mark_read user channel message at = writes (db.update_member user channel message at)
