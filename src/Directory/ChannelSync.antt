-- ===== src/Directory/ChannelSync.antt =====
-- `ChannelSyncService` of apps/api/src/auth/channel-sync.service.ts, over the calls that it makes of
-- the database client.
use munichat.Prelude.{◌≡◌, Bool, true, false, not, ◌&&◌, ◌||◌, Option, none, some}
use munichat.Text.{Text, text_eq}
use munichat.Shared.{MemberRole}
use munichat.Directory.Names.{Department}
use munichat.Directory.Slugs.{slug}

-- The `create` of the channel's upsert.
pub record NewChannel : Type 0 where
  pub name : Text
  pub display_name : Text
  pub ad_group_dn : Text

-- What the upsert of a channel may end in: its identifier, the error P2002 of a concurrent creation,
-- or another error.
pub data Upsert (S : Type 0) : Type 0 where
  upserted : Text → S → Upsert S
  duplicate : Upsert S
  failed : Upsert S

-- Whether a channel is linked to the directory, to another department than the one that is kept:
-- `adGroupDn: { not: null, notIn: department ? [department.dn] : [] }`
abbrev pub is_left : Option Text → Option Text → Bool
is_left kept none = false
is_left none (some group) = true
is_left (some dn) (some group) = not (text_eq group dn)

pub record SyncTable : Type 1 where
  pub State : Type 0
  pub is_member : State → Text → Text → Bool
  -- the `adGroupDn` of a channel
  pub group_of : State → Text → Option Text
  -- `channel.upsert({ where: { adGroupDn }, create, update: {} })`
  pub upsert_channel : NewChannel → State → Upsert State
  -- `channel.findUniqueOrThrow({ where: { adGroupDn } })`; `none` is a rejected promise
  pub find_by_group : State → Text → Option Text
  -- `channelMember.createMany` with one row and `skipDuplicates`
  pub create_member : Text → Text → MemberRole → State → Option State
  -- `channelMember.deleteMany` of the user's memberships in linked channels but the one kept
  pub delete_left : Text → Option Text → State → Option State
  -- what the client documents: `adGroupDn` is unique
  pub group_unique :
      (s : State) (dn a b : Text) → group_of s a ≡ some dn → group_of s b ≡ some dn → a ≡ b
  pub find_by_group_found :
      (s : State) (dn id : Text) → find_by_group s dn ≡ some id → group_of s id ≡ some dn
  pub upsert_group :
      (n : NewChannel) (s s' : State) (id : Text)
      → upsert_channel n s ≡ upserted id s'
      → group_of s' id ≡ some n.ad_group_dn
  pub upsert_members :
      (n : NewChannel) (s s' : State) (id user channel : Text)
      → upsert_channel n s ≡ upserted id s'
      → is_member s' user channel ≡ is_member s user channel
  pub create_member_members :
      (user channel : Text) (role : MemberRole) (s s' : State) (u c : Text)
      → create_member user channel role s ≡ some s'
      → is_member s' u c ≡ (text_eq u user && text_eq c channel || is_member s u c)
  pub create_member_groups :
      (user channel : Text) (role : MemberRole) (s s' : State) (c : Text)
      → create_member user channel role s ≡ some s'
      → group_of s' c ≡ group_of s c
  pub delete_left_members :
      (user : Text) (kept : Option Text) (s s' : State) (u c : Text)
      → delete_left user kept s ≡ some s'
      → is_member s' u c ≡ (is_member s u c && not (text_eq u user && is_left kept (group_of s c)))
  pub delete_left_groups :
      (user : Text) (kept : Option Text) (s s' : State) (c : Text)
      → delete_left user kept s ≡ some s'
      → group_of s' c ≡ group_of s c

-- The `dn` of a department, where there is one.
abbrev pub kept_group : Option Department → Option Text
kept_group none = none
kept_group (some department) = some department.dn

module _ (table : SyncTable) (to_lower_case normalize_nfd : Text → Text) where
  -- `catch (error)`: after P2002 the channel is read again.
  unfoldable pub ensured : Text → table.State → Upsert table.State → Option (Text × table.State)
  ensured dn s (upserted id s') = some (id, s')
  ensured dn s duplicate = elim (table.find_by_group s dn) [ none ↦ none | some id ↦ some (id, s) ]
  ensured dn s failed = none

  -- `ensureChannel`; `none` is a rejected promise.
  unfoldable pub ensure_channel : Department → table.State → Option (Text × table.State)
  unfolding ensured slug
  ensure_channel department s = ensured department.dn s (
      table.upsert_channel
        (record {
          name = slug to_lower_case normalize_nfd department.name;
          display_name = department.name;
          ad_group_dn = department.dn;
        })
        s)

  -- The first half of `syncChannelsForUser`, where there is a department.
  unfoldable pub join_department : Text → Option Department → table.State → Option table.State
  unfolding ensure_channel
  join_department user none s = some s
  join_department user (some department) s = elim (ensure_channel department s) [
    | none ↦ none
    | some (channel, s') ↦ table.create_member user channel MemberRole.member s'
  ]

  -- `syncChannelsForUser`
  unfoldable pub sync_channels_for_user :
      Text → Option Department → table.State → Option table.State
  unfolding join_department
  sync_channels_for_user user department s = elim (join_department user department s) [
    | none ↦ none
    | some s' ↦ table.delete_left user (kept_group department) s'
  ]
