-- ===== src/Presence/Service.antt =====
-- apps/api/src/chat/presence.service.ts
use munichat.Prelude.{ℕ, Bool, false, List, ◌==◌, if◌then◌else◌}
use munichat.Text.{Text}
use munichat.Presence.Redis.{
  Redis, ℤ, pos, negsuc, incr_presence_count, decr_presence_count, add_online_user,
  remove_online_user,
}

-- `count === n`
abbrev pub is_int : ℤ → ℕ → Bool
is_int (pos m) n = m == n
is_int (negsuc m) n = false

module _ (r : Redis) where
  unfoldable pub mark_online : Text → r.State → Bool × r.State
  unfolding incr_presence_count add_online_user
  mark_online user s =
      let (count, s') = incr_presence_count r user s in
      let is_transition = is_int count 1 in
      (is_transition, if is_transition then add_online_user r user s' else s')

  unfoldable pub mark_offline : Text → r.State → Bool × r.State
  unfolding decr_presence_count remove_online_user
  mark_offline user s =
      let (count, s') = decr_presence_count r user s in
      let is_transition = is_int count 0 in
      (is_transition, if is_transition then remove_online_user r user s' else s')

  unfoldable pub list_online_users : r.State → List Text
  list_online_users s = r.smembers s
