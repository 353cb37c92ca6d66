-- ===== src/Web/Grouping.antt =====
-- `computeMessageGrouping` of apps/web/src/lib/message-grouping.ts and `shouldNotify` of
-- apps/web/src/lib/notifications.ts
use munichat.Prelude.{
  ◌≡◌, ◌↔◌, ℕ, arith, ◌-◌, ◌*◌, Bool, true, false, not, ◌&&◌, ◌||◌, Option, none, some, List, [],
  ◌∷◌, leb, ltb, if◌then◌else◌,
}
use munichat.Text.{Text, text_eq}
use munichat.Shared.{MessageDto, MessageType}

abbrev pub group_window_ms : ℕ
group_window_ms = 5 * 60 * 1000

abbrev pub is_system : MessageType → Bool
is_system MessageType.system = true
is_system _ = false

-- The gap is NaN, and no comparison of it true, where one of the dates is not one.
abbrev pub in_window : Option ℕ → Option ℕ → Bool
in_window (some prev) (some at) = leb prev at && ltb (at - prev) group_window_ms
in_window _ _ = false

-- `time` is `new Date(text).getTime()`.
module _ (time : Text → Option ℕ) where
  unfoldable pub groups_with : MessageDto → MessageDto → Bool
  groups_with prev message =
      if is_system message.type || is_system prev.type
      then false
      else if not (text_eq message.author_id prev.author_id)
      then false
      else in_window (time prev.created_at) (time message.created_at)

  abbrev pub grouping_after : MessageDto → List MessageDto → List Bool
  grouping_after prev [] = []
  grouping_after prev (message ∷ messages) =
      groups_with prev message ∷ grouping_after message messages

  unfoldable pub compute_message_grouping : List MessageDto → List Bool
  compute_message_grouping [] = []
  compute_message_grouping (message ∷ messages) = false ∷ grouping_after message messages

pub data Permission : Type 0 where
  default' denied granted : Permission

abbrev pub is_granted : Permission → Bool
is_granted Permission.granted = true
is_granted _ = false

pub record ShouldNotifyContext : Type 0 where
  pub author_id : Text
  pub channel_id : Text
  pub current_user_id : Option Text
  pub active_channel_id : Option Text
  pub is_visible : Bool
  pub permission : Permission
  pub notifications_enabled : Bool

abbrev pub is_that : Text → Option Text → Bool
is_that t none = false
is_that t (some u) = text_eq t u

unfoldable pub should_notify : ShouldNotifyContext → Bool
should_notify c =
    if not c.notifications_enabled || not (is_granted c.permission)
    then false
    else if is_that c.author_id c.current_user_id
    then false
    else not (c.is_visible && is_that c.channel_id c.active_channel_id)

-- A notification is shown exactly when they are enabled and permitted, the message is not the user's
-- own, and its channel is not the active one of a visible tab.
pub should_notify_iff :
    (c : ShouldNotifyContext)
    → (should_notify c ≡ true) ↔ (
        (c.notifications_enabled ≡ true)
        × (is_granted c.permission ≡ true)
        × (is_that c.author_id c.current_user_id ≡ false)
        × ((c.is_visible && is_that c.channel_id c.active_channel_id) ≡ false))
unfolding should_notify
should_notify_iff c = ground arith
