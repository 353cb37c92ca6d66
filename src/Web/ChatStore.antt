-- ===== src/Web/ChatStore.antt =====
-- apps/web/src/stores/useChatStore.ts. An object is the list of its entries, a key once.
use munichat.Prelude.{
  ℕ, Bool, true, false, not, Option, none, some, List, [], ◌∷◌, ◌++◌, if◌then◌else◌, keep, ltb,
  is_empty,
}
use munichat.Text.{Text, text_eq}

-- `{ ...object, [key]: value }`, `object[key]` and `delete object[key]`
abbrev pub put {ℓ} : {A : Type ℓ} → Text → A → List (Text × A) → List (Text × A)
put k a [] = (k, a) ∷ []
put k a ((j, b) ∷ entries) =
    let rest = put k a entries in if text_eq j k then (k, a) ∷ entries else (j, b) ∷ rest

abbrev pub get {ℓ} : {A : Type ℓ} → Text → List (Text × A) → Option A
get k [] = none
get k ((j, b) ∷ entries) = let rest = get k entries in if text_eq j k then some b else rest

abbrev pub without {ℓ} : {A : Type ℓ} → Text → List (Text × A) → List (Text × A)
without k [] = []
without k ((j, b) ∷ entries) =
    let rest = without k entries in if text_eq j k then rest else (j, b) ∷ rest

abbrev pub TypingByChannel : Type 0
TypingByChannel = List (Text × List (Text × ℕ))

pub record ChatState : Type 0 where
  pub active_channel_id : Option Text
  pub typing_users_by_channel : TypingByChannel
  pub online_user_ids : List Text

unfoldable pub set_active_channel_id : Option Text → ChatState → ChatState
set_active_channel_id id state = record state { active_channel_id = id }

abbrev pub or_empty {ℓ} : {A : Type ℓ} → Option (List A) → List A
or_empty none = []
or_empty (some xs) = xs

unfoldable pub add_typing : Text → Text → ℕ → ChatState → ChatState
add_typing channel_id user_id expiry_ms state = record state {
  typing_users_by_channel =
      put channel_id
        (put user_id expiry_ms (or_empty (get channel_id state.typing_users_by_channel)))
        state.typing_users_by_channel;
}

unfoldable pub remove_typing : Text → Text → ChatState → ChatState
remove_typing channel_id user_id state = elim (get channel_id state.typing_users_by_channel) [
  | none ↦ state
  | some users ↦ record state {
    typing_users_by_channel = put channel_id (without user_id users) state.typing_users_by_channel;
  }
]

abbrev pub unexpired : ℕ → List (Text × ℕ) → List (Text × ℕ)
unexpired now users = keep (λ entry. ltb now entry.1) users

unfoldable pub pruned : ℕ → TypingByChannel → TypingByChannel
pruned now [] = []
pruned now ((channel_id, users) ∷ entries) =
    let next = pruned now entries in
    if is_empty (unexpired now users) then next else (channel_id, unexpired now users) ∷ next

unfoldable pub prune_expired_typing : ℕ → ChatState → ChatState
unfolding pruned
prune_expired_typing now state = record state {
  typing_users_by_channel = pruned now state.typing_users_by_channel;
}

-- A `Set` of user ids.
abbrev pub has : Text → List Text → Bool
has u [] = false
has u (v ∷ vs) = if text_eq v u then true else has u vs

abbrev pub delete : Text → List Text → List Text
delete u vs = keep (λ v. not (text_eq v u)) vs

unfoldable pub set_online_users : List Text → ChatState → ChatState
set_online_users user_ids state = record state { online_user_ids = user_ids }

unfoldable pub set_user_online : Text → Bool → ChatState → ChatState
set_user_online user_id true state = record state {
  online_user_ids =
      if has user_id state.online_user_ids
      then state.online_user_ids
      else state.online_user_ids ++ user_id ∷ [];
}
set_user_online user_id false state = record state {
  online_user_ids = delete user_id state.online_user_ids;
}

-- When the typing of a user in a channel expires.
unfoldable pub typing : ChatState → Text → Text → Option ℕ
typing state channel_id user_id =
    get user_id (or_empty (get channel_id state.typing_users_by_channel))
