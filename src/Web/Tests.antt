-- ===== src/Web/Tests.antt =====
-- The client's caches at concrete inputs.
use munichat.Prelude.{refl, ◌≡◌, true, none, some, [], ◌∷◌, map}
use munichat.Text.{Text, lit}
use munichat.Shared.{MessageDto, MessageType}
use munichat.Web.Caches.{Page, InfiniteData, update_message_in_cache, shown}
use munichat.Web.Shown.{AreUpdated, update_message_in_cache-shown}
use munichat.Web.ChatStore.{ChatState, prune_expired_typing}
use munichat.Web.TypingEmitter.{
  unused, run, notified, stopped, elapsed, let_elapse, IsSettled, let_elapse-run,
}
use munichat.Web.Grouping.{ShouldNotifyContext, Permission}

abbrev dto : Text → Text → MessageDto
dto id content = record {
  id = id;
  channel_id = lit "ti";
  author_id = lit "u1";
  content = content;
  type = MessageType.text;
  reply_to_id = none;
  edited_at = none;
  deleted_at = none;
  created_at = [];
  author = record {
    id = lit "u1";
    username = lit "ann";
    display_name = lit "Ann";
    avatar_url = none;
  };
  attachments = [];
  link_preview = none;
  ticket_ref = none;
  reply_to = none;
}

abbrev newest : Page
newest = record { messages = dto (lit "m3") (lit "c") ∷ []; next_cursor = some (lit "x") }

abbrev oldest : Page
oldest = record {
  messages = dto (lit "m1") (lit "a") ∷ dto (lit "m2") (lit "b") ∷ [];
  next_cursor = none;
}

abbrev loaded : InfiniteData
loaded = record { pages = newest ∷ oldest ∷ []; page_params = none ∷ some (lit "x") ∷ [] }

update_message_in_cache-shown_example :
    AreUpdated
      (dto (lit "m2") (lit "z"))
      (shown (some loaded))
      (shown (update_message_in_cache (dto (lit "m2") (lit "z")) (some loaded)))
    × (map
          (λ (m : MessageDto). m.id)
          (shown (update_message_in_cache (dto (lit "m2") (lit "z")) (some loaded)))
        ≡ lit "m1" ∷ lit "m2" ∷ lit "m3" ∷ [])
unfolding shown
update_message_in_cache-shown_example =
    update_message_in_cache-shown (dto (lit "m2") (lit "z")) (some loaded)

second_is_replaced :
    shown (update_message_in_cache (dto (lit "m2") (lit "z")) (some loaded))
    ≡ dto (lit "m1") (lit "a") ∷ dto (lit "m2") (lit "z") ∷ dto (lit "m3") (lit "c") ∷ []
unfolding shown update_message_in_cache
second_is_replaced = refl

abbrev typing_now : ChatState
typing_now = record {
  active_channel_id = none;
  typing_users_by_channel =
      (lit "ti", (lit "u1", 10) ∷ (lit "u2", 30) ∷ []) ∷ (lit "rh", (lit "u1", 20) ∷ []) ∷ [];
  online_user_ids = [];
}

prune_at_20 :
    (prune_expired_typing 20 typing_now).typing_users_by_channel
    ≡ (lit "ti", (lit "u2", 30) ∷ []) ∷ []
unfolding prune_expired_typing
prune_at_20 = refl

let_elapse-run_example :
    IsSettled (let_elapse (run (notified ∷ notified ∷ elapsed 1 ∷ stopped ∷ notified ∷ []) unused))
let_elapse-run_example = let_elapse-run (notified ∷ notified ∷ elapsed 1 ∷ stopped ∷ notified ∷ [])

abbrev context : ShouldNotifyContext
context = record {
  author_id = lit "u1";
  channel_id = lit "ti";
  current_user_id = some (lit "u2");
  active_channel_id = some (lit "rh");
  is_visible = true;
  permission = Permission.granted;
  notifications_enabled = true;
}
