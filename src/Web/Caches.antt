-- ===== src/Web/Caches.antt =====
-- apps/web/src/lib/message-cache.ts and apps/web/src/lib/channel-cache.ts: the updates of the query
-- cache. A query that is not loaded has no data.
use munichat.Prelude.{ℕ, suc, Option, none, some, List, [], ◌∷◌, ◌++◌, if◌then◌else◌, map}
use munichat.Text.{Text, text_eq}
use munichat.Shared.{MessageDto, ChannelSummary}

-- `MessageHistoryResponse`
pub record Page : Type 0 where
  pub messages : List MessageDto
  pub next_cursor : Option Text

-- `InfiniteData`
pub record InfiniteData : Type 0 where
  pub pages : List Page
  pub page_params : List (Option Text)

abbrev pub with_message : MessageDto → Page → Page
with_message message page = record page { messages = page.messages ++ message ∷ [] }

-- `appendMessageToCache`
unfoldable pub append_message_to_cache : MessageDto → Option InfiniteData → Option InfiniteData
append_message_to_cache message none = none
append_message_to_cache message (some d) = elim d.pages [
  | [] ↦ some d
  | first_page ∷ rest ↦ some (record d { pages = with_message message first_page ∷ rest })
]

abbrev pub replaced_by : MessageDto → MessageDto → MessageDto
replaced_by message existing = if text_eq existing.id message.id then message else existing

abbrev pub page_with : MessageDto → Page → Page
page_with message page = record page { messages = map (replaced_by message) page.messages }

-- `updateMessageInCache`
unfoldable pub update_message_in_cache : MessageDto → Option InfiniteData → Option InfiniteData
update_message_in_cache message none = none
update_message_in_cache message (some d) =
    some (record d { pages = map (page_with message) d.pages })

-- `[...data.pages].reverse().flatMap((page) => page.messages)` of
-- apps/web/src/components/chat/MessageList.tsx
abbrev pub in_order : List Page → List MessageDto
in_order [] = []
in_order (page ∷ pages) = in_order pages ++ page.messages

unfoldable pub shown : Option InfiniteData → List MessageDto
shown none = []
shown (some d) = in_order d.pages

-- `patchUnreadCount` and its two uses
abbrev pub patched_count : Text → (ℕ → ℕ) → ChannelSummary → ChannelSummary
patched_count channel_id next channel =
    if text_eq channel.id channel_id
    then record channel { unread_count = next channel.unread_count }
    else channel

unfoldable pub patch_unread_count :
    Text → (ℕ → ℕ) → Option (List ChannelSummary) → Option (List ChannelSummary)
patch_unread_count channel_id next none = none
patch_unread_count channel_id next (some channels) =
    some (map (patched_count channel_id next) channels)

unfoldable pub mark_channel_read_in_cache :
    Text → Option (List ChannelSummary) → Option (List ChannelSummary)
unfolding patch_unread_count
mark_channel_read_in_cache channel_id = patch_unread_count channel_id (λ n. 0)

unfoldable pub increment_unread_count_in_cache :
    Text → Option (List ChannelSummary) → Option (List ChannelSummary)
unfolding patch_unread_count
increment_unread_count_in_cache channel_id = patch_unread_count channel_id suc
