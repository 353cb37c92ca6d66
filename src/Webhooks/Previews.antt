-- ===== src/Webhooks/Previews.antt =====
-- `LinkPreviewProcessor` of apps/api/src/link-preview/link-preview.processor.ts and the tags that
-- link-preview.parser.ts reads from a page.
use munichat.Prelude.{ℕ, Bool, Option, none, some, [], ◌∷◌}
use munichat.Text.{Text, lit, trim}
use munichat.Shared.{SocketEvent, LinkPreviewStatus}
use munichat.Store.{Prisma, Message, LinkPreviewRow}
use munichat.Server.{
  Action, LinkPreviewJob, pure, throw, rejected, reads, writes, emit, ◌>>=◌, ◌>>◌, room, Payload,
}
use munichat.Messages.{Env, to_message_dto, get_by_id}
use munichat.Chat.Gateway.{channel_room}
use munichat.LinkPreview.Fetcher.{Platform, GuardedFetchResult, guarded_fetch_html}
use munichat.Webhooks.Tables.{PreviewTable}

-- What the code asks of cheerio: the `content` of the first `meta` element with a property or a name,
-- and the text of the first `title`.
pub record Page : Type 0 where
  pub meta_property : Text → Option Text
  pub meta_name : Text → Option Text
  pub title_text : Text

-- `ParsedOgTags`
pub record ParsedOgTags : Type 0 where
  pub title : Option Text
  pub description : Option Text
  pub image_url : Option Text

-- `value?.trim() || otherwise`
unfoldable pub trimmed_or : Option Text → Option Text → Option Text
unfolding trim
trimmed_or none otherwise = otherwise
trimmed_or (some t) otherwise = elim (trim t) [ [] ↦ otherwise | c ∷ rest ↦ some (c ∷ rest) ]

-- `parseOgTags`, on the page that `cheerio.load` makes
unfoldable pub parse_og_tags : Page → ParsedOgTags
unfolding trimmed_or
parse_og_tags page = record {
  title = trimmed_or (page.meta_property (lit "og:title")) (trimmed_or (some page.title_text) none);
  description =
      trimmed_or (page.meta_property (lit "og:description"))
        (trimmed_or (page.meta_name (lit "description")) none);
  image_url = trimmed_or (page.meta_property (lit "og:image")) none;
}

-- The row that is created, and what an update makes of the row that is there: a failure keeps its
-- tags and its address.
abbrev pub created_row : Text → LinkPreviewStatus → ParsedOgTags → ℕ → LinkPreviewRow
created_row url status tags now = record {
  preview = record {
    url = url;
    title = tags.title;
    description = tags.description;
    image_url = tags.image_url;
    status = status;
  };
  fetched_at = now;
}

abbrev pub no_tags : ParsedOgTags
no_tags = record { title = none; description = none; image_url = none }

abbrev pub marked_failed : ℕ → LinkPreviewRow → LinkPreviewRow
marked_failed now row = record {
  preview = record row.preview { status = LinkPreviewStatus.failed };
  fetched_at = now;
}

abbrev pub marked_ready : ParsedOgTags → ℕ → LinkPreviewRow → LinkPreviewRow
marked_ready tags now row = created_row row.preview.url LinkPreviewStatus.ready tags now

module _ (db : Prisma) (table : PreviewTable db) (platform : Platform) (allow_private : Bool)
    (load : Text → Page) (env : Env) where
  abbrev pub broadcast_preview : Text → Option Message → Action db.State (Unit {0})
  broadcast_preview channel none = pure tt
  broadcast_preview channel (some m) =
      emit (room (channel_room channel)) SocketEvent.message_updated
        (Payload.message (to_message_dto env m))

  -- The two calls of `linkPreview.upsert`; an error that the fetch throws rejects the job.
  unfoldable pub store_preview : Text → Text → GuardedFetchResult → Action db.State (Unit {0})
  unfolding parse_og_tags
  store_preview message url GuardedFetchResult.failed = do
    now ← reads (λ w. w.now)
    writes (
        table.upsert message (created_row url LinkPreviewStatus.failed no_tags now)
          (marked_failed now))
  store_preview message url (GuardedFetchResult.html page) =
      let tags = parse_og_tags (load page) in
      do
        now ← reads (λ w. w.now)
        writes (
            table.upsert message (created_row url LinkPreviewStatus.ready tags now)
              (marked_ready tags now))
  store_preview message url GuardedFetchResult.thrown = throw rejected

  -- `process`
  unfoldable pub process : LinkPreviewJob → Action db.State (Unit {0})
  unfolding store_preview guarded_fetch_html get_by_id to_message_dto
  process job = do
    store_preview job.message_id job.url (guarded_fetch_html platform allow_private job.url).0
    found ← get_by_id db job.message_id
    broadcast_preview job.channel_id found
