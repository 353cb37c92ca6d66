-- ===== src/Webhooks/PreviewRows.antt =====
-- What a job of the link-preview queue stores.
use munichat.Prelude.{ℕ, ◌≡◌, refl, sym, ap, ◌∙◌, Bool, Option, none, some, arith}
use munichat.Text.{Text}
use munichat.Shared.{LinkPreviewStatus}
use munichat.Store.{Prisma, Message, LinkPreviewRow}
use munichat.Server.{World, ok, LinkPreviewJob, ◌>>=◌, bind-eq-ok}
use munichat.Messages.{Env}
use munichat.LinkPreview.Fetcher.{Platform, GuardedFetchResult, guarded_fetch_html}
use munichat.Webhooks.Tables.{PreviewTable}
use munichat.Webhooks.Previews.{
  Page, parse_og_tags, created_row, no_tags, marked_failed, marked_ready, store_preview,
  broadcast_preview, process,
}
use munichat.Webhooks.Stored.{writes-eq-ok, get_then-db}

-- The address of a row that is kept, and that of the job where there was no row.
abbrev address : Text → Option LinkPreviewRow → Text
address url none = url
address url (some row) = row.preview.url

abbrev kept : {A : Type 0} → (LinkPreviewRow → Option A) → Option LinkPreviewRow → Option A
kept field none = none
kept field (some row) = field row

-- The row of a message after a fetch: a page gives its tags, and a failure keeps those of the row that
-- was there; where the fetch throws, no row is written.
unfoldable pub row_after :
    (Text → Page) → Text → ℕ → GuardedFetchResult → Option LinkPreviewRow → Option LinkPreviewRow
row_after load url now GuardedFetchResult.thrown before = before
row_after load url now GuardedFetchResult.failed before = some (record {
  preview = record {
    url = address url before;
    title = kept (λ row. row.preview.title) before;
    description = kept (λ row. row.preview.description) before;
    image_url = kept (λ row. row.preview.image_url) before;
    status = LinkPreviewStatus.failed;
  };
  fetched_at = now;
})
row_after load url now (GuardedFetchResult.html page) before =
    let tags = parse_og_tags (load page) in
    some (record {
      preview = record {
        url = address url before;
        title = tags.title;
        description = tags.description;
        image_url = tags.image_url;
        status = LinkPreviewStatus.ready;
      };
      fetched_at = now;
    })

module _ (db : Prisma) (table : PreviewTable db) (platform : Platform) (allow_private : Bool)
    (load : Text → Page) (env : Env) where
  store-row :
      (message url : Text) (result : GuardedFetchResult) (w v : World db.State)
      → store_preview db table platform allow_private load env message url result w ≡ (ok tt, v)
      → table.find_preview v.db message
        ≡ row_after load url w.now result (table.find_preview w.db message)
  unfolding store_preview row_after ◌>>=◌
  store-row message url GuardedFetchResult.thrown w v e = absurd (ground (arith, e))
  store-row message url GuardedFetchResult.failed w v e =
      table.upsert_find message _ _ w.db v.db (
        writes-eq-ok
          (table.upsert message (created_row url LinkPreviewStatus.failed no_tags w.now)
            (marked_failed w.now))
          w v e)
      ∙ go (table.find_preview w.db message)
    where
      go :
          (o : Option LinkPreviewRow)
          → some (elim o as (λ _. LinkPreviewRow) [
            | none ↦ created_row url LinkPreviewStatus.failed no_tags w.now
            | some row ↦ marked_failed w.now row
          ])
            ≡ row_after load url w.now GuardedFetchResult.failed o
      go none = refl
      go (some row) = refl
  store-row message url (GuardedFetchResult.html page) w v e =
      table.upsert_find message _ _ w.db v.db (
        writes-eq-ok
          (table.upsert message
            (created_row url LinkPreviewStatus.ready (parse_og_tags (load page)) w.now)
            (marked_ready (parse_og_tags (load page)) w.now))
          w v e)
      ∙ go (table.find_preview w.db message)
    where
      go :
          (o : Option LinkPreviewRow)
          → some (elim o as (λ _. LinkPreviewRow) [
            | none ↦ created_row url LinkPreviewStatus.ready (parse_og_tags (load page)) w.now
            | some row ↦ marked_ready (parse_og_tags (load page)) w.now row
          ])
            ≡ row_after load url w.now (GuardedFetchResult.html page) o
      go none = refl
      go (some row) = refl

  broadcast_preview-db :
      (channel : Text) (m : Option Message) (v : World db.State)
      → (broadcast_preview db table platform allow_private load env channel m v).1.db ≡ v.db
  unfolding ◌>>=◌
  broadcast_preview-db channel none v = refl
  broadcast_preview-db channel (some m) v = refl

  -- A job that is processed without an error leaves, for its message, the row that the guarded fetch of
  -- its address calls for: the tags of the page with the state ready, or the state failed with the
  -- tags of the row that was there.
  pub process-row :
      (job : LinkPreviewJob) (w w' : World db.State)
      → process db table platform allow_private load env job w ≡ (ok tt, w')
      → table.find_preview w'.db job.message_id
        ≡ row_after load job.url w.now
            (guarded_fetch_html platform allow_private job.url).0
            (table.find_preview w.db job.message_id)
  unfolding process
  process-row job w w' e =
      let (done, v, stored, rest) = bind-eq-ok _ _ w tt w' e in
      let same =
        sym (get_then-db db job.message_id _ v (broadcast_preview-db job.channel_id))
        ∙ ap (λ p. World.db p.1) rest in
      ap (λ d. table.find_preview d job.message_id) (sym same)
      ∙ store-row job.message_id job.url _ w v stored
