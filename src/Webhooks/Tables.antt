-- ===== src/Webhooks/Tables.antt =====
-- The tables that the webhooks and the preview processor use, as further calls of the database client
-- over the same state, and what the client documents of them.
use munichat.Prelude.{ℕ, ◌≡◌, false, true, Option, none, some}
use munichat.Text.{Text}
use munichat.Store.{
  Prisma, Channel, User, MessageRow, NewMessage, RmmAlertRef, NewRmmAlertRef, TicketRefRow,
  LinkPreviewRow,
}

module _ (db : Prisma) where
  pub record AlertTable : Type 0 where
    -- `channelsService.findByName` and `usersService.findByUsername`
    pub find_by_name : db.State → Text → Option Channel
    pub find_by_username : db.State → Text → Option User
    -- `rmmAlertRef.findUnique({ where: { rmmAlertId } })`
    pub find_alert : db.State → Text → Option RmmAlertRef
    -- `rmmAlertRef.create` and `rmmAlertRef.update`; `none` is a rejected promise
    pub create_alert : NewRmmAlertRef → db.State → Option db.State
    pub resolve_alert : Text → db.State → Option db.State
    pub create_alert_find :
        (n : NewRmmAlertRef) (s s' : db.State)
        → create_alert n s ≡ some s'
        → (id : Text) × (find_alert s' n.rmm_alert_id
            ≡ some (record {
              id = id;
              message_id = n.message_id;
              rmm_alert_id = n.rmm_alert_id;
              severity = n.severity;
              resolved = false;
            }))
    pub resolve_alert_find :
        (s s' : db.State) (alert : Text) (ref : RmmAlertRef)
        → find_alert s alert ≡ some ref
        → resolve_alert ref.id s ≡ some s'
        → find_alert s' alert ≡ some (record ref { resolved = true })
    -- channels are not changed by these calls
    pub create_alert_channels :
        (n : NewRmmAlertRef) (s s' : db.State) (name : Text)
        → create_alert n s ≡ some s'
        → find_by_name s' name ≡ find_by_name s name
    pub resolve_alert_channels :
        (id : Text) (s s' : db.State) (name : Text)
        → resolve_alert id s ≡ some s'
        → find_by_name s' name ≡ find_by_name s name
    pub create_message_channels :
        (n : NewMessage) (s s' : db.State) (r : MessageRow) (name : Text)
        → db.create_message n s ≡ some (r, s')
        → find_by_name s' name ≡ find_by_name s name

  pub record TicketTable : Type 0 where
    -- `ticketRef.findFirst({ where: { glpiTicketId } })`
    pub find_ticket : db.State → ℕ → Option TicketRefRow
    -- `ticketRef.update({ where: { id }, data: { status } })`, which also writes the column `updatedAt`
    -- with the time of the update
    pub set_status : Text → Text → ℕ → db.State → Option db.State
    pub set_status_find :
        (s s' : db.State) (ticket : ℕ) (status : Text) (now : ℕ) (ref : TicketRefRow)
        → find_ticket s ticket ≡ some ref
        → set_status ref.id status now s ≡ some s'
        → find_ticket s' ticket ≡ some (record ref { status = status; updated_at = now })

  pub record PreviewTable : Type 0 where
    -- `linkPreview` by `messageId`
    pub find_preview : db.State → Text → Option LinkPreviewRow
    -- `linkPreview.upsert`: the row to create, and the change of the row that is there
    pub upsert :
        Text → LinkPreviewRow → (LinkPreviewRow → LinkPreviewRow) → db.State → Option db.State
    pub upsert_find :
        (message : Text) (create : LinkPreviewRow) (update : LinkPreviewRow → LinkPreviewRow)
        (s s' : db.State)
        → upsert message create update s ≡ some s'
        → find_preview s' message
          ≡ some (elim (find_preview s message) [ none ↦ create | some row ↦ update row ])
