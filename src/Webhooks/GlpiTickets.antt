-- ===== src/Webhooks/GlpiTickets.antt =====
-- `GlpiWebhookController` of apps/api/src/glpi/glpi-webhook.controller.ts
use munichat.Prelude.{ℕ, Option, none, some, List}
use munichat.Text.{Text}
use munichat.Shared.{SocketEvent}
use munichat.Store.{Prisma, Message, TicketRefRow}
use munichat.Server.{
  Action, Failure, Result, ok, thrown, glpi_unavailable, pure, throw, http, reads, writes, emit,
  ◌>>=◌, ◌>>◌, room, Payload,
}
use munichat.Glpi.{get_ticket}
use munichat.Messages.{Env, to_message_dto, get_by_id}
use munichat.Chat.Gateway.{channel_room}
use munichat.Webhooks.Tables.{TicketTable}
use munichat.Webhooks.Requests.{Crypto, verify_signature}

-- The request: the header `x-glpi-signature` (the first one, where there are several), the raw body,
-- and `Number` of the body's ticket identifier, `none` where it is missing or not finite.
pub record TicketRequest : Type 0 where
  pub signature : Option Text
  pub raw_body : Option (List ℕ)
  pub ticket_id : Option ℕ

-- `catch (err)` around `getTicket`
abbrev pub as_gateway_error : {A : Type 0} → Result A → Result A
as_gateway_error (ok a) = ok a
as_gateway_error (thrown glpi_unavailable) = thrown (http 502 "GLPI is unreachable")
as_gateway_error (thrown e) = thrown e

module _ {S A : Type 0} where
  -- A value that is there, or a rejection.
  abbrev pub required : Failure → Option A → Action S A
  required failure none = throw failure
  required failure (some a) = pure a

module _ {S : Type 0} where
  -- The call of GLPI inside `try`.
  unfoldable pub ask_glpi : ℕ → Action S (Option Text)
  unfolding get_ticket
  ask_glpi id w = let (r, w') = get_ticket id w in (as_gateway_error r, w')

module _ (db : Prisma) (table : TicketTable db) (crypto : Crypto) (secret : Option Text)
    (env : Env) where
  abbrev pub broadcast_ticket : Option Message → Action db.State (Unit {0})
  broadcast_ticket none = pure tt
  broadcast_ticket (some m) =
      emit (room (channel_room m.row.channel_id)) SocketEvent.message_updated
        (Payload.message (to_message_dto env m))

  -- The end of `handleTicketWebhook`, from the update of the row at a time on.
  unfoldable pub store_status_at : TicketRefRow → Text → ℕ → Action db.State (Unit {0})
  unfolding get_by_id to_message_dto
  store_status_at ref status now = do
    writes (table.set_status ref.id status now)
    found ← get_by_id db ref.message_id
    broadcast_ticket found

  unfoldable pub store_status : TicketRefRow → Text → Action db.State (Unit {0})
  unfolding store_status_at
  store_status ref status = do now ← reads (λ w. w.now); store_status_at ref status now

  -- What precedes the update: the signature, the reference and the status that GLPI reports.
  unfoldable pub checked_ticket : TicketRequest → Action db.State (TicketRefRow × Text)
  unfolding verify_signature ask_glpi
  checked_ticket request = do
    verify_signature crypto secret request.signature request.raw_body
    ticket ← required (http 400 "Missing or invalid ticket id field") request.ticket_id
    known ← reads (λ w. table.find_ticket w.db ticket)
    ref ← required (http 404 "Not Found") known
    answer ← ask_glpi ticket
    status ← required (http 404 "Not Found") answer
    pure (ref, status)

  -- `handleTicketWebhook`
  unfoldable pub handle_ticket_webhook : TicketRequest → Action db.State (Unit {0})
  unfolding checked_ticket store_status
  handle_ticket_webhook request = do (ref, status) ← checked_ticket request; store_status ref status
