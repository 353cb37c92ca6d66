-- ===== src/Webhooks/RmmAlerts.antt =====
-- `RmmWebhookController` of apps/api/src/rmm/rmm-webhook.controller.ts
use munichat.Prelude.{ℕ, Bool, false, Option, none, some, [], ◌++◌, if◌then◌else◌, leb}
use munichat.Text.{Text, lit, text_eq}
use munichat.Shared.{SocketEvent}
use munichat.Store.{Prisma, User, Channel, Message, RmmAlertRef}
use munichat.Server.{Action, pure, throw, http, reads, writes, emit, ◌>>=◌, ◌>>◌, room, Payload}
use munichat.Messages.{
  Env, to_message_dto, CreateMessageResult, created, error, create, create_system_message,
  get_by_id,
}
use munichat.Chat.Gateway.{channel_room}
use munichat.Webhooks.Tables.{AlertTable}
use munichat.Webhooks.Requests.{
  RmmAlertSeverity, RmmAlertWebhookPayload, parse_alert, Crypto, verify_bearer_token,
}

-- What the controller reads from the configuration. The threshold is a text, as the configuration
-- is cast without a check.
pub record RmmConfig : Type 0 where
  pub webhook_secret : Option Text
  pub env : Env
  pub alert_channel_name : Text
  pub auto_ticket_threshold : Text

unfoldable pub severity_text : RmmAlertSeverity → Text
severity_text RmmAlertSeverity.info = lit "info"
severity_text RmmAlertSeverity.warning = lit "warning"
severity_text RmmAlertSeverity.error = lit "error"

-- `severity.toUpperCase()`
abbrev upper_text : RmmAlertSeverity → Text
upper_text RmmAlertSeverity.info = lit "INFO"
upper_text RmmAlertSeverity.warning = lit "WARNING"
upper_text RmmAlertSeverity.error = lit "ERROR"

-- `SEVERITY_RANK`, `undefined` at any other text
unfoldable pub severity_rank : Text → Option ℕ
severity_rank t =
    if text_eq t (lit "info")
    then some 0
    else if text_eq t (lit "warning")
    then some 1
    else if text_eq t (lit "error")
    then some 2
    else none

abbrev at_least : Option ℕ → Option ℕ → Bool
at_least (some a) (some b) = leb b a
at_least (some a) none = false
at_least none b = false

-- `shouldAutoTicket`; the comparison with `undefined` is false.
unfoldable pub should_auto_ticket : Text → RmmAlertSeverity → Bool
unfolding severity_rank severity_text
should_auto_ticket threshold severity =
    if text_eq threshold (lit "off")
    then false
    else at_least (severity_rank (severity_text severity)) (severity_rank threshold)

unfoldable pub alert_summary : RmmAlertWebhookPayload → Text
alert_summary a =
    lit "["
    ++ (upper_text a.severity
        ++ (lit "] "
            ++ (a.hostname
                ++ (lit " ("
                    ++ (a.client ++ (lit " / " ++ (a.site ++ (lit "): " ++ a.message))))))))

module _ (db : Prisma) (table : AlertTable db) (crypto : Crypto) (config : RmmConfig)
    (real_object_size : Text → Option ℕ) where
  abbrev pub broadcast_new : Text → Option Message → Action db.State (Unit {0})
  broadcast_new channel none = pure tt
  broadcast_new channel (some m) =
      emit (room (channel_room channel)) SocketEvent.message_new
        (Payload.message (to_message_dto config.env m))

  abbrev pub broadcast_resolved : Option Message → Action db.State (Unit {0})
  broadcast_resolved none = pure tt
  broadcast_resolved (some m) =
      emit (room (channel_room m.row.channel_id)) SocketEvent.message_updated
        (Payload.message (to_message_dto config.env m))

  -- `trackAndBroadcast`
  unfoldable pub track_and_broadcast :
      Text → RmmAlertWebhookPayload → Text → Action db.State (Unit {0})
  unfolding get_by_id to_message_dto severity_text
  track_and_broadcast channel alert message = do
    writes (
        table.create_alert (record {
          message_id = message;
          rmm_alert_id = alert.alert_id;
          severity = severity_text alert.severity;
        }))
    found ← get_by_id db message
    broadcast_new channel found

  -- The end of `handleNewAlert`, from the result of the creation on.
  unfoldable pub announce :
      Text → RmmAlertWebhookPayload → User → CreateMessageResult → Action db.State (Unit {0})
  unfolding track_and_broadcast create_system_message alert_summary
  announce channel alert bot (created m) = track_and_broadcast channel alert m.row.id
  announce channel alert bot (error problem) = do
    fallback ← create_system_message db channel bot.id (
        alert_summary alert ++ (lit " (failed to open a GLPI ticket: " ++ (lit problem ++ lit ")")))
    track_and_broadcast channel alert fallback.row.id

  unfoldable pub post_alert :
      Text → RmmAlertWebhookPayload → User → Action db.State CreateMessageResult
  unfolding create create_system_message alert_summary should_auto_ticket
  post_alert channel alert bot =
      if should_auto_ticket config.auto_ticket_threshold alert.severity
      then create db real_object_size (record {
        channel_id = channel;
        author_id = bot.id;
        content = lit "/ticket " ++ alert_summary alert;
        reply_to_id = none;
        attachments = [];
      })
      else (do m ← create_system_message db channel bot.id (alert_summary alert); pure (created m))

  abbrev pub found_bot : Option User → Action db.State User
  found_bot none = throw (http 502 "RMM system user is not seeded")
  found_bot (some bot) = pure bot

  -- `handleNewAlert`
  unfoldable pub handle_new_alert : Text → RmmAlertWebhookPayload → Action db.State (Unit {0})
  unfolding post_alert announce
  handle_new_alert channel alert = do
    found ← reads (λ w. table.find_by_username w.db (lit "rmm-bot"))
    bot ← found_bot found
    result ← post_alert channel alert bot
    announce channel alert bot result

  -- `handleResolved`
  unfoldable pub handle_resolved : Option RmmAlertRef → Action db.State (Unit {0})
  unfolding get_by_id to_message_dto
  handle_resolved none = pure tt
  handle_resolved (some ref) = do
    writes (table.resolve_alert ref.id)
    found ← get_by_id db ref.message_id
    broadcast_resolved found

  abbrev pub found_alert : Option RmmAlertWebhookPayload → Action db.State RmmAlertWebhookPayload
  found_alert none = throw (http 400 "Invalid RMM alert payload")
  found_alert (some alert) = pure alert

  -- The code's message names the channel.
  abbrev pub found_channel : Option Channel → Action db.State Channel
  found_channel none = throw (http 502 "RMM alert channel is not configured")
  found_channel (some channel) = pure channel

  -- The branches of `handleAlertWebhook` once the alert and its channel are known.
  unfoldable pub dispatch_alert :
      Text → RmmAlertWebhookPayload → Option RmmAlertRef → Action db.State (Unit {0})
  unfolding handle_resolved handle_new_alert
  dispatch_alert channel alert existing =
      if alert.resolved
      then handle_resolved existing
      else (elim existing [ some ref ↦ pure tt | none ↦ handle_new_alert channel alert ])

  -- `handleAlertWebhook`, with the header `authorization` and the body
  unfoldable pub handle_alert_webhook :
      Option Text → Option RmmAlertWebhookPayload → Action db.State (Unit {0})
  unfolding verify_bearer_token parse_alert dispatch_alert
  handle_alert_webhook authorization body = do
    verify_bearer_token crypto config.webhook_secret authorization
    alert ← found_alert (parse_alert body)
    named ← reads (λ w. table.find_by_name w.db config.alert_channel_name)
    channel ← found_channel named
    existing ← reads (λ w. table.find_alert w.db alert.alert_id)
    dispatch_alert channel.id alert existing
