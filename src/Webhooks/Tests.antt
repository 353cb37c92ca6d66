-- ===== src/Webhooks/Tests.antt =====
-- The webhooks and the processor of previews on the tables in memory.
use mathlib.Core.Option
use munichat.Prelude.{ℕ, ◌≡◌, refl, true, false, none, some, [], ◌∷◌, length, ◌==◌, if◌then◌else◌}
use munichat.Text.{number_of, Text, lit, show}
use munichat.Store.{User, TicketRefRow, LinkPreviewRow}
use munichat.Store.Memory.{Memory, memory}
use munichat.Server.{World, ok, http, response, ticket_status, LinkPreviewJob, Result, ◌>>=◌}
use munichat.Glpi.{get_ticket}
use munichat.Messages.{Env}
use munichat.LinkPreview.SsrfGuard.{Network, Url}
use munichat.LinkPreview.Fetcher.{Platform, Response, guarded_fetch_html, reader, chunk, done}
use munichat.Webhooks.Memory.{alert_table, ticket_table, preview_table}
use munichat.Webhooks.Requests.{RmmAlertSeverity, RmmAlertWebhookPayload, Crypto}
use munichat.Webhooks.RmmAlerts.{RmmConfig, handle_alert_webhook}
use munichat.Webhooks.GlpiTickets.{TicketRequest, handle_ticket_webhook}
use munichat.Webhooks.Previews.{Page, process}
use munichat.Webhooks.PreviewRows.{row_after, process-row}
use munichat.Webhooks.Redelivery.{redelivery_idle}
use munichat.Webhooks.Statuses.{ticket_updated}

abbrev bot : User
bot = record {
  id = lit "u9";
  username = lit "rmm-bot";
  display_name = lit "RMM";
  avatar_url = none;
  is_active = true;
  token_version = 0;
}

abbrev ticket : TicketRefRow
ticket = record {
  id = lit "t1";
  message_id = lit "m1";
  glpi_ticket_id = 7;
  status = lit "New";
  updated_at = 1;
}

abbrev world : World Memory
world = record {
  db = record {
    rows = λ id. none;
    members = λ u c. none;
    user = bot;
    next = 1;
    alerts = λ id. none;
    tickets = λ id. if id == 7 then some ticket else none;
    previews = λ id. none;
  };
  emitted = [];
  jobs = [];
  requests = [];
  replies = response 200 (ticket_status 5) ∷ [];
  session_token = some (lit "token");
  now = 100;
}

abbrev env : Env
env = record { glpi_url = lit "https://glpi"; to_iso_string = λ t. [] }

abbrev crypto : Crypto
crypto = record { utf8 = λ t. t; from_hex = λ t. t; hmac_sha256_hex = λ secret bytes. bytes }

abbrev config : RmmConfig
config = record {
  webhook_secret = some (lit "s3cret");
  env = env;
  alert_channel_name = lit "ti";
  auto_ticket_threshold = lit "error";
}

abbrev alert : RmmAlertWebhookPayload
alert = record {
  alert_id = lit "17";
  hostname = lit "srv";
  client = lit "city";
  site = lit "hall";
  severity = RmmAlertSeverity.warning;
  message = lit "disk";
  resolved = false;
}

abbrev delivered : World Memory → Result (Unit {0}) × World Memory
delivered =
    handle_alert_webhook memory alert_table crypto config (λ key. none) (some (lit "Bearer s3cret"))
      (some alert)

-- The first delivery posts one message.
posts_once : length (delivered world).1.emitted ≡ 1
unfolding handle_alert_webhook show ◌>>=◌
posts_once = refl

redelivery_idle_example : delivered (delivered world).1 ≡ (ok tt, (delivered world).1)
unfolding handle_alert_webhook show ◌>>=◌
redelivery_idle_example =
    redelivery_idle memory alert_table crypto config (λ key. none) (some (lit "Bearer s3cret"))
      (some alert) alert world (delivered world).1 refl refl refl

abbrev from_glpi : TicketRequest
from_glpi = record {
  signature = some (lit "sha256=body");
  raw_body = some (lit "body");
  ticket_id = some 7;
}

abbrev unsigned : TicketRequest
unsigned = record from_glpi { signature = some (lit "sha256=other") }

abbrev updated : Result (Unit {0}) × World Memory
updated = handle_ticket_webhook memory ticket_table crypto (some (lit "key")) env from_glpi world

abbrev refused : Result (Unit {0}) × World Memory
refused = handle_ticket_webhook memory ticket_table crypto (some (lit "key")) env unsigned world

ticket_updated_example :
    (id : ℕ) × (ref : TicketRefRow) × (status : Text) × (v : World Memory) × (some 7 ≡ some id)
    × ((if id == 7 then some ticket else none) ≡ some ref)
    × (get_ticket id world ≡ (ok (some status), v))
    × (updated.1.db.tickets id ≡ some (record ref { status = status; updated_at = v.now }))
unfolding handle_ticket_webhook ◌>>=◌
ticket_updated_example =
    ticket_updated memory ticket_table crypto (some (lit "key")) env from_glpi world updated.1 refl

unsigned_is_refused : refused.0 ≡ Result.thrown (http 401 "Invalid signature")
unfolding handle_ticket_webhook ◌>>=◌
unsigned_is_refused = refl

abbrev network : Network
network = record { is_ip = λ t. 0; lookup = λ t. some (lit "10.0.0.1" ∷ []) }

abbrev at : Text → Url
at host = record { href = host; protocol = lit "https:"; hostname = host }

abbrev answer : Response
answer = record {
  status = 200;
  location = none;
  content_type = some (lit "text/html");
  content_length = none;
  body = reader (chunk (1 ∷ []) done);
}

abbrev platform : Platform
platform = record {
  network = network;
  parse = λ t. some (at t);
  resolve = λ t u. some (at t);
  fetch = λ u. some answer;
  number = number_of;
  utf8 = λ bytes. bytes;
}

abbrev load : Text → Page
load html = record {
  meta_property = λ name. none;
  meta_name = λ name. none;
  title_text = lit " Hello ";
}

abbrev job : LinkPreviewJob
job = record { message_id = lit "m1"; channel_id = lit "c1"; url = lit "a.example" }

abbrev processed : Result (Unit {0}) × World Memory
processed = process memory preview_table platform true load env job world

process-row_example :
    processed.1.db.previews (lit "m1")
    ≡ row_after load
        (lit "a.example")
        100
        (guarded_fetch_html platform true (lit "a.example")).0
        none
unfolding process ◌>>=◌
process-row_example =
    process-row memory preview_table platform true load env job world processed.1 refl

-- The fetch is allowed, and its page gives the title.
title_is_stored :
    Option.map (λ (row : LinkPreviewRow). row.preview.title) (processed.1.db.previews (lit "m1"))
    ≡ some (some (lit "Hello"))
unfolding process ◌>>=◌
title_is_stored = refl
