-- ===== src/Webhooks/Requests.antt =====
-- How a webhook tells who is calling: `verifyBearerToken` of rmm-webhook.controller.ts,
-- `verifySignature` of glpi-webhook.controller.ts, and the body of an alert (rmm.dto.ts).
use munichat.Prelude.{
  ℕ, Bool, not, ◌&&◌, ◌||◌, Option, none, some, List, ◌==◌, length, if◌then◌else◌, is_empty,
}
use munichat.Text.{Text, lit, text_eq, strip_prefix}
use munichat.Server.{Action, pure, throw, http}

-- `RmmAlertSeverity`
pub data RmmAlertSeverity : Type 0 where
  info warning error : RmmAlertSeverity

-- `RmmAlertWebhookPayload`
pub record RmmAlertWebhookPayload : Type 0 where
  pub alert_id : Text
  pub hostname : Text
  pub client : Text
  pub site : Text
  pub severity : RmmAlertSeverity
  pub message : Text
  pub resolved : Bool

-- The refinements of `rmmAlertWebhookSchema`.
unfoldable pub is_alert : RmmAlertWebhookPayload → Bool
is_alert a =
    not (is_empty a.alert_id)
    && not (is_empty a.hostname)
    && not (is_empty a.client)
    && not (is_empty a.site)
    && not (is_empty a.message)

-- `rmmAlertWebhookSchema.safeParse`; a body without the shape of an alert is `none`.
unfoldable pub parse_alert : Option RmmAlertWebhookPayload → Option RmmAlertWebhookPayload
unfolding is_alert
parse_alert none = none
parse_alert (some a) = if is_alert a then some a else none

-- The encodings of `node:buffer` and `node:crypto`: the UTF-8 bytes of a text, those that a
-- hexadecimal text stands for, and an HMAC in hexadecimal.
pub record Crypto : Type 0 where
  pub utf8 : Text → List ℕ
  pub from_hex : Text → List ℕ
  pub hmac_sha256_hex : Text → List ℕ → Text

-- `provided.length !== expected.length || !timingSafeEqual(provided, expected)`
unfoldable pub differs : List ℕ → List ℕ → Bool
differs provided expected =
    not (length provided == length expected) || not (text_eq provided expected)

-- The header without its prefix, where it begins with it.
abbrev pub after_prefix : Text → Option Text → Option Text
after_prefix prefix none = none
after_prefix prefix (some header) = strip_prefix prefix header

-- The signature and the raw body are both needed.
abbrev pub signed : Option Text → Option (List ℕ) → Option (Text × List ℕ)
signed none raw_body = none
signed (some signature) none = none
signed (some signature) (some bytes) = some (signature, bytes)

module _ {S : Type 0} (crypto : Crypto) where
  -- `verifyBearerToken`, with the configured secret and the header `authorization`
  unfoldable pub verify_bearer_token : Option Text → Option Text → Action S (Unit {0})
  unfolding strip_prefix differs
  verify_bearer_token none header = pure tt
  verify_bearer_token (some secret) header = elim (after_prefix (lit "Bearer ") header) [
    | none ↦ throw (http 401 "Missing bearer token")
    | some provided ↦
        if differs (crypto.utf8 provided) (crypto.utf8 secret)
        then throw (http 401 "Invalid bearer token")
        else pure tt
  ]

  -- `verifySignature`, with the configured secret, the header `x-glpi-signature` and the raw body
  unfoldable pub verify_signature :
      Option Text → Option Text → Option (List ℕ) → Action S (Unit {0})
  unfolding strip_prefix differs
  verify_signature none header raw_body = pure tt
  verify_signature (some secret) header raw_body =
      elim (signed (after_prefix (lit "sha256=") header) raw_body) [
        | none ↦ throw (http 401 "Missing signature")
        | some (provided, bytes) ↦
            if differs (crypto.from_hex (crypto.hmac_sha256_hex secret bytes))
              (crypto.from_hex provided)
            then throw (http 401 "Invalid signature")
            else pure tt
      ]
