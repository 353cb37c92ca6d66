-- ===== src/Installer/Config.antt =====
-- The configuration that apps/enterprise-installer/src/lib/config.ts collects, and its defaults.
use munichat.Prelude.{
  ℕ, zero, suc, ◌%◌, Bool, true, List, [], ◌∷◌, map, reverse, if◌then◌else◌, ◌==◌, length,
}
use munichat.Text.{Text, lit}

-- `TicketSeverity`
pub data TicketSeverity : Type 0 where
  info warning error off : TicketSeverity

-- `EnterpriseConfig`
pub record EnterpriseConfig : Type 0 where
  pub postgres_user : Text
  pub postgres_password : Text
  pub postgres_db : Text
  pub postgres_port : Text
  pub redis_port : Text
  pub minio_root_user : Text
  pub minio_root_password : Text
  pub minio_port : Text
  pub minio_console_port : Text
  pub minio_bucket : Text
  pub ldap_url : Text
  pub ldap_bind_dn : Text
  pub ldap_bind_password : Text
  pub ldap_admin_password : Text
  pub ldap_base_dn : Text
  pub ldap_user_search_base : Text
  pub ldap_group_search_base : Text
  pub ldap_username_attribute : Text
  pub ldap_unique_id_attribute : Text
  pub ldap_port : Text
  pub jwt_access_secret : Text
  pub jwt_refresh_secret : Text
  pub jwt_access_ttl : Text
  pub jwt_refresh_ttl : Text
  pub glpi_url : Text
  pub glpi_app_token : Text
  pub glpi_user_token : Text
  pub glpi_webhook_secret : Text
  pub rmm_url : Text
  pub rmm_api_key : Text
  pub rmm_webhook_secret : Text
  pub rmm_alert_channel_name : Text
  pub rmm_auto_ticket_severity : TicketSeverity
  pub use_edge : Bool
  pub app_domain : Text
  pub api_domain : Text
  pub acme_email : Text
  pub api_port : Text
  pub image_registry : Text
  pub image_tag : Text

-- `alphabet` of `randomPassword`
abbrev pub alphabet : Text
alphabet = lit "ABCDEFGHIJKLMNOPQRSTUVWXYZabcdefghijklmnopqrstuvwxyz0123456789"

-- `text[i]`; the index that the code computes is in range.
unfoldable pub unit_at : Text → ℕ → ℕ
unit_at [] i = 0
unit_at (c ∷ t) zero = c
unit_at (c ∷ t) (suc i) = unit_at t i

-- `randomPassword`, on the bytes that are drawn
unfoldable pub random_password : List ℕ → Text
unfolding unit_at
random_password bytes = map (λ b. unit_at alphabet (b % length alphabet)) bytes

-- `replace(/\+/g, '-').replace(/\//g, '_')`
abbrev url_safe : ℕ → ℕ
url_safe c = if c == b'+' then b'-' else if c == b'/' then b'_' else c

-- `replace(/=+$/, '')`
unfoldable pub drop_padding : Text → Text
drop_padding [] = []
drop_padding (c ∷ t) = let rest = drop_padding t in if c == b'=' then rest else c ∷ t

-- `randomSecret`, on the bytes that are drawn, with `btoa` of the platform
unfoldable pub random_secret : (Text → Text) → List ℕ → Text
unfolding drop_padding
random_secret btoa bytes = reverse (drop_padding (reverse (map url_safe (btoa bytes))))

-- The bytes that `defaultConfig` draws, in its order.
pub record Drawn : Type 0 where
  pub postgres : List ℕ
  pub minio : List ℕ
  pub ldap : List ℕ
  pub access : List ℕ
  pub refresh : List ℕ
  pub glpi : List ℕ
  pub rmm : List ℕ

-- `defaultConfig`
unfoldable pub default_config : (Text → Text) → Drawn → EnterpriseConfig
unfolding random_password random_secret
default_config btoa drawn = record {
  postgres_user = lit "elyzian";
  postgres_password = random_password drawn.postgres;
  postgres_db = lit "elyzian";
  postgres_port = lit "5432";
  redis_port = lit "6379";
  minio_root_user = lit "elyzian_admin";
  minio_root_password = random_password drawn.minio;
  minio_port = lit "9000";
  minio_console_port = lit "9001";
  minio_bucket = lit "elyzian-files";
  ldap_url = lit "ldap://ad.example.gov.br:389";
  ldap_bind_dn = lit "cn=elyzian-svc,ou=Service Accounts,dc=example,dc=gov,dc=br";
  ldap_bind_password = [];
  ldap_admin_password = random_password drawn.ldap;
  ldap_base_dn = lit "dc=example,dc=gov,dc=br";
  ldap_user_search_base = lit "ou=people,dc=example,dc=gov,dc=br";
  ldap_group_search_base = lit "ou=groups,dc=example,dc=gov,dc=br";
  ldap_username_attribute = lit "sAMAccountName";
  ldap_unique_id_attribute = lit "objectGUID";
  ldap_port = lit "389";
  jwt_access_secret = random_secret btoa drawn.access;
  jwt_refresh_secret = random_secret btoa drawn.refresh;
  jwt_access_ttl = lit "900";
  jwt_refresh_ttl = lit "604800";
  glpi_url = [];
  glpi_app_token = [];
  glpi_user_token = [];
  glpi_webhook_secret = random_secret btoa drawn.glpi;
  rmm_url = [];
  rmm_api_key = [];
  rmm_webhook_secret = random_secret btoa drawn.rmm;
  rmm_alert_channel_name = lit "ti";
  rmm_auto_ticket_severity = TicketSeverity.error;
  use_edge = true;
  app_domain = lit "chat.example.gov.br";
  api_domain = lit "api.chat.example.gov.br";
  acme_email = lit "ti@example.gov.br";
  api_port = lit "3000";
  image_registry = lit "ghcr.io/trashmaghe";
  image_tag = lit "latest";
}
