-- ===== src/Installer/EnvFile.antt =====
-- `derivedUrls` and `buildEnvFile` of apps/enterprise-installer/src/lib/config.ts
use munichat.Prelude.{List, [], ◌∷◌, ◌++◌, map, if◌then◌else◌, is_empty}
use munichat.Text.{Text, lit}
use munichat.Installer.Config.{TicketSeverity, EnterpriseConfig}

pub record DerivedUrls : Type 0 where
  pub web_origin : Text
  pub vite_api_url : Text
  pub vite_ws_url : Text
  pub minio_public_url : Text

-- `c.appDomain || 'localhost'`
abbrev app_host : EnterpriseConfig → Text
app_host c = if is_empty c.app_domain then lit "localhost" else c.app_domain

-- `derivedUrls`
unfoldable pub derived_urls : EnterpriseConfig → DerivedUrls
derived_urls c =
    let minio_public_url = lit "http://" ++ (app_host c ++ b':' ∷ c.minio_port) in
    if c.use_edge
    then record {
      web_origin = lit "https://" ++ c.app_domain;
      vite_api_url = lit "https://" ++ c.api_domain;
      vite_ws_url = lit "wss://" ++ c.api_domain;
      minio_public_url = minio_public_url;
    }
    else record {
      web_origin = lit "http://" ++ app_host c;
      vite_api_url = lit "http://" ++ (app_host c ++ b':' ∷ c.api_port);
      vite_ws_url = lit "ws://" ++ (app_host c ++ b':' ∷ c.api_port);
      minio_public_url = minio_public_url;
    }

abbrev pub severity_text : TicketSeverity → Text
severity_text TicketSeverity.info = lit "info"
severity_text TicketSeverity.warning = lit "warning"
severity_text TicketSeverity.error = lit "error"
severity_text TicketSeverity.off = lit "off"

-- `databaseUrl` and `redisUrl`
abbrev pub database_url : EnterpriseConfig → Text
database_url c =
    lit "postgresql://"
    ++ (c.postgres_user
        ++ b':'
          ∷ (c.postgres_password
              ++ (lit "@postgres:"
                  ++ (c.postgres_port ++ b'/' ∷ (c.postgres_db ++ lit "?schema=public")))))

abbrev pub redis_url : EnterpriseConfig → Text
redis_url c = lit "redis://redis:" ++ c.redis_port

-- `line`
abbrev pub line : Text → Text → Text
line key value = key ++ b'=' ∷ value

-- The array `sections`.
unfoldable pub env_sections : EnterpriseConfig → List (List Text)
unfolding derived_urls
env_sections c =
    let urls = derived_urls c in
    (lit "# Generated by the Elyzian Enterprise Installer — do not commit."
      ∷ lit "# Regenerate by re-running the installer; secrets are recreated fresh."
      ∷ [])
    ∷ (lit "# --- Postgres ---"
        ∷ line (lit "POSTGRES_USER") (c.postgres_user)
        ∷ line (lit "POSTGRES_PASSWORD") (c.postgres_password)
        ∷ line (lit "POSTGRES_DB") (c.postgres_db)
        ∷ line (lit "POSTGRES_PORT") (c.postgres_port)
        ∷ line (lit "DATABASE_URL") (database_url c)
        ∷ [])
    ∷ (lit "# --- Redis ---"
        ∷ line (lit "REDIS_PORT") (c.redis_port)
        ∷ line (lit "REDIS_URL") (redis_url c)
        ∷ [])
    ∷ (lit "# --- MinIO ---"
        ∷ line (lit "MINIO_ROOT_USER") (c.minio_root_user)
        ∷ line (lit "MINIO_ROOT_PASSWORD") (c.minio_root_password)
        ∷ line (lit "MINIO_PORT") (c.minio_port)
        ∷ line (lit "MINIO_CONSOLE_PORT") (c.minio_console_port)
        ∷ line (lit "MINIO_ENDPOINT") (lit "minio")
        ∷ line (lit "MINIO_USE_SSL") (lit "false")
        ∷ line (lit "MINIO_BUCKET") (c.minio_bucket)
        ∷ line (lit "MINIO_PUBLIC_ENDPOINT") (urls.minio_public_url)
        ∷ [])
    ∷ (lit "# --- LDAP / Active Directory ---"
        ∷ line (lit "LDAP_URL") (c.ldap_url)
        ∷ line (lit "LDAP_BIND_DN") (c.ldap_bind_dn)
        ∷ line (lit "LDAP_BIND_PASSWORD") (c.ldap_bind_password)
        ∷ line (lit "LDAP_ADMIN_PASSWORD") (c.ldap_admin_password)
        ∷ line (lit "LDAP_BASE_DN") (c.ldap_base_dn)
        ∷ line (lit "LDAP_USER_SEARCH_BASE") (c.ldap_user_search_base)
        ∷ line (lit "LDAP_GROUP_SEARCH_BASE") (c.ldap_group_search_base)
        ∷ line (lit "LDAP_USERNAME_ATTRIBUTE") (c.ldap_username_attribute)
        ∷ line (lit "LDAP_UNIQUE_ID_ATTRIBUTE") (c.ldap_unique_id_attribute)
        ∷ line (lit "LDAP_PORT") (c.ldap_port)
        ∷ [])
    ∷ (lit "# --- JWT / sessions ---"
        ∷ line (lit "JWT_ACCESS_SECRET") (c.jwt_access_secret)
        ∷ line (lit "JWT_REFRESH_SECRET") (c.jwt_refresh_secret)
        ∷ line (lit "JWT_ACCESS_TTL") (c.jwt_access_ttl)
        ∷ line (lit "JWT_REFRESH_TTL") (c.jwt_refresh_ttl)
        ∷ [])
    ∷ (lit "# --- API ---"
        ∷ line (lit "PORT") (c.api_port)
        ∷ line (lit "NODE_ENV") (lit "production")
        ∷ line (lit "WEB_ORIGIN") (urls.web_origin)
        ∷ [])
    ∷ (lit "# --- GLPI (ticketing) ---"
        ∷ line (lit "GLPI_URL") (c.glpi_url)
        ∷ line (lit "GLPI_APP_TOKEN") (c.glpi_app_token)
        ∷ line (lit "GLPI_USER_TOKEN") (c.glpi_user_token)
        ∷ line (lit "GLPI_WEBHOOK_SECRET") (c.glpi_webhook_secret)
        ∷ line (lit "GLPI_WEBHOOK_TICKET_ID_FIELD") (lit "id")
        ∷ [])
    ∷ (lit "# --- Tactical RMM (device monitoring/alerting) ---"
        ∷ line (lit "RMM_URL") (c.rmm_url)
        ∷ line (lit "RMM_API_KEY") (c.rmm_api_key)
        ∷ line (lit "RMM_WEBHOOK_SECRET") (c.rmm_webhook_secret)
        ∷ line (lit "RMM_ALERT_CHANNEL_NAME") (c.rmm_alert_channel_name)
        ∷ line (lit "RMM_AUTO_TICKET_SEVERITY") (severity_text c.rmm_auto_ticket_severity)
        ∷ [])
    ∷ (lit "# --- Web (build-time, inlined into the bundle) ---"
        ∷ line (lit "VITE_API_URL") (urls.vite_api_url)
        ∷ line (lit "VITE_WS_URL") (urls.vite_ws_url)
        ∷ [])
    ∷ (lit "# --- Edge / TLS (Caddy + Let’s Encrypt) ---"
        ∷ line (lit "APP_DOMAIN") (c.app_domain)
        ∷ line (lit "API_DOMAIN") (c.api_domain)
        ∷ line (lit "ACME_EMAIL") (c.acme_email)
        ∷ [])
    ∷ (lit "# --- Images (registry the stack is pulled from) ---"
        ∷ line (lit "ELYZIAN_REGISTRY") (c.image_registry)
        ∷ line (lit "ELYZIAN_IMAGE_TAG") (c.image_tag)
        ∷ [])
    ∷ []

-- `parts.join(separator)`
unfoldable pub join : Text → List Text → Text
join separator [] = []
join separator (p ∷ []) = p
join separator (p ∷ q ∷ ps) = p ++ (separator ++ join separator (q ∷ ps))

-- `buildEnvFile`
unfoldable pub build_env_file : EnterpriseConfig → Text
unfolding env_sections join
build_env_file c = join (lit "\n\n") (map (join (lit "\n")) (env_sections c)) ++ lit "\n"
