-- ===== src/Installer/EnvRead.antt =====
-- The environment file is read back as the entries that were written.
use munichat.Prelude.{
  ℕ, ◌≡◌, refl, ap, ◌∙◌, Bool, true, false, not, ◌&&◌, ◌||◌, Bool-cases, inl, inr, Option, none,
  some, List, [], ◌∷◌, ◌++◌, map, if◌then◌else◌, ◌==◌, arith, All, is_empty,
}
use mathlib.Core.List.{append_assoc}
use munichat.Text.{Text, lit, split_on, is_space}
use munichat.Installer.Config.{TicketSeverity, EnterpriseConfig}
use munichat.Installer.EnvFile.{env_sections, join, build_env_file}

-- The host that is shown where no domain is given, and what depends on the edge.
abbrev host : EnterpriseConfig → Text
host c = elim c.app_domain [ [] ↦ lit "localhost" | d ∷ ds ↦ d ∷ ds ]

abbrev with_edge : EnterpriseConfig → Text → Text → Text
with_edge c with_it without_it = if c.use_edge then with_it else without_it

abbrev severity : TicketSeverity → Text
severity TicketSeverity.info = lit "info"
severity TicketSeverity.warning = lit "warning"
severity TicketSeverity.error = lit "error"
severity TicketSeverity.off = lit "off"

-- The keys of the file and their values.
unfoldable pub env_entries : EnterpriseConfig → List (Text × Text)
env_entries c =
    (lit "POSTGRES_USER", c.postgres_user)
    ∷ (lit "POSTGRES_PASSWORD", c.postgres_password)
    ∷ (lit "POSTGRES_DB", c.postgres_db)
    ∷ (lit "POSTGRES_PORT", c.postgres_port)
    ∷ (
      lit "DATABASE_URL",
      lit "postgresql://"
          ++ (c.postgres_user
              ++ (lit ":"
                  ++ (c.postgres_password
                      ++ (lit "@postgres:"
                          ++ (c.postgres_port
                              ++ (lit "/" ++ (c.postgres_db ++ lit "?schema=public"))))))),
    )
    ∷ (lit "REDIS_PORT", c.redis_port)
    ∷ (lit "REDIS_URL", lit "redis://redis:" ++ c.redis_port)
    ∷ (lit "MINIO_ROOT_USER", c.minio_root_user)
    ∷ (lit "MINIO_ROOT_PASSWORD", c.minio_root_password)
    ∷ (lit "MINIO_PORT", c.minio_port)
    ∷ (lit "MINIO_CONSOLE_PORT", c.minio_console_port)
    ∷ (lit "MINIO_ENDPOINT", lit "minio")
    ∷ (lit "MINIO_USE_SSL", lit "false")
    ∷ (lit "MINIO_BUCKET", c.minio_bucket)
    ∷ (lit "MINIO_PUBLIC_ENDPOINT", lit "http://" ++ (host c ++ (lit ":" ++ c.minio_port)))
    ∷ (lit "LDAP_URL", c.ldap_url)
    ∷ (lit "LDAP_BIND_DN", c.ldap_bind_dn)
    ∷ (lit "LDAP_BIND_PASSWORD", c.ldap_bind_password)
    ∷ (lit "LDAP_ADMIN_PASSWORD", c.ldap_admin_password)
    ∷ (lit "LDAP_BASE_DN", c.ldap_base_dn)
    ∷ (lit "LDAP_USER_SEARCH_BASE", c.ldap_user_search_base)
    ∷ (lit "LDAP_GROUP_SEARCH_BASE", c.ldap_group_search_base)
    ∷ (lit "LDAP_USERNAME_ATTRIBUTE", c.ldap_username_attribute)
    ∷ (lit "LDAP_UNIQUE_ID_ATTRIBUTE", c.ldap_unique_id_attribute)
    ∷ (lit "LDAP_PORT", c.ldap_port)
    ∷ (lit "JWT_ACCESS_SECRET", c.jwt_access_secret)
    ∷ (lit "JWT_REFRESH_SECRET", c.jwt_refresh_secret)
    ∷ (lit "JWT_ACCESS_TTL", c.jwt_access_ttl)
    ∷ (lit "JWT_REFRESH_TTL", c.jwt_refresh_ttl)
    ∷ (lit "PORT", c.api_port)
    ∷ (lit "NODE_ENV", lit "production")
    ∷ (lit "WEB_ORIGIN", with_edge c (lit "https://" ++ c.app_domain) (lit "http://" ++ host c))
    ∷ (lit "GLPI_URL", c.glpi_url)
    ∷ (lit "GLPI_APP_TOKEN", c.glpi_app_token)
    ∷ (lit "GLPI_USER_TOKEN", c.glpi_user_token)
    ∷ (lit "GLPI_WEBHOOK_SECRET", c.glpi_webhook_secret)
    ∷ (lit "GLPI_WEBHOOK_TICKET_ID_FIELD", lit "id")
    ∷ (lit "RMM_URL", c.rmm_url)
    ∷ (lit "RMM_API_KEY", c.rmm_api_key)
    ∷ (lit "RMM_WEBHOOK_SECRET", c.rmm_webhook_secret)
    ∷ (lit "RMM_ALERT_CHANNEL_NAME", c.rmm_alert_channel_name)
    ∷ (lit "RMM_AUTO_TICKET_SEVERITY", severity c.rmm_auto_ticket_severity)
    ∷ (
      lit "VITE_API_URL",
      with_edge c (lit "https://" ++ c.api_domain)
          (lit "http://" ++ (host c ++ (lit ":" ++ c.api_port))),
    )
    ∷ (
      lit "VITE_WS_URL",
      with_edge c (lit "wss://" ++ c.api_domain)
          (lit "ws://" ++ (host c ++ (lit ":" ++ c.api_port))),
    )
    ∷ (lit "APP_DOMAIN", c.app_domain)
    ∷ (lit "API_DOMAIN", c.api_domain)
    ∷ (lit "ACME_EMAIL", c.acme_email)
    ∷ (lit "ELYZIAN_REGISTRY", c.image_registry)
    ∷ (lit "ELYZIAN_IMAGE_TAG", c.image_tag)
    ∷ []

-- A value of one line.
abbrev pub is_one_line : Text → Bool
is_one_line [] = true
is_one_line (c ∷ t) = not (c == 10) && is_one_line t

-- What readers of environment files take as it stands: neither quotes, which some of them strip, nor
-- `#`, `$`, backquotes and backslashes, which begin a comment, a substitution or an escape, nor white
-- space at the end of a line or behind a `=`, which is trimmed.
abbrev is_literal_unit : ℕ → Bool
is_literal_unit c = not (
    c == 10
    || c == 13
    || c == b'"'
    || c == b'\''
    || c == b'`'
    || c == b'$'
    || c == b'#'
    || c == b'\\')

abbrev has_literal_edges : Text → Bool
has_literal_edges [] = true
has_literal_edges (c ∷ []) = not (is_space c)
has_literal_edges (c ∷ d ∷ t) = not (c == b'=' && is_space d) && has_literal_edges (d ∷ t)

abbrev all_literal : Text → Bool
all_literal [] = true
all_literal (c ∷ t) = is_literal_unit c && all_literal t

-- A comment, or a line that is taken as it stands.
abbrev pub is_literal_line : Text → Bool
is_literal_line [] = true
is_literal_line (c ∷ t) =
    if c == b'#' then is_one_line t else all_literal (c ∷ t) && has_literal_edges (c ∷ t)

abbrev all_lines : List Text → Bool
all_lines [] = true
all_lines (l ∷ ls) = is_literal_line l && all_lines ls

-- The entries of a file: a line that is empty or begins with `#` has none, and any other is split at
-- its first `=`. A file that readers may take in different ways has no reading here.
abbrev split_entry : Text → Option (Text × Text)
split_entry [] = none
split_entry (c ∷ t) =
    if c == b'='
    then some ([], t)
    else (elim (split_entry t) [ none ↦ none | some (key, value) ↦ some (c ∷ key, value) ])

abbrev read_line : Text → Option (Text × Text)
read_line [] = none
read_line (c ∷ t) = if c == b'#' then none else split_entry (c ∷ t)

abbrev read_lines : List Text → List (Text × Text)
read_lines [] = []
read_lines (l ∷ ls) = elim (read_line l) [ none ↦ read_lines ls | some e ↦ e ∷ read_lines ls ]

abbrev read_all : List Text → Option (List (Text × Text))
read_all ls = if all_lines ls then some (read_lines ls) else none

unfoldable pub read_env : Text → Option (List (Text × Text))
unfolding split_on is_space
read_env text = let (first, rest) = split_on 10 text in read_all (first ∷ rest)

abbrev prepended : ℕ → List Text → List Text
prepended c [] = []
prepended c (l ∷ ls) = (c ∷ l) ∷ ls

abbrev lines_of : Text → List Text
lines_of t = (split_on 10 t).0 ∷ (split_on 10 t).1

lines_of_line :
    (l rest : Text) → is_one_line l ≡ true → lines_of (l ++ 10 ∷ rest) ≡ l ∷ lines_of rest
unfolding split_on
lines_of_line [] rest h = refl
lines_of_line (c ∷ t) rest h =
    let other : c == 10 ≡ false = ground (arith, h) in
    let more : is_one_line t ≡ true = ground (arith, h) in
    rw other (ap (λ (ls : List Text). prepended c ls) (lines_of_line t rest more))

literal_is_one_line : (t : Text) → all_literal t ≡ true → is_one_line t ≡ true
literal_is_one_line [] h = refl
literal_is_one_line (c ∷ t) h =
    let more : all_literal t ≡ true = ground (arith, h) in
    ground (arith, h, literal_is_one_line t more)

literal_line_is_one_line : (l : Text) → is_literal_line l ≡ true → is_one_line l ≡ true
literal_line_is_one_line [] h = refl
literal_line_is_one_line (c ∷ t) h = elim (Bool-cases (c == b'#')) [
  | inl comment ↦
      let more : is_one_line t ≡ true = ground (arith, rw comment at h) in
      let other : c == 10 ≡ false = ground (arith, comment) in ground (arith, more, other)
  | inr entry ↦
      let all : all_literal (c ∷ t) ≡ true = ground (arith, rw entry at h) in
      literal_is_one_line (c ∷ t) all
]

-- The lines of a section, each of them taken as it stands.
abbrev pub IsSection : List Text → Type 0
IsSection s = (is_empty s ≡ false) × All (λ l. is_literal_line l ≡ true) s

lines_of_section :
    (s : List Text) (rest : Text)
    → IsSection s
    → lines_of (join (lit "\n") s ++ 10 ∷ rest) ≡ s ++ lines_of rest
unfolding join
lines_of_section [] rest h = absurd (cc (h.0))
lines_of_section (l ∷ []) rest h = lines_of_line l rest (literal_line_is_one_line l h.1.0)
lines_of_section (l ∷ k ∷ ls) rest h =
    ap lines_of (append_assoc l _ _)
    ∙ (lines_of_line l _ (literal_line_is_one_line l h.1.0)
        ∙ ap (λ t. l ∷ t) (lines_of_section (k ∷ ls) rest (refl, h.1.1)))

-- The lines of the whole file: one that is empty follows each section.
abbrev file_lines : List (List Text) → List Text
file_lines [] = [] ∷ [] ∷ []
file_lines (s ∷ []) = s ++ [] ∷ []
file_lines (s ∷ r ∷ rs) = s ++ [] ∷ file_lines (r ∷ rs)

lines_of_file :
    (ss : List (List Text))
    → All IsSection ss
    → lines_of (join (lit "\n\n") (map (join (lit "\n")) ss) ++ lit "\n") ≡ file_lines ss
unfolding join split_on
lines_of_file [] h = refl
lines_of_file (s ∷ []) h = lines_of_section s [] h.0
lines_of_file (s ∷ r ∷ rs) h =
    ap lines_of (append_assoc (join (lit "\n") s) _ _)
    ∙ (lines_of_section s _ h.0 ∙ ap (λ ls. s ++ [] ∷ ls) (lines_of_file (r ∷ rs) h.1))

all_lines-append :
    (s ls : List Text)
    → All (λ l. is_literal_line l ≡ true) s
    → all_lines ls ≡ true
    → all_lines (s ++ ls) ≡ true
all_lines-append [] ls h k = k
all_lines-append (l ∷ s) ls h k =
    and_true (is_literal_line l) (all_lines (s ++ ls)) (h.0) (all_lines-append s ls (h.1) k)
  where
    and_true : (a b : Bool) → a ≡ true → b ≡ true → (a && b) ≡ true
    and_true a b e f = rw e f

all_lines_of_file : (ss : List (List Text)) → All IsSection ss → all_lines (file_lines ss) ≡ true
all_lines_of_file [] h = refl
all_lines_of_file (s ∷ []) h = all_lines-append s ([] ∷ []) (h.0.1) refl
all_lines_of_file (s ∷ r ∷ rs) h =
    all_lines-append s ([] ∷ file_lines (r ∷ rs)) (h.0.1) (all_lines_of_file (r ∷ rs) h.1)

read_sections : (c : EnterpriseConfig) → read_lines (file_lines (env_sections c)) ≡ env_entries c
unfolding env_entries env_sections
read_sections c = given c.app_domain c.use_edge c.rmm_auto_ticket_severity
  where
    with_choices : Text → Bool → TicketSeverity → EnterpriseConfig
    with_choices d edge severity' = record c {
      app_domain = d;
      use_edge = edge;
      rmm_auto_ticket_severity = severity';
    }

    given :
        (d : Text) (edge : Bool) (k : TicketSeverity)
        → read_lines (file_lines (env_sections (with_choices d edge k)))
          ≡ env_entries (with_choices d edge k)
    given [] true TicketSeverity.info = refl
    given [] true TicketSeverity.warning = refl
    given [] true TicketSeverity.error = refl
    given [] true TicketSeverity.off = refl
    given [] false TicketSeverity.info = refl
    given [] false TicketSeverity.warning = refl
    given [] false TicketSeverity.error = refl
    given [] false TicketSeverity.off = refl
    given (d ∷ ds) true TicketSeverity.info = refl
    given (d ∷ ds) true TicketSeverity.warning = refl
    given (d ∷ ds) true TicketSeverity.error = refl
    given (d ∷ ds) true TicketSeverity.off = refl
    given (d ∷ ds) false TicketSeverity.info = refl
    given (d ∷ ds) false TicketSeverity.warning = refl
    given (d ∷ ds) false TicketSeverity.error = refl
    given (d ∷ ds) false TicketSeverity.off = refl

-- A reader of environment files finds in the file just the entries of the configuration, each key with
-- its value and in order, where every line of the sections is one that readers take as it stands.
pub read_env-build_env_file :
    (c : EnterpriseConfig)
    → All IsSection (env_sections c)
    → read_env (build_env_file c) ≡ some (env_entries c)
unfolding read_env build_env_file
read_env-build_env_file c h =
    ap read_all (lines_of_file (env_sections c) h)
    ∙ (rw (all_lines_of_file (env_sections c) h) (ap some (read_sections c)))
