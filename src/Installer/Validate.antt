-- ===== src/Installer/Validate.antt =====
-- `validate` of apps/enterprise-installer/src/lib/config.ts
use munichat.Prelude.{
  ℕ, Bool, true, false, not, ◌&&◌, ◌||◌, List, [], ◌∷◌, if◌then◌else◌, ◌==◌, is_empty,
}
use Prim.Native.String.{String}
use munichat.Text.{Text, lit, text_eq, trim, is_space}
use munichat.Installer.Config.{EnterpriseConfig}

-- The errors by the name of their field, in the order in which they were first set.
abbrev pub Errors : Type 0
Errors = List (Text × String)

-- `errors[key] = message`
unfoldable pub set : Text → String → Errors → Errors
set key message [] = (key, message) ∷ []
set key message ((k, m) ∷ rest) =
    let others = set key message rest in
    if text_eq k key then (key, message) ∷ rest else (k, m) ∷ others

-- `!String(value).trim()`
unfoldable pub is_blank : Text → Bool
unfolding trim
is_blank value = is_empty (trim value)

-- The fields of `required`, with their values.
unfoldable pub required_fields : EnterpriseConfig → List (Text × Text)
required_fields c =
    (lit "postgresUser", c.postgres_user)
    ∷ (lit "postgresPassword", c.postgres_password)
    ∷ (lit "postgresDb", c.postgres_db)
    ∷ (lit "minioRootUser", c.minio_root_user)
    ∷ (lit "minioRootPassword", c.minio_root_password)
    ∷ (lit "ldapUrl", c.ldap_url)
    ∷ (lit "ldapBindDn", c.ldap_bind_dn)
    ∷ (lit "ldapBindPassword", c.ldap_bind_password)
    ∷ (lit "ldapBaseDn", c.ldap_base_dn)
    ∷ (lit "jwtAccessSecret", c.jwt_access_secret)
    ∷ (lit "jwtRefreshSecret", c.jwt_refresh_secret)
    ∷ []

-- The loop over `required`.
unfoldable pub require : List (Text × Text) → Errors → Errors
unfolding is_blank set
require [] errors = errors
require ((key, value) ∷ rest) errors =
    require rest (if is_blank value then set key "Required" errors else errors)

-- `[^@\s]`
abbrev is_address_unit : ℕ → Bool
is_address_unit c = not (c == b'@' || is_space c)

-- `^[^@\s]+@`: what follows the sign, after at least one unit of the class
abbrev address_unit_before : Bool → Text → Text
address_unit_before seen t = if seen then t else []

unfoldable pub after_at : Bool → Text → Text
unfolding is_space
after_at seen [] = []
after_at seen (c ∷ t) =
    let rest = after_at true t in
    if c == b'@' then address_unit_before seen t else if is_space c then [] else rest

abbrev pub all_address_units : Text → Bool
all_address_units [] = true
all_address_units (c ∷ t) = is_address_unit c && all_address_units t

-- Whether a unit with one before it and one after it is a full stop.
unfoldable pub has_inner_stop : Text → Bool
has_inner_stop [] = false
has_inner_stop (a ∷ []) = false
has_inner_stop (a ∷ b ∷ []) = false
has_inner_stop (a ∷ b ∷ c ∷ t) = b == b'.' || has_inner_stop (b ∷ c ∷ t)

-- `/^[^@\s]+@[^@\s]+\.[^@\s]+$/.test(value)`
unfoldable pub is_email : Text → Bool
unfolding after_at has_inner_stop is_space
is_email value =
    let domain = after_at false value in has_inner_stop domain && all_address_units domain

abbrev pub set_if : Bool → Text → String → Errors → Errors
set_if wrong key message errors = if wrong then set key message errors else errors

-- The secrets may not be the same.
unfoldable pub check_secrets : EnterpriseConfig → Errors → Errors
unfolding set
check_secrets c =
    set_if (not (is_empty c.jwt_access_secret) && text_eq c.jwt_access_secret c.jwt_refresh_secret)
      (lit "jwtRefreshSecret") "Must differ from the access secret"

-- The names of the edge.
unfoldable pub check_edge : EnterpriseConfig → Errors → Errors
unfolding set is_blank is_email
check_edge c errors =
    if c.use_edge
    then set_if (not (is_email c.acme_email)) (lit "acmeEmail")
        "A valid email is required for Let’s Encrypt"
        (set_if (is_blank c.api_domain) (lit "apiDomain") "Required when TLS edge is enabled" (
          set_if (is_blank c.app_domain) (lit "appDomain") "Required when TLS edge is enabled"
            errors))
    else errors

-- `validate`
unfoldable pub validate : EnterpriseConfig → Errors
unfolding required_fields require check_secrets check_edge
validate c = check_edge c (check_secrets c (require (required_fields c) []))
