-- ===== src/Installer/Complete.antt =====
-- What a configuration without errors is.
use munichat.Prelude.{
  ◌≡◌, ◌≢◌, refl, sym, ◌∙◌, ◌↔◌, ◌⊎◌, inl, inr, Bool, true, false, not, List, [], ◌∷◌, arith, All,
  Bool-cases, is_empty,
}
use Prim.Native.String.{String}
use munichat.Text.{Text, lit, text_eq, trim}
use munichat.Text.Laws.{text_eq_iff}
use munichat.Installer.Given.{IsGiven, IsEmail, is_blank_iff, is_email_iff}
use munichat.Installer.Config.{EnterpriseConfig}
use munichat.Installer.Validate.{
  Errors, set, set_if, is_blank, required_fields, require, is_email, check_secrets, check_edge,
  validate,
}

set-nonempty : (key : Text) (message : String) (errors : Errors) → set key message errors ≡ [] → ⊥
unfolding set
set-nonempty key message [] e = absurd (cc e)
set-nonempty key message ((k, m) ∷ rest) e = elim (Bool-cases (text_eq k key)) [
  | inl same ↦ absurd (cc (rw (same, set) at e))
  | inr other ↦ absurd (cc (rw (other, set) at e))
]

set_if_iff :
    (wrong : Bool) (key : Text) (message : String) (errors : Errors)
    → (set_if wrong key message errors ≡ []) ↔ ((wrong ≡ false) × (errors ≡ []))
set_if_iff true key message errors =
    (λ e. absurd (set-nonempty key message errors e), λ h. absurd (cc (h.0)))
set_if_iff false key message errors = (λ e. (refl, e), λ h. h.1)

require_iff :
    (fields : List (Text × Text)) (errors : Errors)
    → (require fields errors ≡ []) ↔ (All (λ f. is_blank f.1 ≡ false) fields × (errors ≡ []))
unfolding require
require_iff [] errors = (λ e. (tt, e), λ h. h.1)
require_iff ((key, value) ∷ rest) errors =
    let later = require_iff rest (set_if (is_blank value) key "Required" errors) in
    let here = set_if_iff (is_blank value) key "Required" errors in
    (
      λ e.
          let (others, start) = later.0 e in
          let (given, clean) = here.0 start in ((given, others), clean),
      λ h. later.1 (h.0.1, here.1 (h.0.0, h.1)),
    )

-- What the tests of the code ask for.
abbrev IsAccepted : EnterpriseConfig → Type 0
IsAccepted c =
    All (λ f. is_blank f.1 ≡ false) (required_fields c)
    × (text_eq c.jwt_access_secret c.jwt_refresh_secret ≡ false)
    × ((c.use_edge ≡ false)
        ⊎ ((is_blank c.app_domain ≡ false)
            × (is_blank c.api_domain ≡ false)
            × (is_email c.acme_email ≡ true)))

blank_nonempty : (t : Text) → is_blank t ≡ false → is_empty t ≡ false
unfolding is_blank trim
blank_nonempty [] h = cc
blank_nonempty (c ∷ t) h = refl

secrets_iff :
    (c : EnterpriseConfig) (errors : Errors)
    → is_blank c.jwt_access_secret ≡ false
    → (check_secrets c errors ≡ [])
      ↔ ((text_eq c.jwt_access_secret c.jwt_refresh_secret ≡ false) × (errors ≡ []))
unfolding check_secrets
secrets_iff c errors given = rw (blank_nonempty c.jwt_access_secret given) (
    set_if_iff (text_eq c.jwt_access_secret c.jwt_refresh_secret) (lit "jwtRefreshSecret")
      "Must differ from the access secret" errors)

secrets_errors :
    (c : EnterpriseConfig) (errors : Errors) → check_secrets c errors ≡ [] → errors ≡ []
unfolding check_secrets
secrets_errors c errors e = ((set_if_iff _ _ _ errors).0 e).1

true-ne-false : true ≡ false → ⊥
true-ne-false e = cc

edge_iff :
    (c : EnterpriseConfig) (errors : Errors)
    → (check_edge c errors ≡ []) ↔ (
        ((c.use_edge ≡ false)
          ⊎ ((is_blank c.app_domain ≡ false)
              × (is_blank c.api_domain ≡ false)
              × (is_email c.acme_email ≡ true)))
        × (errors ≡ []))
unfolding check_edge
edge_iff c errors =
    let address =
      set_if_iff (not (is_email c.acme_email)) (lit "acmeEmail")
        "A valid email is required for Let’s Encrypt"
        (set_if (is_blank c.api_domain) (lit "apiDomain") "Required when TLS edge is enabled" (
          set_if (is_blank c.app_domain) (lit "appDomain") "Required when TLS edge is enabled"
            errors)) in
    let api =
      set_if_iff (is_blank c.api_domain) (lit "apiDomain") "Required when TLS edge is enabled" (
        set_if (is_blank c.app_domain) (lit "appDomain") "Required when TLS edge is enabled"
          errors) in
    let app =
      set_if_iff (is_blank c.app_domain) (lit "appDomain") "Required when TLS edge is enabled"
        errors in
    elim (Bool-cases c.use_edge) [
      | inr without ↦
          (λ e. (inl without, rw (without, check_edge) at e), λ h. rw (without, check_edge) (h.1))
      | inl with_edge ↦ (
        λ e.
            let (email, e₁) = address.0 (rw (with_edge, check_edge) at e) in
            let (api_given, e₂) = api.0 e₁ in
            let (app_given, e₃) = app.0 e₂ in
            (inr (app_given, api_given, ground (arith, email)), e₃),
        λ h. elim (h.0) [
          | inl without ↦ absurd (true-ne-false (sym with_edge ∙ without))
          | inr (app_given, api_given, email) ↦
              rw (with_edge, check_edge)
                (address.1 (ground (arith, email), api.1 (api_given, app.1 (app_given, h.1))))
        ],
      )
    ]

access_given :
    (c : EnterpriseConfig)
    → All (λ f. is_blank f.1 ≡ false) (required_fields c)
    → is_blank c.jwt_access_secret ≡ false
unfolding required_fields
access_given c h = h.1.1.1.1.1.1.1.1.1.0

validate_accepts : (c : EnterpriseConfig) → (validate c ≡ []) ↔ IsAccepted c
unfolding validate
validate_accepts c = (
  λ e.
      let (edges, e₁) = (edge_iff c (check_secrets c (require (required_fields c) []))).0 e in
      let (given, start) =
        (require_iff (required_fields c) []).0
          (secrets_errors c (require (required_fields c) []) e₁) in
      (
        given,
        ((secrets_iff c (require (required_fields c) []) (access_given c given)).0 e₁).0,
        edges,
      ),
  λ h. (edge_iff c (check_secrets c (require (required_fields c) []))).1 (
    h.2,
    (secrets_iff c (require (required_fields c) []) (access_given c (h.0))).1
        (h.1, (require_iff (required_fields c) []).1 (h.0, refl)),
  ),
)

-- A complete configuration: the database, the storage, the directory and the tokens have what they
-- need, the two secrets differ, and with the edge both its names and an e-mail address are given.
pub record IsComplete (c : EnterpriseConfig) : Type 0 where
  pub postgres_user : IsGiven c.postgres_user
  pub postgres_password : IsGiven c.postgres_password
  pub postgres_db : IsGiven c.postgres_db
  pub minio_root_user : IsGiven c.minio_root_user
  pub minio_root_password : IsGiven c.minio_root_password
  pub ldap_url : IsGiven c.ldap_url
  pub ldap_bind_dn : IsGiven c.ldap_bind_dn
  pub ldap_bind_password : IsGiven c.ldap_bind_password
  pub ldap_base_dn : IsGiven c.ldap_base_dn
  pub jwt_access_secret : IsGiven c.jwt_access_secret
  pub jwt_refresh_secret : IsGiven c.jwt_refresh_secret
  pub secrets : c.jwt_access_secret ≢ c.jwt_refresh_secret
  pub edge :
      (c.use_edge ≡ false) ⊎ (IsGiven c.app_domain × IsGiven c.api_domain × IsEmail c.acme_email)

accepted-IsComplete : (c : EnterpriseConfig) → IsAccepted c → IsComplete c
unfolding required_fields
accepted-IsComplete c (((a, (b, (d, (e, (f, (g, (h, (i, (j, (k, (l, _))))))))))), secrets, edge)) =
    record {
      postgres_user = (is_blank_iff c.postgres_user).0 a;
      postgres_password = (is_blank_iff c.postgres_password).0 b;
      postgres_db = (is_blank_iff c.postgres_db).0 d;
      minio_root_user = (is_blank_iff c.minio_root_user).0 e;
      minio_root_password = (is_blank_iff c.minio_root_password).0 f;
      ldap_url = (is_blank_iff c.ldap_url).0 g;
      ldap_bind_dn = (is_blank_iff c.ldap_bind_dn).0 h;
      ldap_bind_password = (is_blank_iff c.ldap_bind_password).0 i;
      ldap_base_dn = (is_blank_iff c.ldap_base_dn).0 j;
      jwt_access_secret = (is_blank_iff c.jwt_access_secret).0 k;
      jwt_refresh_secret = (is_blank_iff c.jwt_refresh_secret).0 l;
      secrets = λ same.
          true-ne-false
            (sym ((text_eq_iff c.jwt_access_secret c.jwt_refresh_secret).1 same) ∙ secrets);
      edge = elim edge [
        | inl without ↦ inl without
        | inr (app, api, email) ↦ inr (
          (is_blank_iff c.app_domain).0 app,
          (is_blank_iff c.api_domain).0 api,
          (is_email_iff c.acme_email).0 email,
        )
      ];
    }

complete-IsAccepted : (c : EnterpriseConfig) → IsComplete c → IsAccepted c
unfolding required_fields
complete-IsAccepted c r =
    let given : (t : Text) → IsGiven t → is_blank t ≡ false = λ t g. (is_blank_iff t).1 g in
    (
      (
        given _ r.postgres_user,
        (
          given _ r.postgres_password,
          (
            given _ r.postgres_db,
            (
              given _ r.minio_root_user,
              (
                given _ r.minio_root_password,
                (
                  given _ r.ldap_url,
                  (
                    given _ r.ldap_bind_dn,
                    (
                      given _ r.ldap_bind_password,
                      (
                        given _ r.ldap_base_dn,
                        (given _ r.jwt_access_secret, (given _ r.jwt_refresh_secret, tt)),
                      ),
                    ),
                  ),
                ),
              ),
            ),
          ),
        ),
      ),
      elim (Bool-cases (text_eq c.jwt_access_secret c.jwt_refresh_secret)) [
        | inl same ↦
            absurd (r.secrets ((text_eq_iff c.jwt_access_secret c.jwt_refresh_secret).0 same))
        | inr other ↦ other
      ],
      elim r.edge [
        | inl without ↦ inl without
        | inr (app, api, email) ↦
            inr
              (given c.app_domain app, given c.api_domain api, (is_email_iff c.acme_email).1 email)
      ],
    )

-- The installer accepts a configuration, with no error for any field, just where it is complete.
pub validate_iff : (c : EnterpriseConfig) → (validate c ≡ []) ↔ IsComplete c
validate_iff c = (
  λ e. accepted-IsComplete c ((validate_accepts c).0 e),
  λ r. (validate_accepts c).1 (complete-IsAccepted c r),
)
