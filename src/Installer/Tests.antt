-- ===== src/Installer/Tests.antt =====
-- The default configuration, its errors and its environment file.
use munichat.Prelude.{◌≡◌, ◌↔◌, some, refl, [], ◌∷◌, length}
use munichat.Text.{lit, is_space}
use munichat.Installer.Config.{EnterpriseConfig, Drawn, default_config}
use munichat.Installer.EnvFile.{env_sections, build_env_file}
use munichat.Installer.EnvRead.{env_entries, read_env, read_env-build_env_file}
use munichat.Installer.Validate.{validate}
use munichat.Installer.Complete.{IsComplete, validate_iff}

abbrev drawn : Drawn
drawn = record {
  postgres = 1 ∷ 2 ∷ [];
  minio = 3 ∷ 4 ∷ [];
  ldap = 5 ∷ 6 ∷ [];
  access = 65 ∷ 66 ∷ [];
  refresh = 66 ∷ 61 ∷ [];
  glpi = 67 ∷ [];
  rmm = 68 ∷ [];
}

abbrev defaults : EnterpriseConfig
defaults = default_config (λ t. t) drawn

abbrev filled : EnterpriseConfig
filled = record defaults { ldap_bind_password = lit "pw" }

-- The defaults lack the password of the directory, and nothing else.
defaults_lack_password : validate defaults ≡ (lit "ldapBindPassword", "Required") ∷ []
unfolding validate default_config
defaults_lack_password = refl

filled-IsValid : validate filled ≡ []
unfolding validate default_config
filled-IsValid = refl

validate_iff_example : (validate filled ≡ []) ↔ IsComplete filled
validate_iff_example = validate_iff filled

read_env-build_env_file_example : read_env (build_env_file filled) ≡ some (env_entries filled)
unfolding env_sections default_config is_space
read_env-build_env_file_example = read_env-build_env_file filled (
  (refl, (refl, (refl, tt))),
  (
    (refl, (refl, (refl, (refl, (refl, (refl, (refl, tt))))))),
    (
      (refl, (refl, (refl, (refl, tt)))),
      (
        (refl, (refl, (refl, (refl, (refl, (refl, (refl, (refl, (refl, (refl, tt)))))))))),
        (
          (
            refl,
            (
              refl,
              (refl, (refl, (refl, (refl, (refl, (refl, (refl, (refl, (refl, (refl, tt)))))))))),
            ),
          ),
          (
            (refl, (refl, (refl, (refl, (refl, (refl, tt)))))),
            (
              (refl, (refl, (refl, (refl, (refl, tt))))),
              (
                (refl, (refl, (refl, (refl, (refl, (refl, (refl, tt))))))),
                (
                  (refl, (refl, (refl, (refl, (refl, (refl, (refl, tt))))))),
                  (
                    (refl, (refl, (refl, (refl, tt)))),
                    (
                      (refl, (refl, (refl, (refl, (refl, tt))))),
                      ((refl, (refl, (refl, (refl, tt)))), tt),
                    ),
                  ),
                ),
              ),
            ),
          ),
        ),
      ),
    ),
  ),
)

entry_count : length (env_entries filled) ≡ 49
unfolding env_entries default_config
entry_count = refl
