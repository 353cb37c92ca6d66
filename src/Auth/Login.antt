-- ===== src/Auth/Login.antt =====
-- `login` of apps/api/src/auth/auth.service.ts, over the directory, the synchronisation of channels
-- and the tokens.
use munichat.Prelude.{
  ℕ, ◌≡◌, refl, ap, ◌∙◌, subst, true, false, ◌||◌, Option, none, some, if◌then◌else◌, is_empty,
  Option-cases, Bool-cases, inl, inr, arith,
}
use munichat.Text.{Text, text_eq}
use munichat.Store.{User}
use munichat.Server.{Result, ok, thrown, Failure, http, rejected}
use munichat.Auth.Tokens.{Jwt, TokenStore}
use munichat.Auth.Service.{TokenPair, issue_tokens}
use munichat.Directory.Names.{Department}
use munichat.Directory.Lookup.{
  Client, LdapConfig, LdapUserEntry, find_user_by_username, verify_credentials,
}
use munichat.Directory.ChannelSync.{SyncTable, kept_group, sync_channels_for_user}
use munichat.Directory.Synced.{belongs, sync_channels_for_user-belongs}

-- The department of an entry, where it has both its parts.
abbrev pub department_of_entry : LdapUserEntry → Option Department
department_of_entry entry = elim entry.department_dn [
  | none ↦ none
  | some dn ↦ elim entry.department [
    | none ↦ none
    | some name ↦
        if is_empty dn || is_empty name then none else some (record { dn = dn; name = name })
  ]
]

module _ (client : Client) (config : LdapConfig) (table : SyncTable)
    (to_lower_case normalize_nfd : Text → Text) (jwt : Jwt) (store : TokenStore)
    (find_user : Text → Option User)
    -- `user.upsert({ where: { adObjectGuid } })` with the fields of the entry and the time of login
    (upsert_user : LdapUserEntry → ℕ → table.State → Option (User × table.State)) where
  -- What a login returns, with the states of the database and of the token store.
  abbrev LoggedIn : Type 0
  LoggedIn = (User × TokenPair) × (table.State × store.State)

  -- The end of `login`, for credentials that the directory has accepted.
  unfoldable pub enter : Text → ℕ → LdapUserEntry → table.State → store.State → Result LoggedIn
  unfolding sync_channels_for_user issue_tokens
  enter jti now entry db tokens = elim (upsert_user entry now db) [
    | none ↦ thrown rejected
    | some (user, db₁) ↦
        elim (sync_channels_for_user table to_lower_case normalize_nfd user.id
          (department_of_entry entry) db₁) [
            | none ↦ thrown rejected
            | some db₂ ↦
                let (pair, tokens') = issue_tokens jwt store find_user jti now user tokens in
                ok ((user, pair), (db₂, tokens'))
          ]
  ]

  -- What `login` makes of the answer of the directory.
  unfoldable pub check_entry :
      Text → ℕ → Text → table.State → store.State → Result (Option LdapUserEntry) → Result LoggedIn
  unfolding verify_credentials enter
  check_entry jti now password db tokens (thrown e) = thrown e
  check_entry jti now password db tokens (ok none) =
      thrown (http 401 "Invalid username or password")
  check_entry jti now password db tokens (ok (some entry)) =
      if verify_credentials client entry.dn password
      then enter jti now entry db tokens
      else thrown (http 401 "Invalid username or password")

  -- `login`, with the UUID that is drawn and the time. What was written before a rejection is not
  -- followed.
  unfoldable pub login : Text → ℕ → Text → Text → table.State → store.State → Result LoggedIn
  unfolding find_user_by_username check_entry
  login jti now username password db tokens =
      check_entry jti now password db tokens (find_user_by_username client config username)

  -- The memberships after a login, from those after the upsert of the user.
  abbrev pub IsSynced : User → LdapUserEntry → table.State → table.State → Type 0
  IsSynced user entry before after =
      (u c : Text)
      → table.is_member after u c ≡ (
          if text_eq u user.id
          then belongs (kept_group (department_of_entry entry)) (table.group_of after c)
              (table.is_member before u c)
          else table.is_member before u c)

  thrown-ne-ok : {A : Type 0} {e : Failure} {a : A} → thrown e ≡ ok a → ⊥
  thrown-ne-ok e = ground (arith, e)

  ok-eq_inv : {A : Type 0} {a b : A} → ok a ≡ ok b → a ≡ b
  ok-eq_inv e = cc

  enter-IsSynced :
      (jti : Text) (now : ℕ) (entry : LdapUserEntry) (db db' : table.State)
      (tokens tokens' : store.State) (user : User) (pair : TokenPair)
      → enter jti now entry db tokens ≡ ok ((user, pair), (db', tokens'))
      → (db₁ : table.State) × (upsert_user entry now db ≡ some (user, db₁))
        × IsSynced user entry db₁ db'
  unfolding enter
  enter-IsSynced jti now entry db db' tokens tokens' user pair e =
      elim (Option-cases (upsert_user entry now db)) [
        | inl refused ↦ absurd (thrown-ne-ok (rw (refused, enter) at e))
        | inr ((known, db₁), stored) ↦
            elim (Option-cases (
              sync_channels_for_user table to_lower_case normalize_nfd known.id
                (department_of_entry entry) db₁)) [
                  | inl refused ↦ absurd (thrown-ne-ok (rw refused at (rw (stored, enter) at e)))
                  | inr (db₂, synced) ↦
                      let returned = ok-eq_inv (rw synced at (rw (stored, enter) at e)) in
                      (
                        db₁,
                        stored ∙ ap (λ (p : LoggedIn). some (p.0.0, db₁)) returned,
                        subst (λ (p : LoggedIn). IsSynced p.0.0 entry db₁ p.1.0) returned
                            (sync_channels_for_user-belongs table to_lower_case normalize_nfd
                              known.id (department_of_entry entry) db₁ db₂ synced),
                      )
                ]
      ]

  verify_credentials_inv :
      (dn password : Text)
      → verify_credentials client dn password ≡ true
      → (is_empty password ≡ false) × (client.bind dn password ≡ true)
  unfolding verify_credentials
  verify_credentials_inv dn password h = (ground (arith, h), ground (arith, h))

  -- A login that succeeds was verified: the directory has an entry for the name, the password is not
  -- empty, and the directory accepts it for that entry. The user that is returned is the one that the
  -- upsert gives for the entry, and their memberships are those that the entry's department calls
  -- for, while no one else's have changed.
  pub login_verified :
      (jti : Text) (now : ℕ) (username password : Text) (db db' : table.State)
      (tokens tokens' : store.State) (user : User) (pair : TokenPair)
      → login jti now username password db tokens ≡ ok ((user, pair), (db', tokens'))
      → (entry : LdapUserEntry) × (find_user_by_username client config username ≡ ok (some entry))
        × (is_empty password ≡ false)
        × (client.bind entry.dn password ≡ true)
        × (db₁ : table.State) × (upsert_user entry now db ≡ some (user, db₁))
        × IsSynced user entry db₁ db'
  unfolding login check_entry
  login_verified jti now username password db db' tokens tokens' user pair =
      go (find_user_by_username client config username) refl
    where
      go :
          (r : Result (Option LdapUserEntry))
          → find_user_by_username client config username ≡ r
          → check_entry jti now password db tokens r ≡ ok ((user, pair), (db', tokens'))
          → (entry : LdapUserEntry) × (find_user_by_username client config username
              ≡ ok (some entry))
            × (is_empty password ≡ false)
            × (client.bind entry.dn password ≡ true)
            × (db₁ : table.State) × (upsert_user entry now db ≡ some (user, db₁))
            × IsSynced user entry db₁ db'
      go (thrown f) found e = absurd (thrown-ne-ok e)
      go (ok none) found e = absurd (thrown-ne-ok e)
      go (ok (some entry)) found e =
          elim (Bool-cases (verify_credentials client entry.dn password)) [
            | inr refused ↦ absurd (thrown-ne-ok (rw (refused, check_entry) at e))
            | inl verified ↦
                let (given, accepted) = verify_credentials_inv entry.dn password verified in
                let (db₁, stored, synced) =
                  enter-IsSynced jti now entry db db' tokens tokens' user pair
                    (rw (verified, check_entry) at e) in
                (entry, found, given, accepted, db₁, stored, synced)
          ]
