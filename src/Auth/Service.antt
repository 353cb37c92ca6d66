-- ===== src/Auth/Service.antt =====
-- `refresh`, `logout` and `issueTokens` of apps/api/src/auth/auth.service.ts, `access-token.validator.ts`
-- and apps/api/src/chat/chat-auth.service.ts
use munichat.Prelude.{
  ℕ, ◌-◌, ◌*◌, ◌/◌, Bool, false, Option, none, some, [], ◌∷◌, ltb, ◌==◌, if◌then◌else◌, is_empty,
}
use munichat.Text.{Text, text_eq}
use munichat.Store.{User}
use munichat.Server.{Result, ok, thrown, http}
use munichat.Auth.Tokens.{
  AccessTokenPayload, RefreshTokenPayload, Jwt, TokenStore, set_refresh_token,
  get_refresh_token_user_id, delete_refresh_token,
}

pub record TokenPair : Type 0 where
  pub access_token : Text
  pub refresh_token : Text
  pub access_token_expires_at : ℕ
  pub refresh_token_expires_at : ℕ

-- `!user || !user.isActive || user.tokenVersion !== payload.tokenVersion`
abbrev pub is_current : User → ℕ → Bool
is_current user token_version =
    if user.is_active then user.token_version == token_version else false

-- `validateAccessTokenPayload`, with `user.findUnique` of the database client.
unfoldable pub validate_access_token_payload :
    (Text → Option User) → AccessTokenPayload → Result User
validate_access_token_payload find_user payload = elim (find_user payload.sub) [
  | none ↦ thrown (http 401 "Session is no longer valid")
  | some user ↦
      if is_current user payload.token_version
      then ok user
      else thrown (http 401 "Session is no longer valid")
]

module _ (jwt : Jwt) (find_user : Text → Option User) where
  -- `authenticate`, at a time, with the cookie `access_token` as it was parsed.
  unfoldable pub authenticate : ℕ → Option Text → Result User
  unfolding validate_access_token_payload
  authenticate now none = thrown (http 401 "Missing access token cookie")
  authenticate now (some []) = thrown (http 401 "Missing access token cookie")
  authenticate now (some (c ∷ token)) = elim (jwt.verify_access now (c ∷ token)) [
    | none ↦ thrown (http 401 "Invalid access token")
    | some payload ↦ validate_access_token_payload find_user payload
  ]

module _ (jwt : Jwt) (store : TokenStore) (find_user : Text → Option User) where
  -- `expiryDateOf`, in milliseconds
  abbrev pub expiry_date_of : Text → ℕ
  expiry_date_of token = jwt.exp token * 1000

  -- `issueTokens`, with the UUID that is drawn and the time. Past dates give the least time to live.
  unfoldable pub issue_tokens : Text → ℕ → User → store.State → TokenPair × store.State
  unfolding set_refresh_token
  issue_tokens jti now user s =
      let access_token =
        jwt.sign_access now (record { sub = user.id; token_version = user.token_version }) in
      let refresh_token =
        jwt.sign_refresh now
          (record { sub = user.id; jti = jti; token_version = user.token_version }) in
      let seconds = (expiry_date_of refresh_token - now) / 1000 in
      let ttl_seconds = if ltb seconds 1 then 1 else seconds in
      (
        record {
          access_token = access_token;
          refresh_token = refresh_token;
          access_token_expires_at = expiry_date_of access_token;
          refresh_token_expires_at = expiry_date_of refresh_token;
        },
        set_refresh_token store jti user.id ttl_seconds s,
      )

  -- The end of `refresh`: the old token goes, and a pair is issued.
  unfoldable pub rotate :
      Text → ℕ → Text → User → store.State → Result (User × TokenPair) × store.State
  unfolding issue_tokens delete_refresh_token
  rotate jti now old user s =
      let (tokens, s') = issue_tokens jti now user (delete_refresh_token store old s) in
      (ok (user, tokens), s')

  unfoldable pub refresh_owned :
      Text → ℕ → RefreshTokenPayload → store.State → Result (User × TokenPair) × store.State
  unfolding rotate
  refresh_owned jti now payload s = elim (find_user payload.sub) [
    | none ↦
        (thrown (http 401 "Session is no longer valid"), delete_refresh_token store payload.jti s)
    | some user ↦
        if is_current user payload.token_version then rotate jti now payload.jti user s else (
          thrown (http 401 "Session is no longer valid"),
          delete_refresh_token store payload.jti s,
        )
  ]

  -- `!ownerId || ownerId !== payload.sub`
  abbrev pub is_owner : Option Text → Text → Bool
  is_owner none sub = false
  is_owner (some owner) sub = if is_empty owner then false else text_eq owner sub

  -- `refresh`
  unfoldable pub refresh : Text → ℕ → Text → store.State → Result (User × TokenPair) × store.State
  unfolding refresh_owned get_refresh_token_user_id
  refresh jti now refresh_token s = elim (jwt.verify_refresh now refresh_token) [
    | none ↦ (thrown (http 401 "Invalid refresh token"), s)
    | some payload ↦
        if is_owner (get_refresh_token_user_id store payload.jti s) payload.sub
        then refresh_owned jti now payload s
        else (thrown (http 401 "Refresh token has been revoked"), s)
  ]

  -- `logout`
  unfoldable pub logout : Option Text → store.State → store.State
  unfolding delete_refresh_token
  logout none s = s
  logout (some refresh_token) s =
      if is_empty refresh_token then s else (elim (jwt.decode refresh_token) [
        | none ↦ s
        | some payload ↦
            if is_empty payload.jti then s else delete_refresh_token store payload.jti s
      ])
