-- ===== src/Auth/Tokens.antt =====
-- The payloads of the tokens, the library that signs them and the refresh tokens of
-- apps/api/src/redis/redis.service.ts
use munichat.Prelude.{ℕ, ◌≡◌, ◌⊎◌, Option, none, some, if◌then◌else◌}
use munichat.Text.{Text, text_eq}

pub record AccessTokenPayload : Type 0 where
  pub sub : Text
  pub token_version : ℕ

pub record RefreshTokenPayload : Type 0 where
  pub sub : Text
  pub jti : Text
  pub token_version : ℕ

-- `JwtService`, each secret with its own operations, at the time of the call; `none` is a rejection, as
-- of a token that has expired. A token that verifies is decoded to the same payload, a token that was
-- just signed verifies, and at another time a token that verifies has the same payload or is rejected.
pub record Jwt : Type 0 where
  pub sign_access : ℕ → AccessTokenPayload → Text
  pub sign_refresh : ℕ → RefreshTokenPayload → Text
  pub verify_access : ℕ → Text → Option AccessTokenPayload
  pub verify_refresh : ℕ → Text → Option RefreshTokenPayload
  pub decode : Text → Option RefreshTokenPayload
  -- the claim `exp`, in seconds
  pub exp : Text → ℕ
  pub verify_signed :
      (now : ℕ) (p : RefreshTokenPayload) → verify_refresh now (sign_refresh now p) ≡ some p
  pub decode_verified :
      (now : ℕ) (t : Text) (p : RefreshTokenPayload)
      → verify_refresh now t ≡ some p
      → decode t ≡ some p
  pub verify_later :
      (now now' : ℕ) (t : Text) (p : RefreshTokenPayload)
      → verify_refresh now t ≡ some p
      → (verify_refresh now' t ≡ some p) ⊎ (verify_refresh now' t ≡ none)

-- The keys `refresh:<jti>` of the server: SET with EX, GET and DEL. What expires is gone at a later
-- state; the operations here say what holds right after them.
pub record TokenStore : Type 1 where
  pub State : Type 0
  pub get : State → Text → Option Text
  pub set : Text → Text → ℕ → State → State
  pub del : Text → State → State
  pub get_set :
      (j u : Text) (ttl : ℕ) (s : State) (k : Text)
      → get (set j u ttl s) k ≡ (if text_eq j k then some u else get s k)
  pub get_del :
      (j : Text) (s : State) (k : Text) → get (del j s) k ≡ (if text_eq j k then none else get s k)

module _ (t : TokenStore) where
  -- `setRefreshToken`, `getRefreshTokenUserId`, `deleteRefreshToken`
  unfoldable pub set_refresh_token : Text → Text → ℕ → t.State → t.State
  set_refresh_token jti user ttl_seconds s = t.set jti user ttl_seconds s

  unfoldable pub get_refresh_token_user_id : Text → t.State → Option Text
  get_refresh_token_user_id jti s = t.get s jti

  unfoldable pub delete_refresh_token : Text → t.State → t.State
  delete_refresh_token jti s = t.del jti s
