-- ===== src/Auth/Tests.antt =====
-- Sessions on a token store in memory and tokens that are their own payloads.
use Prim.Native.String.{String}
use munichat.Prelude.{
  ◌+◌, ◌⊎◌, inl, inr, List, ltb, arith, Bool-cases, ℕ, ◌≡◌, refl, Bool, true, false, ◌&&◌, is_empty,
  Option, none, some, [], ◌∷◌, length, ◌++◌, take, drop, take-append, drop-append, if◌then◌else◌,
}
use munichat.Text.{Text, lit, text_eq}
use munichat.Store.{User}
use munichat.Server.{Result, ok, thrown, http}
use munichat.Auth.Tokens.{RefreshTokenPayload, Jwt, TokenStore}
use munichat.Auth.Service.{TokenPair, issue_tokens, refresh}
use munichat.Directory.Lookup.{
  AttributeValue, Entry, Client, LdapConfig, LdapUserEntry, find_user_by_username,
}
use munichat.Directory.Memory.{with_member, without_left, table}
use munichat.Auth.Login.{IsSynced, login, login_verified}
use munichat.Auth.Rotation.{after_refreshes, refresh-revoked, refresh_succeeds}

-- A token is the version, the length of the subject, the subject and the identifier.
abbrev sign : RefreshTokenPayload → Text
sign p = p.token_version ∷ length p.sub ∷ (p.sub ++ p.jti)

abbrev read : Text → Option RefreshTokenPayload
read [] = none
read (version ∷ []) = none
read (version ∷ n ∷ rest) =
    some (record { sub = take n rest; jti = drop n rest; token_version = version })

read-sign : (p : RefreshTokenPayload) → read (sign p) ≡ some p
read-sign p =
    rw (take-append p.sub p.jti (length p.sub) refl)
      (rw (drop-append p.sub p.jti (length p.sub) refl) refl)

-- A token, its time of expiry first.
abbrev sign_at : ℕ → RefreshTokenPayload → Text
sign_at now p = (now + 1000) ∷ sign p

abbrev decode : Text → Option RefreshTokenPayload
decode [] = none
decode (expiry ∷ t) = read t

abbrev verify : ℕ → Text → Option RefreshTokenPayload
verify now [] = none
verify now (expiry ∷ t) = if ltb now expiry then read t else none

verify-sign_at : (now : ℕ) (p : RefreshTokenPayload) → verify now (sign_at now p) ≡ some p
verify-sign_at now p =
    let valid : ltb now (now + 1000) ≡ true = ground arith in rw valid (read-sign p)

decode-verify :
    (now : ℕ) (t : Text) (p : RefreshTokenPayload) → verify now t ≡ some p → decode t ≡ some p
decode-verify now [] p e = e
decode-verify now (expiry ∷ t) p e = elim (Bool-cases (ltb now expiry)) [
  | inl valid ↦ rw valid at e
  | inr expired ↦ absurd (cc (rw expired at e))
]

verify_later :
    (now now' : ℕ) (t : Text) (p : RefreshTokenPayload)
    → verify now t ≡ some p
    → (verify now' t ≡ some p) ⊎ (verify now' t ≡ none)
verify_later now now' [] p e = inl e
verify_later now now' (expiry ∷ t) p e = elim (Bool-cases (ltb now' expiry)) [
  | inl valid ↦ inl (rw valid (decode-verify now (expiry ∷ t) p e))
  | inr expired ↦ inr (rw expired refl)
]

abbrev jwt : Jwt
jwt = record {
  sign_access = λ now p. p.token_version ∷ p.sub;
  sign_refresh = sign_at;
  verify_access = λ now t. none;
  verify_refresh = verify;
  decode = decode;
  exp = λ t. 1000;
  verify_signed = verify-sign_at;
  decode_verified = decode-verify;
  verify_later = verify_later;
}

abbrev memory : TokenStore
memory = record {
  State = Text → Option Text;
  get = λ s. s;
  set = λ j u ttl s k. if text_eq j k then some u else s k;
  del = λ j s k. if text_eq j k then none else s k;
  get_set = λ j u ttl s k. refl;
  get_del = λ j s k. refl;
}

abbrev ann : User
ann = record {
  id = lit "u1";
  username = lit "ann";
  display_name = lit "Ann";
  avatar_url = none;
  is_active = true;
  token_version = 3;
}

abbrev find : Text → Option User
find id = if text_eq id (lit "u1") then some ann else none

abbrev payload : RefreshTokenPayload
payload = record { sub = lit "u1"; jti = lit "old"; token_version = 3 }

abbrev stored : memory.State
stored k = if text_eq k (lit "old") then some (lit "u1") else none

refresh_succeeds_example :
    (tokens : TokenPair) × (s' : memory.State) × (refresh jwt memory find
        (lit "new")
        5
        (sign_at 0 payload)
        stored
      ≡ (ok (ann, tokens), s'))
    × (jwt.verify_refresh 5 tokens.refresh_token
        ≡ some (record { sub = lit "u1"; jti = lit "new"; token_version = 3 }))
    × (s' (lit "new") ≡ some (lit "u1"))
refresh_succeeds_example =
    refresh_succeeds jwt memory find (lit "new") (sign_at 0 payload) 5 payload stored ann refl refl
      refl refl refl refl

abbrev answer : Result (User × TokenPair) × memory.State
answer = refresh jwt memory find (lit "new") 5 (sign_at 0 payload) stored

abbrev pair : User × TokenPair
pair = (ann, (issue_tokens jwt memory find (lit "new") 5 ann (memory.del (lit "old") stored)).0)

-- Another refresh is asked for in between, with the token that was given out.
abbrev between : List (Text × ℕ × Text)
between = (lit "third", 6, sign_at 5 (record payload { jti = lit "new" })) ∷ []

refresh-revoked_example :
    (problem : String) × (refresh jwt memory find
        (lit "newer")
        7
        (sign_at 0 payload)
        (after_refreshes jwt memory find between answer.1)
      ≡ (thrown (http 401 problem), after_refreshes jwt memory find between answer.1))
    × ((jwt.verify_refresh 7 (sign_at 0 payload) ≡ none)
        ⊎ (problem ≡ "Refresh token has been revoked"))
unfolding refresh
refresh-revoked_example =
    refresh-revoked jwt memory find (lit "new") (lit "newer") (sign_at 0 payload) 5 7 payload stored
      answer.1 pair between refl refl refl (refl, tt)

abbrev entry : Entry
entry = record { dn = lit "CN=Ann,OU=TI,DC=br"; attribute = λ name. AttributeValue.one (lit "ann") }

-- A directory with one entry and one password.
abbrev client : Client
client = record {
  bind = λ dn password. text_eq password (lit "pw");
  search = λ base filter. some (entry ∷ []);
  unbind = true;
}

abbrev config : LdapConfig
config = record {
  bind_dn = lit "CN=svc";
  bind_password = lit "pw";
  user_search_base = lit "DC=br";
  username_attribute = lit "uid";
  unique_id_attribute = lit "entryUUID";
}

abbrev before : Text → Text → Bool
before u c = text_eq u (lit "u1") && text_eq c (lit "OU=RH,DC=br")

abbrev tokens_before : memory.State
tokens_before k = none

-- The membership that `login` leaves for the departments.
abbrev after : Text → Text → Bool
after =
    without_left (lit "u1") (some (lit "OU=TI,DC=br"))
      (with_member (lit "u1") (lit "OU=TI,DC=br") before)

abbrev upsert_ann : LdapUserEntry → ℕ → table.State → Option (User × table.State)
upsert_ann e now s = some (ann, s)

login_verified_example :
    (e : LdapUserEntry) × (find_user_by_username client config (lit "ann") ≡ ok (some e))
    × (is_empty (lit "pw") ≡ false)
    × (client.bind e.dn (lit "pw") ≡ true)
    × (db₁ : Text → Text → Bool) × (upsert_ann e 5 before ≡ some (ann, db₁))
    × IsSynced client config table (λ t. t) (λ t. t) jwt memory find upsert_ann ann e db₁ after
unfolding login
login_verified_example =
    login_verified client config table (λ t. t) (λ t. t) jwt memory find upsert_ann (lit "new") 5
      (lit "ann") (lit "pw") before after tokens_before
      (issue_tokens jwt memory find (lit "new") 5 ann tokens_before).1 ann
      (issue_tokens jwt memory find (lit "new") 5 ann tokens_before).0 refl
