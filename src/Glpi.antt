-- ===== src/Glpi.antt =====
-- apps/api/src/glpi: glpi.service.ts over the cached session of glpi.session.ts.
pub mod Keeps
pub mod Sessions
pub mod Tests
use munichat.Prelude.{
  ℕ, Bool, true, false, not, ◌&&◌, ◌||◌, Option, none, some, List, [], ◌∷◌, ◌++◌, ◌==◌, leb,
  if◌then◌else◌,
}
use munichat.Text.{Text, lit, text_eq, show}
use munichat.Server.{
  Body, session, ticket_id, ticket_status, errors, other, not_json, Reply, unreachable, response,
  GlpiRequest, init_session, post_ticket, read_ticket, World, Failure, glpi_unavailable, rejected,
  Result, ok, thrown, Action, pure, throw, reads, ◌>>=◌, ◌>>◌,
}

-- `GLPI_STATUS_LABELS` and `mapGlpiStatus` of glpi.status.ts
unfoldable pub map_glpi_status : ℕ → Text
map_glpi_status code =
    if code == 1
    then lit "New"
    else if code == 2 || code == 3
    then lit "Processing"
    else if code == 4
    then lit "Pending"
    else if code == 5
    then lit "Solved"
    else if code == 6
    then lit "Closed"
    else if code == 10
    then lit "Approval"
    else lit "Status " ++ show code

pub record CreateTicketInput : Type 0 where
  pub title : Text
  pub content : Text
  pub requester_label : Text

-- The identifier is `undefined` where the body has none.
pub record CreateTicketResult : Type 0 where
  pub glpi_ticket_id : Option ℕ
  pub status : Text

-- `response.ok`
abbrev pub is_ok : ℕ → Bool
is_ok status = leb 200 status && leb status 299

abbrev received : List Reply → Result (ℕ × Body) × List Reply
received [] = (thrown rejected, [])
received (unreachable ∷ rest) = (thrown rejected, rest)
received (response status body ∷ rest) = (ok (status, body), rest)

-- `Array.isArray(body) && body[0] === 'ERROR_SESSION_TOKEN_INVALID'`
unfoldable pub is_session_token_invalid : Body → Bool
is_session_token_invalid (errors (code ∷ rest)) = text_eq code (lit "ERROR_SESSION_TOKEN_INVALID")
is_session_token_invalid body = false

abbrev token_of : Body → Option Text
token_of (session t) = some t
token_of body = none

abbrev id_of : Body → Option ℕ
id_of (ticket_id n) = some n
id_of body = none

-- A body without a status is read as `undefined`, which no label covers.
abbrev status_of : Body → Text
status_of (ticket_status code) = map_glpi_status code
status_of body = lit "Status undefined"

abbrev unavailable : {A : Type 0} → Result A → Result A
unavailable (ok a) = ok a
unavailable (thrown e) = thrown glpi_unavailable

module _ {S : Type 0} where
  -- `fetch`: records the request and consumes one answer.
  unfoldable pub fetch : GlpiRequest → Action S (ℕ × Body)
  fetch q w =
      let (r, rest) = received w.replies in
      (r, record w { requests = w.requests ++ q ∷ []; replies = rest })

  -- `response.json()`, and the property that the caller reads from it.
  unfoldable pub json : {A : Type 0} → (Body → A) → Body → Action S A
  json f not_json = throw rejected
  json f body = pure (f body)

  -- the assignment of the module variable
  store_token : Option Text → Action S (Option Text)
  store_token token w = (ok token, record w { session_token = token })

  -- `initSession` with `requestSessionToken`
  unfoldable pub renew_session : Action S (Option Text)
  unfolding fetch json store_token
  renew_session = do
    (status, body) ← fetch init_session
    if is_ok status then (do token ← json token_of body; store_token token) else throw rejected

  -- `sessionToken ?? (await initSession(configService))`
  unfoldable pub current_session : Option Text → Action S (Option Text)
  unfolding renew_session
  current_session (some token) = pure (some token)
  current_session none = renew_session

  unfoldable pub with_session : (Option Text → GlpiRequest) → Action S (ℕ × Body)
  unfolding current_session is_session_token_invalid
  with_session q = do
    known ← reads (λ w. w.session_token)
    token ← current_session known
    (status, body) ← fetch (q token)
    if status == 401 && is_session_token_invalid body
        then (do fresh ← renew_session; fetch (q fresh))
        else pure (status, body)

  -- `request`: whatever is thrown inside becomes a `GlpiUnavailableError`.
  unfoldable pub request : Action S (ℕ × Body) → Action S (ℕ × Body)
  request m w = let (r, w') = m w in (unavailable r, w')

  unfoldable pub create_ticket : CreateTicketInput → Action S CreateTicketResult
  unfolding with_session request map_glpi_status
  create_ticket input = do
    (status, body) ← request (
        with_session (λ token.
          post_ticket token input.title (input.requester_label ++ (lit "\n\n" ++ input.content))))
    if is_ok status
        then (do
          id ← json id_of body
          pure (record { glpi_ticket_id = id; status = map_glpi_status 1 }))
        else throw glpi_unavailable

  -- `null` where GLPI answers 404.
  unfoldable pub get_ticket : ℕ → Action S (Option Text)
  unfolding with_session request
  get_ticket id = do
    (status, body) ← request (with_session (λ token. read_ticket token id))
    if status == 404
        then pure none
        else (if is_ok status
            then (do label ← json status_of body; pure (some label))
            else throw glpi_unavailable)
