-- ===== src/Glpi/Keeps.antt =====
-- The calls of GLPI change nothing but the network side of the world, so they keep every
-- order that does not look there.
use munichat.Prelude.{ℕ, Option, none, some, List}
use munichat.Text.{Text}
use munichat.Server.{
  Body, session, ticket_id, ticket_status, errors, other, not_json, GlpiRequest, Reply, Action,
  World,
}
use munichat.Server.Keeps.{Preorder, Keeps, Keeps-pure, Keeps-throw, keeps_rules}
use munichat.Glpi.{
  CreateTicketInput, fetch, json, store_token, renew_session, current_session, with_session,
  request, create_ticket, get_ticket,
}

-- What a call of GLPI may have changed.
abbrev pub networked :
    {S : Type 0} → World S → List GlpiRequest → List Reply → Option Text → World S
networked w requests replies token = record w {
  requests = requests;
  replies = replies;
  session_token = token;
}

module _ {S : Type 0} (o : Preorder S)
    (free : (w : World S) (requests : List GlpiRequest) (replies : List Reply) (token : Option Text)
      → o.Le w (networked w requests replies token)) where
  fetch-Keeps : (q : GlpiRequest) → Keeps o (fetch q)
  unfolding fetch
  fetch-Keeps q = record { at = λ w. free w _ _ w.session_token }

  json-Keeps : {A : Type 0} (f : Body → A) (body : Body) → Keeps o (json f body)
  unfolding json
  json-Keeps f not_json = Keeps-throw o _
  json-Keeps f (session t) = Keeps-pure o _
  json-Keeps f (ticket_id n) = Keeps-pure o _
  json-Keeps f (ticket_status n) = Keeps-pure o _
  json-Keeps f (errors codes) = Keeps-pure o _
  json-Keeps f other = Keeps-pure o _

  store_token-Keeps : (token : Option Text) → Keeps o (store_token token)
  unfolding store_token
  store_token-Keeps token = record { at = λ w. free w w.requests w.replies token }

  renew_session-Keeps : Keeps o renew_session
  unfolding renew_session
  renew_session-Keeps = search (keeps_rules, fetch-Keeps, json-Keeps, store_token-Keeps)

  current_session-Keeps : (known : Option Text) → Keeps o (current_session known)
  unfolding current_session
  current_session-Keeps none = renew_session-Keeps
  current_session-Keeps (some token) = Keeps-pure o _

  with_session-Keeps : (q : Option Text → GlpiRequest) → Keeps o (with_session q)
  unfolding with_session
  with_session-Keeps q =
      search (keeps_rules, fetch-Keeps, current_session-Keeps, renew_session-Keeps) depth 8

  request-Keeps : {m : Action S (ℕ × Body)} → Keeps o m → Keeps o (request m)
  unfolding request
  request-Keeps h = record { at = h.at }

  pub create_ticket-Keeps : (input : CreateTicketInput) → Keeps o (create_ticket input)
  unfolding create_ticket
  create_ticket-Keeps input =
      search (keeps_rules, request-Keeps, with_session-Keeps, json-Keeps) depth 8

  pub get_ticket-Keeps : (id : ℕ) → Keeps o (get_ticket id)
  unfolding get_ticket
  get_ticket-Keeps id = search (keeps_rules, request-Keeps, with_session-Keeps, json-Keeps) depth 8
