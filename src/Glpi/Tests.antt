-- ===== src/Glpi/Tests.antt =====
-- Sessions with concrete answers.
use munichat.Prelude.{ℕ, ◌≡◌, refl, some, List, [], ◌∷◌}
use munichat.Text.{lit}
use munichat.Server.{World, Reply, ok, response, session, errors, other, init_session, read_ticket}
use munichat.Glpi.{with_session}
use munichat.Glpi.Sessions.{with_session_renews}

abbrev world : List Reply → World ℕ
world replies = record {
  db = 0;
  emitted = [];
  jobs = [];
  requests = [];
  replies = replies;
  session_token = some (lit "old");
  now = 0;
}

with_session_renews_example :
    with_session
      (λ token. read_ticket token 7)
      (world (
        response 401 (errors (lit "ERROR_SESSION_TOKEN_INVALID" ∷ []))
        ∷ response 200 (session (lit "new"))
        ∷ response 404 other
        ∷ []))
    ≡ (
      ok (404, other),
      record (world []) {
        session_token = some (lit "new");
        requests =
            read_ticket (some (lit "old")) 7 ∷ init_session ∷ read_ticket (some (lit "new")) 7 ∷ [];
      },
    )
with_session_renews_example =
    with_session_renews (λ token. read_ticket token 7)
      (world (
        response 401 (errors (lit "ERROR_SESSION_TOKEN_INVALID" ∷ []))
        ∷ response 200 (session (lit "new"))
        ∷ response 404 other
        ∷ []))
      (lit "old") (lit "new") [] 200 404 other [] refl refl refl
