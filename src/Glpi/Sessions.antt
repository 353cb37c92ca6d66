-- ===== src/Glpi/Sessions.antt =====
-- How a session of GLPI is opened and renewed.
use munichat.Prelude.{ℕ, ◌≡◌, refl, true, false, ◌&&◌, Option, some, List, [], ◌∷◌, ◌++◌, ◌==◌}
use munichat.Text.{Text, lit}
use munichat.Server.{
  World, GlpiRequest, Reply, Body, ok, response, session, errors, init_session, ◌>>=◌,
}
use munichat.Glpi.{with_session, is_ok, is_session_token_invalid}

module _ {S : Type 0} where
  -- A token that GLPI calls invalid is replaced by a new session's, and the request is made again
  -- with that token; what GLPI answers then is the result, and the new token is kept for the next
  -- request.
  pub with_session_renews :
      (q : Option Text → GlpiRequest) (w : World S) (stale fresh : Text) (codes : List Text)
      (opened status : ℕ) (body : Body) (rest : List Reply)
      → w.session_token ≡ some stale
      → w.replies
        ≡ response 401 (errors (lit "ERROR_SESSION_TOKEN_INVALID" ∷ codes))
          ∷ response opened (session fresh)
          ∷ response status body
          ∷ rest
      → is_ok opened ≡ true
      → with_session q w ≡ (
        ok (status, body),
        record w {
          session_token = some fresh;
          replies = rest;
          requests = w.requests ++ q (some stale) ∷ [] ++ init_session ∷ [] ++ q (some fresh) ∷ [];
        },
      )
  unfolding with_session ◌>>=◌
  with_session_renews q w stale fresh codes opened status body rest t r o =
      rw (t, with_session) (rw (r, with_session) (rw (o, with_session) refl))

  -- With a session that GLPI accepts, one request is made, with the cached token, and whatever is
  -- answered, an error status included, is the result.
  pub with_session_keeps :
      (q : Option Text → GlpiRequest) (w : World S) (token : Text) (status : ℕ) (body : Body)
      (rest : List Reply)
      → w.session_token ≡ some token
      → w.replies ≡ response status body ∷ rest
      → (status == 401 && is_session_token_invalid body) ≡ false
      → with_session q w ≡ (
        ok (status, body),
        record w { replies = rest; requests = w.requests ++ q (some token) ∷ [] },
      )
  unfolding with_session ◌>>=◌
  with_session_keeps q w token status body rest t r valid =
      rw (t, with_session) (rw (r, with_session) (rw (valid, with_session) refl))
