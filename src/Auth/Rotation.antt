-- ===== src/Auth/Rotation.antt =====
-- Refresh tokens are used once, and what replaces them works.
use Prim.Native.String.{String}
use munichat.Prelude.{
  ◌⊎◌, List, [], ◌∷◌, All, ℕ, ◌≡◌, refl, sym, ap, ◌∙◌, Bool-cases, Option-cases, inl, inr, true,
  false, Option, none, some, arith, ==_iff, if◌then◌else◌, is_empty,
}
use munichat.Text.{Text, text_eq}
use munichat.Text.Laws.{text_eq_refl}
use munichat.Store.{User}
use munichat.Server.{Result, ok, thrown, http, Failure}
use munichat.Auth.Tokens.{
  RefreshTokenPayload, Jwt, TokenStore, get_refresh_token_user_id, delete_refresh_token,
}
use munichat.Auth.Service.{
  TokenPair, is_current, is_owner, refresh_owned, issue_tokens, rotate, refresh, logout,
}

-- A refusal is no success.
refused-ne-ok :
    {A S : Type 0} {problem : Failure} {a : A} {s s' : S}
    → ◌≡◌ {A = Result A × S} (thrown problem, s) (ok a, s')
    → ⊥
refused-ne-ok e = ground (arith, e)

module _ (jwt : Jwt) (store : TokenStore) (find_user : Text → Option User) where
  -- A token whose key is gone is refused.
  revoked :
      (jti token : Text) (now : ℕ) (p : RefreshTokenPayload) (s : store.State)
      → jwt.verify_refresh now token ≡ some p
      → store.get s p.jti ≡ none
      → refresh jwt store find_user jti now token s
        ≡ (thrown (http 401 "Refresh token has been revoked"), s)
  unfolding refresh
  revoked jti token now p s v g = rw (v, refresh) (rw (g, get_refresh_token_user_id) refl)

  -- A pair that is issued in the place of a token: the token is gone, the new one stored.
  rotate-get :
      (jti : Text) (now : ℕ) (old k : Text) (user : User) (s : store.State)
      → store.get (rotate jwt store find_user jti now old user s).1 k
        ≡ (if text_eq jti k then some user.id else if text_eq old k then none else store.get s k)
  unfolding rotate
  rotate-get jti now old k user s =
      store.get_set jti user.id _ (store.del old s) k
      ∙ ap (λ o. if text_eq jti k then some user.id else o) (store.get_del old s k)

  rotate-gone :
      (jti : Text) (now : ℕ) (old : Text) (user : User) (s : store.State)
      → text_eq jti old ≡ false
      → store.get (rotate jwt store find_user jti now old user s).1 old ≡ none
  rotate-gone jti now old user s fresh =
      rotate-get jti now old old user s ∙ rw fresh (rw (text_eq_refl old) refl)

  refresh_owned-gone :
      (jti : Text) (now : ℕ) (p : RefreshTokenPayload) (s s' : store.State) (r : User × TokenPair)
      → text_eq jti p.jti ≡ false
      → refresh_owned jwt store find_user jti now p s ≡ (ok r, s')
      → store.get s' p.jti ≡ none
  unfolding refresh_owned
  refresh_owned-gone jti now p s s' r fresh e = elim (Option-cases (find_user p.sub)) [
    | inl none_found ↦ absurd (refused-ne-ok (rw (none_found, refresh_owned) at e))
    | inr (user, found) ↦ elim (Bool-cases (is_current user p.token_version)) [
      | inr stale ↦ absurd (refused-ne-ok (rw stale at (rw (found, refresh_owned) at e)))
      | inl current ↦
          let same : (rotate jwt store find_user jti now p.jti user s).1 ≡ s' =
            ap (λ (x : Result (User × TokenPair) × store.State). x.1)
              (rw current at (rw (found, refresh_owned) at e)) in
          ap (λ x. store.get x p.jti) (sym same) ∙ rotate-gone jti now p.jti user s fresh
    ]
  ]

  -- What is not stored is not stored either without another key.
  del-absent :
      (j k : Text) (s : store.State) → store.get s k ≡ none → store.get (store.del j s) k ≡ none
  del-absent j k s h =
      store.get_del j s k ∙ (elim (Bool-cases (text_eq j k)) [ inl e ↦ rw e refl | inr e ↦ rw e h ])

  refresh_owned-absent :
      (jti k : Text) (now : ℕ) (p : RefreshTokenPayload) (s : store.State)
      → text_eq jti k ≡ false
      → store.get s k ≡ none
      → store.get (refresh_owned jwt store find_user jti now p s).1 k ≡ none
  unfolding refresh_owned delete_refresh_token
  refresh_owned-absent jti k now p s fresh h = elim (Option-cases (find_user p.sub)) [
    | inl none_found ↦ rw (none_found, refresh_owned) (del-absent p.jti k s h)
    | inr (user, found) ↦ elim (Bool-cases (is_current user p.token_version)) [
      | inr stale ↦ rw (found, refresh_owned) (rw stale (del-absent p.jti k s h))
      | inl current ↦
          rw (found, refresh_owned)
            (rw current (
              rotate-get jti now p.jti k user s
              ∙ rw fresh
                  (elim (Bool-cases (text_eq p.jti k)) [ inl e ↦ rw e refl | inr e ↦ rw e h ])))
    ]
  ]

  -- No refresh that draws another identifier stores a key that is not there.
  refresh-absent :
      (jti k token : Text) (now : ℕ) (s : store.State)
      → text_eq jti k ≡ false
      → store.get s k ≡ none
      → store.get (refresh jwt store find_user jti now token s).1 k ≡ none
  unfolding refresh
  refresh-absent jti k token now s fresh h = elim (Option-cases (jwt.verify_refresh now token)) [
    | inl invalid ↦ rw (invalid, refresh) h
    | inr (p, v) ↦ elim (Bool-cases (is_owner jwt store find_user (store.get s p.jti) p.sub)) [
      | inr stranger ↦ rw (v, refresh) (rw (stranger, get_refresh_token_user_id) h)
      | inl owner ↦
          rw (v, refresh)
            (rw (owner, get_refresh_token_user_id) (refresh_owned-absent jti k now p s fresh h))
    ]
  ]

  -- The state after requests for refreshes, each of them with the identifier that is drawn for it, its
  -- time and its token.
  abbrev pub after_refreshes : List (Text × ℕ × Text) → store.State → store.State
  after_refreshes [] s = s
  after_refreshes ((jti, now, token) ∷ later) s =
      after_refreshes later (refresh jwt store find_user jti now token s).1

  after_refreshes-absent :
      (k : Text) (requests : List (Text × ℕ × Text)) (s : store.State)
      → All (λ q. text_eq q.0 k ≡ false) requests
      → store.get s k ≡ none
      → store.get (after_refreshes requests s) k ≡ none
  after_refreshes-absent k [] s fresh h = h
  after_refreshes-absent k ((jti, now, token) ∷ later) s fresh h =
      after_refreshes-absent k later (refresh jwt store find_user jti now token s).1 (fresh.1)
        (refresh-absent jti k token now s (fresh.0) h)

  -- A refresh that succeeds uses its token up: presented again, at any time, whatever refreshes were
  -- asked for in between and whatever identifier is drawn then, it is refused with an error 401, as
  -- revoked where it still verifies at that time, and nothing is stored. The identifiers that were
  -- drawn are not that of the token.
  pub refresh-revoked :
      (jti jti' token : Text) (now now' : ℕ) (p : RefreshTokenPayload) (s s' : store.State)
      (r : User × TokenPair) (between : List (Text × ℕ × Text))
      → jwt.verify_refresh now token ≡ some p
      → text_eq jti p.jti ≡ false
      → refresh jwt store find_user jti now token s ≡ (ok r, s')
      → All (λ q. text_eq q.0 p.jti ≡ false) between
      → (problem : String) × (refresh jwt store find_user jti' now' token
            (after_refreshes between s')
          ≡ (thrown (http 401 problem), after_refreshes between s'))
        × ((jwt.verify_refresh now' token ≡ none) ⊎ (problem ≡ "Refresh token has been revoked"))
  unfolding refresh
  refresh-revoked jti jti' token now now' p s s' r between v fresh e others =
      let gone : store.get s' p.jti ≡ none =
        elim (Bool-cases (is_owner jwt store find_user (store.get s p.jti) p.sub)) [
          | inr stranger ↦
              absurd
                (refused-ne-ok (rw (stranger, get_refresh_token_user_id) at (rw (v, refresh) at e)))
          | inl owner ↦
              refresh_owned-gone jti now p s s' r fresh
                (rw (owner, get_refresh_token_user_id) at (rw (v, refresh) at e))
        ] in
      elim (jwt.verify_later now now' token p v) [
        | inl verifies ↦ (
          "Refresh token has been revoked",
          revoked jti' token now' p (after_refreshes between s') verifies
              (after_refreshes-absent p.jti between s' others gone),
          inr refl,
        )
        | inr expired ↦ ("Invalid refresh token", rw (expired, refresh) refl, inl expired)
      ]

  -- The owner of a stored token, active and of the token's version, gets a new pair; its refresh
  -- token verifies and is stored for the same user, so that it can be presented next.
  pub refresh_succeeds :
      (jti token : Text) (now : ℕ) (p : RefreshTokenPayload) (s : store.State) (user : User)
      → jwt.verify_refresh now token ≡ some p
      → store.get s p.jti ≡ some p.sub
      → is_empty p.sub ≡ false
      → find_user p.sub ≡ some user
      → user.is_active ≡ true
      → user.token_version ≡ p.token_version
      → (tokens : TokenPair) × (s' : store.State) × (refresh jwt store find_user jti now token s
          ≡ (ok (user, tokens), s'))
        × (jwt.verify_refresh now tokens.refresh_token
            ≡ some (record { sub = user.id; jti = jti; token_version = user.token_version }))
        × (store.get s' jti ≡ some user.id)
  unfolding refresh
  refresh_succeeds jti token now p s user v g full u a n =
      let owner : is_owner jwt store find_user (some p.sub) p.sub ≡ true =
        rw full (text_eq_refl p.sub) in
      let current : is_current user p.token_version ≡ true =
        rw a ((==_iff user.token_version p.token_version).1 n) in
      (
        (issue_tokens jwt store find_user jti now user (store.del p.jti s)).0,
        (issue_tokens jwt store find_user jti now user (store.del p.jti s)).1,
        rw (v, refresh)
            (rw (g, get_refresh_token_user_id)
              (rw owner (rw (u, refresh_owned) (rw current refl)))),
        jwt.verify_signed now
            (record { sub = user.id; jti = jti; token_version = user.token_version }),
        rotate-get jti now p.jti jti user s ∙ rw (text_eq_refl jti) refl,
      )

  -- After a logout with a refresh token, that token is refused as revoked.
  pub logout-revoked :
      (jti token : Text) (now : ℕ) (p : RefreshTokenPayload) (s : store.State)
      → jwt.verify_refresh now token ≡ some p
      → is_empty token ≡ false
      → is_empty p.jti ≡ false
      → refresh jwt store find_user jti now token (logout jwt store find_user (some token) s) ≡ (
        thrown (http 401 "Refresh token has been revoked"),
        logout jwt store find_user (some token) s,
      )
  unfolding logout
  logout-revoked jti token now p s v full named =
      revoked jti token now p (logout jwt store find_user (some token) s) v (
        rw full (
          rw (jwt.decode_verified now token p v)
            (rw named (store.get_del p.jti s p.jti ∙ rw (text_eq_refl p.jti) refl))))
