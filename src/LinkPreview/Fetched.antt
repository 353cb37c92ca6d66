-- ===== src/LinkPreview/Fetched.antt =====
-- What the fetch of a page requests, and which answers it takes.
use munichat.Prelude.{
  ℕ, zero, suc, ◌+◌, ◌≤◌, ◌<◌, ◌≡◌, refl, sym, ap, ◌∙◌, ltb→lt, Bool, true, false, Option, none,
  some, List, [], ◌∷◌, arith, All, length, leb, ltb, ◌&&◌, ◌++◌, inl, inr, Bool-cases, Option-cases,
  if◌then◌else◌, length-append,
}
use mathlib.Core.List.{append_assoc, append-nil}
use munichat.Text.{Text}
use munichat.LinkPreview.SsrfGuard.{Url, validate_url}
use munichat.LinkPreview.Fetcher.{
  Platform, Response, GuardedFetchResult, fetch_loop, follow, redirected, answered, accept, Stream,
  done, chunk, read_loop, read, too_large, BodyRead, read_body_with_cap, reader, failed,
  max_response_bytes, guarded_fetch_html, html,
}

module _ (p : Platform) (allow : Bool) where
  abbrev IsGuarded : ℕ → List Url → Type 0
  IsGuarded hops urls = All (λ u. validate_url p.network allow u ≡ true) urls × (length urls ≤ hops)

  -- The loop from the next hop on requests guarded addresses only.
  module _ (again : Url → GuardedFetchResult × List Url) (hops : ℕ)
      (ih : (u : Url) → IsGuarded hops (again u).1) (u : Url)
      (e : validate_url p.network allow u ≡ true) where
    alone : IsGuarded (suc hops) (u ∷ [])
    alone = ((e, tt), omega arith)

    follow-IsGuarded : (o : Option Url) → IsGuarded (suc hops) (follow p again u o).1
    unfolding follow
    follow-IsGuarded none = alone
    follow-IsGuarded (some next) = ((e, (ih next).0), omega (arith, (ih next).1))

    redirected-IsGuarded : (o : Option Text) → IsGuarded (suc hops) (redirected p again u o).1
    unfolding redirected
    redirected-IsGuarded none = alone
    redirected-IsGuarded (some []) = alone
    redirected-IsGuarded (some (c ∷ location)) = follow-IsGuarded (p.resolve (c ∷ location) u)

    answered-IsGuarded : (o : Option Response) → IsGuarded (suc hops) (answered p again u o).1
    unfolding answered
    answered-IsGuarded none = alone
    answered-IsGuarded (some response) =
        elim (leb 300 response.status && ltb response.status 400)
          as (λ b.
            IsGuarded (suc hops)
              (if b
                then redirected p again u response.location
                else (accept p response, u ∷ [])).1) [
                  | true ↦ redirected-IsGuarded response.location
                  | false ↦ alone
                ]

  fetch_loop-IsGuarded : (hops : ℕ) (u : Url) → IsGuarded hops (fetch_loop p allow hops u).1
  unfolding fetch_loop
  fetch_loop-IsGuarded zero u = (tt, omega arith)
  fetch_loop-IsGuarded (suc hops) u = elim (Bool-cases (validate_url p.network allow u)) [
    | inl e ↦
        rw (e, fetch_loop)
          (answered-IsGuarded (fetch_loop p allow hops) hops (fetch_loop-IsGuarded hops) u e
            (p.fetch u))
    | inr e ↦ rw (e, fetch_loop) (tt, omega arith)
  ]

-- Every address that is requested, the first one and those of redirections, has passed the guard
-- before, and there are four requests at most.
pub guarded_fetch_html-IsGuarded :
    (p : Platform) (allow : Bool) (url : Text)
    → All (λ u. validate_url p.network allow u ≡ true) (guarded_fetch_html p allow url).1
      × (length (guarded_fetch_html p allow url).1 ≤ 4)
unfolding guarded_fetch_html
guarded_fetch_html-IsGuarded p allow url = elim (Option-cases (p.parse url)) [
  | inl e ↦ rw (e, guarded_fetch_html) (tt, omega arith)
  | inr (u, e) ↦ rw (e, guarded_fetch_html) (fetch_loop-IsGuarded p allow 4 u)
]

-- A body that arrives whole, in some chunks.
abbrev pub stream_of : List (List ℕ) → Stream
stream_of [] = done
stream_of (c ∷ cs) = chunk c (stream_of cs)

abbrev pub joined : List (List ℕ) → List ℕ
joined [] = []
joined (c ∷ cs) = c ++ joined cs

abbrev outcome : List ℕ → BodyRead
outcome bytes = if leb (length bytes) max_response_bytes then read bytes else too_large

outcome_small : (bytes : List ℕ) → length bytes ≤ max_response_bytes → outcome bytes ≡ read bytes
outcome_small bytes h = ground arith

outcome_large : (bytes : List ℕ) → max_response_bytes < length bytes → outcome bytes ≡ too_large
outcome_large bytes h = ground arith

read_loop-stream_of :
    (acc : List ℕ) (n : ℕ) (cs : List (List ℕ))
    → length acc ≡ n
    → n ≤ max_response_bytes
    → read_loop acc n (stream_of cs) ≡ outcome (acc ++ joined cs)
unfolding read_loop
read_loop-stream_of acc n [] e h = rw (append-nil acc) (sym (outcome_small acc (omega (arith, e))))
read_loop-stream_of acc n (c ∷ cs) e h = elim (Bool-cases (ltb max_response_bytes (n + length c))) [
  | inl f ↦
      rw (f, read_loop)
        (sym (
          outcome_large (acc ++ (c ++ joined cs)) (
            omega (
              arith,
              e,
              ltb→lt max_response_bytes (n + length c) f,
              length-append acc (c ++ joined cs),
              length-append c (joined cs),
            ))))
  | inr f ↦
      rw (f, read_loop)
        (read_loop-stream_of (acc ++ c) (n + length c) cs (omega (arith, e, length-append acc c))
            (ground arith)
          ∙ ap outcome (append_assoc acc c (joined cs)))
]

-- A body that arrives whole is taken as text exactly where it has at most the permitted number of
-- bytes, however it is cut into chunks, and is refused otherwise.
pub read_body_with_cap-stream_of :
    (p : Platform) (cs : List (List ℕ))
    → read_body_with_cap p (reader (stream_of cs))
      ≡ (if leb (length (joined cs)) max_response_bytes then html (p.utf8 (joined cs)) else failed)
unfolding read_body_with_cap
read_body_with_cap-stream_of p cs =
    elim (Bool-cases (leb (length (joined cs)) max_response_bytes)) [
      | inl e ↦ rw (read_loop-stream_of [] 0 cs refl (omega arith), read_body_with_cap) (rw e refl)
      | inr e ↦ rw (read_loop-stream_of [] 0 cs refl (omega arith), read_body_with_cap) (rw e refl)
    ]
