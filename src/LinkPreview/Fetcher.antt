-- ===== src/LinkPreview/Fetcher.antt =====
-- apps/api/src/link-preview/link-preview.fetcher.ts
use munichat.Prelude.{
  ℕ, zero, suc, ◌+◌, ◌*◌, Bool, false, not, ◌&&◌, ◌||◌, Option, none, some, List, [], ◌∷◌, ◌++◌,
  ltb, leb, if◌then◌else◌, map, length,
}
use munichat.Text.{Text, lit, lower, includes}
use munichat.LinkPreview.SsrfGuard.{Network, Url, validate_url}

abbrev pub max_response_bytes : ℕ
max_response_bytes = 2 * 1024 * 1024

abbrev pub max_redirects : ℕ
max_redirects = 3

-- A body as its reader gives it: chunks, then the end or an error of the connection.
pub data Stream : Type 0 where
  done : Stream
  broken : Stream
  chunk : List ℕ → Stream → Stream

-- `response.body`; where it is null the code asks for `response.text()`, which may be rejected.
pub data ResponseBody : Type 0 where
  reader : Stream → ResponseBody
  text : Option Text → ResponseBody

pub record Response : Type 0 where
  pub status : ℕ
  pub location : Option Text
  pub content_type : Option Text
  pub content_length : Option Text
  pub body : ResponseBody

-- `headers.get(name) ?? ''`
abbrev pub header_or_empty : Option Text → Text
header_or_empty none = []
header_or_empty (some t) = t

-- `thrown`: an error while the body is read is not caught.
pub data GuardedFetchResult : Type 0 where
  html : Text → GuardedFetchResult
  failed : GuardedFetchResult
  thrown : GuardedFetchResult

-- The platform: `new URL`, with a base and without one, `fetch` with `redirect: 'manual'` (`none`: it
-- throws), `Number` and `toString('utf8')`.
pub record Platform : Type 0 where
  pub network : Network
  pub parse : Text → Option Url
  pub resolve : Text → Url → Option Url
  pub fetch : Url → Option Response
  -- `Number(text)`, rounded up and beyond every bound of the code where it is infinite; `none` where it
  -- is not a number or negative
  pub number : Text → Option ℕ
  pub utf8 : List ℕ → Text

-- The loop of `readBodyWithCap`, with the chunks read so far.
pub data BodyRead : Type 0 where
  read : List ℕ → BodyRead
  too_large : BodyRead
  broken_off : BodyRead

unfoldable pub read_loop : List ℕ → ℕ → Stream → BodyRead
read_loop chunks total done = read chunks
read_loop chunks total broken = broken_off
read_loop chunks total (chunk value rest) =
    let more = read_loop (chunks ++ value) (total + length value) rest in
    if ltb max_response_bytes (total + length value) then too_large else more

module _ (p : Platform) where
  unfoldable pub read_body_with_cap : ResponseBody → GuardedFetchResult
  unfolding read_loop
  read_body_with_cap (reader stream) = elim (read_loop [] 0 stream) [
    | read bytes ↦ html (p.utf8 bytes)
    | too_large ↦ failed
    | broken_off ↦ thrown
  ]
  read_body_with_cap (text none) = thrown
  read_body_with_cap (text (some t)) = if leb (length t) max_response_bytes then html t else failed

  -- `contentLength && Number(contentLength) > MAX_RESPONSE_BYTES`
  unfoldable pub is_too_long : Option Text → Bool
  is_too_long none = false
  is_too_long (some t) = elim (p.number t) [ none ↦ false | some n ↦ ltb max_response_bytes n ]

  -- What follows the test for a redirection.
  unfoldable pub accept : Response → GuardedFetchResult
  unfolding read_body_with_cap is_too_long includes lower
  accept response =
      if ltb response.status 200 || leb 300 response.status
      then failed
      else if not (includes (lit "text/html") (map lower (header_or_empty response.content_type)))
      then failed
      else if is_too_long response.content_length
      then failed
      else read_body_with_cap response.body

  -- The loop over the hops gives the result and the URLs that were requested, in order. `again` is
  -- the loop from the next hop on: first where a redirection leads, then what an answer leads to.
  unfoldable pub follow :
      (Url → GuardedFetchResult × List Url) → Url → Option Url → GuardedFetchResult × List Url
  follow again current none = (failed, current ∷ [])
  follow again current (some next) = let (r, urls) = again next in (r, current ∷ urls)

  unfoldable pub redirected :
      (Url → GuardedFetchResult × List Url) → Url → Option Text → GuardedFetchResult × List Url
  unfolding follow
  redirected again current none = (failed, current ∷ [])
  redirected again current (some []) = (failed, current ∷ [])
  redirected again current (some (c ∷ location)) =
      follow again current (p.resolve (c ∷ location) current)

  unfoldable pub answered :
      (Url → GuardedFetchResult × List Url) → Url → Option Response → GuardedFetchResult × List Url
  unfolding redirected accept
  answered again current none = (failed, current ∷ [])
  answered again current (some response) =
      if leb 300 response.status && ltb response.status 400
      then redirected again current response.location
      else (accept response, current ∷ [])

  unfoldable pub fetch_loop : Bool → ℕ → Url → GuardedFetchResult × List Url
  unfolding answered validate_url
  fetch_loop allow zero current = (failed, [])
  fetch_loop allow (suc hops) current =
      if validate_url p.network allow current
      then answered (fetch_loop allow hops) current (p.fetch current)
      else (failed, [])

  unfoldable pub guarded_fetch_html : Bool → Text → GuardedFetchResult × List Url
  unfolding fetch_loop
  guarded_fetch_html allow url = elim (p.parse url) [
    | none ↦ (failed, [])
    | some current ↦ fetch_loop allow (suc max_redirects) current
  ]
