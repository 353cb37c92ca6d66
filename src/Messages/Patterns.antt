-- ===== src/Messages/Patterns.antt =====
-- The regular expressions of apps/api/src/messages/messages.service.ts.
use munichat.Prelude.{Option, none, some, [], ◌∷◌, ◌++◌, if◌then◌else◌, is_empty, ◌==◌, ◌≡◌, refl}
use munichat.Text.{
  Text, lit, is_space, trim_start, trim, strip_prefix, strip_prefix_ci, take_word, lower,
}

-- `TICKET_PREFIX_PATTERN`, behind the prefix: the end, or white space and the captured group.
after_ticket : Text → Option Text
unfolding is_space trim_start trim
after_ticket [] = some []
after_ticket (c ∷ t) = if is_space c then some (trim (trim_start t)) else none

-- `(ticketMatch[1] ?? '').trim()` where `TICKET_PREFIX_PATTERN` matches the content.
unfoldable pub ticket_description : Text → Option Text
unfolding after_ticket strip_prefix_ci
ticket_description content = elim (strip_prefix_ci (lit "/ticket") content) [
  | none ↦ none
  | some rest ↦ after_ticket rest
]

-- `:\/\/\S+`, with what stands before it in the match
authority : Text → Text → Option Text
unfolding strip_prefix take_word
authority scheme t = elim (strip_prefix (lit "://") t) [
  | none ↦ none
  | some rest ↦
      let word = take_word rest in
      if is_empty word then none else some (scheme ++ (lit "://" ++ word))
]

-- `http` has been read; an `s` can only be the optional one.
after_http : Text → Text → Option Text
unfolding authority lower
after_http scheme [] = none
after_http scheme (c ∷ t) =
    if lower c == b's' then authority (scheme ++ c ∷ []) t else authority scheme (c ∷ t)

take4 : Text → Text
take4 (a ∷ b ∷ c ∷ d ∷ t) = a ∷ b ∷ c ∷ d ∷ []
take4 t = t

-- `URL_PATTERN` at the head of a text.
url_at : Text → Option Text
unfolding strip_prefix_ci after_http take4
url_at t = elim (strip_prefix_ci (lit "http") t) [
  | none ↦ none
  | some rest ↦ after_http (take4 t) rest
]

-- `content.match(URL_PATTERN)?.[0]`: the leftmost match.
unfoldable pub find_url : Text → Option Text
unfolding url_at
find_url [] = none
find_url (c ∷ t) = elim (url_at (c ∷ t)) [ none ↦ find_url t | some url ↦ some url ]

ticket_tests :
    (ticket_description (lit "/TICKET  a b ") ≡ some (lit "a b"))
    × (ticket_description (lit "/ticket") ≡ some [])
    × (ticket_description (lit "/tickets x") ≡ none)
unfolding ticket_description
ticket_tests = (refl, refl, refl)

url_tests :
    (find_url (lit "see https://x.y/z, ok") ≡ some (lit "https://x.y/z,"))
    × (find_url (lit "http:// http://a") ≡ some (lit "http://a"))
    × (find_url (lit "httpss://a") ≡ none)
unfolding find_url
url_tests = (refl, refl, refl)
