-- ===== src/LinkPreview/Tests.antt =====
-- A small network with a redirection, and the guard at concrete addresses.
use munichat.Prelude.{
  ◌≤◌, ◌≡◌, ◌↔◌, refl, true, false, ◌||◌, Option, none, some, [], ◌∷◌, arith, length, All,
  if◌then◌else◌,
}
use munichat.Text.{number_of, Text, lit, text_eq}
use munichat.LinkPreview.SsrfGuard.{Network, Url, validate_url, is_private_int, int_of_octets}
use munichat.LinkPreview.Fetcher.{
  Platform, Response, guarded_fetch_html, read_body_with_cap, reader, chunk, done, html,
}
use munichat.LinkPreview.Reserved.{IsReserved, is_private_int_iff}
use munichat.LinkPreview.Fetched.{guarded_fetch_html-IsGuarded, read_body_with_cap-stream_of}

is_private_int_iff_example :
    (is_private_int (int_of_octets 0 (172 ∷ 31 ∷ 0 ∷ 1 ∷ [])) ≡ true) ↔ IsReserved 172 31 0
is_private_int_iff_example =
    is_private_int_iff 172 31 0 1 (omega arith) (omega arith) (omega arith) (omega arith)

abbrev network : Network
network = record {
  is_ip = λ t. if text_eq t (lit "10.0.0.1") || text_eq t (lit "93.184.216.34") then 4 else 0;
  lookup = λ t. if text_eq t (lit "a.example") then some (lit "93.184.216.34" ∷ []) else none;
}

abbrev at : Text → Url
at host = record { href = host; protocol = lit "https:"; hostname = host }

-- The first host redirects into the private network.
abbrev answer : Url → Option Response
answer u = some (record {
  status = 302;
  location = some (lit "10.0.0.1");
  content_type = none;
  content_length = none;
  body = reader done;
})

abbrev platform : Platform
platform = record {
  network = network;
  parse = λ t. some (at t);
  resolve = λ t u. some (at t);
  fetch = answer;
  number = number_of;
  utf8 = λ bytes. bytes;
}

guarded_fetch_html-IsGuarded_example :
    All
      (λ u. validate_url network false u ≡ true)
      (guarded_fetch_html platform false (lit "a.example")).1
    × (length (guarded_fetch_html platform false (lit "a.example")).1 ≤ 4)
guarded_fetch_html-IsGuarded_example = guarded_fetch_html-IsGuarded platform false (lit "a.example")

-- One request is made, to the first host alone.
redirection_is_refused : length (guarded_fetch_html platform false (lit "a.example")).1 ≡ 1
unfolding guarded_fetch_html
redirection_is_refused = refl

read_body_with_cap-stream_of_example :
    read_body_with_cap platform (reader (chunk (1 ∷ []) (chunk (2 ∷ 3 ∷ []) done)))
    ≡ html (1 ∷ 2 ∷ 3 ∷ [])
read_body_with_cap-stream_of_example =
    read_body_with_cap-stream_of platform ((1 ∷ []) ∷ (2 ∷ 3 ∷ []) ∷ [])
