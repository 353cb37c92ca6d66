-- ===== src/LinkPreview/SsrfGuard.antt =====
-- apps/api/src/link-preview/link-preview.ssrf-guard.ts
use munichat.Prelude.{
  ℕ, ◌+◌, ◌-◌, ◌*◌, ◌/◌, ◌%◌, ◌^◌, Bool, true, false, not, ◌&&◌, ◌||◌, Option, none, some, List, [],
  ◌∷◌, ◌==◌, if◌then◌else◌, map, some_of, all,
}
use munichat.Text.{Text, lit, lower, text_eq, number_of, split_on, starts_with}

-- `Number(octet)`; the guard asks only after `isIP` has said 4, so an octet is decimal digits.
unfoldable pub octet_of : Text → ℕ
unfolding number_of
octet_of t = elim (number_of t) [ none ↦ 0 | some n ↦ n ]

-- The `reduce` of `ipv4ToInt`; 32-bit arithmetic, read without a sign (`>>> 0`).
abbrev pub int_of_octets : ℕ → List ℕ → ℕ
int_of_octets acc [] = acc
int_of_octets acc (octet ∷ octets) = int_of_octets ((acc * 2 ^ 8 + octet) % 2 ^ 32) octets

unfoldable pub ipv4_to_int : Text → ℕ
unfolding octet_of split_on
ipv4_to_int ip =
    let (part, parts) = split_on b'.' ip in int_of_octets 0 (map octet_of (part ∷ parts))

abbrev pub ipv4_private_ranges : List (List ℕ × ℕ)
ipv4_private_ranges =
    ((0 ∷ 0 ∷ 0 ∷ 0 ∷ []), 8)
    ∷ ((10 ∷ 0 ∷ 0 ∷ 0 ∷ []), 8)
    ∷ ((100 ∷ 64 ∷ 0 ∷ 0 ∷ []), 10)
    ∷ ((127 ∷ 0 ∷ 0 ∷ 0 ∷ []), 8)
    ∷ ((169 ∷ 254 ∷ 0 ∷ 0 ∷ []), 16)
    ∷ ((172 ∷ 16 ∷ 0 ∷ 0 ∷ []), 12)
    ∷ ((192 ∷ 0 ∷ 0 ∷ 0 ∷ []), 24)
    ∷ ((192 ∷ 168 ∷ 0 ∷ 0 ∷ []), 16)
    ∷ ((198 ∷ 18 ∷ 0 ∷ 0 ∷ []), 15)
    ∷ ((224 ∷ 0 ∷ 0 ∷ 0 ∷ []), 4)
    ∷ ((240 ∷ 0 ∷ 0 ∷ 0 ∷ []), 4)
    ∷ []

-- `(value & mask) === (baseValue & mask)`: the mask keeps the first `prefix` of the 32 bits.
unfoldable pub in_range : ℕ → List ℕ × ℕ → Bool
in_range value (base, prefix) =
    value / 2 ^ (32 - prefix) == int_of_octets 0 base / 2 ^ (32 - prefix)

-- The test of `isPrivateIPv4` on the number.
unfoldable pub is_private_int : ℕ → Bool
unfolding in_range
is_private_int value = some_of (in_range value) ipv4_private_ranges

unfoldable pub is_private_ipv4 : Text → Bool
unfolding is_private_int ipv4_to_int
is_private_ipv4 ip = is_private_int (ipv4_to_int ip)

-- `split(':').pop()`
abbrev pub last_part : Text → List Text → Text
last_part part [] = part
last_part part (next ∷ parts) = last_part next parts

-- What the guard asks of the platform: `isIP` of node:net and `lookup` of node:dns, whose promise may
-- be rejected.
pub record Network : Type 0 where
  pub is_ip : Text → ℕ
  pub lookup : Text → Option (List Text)

module _ (net : Network) where
  unfoldable pub is_private_ipv6 : Text → Bool
  unfolding is_private_ipv4 starts_with split_on lower
  is_private_ipv6 ip =
      let normalized = map lower ip in
      let (part, parts) = split_on b':' normalized in
      let mapped = last_part part parts in
      if text_eq normalized (lit "::1") || text_eq normalized (lit "::")
      then true
      else if starts_with (lit "fe80:") normalized
      then true
      else if starts_with (lit "fc") normalized || starts_with (lit "fd") normalized
      then true
      else if starts_with (lit "::ffff:") normalized && net.is_ip mapped == 4
      then is_private_ipv4 mapped
      else false

  unfoldable pub is_private_or_reserved_ip : Text → Bool
  unfolding is_private_ipv4 is_private_ipv6
  is_private_or_reserved_ip ip =
      if net.is_ip ip == 4
      then is_private_ipv4 ip
      else if net.is_ip ip == 6
      then is_private_ipv6 ip
      else true

  -- `resolveAndValidateHost`; `false` is a rejection, of the guard's or of the look-up's.
  unfoldable pub resolve_and_validate_host : Bool → Text → Bool
  unfolding is_private_or_reserved_ip lower
  resolve_and_validate_host allow_private_hosts hostname =
      if allow_private_hosts
      then true
      else if text_eq (map lower hostname) (lit "localhost")
      then false
      else if not (net.is_ip hostname == 0)
      then not (is_private_or_reserved_ip hostname)
      else elim (net.lookup hostname) [
        | none ↦ false
        | some [] ↦ false
        | some (record_ ∷ records) ↦
            all (λ address. not (is_private_or_reserved_ip address)) (record_ ∷ records)
      ]

-- What the code reads of a `URL`.
pub record Url : Type 0 where
  pub href : Text
  pub protocol : Text
  pub hostname : Text

module _ (net : Network) where
  unfoldable pub validate_url : Bool → Url → Bool
  unfolding resolve_and_validate_host
  validate_url allow_private_hosts url =
      if text_eq url.protocol (lit "http:") || text_eq url.protocol (lit "https:")
      then resolve_and_validate_host net allow_private_hosts url.hostname
      else false
