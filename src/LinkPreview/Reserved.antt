-- ===== src/LinkPreview/Reserved.antt =====
-- The IPv4 ranges of the guard, as the addresses they are meant for.
use munichat.Prelude.{ℕ, ◌≤◌, ◌<◌, ◌≡◌, ◌⊎◌, ◌↔◌, true, arith, [], ◌∷◌}
use munichat.LinkPreview.SsrfGuard.{int_of_octets, is_private_int}

-- "This" network, private networks, carrier-grade NAT, loopback, link-local, protocol assignments,
-- benchmarking, multicast and reserved.
abbrev pub IsReserved : ℕ → ℕ → ℕ → Type 0
IsReserved a b c =
    (a ≡ 0)
    ⊎ (a ≡ 10)
    ⊎ ((a ≡ 100) × (64 ≤ b) × (b < 128))
    ⊎ (a ≡ 127)
    ⊎ ((a ≡ 169) × (b ≡ 254))
    ⊎ ((a ≡ 172) × (16 ≤ b) × (b < 32))
    ⊎ ((a ≡ 192) × (b ≡ 0) × (c ≡ 0))
    ⊎ ((a ≡ 192) × (b ≡ 168))
    ⊎ ((a ≡ 198) × (18 ≤ b) × (b < 20))
    ⊎ (224 ≤ a)

-- The guard's test of an IPv4 address a.b.c.d is true of the addresses of the reserved blocks and of
-- no others.
pub is_private_int_iff :
    (a b c d : ℕ)
    → a < 256
    → b < 256
    → c < 256
    → d < 256
    → (is_private_int (int_of_octets 0 (a ∷ b ∷ c ∷ d ∷ [])) ≡ true) ↔ IsReserved a b c
unfolding is_private_int
is_private_int_iff a b c d ha hb hc hd = ground arith
