-- ===== src/Directory/Slugs.antt =====
-- `slug` of channel-sync.service.ts.
use munichat.Prelude.{
  ℕ, Bool, true, false, not, ◌&&◌, ◌||◌, [], ◌∷◌, keep, reverse, if◌then◌else◌, ◌==◌, leb,
}
use munichat.Text.{Text}

-- `[a-z0-9]`
abbrev pub is_slug_unit : ℕ → Bool
is_slug_unit c = leb b'a' c && leb c b'z' || leb b'0' c && leb c b'9'

-- `[̀-ͯ]`
abbrev is_combining : ℕ → Bool
is_combining c = leb 0x300 c && leb c 0x36f

-- `replace(/[^a-z0-9]+/g, '-')`; the flag says whether the run has its dash already.
unfoldable pub dashed : Bool → Text → Text
dashed in_run [] = []
dashed in_run (c ∷ t) =
    let word = dashed false t in
    let run = dashed true t in
    if is_slug_unit c then c ∷ word else if in_run then run else b'-' ∷ run

-- `^-+`
unfoldable pub drop_dashes : Text → Text
drop_dashes [] = []
drop_dashes (c ∷ t) = let rest = drop_dashes t in if c == b'-' then rest else c ∷ t

-- `replace(/^-+|-+$/g, '')`
unfoldable pub strip_dashes : Text → Text
unfolding drop_dashes
strip_dashes t = reverse (drop_dashes (reverse (drop_dashes t)))

-- `slug`, with `toLowerCase` and `normalize('NFD')` of the platform
unfoldable pub slug : (Text → Text) → (Text → Text) → Text → Text
unfolding dashed strip_dashes
slug to_lower_case normalize_nfd name =
    strip_dashes
      (dashed false (keep (λ c. not (is_combining c)) (normalize_nfd (to_lower_case name))))
