-- ===== src/Files/Served.antt =====
-- What downloads serve, and where uploads go.
use munichat.Prelude.{
  ◌≢◌, sym, ==_iff, leb, ◌&&◌, ℕ, ◌+◌, ◌-◌, ◌≤◌, ◌<◌, ◌≡◌, refl, subst, Bool, Bool-cases, ap, zero,
  suc, true, false, Option, none, some, [], ◌∷◌, arith, All, length, ◌==◌, if◌then◌else◌,
  Option-cases, inl, inr, map, drop, ◌++◌, length-drop,
}
use munichat.Text.{Text, lit, number_of, trim}
use munichat.Store.{Prisma, Attachment, User}
use munichat.Server.{ok}
use munichat.Channels.{is_member}
use munichat.Files.Range.{
  ByteRange, ignored, unsatisfiable, window, bounded, window_of, range_groups, parse_byte_range,
}
use munichat.Files.Handlers.{
  AttachmentForDownload, Download, whole, part, no_content, served, download, is_safe, safe_char,
  sanitize_file_name, PresignUploadInput, object_key,
}

-- A window lies inside an object of that size.
abbrev IsInside : ℕ → ByteRange → Type 0
IsInside size ignored = Unit
IsInside size unsatisfiable = Unit
IsInside size (window start end) = (start ≤ end) × (end < size)

bounded-IsInside : (start end size : ℕ) → IsInside size (bounded start end size)
unfolding bounded
bounded-IsInside start end size = ground arith

window_of-IsInside :
    (raw_start raw_end : Text) (size : ℕ) → IsInside size (window_of raw_start raw_end size)
unfolding window_of
window_of-IsInside [] raw_end size = elim (Option-cases (number_of raw_end)) [
  | inl e ↦ rw (e, window_of) tt
  | inr (n, e) ↦ rw (e, window_of) (unless (n == 0) (size - n) (size - 1))
]
  where
    unless :
        (b : Bool) (start end : ℕ) → IsInside size (if b then ignored else bounded start end size)
    unless true start end = tt
    unless false start end = bounded-IsInside start end size
window_of-IsInside (c ∷ raw_start) [] size = elim (Option-cases (number_of (c ∷ raw_start))) [
  | inl e ↦ rw (e, window_of) tt
  | inr (start, e) ↦ rw (e, window_of) (bounded-IsInside start (size - 1) size)
]
window_of-IsInside (c ∷ raw_start) (d ∷ raw_end) size =
    elim (Option-cases (number_of (c ∷ raw_start))) [
      | inl e ↦ rw (e, window_of) tt
      | inr (start, e) ↦ elim (Option-cases (number_of (d ∷ raw_end))) [
        | inl f ↦ rw (e, window_of) (rw f tt)
        | inr (end, f) ↦ rw (e, window_of) (rw f (bounded-IsInside start end size))
      ]
    ]

parse_byte_range-IsInside :
    (header : Option Text) (size : ℕ) → IsInside size (parse_byte_range header size)
unfolding parse_byte_range
parse_byte_range-IsInside none size = tt
parse_byte_range-IsInside (some header) size = elim (Option-cases (range_groups (trim header))) [
  | inl e ↦ rw (e, parse_byte_range) tt
  | inr (g, e) ↦ rw (e, parse_byte_range) (window_of-IsInside g.0 g.1 size)
]

-- A download of that attachment streams its object, and of a range only bytes the object has.
abbrev pub Serves : Attachment → Download → Type 0
Serves a (whole key n) = key ≡ a.object_key
Serves a (part key start end n) =
    (key ≡ a.object_key) × (start ≤ end) × (end < a.size_bytes) × (n ≡ end + 1 - start)
Serves a (no_content total) = total ≡ a.size_bytes

served-Serves : (a : Attachment) (r : ByteRange) → IsInside a.size_bytes r → Serves a (served a r)
served-Serves a ignored h = refl
served-Serves a unsatisfiable h = refl
served-Serves a (window start end) (h, k) = (refl, h, k, omega arith)

-- A download that is answered is of an attachment whose message is not deleted and whose channel the
-- user is a member of; it streams that object, and of a range only bytes that the object has, with
-- their number as the length.
pub download-Serves :
    (db : Prisma) (find : db.State → Text → Option AttachmentForDownload) (s : db.State)
    (user : User) (id : Text) (range : Option Text) (d : Download)
    → download db find s user id range ≡ ok d
    → (a : AttachmentForDownload) × (find s id ≡ some a)
      × (a.deleted_at ≡ none)
      × (is_member db s user.id a.channel_id ≡ true)
      × Serves a.attachment d
unfolding download
download-Serves db find s user id range d e = found (find s id) refl
  where
    Goal : Type 0
    Goal =
        (a : AttachmentForDownload) × (find s id ≡ some a)
        × (a.deleted_at ≡ none)
        × (is_member db s user.id a.channel_id ≡ true)
        × Serves a.attachment d

    found : (o : Option AttachmentForDownload) → find s id ≡ o → Goal
    found none f = absurd (ground (arith, e, f))
    found (some a) f =
        let range' = parse_byte_range range a.attachment.size_bytes in
        let is_live : a.deleted_at ≡ none = ground (arith, e, f) in
        let is_allowed : is_member db s user.id a.channel_id ≡ true =
          ground (arith, e, f, is_live) in
        let same : served a.attachment range' ≡ d = ground (arith, e, f, is_live, is_allowed) in
        (
          a,
          f,
          is_live,
          is_allowed,
          subst (Serves a.attachment) same (
              served-Serves a.attachment range'
                (parse_byte_range-IsInside range a.attachment.size_bytes)),
        )

-- A letter, a digit, a full stop, a dash or an underscore, of ASCII.
pub data IsFileNameUnit : ℕ → Type 0 where
  small_letter : {c : ℕ} → 97 ≤ c → c ≤ 122 → IsFileNameUnit c
  capital_letter : {c : ℕ} → 65 ≤ c → c ≤ 90 → IsFileNameUnit c
  digit : {c : ℕ} → 48 ≤ c → c ≤ 57 → IsFileNameUnit c
  full_stop : IsFileNameUnit 46
  dash : IsFileNameUnit 45
  underscore : IsFileNameUnit 95

-- What separates the folders of a key.
abbrev pub IsNoSeparator : ℕ → Type 0
IsNoSeparator c = c ≢ 47

unit-IsNoSeparator : {c : ℕ} → IsFileNameUnit c → IsNoSeparator c
unit-IsNoSeparator (small_letter l u) e = omega arith
unit-IsNoSeparator (capital_letter l u) e = omega arith
unit-IsNoSeparator (digit l u) e = omega arith
unit-IsNoSeparator full_stop e = omega arith
unit-IsNoSeparator dash e = omega arith
unit-IsNoSeparator underscore e = omega arith

is_safe_unit : (c : ℕ) → is_safe c ≡ true → IsFileNameUnit c
is_safe_unit c h = elim (Bool-cases (leb 97 c && leb c 122)) [
  | inl e ↦ small_letter (ground (arith, e)) (ground (arith, e))
  | inr not_small ↦ elim (Bool-cases (leb 65 c && leb c 90)) [
    | inl e ↦ capital_letter (ground (arith, e)) (ground (arith, e))
    | inr not_capital ↦ elim (Bool-cases (leb 48 c && leb c 57)) [
      | inl e ↦ digit (ground (arith, e)) (ground (arith, e))
      | inr not_digit ↦ elim (Bool-cases (c == 46)) [
        | inl e ↦ subst IsFileNameUnit (sym ((==_iff c 46).0 e)) full_stop
        | inr not_stop ↦ elim (Bool-cases (c == 45)) [
          | inl e ↦ subst IsFileNameUnit (sym ((==_iff c 45).0 e)) dash
          | inr not_dash ↦
              let last : c ≡ 95 =
                ground (arith, h, not_small, not_capital, not_digit, not_stop, not_dash) in
              subst IsFileNameUnit (sym last) underscore
        ]
      ]
    ]
  ]
]

safe_char_unit : (c : ℕ) → IsFileNameUnit (safe_char c)
safe_char_unit c = elim (Bool-cases (is_safe c)) [
  | inl e ↦ rw e (is_safe_unit c e)
  | inr e ↦ rw e underscore
]

map-safe_char : (t : Text) → All IsFileNameUnit (map safe_char t)
map-safe_char [] = tt
map-safe_char (c ∷ t) = (safe_char_unit c, map-safe_char t)

drop-All : (n : ℕ) (t : Text) → All IsFileNameUnit t → All IsFileNameUnit (drop n t)
drop-All zero t h = h
drop-All (suc n) [] h = h
drop-All (suc n) (c ∷ t) (_, h) = drop-All n t h

length-map : (t : Text) → length (map safe_char t) ≡ length t
length-map [] = refl
length-map (c ∷ t) = ap suc (length-map t)

-- What stands behind the last separator of a key.
append-IsNoSeparator :
    (uuid name : Text)
    → All IsNoSeparator uuid
    → All IsFileNameUnit name
    → All IsNoSeparator (uuid ++ (lit "-" ++ name))
append-IsNoSeparator [] name h k = ((λ e. omega arith), names name k)
  where
    names : (n : Text) → All IsFileNameUnit n → All IsNoSeparator n
    names [] l = tt
    names (c ∷ n) (u, l) = (unit-IsNoSeparator u, names n l)
append-IsNoSeparator (c ∷ uuid) name (g, h) k = (g, append-IsNoSeparator uuid name h k)

-- The object key of an upload is the folder of its channel and one name in it, where the UUID has no
-- separator: no separator stands behind that of the folder. The name ends in a file name of at most
-- 100 characters, all of them letters, digits, full stops, dashes or underscores.
pub object_key-IsConfined :
    (uuid : Text) (input : PresignUploadInput)
    → All IsNoSeparator uuid
    → (leaf name : Text) × (object_key uuid input
        ≡ lit "attachments/" ++ (input.channel_id ++ (lit "/" ++ leaf)))
      × All IsNoSeparator leaf
      × (leaf ≡ uuid ++ (lit "-" ++ name))
      × (length name ≤ 100)
      × All IsFileNameUnit name
unfolding object_key
object_key-IsConfined uuid input plain =
    let raw = map safe_char input.file_name in
    let excess = length input.file_name - 100 in
    let name = sanitize_file_name input.file_name in
    let units = drop-All excess raw (map-safe_char input.file_name) in
    (
      uuid ++ (lit "-" ++ name),
      name,
      refl,
      append-IsNoSeparator uuid name plain units,
      refl,
      omega (arith, length-drop excess raw, length-map input.file_name),
      units,
    )
