-- ===== src/Installer/Given.antt =====
-- What the tests of `validate` in apps/enterprise-installer/src/lib/config.ts find in a text.
use munichat.Prelude.{
  ℕ, ◌≡◌, ◌≢◌, subst, ◌⊎◌, ◌↔◌, inl, inr, refl, ap, ◌∙◌, Bool, true, false, not, ◌&&◌, ◌||◌, ◌==◌,
  [], ◌∷◌, ◌++◌, reverse, is_empty, All, Bool-cases, arith, if◌then◌else◌, ==_iff,
}
use mathlib.Core.List.{reverse-cons}
use munichat.Text.{Text, is_space, trim_start, trim}
use munichat.Installer.Validate.{is_blank, after_at, has_inner_stop, is_email, all_address_units}

-- A text with something else than white space.
pub data IsGiven : Text → Type 0 where
  here : {c : ℕ} {t : Text} → is_space c ≡ false → IsGiven (c ∷ t)
  later : {c : ℕ} {t : Text} → IsGiven t → IsGiven (c ∷ t)

abbrev IsSpaces : Text → Type 0
IsSpaces t = All (λ c. is_space c ≡ true) t

spaces_not_given : {t : Text} → IsGiven t → IsSpaces t → ⊥
spaces_not_given (here e) h = cc (h.0)
spaces_not_given (later g) h = spaces_not_given g (h.1)

-- A text is white space, which `trim_start` drops, or what is left begins with something else.
trim_start-cases :
    (t : Text)
    → ((trim_start t ≡ []) × IsSpaces t)
      ⊎ ((c : ℕ) × (u : Text) × (trim_start t ≡ c ∷ u) × (is_space c ≡ false) × IsGiven t)
unfolding trim_start
trim_start-cases [] = inl (refl, tt)
trim_start-cases (c ∷ t) = elim (Bool-cases (is_space c)) [
  | inr e ↦ inr (c, t, rw e refl, e, here e)
  | inl e ↦ elim (trim_start-cases t) [
    | inl (nothing, spaces) ↦ inl (rw e nothing, (e, spaces))
    | inr (d, u, left, visible, given) ↦ inr (d, u, rw e left, visible, later given)
  ]
]

trim_start-last :
    (t : Text) (c : ℕ)
    → is_space c ≡ false
    → (d : ℕ) × (u : Text) × (trim_start (t ++ c ∷ []) ≡ d ∷ u)
unfolding trim_start
trim_start-last [] c e = (c, [], rw e refl)
trim_start-last (b ∷ t) c e = elim (Bool-cases (is_space b)) [
  | inl s ↦ let (d, u, h) = trim_start-last t c e in (d, u, rw s h)
  | inr s ↦ (b, t ++ c ∷ [], rw s refl)
]

last_nonempty : (t : Text) (c : ℕ) → is_empty (t ++ c ∷ []) ≡ false
last_nonempty [] c = refl
last_nonempty (b ∷ t) c = refl

blank_of_spaces : (t : Text) → trim_start t ≡ [] → is_blank t ≡ true
unfolding is_blank trim
blank_of_spaces t e = rw e refl

not_blank :
    (t : Text) (c : ℕ) (u : Text) → trim_start t ≡ c ∷ u → is_space c ≡ false → is_blank t ≡ false
unfolding is_blank trim
not_blank t c u e visible =
    let (d, v, h) = trim_start-last (reverse u) c visible in
    ap (λ x. is_empty (reverse (trim_start (reverse x)))) e
    ∙ (ap (λ x. is_empty (reverse (trim_start x))) (reverse-cons c u)
        ∙ (ap (λ x. is_empty (reverse x)) h
            ∙ (ap is_empty (reverse-cons d v) ∙ last_nonempty (reverse v) d)))

-- `!String(value).trim()` is false just of a text with something else than white space.
pub is_blank_iff : (t : Text) → (is_blank t ≡ false) ↔ IsGiven t
is_blank_iff t = elim (trim_start-cases t) [
  | inl (nothing, spaces) ↦
      (λ e. absurd (cc (blank_of_spaces t nothing)), λ g. absurd (spaces_not_given g spaces))
  | inr (c, u, left, visible, given) ↦ (λ e. given, λ g. not_blank t c u left visible)
]

-- What an address may hold around its `@`.
abbrev pub IsAddressUnit : ℕ → Type 0
IsAddressUnit c = (c ≢ 64) × (is_space c ≡ false)

-- An address: a name, `@`, and a domain with a full stop between two of its parts.
pub record IsEmail (value : Text) : Type 0 where
  pub name : Text
  pub host : Text
  pub top : Text
  pub parts : value ≡ name ++ 64 ∷ (host ++ 46 ∷ top)
  pub name_given : name ≢ []
  pub host_given : host ≢ []
  pub top_given : top ≢ []
  pub name_units : All IsAddressUnit name
  pub domain_units : All IsAddressUnit (host ++ 46 ∷ top)

units_iff : (t : Text) → (all_address_units t ≡ true) ↔ All IsAddressUnit t
units_iff [] = (λ e. tt, λ h. refl)
units_iff (c ∷ t) =
    let more = units_iff t in
    (
      λ e. let (first, rest) = split c (all_address_units t) e in (first, more.0 rest),
      λ h. joined c (all_address_units t) (h.0) (more.1 (h.1)),
    )
  where
    split :
        (c : ℕ) (b : Bool)
        → (not (c == 64 || is_space c) && b) ≡ true
        → IsAddressUnit c × (b ≡ true)
    split c b e = (((λ same. ground (arith, e, same)), ground (arith, e)), ground (arith, e))

    joined :
        (c : ℕ) (b : Bool) → IsAddressUnit c → b ≡ true → (not (c == 64 || is_space c) && b) ≡ true
    joined c b h k = elim (Bool-cases (c == 64)) [
      | inl same ↦ absurd (h.0 ((==_iff c 64).0 same))
      | inr other ↦ rw other (rw (h.1) k)
    ]

stop_found :
    (d : Text)
    → has_inner_stop d ≡ true
    → (host top : Text) × (d ≡ host ++ 46 ∷ top) × (host ≢ []) × (top ≢ [])
unfolding has_inner_stop
stop_found [] e = absurd (cc e)
stop_found (a ∷ []) e = absurd (cc e)
stop_found (a ∷ b ∷ []) e = absurd (cc e)
stop_found (a ∷ b ∷ c ∷ t) e = elim (Bool-cases (b == 46)) [
  | inl stop ↦
      (a ∷ [], c ∷ t, ap (λ x. a ∷ x ∷ c ∷ t) ((==_iff b 46).0 stop), (λ h. cc h), (λ h. cc h))
  | inr other ↦
      let (host, top, parts, given, more) =
        stop_found (b ∷ c ∷ t) (rw (other, has_inner_stop) at e) in
      (a ∷ host, top, ap (λ x. a ∷ x) parts, (λ h. cc h), more)
]

or_right : (x y : Bool) → y ≡ true → (x || y) ≡ true
or_right true y e = refl
or_right false y e = e

stop_there :
    (a : ℕ) (host : Text) (c : ℕ) (top : Text) → has_inner_stop (a ∷ (host ++ 46 ∷ c ∷ top)) ≡ true
unfolding has_inner_stop
stop_there a [] c top = refl
stop_there a (b ∷ []) c top = or_right (b == 46) true refl
stop_there a (b ∷ d ∷ host) c top = or_right (b == 46) _ (stop_there b (d ∷ host) c top)

stop_between : (host top : Text) → host ≢ [] → top ≢ [] → has_inner_stop (host ++ 46 ∷ top) ≡ true
stop_between [] top h k = absurd (h refl)
stop_between (a ∷ host) [] h k = absurd (k refl)
stop_between (a ∷ host) (c ∷ top) h k = stop_there a host c top

at_found :
    (seen : Bool) (value : Text) (a : ℕ) (d : Text)
    → after_at seen value ≡ a ∷ d
    → (name : Text) × (value ≡ name ++ 64 ∷ a ∷ d)
      × All IsAddressUnit name
      × ((seen ≡ true) ⊎ (name ≢ []))
unfolding after_at
at_found seen [] a d e = absurd (cc e)
at_found seen (c ∷ t) a d e = elim (Bool-cases (c == 64)) [
  | inl same ↦ first seen ((==_iff c 64).0 same) (rw (same, after_at) at e)
  | inr other ↦ elim (Bool-cases (is_space c)) [
    | inl space ↦ absurd (cc (rw space at (rw (other, after_at) at e)))
    | inr visible ↦
        let (name, parts, units, given) =
          at_found true t a d (rw visible at (rw (other, after_at) at e)) in
        (
          c ∷ name,
          ap (λ x. c ∷ x) parts,
          (((λ same. ground (arith, other, same)), visible), units),
          inr (λ h. cc h),
        )
  ]
]
  where
    first :
        (b : Bool)
        → c ≡ 64
        → (if b then t else []) ≡ a ∷ d
        → (name : Text) × (c ∷ t ≡ name ++ 64 ∷ a ∷ d)
          × All IsAddressUnit name
          × ((b ≡ true) ⊎ (name ≢ []))
    first true same h = ([], ap (λ x. x ∷ t) same ∙ ap (λ x. 64 ∷ x) h, tt, inl refl)
    first false same h = absurd (cc h)

at_there :
    (seen : Bool) (name d : Text)
    → All IsAddressUnit name
    → (seen ≡ true) ⊎ (name ≢ [])
    → after_at seen (name ++ 64 ∷ d) ≡ d
unfolding after_at
at_there seen [] d h (inl e) = rw e refl
at_there seen [] d h (inr e) = absurd (e refl)
at_there seen (c ∷ name) d h k = elim (Bool-cases (c == 64)) [
  | inl same ↦ absurd (h.0.0 ((==_iff c 64).0 same))
  | inr other ↦ rw (other, after_at) (rw (h.0.1) (at_there true name d (h.1) (inl refl)))
]

-- The expression of `validate` matches just the addresses.
pub is_email_iff : (value : Text) → (is_email value ≡ true) ↔ IsEmail value
unfolding is_email
is_email_iff value = (λ e. found (after_at false value) refl e, there)
  where
    and_inv : (a b : Bool) → (a && b) ≡ true → (a ≡ true) × (b ≡ true)
    and_inv true b e = (refl, e)
    and_inv false b e = absurd (cc e)

    found :
        (domain : Text)
        → after_at false value ≡ domain
        → (has_inner_stop domain && all_address_units domain) ≡ true
        → IsEmail value
    found [] at_end e = absurd (cc ((and_inv (has_inner_stop []) true e).0))
    found (a ∷ d) at_domain e =
        let (stop, units) = and_inv (has_inner_stop (a ∷ d)) (all_address_units (a ∷ d)) e in
        let (host, top, parts, host_given, top_given) = stop_found (a ∷ d) stop in
        let (name, whole, name_units, given) = at_found false value a d at_domain in
        record {
          name = name;
          host = host;
          top = top;
          parts = whole ∙ ap (λ x. name ++ 64 ∷ x) parts;
          name_given = elim given [ inl e ↦ absurd (cc e) | inr g ↦ g ];
          host_given = host_given;
          top_given = top_given;
          name_units = name_units;
          domain_units = subst (All IsAddressUnit) parts ((units_iff (a ∷ d)).0 units);
        }

    there :
        IsEmail value
        → (has_inner_stop (after_at false value) && all_address_units (after_at false value)) ≡ true
    there r =
        let domain : after_at false value ≡ r.host ++ 46 ∷ r.top =
          ap (after_at false) r.parts
          ∙ at_there false r.name (r.host ++ 46 ∷ r.top) r.name_units (inr r.name_given) in
        rw domain (
          rw (stop_between r.host r.top r.host_given r.top_given)
            ((units_iff (r.host ++ 46 ∷ r.top)).1 r.domain_units))
