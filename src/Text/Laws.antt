-- ===== src/Text/Laws.antt =====
-- Laws of text: equality decides, and `trim` leaves no white space at either end.
use munichat.Prelude.{◌≡◌, refl, ◌↔◌, inl, inr, true, false, some, [], ◌∷◌, ◌++◌, arith, Bool-cases}
use munichat.Text.{Text, text_eq, is_space, trim_start, strip_prefix}

text_eq→eq : (s t : Text) → text_eq s t ≡ true → s ≡ t
text_eq→eq [] [] h = refl
text_eq→eq [] (d ∷ t) h = cc
text_eq→eq (c ∷ s) [] h = cc
text_eq→eq (c ∷ s) (d ∷ t) h = ground (arith, text_eq→eq s t)

pub text_eq_refl : (s : Text) → text_eq s s ≡ true
text_eq_refl [] = refl
text_eq_refl (c ∷ s) = ground (arith, text_eq_refl s)

pub text_eq_iff : (s t : Text) → (text_eq s t ≡ true) ↔ (s ≡ t)
text_eq_iff s t = (text_eq→eq s t, λ e. ground (arith, text_eq_refl s))

-- A text that does not begin with white space is left alone by `trim_start`.
abbrev pub NoLead : Text → Type 0
NoLead [] = Unit
NoLead (c ∷ t) = is_space c ≡ false

pub trim_start-NoLead : (t : Text) → NoLead (trim_start t)
unfolding trim_start
trim_start-NoLead [] = tt
trim_start-NoLead (c ∷ t) = elim (Bool-cases (is_space c)) [
  | inl space ↦ rw space (trim_start-NoLead t)
  | inr word ↦ rw word word
]

pub trim_start_of_NoLead : (t : Text) → NoLead t → trim_start t ≡ t
unfolding trim_start
trim_start_of_NoLead [] h = refl
trim_start_of_NoLead (c ∷ t) h = rw h

pub strip_prefix-append : (p t : Text) → strip_prefix p (p ++ t) ≡ some t
unfolding strip_prefix
strip_prefix-append [] t = refl
strip_prefix-append (c ∷ p) t = ground (arith, strip_prefix-append p t)
