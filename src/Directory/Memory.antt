-- ===== src/Directory/Memory.antt =====
-- The synchronisation's tables in memory: they keep what the client documents, and the tests run on
-- them.
use munichat.Prelude.{◌≡◌, refl, sym, ap, ◌∙◌, Bool, not, ◌&&◌, ◌||◌, Option, none, some, [], ◌∷◌}
use munichat.Text.{Text, text_eq}
use munichat.Directory.ChannelSync.{NewChannel, Upsert, upserted, failed, is_left, SyncTable}

-- Channels that are identified by their group; the empty identifier is the one that is not linked.
abbrev pub group_of : (Text → Text → Bool) → Text → Option Text
group_of s [] = none
group_of s (c ∷ t) = some (c ∷ t)

abbrev pub upsert_channel : NewChannel → (Text → Text → Bool) → Upsert (Text → Text → Bool)
upsert_channel n s = elim n.ad_group_dn [ [] ↦ failed | c ∷ t ↦ upserted (c ∷ t) s ]

pub group_of_inv : (s : Text → Text → Bool) (a dn : Text) → group_of s a ≡ some dn → a ≡ dn
group_of_inv s [] dn e = absurd (cc e)
group_of_inv s (c ∷ t) dn e = cc

pub upsert_inv :
    (dn : Text) (s s' : Text → Text → Bool) (id : Text)
    → ◌≡◌ {A = Upsert (Text → Text → Bool)}
        (elim dn [ [] ↦ failed | c ∷ t ↦ upserted (c ∷ t) s ])
        (upserted id s')
    → (group_of s' id ≡ some dn) × (s ≡ s')
upsert_inv [] s s' id e = absurd (cc e)
upsert_inv (c ∷ t) s s' id e =
    let same : c ∷ t ≡ id = cc in let kept : s ≡ s' = cc in (ap (group_of s') (sym same), kept)

abbrev pub with_member : Text → Text → (Text → Text → Bool) → Text → Text → Bool
with_member user channel s u c = text_eq u user && text_eq c channel || s u c

abbrev pub without_left : Text → Option Text → (Text → Text → Bool) → Text → Text → Bool
without_left user kept s u c = s u c && not (text_eq u user && is_left kept (group_of s c))

pub some-eq_inv {ℓ} : {A : Type ℓ} {a b : A} → some a ≡ some b → a ≡ b
some-eq_inv e = cc

abbrev pub table : SyncTable
table = record {
  State = Text → Text → Bool;
  is_member = λ s u c. s u c;
  group_of = group_of;
  upsert_channel = upsert_channel;
  find_by_group = group_of;
  create_member = λ user channel role s. some (with_member user channel s);
  delete_left = λ user kept s. some (without_left user kept s);
  group_unique = λ s dn a b p q. group_of_inv s a dn p ∙ sym (group_of_inv s b dn q);
  find_by_group_found = λ s dn id e.
      ap (group_of s) (sym (group_of_inv s dn id e)) ∙ (e ∙ ap some (sym (group_of_inv s dn id e)));
  upsert_group = λ n s s' id e. (upsert_inv n.ad_group_dn s s' id e).0;
  upsert_members = λ n s s' id u c e. ap (λ m. m u c) (sym (upsert_inv n.ad_group_dn s s' id e).1);
  create_member_members = λ user channel role s s' u c e. ap (λ m. m u c) (sym (some-eq_inv e));
  create_member_groups = λ user channel role s s' c e. refl;
  delete_left_members = λ user kept s s' u c e. ap (λ m. m u c) (sym (some-eq_inv e));
  delete_left_groups = λ user kept s s' c e. refl;
}
