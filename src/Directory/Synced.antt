-- ===== src/Directory/Synced.antt =====
-- The memberships that the directory calls for, and that the synchronisation leaves them.
use munichat.Prelude.{
  ◌≡◌, refl, sym, ap, ◌∙◌, subst, Bool, true, false, not, ◌&&◌, ◌||◌, Option, none, some,
  Option-cases, Bool-cases, inl, inr, arith, if◌then◌else◌,
}
use munichat.Text.{Text, text_eq}
use munichat.Text.Laws.{text_eq_refl, text_eq_iff}
use munichat.Shared.{MemberRole}
use munichat.Directory.Names.{Department}
use munichat.Directory.ChannelSync.{
  NewChannel, Upsert, upserted, duplicate, failed, is_left, SyncTable, kept_group, ensured,
  ensure_channel, join_department, sync_channels_for_user,
}

-- Whether a person with this department belongs in a channel with this group: in a channel that is
-- not linked to the directory as before, and in a linked one where it is the department's.
unfoldable pub belongs : Option Text → Option Text → Bool → Bool
belongs kept none before = before
belongs none (some group) before = false
belongs (some dn) (some group) before = text_eq group dn

-- Whether a channel with this group is the department's.
abbrev is_kept : Option Text → Option Text → Bool
is_kept kept none = false
is_kept none (some group) = false
is_kept (some dn) (some group) = text_eq group dn

some-eq_inv {ℓ} : {A : Type ℓ} {a b : A} → some a ≡ some b → a ≡ b
some-eq_inv e = cc

true-ne-false : true ≡ false → ⊥
true-ne-false e = cc

-- A membership after the two halves of the synchronisation.
settled :
    (kept group : Option Text) (own before : Bool)
    → ((own && is_kept kept group || before) && not (own && is_left kept group))
      ≡ (if own then belongs kept group before else before)
unfolding belongs
settled kept none own before = ground (arith)
settled none (some group) own before = ground (arith)
settled (some dn) (some group) own before = ground (arith)

module _ (table : SyncTable) (to_lower_case normalize_nfd : Text → Text) where
  ensured-group :
      (dn : Text) (s s' : table.State) (n : NewChannel) (id : Text)
      → n.ad_group_dn ≡ dn
      → ensured table to_lower_case normalize_nfd dn s (table.upsert_channel n s) ≡ some (id, s')
      → (table.group_of s' id ≡ some dn)
        × ((u c : Text) → table.is_member s' u c ≡ table.is_member s u c)
  unfolding ensured
  ensured-group dn s s' n id same = go (table.upsert_channel n s) refl
    where
      go :
          (r : Upsert table.State)
          → table.upsert_channel n s ≡ r
          → ensured table to_lower_case normalize_nfd dn s r ≡ some (id, s')
          → (table.group_of s' id ≡ some dn)
            × ((u c : Text) → table.is_member s' u c ≡ table.is_member s u c)
      go (upserted i t) done e =
          subst
            (λ (p : Text × table.State).
              (table.group_of p.1 p.0 ≡ some dn)
              × ((u c : Text) → table.is_member p.1 u c ≡ table.is_member s u c))
            (some-eq_inv e)
            (
              table.upsert_group n s t i done ∙ ap some same,
              λ u c. table.upsert_members n s t i u c done,
            )
      go duplicate done e = elim (Option-cases (table.find_by_group s dn)) [
        | inl missing ↦ absurd (cc (rw (missing, ensured) at e))
        | inr (i, found) ↦
            subst
              (λ (p : Text × table.State).
                (table.group_of p.1 p.0 ≡ some dn)
                × ((u c : Text) → table.is_member p.1 u c ≡ table.is_member s u c))
              (some-eq_inv (rw (found, ensured) at e))
              (table.find_by_group_found s dn i found, λ u c. refl)
      ]
      go failed done e = absurd (cc e)

  -- Among the channels, that of a department is the one with its group.
  is_channel-is_kept :
      (s : table.State) (dn channel c : Text)
      → table.group_of s channel ≡ some dn
      → text_eq c channel ≡ is_kept (some dn) (table.group_of s c)
  is_channel-is_kept s dn channel c linked = elim (Bool-cases (text_eq c channel)) [
    | inl same ↦
        same
        ∙ sym (
            ap (λ x. is_kept (some dn) (table.group_of s x)) ((text_eq_iff c channel).0 same)
            ∙ (ap (is_kept (some dn)) linked ∙ text_eq_refl dn))
    | inr other ↦ elim (Option-cases (table.group_of s c)) [
      | inl unlinked ↦ other ∙ sym (ap (is_kept (some dn)) unlinked)
      | inr (group, found) ↦ elim (Bool-cases (text_eq group dn)) [
        | inr differs ↦ other ∙ sym (ap (is_kept (some dn)) found ∙ differs)
        | inl matches ↦
            let same =
              table.group_unique s dn c channel (found ∙ ap some ((text_eq_iff group dn).0 matches))
                linked in
            absurd (true-ne-false (sym ((text_eq_iff c channel).1 same) ∙ other))
      ]
    ]
  ]

  join-members :
      (user : Text) (department : Option Department) (s t : table.State)
      → join_department table to_lower_case normalize_nfd user department s ≡ some t
      → (u c : Text)
      → table.is_member t u c ≡ (
          text_eq u user && is_kept (kept_group department) (table.group_of t c)
          || table.is_member s u c)
  unfolding join_department ensure_channel
  join-members user none s t e u c =
      ap (λ v. table.is_member v u c) (sym (some-eq_inv e)) ∙ ground (arith)
  join-members user (some department) s t e u c =
      elim (Option-cases (ensure_channel table to_lower_case normalize_nfd department s)) [
        | inl refused ↦ absurd (cc (rw (refused, join_department) at e))
        | inr ((channel, v), made) ↦
            let (linked, kept) = ensured-group department.dn s v _ channel refl made in
            let joined = rw (made, join_department) at e in
            let known =
              table.create_member_groups user channel MemberRole.member v t channel joined
              ∙ linked in
            table.create_member_members user channel MemberRole.member v t u c joined
            ∙ rw (is_channel-is_kept t department.dn channel c known, kept u c) refl
      ]

  -- A login moves a person between the channels of departments and touches nothing else: after the
  -- synchronisation a person is a member of a channel that is linked to the directory just where it is
  -- their department's, of any other channel as before, and no one else's memberships have changed.
  pub sync_channels_for_user-belongs :
      (user : Text) (department : Option Department) (s s' : table.State)
      → sync_channels_for_user table to_lower_case normalize_nfd user department s ≡ some s'
      → (u c : Text)
      → table.is_member s' u c ≡ (
          if text_eq u user
          then belongs (kept_group department) (table.group_of s' c) (table.is_member s u c)
          else table.is_member s u c)
  unfolding sync_channels_for_user
  sync_channels_for_user-belongs user department s s' e u c =
      elim (Option-cases (join_department table to_lower_case normalize_nfd user department s)) [
        | inl refused ↦ absurd (cc (rw (refused, sync_channels_for_user) at e))
        | inr (t, joined) ↦
            let left = rw (joined, sync_channels_for_user) at e in
            table.delete_left_members user (kept_group department) t s' u c left
            ∙ (ap
                  (λ b.
                    b
                    && not (text_eq u user && is_left (kept_group department) (table.group_of t c)))
                  (join-members user department s t joined u c)
                ∙ (settled (kept_group department) (table.group_of t c) (text_eq u user)
                      (table.is_member s u c)
                    ∙ ap
                        (λ g.
                          if text_eq u user
                          then belongs (kept_group department) g (table.is_member s u c)
                          else table.is_member s u c)
                        (sym (table.delete_left_groups user (kept_group department) t s' c left))))
      ]
