-- ===== src/Web/Typing.antt =====
-- Who types, and who is online, in the client's store.
use munichat.Prelude.{
  ℕ, ◌≡◌, ◌<◌, refl, sym, ap, ◌∙◌, Bool, true, false, ◌&&◌, some, List, [], ◌∷◌, if◌then◌else◌, inl,
  inr, Bool-cases, All, ltb, ltb→lt, keep, is_empty, arith,
}
use munichat.Text.{Text, text_eq}
use munichat.Text.Laws.{text_eq_iff, text_eq_refl}
use munichat.Web.ChatStore.{
  ChatState, put, get, unexpired, pruned, prune_expired_typing, add_typing, typing, or_empty,
}

-- No entry left is expired, and no channel is left without an entry.
abbrev pub IsLive : ℕ → Text × List (Text × ℕ) → Type 0
IsLive now (channel, users) = All (λ e. now < e.1) users × (is_empty users ≡ false)

unexpired-All : (now : ℕ) (users : List (Text × ℕ)) → All (λ e. now < e.1) (unexpired now users)
unexpired-All now [] = tt
unexpired-All now ((u, at) ∷ users) = elim (Bool-cases (ltb now at)) [
  | inl e ↦ rw (e, keep) (ltb→lt now at e, unexpired-All now users)
  | inr e ↦ rw (e, keep) (unexpired-All now users)
]

pruned-IsLive :
    (now : ℕ) (entries : List (Text × List (Text × ℕ))) → All (IsLive now) (pruned now entries)
unfolding pruned
pruned-IsLive now [] = tt
pruned-IsLive now ((channel, users) ∷ entries) =
    elim (Bool-cases (is_empty (unexpired now users))) [
      | inl e ↦ rw (e, pruned) (pruned-IsLive now entries)
      | inr e ↦ rw (e, pruned) ((unexpired-All now users, e), pruned-IsLive now entries)
    ]

-- Pruning at a time leaves no entry of a user that has expired by then, and no channel without users.
pub prune_expired_typing-IsLive :
    (now : ℕ) (state : ChatState)
    → All (IsLive now) (prune_expired_typing now state).typing_users_by_channel
unfolding prune_expired_typing
prune_expired_typing-IsLive now state = pruned-IsLive now state.typing_users_by_channel

text_eq_sound : (s t : Text) → text_eq s t ≡ true → s ≡ t
text_eq_sound s t = (text_eq_iff s t).0

module _ {ℓ} {A : Type ℓ} where
  get-put :
      (k j : Text) (a : A) (entries : List (Text × A))
      → get k (put j a entries) ≡ (if text_eq j k then some a else get k entries)
  get-put k j a [] = refl
  get-put k j a ((i, b) ∷ entries) = elim (Bool-cases (text_eq i j)) [
    | inl same ↦
        let e : text_eq i k ≡ text_eq j k = ap (λ t. text_eq t k) (text_eq_sound i j same) in
        rw (same, put) (hidden (text_eq i k) (text_eq j k) e)
    | inr other ↦
        rw (other, put)
          (ap (λ o. if text_eq i k then some b else o) (get-put k j a entries) ∙ swapped other)
  ]
    where
      hidden :
          (p q : Bool)
          → p ≡ q
          → (if q then some a else get k entries)
            ≡ (if q then some a else if p then some b else get k entries)
      hidden true true e = refl
      hidden true false e = ground (arith, e)
      hidden false true e = refl
      hidden false false e = refl

      swapped :
          text_eq i j ≡ false
          → (if text_eq i k then some b else if text_eq j k then some a else get k entries)
            ≡ (if text_eq j k then some a else if text_eq i k then some b else get k entries)
      swapped other = elim (Bool-cases (text_eq i k)) [
        | inr e ↦ rw e refl
        | inl e ↦ elim (Bool-cases (text_eq j k)) [
          | inr f ↦ rw f refl
          | inl f ↦
              let clash : text_eq i j ≡ true =
                ap (λ t. text_eq i t) (text_eq_sound j k f ∙ sym (text_eq_sound i k e))
                ∙ text_eq_refl i in
              absurd (ground (arith, clash, other))
        ]
      ]

-- After a user starts typing in a channel, that entry has the new expiry and every other entry, of
-- another user or of another channel, is as before.
pub add_typing-typing :
    (c u : Text) (at : ℕ) (state : ChatState) (d v : Text)
    → typing (add_typing c u at state) d v
      ≡ (if text_eq c d && text_eq u v then some at else typing state d v)
unfolding add_typing typing
add_typing-typing c u at state d v = elim (Bool-cases (text_eq c d)) [
  | inl e ↦
      let same = text_eq_sound c d e in
      rw
        (get-put d c (put u at (or_empty (get c state.typing_users_by_channel)))
          state.typing_users_by_channel)
        (rw e (
          get-put v u at (or_empty (get c state.typing_users_by_channel))
          ∙ ap
              (λ t.
                if text_eq u v
                then some at
                else get v (or_empty (get t state.typing_users_by_channel)))
              same))
  | inr e ↦
      rw
        (get-put d c (put u at (or_empty (get c state.typing_users_by_channel)))
          state.typing_users_by_channel)
        (rw e refl)
]
