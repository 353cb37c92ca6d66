-- ===== src/Web/Shown.antt =====
-- What the list of messages shows after an event.
use munichat.Prelude.{
  ◌≡◌, ◌≢◌, subst, refl, sym, ap, ◌∙◌, Option, none, some, List, [], ◌∷◌, ◌++◌, map, inl, inr,
  Bool-cases,
}
use mathlib.Core.List.{append_assoc}
use munichat.Text.{text_eq}
use munichat.Text.Laws.{text_eq_iff}
use munichat.Shared.{MessageDto}
use munichat.Web.Caches.{
  Page, InfiniteData, append_message_to_cache, update_message_in_cache, replaced_by, page_with,
  in_order, shown,
}

-- A message that arrives is shown last, behind all that were shown, when the channel is loaded.
pub append_message_to_cache-shown :
    (message : MessageDto) (d : InfiniteData) (first : Page) (rest : List Page)
    → d.pages ≡ first ∷ rest
    → shown (append_message_to_cache message (some d)) ≡ shown (some d) ++ message ∷ []
unfolding append_message_to_cache shown
append_message_to_cache-shown message d first rest e =
    rw (e, append_message_to_cache)
      (sym (append_assoc (in_order rest) first.messages (message ∷ [])))

map-append :
    (f : MessageDto → MessageDto) (xs ys : List MessageDto)
    → map f (xs ++ ys) ≡ map f xs ++ map f ys
map-append f [] ys = refl
map-append f (x ∷ xs) ys = ap (λ t. f x ∷ t) (map-append f xs ys)

in_order-page_with :
    (message : MessageDto) (pages : List Page)
    → in_order (map (page_with message) pages) ≡ map (replaced_by message) (in_order pages)
in_order-page_with message [] = refl
in_order-page_with message (page ∷ pages) =
    ap (λ t. t ++ map (replaced_by message) page.messages) (in_order-page_with message pages)
    ∙ sym (map-append (replaced_by message) (in_order pages) page.messages)

replaced_by-id : (message existing : MessageDto) → (replaced_by message existing).id ≡ existing.id
replaced_by-id message existing = elim (Bool-cases (text_eq existing.id message.id)) [
  | inl e ↦ rw e (sym ((text_eq_iff existing.id message.id).0 e))
  | inr e ↦ rw e refl
]

ids_kept :
    (message : MessageDto) (ms : List MessageDto)
    → map (λ (m : MessageDto). m.id) (map (replaced_by message) ms)
      ≡ map (λ (m : MessageDto). m.id) ms
ids_kept message [] = refl
ids_kept message (m ∷ ms) = rw (replaced_by-id message m) (rw (ids_kept message ms) refl)

-- What becomes of a message that was shown: the new version where it has the identifier of that, and
-- itself otherwise.
pub data IsUpdate (message : MessageDto) : MessageDto → MessageDto → Type 0 where
  renewed : {existing : MessageDto} → existing.id ≡ message.id → IsUpdate message existing message
  untouched :
      {existing : MessageDto} → existing.id ≢ message.id → IsUpdate message existing existing

-- The same messages in the same places, each with its update.
pub data AreUpdated (message : MessageDto) : List MessageDto → List MessageDto → Type 0 where
  none_shown : AreUpdated message [] []
  next_shown :
      {m m' : MessageDto} {ms ms' : List MessageDto}
      → IsUpdate message m m'
      → AreUpdated message ms ms'
      → AreUpdated message (m ∷ ms) (m' ∷ ms')

replaced_by-IsUpdate :
    (message existing : MessageDto) → IsUpdate message existing (replaced_by message existing)
replaced_by-IsUpdate message existing = elim (Bool-cases (text_eq existing.id message.id)) [
  | inl e ↦ rw e (renewed ((text_eq_iff existing.id message.id).0 e))
  | inr e ↦ rw e (untouched (λ same. cc ((text_eq_iff existing.id message.id).1 same)))
]

map-AreUpdated :
    (message : MessageDto) (ms : List MessageDto)
    → AreUpdated message ms (map (replaced_by message) ms)
map-AreUpdated message [] = none_shown
map-AreUpdated message (m ∷ ms) =
    next_shown (replaced_by-IsUpdate message m) (map-AreUpdated message ms)

-- A message that was changed is replaced on whatever page it stands: as many messages are shown, in the
-- same order and with the same ids, each of them the new version where it has that id and untouched
-- otherwise.
pub update_message_in_cache-shown :
    (message : MessageDto) (d : Option InfiniteData)
    → AreUpdated message (shown d) (shown (update_message_in_cache message d))
      × (map (λ (m : MessageDto). m.id) (shown (update_message_in_cache message d))
          ≡ map (λ (m : MessageDto). m.id) (shown d))
unfolding update_message_in_cache shown
update_message_in_cache-shown message none = (none_shown, refl)
update_message_in_cache-shown message (some d) =
    let e = in_order-page_with message d.pages in
    (
      subst (AreUpdated message (in_order d.pages)) (sym e)
          (map-AreUpdated message (in_order d.pages)),
      ap (map (λ (m : MessageDto). m.id)) e ∙ ids_kept message (in_order d.pages),
    )
