-- ===== src/Messages/Creation.antt =====
-- What a creation asks of the attachments and of GLPI before it stores a message.
use Prim.Native.String.{String}
use munichat.Prelude.{
  ℕ, ◌≡◌, ap, ◌∙◌, false, Bool-cases, Option-cases, inl, inr, Option, none, some, List, [], ◌∷◌,
  arith, All, ◌==◌, ==_iff, true,
}
use munichat.Text.{Text, lit}
use munichat.Shared.{PendingAttachment}
use munichat.Store.{Prisma, Message}
use munichat.Server.{
  World, Reply, Result, ok, unreachable, response, Body, session, errors, not_json, ◌>>=◌,
}
use munichat.Glpi.{is_ok}
use munichat.Messages.{
  CreateMessageInput, CreateMessageResult, created, error, check_attachments, create,
  ticket_description,
}

-- The attachments are checked: the storage has an object of the stated size under each key.
check_attachments-eq-none :
    (f : Text → Option ℕ) (attachments : List PendingAttachment)
    → check_attachments f attachments ≡ none
    → All (λ a. f a.object_key ≡ some a.size_bytes) attachments
unfolding check_attachments
check_attachments-eq-none f [] e = tt
check_attachments-eq-none f (a ∷ rest) e = elim (Option-cases (f a.object_key)) [
  | inl missing ↦ absurd (ground (arith, rw (missing, check_attachments) at e))
  | inr (size, found) ↦ elim (Bool-cases (size == a.size_bytes)) [
    | inr other ↦ absurd (ground (arith, rw other at (rw (found, check_attachments) at e)))
    | inl same ↦ (
      found ∙ ap some ((==_iff size a.size_bytes).0 same),
      check_attachments-eq-none f rest (rw same at (rw (found, check_attachments) at e)),
    )
  ]
]

error-ne-created :
    {W : Type 0} {w w' : W} {problem : String} {m : Message}
    → ◌≡◌ {A = Result CreateMessageResult × W} (ok (error problem), w) (ok (created m), w')
    → ⊥
error-ne-created e = ground (arith, e)

-- A request for a session that gives none: it is not answered, answered with an error status, or with
-- a body that is not JSON.
pub data GivesNoSession : List Reply → Type 0 where
  no_answer : (rest : List Reply) → GivesNoSession (unreachable ∷ rest)
  refused :
      (status : ℕ) (body : Body) (rest : List Reply)
      → is_ok status ≡ false
      → GivesNoSession (response status body ∷ rest)
  no_json : (status : ℕ) (rest : List Reply) → GivesNoSession (response status not_json ∷ rest)

-- The ways in which GLPI cannot be reached, by the token that is cached and the answers to come: no
-- session is given, or the request for the ticket is not answered; the same where the token that is
-- cached is answered with the error of an invalid one.
pub data IsOut : Option Text → List Reply → Type 0 where
  no_session : {rs : List Reply} → GivesNoSession rs → IsOut none rs
  lost : (t : Text) (rest : List Reply) → IsOut (some t) (unreachable ∷ rest)
  lost_in_session :
      (t : Text) (status : ℕ) (rest : List Reply)
      → is_ok status ≡ true
      → IsOut none (response status (session t) ∷ unreachable ∷ rest)
  not_renewed :
      (t : Text) (codes : List Text) {rs : List Reply}
      → GivesNoSession rs
      → IsOut (some t) (response 401 (errors (lit "ERROR_SESSION_TOKEN_INVALID" ∷ codes)) ∷ rs)
  lost_after_renewal :
      (t : Text) (codes : List Text) (fresh : Text) (status : ℕ) (rest : List Reply)
      → is_ok status ≡ true
      → IsOut (some t) (
          response 401 (errors (lit "ERROR_SESSION_TOKEN_INVALID" ∷ codes))
          ∷ response status (session fresh)
          ∷ unreachable
          ∷ rest)

-- The answer that tells the sender, where nothing was stored, emitted or queued.
pub record IsRefused {S : Type 0} (w : World S) (r : Result CreateMessageResult × World S)
    : Type 0 where
  pub told : r.0 ≡ ok (error "GLPI is unreachable. Please try again later.")
  pub stored : r.1.db ≡ w.db
  pub emitted : r.1.emitted ≡ w.emitted
  pub queued : r.1.jobs ≡ w.jobs

module _ (db : Prisma) (real_object_size : Text → Option ℕ) where
  -- A message that is no ticket is created only where the object storage has, under the key of each
  -- attachment, an object of the size that was stated.
  pub create_checked :
      (input : CreateMessageInput) (w w' : World db.State) (m : Message)
      → ticket_description input.content ≡ none
      → create db real_object_size input w ≡ (ok (created m), w')
      → All (λ a. real_object_size a.object_key ≡ some a.size_bytes) input.attachments
  unfolding create ◌>>=◌
  create_checked input w w' m plain e =
      elim (Option-cases (check_attachments real_object_size input.attachments)) [
        | inl fine ↦ check_attachments-eq-none real_object_size input.attachments fine
        | inr (problem, bad) ↦ absurd (error-ne-created (rw bad at (rw (plain, create) at e)))
      ]
