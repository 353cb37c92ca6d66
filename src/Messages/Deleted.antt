-- ===== src/Messages/Deleted.antt =====
-- How the rows of messages may change, and that the methods of `MessagesService` keep to it.
use munichat.Prelude.{
  ℕ, ◌≡◌, ◌≢◌, inl, inr, refl, ap, ◌∙◌, Option, none, some, [], arith, Bool-cases, Option-cases,
}
use munichat.Text.{Text, text_eq}
use munichat.Text.Laws.{text_eq_iff}
use munichat.Store.{Prisma, MessageRow, NewMessage, MessagePatch, patched, find_message}
use munichat.Server.{World, ◌>>=◌}
use munichat.Server.Keeps.{Preorder, Keeps}
use munichat.Messages.Keeps
use munichat.Messages.Service.{
  CreateMessageInput, create_row, create, update, update_row, soft_delete,
}

-- A deleted row whose content is gone.
pub record IsTombstone (r : MessageRow) : Type 0 where
  pub deleted : r.deleted_at ≢ none
  pub blank : r.content ≡ []

-- What an operation may do to a row: its origin stays, and a tombstone stays one.
pub record Later (r r' : MessageRow) : Type 0 where
  pub channel_id : r'.channel_id ≡ r.channel_id
  pub author_id : r'.author_id ≡ r.author_id
  pub created_at : r'.created_at ≡ r.created_at
  pub tombstone : IsTombstone r → IsTombstone r'

pub Later-refl : (r : MessageRow) → Later r r
Later-refl r = record { channel_id = refl; author_id = refl; created_at = refl; tombstone = λ h. h }

pub Later-trans : (r s t : MessageRow) → Later r s → Later s t → Later r t
Later-trans r s t h k = record {
  channel_id = k.channel_id ∙ h.channel_id;
  author_id = k.author_id ∙ h.author_id;
  created_at = k.created_at ∙ h.created_at;
  tombstone = λ x. k.tombstone (h.tombstone x);
}

module _ (db : Prisma) where
  -- Every message is still there, and is a later state of what it was.
  abbrev pub Evolves : db.State → db.State → Type 0
  Evolves s s' =
      (id : Text) (r : MessageRow)
      → db.find_row s id ≡ some r
      → (r' : MessageRow) × (db.find_row s' id ≡ some r') × Later r r'

  abbrev pub evolution : Preorder db.State
  evolution = record {
    Le = λ w w'. Evolves w.db w'.db;
    le_refl = λ w id r e. (r, e, Later-refl r);
    le_trans = λ u v w h k id r e.
        let (r', e', l) = h id r e in
        let (r'', e'', l') = k id r' e' in (r'', e'', Later-trans r r' r'' l l');
  }

  pub same_rows :
      (s s' : db.State) → ((id : Text) → db.find_row s' id ≡ db.find_row s id) → Evolves s s'
  same_rows s s' same id r e = (r, same id ∙ e, Later-refl r)

  -- A new message takes no identifier that is in use.
  create-Evolves :
      (n : NewMessage) (s s' : db.State) (r : MessageRow)
      → db.create_message n s ≡ some (r, s')
      → Evolves s s'
  create-Evolves n s s' r made id q e = elim (Bool-cases (text_eq r.id id)) [
    | inl same ↦
        let taken : db.find_row s r.id ≡ some q =
          ap (db.find_row s) ((text_eq_iff r.id id).0 same) ∙ e in
        absurd (cc (db.create_fresh n s s' r made, taken))
    | inr other ↦ (q, (db.create_rows n s s' r id made ∙ (rw other e)), Later-refl q)
  ]

  -- An update whose patch keeps the row that it finds to `Later` keeps every row to it.
  update-Evolves :
      (id : Text) (p : MessagePatch) (s s' : db.State)
      → db.update_message id p s ≡ some s'
      → ((r : MessageRow) → db.find_row s id ≡ some r → Later r (patched p r))
      → Evolves s s'
  update-Evolves id p s s' done later j q e = elim (Bool-cases (text_eq id j)) [
    | inl same ↦
        let found : db.find_row s id ≡ some q =
          ap (db.find_row s) ((text_eq_iff id j).0 same) ∙ e in
        (patched p q, (db.update_rows id p s s' j done ∙ (rw (same, e))), later q found)
    | inr other ↦ (q, (db.update_rows id p s s' j done ∙ (rw other e)), Later-refl q)
  ]

  create_row-Keeps : (n : NewMessage) → Keeps evolution (create_row db n)
  unfolding create_row
  create_row-Keeps n = record { at = λ w. go w (db.create_message n w.db) refl }
    where
      go :
          (w : World db.State) (o : Option (MessageRow × db.State))
          → db.create_message n w.db ≡ o
          → Evolves w.db (create_row db n w).1.db
      go w none e = rw (e, create_row) (evolution.le_refl w)
      go w (some (r, s)) e = rw (e, create_row) (create-Evolves n w.db s r e)

  pub db-update_row :
      (id : Text) (p : MessagePatch) (w : World db.State) (s : db.State)
      → db.update_message id p w.db ≡ some s
      → (update_row db id p w).1.db ≡ s
  unfolding update_row ◌>>=◌ find_message
  db-update_row id p w s e = ground arith

  db-update_row-none :
      (id : Text) (p : MessagePatch) (w : World db.State)
      → db.update_message id p w.db ≡ none
      → (update_row db id p w).1.db ≡ w.db
  unfolding update_row ◌>>=◌ find_message
  db-update_row-none id p w e = ground arith

  update_row-Evolves :
      (id : Text) (p : MessagePatch) (w : World db.State)
      → ((r : MessageRow) → db.find_row w.db id ≡ some r → Later r (patched p r))
      → Evolves w.db (update_row db id p w).1.db
  update_row-Evolves id p w later = elim (Option-cases (db.update_message id p w.db)) [
    | inl failed ↦ rw (db-update_row-none id p w failed) (evolution.le_refl w)
    | inr (s, done) ↦ rw (db-update_row id p w s done) (update-Evolves id p w.db s done later)
  ]

  -- An edit of a message that is not deleted.
  pub update-Evolves_of_live :
      (id content : Text) (w : World db.State)
      → ((r : MessageRow) → db.find_row w.db id ≡ some r → r.deleted_at ≡ none)
      → Evolves w.db (update db id content w).1.db
  unfolding update ◌>>=◌
  update-Evolves_of_live id content w live = update_row-Evolves id _ w (λ r e.
      unfold patched in
      record {
        channel_id = refl;
        author_id = refl;
        created_at = refl;
        tombstone = λ h. absurd (h.deleted (live r e));
      })

  pub soft_delete-Keeps : (id : Text) → Keeps evolution (soft_delete db id)
  unfolding soft_delete ◌>>=◌
  soft_delete-Keeps id = record {
    at = λ w. update_row-Evolves id _ w (λ r e.
        unfold patched in
        record {
          channel_id = refl;
          author_id = refl;
          created_at = refl;
          tombstone = λ h. record { deleted = cc; blank = refl };
        });
  }

  pub create-Keeps :
      (real_object_size : Text → Option ℕ) (input : CreateMessageInput)
      → Keeps evolution (create db real_object_size input)
  create-Keeps =
      Keeps.create-Keeps db evolution (λ w q a t. evolution.le_refl w)
        (λ w jobs. evolution.le_refl w) create_row-Keeps
