-- ===== src/Messages/Updates.antt =====
-- What an update returns and leaves in the database.
use munichat.Prelude.{◌≡◌, ◌∙◌, refl, some, arith}
use munichat.Text.{Text}
use munichat.Text.Laws.{text_eq_refl}
use munichat.Store.{Prisma, MessageRow, Message, MessagePatch, patched, find_message, hydrated}
use munichat.Server.{World, ok, ◌>>=◌}
use munichat.Messages.Service.{update_row}

module _ (db : Prisma) where
  find_row-update :
      (id : Text) (p : MessagePatch) (s s' : db.State) (r : MessageRow)
      → db.update_message id p s ≡ some s'
      → db.find_row s id ≡ some r
      → db.find_row s' id ≡ some (patched p r)
  find_row-update id p s s' r done e =
      db.update_rows id p s s' id done ∙ (rw (text_eq_refl id) (rw e))

  -- An update of a row that is there returns the patched row, and stores it.
  pub update_row-eq-ok :
      (id : Text) (p : MessagePatch) (w : World db.State) (r : MessageRow)
      → db.find_row w.db id ≡ some r
      → (m : Message) × (s : db.State) × (update_row db id p w ≡ (ok m, record w { db = s }))
        × (m.row ≡ patched p r)
        × (db.find_row s id ≡ some (patched p r))
  unfolding update_row ◌>>=◌ find_message hydrated
  update_row-eq-ok id p w r e =
      let (s, done) = db.update_total id p w.db r e in
      let stored = find_row-update id p w.db s r done e in
      (hydrated db s (patched p r), s, ground arith, refl, stored)
