-- ===== src/Webhooks/Statuses.antt =====
-- What the webhook of GLPI stores.
use munichat.Prelude.{
  ℕ, ◌≡◌, refl, sym, ap, ◌∙◌, subst, Bool, true, false, Option, none, some, List, if◌then◌else◌,
  arith,
}
use munichat.Text.{Text, lit}
use munichat.Store.{Prisma, Message, TicketRefRow}
use munichat.Server.{
  World, Result, ok, thrown, Failure, http, glpi_unavailable, rejected, Action, pure, throw, reads,
  ◌>>=◌, bind-eq-ok,
}
use munichat.Server.Keeps.{Preorder, Keeps, Keeps-pure, Keeps-throw, keeps_rules}
use munichat.Glpi.{get_ticket}
use munichat.Glpi.Keeps.{get_ticket-Keeps}
use munichat.Messages.{Env}
use munichat.Webhooks.Tables.{TicketTable}
use munichat.Webhooks.Requests.{Crypto, verify_signature, signed, after_prefix, differs}
use munichat.Webhooks.GlpiTickets.{
  TicketRequest, required, ask_glpi, as_gateway_error, checked_ticket, store_status,
  store_status_at, broadcast_ticket, handle_ticket_webhook,
}
use munichat.Webhooks.Stored.{writes_then-eq-ok, get_then-db}

ok-ne-thrown : {A : Type 0} {a : A} {failure : Failure} → ok a ≡ thrown failure → ⊥
ok-ne-thrown e = ground (arith, e)

module _ {S : Type 0} where
  -- The database and the emissions are as they were.
  abbrev pub IsUntouched : World S → World S → Type 0
  IsUntouched w w' = (w'.db ≡ w.db) × (w'.emitted ≡ w.emitted)

  abbrev untouched : Preorder S
  untouched = record {
    Le = IsUntouched;
    le_refl = λ w. (refl, refl);
    le_trans = λ u v w p q. (q.0 ∙ p.0, q.1 ∙ p.1);
  }

  required-Keeps : {A : Type 0} (f : Failure) (o : Option A) → Keeps untouched (required f o)
  required-Keeps f none = Keeps-throw untouched f
  required-Keeps f (some a) = Keeps-pure untouched a

  ask_glpi-Keeps : (id : ℕ) → Keeps untouched (ask_glpi id)
  unfolding ask_glpi
  ask_glpi-Keeps id = record { at = (get_ticket-Keeps untouched (λ w q r t. (refl, refl)) id).at }

  required-eq-ok :
      {A : Type 0} (f : Failure) (o : Option A) (a : A) (w w' : World S)
      → required f o w ≡ (ok a, w')
      → (o ≡ some a) × (w ≡ w')
  unfolding ◌>>=◌
  required-eq-ok f none a w w' e = absurd (ground (arith, e))
  required-eq-ok f (some b) a w w' e = (cc, cc)

  reads-eq-ok :
      {A : Type 0} (f : World S → A) (a : A) (w w' : World S)
      → reads f w ≡ (ok a, w')
      → (f w ≡ a) × (w ≡ w')
  unfolding ◌>>=◌
  reads-eq-ok f a w w' e = (cc, cc)

  pure-eq-ok : {A : Type 0} (a b : A) (w w' : World S) → pure a w ≡ (ok b, w') → (a ≡ b) × (w ≡ w')
  unfolding ◌>>=◌
  pure-eq-ok a b w w' e = (cc, cc)

  verify_signature_same :
      (crypto : Crypto) (secret header : Option Text) (raw_body : Option (List ℕ)) (w : World S)
      → (verify_signature crypto secret header raw_body w).1 ≡ w
  unfolding verify_signature ◌>>=◌
  verify_signature_same crypto none header raw_body w = refl
  verify_signature_same crypto (some secret) header raw_body w =
      presented (signed (after_prefix (lit "sha256=") header) raw_body)
    where
      compared :
          (b : Bool)
          → ((if b then throw (http 401 "Invalid signature") else pure {A = Unit {0}} tt) w).1 ≡ w
      compared true = refl
      compared false = refl

      presented :
          (o : Option (Text × List ℕ))
          → ((elim o as (λ _. Action S (Unit {0})) [
            | none ↦ throw (http 401 "Missing signature")
            | some (provided, bytes) ↦
                if differs
                  (crypto.from_hex (crypto.hmac_sha256_hex secret bytes))
                  (crypto.from_hex provided)
                then throw (http 401 "Invalid signature")
                else pure tt
          ])
              w).1
            ≡ w
      presented none = refl
      presented (some (t, bytes)) =
          compared
            (differs (crypto.from_hex (crypto.hmac_sha256_hex secret bytes)) (crypto.from_hex t))

  verify-Keeps :
      (crypto : Crypto) (secret header : Option Text) (raw_body : Option (List ℕ))
      → Keeps untouched (verify_signature crypto secret header raw_body)
  verify-Keeps crypto secret header raw_body = record {
    at = λ w.
        subst (IsUntouched w) (sym (verify_signature_same crypto secret header raw_body w))
          (refl, refl);
  }

  ask_glpi-eq-ok :
      (id : ℕ) (a : Option Text) (w w' : World S)
      → ask_glpi id w ≡ (ok a, w')
      → get_ticket id w ≡ (ok a, w')
  unfolding ask_glpi
  ask_glpi-eq-ok id a w w' = go (get_ticket id w)
    where
      go :
          (p : Result (Option Text) × World S)
          → ◌≡◌ {A = Result (Option Text) × World S} (as_gateway_error p.0, p.1) (ok a, w')
          → p ≡ (ok a, w')
      go (ok b, v) e = e
      go (thrown glpi_unavailable, v) e = absurd (ground (arith, e))
      go (thrown rejected, v) e = absurd (ground (arith, e))
      go (thrown (http status why), v) e = absurd (ground (arith, e))

module _ (db : Prisma) (table : TicketTable db) (crypto : Crypto) (secret : Option Text) (env : Env)
    (request : TicketRequest) where
  -- What was found before the update: the reference, and the status that GLPI answered.
  checked-eq-ok :
      (w w' : World db.State) (ref : TicketRefRow) (status : Text)
      → checked_ticket db table crypto secret env request w ≡ (ok (ref, status), w')
      → (id : ℕ) × (request.ticket_id ≡ some id)
        × (table.find_ticket w.db id ≡ some ref)
        × (get_ticket id w ≡ (ok (some status), w'))
  unfolding checked_ticket
  checked-eq-ok w w' ref status e =
      let (a, w1, verified, r1) = bind-eq-ok _ _ w (ref, status) w' e in
      let (id, w2, asked, r2) = bind-eq-ok _ _ w1 (ref, status) w' r1 in
      let (known, w3, read, r3) = bind-eq-ok _ _ w2 (ref, status) w' r2 in
      let (row, w4, found, r4) = bind-eq-ok _ _ w3 (ref, status) w' r3 in
      let (answer, w5, replied, r5) = bind-eq-ok _ _ w4 (ref, status) w' r4 in
      let (label, w6, given, r6) = bind-eq-ok _ _ w5 (ref, status) w' r5 in
      let start = ap (λ p. p.1) verified in
      let same = verify_signature_same crypto secret request.signature request.raw_body w in
      let (id_is, w12) = required-eq-ok _ _ id w1 w2 asked in
      let (known_is, w23) = reads-eq-ok _ known w2 w3 read in
      let (row_is, w34) = required-eq-ok _ _ row w3 w4 found in
      let (label_is, w56) = required-eq-ok _ _ label w5 w6 given in
      let (pair_is, w67) = pure-eq-ok (row, label) (ref, status) w6 w' r6 in
      let here = sym same ∙ (start ∙ (w12 ∙ (w23 ∙ w34))) in
      (
        id,
        id_is,
        ap (λ v. table.find_ticket (World.db v) id) (sym same ∙ (start ∙ w12))
            ∙ (known_is ∙ (row_is ∙ ap (λ p. some (p.0)) pair_is)),
        ap (get_ticket id) here
            ∙ (ask_glpi-eq-ok id answer w4 w5 replied
                ∙ (ap (λ o. (ok o, w5)) (label_is ∙ ap (λ p. some (p.1)) pair_is)
                    ∙ ap (λ v. (ok (some status), v)) (w56 ∙ w67))),
      )

  checked-Keeps : Keeps untouched (checked_ticket db table crypto secret env request)
  unfolding checked_ticket
  checked-Keeps = search (keeps_rules, verify-Keeps, required-Keeps, ask_glpi-Keeps) depth 10

  broadcast_ticket-db :
      (m : Option Message) (v : World db.State)
      → (broadcast_ticket db table crypto secret env m v).1.db ≡ v.db
  unfolding ◌>>=◌
  broadcast_ticket-db none v = refl
  broadcast_ticket-db (some m) v = refl

  store_status_now :
      (ref : TicketRefRow) (status : Text) (v : World db.State)
      → store_status db table crypto secret env ref status v
        ≡ store_status_at db table crypto secret env ref status v.now v
  unfolding store_status ◌>>=◌
  store_status_now ref status v = refl

  -- A request that is handled without an error names a ticket that is referred to; the reference then
  -- has the status that GLPI answered to the question for that ticket and the time of the update, and
  -- nothing else of it differs.
  pub ticket_updated :
      (w w' : World db.State)
      → handle_ticket_webhook db table crypto secret env request w ≡ (ok tt, w')
      → (id : ℕ) × (ref : TicketRefRow) × (status : Text) × (v : World db.State)
        × (request.ticket_id ≡ some id)
        × (table.find_ticket w.db id ≡ some ref)
        × (get_ticket id w ≡ (ok (some status), v))
        × (table.find_ticket w'.db id ≡ some (record ref { status = status; updated_at = v.now }))
  unfolding handle_ticket_webhook store_status_at
  ticket_updated w w' e =
      let ((ref, status), v, checked, rest) = bind-eq-ok _ _ w tt w' e in
      let (id, named, known, answered) = checked-eq-ok w v ref status checked in
      let kept = checked-Keeps.at w in
      let v_db = sym (ap (λ p. World.db p.1) checked) ∙ kept.0 in
      let (s, stored, last) =
        writes_then-eq-ok _ _ v w' (sym (store_status_now ref status v) ∙ rest) in
      let same =
        sym (get_then-db db ref.message_id _ (record v { db = s }) broadcast_ticket-db)
        ∙ ap (λ p. World.db p.1) last in
      let found =
        table.set_status_find v.db s id status v.now ref
          (ap (λ d. table.find_ticket d id) v_db ∙ known) stored in
      (
        id,
        ref,
        status,
        v,
        named,
        known,
        answered,
        subst
            (λ d.
              table.find_ticket d id ≡ some (record ref { status = status; updated_at = v.now }))
            same found,
      )
