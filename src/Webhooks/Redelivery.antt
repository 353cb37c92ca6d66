-- ===== src/Webhooks/Redelivery.antt =====
-- The alerts that an RMM server sends more than once.
use munichat.Prelude.{
  ℕ, ◌≡◌, refl, sym, ap, ◌∙◌, subst, Bool, true, false, Option, none, some, if◌then◌else◌,
  Option-cases, inl, inr, arith,
}
use munichat.Text.{Text, lit}
use munichat.Store.{Prisma, Channel, User, RmmAlertRef, NewMessage, Message, MessageRow, hydrated}
use munichat.Server.{
  World, Failure, Result, ok, thrown, rejected, http, throw, pure, ◌>>=◌, bind-eq-ok, Action,
}
use munichat.Server.Keeps.{Preorder, Keeps, Keeps-reads, Keeps-pure, Keeps-throw, keeps_rules}
use munichat.Messages.{create_row, create_system_message, CreateMessageResult, created, error}
use munichat.Messages.Keeps.{create-Keeps}
use munichat.Webhooks.Stored.{writes_then-eq-ok, get_then-db}
use munichat.Webhooks.Tables.{AlertTable}
use munichat.Webhooks.Requests.{
  RmmAlertWebhookPayload, Crypto, differs, after_prefix, parse_alert, verify_bearer_token,
}
use munichat.Webhooks.RmmAlerts.{
  RmmConfig, track_and_broadcast, announce, post_alert, handle_new_alert, found_bot, broadcast_new,
  dispatch_alert, handle_alert_webhook,
}

failed-ne-ok :
    {A W : Type 0} {failure : Failure} {a : A} {w w' : W}
    → ◌≡◌ {A = Result A × W} (thrown failure, w) (ok a, w')
    → ⊥
failed-ne-ok e = ground (arith, e)

module _ (db : Prisma) (table : AlertTable db) (crypto : Crypto) (config : RmmConfig)
    (real_object_size : Text → Option ℕ) where
  -- An alert that is tracked and not resolved.
  abbrev pub IsTracked : db.State → Text → Type 0
  IsTracked s alert =
      (ref : RmmAlertRef) × (table.find_alert s alert ≡ some ref) × (ref.resolved ≡ false)

  broadcast_new-db :
      (channel : Text) (m : Option Message) (v : World db.State)
      → (broadcast_new db table crypto config real_object_size channel m v).1.db ≡ v.db
  unfolding ◌>>=◌
  broadcast_new-db channel none v = refl
  broadcast_new-db channel (some m) v = refl

  -- Tracking a message leaves the alert tracked, and the channels as they were.
  track-IsTracked :
      (channel message : Text) (alert : RmmAlertWebhookPayload) (w w' : World db.State)
      → track_and_broadcast db table crypto config real_object_size channel alert message w
        ≡ (ok tt, w')
      → IsTracked w'.db alert.alert_id
        × ((name : Text) → table.find_by_name w'.db name ≡ table.find_by_name w.db name)
  unfolding track_and_broadcast
  track-IsTracked channel message alert w w' e =
      let (s, stored, rest) = writes_then-eq-ok _ _ w w' e in
      let same =
        sym (get_then-db db message _ (record w { db = s }) (broadcast_new-db channel))
        ∙ ap (λ p. World.db p.1) rest in
      let (id, found) = table.create_alert_find _ w.db s stored in
      (
        subst (λ v. IsTracked v alert.alert_id) same (_, found, refl),
        λ name.
            subst (λ v. table.find_by_name v name ≡ table.find_by_name w.db name) same
              (table.create_alert_channels _ w.db s name stored),
      )

  -- The channels are found under the same names.
  abbrev channels : Preorder db.State
  channels = record {
    Le = λ w w'. (name : Text) → table.find_by_name w'.db name ≡ table.find_by_name w.db name;
    le_refl = λ w name. refl;
    le_trans = λ u v w p q name. q name ∙ p name;
  }

  create_row-Keeps : (n : NewMessage) → Keeps channels (create_row db n)
  unfolding create_row
  create_row-Keeps n = record { at = λ w. go w (db.create_message n w.db) refl }
    where
      go :
          (w : World db.State) (o : Option (MessageRow × db.State))
          → db.create_message n w.db ≡ o
          → channels.Le w
              (elim o as (λ _. Result Message × World db.State) [
                | none ↦ (thrown rejected, w)
                | some (r, s) ↦ (ok (hydrated db s r), record w { db = s })
              ]).1
      go w none e name = refl
      go w (some (r, s)) e name = table.create_message_channels n w.db s r name e

  post_alert-Keeps :
      (channel : Text) (alert : RmmAlertWebhookPayload) (bot : User)
      → Keeps channels (post_alert db table crypto config real_object_size channel alert bot)
  unfolding post_alert create_system_message
  post_alert-Keeps channel alert bot = search (
    keeps_rules,
    create_row-Keeps,
    create-Keeps db channels (λ w q r t name. refl) (λ w j name. refl) create_row-Keeps,
  )

  create_system_message-Keeps :
      (channel author content : Text)
      → Keeps channels (create_system_message db channel author content)
  unfolding create_system_message
  create_system_message-Keeps channel author content = create_row-Keeps _

  announce-IsTracked :
      (channel : Text) (alert : RmmAlertWebhookPayload) (bot : User) (result : CreateMessageResult)
      (w w' : World db.State)
      → announce db table crypto config real_object_size channel alert bot result w ≡ (ok tt, w')
      → IsTracked w'.db alert.alert_id
        × ((name : Text) → table.find_by_name w'.db name ≡ table.find_by_name w.db name)
  unfolding announce
  announce-IsTracked channel alert bot (created m) w w' e = track-IsTracked channel _ alert w w' e
  announce-IsTracked channel alert bot (error problem) w w' e =
      let (m, v, posted, rest) = bind-eq-ok _ _ w tt w' e in
      let (tracked, same) = track-IsTracked channel _ alert v w' rest in
      let before = (create_system_message-Keeps channel bot.id _).at w in
      (tracked, λ name. same name ∙ subst (λ p. channels.Le w (p.1)) posted before name)

  ran :
      {A : Type 0} {m : Action db.State A} {r : Result A} {w w' : World db.State}
      → Keeps channels m
      → m w ≡ (r, w')
      → channels.Le w w'
  ran {w} h e = subst (λ p. channels.Le w (p.1)) e (h.at w)

  found_bot-Keeps :
      (found : Option User)
      → Keeps channels (found_bot db table crypto config real_object_size found)
  found_bot-Keeps none = Keeps-throw channels _
  found_bot-Keeps (some bot) = Keeps-pure channels bot

  new_alert-IsTracked :
      (channel : Text) (alert : RmmAlertWebhookPayload) (w w' : World db.State)
      → handle_new_alert db table crypto config real_object_size channel alert w ≡ (ok tt, w')
      → IsTracked w'.db alert.alert_id
        × ((name : Text) → table.find_by_name w'.db name ≡ table.find_by_name w.db name)
  unfolding handle_new_alert
  new_alert-IsTracked channel alert w w' e =
      let (found, u, read, more) = bind-eq-ok _ _ w tt w' e in
      let (bot, v, seeded, rest) = bind-eq-ok _ _ u tt w' more in
      let (result, x, posted, last) = bind-eq-ok _ _ v tt w' rest in
      let (tracked, same) = announce-IsTracked channel alert bot result x w' last in
      let seen = ran (Keeps-reads channels _) read in
      let known = ran (found_bot-Keeps found) seeded in
      let made = ran (post_alert-Keeps channel alert bot) posted in
      (tracked, λ name. same name ∙ (made name ∙ (known name ∙ seen name)))

  -- An action with a result that does not depend on the world, which it does not change.
  abbrev IsTest : Action db.State (Unit {0}) → Type 0
  IsTest m = (r : Result (Unit {0})) × ((w : World db.State) → m w ≡ (r, w))

  verify-IsTest : (secret header : Option Text) → IsTest (verify_bearer_token crypto secret header)
  unfolding verify_bearer_token ◌>>=◌
  verify-IsTest none header = (ok tt, λ w. refl)
  verify-IsTest (some secret) header = presented (after_prefix (lit "Bearer ") header)
    where
      compared :
          (b : Bool) → IsTest (if b then throw (http 401 "Invalid bearer token") else pure tt)
      compared true = (thrown _, λ w. refl)
      compared false = (ok tt, λ w. refl)

      presented :
          (o : Option Text)
          → IsTest (elim o as (λ _. Action db.State (Unit {0})) [
            | none ↦ throw (http 401 "Missing bearer token")
            | some provided ↦
                if differs (crypto.utf8 provided) (crypto.utf8 secret)
                then throw (http 401 "Invalid bearer token")
                else pure tt
          ])
      presented none = (thrown _, λ w. refl)
      presented (some t) = compared (differs (crypto.utf8 t) (crypto.utf8 secret))

  -- What the handler does once the token, the alert and the channel are accepted.
  handled :
      (header : Option Text) (body : Option RmmAlertWebhookPayload) (alert : RmmAlertWebhookPayload)
      (channel : Channel) (existing : Option RmmAlertRef) (w : World db.State)
      → verify_bearer_token crypto config.webhook_secret header w ≡ (ok tt, w)
      → parse_alert body ≡ some alert
      → table.find_by_name w.db config.alert_channel_name ≡ some channel
      → table.find_alert w.db alert.alert_id ≡ existing
      → handle_alert_webhook db table crypto config real_object_size header body w
        ≡ dispatch_alert db table crypto config real_object_size channel.id alert existing w
  unfolding handle_alert_webhook ◌>>=◌
  handled header body alert channel existing w accepted parsed named known =
      rw (accepted, parsed, named, known) refl

  module _ (header : Option Text) (body : Option RmmAlertWebhookPayload)
      (alert : RmmAlertWebhookPayload) where
    abbrev handle : Action db.State (Unit {0})
    handle = handle_alert_webhook db table crypto config real_object_size header body

    -- A request that is handled has an accepted token and finds the channel.
    handle_inv :
        (w w' : World db.State)
        → parse_alert body ≡ some alert
        → handle w ≡ (ok tt, w')
        → ((v : World db.State)
            → verify_bearer_token crypto config.webhook_secret header v ≡ (ok tt, v))
          × (channel : Channel) × (table.find_by_name w.db config.alert_channel_name ≡ some channel)
    unfolding handle_alert_webhook ◌>>=◌
    handle_inv w w' parsed e = go (verify-IsTest config.webhook_secret header)
      where
        go :
            IsTest (verify_bearer_token crypto config.webhook_secret header)
            → ((v : World db.State)
                → verify_bearer_token crypto config.webhook_secret header v ≡ (ok tt, v))
              × (channel : Channel) × (table.find_by_name w.db config.alert_channel_name
                  ≡ some channel)
        go (ok tt, accepted) =
            elim (Option-cases (table.find_by_name w.db config.alert_channel_name)) [
              | inr (channel, named) ↦ (accepted, channel, named)
              | inl missing ↦ absurd (
                  failed-ne-ok
                    (rw missing at (rw parsed at (rw (accepted w, handle_alert_webhook) at e))))
            ]
        go (thrown failure, refused) =
            absurd (failed-ne-ok (rw (refused w, handle_alert_webhook) at e))

    dispatch_new :
        (channel : Text) (w : World db.State)
        → alert.resolved ≡ false
        → dispatch_alert db table crypto config real_object_size channel alert none w
          ≡ handle_new_alert db table crypto config real_object_size channel alert w
    unfolding dispatch_alert
    dispatch_new channel w fresh = rw (fresh, dispatch_alert) refl

    dispatch_known :
        (channel : Text) (ref : RmmAlertRef) (w : World db.State)
        → alert.resolved ≡ false
        → dispatch_alert db table crypto config real_object_size channel alert (some ref) w
          ≡ (ok tt, w)
    unfolding dispatch_alert ◌>>=◌
    dispatch_known channel ref w fresh = rw (fresh, dispatch_alert) refl

    -- An unresolved alert that was not known and is handled without an error is tracked afterwards:
    -- there is a reference with its identifier, which is not resolved.
    pub alert-IsTracked :
        (w w' : World db.State)
        → parse_alert body ≡ some alert
        → alert.resolved ≡ false
        → table.find_alert w.db alert.alert_id ≡ none
        → handle w ≡ (ok tt, w')
        → IsTracked w'.db alert.alert_id
    alert-IsTracked w w' parsed fresh unknown e =
        let (accepted, channel, named) = handle_inv w w' parsed e in
        let begun = handled header body alert channel none w (accepted w) parsed named unknown in
        (new_alert-IsTracked channel.id alert w w'
          (sym (begun ∙ dispatch_new channel.id w fresh) ∙ e)).0

    -- Handling an unresolved alert again, once it was handled without an error, changes nothing and
    -- emits nothing: a redelivery is neither posted nor opened as a ticket a second time.
    pub redelivery_idle :
        (w w' : World db.State)
        → parse_alert body ≡ some alert
        → alert.resolved ≡ false
        → handle w ≡ (ok tt, w')
        → handle w' ≡ (ok tt, w')
    redelivery_idle w w' parsed fresh e =
        let (accepted, channel, named) = handle_inv w w' parsed e in
        elim (Option-cases (table.find_alert w.db alert.alert_id)) [
          | inr (ref, known) ↦
              let begun =
                handled header body alert channel (some ref) w (accepted w) parsed named known in
              let idle = begun ∙ dispatch_known channel.id ref w fresh in
              subst (λ v. handle v ≡ (ok tt, v)) (ap (λ p. p.1) (sym idle ∙ e)) idle
          | inl unknown ↦
              let begun =
                handled header body alert channel none w (accepted w) parsed named unknown in
              let ((ref, found, unresolved), channels_kept) =
                new_alert-IsTracked channel.id alert w w'
                  (sym (begun ∙ dispatch_new channel.id w fresh) ∙ e) in
              handled header body alert channel (some ref) w' (accepted w') parsed
                (channels_kept config.alert_channel_name ∙ named) found
              ∙ dispatch_known channel.id ref w' fresh
        ]
