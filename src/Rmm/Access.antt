-- ===== src/Rmm/Access.antt =====
-- Who gets the addresses of a remote-control session.
use munichat.Prelude.{◌≡◌, sym, ap, true, Option, some, Option-cases, Bool-cases, inl, inr, arith}
use munichat.Text.{Text, lit}
use munichat.Store.{Prisma, Channel}
use munichat.Channels.{is_channel_admin}
use munichat.Rmm.{
  RmmServer, RmmFailure, RmmResult, done, failed, RmmRemoteControlUrls, get_mesh_control_urls, log,
  AuditEntry, has_operator_access, audited, get_remote_control,
}

failed-ne-done :
    {A S : Type 0} {e : RmmFailure} {a : A} {s s' : S}
    → ◌≡◌ {A = RmmResult A × S} (failed e, s) (done a, s')
    → ⊥
failed-ne-done e = ground (arith, e)

module _ (db : Prisma) (find_by_name : db.State → Text → Option Channel) (server : RmmServer)
    (alert_channel_name : Text) (insert : AuditEntry → db.State → Option db.State) where
  abbrev pub request_entry : Text → Text → Option Text → AuditEntry
  request_entry user id ip = record {
    action = lit "rmm.remote_control.requested";
    user_id = some user;
    agent_id = id;
    ip = ip;
  }

  access_inv :
      (s : db.State) (user : Text)
      → has_operator_access db find_by_name server alert_channel_name insert s user ≡ true
      → (channel : Channel) × (find_by_name s alert_channel_name ≡ some channel)
        × (is_channel_admin db s user channel.id ≡ true)
  unfolding has_operator_access
  access_inv s user h = elim (Option-cases (find_by_name s alert_channel_name)) [
    | inl missing ↦ absurd (cc (rw (missing, has_operator_access) at h))
    | inr (channel, named) ↦ (channel, named, rw (named, has_operator_access) at h)
  ]

  -- The addresses of a remote-control session are given to an administrator of the alert channel only,
  -- and not before the attempt to write the request into the audit log: the state after it is the one
  -- that `log` leaves.
  pub remote_control_granted :
      (user id : Text) (ip : Option Text) (s s' : db.State) (urls : RmmRemoteControlUrls)
      → get_remote_control db find_by_name server alert_channel_name insert user id ip s
        ≡ (done urls, s')
      → (channel : Channel) × (find_by_name s alert_channel_name ≡ some channel)
        × (is_channel_admin db s user channel.id ≡ true)
        × (get_mesh_control_urls server id ≡ done urls)
        × (s' ≡ log insert (request_entry user id ip) s)
  unfolding get_remote_control
  remote_control_granted user id ip s s' urls e =
      elim (Bool-cases
        (has_operator_access db find_by_name server alert_channel_name insert s user)) [
          | inr refused ↦ absurd (failed-ne-done (rw (refused, get_remote_control) at e))
          | inl admin ↦
              let (channel, named, own) = access_inv s user admin in
              let (answered, logged) =
                go (get_mesh_control_urls server id) (rw (admin, get_remote_control) at e) in
              (channel, named, own, answered, logged)
        ]
    where
      go :
          (r : RmmResult RmmRemoteControlUrls)
          → audited db find_by_name server alert_channel_name insert s (request_entry user id ip) r
            ≡ (done urls, s')
          → (r ≡ done urls) × (s' ≡ log insert (request_entry user id ip) s)
      go (failed f) g = absurd (failed-ne-done g)
      go (done u) g = (ap (λ p. p.0) g, sym (ap (λ p. p.1) g))
