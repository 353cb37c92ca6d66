-- ===== src/Rmm.antt =====
-- apps/api/src/rmm/rmm.service.ts and rmm.controller.ts, with the audit log that they write
-- (apps/api/src/audit/audit.service.ts).
pub mod Access
pub mod Tests
use munichat.Prelude.{
  ℕ, Bool, true, false, Option, none, some, List, [], ◌∷◌, ◌++◌, map, if◌then◌else◌, ◌==◌,
}
use munichat.Text.{Text, lit}
use munichat.Store.{Prisma, Channel}
use munichat.Glpi.{is_ok}
use munichat.Channels.{is_member, is_channel_admin}

-- `RmmAgentSummary` and `RmmRemoteControlUrls`
pub record RmmAgentSummary : Type 0 where
  pub agent_id : Text
  pub hostname : Text
  pub site_name : Text
  pub client_name : Text
  pub platform : Text
  pub status : Text

pub record RmmRemoteControlUrls : Type 0 where
  pub desktop_url : Text
  pub terminal_url : Text
  pub file_url : Text

-- `RawAgent` and `RawMeshControlUrls`
pub record RawAgent : Type 0 where
  pub agent_id : Text
  pub hostname : Text
  pub site_name : Text
  pub client_name : Text
  pub plat : Text
  pub status : Text

pub record RawMeshControlUrls : Type 0 where
  pub control : Text
  pub terminal : Text
  pub file : Text

-- `toAgentSummary`
unfoldable pub to_agent_summary : RawAgent → RmmAgentSummary
to_agent_summary raw = record {
  agent_id = raw.agent_id;
  hostname = raw.hostname;
  site_name = raw.site_name;
  client_name = raw.client_name;
  platform = raw.plat;
  status = raw.status;
}

-- A response of the RMM server: its status, and its body as the caller's cast takes it; `none` is a body
-- that is not JSON.
pub record RmmResponse (B : Type 0) : Type 0 where
  pub status : ℕ
  pub body : Option B

-- The server, by the path of a request; `none` is a `fetch` that throws.
pub record RmmServer : Type 0 where
  pub agents : Text → Option (RmmResponse (List RawAgent))
  pub agent : Text → Option (RmmResponse RawAgent)
  pub mesh : Text → Option (RmmResponse RawMeshControlUrls)

-- What a request is rejected with.
pub data RmmFailure : Type 0 where
  rmm_unavailable : RmmFailure
  bad_json : RmmFailure
  forbidden : RmmFailure
  not_found : RmmFailure

pub data RmmResult {ℓ} (A : Type ℓ) : Type ℓ where
  done : A → RmmResult A
  failed : RmmFailure → RmmResult A

module _ {B C : Type 0} where
  -- `(await response.json()) as …`, and what is made of it
  abbrev from_json : (B → C) → Option B → RmmResult C
  from_json f none = failed bad_json
  from_json f (some b) = done (f b)

  -- `request`, and the test of `response.ok`
  unfoldable pub ok_body : (B → C) → Option (RmmResponse B) → RmmResult C
  ok_body f none = failed rmm_unavailable
  ok_body f (some r) = if is_ok r.status then from_json f r.body else failed rmm_unavailable

module _ (server : RmmServer) where
  -- `listAgents`
  unfoldable pub list_agents : RmmResult (List RmmAgentSummary)
  unfolding ok_body to_agent_summary
  list_agents = ok_body (map to_agent_summary) (server.agents (lit "/agents/?detail=false"))

  abbrev agent_body : Option (RmmResponse RawAgent) → RmmResult (Option RmmAgentSummary)
  agent_body none = failed rmm_unavailable
  agent_body (some r) =
      if r.status == 404 then done none else ok_body (λ raw. some (to_agent_summary raw)) (some r)

  -- `getAgent`; `null` where the server answers 404.
  unfoldable pub get_agent : Text → RmmResult (Option RmmAgentSummary)
  unfolding ok_body to_agent_summary
  get_agent id = agent_body (server.agent (lit "/agents/" ++ (id ++ lit "/")))

  -- `getMeshControlUrls`
  unfoldable pub get_mesh_control_urls : Text → RmmResult RmmRemoteControlUrls
  unfolding ok_body
  get_mesh_control_urls id =
      ok_body
        (λ raw. record {
          desktop_url = raw.control;
          terminal_url = raw.terminal;
          file_url = raw.file;
        })
        (server.mesh (lit "/agents/" ++ (id ++ lit "/meshcentral/")))

-- The row of `auditLog.create`.
pub record AuditEntry : Type 0 where
  pub action : Text
  pub user_id : Option Text
  pub agent_id : Text
  pub ip : Option Text

-- `AuditService.log`: a rejected insertion is logged and ignored.
unfoldable pub log : {S : Type 0} → (AuditEntry → S → Option S) → AuditEntry → S → S
log insert entry s = elim (insert entry s) [ none ↦ s | some s' ↦ s' ]

module _ (db : Prisma) (find_by_name : db.State → Text → Option Channel) (server : RmmServer)
    (alert_channel_name : Text) (insert : AuditEntry → db.State → Option db.State) where
  -- `assertAccess` and `assertOperatorAccess`: whether the test of the alert channel holds.
  unfoldable pub has_access : db.State → Text → Bool
  unfolding is_member
  has_access s user = elim (find_by_name s alert_channel_name) [
    | none ↦ false
    | some channel ↦ is_member db s user channel.id
  ]

  unfoldable pub has_operator_access : db.State → Text → Bool
  unfolding is_channel_admin
  has_operator_access s user = elim (find_by_name s alert_channel_name) [
    | none ↦ false
    | some channel ↦ is_channel_admin db s user channel.id
  ]

  -- `RmmController.list`
  unfoldable pub list_handler : db.State → Text → RmmResult (List RmmAgentSummary)
  unfolding has_access list_agents
  list_handler s user = if has_access s user then list_agents server else failed forbidden

  abbrev found : RmmResult (Option RmmAgentSummary) → RmmResult RmmAgentSummary
  found (failed e) = failed e
  found (done none) = failed not_found
  found (done (some agent)) = done agent

  -- `RmmController.getOne`
  unfoldable pub get_one_handler : db.State → Text → Text → RmmResult RmmAgentSummary
  unfolding has_access get_agent
  get_one_handler s user id =
      if has_access s user then found (get_agent server id) else failed forbidden

  abbrev pub audited :
      db.State
      → AuditEntry
      → RmmResult RmmRemoteControlUrls
      → RmmResult RmmRemoteControlUrls × db.State
  audited s entry (failed e) = (failed e, s)
  audited s entry (done urls) = (done urls, log insert entry s)

  -- `RmmController.getRemoteControl`
  unfoldable pub get_remote_control :
      Text → Text → Option Text → db.State → RmmResult RmmRemoteControlUrls × db.State
  unfolding has_operator_access get_mesh_control_urls log
  get_remote_control user id ip s =
      if has_operator_access s user
      then audited s
          (record {
            action = lit "rmm.remote_control.requested";
            user_id = some user;
            agent_id = id;
            ip = ip;
          })
          (get_mesh_control_urls server id)
      else (failed forbidden, s)
