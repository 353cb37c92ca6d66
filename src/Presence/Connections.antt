-- ===== src/Presence/Connections.antt =====
-- `handleConnection` and `handleDisconnect` of apps/api/src/chat/chat.gateway.ts, and the states that
-- connections and disconnections lead to, one after the other.
use munichat.Prelude.{ℕ, suc, ◌≡◌, Bool, true, false, List, [], ◌∷◌, ◌++◌, if◌then◌else◌, map}
use munichat.Text.{Text, text_eq}
use munichat.Shared.{SocketEvent}
use munichat.Store.{Channel}
use munichat.Server.{Socket, Emission, everyone, only, update, sync}
use munichat.Chat.Gateway.{channel_room}
use munichat.Presence.Redis.{Redis, pos}
use munichat.Presence.Service.{mark_online, mark_offline, list_online_users}

-- `server.emit(SocketEvent.PRESENCE_UPDATE, payload)`
abbrev pub announce : Text → Bool → Emission
announce user online = record {
  audience = everyone;
  event = SocketEvent.presence_update;
  payload = update (record { user_id = user; online = online });
}

-- What a handler of connections does: the rooms that the socket joins, the emissions in order and the
-- state of the server.
pub record Effect (S : Type 0) : Type 0 where
  pub joined : List Text
  pub emitted : List Emission
  pub state : S

module _ (r : Redis) where
  -- `channels` is what `listForUser` gave.
  unfoldable pub handle_connection : List Channel → Socket → r.State → Effect r.State
  unfolding mark_online list_online_users
  handle_connection channels socket s =
      let (became_online, s') = mark_online r socket.user.id s in
      record {
        joined = map (λ c. channel_room c.id) channels;
        emitted =
            (if became_online then announce socket.user.id true ∷ [] else [])
            ++ record {
              audience = only socket.id;
              event = SocketEvent.presence_sync;
              payload = sync (record { online_user_ids = list_online_users r s' });
            }
              ∷ [];
        state = s';
      }

  unfoldable pub handle_disconnect : Socket → r.State → Effect r.State
  unfolding mark_offline
  handle_disconnect socket s =
      let (became_offline, s') = mark_offline r socket.user.id s in
      record {
        joined = [];
        emitted = if became_offline then announce socket.user.id false ∷ [] else [];
        state = s';
      }

-- How many of the connections are a user's.
unfoldable pub connections : Text → List Socket → ℕ
connections user [] = 0
connections user (socket ∷ sockets) =
    let n = connections user sockets in if text_eq socket.user.id user then suc n else n

-- The states in which certain sockets are connected, from a server on which no user is. The handlers
-- of different sockets run one after the other.
pub data Reachable (r : Redis) : r.State → List Socket → Type 0 where
  start :
      (s : r.State)
      → ((u : Text) → r.count s u ≡ pos 0)
      → ((u : Text) → r.online s u ≡ false)
      → Reachable r s []
  connected :
      (s : r.State) (live : List Socket) (channels : List Channel) (socket : Socket)
      → Reachable r s live
      → Reachable r (handle_connection r channels socket s).state (socket ∷ live)
  disconnected :
      (s : r.State) (before after : List Socket) (socket : Socket)
      → Reachable r s (before ++ socket ∷ after)
      → Reachable r (handle_disconnect r socket s).state (before ++ after)
