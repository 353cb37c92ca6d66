-- ===== src/Server.antt =====
-- What a handler of the API reads and writes, and the monad of its asynchronous code.
--
-- A handler changes the database, emits socket events, adds jobs to the link-preview queue and
-- calls GLPI; it returns, or its promise is rejected. Emissions, jobs and requests are recorded in
-- the order in which the code makes them. The answers of GLPI are a tape that the calls consume.
pub mod Keeps
use Prim.Native.String.{String}
use munichat.Prelude.{ℕ, ◌≡◌, refl, arith, Option, none, some, List, [], ◌∷◌, ◌++◌}
use munichat.Text.{Text}
use munichat.Shared.{
  MessageDto, TypingBroadcast, PresenceSyncPayload, PresenceUpdatePayload, SocketEvent,
}
use munichat.Store.{User}

-- An authenticated socket: `socket.id` and `socket.data.user`.
pub record Socket : Type 0 where
  pub id : Text
  pub user : User

-- Who receives an emission: `server.emit`, `server.to(room).emit`, `socket.to(room).emit` (all in
-- the room but the socket) and `socket.emit`.
pub data Audience : Type 0 where
  everyone : Audience
  room : Text → Audience
  room_except : Text → Text → Audience
  only : Text → Audience

pub data Payload : Type 0 where
  message : MessageDto → Payload
  typing : TypingBroadcast → Payload
  sync : PresenceSyncPayload → Payload
  update : PresenceUpdatePayload → Payload

pub record Emission : Type 0 where
  pub audience : Audience
  pub event : SocketEvent
  pub payload : Payload

-- `LinkPreviewJobData`
pub record LinkPreviewJob : Type 0 where
  pub message_id : Text
  pub channel_id : Text
  pub url : Text

-- The JSON bodies that the code tells apart in an answer of GLPI.
pub data Body : Type 0 where
  session : Text → Body
  ticket_id : ℕ → Body
  ticket_status : ℕ → Body
  errors : List Text → Body
  other : Body
  not_json : Body

-- A `fetch` that throws, or its response.
pub data Reply : Type 0 where
  unreachable : Reply
  response : ℕ → Body → Reply

pub data GlpiRequest : Type 0 where
  init_session : GlpiRequest
  post_ticket : Option Text → Text → Text → GlpiRequest
  read_ticket : Option Text → ℕ → GlpiRequest

pub record World (S : Type 0) : Type 0 where
  pub db : S
  pub emitted : List Emission
  pub jobs : List LinkPreviewJob
  pub requests : List GlpiRequest
  pub replies : List Reply
  -- the module variable of glpi.session.ts
  pub session_token : Option Text
  -- `new Date()`
  pub now : ℕ

-- What a promise is rejected with.
pub data Failure : Type 0 where
  http : ℕ → String → Failure
  glpi_unavailable : Failure
  rejected : Failure

pub data Result {ℓ} (A : Type ℓ) : Type ℓ where
  ok : A → Result A
  thrown : Failure → Result A

-- What was written before a rejection stays written.
abbrev pub Action : Type 0 → Type 0 → Type 0
Action S A = World S → Result A × World S

module _ {S A : Type 0} where
  pub pure : A → Action S A
  pure a w = (ok a, w)

  pub throw : Failure → Action S A
  throw e w = (thrown e, w)

  -- A read of the world; it cannot fail.
  pub reads : (World S → A) → Action S A
  reads f w = (ok (f w), w)

module _ {S : Type 0} where
  pub emit : Audience → SocketEvent → Payload → Action S (Unit {0})
  emit to event payload w = (
    ok tt,
    record w {
      emitted = w.emitted ++ record { audience = to; event = event; payload = payload } ∷ [];
    },
  )

  -- A write of the database whose promise may be rejected.
  pub writes : (S → Option S) → Action S (Unit {0})
  writes f w = elim (f w.db) [ none ↦ (thrown rejected, w) | some s ↦ (ok tt, record w { db = s }) ]

module _ {S A B : Type 0} where
  abbrev resume : Result A → (A → Action S B) → Action S B
  resume (ok a) f w = f a w
  resume (thrown e) f w = (thrown e, w)

  infixl 10 ◌>>=◌ ◌>>◌
  -- Opening this opens `pure`, `throw`, `reads`, `emit` and `writes` too.
  unfoldable pub ◌>>=◌ : Action S A → (A → Action S B) → Action S B
  unfolding pure throw reads emit writes
  ◌>>=◌ m f w = let (r, w') = m w in resume r f w'

  abbrev pub ◌>>◌ : Action S A → Action S B → Action S B
  m >> n = m >>= λ _. n

module _ {S A B : Type 0} where
  -- Inversion of a bind that returned.
  pub bind-eq-ok :
      (m : Action S A) (f : A → Action S B) (w : World S) (b : B) (w' : World S)
      → (m >>= f) w ≡ (ok b, w')
      → (a : A) × (v : World S) × (m w ≡ (ok a, v)) × (f a v ≡ (ok b, w'))
  unfolding ◌>>=◌
  bind-eq-ok m f w b w' = go (m w)
    where
      go :
          (p : Result A × World S)
          → ◌>>=◌ (λ _. p) f w ≡ (ok b, w')
          → (a : A) × (v : World S) × (p ≡ (ok a, v)) × (f a v ≡ (ok b, w'))
      go (ok a, v) e = (a, v, refl, e)
      go (thrown failure, v) e = ground arith
