-- ===== src/Presence/Redis.antt =====
-- apps/api/src/redis/redis.service.ts: the presence counters and the set of online users, on the
-- commands INCR, DECR, SADD, SREM and SMEMBERS of the server.
use munichat.Prelude.{ℕ, zero, suc, ◌≡◌, Bool, not, ◌&&◌, ◌||◌, List, if◌then◌else◌}
use munichat.Text.{Text, text_eq}

-- A counter may go below 0.
pub data ℤ : Type 0 where
  pos : ℕ → ℤ
  negsuc : ℕ → ℤ

abbrev pub succ : ℤ → ℤ
succ (pos n) = pos (suc n)
succ (negsuc zero) = pos 0
succ (negsuc (suc n)) = negsuc n

abbrev pub pred : ℤ → ℤ
pred (pos zero) = negsuc 0
pred (pos (suc n)) = pos n
pred (negsuc n) = negsuc (suc n)

-- The server, by the user whose key `presence:count:<user>` a counter stands at, and the set at
-- `presence:online`; what its documentation says the commands do, each of them at one moment.
pub record Redis : Type 1 where
  pub State : Type 0
  pub count : State → Text → ℤ
  pub online : State → Text → Bool
  pub incr : Text → State → ℤ × State
  pub decr : Text → State → ℤ × State
  pub sadd : Text → State → State
  pub srem : Text → State → State
  pub smembers : State → List Text
  pub incr_value : (u : Text) (s : State) → (incr u s).0 ≡ succ (count s u)
  pub incr_count :
      (u : Text) (s : State) (v : Text)
      → count (incr u s).1 v ≡ (if text_eq u v then succ (count s v) else count s v)
  pub incr_online : (u : Text) (s : State) (v : Text) → online (incr u s).1 v ≡ online s v
  pub decr_value : (u : Text) (s : State) → (decr u s).0 ≡ pred (count s u)
  pub decr_count :
      (u : Text) (s : State) (v : Text)
      → count (decr u s).1 v ≡ (if text_eq u v then pred (count s v) else count s v)
  pub decr_online : (u : Text) (s : State) (v : Text) → online (decr u s).1 v ≡ online s v
  pub sadd_online :
      (u : Text) (s : State) (v : Text) → online (sadd u s) v ≡ text_eq u v || online s v
  pub sadd_count : (u : Text) (s : State) (v : Text) → count (sadd u s) v ≡ count s v
  pub srem_online :
      (u : Text) (s : State) (v : Text) → online (srem u s) v ≡ not (text_eq u v) && online s v
  pub srem_count : (u : Text) (s : State) (v : Text) → count (srem u s) v ≡ count s v

module _ (r : Redis) where
  -- `incrPresenceCount` and its kin
  unfoldable pub incr_presence_count : Text → r.State → ℤ × r.State
  incr_presence_count user s = r.incr user s

  unfoldable pub decr_presence_count : Text → r.State → ℤ × r.State
  decr_presence_count user s = r.decr user s

  unfoldable pub add_online_user : Text → r.State → r.State
  add_online_user user s = r.sadd user s

  unfoldable pub remove_online_user : Text → r.State → r.State
  remove_online_user user s = r.srem user s
