-- ===== src/Presence/Tests.antt =====
-- A Redis in memory, and two connections of a user of which one ends.
use munichat.Prelude.{
  ◌≡◌, refl, Bool, true, false, not, ◌&&◌, ◌||◌, none, [], ◌∷◌, if◌then◌else◌, keep,
}
use munichat.Text.{Text, lit, text_eq}
use munichat.Store.{User}
use munichat.Server.{Socket}
use munichat.Presence.Redis.{Redis, ℤ, pos, succ, pred}
use munichat.Presence.Connections.{
  handle_connection, handle_disconnect, connections, Reachable, start, connected, disconnected,
}
use munichat.Presence.Online.{Reachable-IsCounted}

record Memory : Type 0 where
  counts : Text → ℤ
  set : Text → Bool

abbrev changed : Text → (ℤ → ℤ) → Memory → Memory
changed u f s = record s { counts = λ v. if text_eq u v then f (s.counts v) else s.counts v }

abbrev redis : Redis
redis = record {
  State = Memory;
  count = λ s. s.counts;
  online = λ s. s.set;
  incr = λ u s. (succ (s.counts u), changed u succ s);
  decr = λ u s. (pred (s.counts u), changed u pred s);
  sadd = λ u s. record s { set = λ v. text_eq u v || s.set v };
  srem = λ u s. record s { set = λ v. not (text_eq u v) && s.set v };
  smembers = λ s. keep s.set (lit "u1" ∷ []);
  incr_value = λ u s. refl;
  incr_count = λ u s v. refl;
  incr_online = λ u s v. refl;
  decr_value = λ u s. refl;
  decr_count = λ u s v. refl;
  decr_online = λ u s v. refl;
  sadd_online = λ u s v. refl;
  sadd_count = λ u s v. refl;
  srem_online = λ u s v. refl;
  srem_count = λ u s v. refl;
}

abbrev ann : User
ann = record {
  id = lit "u1";
  username = lit "ann";
  display_name = lit "Ann";
  avatar_url = none;
  is_active = true;
  token_version = 0;
}

abbrev tab : Text → Socket
tab id = record { id = id; user = ann }

abbrev empty : Memory
empty = record { counts = λ u. pos 0; set = λ u. false }

abbrev one : Memory
one = (handle_connection redis [] (tab (lit "s1")) empty).state

abbrev two : Memory
two = (handle_connection redis [] (tab (lit "s2")) one).state

abbrev left : Memory
left = (handle_disconnect redis (tab (lit "s1")) two).state

abbrev history : Reachable redis left (tab (lit "s2") ∷ [])
history = disconnected two (tab (lit "s2") ∷ []) [] (tab (lit "s1")) (
    connected one (tab (lit "s1") ∷ []) [] (tab (lit "s2"))
      (connected empty [] [] (tab (lit "s1")) (start empty (λ u. refl) (λ u. refl))))

Reachable-IsCounted_example : (left.counts (lit "u1") ≡ pos 1) × (left.set (lit "u1") ≡ true)
unfolding connections
Reachable-IsCounted_example =
    Reachable-IsCounted redis left (tab (lit "s2") ∷ []) (lit "u1") history
