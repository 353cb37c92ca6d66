-- ===== src/Presence/Online.antt =====
-- Who is online.
use munichat.Prelude.{
  ℕ, zero, suc, ◌≡◌, refl, sym, ap, ◌∙◌, subst, Bool, true, false, List, [], ◌∷◌, ◌++◌, arith, ltb,
  ◌==◌, if◌then◌else◌, inl, inr, Bool-cases,
}
use munichat.Text.{Text, text_eq}
use munichat.Text.Laws.{text_eq_iff, text_eq_refl}
use munichat.Server.{Socket}
use munichat.Presence.Redis.{Redis, pos, succ, pred}
use munichat.Presence.Service.{is_int, mark_online, mark_offline}
use munichat.Presence.Connections.{
  connections, handle_connection, handle_disconnect, Reachable, start, connected, disconnected,
}

module _ (r : Redis) where
  -- With n connections of a user, the counter says so and the set has the user exactly if n > 0.
  abbrev IsCounted : r.State → Text → ℕ → Type 0
  IsCounted s u n = (r.count s u ≡ pos n) × (r.online s u ≡ ltb 0 n)

  mark_online-same :
      (u : Text) (s : r.State) (n : ℕ) → IsCounted s u n → IsCounted (mark_online r u s).1 u (suc n)
  unfolding mark_online
  mark_online-same u s n (c, o) =
      let value : (r.incr u s).0 ≡ pos (suc n) = r.incr_value u s ∙ ap succ c in
      let count : r.count (r.incr u s).1 u ≡ pos (suc n) =
        r.incr_count u s u ∙ rw (text_eq_refl u) (ap succ c) in
      rw (value, mark_online) (added n count o)
    where
      added :
          (m : ℕ)
          → r.count (r.incr u s).1 u ≡ pos (suc m)
          → r.online s u ≡ ltb 0 m
          → IsCounted (if suc m == 1 then r.sadd u (r.incr u s).1 else (r.incr u s).1) u (suc m)
      added zero k on = (
        r.sadd_count u (r.incr u s).1 u ∙ k,
        r.sadd_online u (r.incr u s).1 u ∙ rw (text_eq_refl u) refl,
      )
      added (suc m) k on =
          let two : (suc (suc m) == 1) ≡ false = ground arith in
          let here : ltb 0 (suc m) ≡ ltb 0 (suc (suc m)) = ground arith in
          rw two (k, r.incr_online u s u ∙ on ∙ here)

  mark_online-other :
      (u v : Text) (s : r.State) (n : ℕ)
      → text_eq u v ≡ false
      → IsCounted s v n
      → IsCounted (mark_online r u s).1 v n
  unfolding mark_online
  mark_online-other u v s n e (c, o) = kept (is_int (r.incr u s).0 1)
    where
      kept : (b : Bool) → IsCounted (if b then r.sadd u (r.incr u s).1 else (r.incr u s).1) v n
      kept true = (
        r.sadd_count u (r.incr u s).1 v ∙ r.incr_count u s v ∙ rw e c,
        r.sadd_online u (r.incr u s).1 v ∙ rw e (r.incr_online u s v ∙ o),
      )
      kept false = (r.incr_count u s v ∙ rw e c, r.incr_online u s v ∙ o)

  mark_offline-same :
      (u : Text) (s : r.State) (n : ℕ)
      → IsCounted s u (suc n)
      → IsCounted (mark_offline r u s).1 u n
  unfolding mark_offline
  mark_offline-same u s n (c, o) =
      let value : (r.decr u s).0 ≡ pos n = r.decr_value u s ∙ ap pred c in
      let count : r.count (r.decr u s).1 u ≡ pos n =
        r.decr_count u s u ∙ rw (text_eq_refl u) (ap pred c) in
      rw (value, mark_offline) (taken n count o)
    where
      taken :
          (m : ℕ)
          → r.count (r.decr u s).1 u ≡ pos m
          → r.online s u ≡ ltb 0 (suc m)
          → IsCounted (if m == 0 then r.srem u (r.decr u s).1 else (r.decr u s).1) u m
      taken zero k on = (
        r.srem_count u (r.decr u s).1 u ∙ k,
        r.srem_online u (r.decr u s).1 u ∙ rw (text_eq_refl u) refl,
      )
      taken (suc m) k on =
          let more : (suc m == 0) ≡ false = ground arith in
          let here : ltb 0 (suc (suc m)) ≡ ltb 0 (suc m) = ground arith in
          rw more (k, r.decr_online u s u ∙ on ∙ here)

  mark_offline-other :
      (u v : Text) (s : r.State) (n : ℕ)
      → text_eq u v ≡ false
      → IsCounted s v n
      → IsCounted (mark_offline r u s).1 v n
  unfolding mark_offline
  mark_offline-other u v s n e (c, o) = kept (is_int (r.decr u s).0 0)
    where
      kept : (b : Bool) → IsCounted (if b then r.srem u (r.decr u s).1 else (r.decr u s).1) v n
      kept true = (
        r.srem_count u (r.decr u s).1 v ∙ r.decr_count u s v ∙ rw e c,
        r.srem_online u (r.decr u s).1 v ∙ rw e (r.decr_online u s v ∙ o),
      )
      kept false = (r.decr_count u s v ∙ rw e c, r.decr_online u s v ∙ o)

connections_between :
    (u : Text) (before after : List Socket) (socket : Socket)
    → connections u (before ++ socket ∷ after) ≡ (
        if text_eq socket.user.id u
        then suc (connections u (before ++ after))
        else connections u (before ++ after))
unfolding connections
connections_between u [] after socket = refl
connections_between u (other ∷ before) after socket =
    let ih = connections_between u before after socket in
    elim (Bool-cases (text_eq other.user.id u)) [
      | inl e ↦
          rw e (ap suc ih ∙ if-suc (text_eq socket.user.id u) (connections u (before ++ after)))
      | inr e ↦ rw e ih
    ]
  where
    if-suc : (b : Bool) (n : ℕ) → suc (if b then suc n else n) ≡ (if b then suc (suc n) else suc n)
    if-suc true n = refl
    if-suc false n = refl

-- Whatever sockets connected and disconnected before, one after the other, a user's counter is the
-- number of the user's connections, and the set of online users has exactly those who have one.
pub Reachable-IsCounted :
    (r : Redis) (s : r.State) (live : List Socket) (u : Text)
    → Reachable r s live
    → (r.count s u ≡ pos (connections u live)) × (r.online s u ≡ ltb 0 (connections u live))
unfolding handle_connection handle_disconnect connections
Reachable-IsCounted r _ _ u (start s c o) = (c u, o u)
Reachable-IsCounted r _ _ u (connected s before channels socket h) =
    let ih = Reachable-IsCounted r s before u h in
    elim (Bool-cases (text_eq socket.user.id u)) [
      | inl e ↦
          let same : socket.user.id ≡ u = (text_eq_iff socket.user.id u).0 e in
          rw (e, connections)
            (subst (λ v. IsCounted r (mark_online r v s).1 u (suc (connections u before)))
              (sym same) (mark_online-same r u s (connections u before) ih))
      | inr e ↦
          rw (e, connections) (mark_online-other r socket.user.id u s (connections u before) e ih)
    ]
Reachable-IsCounted r _ _ u (disconnected s before after socket h) =
    let ih = Reachable-IsCounted r s (before ++ socket ∷ after) u h in
    let rest = connections u (before ++ after) in
    let n : connections u (before ++ socket ∷ after)
        ≡ (if text_eq socket.user.id u then suc rest else rest) =
      connections_between u before after socket in
    elim (Bool-cases (text_eq socket.user.id u)) [
      | inl e ↦
          let same : socket.user.id ≡ u = (text_eq_iff socket.user.id u).0 e in
          let one : connections u (before ++ socket ∷ after) ≡ suc rest = n ∙ rw e refl in
          subst (λ v. IsCounted r (mark_offline r v s).1 u rest) (sym same)
            (mark_offline-same r u s rest (subst (IsCounted r s u) one ih))
      | inr e ↦
          let none : connections u (before ++ socket ∷ after) ≡ rest = n ∙ rw e refl in
          mark_offline-other r socket.user.id u s rest e (subst (IsCounted r s u) none ih)
    ]
