-- ===== src/Webhooks/Stored.antt =====
-- Inversions of the writes and the broadcasts with which every webhook ends.
use munichat.Prelude.{◌≡◌, refl, ap, ◌∙◌, Option, none, some, ◌⊎◌, inl, inr, arith}
use munichat.Text.{Text}
use munichat.Store.{Prisma, Message}
use munichat.Server.{World, Result, ok, thrown, rejected, Failure, Action, writes, ◌>>=◌, ◌>>◌}
use munichat.Messages.{get_by_id}

module _ {S : Type 0} where
  -- A write that returned, and what ran after it.
  pub writes_then-eq-ok :
      (f : S → Option S) (rest : Action S (Unit {0})) (w w' : World S)
      → (writes f >> rest) w ≡ (ok tt, w')
      → (s : S) × (f w.db ≡ some s) × (rest (record w { db = s }) ≡ (ok tt, w'))
  unfolding ◌>>=◌
  writes_then-eq-ok f rest w w' = go (f w.db) refl
    where
      go :
          (o : Option S)
          → f w.db ≡ o
          → ◌>>◌ {A = Unit {0}}
              (λ v. elim o [ none ↦ (thrown rejected, v) | some s ↦ (ok tt, record v { db = s }) ])
              rest
              w
            ≡ (ok tt, w')
          → (s : S) × (f w.db ≡ some s) × (rest (record w { db = s }) ≡ (ok tt, w'))
      go none found e = absurd (ground (arith, e))
      go (some s) found e = (s, found, e)

module _ (db : Prisma) where
  -- The read and the broadcast after the write leave the database as it is.
  pub get_then-db :
      (id : Text) (broadcast : Option Message → Action db.State (Unit {0})) (w : World db.State)
      → ((m : Option Message) (v : World db.State) → (broadcast m v).1.db ≡ v.db)
      → ((get_by_id db id >>= broadcast) w).1.db ≡ w.db
  unfolding ◌>>=◌ get_by_id
  get_then-db id broadcast w keeps = keeps _ w

  pub get_then-ok :
      (id : Text) (broadcast : Option Message → Action db.State (Unit {0})) (w : World db.State)
      → ((m : Option Message) (v : World db.State) → (broadcast m v).0 ≡ ok tt)
      → ((get_by_id db id >>= broadcast) w).0 ≡ ok tt
  unfolding ◌>>=◌ get_by_id
  get_then-ok id broadcast w returns = returns _ w

module _ {S : Type 0} where
  -- A write that returned stored what it computed.
  pub writes-eq-ok :
      (f : S → Option S) (w w' : World S) → writes f w ≡ (ok tt, w') → f w.db ≡ some w'.db
  unfolding ◌>>=◌
  writes-eq-ok f w w' = go (f w.db) refl
    where
      go :
          (o : Option S)
          → f w.db ≡ o
          → elim o as (λ _. Result (Unit {0}) × World S) [
            | none ↦ (thrown rejected, w)
            | some s ↦ (ok tt, record w { db = s })
          ]
            ≡ (ok tt, w')
          → f w.db ≡ some w'.db
      go none found t = absurd (ground (arith, t))
      go (some s) found t = found ∙ ap (λ p. some (World.db p.1)) t

  -- A write that threw changed nothing.
  pub writes-eq-thrown :
      (f : S → Option S) (w w' : World S) (e : Failure) → writes f w ≡ (thrown e, w') → w ≡ w'
  unfolding ◌>>=◌
  writes-eq-thrown f w w' e = go (f w.db)
    where
      go :
          (o : Option S)
          → elim o as (λ _. Result (Unit {0}) × World S) [
            | none ↦ (thrown rejected, w)
            | some s ↦ (ok tt, record w { db = s })
          ]
            ≡ (thrown e, w')
          → w ≡ w'
      go none t = ap (λ p. p.1) t
      go (some s) t = absurd (ground (arith, t))

module _ {S A B : Type 0} where
  -- A bind that threw: either part did.
  pub bind-eq-thrown :
      (m : Action S A) (f : A → Action S B) (w : World S) (e : Failure) (w' : World S)
      → (m >>= f) w ≡ (thrown e, w')
      → (m w ≡ (thrown e, w'))
        ⊎ ((a : A) × (v : World S) × (m w ≡ (ok a, v)) × (f a v ≡ (thrown e, w')))
  unfolding ◌>>=◌
  bind-eq-thrown m f w e w' = go (m w)
    where
      go :
          (p : Result A × World S)
          → ◌>>=◌ (λ _. p) f w ≡ (thrown e, w')
          → (p ≡ (thrown e, w'))
            ⊎ ((a : A) × (v : World S) × (p ≡ (ok a, v)) × (f a v ≡ (thrown e, w')))
      go (ok a, v) t = inr (a, v, refl, t)
      go (thrown failure, v) t = inl cc
