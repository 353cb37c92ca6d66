-- ===== src/Server/Keeps.antt =====
-- Invariants of handlers: a preorder on the states of the world that an action moves up in, whether
-- it returns or throws, with one rule for each way to build an action.
use munichat.Prelude.{Bool, true, false, if◌then◌else◌}
use munichat.Server.{World, Failure, Result, ok, thrown, Action, pure, throw, reads, ◌>>=◌}

pub record Preorder (S : Type 0) : Type 1 where
  pub Le : World S → World S → Type 0
  pub le_refl : (w : World S) → Le w w
  pub le_trans : (u v w : World S) → Le u v → Le v w → Le u w

module _ {S : Type 0} (o : Preorder S) where
  pub record Keeps {A : Type 0} (m : Action S A) : Type 0 where
    pub at : (w : World S) → o.Le w (m w).1

  module _ {A : Type 0} where
    pub Keeps-pure : (a : A) → Keeps (pure a)
    unfolding ◌>>=◌
    Keeps-pure a = record { at = λ w. o.le_refl w }

    pub Keeps-throw : (e : Failure) → Keeps (throw {A = A} e)
    unfolding ◌>>=◌
    Keeps-throw e = record { at = λ w. o.le_refl w }

    pub Keeps-reads : (f : World S → A) → Keeps (reads f)
    unfolding ◌>>=◌
    Keeps-reads f = record { at = λ w. o.le_refl w }

    pub Keeps-if : (b : Bool) {m n : Action S A} → Keeps m → Keeps n → Keeps (if b then m else n)
    Keeps-if true h k = h
    Keeps-if false h k = k

  module _ {A B : Type 0} where
    resume-Le :
        (f : A → Action S B) (w : World S) (p : Result A × World S)
        → ((a : A) → Keeps (f a))
        → o.Le w p.1
        → o.Le w (◌>>=◌ (λ _. p) f w).1
    unfolding ◌>>=◌
    resume-Le f w (ok a, w') k le = o.le_trans w w' _ le ((k a).at w')
    resume-Le f w (thrown e, w') k le = le

    -- The rule at one world, for an action that keeps the order only there.
    pub bind-Le :
        (m : Action S A) (f : A → Action S B) (w : World S)
        → o.Le w (m w).1
        → ((a : A) → Keeps (f a))
        → o.Le w ((m >>= f) w).1
    unfolding ◌>>=◌
    bind-Le m f w le k = resume-Le f w (m w) k le

    pub Keeps-bind :
        {m : Action S A} {f : A → Action S B} → Keeps m → ((a : A) → Keeps (f a)) → Keeps (m >>= f)
    Keeps-bind {m} {f} h k = record { at = λ w. bind-Le m f w (h.at w) k }

pub ruleset keeps_rules = (Keeps-pure, Keeps-throw, Keeps-reads, Keeps-if, Keeps-bind)
