-- ===== src/Sql/Leaves.antt =====
-- What an action that succeeds leaves in the whole world, its committed tables and the open
-- transaction.
use thclaws_thai_ai_agent.Base.{◌≡◌, refl}
use thclaws_thai_ai_agent.Sql.Actions.{Error, Result, ok, err, World, M, continue, ◌>>=◌}

module _ {S : Type 0} where
  -- From a world of which `P` holds a success leaves one of which `Q` holds.
  pub record Leaves {A : Type 0} (P : World S → Type 0) (m : M S Error A) (Q : A → World S → Type 0)
      : Type 0 where
    pub after : (w : World S) (a : A) → P w → (m w).0 ≡ ok a → Q a (m w).1

  abbrev pub Anywhere : World S → Type 0
  Anywhere w = Unit

  module _ {A B : Type 0} where
    Leaves-continue :
        {P : A → World S → Type 0} {Q : B → World S → Type 0} (r : Result Error A)
        (f : A → M S Error B) (w : World S) (b : B)
        → ((a : A) → r ≡ ok a → P a w)
        → ((a : A) → Leaves (P a) (f a) Q)
        → (continue r f w).0 ≡ ok b
        → Q b (continue r f w).1
    Leaves-continue (ok a) f w b h k e = (k a).after w b (h a refl) e
    Leaves-continue (err x) f w b h k e = cc

    pub Leaves-bind :
        {P : World S → Type 0} {R : A → World S → Type 0} {Q : B → World S → Type 0}
        {m : M S Error A} {f : A → M S Error B}
        → Leaves P m R
        → ((a : A) → Leaves (R a) (f a) Q)
        → Leaves P (m >>= f) Q
    unfolding ◌>>=◌
    Leaves-bind {m} {f} h k = record {
      after = λ w b p e. Leaves-continue (m w).0 f (m w).1 b (λ a r. h.after w a p r) k e;
    }

    -- Nothing is asked of what comes before.
    pub Leaves-then :
        {P : World S → Type 0} {Q : B → World S → Type 0} (m : M S Error A) {f : A → M S Error B}
        → ((a : A) → Leaves Anywhere (f a) Q)
        → Leaves P (m >>= f) Q
    Leaves-then m k = Leaves-bind {R = λ _. Anywhere} (record { after = λ w a p e. tt }) k
