-- ===== src/Sql/Quiet.antt =====
-- Actions that leave the committed tables alone, and handlers that do so whenever they fail.
use thclaws_thai_ai_agent.Base.{String, Bool, true, false, ◌≡◌, refl, ◌∙◌, if◌then◌else◌, arith}
use thclaws_thai_ai_agent.Sql.Actions.{
  SqlError, Result, ok, err, Query, World, M, pure, raise, guard, recover, time_now, on_tx, on_pool,
  begin, rollback, commit, wrap, reading, continue, ◌>>=◌,
}

module _ {S E A : Type 0} where
  -- whatever `m` returns, nothing is committed
  pub record Quiet (m : M S E A) : Type 0 where
    pub same : (w : World S) → (m w).1.db ≡ w.db

  -- a failure commits nothing
  pub record Atomic (m : M S E A) : Type 0 where
    pub same : (w : World S) (e : E) → (m w).0 ≡ err e → (m w).1.db ≡ w.db

  pub Quiet-pure : (a : A) → Quiet (pure a)
  unfolding pure
  Quiet-pure a = record { same = λ w. refl }

  pub Quiet-raise : (e : E) → Quiet (raise e)
  unfolding raise
  Quiet-raise e = record { same = λ w. refl }

  pub Quiet-if : (b : Bool) (m n : M S E A) → Quiet m → Quiet n → Quiet (if b then m else n)
  Quiet-if true m n hm hn = hm
  Quiet-if false m n hm hn = hn

  pub Atomic-Quiet : {m : M S E A} → Quiet m → Atomic m
  Atomic-Quiet h = record { same = λ w e p. h.same w }

  pub Atomic-if : (b : Bool) (m n : M S E A) → Atomic m → Atomic n → Atomic (if b then m else n)
  Atomic-if true m n hm hn = hm
  Atomic-if false m n hm hn = hn

module _ {S E A B : Type 0} where
  Quiet-continue :
      (r : Result E A) (f : A → M S E B) (w : World S)
      → ((a : A) → Quiet (f a))
      → (continue r f w).1.db ≡ w.db
  Quiet-continue (ok a) f w h = (h a).same w
  Quiet-continue (err e) f w h = refl

  Atomic-continue :
      (r : Result E A) (f : A → M S E B) (w : World S) (e : E)
      → ((a : A) → Atomic (f a))
      → (continue r f w).0 ≡ err e
      → (continue r f w).1.db ≡ w.db
  Atomic-continue (ok a) f w e h p = (h a).same w e p
  Atomic-continue (err _) f w e h p = refl

  pub Quiet-bind :
      (m : M S E A) (f : A → M S E B) → Quiet m → ((a : A) → Quiet (f a)) → Quiet (m >>= f)
  unfolding ◌>>=◌
  Quiet-bind m f hm hf = record { same = λ w. Quiet-continue (m w).0 f (m w).1 hf ∙ hm.same w }

  pub Atomic-bind :
      (m : M S E A) (f : A → M S E B) → Quiet m → ((a : A) → Atomic (f a)) → Atomic (m >>= f)
  unfolding ◌>>=◌
  Atomic-bind m f hm hf = record {
    same = λ w e p. Atomic-continue (m w).0 f (m w).1 e hf p ∙ hm.same w;
  }

module _ {S : Type 0} where
  pub Quiet-guard : (c : Bool) (m : String) → Quiet (guard {S = S} c m)
  unfolding guard
  Quiet-guard c m = record { same = λ w. refl }

  pub Quiet-time_now : Quiet (time_now {S = S})
  unfolding time_now
  Quiet-time_now = record { same = λ w. refl }

  pub Quiet-begin : Quiet (begin {S = S})
  unfolding begin
  Quiet-begin = record { same = λ w. ground arith }

  pub Quiet-rollback : Quiet (rollback {S = S})
  unfolding rollback
  Quiet-rollback = record { same = λ w. refl }

  pub Quiet-on_tx : {A : Type 0} (q : Query S A) → Quiet (on_tx q)
  unfolding on_tx
  Quiet-on_tx q = record { same = λ w. ground arith }

  pub Quiet-on_pool-reading : {A : Type 0} (f : S → Result SqlError A) → Quiet (on_pool (reading f))
  unfolding on_pool
  Quiet-on_pool-reading f = record { same = λ w. ground arith }

  pub Quiet-wrap : {A : Type 0} (m : String) (a : M S SqlError A) → Quiet a → Quiet (wrap m a)
  unfolding wrap
  Quiet-wrap m a h = record { same = h.same }

  pub Quiet-recover : {A : Type 0} (a : M S SqlError A) → Quiet a → Quiet (recover a)
  unfolding recover
  Quiet-recover a h = record { same = h.same }

  -- a failed `Commit` commits nothing, and nothing fails after one
  pub Atomic-commit :
      {A : Type 0} (m : String) (a : A) → Atomic (wrap {S = S} m commit >>= λ _. pure a)
  unfolding ◌>>=◌ wrap commit
  Atomic-commit m a = record { same = λ w e p. ground arith }

pub ruleset quiet_rules = (
  Quiet-pure, Quiet-raise, Quiet-if, Quiet-bind, Quiet-guard, Quiet-time_now, Quiet-begin,
  Quiet-rollback, Quiet-on_tx, Quiet-on_pool-reading, Quiet-wrap, Quiet-recover,
)

pub ruleset atomic_rules = (quiet_rules, Atomic-Quiet, Atomic-if, Atomic-bind, Atomic-commit)
