-- ===== src/Sql/Triple.antt =====
-- What an action that succeeds has done to the open transaction, and invariants of the committed
-- tables across a whole handler, `Begin` to `Commit`.
pub mod Rules
use thclaws_thai_ai_agent.Base.{
  String, Bool, true, false, ◌≡◌, refl, subst, sym, ◌∙◌, ◌⊎◌, inl, inr, if◌then◌else◌, arith,
}
use thclaws_thai_ai_agent.Sql.Actions.{
  SqlError, Error, Result, ok, err, Stamp, Query, World, M, pure, raise, guard, recover, on_tx,
  begin, commit, wrap, reading, writing, continue, ◌>>=◌,
}
use thclaws_thai_ai_agent.Sql.Quiet.{Quiet}

pub Result-cases :
    {E A : Type 0} (r : Result E A) → ((a : A) × (r ≡ ok a)) ⊎ ((e : E) × (r ≡ err e))
Result-cases (ok a) = inl (a, refl)
Result-cases (err e) = inr (e, refl)

module _ {S E A : Type 0} where
  -- from a transaction in which `P` holds, a success returns `a` and leaves `Q a`
  pub record Triple (P : S → Type 0) (m : M S E A) (Q : A → S → Type 0) : Type 0 where
    pub after : (w : World S) (a : A) → P w.work → (m w).0 ≡ ok a → Q a (m w).1.work

  -- `P` holds of what is committed, before and after, if `R` holds of the open transaction
  pub record Safe (P R : S → Type 0) (m : M S E A) : Type 0 where
    pub after : (w : World S) → P w.db → R w.work → P (m w).1.db

  -- `P` holds of what is committed, before and after, success or failure
  pub record Keeps (P : S → Type 0) (m : M S E A) : Type 0 where
    pub after : (w : World S) → P w.db → P (m w).1.db

  pub Triple-pure : {P : S → Type 0} (a : A) → Triple P (pure {E = E} a) (λ _. P)
  unfolding pure
  Triple-pure a = record { after = λ w b h p. h }

  pub Triple-raise : {P : S → Type 0} (Q : A → S → Type 0) (e : E) → Triple P (raise e) Q
  unfolding raise
  Triple-raise Q e = record { after = λ w b h p. cc }

  pub Triple-weaken :
      {P : S → Type 0} {Q R : A → S → Type 0} {m : M S E A}
      → Triple P m Q
      → ((a : A) (s : S) → Q a s → R a s)
      → Triple P m R
  Triple-weaken t h = record { after = λ w a p e. h a _ (t.after w a p e) }

  pub Triple-if :
      {P : S → Type 0} {Q : A → S → Type 0} (b : Bool) {m n : M S E A}
      → (b ≡ true → Triple P m Q)
      → (b ≡ false → Triple P n Q)
      → Triple P (if b then m else n) Q
  Triple-if true hm hn = hm refl
  Triple-if false hm hn = hn refl

  pub Safe-Quiet : {P R : S → Type 0} {m : M S E A} → Quiet m → Safe P R m
  Safe-Quiet {P} q = record { after = λ w h r. subst P (sym (q.same w)) h }

  pub Safe-if :
      {P R : S → Type 0} (b : Bool) {m n : M S E A}
      → Safe P R m
      → Safe P R n
      → Safe P R (if b then m else n)
  Safe-if true hm hn = hm
  Safe-if false hm hn = hn

module _ {S E A B : Type 0} where
  Triple-continue :
      {P : A → S → Type 0} {R : B → S → Type 0} (r : Result E A) (f : A → M S E B) (w : World S)
      (b : B)
      → ((a : A) → r ≡ ok a → P a w.work)
      → ((a : A) → Triple (P a) (f a) R)
      → (continue r f w).0 ≡ ok b
      → R b (continue r f w).1.work
  Triple-continue (ok a) f w b h t e = (t a).after w b (h a refl) e
  Triple-continue (err x) f w b h t e = cc

  Safe-continue :
      {P : S → Type 0} {Q : A → S → Type 0} (r : Result E A) (f : A → M S E B) (w : World S)
      → P w.db
      → ((a : A) → r ≡ ok a → Q a w.work)
      → ((a : A) → Safe P (Q a) (f a))
      → P (continue r f w).1.db
  Safe-continue (ok a) f w p h t = (t a).after w p (h a refl)
  Safe-continue (err x) f w p h t = p

  Keeps-continue :
      {P : S → Type 0} (r : Result E A) (f : A → M S E B) (w : World S)
      → P w.db
      → ((a : A) → Keeps P (f a))
      → P (continue r f w).1.db
  Keeps-continue (ok a) f w p t = (t a).after w p
  Keeps-continue (err x) f w p t = p

  pub Triple-bind :
      {P : S → Type 0} {Q : A → S → Type 0} {R : B → S → Type 0} {m : M S E A} {f : A → M S E B}
      → Triple P m Q
      → ((a : A) → Triple (Q a) (f a) R)
      → Triple P (m >>= f) R
  unfolding ◌>>=◌
  Triple-bind {m} {f} tm tf = record {
    after = λ w b p e. Triple-continue (m w).0 f (m w).1 b (λ a r. tm.after w a p r) tf e;
  }

  pub Safe-bind :
      {P R : S → Type 0} {Q : A → S → Type 0} {m : M S E A} {f : A → M S E B}
      → Quiet m
      → Triple R m Q
      → ((a : A) → Safe P (Q a) (f a))
      → Safe P R (m >>= f)
  unfolding ◌>>=◌
  Safe-bind {P} {m} {f} q tm tf = record {
    after = λ w p r.
        Safe-continue (m w).0 f (m w).1 (subst P (sym (q.same w)) p) (λ a e. tm.after w a r e) tf;
  }

  pub Keeps-bind :
      {P : S → Type 0} {m : M S E A} {f : A → M S E B}
      → Quiet m
      → ((a : A) → Keeps P (f a))
      → Keeps P (m >>= f)
  unfolding ◌>>=◌
  Keeps-bind {P} {m} {f} q tf = record {
    after = λ w p. Keeps-continue (m w).0 f (m w).1 (subst P (sym (q.same w)) p) tf;
  }
