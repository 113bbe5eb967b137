-- ===== src/Sql/Pooled.antt =====
-- Handlers whose statements run on the pool, each in a transaction of its own: what a success
-- leaves in the committed tables, and what every run, a failing one too, leaves alone.
use thclaws_thai_ai_agent.Base.{
  String, Bool, true, false, ◌≡◌, refl, subst, sym, arith, ◌⊎◌, inl, inr,
}
use thclaws_thai_ai_agent.Sql.Actions.{
  SqlError, Error, Result, ok, err, Stamp, Query, World, M, guard, time_now, on_pool, wrap, reading,
  continue, ◌>>=◌,
}
use thclaws_thai_ai_agent.Sql.Quiet.{Quiet, Atomic}
use thclaws_thai_ai_agent.Sql.Triple.{Result-cases}

module _ {S E A : Type 0} where
  -- from tables of which `P` holds, a success returns `a` and commits tables of which `Q a` holds
  pub record Pooled (P : S → Type 0) (m : M S E A) (Q : A → S → Type 0) : Type 0 where
    pub after : (w : World S) (a : A) → P w.db → (m w).0 ≡ ok a → Q a (m w).1.db

module _ {S E A B : Type 0} where
  Pooled-continue :
      {P : A → S → Type 0} {R : B → S → Type 0} (r : Result E A) (f : A → M S E B) (w : World S)
      (b : B)
      → ((a : A) → r ≡ ok a → P a w.db)
      → ((a : A) → Pooled (P a) (f a) R)
      → (continue r f w).0 ≡ ok b
      → R b (continue r f w).1.db
  Pooled-continue (ok a) f w b h t e = (t a).after w b (h a refl) e
  Pooled-continue (err x) f w b h t e = cc

  pub Pooled-bind :
      {P : S → Type 0} {Q : A → S → Type 0} {R : B → S → Type 0} {m : M S E A} {f : A → M S E B}
      → Pooled P m Q
      → ((a : A) → Pooled (Q a) (f a) R)
      → Pooled P (m >>= f) R
  unfolding ◌>>=◌
  Pooled-bind {m} {f} tm tf = record {
    after = λ w b p e. Pooled-continue (m w).0 f (m w).1 b (λ a r. tm.after w a p r) tf e;
  }

module _ {S : Type 0} where
  pub on_pool_succeeded :
      {A : Type 0} (q : Query S A) (w : World S) (a : A)
      → (on_pool q w).0 ≡ ok a
      → q (record { id = w.uuid w.drawn; now = w.clock }) w.db ≡ ok (a, (on_pool q w).1.db)
  unfolding on_pool
  on_pool_succeeded q w a e = ground arith

  -- a failed statement commits nothing
  pub Atomic-on_pool : {A : Type 0} (m : String) (q : Query S A) → Atomic (wrap m (on_pool q))
  unfolding wrap on_pool
  Atomic-on_pool m q = record { same = λ w e p. ground arith }

  on_pool-cases :
      {A : Type 0} (q : Query S A) (w : World S)
      → ((a : A) × ((on_pool q w).0 ≡ ok a)) ⊎ ((on_pool q w).1.db ≡ w.db)
  unfolding on_pool
  on_pool-cases q w = elim (Result-cases (on_pool q w).0) [
    | inl h ↦ inl h
    | inr (x, h) ↦ inr (ground arith)
  ]

  pub was_read :
      {A : Type 0} (f : S → Result SqlError A) (st : Stamp) (s : S) (a : A) (s' : S)
      → reading f st s ≡ ok (a, s')
      → (f s ≡ ok a) × (s ≡ s')
  was_read f st s a s' e = ground arith

module _ {S : Type 0} {P : S → Type 0} where
  pub Pooled-guard-passed :
      (c : Bool) (m : String) → Pooled P (guard c m) (λ _ s. P s × (c ≡ false))
  unfolding guard
  Pooled-guard-passed true m = record { after = λ w a h e. cc }
  Pooled-guard-passed false m = record { after = λ w a h e. (h, refl) }

  pub Pooled-time_now : Pooled P time_now (λ _. P)
  unfolding time_now
  Pooled-time_now = record { after = λ w a h e. h }

  pub Pooled-on_pool :
      {A : Type 0} {Q : A → S → Type 0} (m : String) (q : Query S A)
      → ((st : Stamp) (s : S) (a : A) (s' : S) → P s → q st s ≡ ok (a, s') → Q a s')
      → Pooled P (wrap m (on_pool q)) Q
  unfolding wrap
  Pooled-on_pool m q h = record {
    after = λ w a p e. h _ w.db a (on_pool q w).1.db p (on_pool_succeeded q w a (ground arith));
  }

  pub Pooled-reading :
      {A : Type 0} (m : String) (f : S → Result SqlError A)
      → Pooled P (wrap m (on_pool (reading f))) (λ a s. P s × (f s ≡ ok a))
  Pooled-reading m f = Pooled-on_pool m (reading f) λ st s a s' p e.
      let (found, same) = was_read f st s a s' e in
      (subst P same p, subst (λ x. f x ≡ ok a) same found)

-- A relation between the tables before a run and after it, whether the run fails or not.
pub record Steps {S E A : Type 0} (R : S → S → Type 0) (m : M S E A) : Type 0 where
  pub after : (w : World S) → R w.db (m w).1.db

module _ {S : Type 0} {R : S → S → Type 0} where
  pub Steps-Quiet : {E A : Type 0} {m : M S E A} → ((s : S) → R s s) → Quiet m → Steps R m
  Steps-Quiet h q = record { after = λ w. subst (R w.db) (sym (q.same w)) (h w.db) }

  Steps-continue :
      {E A B : Type 0} (r : Result E A) (f : A → M S E B) (s : S) (w : World S)
      → ((s t u : S) → R s t → R t u → R s u)
      → R s w.db
      → ((a : A) → Steps R (f a))
      → R s (continue r f w).1.db
  Steps-continue (ok a) f s w t h k = t _ _ _ h ((k a).after w)
  Steps-continue (err x) f s w t h k = h

  pub Steps-bind :
      {E A B : Type 0} {m : M S E A} {f : A → M S E B}
      → ((s t u : S) → R s t → R t u → R s u)
      → Steps R m
      → ((a : A) → Steps R (f a))
      → Steps R (m >>= f)
  unfolding ◌>>=◌
  Steps-bind {m} {f} t hm hf = record {
    after = λ w. Steps-continue (m w).0 f w.db (m w).1 t (hm.after w) hf;
  }

  pub Steps-on_pool :
      {A : Type 0} (m : String) (q : Query S A)
      → ((s : S) → R s s)
      → ((st : Stamp) (s : S) (a : A) (s' : S) → q st s ≡ ok (a, s') → R s s')
      → Steps R (wrap m (on_pool q))
  unfolding wrap
  Steps-on_pool m q r h = record {
    after = λ w. elim (on_pool-cases q w) [
      | inl (a, e) ↦ h _ w.db a (on_pool q w).1.db (on_pool_succeeded q w a e)
      | inr e ↦ subst (R w.db) (sym e) (r w.db)
    ];
  }

unwrapped :
    {S A : Type 0} (m : String) (q : Query S A) (w : World S) (a : A)
    → (wrap m (on_pool q) w).0 ≡ ok a
    → (on_pool q w).0 ≡ ok a
unfolding wrap
unwrapped m q w a e = ground arith

-- A statement on the pool and what follows it: the tables are as they were, or what follows them.
pub after_pool :
    {S A B : Type 0} (P : S → Type 0) (m : String) (q : Query S A) (k : A → M S Error B)
    (w : World S)
    → P w.db
    → ((st : Stamp) (a : A) (s' : S) (w' : World S)
        → q st w.db ≡ ok (a, s')
        → w'.db ≡ s'
        → P (k a w').1.db)
    → P ((wrap m (on_pool q) >>= k) w).1.db
unfolding ◌>>=◌
after_pool P m q k w p h = elim (Result-cases (wrap m (on_pool q) w).0) [
  | inl (a, e) ↦ rw e (
      h _ a (on_pool q w).1.db _ (on_pool_succeeded q w a (unwrapped m q w a e))
        (unfold wrap in refl))
  | inr (x, e) ↦ rw e (subst P (sym ((Atomic-on_pool m q).same w x e)) p)
]
