-- ===== src/Sql/Triple/Rules.antt =====
-- What the statements of a transaction preserve.
use thclaws_thai_ai_agent.Base.{
  String, Bool, true, false, ◌≡◌, refl, subst, sym, ◌∙◌, ◌⊎◌, inl, inr, arith,
}
use thclaws_thai_ai_agent.Sql.Actions.{
  SqlError, Error, Result, ok, err, Stamp, Query, World, M, pure, guard, recover, on_tx, begin,
  commit, wrap, reading, writing, ◌>>=◌,
}
use thclaws_thai_ai_agent.Sql.Triple.{Keeps, Result-cases, Safe, Triple}

module _ {S : Type 0} where
  pub on_tx_succeeded :
      {A : Type 0} (q : Query S A) (w : World S) (a : A)
      → (on_tx q w).0 ≡ ok a
      → q (record { id = w.uuid w.drawn; now = w.clock }) w.work ≡ ok (a, (on_tx q w).1.work)
  unfolding on_tx
  on_tx_succeeded q w a e = ground arith

  reading_changes_nothing :
      {A : Type 0} (f : S → Result SqlError A) (w : World S) → (on_tx (reading f) w).1.work ≡ w.work
  unfolding on_tx
  reading_changes_nothing f w = ground arith

  written :
      (f : Stamp → S → S) (st : Stamp) (s : S) (a : Unit {0}) (s' : S)
      → writing f st s ≡ ok (a, s')
      → f st s ≡ s'
  written f st s a s' e = ground arith

  reading_found :
      {A : Type 0} (f : S → Result SqlError A) (w : World S) (a : A)
      → (on_tx (reading f) w).0 ≡ ok a
      → f w.work ≡ ok a
  unfolding on_tx
  reading_found f w a e = ground arith

  on_tx-cases :
      {A : Type 0} (q : Query S A) (w : World S)
      → ((a : A) × ((on_tx q w).0 ≡ ok a)) ⊎ ((on_tx q w).1.work ≡ w.work)
  unfolding on_tx
  on_tx-cases q w = elim (Result-cases (on_tx q w).0) [
    | inl h ↦ inl h
    | inr (x, h) ↦ inr (ground arith)
  ]

  commit-cases : (w : World S) → ((commit w).1.db ≡ w.db) ⊎ ((commit w).1.db ≡ w.work)
  unfolding commit
  commit-cases w = ground arith

  begin-cases :
      (w : World S)
      → (((begin w).0 ≡ ok tt) × ((begin w).1.work ≡ w.db) × ((begin w).1.db ≡ w.db))
        ⊎ ((e : SqlError) × ((begin w).0 ≡ err e) × ((begin w).1.db ≡ w.db))
  unfolding begin
  begin-cases w = ground arith

module _ {S : Type 0} {P : S → Type 0} where
  pub Triple-guard : (c : Bool) (m : String) → Triple P (guard c m) (λ _. P)
  unfolding guard
  Triple-guard c m = record { after = λ w a h e. h }

  pub Triple-guard-passed :
      (c : Bool) (m : String) → Triple P (guard c m) (λ _ s. P s × (c ≡ false))
  unfolding guard
  Triple-guard-passed true m = record { after = λ w a h e. cc }
  Triple-guard-passed false m = record { after = λ w a h e. (h, refl) }

  pub Triple-on_tx :
      {A : Type 0} {Q : A → S → Type 0} (q : Query S A)
      → ((st : Stamp) (s : S) (a : A) (s' : S) → P s → q st s ≡ ok (a, s') → Q a s')
      → Triple P (on_tx q) Q
  Triple-on_tx q h = record {
    after = λ w a p e. h _ w.work a (on_tx q w).1.work p (on_tx_succeeded q w a e);
  }

  pub Triple-writing :
      {Q : S → Type 0} (f : Stamp → S → S)
      → ((st : Stamp) (s : S) → P s → Q (f st s))
      → Triple P (on_tx (writing f)) (λ _. Q)
  Triple-writing {Q} f h =
      Triple-on_tx (writing f) λ st s a s' p e. subst Q (written f st s a s' e) (h st s p)

  pub Triple-wrap :
      {A : Type 0} {Q : A → S → Type 0} (m : String) {a : M S SqlError A}
      → Triple P a Q
      → Triple P (wrap m a) Q
  unfolding wrap
  Triple-wrap m {a} t = record { after = λ w b p e. t.after w b p (ground arith) }

  on_tx_kept :
      {A : Type 0} (q : Query S A) (w : World S)
      → ((st : Stamp) (s : S) (a : A) (s' : S) → P s → q st s ≡ ok (a, s') → P s')
      → P w.work
      → P (on_tx q w).1.work
  on_tx_kept q w h p = elim (on_tx-cases q w) [
    | inl (a, e) ↦ h _ w.work a (on_tx q w).1.work p (on_tx_succeeded q w a e)
    | inr e ↦ subst P (sym e) p
  ]

  -- the caller goes on after an error too, with the tables as they were
  pub Triple-recover :
      {A : Type 0} (q : Query S A)
      → ((st : Stamp) (s : S) (a : A) (s' : S) → P s → q st s ≡ ok (a, s') → P s')
      → Triple P (recover (on_tx q)) (λ _. P)
  unfolding recover
  Triple-recover q h = record { after = λ w b p e. on_tx_kept q w h p }

  pub Triple-recover-found :
      {A : Type 0} (f : S → Result SqlError A)
      → Triple P (recover (on_tx (reading f))) (λ r s. P s × ((a : A) → r ≡ ok a → f s ≡ ok a))
  unfolding recover
  Triple-recover-found f = record {
    after = λ w b p e. (
      subst P (sym (reading_changes_nothing f w)) p,
      λ a r. rw (reading_changes_nothing f w) (reading_found f w a (ground arith)),
    );
  }

  pub Triple-recover-reading :
      {A : Type 0} (f : S → Result SqlError A) → Triple P (recover (on_tx (reading f))) (λ _. P)
  unfolding recover
  Triple-recover-reading f = record {
    after = λ w b p e. subst P (sym (reading_changes_nothing f w)) p;
  }

  pub Safe-commit :
      {A : Type 0} {R : S → Type 0} (m : String) (a : A)
      → ((s : S) → R s → P s)
      → Safe P R (wrap m commit >>= λ _. pure a)
  Safe-commit m a h = record {
    after = λ w p r. elim (commit-cases w) [
      | inl e ↦ subst P (sym (after-commit w ∙ e)) p
      | inr e ↦ subst P (sym (after-commit w ∙ e)) (h w.work r)
    ];
  }
    where
      after-commit : (w : World S) → ((wrap m commit >>= λ _. pure a) w).1.db ≡ (commit w).1.db
      after-commit w = unfold ◌>>=◌ wrap in ground arith

  -- after `Begin` the open transaction is what is committed
  pub Keeps-begin :
      {A : Type 0} (m : String) {rest : M S Error A}
      → Safe P P rest
      → Keeps P (wrap m begin >>= λ _. rest)
  unfolding ◌>>=◌ wrap
  Keeps-begin m {rest} t = record {
    after = λ w p. elim (begin-cases w) [
      | inl (r, e, d) ↦ rw r (t.after (begin w).1 (subst P (sym d) p) (subst P (sym e) p))
      | inr (x, r, d) ↦ rw r (subst P (sym d) p)
    ];
  }
