-- ===== src/Ledger/Books/Changed.antt =====
-- `UpdateTransaction` and `DeleteTransaction` of ledger/projects.go and the books: proofs.
use thclaws_thai_ai_agent.Base.{
  ◌≤◌, String, ◌≡◌, refl, Bool, true, false, not, List, eq_iff, tally, exists, find_first,
  update_where, arith, Bool-cases, Option-cases, subst, sym, ◌∙◌, inl, inr,
}
use thclaws_thai_ai_agent.Sql.{
  SqlError, no_rows, Result, ok, err, Stamp, World, pure, on_tx, wrap, guard,
}
use thclaws_thai_ai_agent.Sql.Triple.{
  Triple, Triple-raise, Triple-weaken, Safe, Safe-bind, Keeps, Keeps-bind,
}
use thclaws_thai_ai_agent.Sql.Triple.Rules.{
  Triple-on_tx, Triple-writing, Triple-wrap, Triple-guard, Triple-guard-passed,
  Triple-recover-found, Safe-commit, Keeps-begin,
}
use thclaws_thai_ai_agent.Ledger.Tables.{JournalEntry, JournalLine, TxRow, Db}
use thclaws_thai_ai_agent.Ledger.Update.{
  TransactionUpdateInput, is_target, is_posted, select_target, loaded, revise, update_transaction,
  update_transaction_row, void_entries, soft_delete, deleted, remove, delete_transaction,
}
use thclaws_thai_ai_agent.Ledger.Atomic.{quiet_steps}
use thclaws_thai_ai_agent.Ledger.Books.{
  On, IsSound, IsOpen, HasUniqueIds, IsBalanced, is_kept, is_pair,
}
use thclaws_thai_ai_agent.Ledger.Books.Counts.{
  kept-revised, ids-revised, ids-deleted, kept_of_found, kept-deleted_ne, kept-deleted_self,
  kept-le-ids, posted-voided,
}
use thclaws_thai_ai_agent.Ledger.Books.Frame.{
  insert_allocations-frame, insert_ledger_event_tx-frame, clear_allocations-frame,
  validate_allocations-frame,
}
use thclaws_thai_ai_agent.Ledger.Books.Posting.{create_journal_entry-settles}

-- Sound books in which the transaction to change was found.
record IsTargeted (ns t : String) (txs : List TxRow) (entries : List JournalEntry)
    (ls : List JournalLine) : Type 0 where
  sound : IsSound txs entries ls
  found : 1 ≤ tally (is_kept ns t) txs

-- Books after the transaction was deleted and before its entries are void.
record IsVoidable (ns t : String) (txs : List TxRow) (entries : List JournalEntry)
    (ls : List JournalLine) : Type 0 where
  balanced : IsBalanced txs entries ls
  unique : HasUniqueIds txs entries ls
  gone : tally (is_kept ns t) txs ≡ 0
  others :
      (n i : String)
      → is_pair ns t n i ≡ false
      → tally (is_posted n i) entries ≡ tally (is_kept n i) txs

-- The lookup of `UpdateTransaction` answers with what is there.
abbrev Answered : String → String → String → Result SqlError TxRow → Db → Type 0
Answered t u ns r s = On IsSound s × ((a : TxRow) → r ≡ ok a → select_target t u ns s ≡ ok a)

kept_of_select :
    (t u ns : String) (s : Db) (a : TxRow)
    → select_target t u ns s ≡ ok a
    → 1 ≤ tally (is_kept ns t) s.transactions
unfolding select_target
kept_of_select t u ns s a e = elim (Option-cases (find_first (is_target t u ns) s.transactions)) [
  | inl n ↦ ground arith
  | inr (r, p) ↦ kept_of_found t u ns s.transactions r p
]

loaded-targets :
    (t u ns : String) (r : Result SqlError TxRow)
    → Triple (Answered t u ns r) (loaded r) (λ _. On (IsTargeted ns t))
loaded-targets t u ns (ok a) =
    unfold pure in
    record {
      after =
          λ w b p e. record { sound = p.0; found = kept_of_select t u ns w.work a (p.1 a refl) };
    }
loaded-targets t u ns (err no_rows) = Triple-raise _ _
loaded-targets t u ns (err e) = Triple-raise _ _

update_row-targets :
    (tx : TransactionUpdateInput) (m : String)
    → Triple
        (On (IsTargeted tx.namespace tx.transaction_id))
        (wrap m (on_tx (update_transaction_row tx)))
        (λ _. On (IsTargeted tx.namespace tx.transaction_id))
unfolding update_transaction_row
update_row-targets tx m = Triple-wrap m (
    Triple-writing _ λ st s h. record {
      sound = record {
        balanced = h.sound.balanced;
        unique = λ i.
            rw (ids-revised i tx.transaction_id tx.user_id tx.namespace tx s.transactions)
              (h.sound.unique i);
        matched = λ n i.
            rw (kept-revised n i tx.transaction_id tx.user_id tx.namespace tx s.transactions)
              (h.sound.matched n i);
      };
      found =
          rw
            (kept-revised tx.namespace tx.transaction_id tx.transaction_id tx.user_id tx.namespace
              tx s.transactions)
            h.found;
    })

is_pair_iff : (ns t n i : String) → is_pair ns t n i ≡ true → (ns ≡ n) × (t ≡ i)
is_pair_iff ns t n i h = ground (arith, eq_iff ns n, eq_iff t i)

pair_kept :
    (ns t n i : String) (xs : List TxRow)
    → is_pair ns t n i ≡ true
    → tally (is_kept ns t) xs ≡ 1
    → tally (is_kept n i) xs ≡ 1
pair_kept ns t n i xs p h =
    let same = is_pair_iff ns t n i p in
    subst (λ k. tally (is_kept k i) xs ≡ 1) same.0
      (subst (λ k. tally (is_kept ns k) xs ≡ 1) same.1 h)

pair_gone :
    (ns t n i : String) (xs : List TxRow)
    → is_pair ns t n i ≡ true
    → tally (is_kept ns t) xs ≡ 0
    → tally (is_kept n i) xs ≡ 0
pair_gone ns t n i xs p h =
    let same = is_pair_iff ns t n i p in
    subst (λ k. tally (is_kept k i) xs ≡ 0) same.0
      (subst (λ k. tally (is_kept ns k) xs ≡ 0) same.1 h)

kept_once :
    (ns t : String) (s : Db) → On (IsTargeted ns t) s → tally (is_kept ns t) s.transactions ≡ 1
kept_once ns t s h = omega (arith, h.found, h.sound.unique t, kept-le-ids ns t s.transactions)

-- Voiding the entries of a transaction that is kept leaves one entry to post.
void_entries-opens :
    (ns t m : String)
    → Triple (On (IsTargeted ns t)) (wrap m (on_tx (void_entries ns t))) (λ _. On (IsOpen ns t))
unfolding void_entries
void_entries-opens ns t m = Triple-wrap m (
    Triple-writing _ λ st s h. record {
      balanced = h.sound.balanced;
      unique = h.sound.unique;
      short = λ n i. elim (Bool-cases (is_pair ns t n i)) [
        | inl p ↦
            rw (posted-voided n i ns t s.entries)
              (rw p (omega (arith, pair_kept ns t n i s.transactions p (kept_once ns t s h))))
        | inr p ↦ rw (posted-voided n i ns t s.entries) (rw p (omega (arith, h.sound.matched n i)))
      ];
    })

-- `UpdateTransaction` behind `Begin`.
revise-Safe :
    (tx : TransactionUpdateInput) (cause : String)
    → Safe (On IsSound) (On IsSound) (revise tx cause)
unfolding revise
revise-Safe tx cause =
    let ns = tx.namespace in
    let t = tx.transaction_id in
    Safe-bind (search quiet_steps) (Triple-recover-found (select_target t tx.user_id ns)) λ r.
      Safe-bind (search quiet_steps) (loaded-targets t tx.user_id ns r) λ old.
        Safe-bind (search quiet_steps) (validate_allocations-frame (On (IsTargeted ns t)) _ _ _ _)
          λ _. Safe-bind (search quiet_steps) (update_row-targets tx _) λ _.
            Safe-bind (search quiet_steps) (void_entries-opens ns t _) λ _.
              Safe-bind (search quiet_steps) (create_journal_entry-settles _ t) λ j.
                Safe-bind (search quiet_steps) (clear_allocations-frame IsSound _ t _ ns) λ _.
                  Safe-bind (search quiet_steps) (insert_allocations-frame IsSound _ _ t _ _) λ _.
                    Safe-bind (search quiet_steps) (insert_ledger_event_tx-frame IsSound _ _ _ _)
                      λ _. Safe-commit _ tt (λ s h. h)

-- If the books are sound (every journal entry balances, transaction ids are unique, and a kept
-- transaction has exactly one posted entry while any other id has none), then they are sound after
-- `UpdateTransaction`, whatever its input and whatever calls fail.
pub update_transaction-IsSound :
    (input : TransactionUpdateInput) (cause : String) (w : World Db)
    → On IsSound w.db
    → On IsSound (update_transaction input cause w).1.db
update_transaction-IsSound input cause = (whole).after
  where
    whole : Keeps (On IsSound) (update_transaction input cause)
    whole =
        unfold update_transaction in
        Keeps-bind (search quiet_steps) λ _. Keeps-begin _ (revise-Safe _ cause)

soft_deleted :
    (t u ns : String) (st : Stamp) (s : Db) (b : Bool) (s' : Db)
    → soft_delete t u ns st s ≡ ok (b, s')
    → (exists (is_target t u ns) s.transactions ≡ b)
      × (s' ≡ record s {
        transactions = update_where (is_target t u ns) (deleted st.now) s.transactions;
      })
unfolding soft_delete
soft_deleted t u ns st s b s' e = ground arith

-- If a row was affected, the transaction is gone and its entry is still posted.
soft_delete-IsVoidable :
    (ns t u m : String)
    → Triple
        (On IsSound)
        (wrap m (on_tx (soft_delete t u ns)))
        (λ b s. b ≡ true → On (IsVoidable ns t) s)
soft_delete-IsVoidable ns t u m = Triple-wrap m (
    Triple-on_tx _ λ st s b s' h e affected.
      let (hit, changed) = soft_deleted t u ns st s b s' e in
      rw changed (record {
        balanced = h.balanced;
        unique = λ i. rw (ids-deleted i t u ns st.now s.transactions) (h.unique i);
        gone = kept-deleted_self t u ns st.now s.transactions (h.unique t) (hit ∙ affected);
        others = λ n i p. h.matched n i ∙ sym (kept-deleted_ne n i t u ns st.now s.transactions p);
      }))

void_entries-IsSound :
    (ns t m : String)
    → Triple (On (IsVoidable ns t)) (wrap m (on_tx (void_entries ns t))) (λ _. On IsSound)
unfolding void_entries
void_entries-IsSound ns t m = Triple-wrap m (
    Triple-writing _ λ st s h. record {
      balanced = h.balanced;
      unique = h.unique;
      matched = λ n i. rw (posted-voided n i ns t s.entries) (elim (Bool-cases (is_pair ns t n i)) [
        | inl p ↦ rw p (sym (pair_gone ns t n i s.transactions p h.gone))
        | inr p ↦ rw p (h.others n i p)
      ]);
    })

-- A row was affected, or the handler has returned.
true_is_not_false : true ≡ false → ⊥
true_is_not_false e = cc

affected-IsVoidable :
    (ns t m : String) (b : Bool)
    → Triple (λ s. b ≡ true → On (IsVoidable ns t) s) (guard (not b) m) (λ _. On (IsVoidable ns t))
affected-IsVoidable ns t m true = Triple-weaken (Triple-guard _ m) (λ a s h. h refl)
affected-IsVoidable ns t m false =
    Triple-weaken (Triple-guard-passed true m) (λ a s h. absurd (true_is_not_false h.1))

remove-Safe : (u ns t : String) → Safe (On IsSound) (On IsSound) (remove u ns t)
unfolding remove
remove-Safe u ns t = Safe-bind (search quiet_steps) (soft_delete-IsVoidable ns t u _) λ b.
    Safe-bind (search quiet_steps) (affected-IsVoidable ns t _ b) λ _.
      Safe-bind (search quiet_steps) (void_entries-IsSound ns t _) λ _.
        Safe-bind (search quiet_steps) (clear_allocations-frame IsSound _ t u ns) λ _.
          Safe-bind (search quiet_steps) (insert_ledger_event_tx-frame IsSound _ _ _ _)
            λ _. Safe-commit _ tt (λ s h. h)

-- If the books are sound (every journal entry balances, transaction ids are unique, and a kept
-- transaction has exactly one posted entry while any other id has none), then they are sound after
-- `DeleteTransaction`, whatever its input and whatever calls fail.
pub delete_transaction-IsSound :
    (u ns t : String) (w : World Db)
    → On IsSound w.db
    → On IsSound (delete_transaction u ns t w).1.db
delete_transaction-IsSound u ns t = (whole).after
  where
    whole : Keeps (On IsSound) (delete_transaction u ns t)
    whole =
        unfold delete_transaction in
        Keeps-bind (search quiet_steps) λ _. Keeps-begin _ (remove-Safe u ns t)
