-- ===== src/Ledger/Tenants/Same.antt =====
-- The journal and the allocations of one user, and the rows of another.
use thclaws_thai_ai_agent.Base.{String, false, ◌≡◌, refl, ◌∙◌, List, [], ◌∷◌, str_eq}
use thclaws_thai_ai_agent.Base.Int.{ℤ}
use thclaws_thai_ai_agent.Sql.{Query, on_tx, recover, wrap}
use thclaws_thai_ai_agent.Sql.Triple.{Triple, Triple-pure, Triple-raise, Triple-if, Triple-bind}
use thclaws_thai_ai_agent.Sql.Triple.Rules.{Triple-on_tx, Triple-wrap, Triple-recover}
use thclaws_thai_ai_agent.Ledger.Tables.{AllocationInput, WriteTxInput, Db}
use thclaws_thai_ai_agent.Ledger.Accounts.{AccountSpec}
use thclaws_thai_ai_agent.Ledger.Journal.{
  ensure_account, insert_journal_line, post_lines, create_journal_entry,
}
use thclaws_thai_ai_agent.Ledger.Allocations.{
  allocation_row, insert_one, insert_allocations, skipped,
}
use thclaws_thai_ai_agent.Ledger.Tenants.{rows_of}
use thclaws_thai_ai_agent.Ledger.Tenants.Foreign.{
  Foreign, insert_entry-Foreign, insert_allocation-Foreign, insert_line-Foreign,
  upsert_account-Foreign,
}

-- The tables in which `v` has the rows of `s`.
abbrev pub Same : String → Db → Db → Type 0
Same v s t = rows_of v t ≡ rows_of v s

module _ (v : String) (s : Db) where
  pub foreign :
      {A : Type 0} (m : String) {q : Query Db A}
      → Foreign v q
      → Triple (Same v s) (wrap m (on_tx q)) (λ _. Same v s)
  foreign m {q} h = Triple-wrap m (Triple-on_tx q (λ st t a t' p e. h.same st t a t' e ∙ p))

  pub recover-Foreign :
      {A : Type 0} {q : Query Db A}
      → Foreign v q
      → Triple (Same v s) (recover (on_tx q)) (λ _. Same v s)
  recover-Foreign {q} h = Triple-recover q (λ st t a t' p e. h.same st t a t' e ∙ p)

  insert_journal_line-Same :
      (j ns a : String) (debit credit : ℤ) (memo : String)
      → Triple (Same v s) (insert_journal_line j ns a debit credit memo) (λ _. Same v s)
  unfolding insert_journal_line
  insert_journal_line-Same j ns a debit credit memo = foreign _ (insert_line-Foreign v _)

  post_lines-Same :
      (tx : WriteTxInput) (j c t : String) → Triple (Same v s) (post_lines tx j c t) (λ _. Same v s)
  unfolding post_lines
  post_lines-Same tx j c t =
      Triple-if (str_eq tx.tx_type "INCOME")
        (λ h.
          Triple-bind (insert_journal_line-Same _ _ _ _ _ _)
            (λ _. insert_journal_line-Same _ _ _ _ _ _))
        (λ h.
          Triple-if (str_eq tx.tx_type "EXPENSE")
            (λ k.
              Triple-bind (insert_journal_line-Same _ _ _ _ _ _)
                (λ _. insert_journal_line-Same _ _ _ _ _ _))
            (λ k. Triple-raise _ _))

  ensure_account-Same :
      (ns : String) (spec : AccountSpec)
      → Triple (Same v s) (ensure_account ns spec) (λ _. Same v s)
  unfolding ensure_account
  ensure_account-Same ns spec = foreign _ (upsert_account-Foreign v ns spec)

  module _ (u : String) (n : str_eq u v ≡ false) where
    pub create_journal_entry-Same :
        (tx : WriteTxInput) (id : String)
        → tx.user_id ≡ u
        → Triple (Same v s) (create_journal_entry tx id) (λ _. Same v s)
    unfolding create_journal_entry
    create_journal_entry-Same tx id own = Triple-bind (ensure_account-Same _ _) (λ c.
        Triple-bind (ensure_account-Same _ _) (λ t.
          Triple-bind (foreign _ (insert_entry-Foreign n tx id own))
            (λ j. Triple-bind (post_lines-Same tx j c t) (λ _. Triple-pure j))))

    insert_one-Same :
        (ns t : String) (x : ℤ) (a : AllocationInput)
        → Triple (Same v s) (insert_one u ns t x a) (λ _. Same v s)
    unfolding insert_one
    insert_one-Same ns t x a =
        Triple-if (skipped a) (λ h. Triple-pure tt)
          (λ h. foreign _ (insert_allocation-Foreign n (allocation_row u ns t x a) refl))

    pub insert_allocations-Same :
        (ns t : String) (x : ℤ) (allots : List AllocationInput)
        → Triple (Same v s) (insert_allocations u ns t x allots) (λ _. Same v s)
    unfolding insert_allocations
    insert_allocations-Same ns t x [] = Triple-pure tt
    insert_allocations-Same ns t x (a ∷ rest) =
        Triple-bind (insert_one-Same ns t x a) (λ _. insert_allocations-Same ns t x rest)
