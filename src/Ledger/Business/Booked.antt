-- ===== src/Ledger/Business/Booked.antt =====
-- `CreateBusinessTransaction` and `ComputeBusinessProfit` of ledger/business.go: proofs.
use thclaws_thai_ai_agent.Base.{
  String, ◌≡◌, refl, Bool, false, not, List, [], ◌∷◌, ◌&&◌, str_eq, eq_iff, arith, ap, ◌∙◌, subst,
  Bool-cases, inl, inr,
}
use thclaws_thai_ai_agent.Base.Int.{ℤ, pos, ◌+ℤ◌, ◌-ℤ◌, int_laws}
use thclaws_thai_ai_agent.Sql.{Error, ok, err, World}
use thclaws_thai_ai_agent.Sql.Quiet.{Atomic, quiet_rules}
use thclaws_thai_ai_agent.Sql.Triple.{Safe, Safe-bind, Keeps, Keeps-bind}
use thclaws_thai_ai_agent.Sql.Triple.Rules.{Safe-commit, Keeps-begin}
use thclaws_thai_ai_agent.Sql.Pooled.{
  Pooled, Pooled-bind, Pooled-guard-passed, Pooled-time_now, Pooled-reading,
}
use thclaws_thai_ai_agent.Ledger.Tables.{TxRow, Db}
use thclaws_thai_ai_agent.Ledger.Atomic.{quiet_steps, step_rules}
use thclaws_thai_ai_agent.Ledger.Books.{On, IsSound}
use thclaws_thai_ai_agent.Ledger.Books.Frame.{
  insert_allocations-frame, insert_event-aside, validate_allocations-frame,
}
use thclaws_thai_ai_agent.Ledger.Books.Posting.{
  create_journal_entry-settles, insert_transaction-opens,
}
use thclaws_thai_ai_agent.Ledger.Business.{
  BusinessTxInput, business_row, write_in, record_business, create_business_transaction,
  select_owner, sum_when, is_income, is_expense, is_purchase, profit_of,
}

record_business-Safe :
    (u b : String) (i : BusinessTxInput) → Safe (On IsSound) (On IsSound) (record_business u b i)
unfolding record_business
record_business-Safe u b i =
    Safe-bind (search quiet_steps)
      (insert_transaction-opens (business_row u b i) b _ (λ i. refl) (λ i. refl) (λ i. refl))
      λ id. Safe-bind (search quiet_steps) (create_journal_entry-settles (write_in u b i) id) λ j.
        Safe-bind (search quiet_steps) (validate_allocations-frame (On IsSound) _ _ _ _) λ _.
          Safe-bind (search quiet_steps) (insert_allocations-frame IsSound _ _ id _ _) λ _.
            Safe-bind (search quiet_steps) (insert_event-aside IsSound _ _)
              λ _. Safe-commit _ id (λ s h. h)

-- If the books are sound then they are sound after `CreateBusinessTransaction`, whatever its input
-- and whatever calls fail.
pub create_business_transaction-IsSound :
    (u b : String) (i : BusinessTxInput) (w : World Db)
    → On IsSound w.db
    → On IsSound (create_business_transaction u b i w).1.db
create_business_transaction-IsSound u b i = (whole).after
  where
    whole : Keeps (On IsSound) (create_business_transaction u b i)
    whole =
        unfold create_business_transaction in
        Keeps-bind (search quiet_rules) λ _. Keeps-bind (search quiet_rules) λ _.
          Keeps-bind (search quiet_rules) λ t.
            Keeps-bind (search quiet_rules) λ owner.
              Keeps-bind (search quiet_rules) λ _. Keeps-begin _ (record_business-Safe u b _)

record_business-Atomic : (u b : String) (i : BusinessTxInput) → Atomic (record_business u b i)
unfolding record_business
record_business-Atomic u b i = search step_rules depth 14

-- When `CreateBusinessTransaction` returns an error, whichever call failed and whatever its input,
-- the committed tables are as they were before it.
pub create_business_transaction_atomic :
    (u b : String) (i : BusinessTxInput) (w : World Db) (e : Error)
    → (create_business_transaction u b i w).0 ≡ err e
    → (create_business_transaction u b i w).1.db ≡ w.db
create_business_transaction_atomic u b i = (whole).same
  where
    whole : Atomic (create_business_transaction u b i)
    whole =
        unfold create_business_transaction in search (step_rules, record_business-Atomic) depth 14

owner_books :
    (u b : String) (i : BusinessTxInput) (db : Db)
    → Pooled (λ s. s ≡ db) (create_business_transaction u b i) (λ _ _. select_owner b db ≡ ok u)
unfolding create_business_transaction
owner_books u b i db = Pooled-bind (Pooled-guard-passed _ _) λ _.
    Pooled-bind (Pooled-guard-passed _ _) λ _. Pooled-bind Pooled-time_now λ t.
      Pooled-bind (Pooled-reading _ _) λ owner.
        Pooled-bind (Pooled-guard-passed _ _)
          λ _. record { after = λ w a p e. is_owner owner p.1 (p.0.0.0.0) p.0.1 }
  where
    is_owner :
        {s : Db} (owner : String)
        → not (str_eq owner u) ≡ false
        → s ≡ db
        → select_owner b s ≡ ok owner
        → select_owner b db ≡ ok u
    is_owner owner n same found =
        subst (λ d. select_owner b d ≡ ok u) same (found ∙ ap ok (ground (arith, eq_iff owner u)))

-- A business transaction that is recorded was recorded by the owner of the business.
pub create_business_transaction_by_owner :
    (u b : String) (i : BusinessTxInput) (w : World Db) (id : String)
    → (create_business_transaction u b i w).0 ≡ ok id
    → select_owner b w.db ≡ ok u
create_business_transaction_by_owner u b i w id e = (owner_books u b i w.db).after w id refl e

-- an expense that is no purchase of goods
abbrev pub is_other_expense : TxRow → Bool
is_other_expense r = is_expense r && not (str_eq r.category "ต้นทุนสินค้า")

left_part : (a p o : ℤ) → a +ℤ (p +ℤ o) ≡ (a +ℤ p) +ℤ (pos 0 +ℤ o)
left_part a p o = omega int_laws

right_part : (a p o : ℤ) → a +ℤ (p +ℤ o) ≡ (pos 0 +ℤ p) +ℤ (a +ℤ o)
right_part a p o = omega int_laws

expenses_split :
    (rows : List TxRow)
    → sum_when is_expense rows ≡ sum_when is_purchase rows +ℤ sum_when is_other_expense rows
unfolding sum_when
expenses_split [] = omega int_laws
expenses_split (r ∷ rs) = elim (Bool-cases (str_eq r.tx_type "EXPENSE")) [
  | inr n ↦ rw (n, expenses_split rs) (left_part (pos 0) _ _)
  | inl e ↦ elim (Bool-cases (str_eq r.category "ต้นทุนสินค้า")) [
    | inl c ↦ rw (e, c, expenses_split rs) (left_part r.amount _ _)
    | inr c ↦ rw (e, c, expenses_split rs) (right_part r.amount _ _)
  ]
]

less_by : (s p o : ℤ) → s -ℤ (p +ℤ o) ≡ (s -ℤ p) -ℤ o
less_by s p o = omega int_laws

-- The net profit is the gross profit less the expenses that are no purchases of goods: the cost of
-- goods is subtracted once, as a purchase, and not again as an expense.
pub net_profit_counts_once :
    (rows : List TxRow)
    → (profit_of rows).net_profit ≡ (profit_of rows).gross_profit -ℤ sum_when is_other_expense rows
unfolding profit_of
net_profit_counts_once rows = rw (expenses_split rows) (less_by (sum_when is_income rows) _ _)
