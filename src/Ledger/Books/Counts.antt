-- ===== src/Ledger/Books/Counts.antt =====
-- How the statements of ledger/projects.go change the number of kept rows and of posted entries.
use thclaws_thai_ai_agent.Base.{
  ℕ, ◌≤◌, String, ◌≡◌, refl, true, false, some, List, [], ◌∷◌, eq_iff, if◌then◌else◌, tally, exists,
  find_first, update_where, arith, Bool-cases, inl, inr,
}
use thclaws_thai_ai_agent.Ledger.Tables.{TxRow, JournalEntry}
use thclaws_thai_ai_agent.Ledger.Update.{
  TransactionUpdateInput, is_target, revised, deleted, is_posted, voided,
}
use thclaws_thai_ai_agent.Ledger.Books.{has_id, is_kept, is_pair}

-- A revision keeps every count.
pub kept-revised :
    (n i t u ns : String) (tx : TransactionUpdateInput) (xs : List TxRow)
    → tally (is_kept n i) (update_where (is_target t u ns) (revised tx) xs) ≡ tally (is_kept n i) xs
kept-revised n i t u ns tx [] = refl
kept-revised n i t u ns tx (x ∷ xs) = ground (arith, kept-revised n i t u ns tx xs)

pub ids-revised :
    (i t u ns : String) (tx : TransactionUpdateInput) (xs : List TxRow)
    → tally (has_id i) (update_where (is_target t u ns) (revised tx) xs) ≡ tally (has_id i) xs
ids-revised i t u ns tx [] = refl
ids-revised i t u ns tx (x ∷ xs) = ground (arith, ids-revised i t u ns tx xs)

pub ids-deleted :
    (i t u ns : String) (at : ℕ) (xs : List TxRow)
    → tally (has_id i) (update_where (is_target t u ns) (deleted at) xs) ≡ tally (has_id i) xs
ids-deleted i t u ns at [] = refl
ids-deleted i t u ns at (x ∷ xs) = ground (arith, ids-deleted i t u ns at xs)

pub kept-le-ids : (n i : String) (xs : List TxRow) → tally (is_kept n i) xs ≤ tally (has_id i) xs
kept-le-ids n i [] = omega arith
kept-le-ids n i (x ∷ xs) = ground (arith, kept-le-ids n i xs)

pub kept_of_target :
    (t u ns : String) (xs : List TxRow)
    → exists (is_target t u ns) xs ≡ true
    → 1 ≤ tally (is_kept ns t) xs
kept_of_target t u ns [] h = cc
kept_of_target t u ns (x ∷ xs) h = ground (arith, kept_of_target t u ns xs)

pub kept_of_found :
    (t u ns : String) (xs : List TxRow) (r : TxRow)
    → find_first (is_target t u ns) xs ≡ some r
    → 1 ≤ tally (is_kept ns t) xs
kept_of_found t u ns [] r h = cc
kept_of_found t u ns (x ∷ xs) r h = ground (arith, kept_of_found t u ns xs r)

-- Other transactions keep their count.
pub kept-deleted_ne :
    (n i t u ns : String) (at : ℕ) (xs : List TxRow)
    → is_pair ns t n i ≡ false
    → tally (is_kept n i) (update_where (is_target t u ns) (deleted at) xs) ≡ tally (is_kept n i) xs
kept-deleted_ne n i t u ns at [] h = refl
kept-deleted_ne n i t u ns at (x ∷ xs) h = ground (
  arith,
  kept-deleted_ne n i t u ns at xs h,
  eq_iff x.namespace n,
  eq_iff x.id i,
  eq_iff x.namespace ns,
  eq_iff x.id t,
  eq_iff ns n,
  eq_iff t i,
)

-- If ids are unique, the row that was deleted was the only one.
pub kept-deleted_self :
    (t u ns : String) (at : ℕ) (xs : List TxRow)
    → tally (has_id t) xs ≤ 1
    → exists (is_target t u ns) xs ≡ true
    → tally (is_kept ns t) (update_where (is_target t u ns) (deleted at) xs) ≡ 0
kept-deleted_self t u ns at [] h e = cc
kept-deleted_self t u ns at (x ∷ xs) h e = ground (
  arith,
  kept-deleted_self t u ns at xs,
  kept_of_target t u ns xs,
  kept-le-ids ns t xs,
  kept-le-ids ns t (update_where (is_target t u ns) (deleted at) xs),
  ids-deleted t t u ns at xs,
)

is_posted-voided : (n i : String) (e : JournalEntry) → is_posted n i (voided e) ≡ false
is_posted-voided n i e = ground arith

-- An entry that stays is posted for another transaction.
posted_elsewhere :
    (n i ns t : String) (e : JournalEntry)
    → is_posted ns t e ≡ false
    → is_posted n i e ≡ true
    → is_pair ns t n i ≡ false
posted_elsewhere n i ns t e h p = ground (
  arith,
  eq_iff e.namespace n,
  eq_iff e.source_transaction_id i,
  eq_iff e.namespace ns,
  eq_iff e.source_transaction_id t,
  eq_iff ns n,
  eq_iff t i,
)

-- An entry that is voided was posted for this transaction.
posted_here :
    (n i ns t : String) (e : JournalEntry)
    → is_posted ns t e ≡ true
    → is_pair ns t n i ≡ false
    → is_posted n i e ≡ false
posted_here n i ns t e h p = ground (
  arith,
  eq_iff e.namespace n,
  eq_iff e.source_transaction_id i,
  eq_iff e.namespace ns,
  eq_iff e.source_transaction_id t,
  eq_iff ns n,
  eq_iff t i,
)

-- Voiding leaves no posted entry for the transaction, and every other one.
pub posted-voided :
    (n i ns t : String) (es : List JournalEntry)
    → tally (is_posted n i) (update_where (is_posted ns t) voided es)
      ≡ (if is_pair ns t n i then 0 else tally (is_posted n i) es)
posted-voided n i ns t [] = ground arith
posted-voided n i ns t (e ∷ es) = elim (Bool-cases (is_posted ns t e)) [
  | inl h ↦ rw h (
      rw (is_posted-voided n i e) (
        rw (posted-voided n i ns t es) (elim (Bool-cases (is_pair ns t n i)) [
          | inl p ↦ rw p
          | inr p ↦ rw (p, posted_here n i ns t e h p)
        ])))
  | inr h ↦ rw h (
      rw (posted-voided n i ns t es) (elim (Bool-cases (is_posted n i e)) [
        | inl p ↦ rw (p, posted_elsewhere n i ns t e h p)
        | inr p ↦ rw p
      ]))
]
