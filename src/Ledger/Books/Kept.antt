-- ===== src/Ledger/Books/Kept.antt =====
-- `CreatePersonalTransaction` of ledger/writer.go and the books: proofs.
use thclaws_thai_ai_agent.Base.{String, refl}
use thclaws_thai_ai_agent.Sql.{
  SqlError, unique_violation, Result, ok, err, World, recover, on_tx, reading, ◌>>=◌,
}
use thclaws_thai_ai_agent.Sql.Triple.{Safe, Safe-Quiet, Safe-if, Safe-bind, Keeps, Keeps-bind}
use thclaws_thai_ai_agent.Sql.Triple.Rules.{Triple-recover-reading, Safe-commit, Keeps-begin}
use thclaws_thai_ai_agent.Ledger.Tables.{WriteTxInput, Fields, Db}
use thclaws_thai_ai_agent.Ledger.Writer.{
  conclude, record_transaction, answer_or_record, record_once, create_personal_transaction,
  personal_row,
}
use thclaws_thai_ai_agent.Ledger.Atomic.{quiet_steps}
use thclaws_thai_ai_agent.Ledger.Books.{On, IsSound}
use thclaws_thai_ai_agent.Ledger.Books.Frame.{
  insert_allocations-frame, insert_event-frame, validate_allocations-frame,
}
use thclaws_thai_ai_agent.Ledger.Books.Posting.{
  create_journal_entry-settles, insert_transaction-opens,
}

conclude-Safe :
    (tx : WriteTxInput) (id : String) (r : Result SqlError (Unit {0}))
    → Safe (On IsSound) (On IsSound) (conclude tx id r)
unfolding conclude
conclude-Safe tx id (ok _) = Safe-commit _ id (λ s h. h)
conclude-Safe tx id (err unique_violation) = Safe-Quiet (search quiet_steps)
conclude-Safe tx id (err e) = Safe-Quiet (search quiet_steps)

record_transaction-Safe :
    (tx : WriteTxInput) → Safe (On IsSound) (On IsSound) (record_transaction tx)
unfolding record_transaction
record_transaction-Safe tx =
    Safe-bind (search quiet_steps)
      (insert_transaction-opens (personal_row tx) tx.namespace _ (λ i. refl) (λ i. refl)
        (λ i. refl))
      λ id. Safe-bind (search quiet_steps) (create_journal_entry-settles tx id) λ j.
        Safe-bind (search quiet_steps) (validate_allocations-frame (On IsSound) _ _ _ _) λ _.
          Safe-bind (search quiet_steps) (insert_allocations-frame IsSound _ _ id _ _) λ _.
            Safe-bind (search quiet_steps) (insert_event-frame IsSound _) λ r. conclude-Safe tx id r

answer_or_record-Safe :
    (tx : WriteTxInput) (r : Result SqlError Fields)
    → Safe (On IsSound) (On IsSound) (answer_or_record tx r)
unfolding answer_or_record
answer_or_record-Safe tx (ok p) = Safe-Quiet (search quiet_steps)
answer_or_record-Safe tx (err e) = record_transaction-Safe tx

lookup_first-Safe :
    (tx : WriteTxInput) (f : Db → Result SqlError Fields)
    → Safe (On IsSound) (On IsSound) (recover (on_tx (reading f)) >>= answer_or_record tx)
lookup_first-Safe tx f =
    Safe-bind (search quiet_steps) (Triple-recover-reading f) (answer_or_record-Safe tx)

record_once-Safe : (tx : WriteTxInput) → Safe (On IsSound) (On IsSound) (record_once tx)
unfolding record_once
record_once-Safe tx = search (Safe-if, record_transaction-Safe, lookup_first-Safe)

-- If the books are sound (every journal entry balances, transaction ids are unique, and a kept
-- transaction has exactly one posted entry while any other id has none), then they are sound after
-- `CreatePersonalTransaction`, whatever its input and whatever calls fail.
pub create_personal_transaction-IsSound :
    (input : WriteTxInput) (w : World Db)
    → On IsSound w.db
    → On IsSound (create_personal_transaction input w).1.db
create_personal_transaction-IsSound input = (whole).after
  where
    whole : Keeps (On IsSound) (create_personal_transaction input)
    whole =
        unfold create_personal_transaction in
        Keeps-bind (search quiet_steps)
          λ _. Keeps-bind (search quiet_steps) λ t. Keeps-begin _ (record_once-Safe _)
