-- ===== src/Ledger/Atomic.antt =====
-- What a failing call of the writers of go-core/internal/ledger commits: proofs.
use thclaws_thai_ai_agent.Base.{String, ◌≡◌, List, [], ◌∷◌}
use thclaws_thai_ai_agent.Base.Int.{ℤ}
use thclaws_thai_ai_agent.Sql.{
  SqlError, no_rows, unique_violation, Error, Result, ok, err, Stamp, World,
}
use thclaws_thai_ai_agent.Sql.Quiet.{Quiet, Atomic, Quiet-bind, quiet_rules, atomic_rules}
use thclaws_thai_ai_agent.Ledger.Tables.{AllocationInput, WriteTxInput, Fields, TxRow, Db}
use thclaws_thai_ai_agent.Ledger.Accounts.{AccountSpec}
use thclaws_thai_ai_agent.Ledger.Journal.{
  ensure_account, insert_journal_line, post_lines, create_journal_entry,
}
use thclaws_thai_ai_agent.Ledger.Allocations.{insert_one, insert_allocations}
use thclaws_thai_ai_agent.Ledger.Allocations.Checked.{validate_allocations-Quiet}
use thclaws_thai_ai_agent.Ledger.Events.{LedgerEventInput, insert_ledger_event_tx, enqueue, append}
use thclaws_thai_ai_agent.Ledger.Writer.{
  payload_id, find_existing_transaction_id, conclude, record_transaction, answer_or_record,
  record_once, create_personal_transaction,
}
use thclaws_thai_ai_agent.Ledger.Update.{
  TransactionUpdateInput, validate_transaction_update, loaded, revise, update_transaction, remove,
  delete_transaction,
}

pub ensure_account-Quiet : (ns : String) (spec : AccountSpec) → Quiet (ensure_account ns spec)
unfolding ensure_account
ensure_account-Quiet ns spec = search quiet_rules

pub insert_journal_line-Quiet :
    (j ns a : String) (d c : ℤ) (m : String) → Quiet (insert_journal_line j ns a d c m)
unfolding insert_journal_line
insert_journal_line-Quiet j ns a d c m = search quiet_rules

pub post_lines-Quiet : (tx : WriteTxInput) (j c t : String) → Quiet (post_lines tx j c t)
unfolding post_lines
post_lines-Quiet tx j c t = search (quiet_rules, insert_journal_line-Quiet)

pub create_journal_entry-Quiet :
    (tx : WriteTxInput) (tx_id : String) → Quiet (create_journal_entry tx tx_id)
unfolding create_journal_entry
create_journal_entry-Quiet tx tx_id =
    search (quiet_rules, ensure_account-Quiet, post_lines-Quiet) depth 8

insert_one-Quiet : (u ns t : String) (x : ℤ) (a : AllocationInput) → Quiet (insert_one u ns t x a)
unfolding insert_one
insert_one-Quiet u ns t x a = search quiet_rules

pub insert_allocations-Quiet :
    (u ns t : String) (x : ℤ) (allots : List AllocationInput)
    → Quiet (insert_allocations u ns t x allots)
unfolding insert_allocations
insert_allocations-Quiet u ns t x [] = search quiet_rules
insert_allocations-Quiet u ns t x (a ∷ rest) =
    Quiet-bind _ _ (insert_one-Quiet u ns t x a) (λ _. insert_allocations-Quiet u ns t x rest)

pub insert_ledger_event_tx-Quiet :
    (ns u ty : String) (p : Fields) → Quiet (insert_ledger_event_tx ns u ty p)
unfolding insert_ledger_event_tx
insert_ledger_event_tx-Quiet ns u ty p = search quiet_rules

payload_id-Quiet : (r : Result SqlError Fields) → Quiet (payload_id r)
payload_id-Quiet (ok p) = search quiet_rules
payload_id-Quiet (err e) = search quiet_rules

pub find_existing_transaction_id-Quiet : (ns c : String) → Quiet (find_existing_transaction_id ns c)
unfolding find_existing_transaction_id
find_existing_transaction_id-Quiet ns c = search (quiet_rules, payload_id-Quiet)

pub ruleset step_rules = (
  atomic_rules, create_journal_entry-Quiet, validate_allocations-Quiet, insert_allocations-Quiet,
  insert_ledger_event_tx-Quiet, find_existing_transaction_id-Quiet,
)

conclude-Atomic :
    (tx : WriteTxInput) (id : String) (r : Result SqlError (Unit {0})) → Atomic (conclude tx id r)
unfolding conclude
conclude-Atomic tx id (ok _) = search step_rules
conclude-Atomic tx id (err unique_violation) = search step_rules
conclude-Atomic tx id (err e) = search step_rules

record_transaction-Atomic : (tx : WriteTxInput) → Atomic (record_transaction tx)
unfolding record_transaction
record_transaction-Atomic tx = search (step_rules, conclude-Atomic) depth 9

answer_or_record-Atomic :
    (tx : WriteTxInput) (r : Result SqlError Fields) → Atomic (answer_or_record tx r)
unfolding answer_or_record
answer_or_record-Atomic tx (ok p) = search step_rules
answer_or_record-Atomic tx (err e) = record_transaction-Atomic tx

record_once-Atomic : (tx : WriteTxInput) → Atomic (record_once tx)
unfolding record_once
record_once-Atomic tx = search (step_rules, answer_or_record-Atomic, record_transaction-Atomic)

create_personal_transaction-Atomic :
    (input : WriteTxInput) → Atomic (create_personal_transaction input)
unfolding create_personal_transaction
create_personal_transaction-Atomic input = search (step_rules, record_once-Atomic) depth 7

-- When `CreatePersonalTransaction` returns an error, whichever call failed and whatever its input,
-- the committed tables are as they were before it.
pub create_personal_transaction_atomic :
    (input : WriteTxInput) (w : World Db) (e : Error)
    → (create_personal_transaction input w).0 ≡ err e
    → (create_personal_transaction input w).1.db ≡ w.db
create_personal_transaction_atomic input = (create_personal_transaction-Atomic input).same

pub validate_transaction_update-Quiet :
    (tx : TransactionUpdateInput) → Quiet (validate_transaction_update tx)
unfolding validate_transaction_update
validate_transaction_update-Quiet tx = search quiet_rules depth 9

pub loaded-Quiet : (r : Result SqlError TxRow) → Quiet (loaded r)
loaded-Quiet (ok r) = search quiet_rules
loaded-Quiet (err no_rows) = search quiet_rules
loaded-Quiet (err e) = search quiet_rules

-- What commits nothing by itself.
pub ruleset quiet_steps = (
  quiet_rules, create_journal_entry-Quiet, insert_allocations-Quiet, insert_ledger_event_tx-Quiet,
  find_existing_transaction_id-Quiet, validate_transaction_update-Quiet, loaded-Quiet,
  validate_allocations-Quiet,
)

revise-Atomic : (tx : TransactionUpdateInput) (cause : String) → Atomic (revise tx cause)
unfolding revise
revise-Atomic tx cause = search (step_rules, loaded-Quiet) depth 14

-- When `UpdateTransaction` returns an error, whichever call failed and whatever its input, the
-- committed tables are as they were before it.
pub update_transaction_atomic :
    (input : TransactionUpdateInput) (cause : String) (w : World Db) (e : Error)
    → (update_transaction input cause w).0 ≡ err e
    → (update_transaction input cause w).1.db ≡ w.db
update_transaction_atomic input cause = (whole).same
  where
    whole : Atomic (update_transaction input cause)
    whole =
        unfold update_transaction in
        search (step_rules, validate_transaction_update-Quiet, revise-Atomic) depth 7

remove-Atomic : (u ns t : String) → Atomic (remove u ns t)
unfolding remove
remove-Atomic u ns t = search step_rules depth 12

-- When `DeleteTransaction` returns an error, whichever call failed and whatever its input, the
-- committed tables are as they were before it.
delete_transaction_atomic :
    (u ns t : String) (w : World Db) (e : Error)
    → (delete_transaction u ns t w).0 ≡ err e
    → (delete_transaction u ns t w).1.db ≡ w.db
delete_transaction_atomic u ns t = (whole).same
  where
    whole : Atomic (delete_transaction u ns t)
    whole = unfold delete_transaction in search (step_rules, remove-Atomic) depth 7

enqueue-Quiet : (input : LedgerEventInput) (st : Stamp) → Quiet (enqueue input st)
unfolding enqueue
enqueue-Quiet input st = search quiet_rules

-- When `Append` returns an error neither the event nor its outbox row is committed.
append_atomic :
    (input : LedgerEventInput) (w : World Db) (e : Error)
    → (append input w).0 ≡ err e
    → (append input w).1.db ≡ w.db
append_atomic input = (whole).same
  where
    whole : Atomic (append input)
    whole = unfold append in search (step_rules, enqueue-Quiet) depth 8
