-- ===== src/Ledger/Writer.antt =====
-- `CreatePersonalTransaction` of ledger/writer.go.
mod Recorded
pub mod Repeated
use thclaws_thai_ai_agent.Base.{
  ℕ, String, none, some, ◌∷◌, ◌||◌, str_eq, if◌then◌else◌, exists, ◌==◌,
}
use thclaws_thai_ai_agent.Base.Text.{is_empty, trim_space, nullable_string}
use thclaws_thai_ai_agent.Sql.{
  SqlError, Error, wrapped, Result, ok, err, unique_violation, Query, M, pure, raise, guard,
  time_now, begin, rollback, commit, on_tx, on_pool, recover, reading, wrap, ◌>>=◌, ◌>>◌,
}
use thclaws_thai_ai_agent.Ledger.Tables.{
  WriteTxInput, TxRow, str, money, time, allocs, Fields, end, field, LedgerEvent, Db,
}
use thclaws_thai_ai_agent.Ledger.Journal.{create_journal_entry}
use thclaws_thai_ai_agent.Ledger.Allocations.{validate_allocations, insert_allocations}
use thclaws_thai_ai_agent.Ledger.Events.{transaction_id_of, select_recorded, insert_event}

-- INSERT INTO transactions … RETURNING id, with its primary key
unfoldable pub insert_transaction : (String → TxRow) → Query Db String
insert_transaction row st db =
    if exists (λ (r : TxRow). str_eq r.id st.id) db.transactions
    then err unique_violation
    else ok (st.id, record db { transactions = row st.id ∷ db.transactions })

-- The values of the personal insert.
abbrev pub personal_row : WriteTxInput → String → TxRow
personal_row tx id = record {
  id = id;
  user_id = tx.user_id;
  agent_id = some tx.agent_id;
  namespace = tx.namespace;
  scope = "PERSONAL";
  scope_id = none;
  tx_type = tx.tx_type;
  amount = tx.amount;
  category = tx.category;
  note = some tx.note;
  counterparty_name = nullable_string (trim_space tx.counterparty_name);
  counterparty_role = nullable_string (trim_space tx.counterparty_role);
  confidence = tx.confidence;
  happened_at = tx.happened_at;
  deleted_at = none;
}

-- The payload of 'tx.recorded'.
unfoldable pub recorded_payload : WriteTxInput → String → String → Fields
recorded_payload tx tx_id journal_id = field "transactionId" (str tx_id) (
    field "journalEntryId" (str journal_id) (
      field "type" (str tx.tx_type) (
        field "amount" (money tx.amount) (
          field "category" (str tx.category) (
            field "note" (str tx.note) (
              field "counterpartyName" (str (trim_space tx.counterparty_name)) (
                field "counterpartyRole" (str (trim_space tx.counterparty_role)) (
                  field "happenedAt" (time tx.happened_at)
                    (field "allocations" (allocs tx.allocations) end)))))))))

abbrev pub recorded_event : WriteTxInput → String → String → LedgerEvent
recorded_event tx tx_id journal_id = record {
  namespace = tx.namespace;
  user_id = tx.user_id;
  event_type = "tx.recorded";
  payload = recorded_payload tx tx_id journal_id;
  correlation_id = none;
  causation_id = nullable_string tx.causation_id;
  occurred_at = tx.happened_at;
}

abbrev pub payload_id : Result SqlError Fields → M Db Error String
payload_id (ok payload) = pure (transaction_id_of payload)
payload_id (err e) = raise (wrapped "ledger writer: duplicate lookup" e)

-- `findExistingTransactionID`
unfoldable pub find_existing_transaction_id : String → String → M Db Error String
find_existing_transaction_id namespace cause =
    recover (on_pool (reading (select_recorded namespace cause))) >>= payload_id

-- `Confidence == 0` and a zero `HappenedAt` stand for their defaults.
unfoldable pub with_defaults : ℕ → WriteTxInput → WriteTxInput
with_defaults t tx = record tx {
  confidence = if tx.confidence == 0 then 100 else tx.confidence;
  happened_at = if tx.happened_at == 0 then t else tx.happened_at;
}

-- What follows the insert of the event: `Commit`, or the answer to a duplicate.
unfoldable pub conclude : WriteTxInput → String → Result SqlError (Unit {0}) → M Db Error String
unfolding find_existing_transaction_id
conclude tx tx_id (ok _) = do wrap "ledger writer: commit" commit; pure tx_id
conclude tx tx_id (err unique_violation) =
    if is_empty tx.causation_id
    then raise (wrapped "ledger writer: insert event" unique_violation)
    else do rollback; find_existing_transaction_id tx.namespace tx.causation_id
conclude tx tx_id (err e) = raise (wrapped "ledger writer: insert event" e)

-- The part of `CreatePersonalTransaction` that writes.
unfoldable pub record_transaction : WriteTxInput → M Db Error String
unfolding conclude
record_transaction tx = do
  tx_id ← wrap "ledger writer: insert transaction" (on_tx (insert_transaction (personal_row tx)))
  journal_id ← create_journal_entry tx tx_id
  validate_allocations tx.user_id tx.namespace tx.amount tx.allocations
  insert_allocations tx.user_id tx.namespace tx_id tx.amount tx.allocations
  logged ← recover (on_tx (insert_event (recorded_event tx tx_id journal_id)))
  conclude tx tx_id logged

-- `if err == nil { … return existing.TransactionID, nil }`: any error of the lookup goes on
unfoldable pub answer_or_record : WriteTxInput → Result SqlError Fields → M Db Error String
answer_or_record tx (ok payload) = pure (transaction_id_of payload)
answer_or_record tx (err _) = record_transaction tx

-- The lookup of a causation that was recorded before, if the caller gave one.
unfoldable pub record_once : WriteTxInput → M Db Error String
record_once tx =
    if is_empty tx.causation_id
    then record_transaction tx
    else recover (on_tx (reading (select_recorded tx.namespace tx.causation_id)))
      >>= answer_or_record tx

-- `CreatePersonalTransaction`
unfoldable pub create_personal_transaction : WriteTxInput → M Db Error String
create_personal_transaction input = do
  guard (is_empty input.user_id || is_empty input.namespace)
      "ledger writer: userID and namespace required"
  t ← time_now
  wrap "ledger writer: begin" begin
  record_once (with_defaults t input)
