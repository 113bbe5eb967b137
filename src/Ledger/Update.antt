-- ===== src/Ledger/Update.antt =====
-- `UpdateTransaction` and `DeleteTransaction` of ledger/projects.go.
use thclaws_thai_ai_agent.Base.{
  ℕ, String, Bool, Option, none, some, List, [], ◌&&◌, ◌||◌, not, str_eq, find_first, update_where,
  keep, exists, ◌==◌,
}
use thclaws_thai_ai_agent.Base.Int.{ℤ, pos, leb_ℤ}
use thclaws_thai_ai_agent.Base.Text.{is_empty, trim_space, to_upper, nullable_string}
use thclaws_thai_ai_agent.Sql.{
  SqlError, no_rows, Error, plain, wrapped, Result, ok, err, Query, M, pure, raise, guard, begin,
  commit, on_tx, recover, reading, writing, wrap, ◌>>=◌, ◌>>◌,
}
use thclaws_thai_ai_agent.Ledger.Tables.{
  AllocationInput, WriteTxInput, TxRow, JournalEntry, Allocation, str, money, time, allocs, object,
  Fields, end, field, Db,
}
use thclaws_thai_ai_agent.Ledger.Journal.{create_journal_entry}
use thclaws_thai_ai_agent.Ledger.Allocations.{is_live, validate_allocations, insert_allocations}
use thclaws_thai_ai_agent.Ledger.Events.{insert_ledger_event_tx}

-- `TransactionUpdateInput`
pub record TransactionUpdateInput : Type 0 where
  pub user_id : String
  pub agent_id : String
  pub namespace : String
  pub transaction_id : String
  pub tx_type : String
  pub amount : ℤ
  pub category : String
  pub note : String
  pub counterparty_name : String
  pub counterparty_role : String
  pub happened_at : ℕ
  pub allocations : List AllocationInput

-- `validateTransactionUpdate`
unfoldable pub validate_transaction_update : TransactionUpdateInput → M Db Error (Unit {0})
validate_transaction_update tx = do
  guard (is_empty tx.user_id || is_empty tx.namespace || is_empty tx.transaction_id)
      "ledger tx update: userID namespace and transactionID required"
  guard
      (not (
        str_eq tx.tx_type "INCOME"
        || str_eq tx.tx_type "EXPENSE"
        || str_eq tx.tx_type "TRANSFER"
        || str_eq tx.tx_type "SAVING"
        || str_eq tx.tx_type "DEBT"))
      "ledger tx update: unsupported type"
  guard (not (str_eq tx.tx_type "INCOME" || str_eq tx.tx_type "EXPENSE"))
      "ledger tx update: only income and expense are editable in this MVP"
  guard (leb_ℤ tx.amount (pos 0)) "ledger tx update: amount must be positive"
  guard (is_empty (trim_space tx.category)) "ledger tx update: category required"
  guard (tx.happened_at == 0) "ledger tx update: happenedAt required"

-- WHERE id = $1 AND "userId" = $2 AND namespace = $3 AND "deletedAt" IS NULL
abbrev pub is_target : String → String → String → TxRow → Bool
is_target tx_id user_id namespace r =
    str_eq r.id tx_id
    && str_eq r.user_id user_id
    && str_eq r.namespace namespace
    && is_live r.deleted_at

-- SELECT … FOR UPDATE
unfoldable pub select_target : String → String → String → Db → Result SqlError TxRow
select_target tx_id user_id namespace db =
    elim (find_first (is_target tx_id user_id namespace) db.transactions) [
      | some r ↦ ok r
      | none ↦ err no_rows
    ]

abbrev pub revised : TransactionUpdateInput → TxRow → TxRow
revised tx r = record r {
  tx_type = tx.tx_type;
  amount = tx.amount;
  category = tx.category;
  note = nullable_string (trim_space tx.note);
  counterparty_name = nullable_string (trim_space tx.counterparty_name);
  counterparty_role = nullable_string (trim_space tx.counterparty_role);
  happened_at = tx.happened_at;
}

unfoldable pub update_transaction_row : TransactionUpdateInput → Query Db (Unit {0})
update_transaction_row tx = writing λ _ db. record db {
  transactions =
      update_where (is_target tx.transaction_id tx.user_id tx.namespace) (revised tx)
        db.transactions;
}

-- WHERE namespace = $1 AND "sourceTransactionId" = $2 AND status = 'POSTED'
abbrev pub is_posted : String → String → JournalEntry → Bool
is_posted namespace tx_id e =
    str_eq e.namespace namespace && str_eq e.source_transaction_id tx_id && str_eq e.status "POSTED"

abbrev pub voided : JournalEntry → JournalEntry
voided e = record e { status = "VOID" }

-- UPDATE journal_entries SET status = 'VOID' WHERE …
unfoldable pub void_entries : String → String → Query Db (Unit {0})
void_entries namespace tx_id =
    writing
      λ _ db. record db { entries = update_where (is_posted namespace tx_id) voided db.entries }

abbrev pub is_allocation_of : String → String → String → Allocation → Bool
is_allocation_of tx_id user_id namespace a =
    str_eq a.transaction_id tx_id && str_eq a.user_id user_id && str_eq a.namespace namespace

-- DELETE FROM transaction_project_allocations WHERE …
unfoldable pub clear_allocations : String → String → String → Query Db (Unit {0})
clear_allocations tx_id user_id namespace = writing λ _ db. record db {
  allocations = keep (λ a. not (is_allocation_of tx_id user_id namespace a)) db.allocations;
}

-- `journalInput`, with the fresh text behind the causation as an argument
abbrev pub journal_input : TransactionUpdateInput → String → WriteTxInput
journal_input tx cause = record {
  user_id = tx.user_id;
  agent_id = tx.agent_id;
  namespace = tx.namespace;
  tx_type = tx.tx_type;
  amount = tx.amount;
  category = tx.category;
  note = tx.note;
  counterparty_name = tx.counterparty_name;
  counterparty_role = tx.counterparty_role;
  confidence = 100;
  causation_id = cause;
  happened_at = tx.happened_at;
  allocations = [];
}

abbrev text_or_empty : Option String → String
text_or_empty none = ""
text_or_empty (some s) = s

unfoldable pub updated_payload : TransactionUpdateInput → TxRow → Fields
updated_payload tx old = field "transactionId" (str tx.transaction_id) (
    field "type" (str tx.tx_type) (
      field "amount" (money tx.amount) (
        field "category" (str tx.category) (
          field "note" (str tx.note) (
            field "happenedAt" (time tx.happened_at) (
              field "old"
                (object (
                  field "type" (str old.tx_type) (
                    field "amount" (money old.amount) (
                      field "category" (str old.category) (
                        field "note" (str (text_or_empty old.note))
                          (field "happenedAt" (time old.happened_at) end))))))
                (field "allocations" (allocs tx.allocations) end)))))))

abbrev pub loaded : Result SqlError TxRow → M Db Error TxRow
loaded (ok r) = pure r
loaded (err no_rows) = raise (plain "ledger tx update: transaction not found")
loaded (err e) = raise (wrapped "ledger tx update: load" e)

-- `UpdateTransaction` behind `Begin`. `uuid.NewString()` is the argument `unique`.
unfoldable pub revise : TransactionUpdateInput → String → M Db Error (Unit {0})
revise tx cause = do
  found ← recover (on_tx (reading (select_target tx.transaction_id tx.user_id tx.namespace)))
  old ← loaded found
  validate_allocations tx.user_id tx.namespace tx.amount tx.allocations
  wrap "ledger tx update: update transaction" (on_tx (update_transaction_row tx))
  wrap "ledger tx update: void journal" (on_tx (void_entries tx.namespace tx.transaction_id))
  create_journal_entry (journal_input tx cause) tx.transaction_id
  wrap "ledger tx update: clear allocations"
      (on_tx (clear_allocations tx.transaction_id tx.user_id tx.namespace))
  insert_allocations tx.user_id tx.namespace tx.transaction_id tx.amount tx.allocations
  insert_ledger_event_tx tx.namespace tx.user_id "tx.updated" (updated_payload tx old)
  wrap "ledger tx update: commit" commit
  pure tt

-- The input as the first lines of `UpdateTransaction` leave it.
unfoldable pub cleaned : TransactionUpdateInput → TransactionUpdateInput
cleaned tx = record tx {
  tx_type = to_upper (trim_space tx.tx_type);
  category = trim_space tx.category;
  note = trim_space tx.note;
  counterparty_name = trim_space tx.counterparty_name;
  counterparty_role = trim_space tx.counterparty_role;
}

-- `UpdateTransaction`; `cause` is "tx.updated:" + id + ":" + a fresh UUID
unfoldable pub update_transaction : TransactionUpdateInput → String → M Db Error (Unit {0})
update_transaction input cause = do
  validate_transaction_update (cleaned input)
  wrap "ledger tx update: begin" begin
  revise (cleaned input) cause

abbrev pub deleted : ℕ → TxRow → TxRow
deleted t r = record r { deleted_at = some t }

-- UPDATE transactions SET "deletedAt" = NOW() …; whether a row was affected
unfoldable pub soft_delete : String → String → String → Query Db Bool
soft_delete tx_id user_id namespace st db = ok (
  exists (is_target tx_id user_id namespace) db.transactions,
  record db {
    transactions =
        update_where (is_target tx_id user_id namespace) (deleted st.now) db.transactions;
  },
)

-- `DeleteTransaction` behind `Begin`.
unfoldable pub remove : String → String → String → M Db Error (Unit {0})
remove user_id namespace tx_id = do
  affected ←
      wrap "ledger tx delete: update transaction" (on_tx (soft_delete tx_id user_id namespace))
  guard (not affected) "ledger tx delete: transaction not found"
  wrap "ledger tx delete: void journal" (on_tx (void_entries namespace tx_id))
  wrap "ledger tx delete: clear allocations" (on_tx (clear_allocations tx_id user_id namespace))
  insert_ledger_event_tx namespace user_id "tx.deleted" (field "transactionId" (str tx_id) end)
  wrap "ledger tx delete: commit" commit
  pure tt

-- `DeleteTransaction`
unfoldable pub delete_transaction : String → String → String → M Db Error (Unit {0})
delete_transaction user_id namespace tx_id = do
  guard (is_empty user_id || is_empty namespace || is_empty tx_id)
      "ledger tx delete: userID namespace and transactionID required"
  wrap "ledger tx delete: begin" begin
  remove user_id namespace tx_id
