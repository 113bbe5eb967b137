-- ===== src/Ledger/Business.antt =====
-- Businesses: ledger/business.go and ledger/business_management.go.
pub mod Booked
pub mod Sale
use thclaws_thai_ai_agent.Base.{
  ℕ, String, Bool, true, false, not, Option, none, some, List, [], ◌∷◌, ◌&&◌, ◌||◌, ◌==◌, str_eq,
  if◌then◌else◌, find_first, keep, leb,
}
use thclaws_thai_ai_agent.Base.Int.{ℤ, pos, ◌+ℤ◌, ◌-ℤ◌}
use thclaws_thai_ai_agent.Base.Text.{is_empty, trim_space, nullable_string}
use thclaws_thai_ai_agent.Sql.{
  SqlError, no_rows, Error, plain, wrapped, Result, ok, err, M, pure, raise, guard, time_now, begin,
  commit, on_tx, on_pool, recover, reading, wrap, ◌>>=◌, ◌>>◌, Query,
}
use thclaws_thai_ai_agent.Ledger.Tables.{
  WriteTxInput, TxRow, BusinessRow, str, money, time, Fields, end, field, LedgerEvent, Db,
}
use thclaws_thai_ai_agent.Ledger.Journal.{create_journal_entry}
use thclaws_thai_ai_agent.Ledger.Allocations.{is_live, validate_allocations, insert_allocations}
use thclaws_thai_ai_agent.Ledger.Events.{insert_event}
use thclaws_thai_ai_agent.Ledger.Writer.{insert_transaction}

-- `BusinessTxInput`; quantity and unit price are not written anywhere
pub record BusinessTxInput : Type 0 where
  pub tx_type : String
  pub amount : ℤ
  pub category : String
  pub note : String
  pub happened_at : ℕ

-- `BusinessProfitSummary`
pub record BusinessProfitSummary : Type 0 where
  pub total_sales : ℤ
  pub total_purchases : ℤ
  pub total_expenses : ℤ
  pub gross_profit : ℤ
  pub net_profit : ℤ

-- SELECT "ownerId" FROM businesses WHERE id = $1
unfoldable pub select_owner : String → Db → Result SqlError String
select_owner business_id db =
    elim (find_first (λ (b : BusinessRow). str_eq b.id business_id) db.businesses) [
      | some b ↦ ok b.owner_id
      | none ↦ err no_rows
    ]

-- The values of the business insert.
abbrev pub business_row : String → String → BusinessTxInput → String → TxRow
business_row user_id business_id input id = record {
  id = id;
  user_id = user_id;
  agent_id = none;
  namespace = business_id;
  scope = "BUSINESS";
  scope_id = some business_id;
  tx_type = input.tx_type;
  amount = input.amount;
  category = input.category;
  note = nullable_string (trim_space input.note);
  counterparty_name = none;
  counterparty_role = none;
  confidence = 100;
  happened_at = input.happened_at;
  deleted_at = none;
}

-- `writeIn`
abbrev pub write_in : String → String → BusinessTxInput → WriteTxInput
write_in user_id business_id input = record {
  user_id = user_id;
  agent_id = "";
  namespace = business_id;
  tx_type = input.tx_type;
  amount = input.amount;
  category = input.category;
  note = input.note;
  counterparty_name = "";
  counterparty_role = "";
  confidence = 100;
  causation_id = "";
  happened_at = input.happened_at;
  allocations = [];
}

unfoldable pub business_payload : String → BusinessTxInput → String → String → Fields
business_payload business_id input tx_id journal_id = field "transactionId" (str tx_id) (
    field "journalEntryId" (str journal_id) (
      field "type" (str input.tx_type) (
        field "amount" (money input.amount) (
          field "category" (str input.category) (
            field "note" (str input.note) (
              field "happenedAt" (time input.happened_at)
                (field "businessId" (str business_id) end)))))))

abbrev pub business_event : String → String → BusinessTxInput → String → String → LedgerEvent
business_event user_id business_id input tx_id journal_id = record {
  namespace = business_id;
  user_id = user_id;
  event_type = "tx.recorded";
  payload = business_payload business_id input tx_id journal_id;
  correlation_id = none;
  causation_id = none;
  occurred_at = input.happened_at;
}

-- `CreateBusinessTransaction` behind `Begin`. Both errors of the event insert end the call.
unfoldable pub record_business : String → String → BusinessTxInput → M Db Error String
record_business user_id business_id input = do
  tx_id ←
      wrap "ledger business writer: insert transaction"
        (on_tx (insert_transaction (business_row user_id business_id input)))
  journal_id ← create_journal_entry (write_in user_id business_id input) tx_id
  validate_allocations user_id business_id input.amount []
  insert_allocations user_id business_id tx_id input.amount []
  wrap "ledger business writer: insert event"
      (on_tx (insert_event (business_event user_id business_id input tx_id journal_id)))
  wrap "ledger business writer: commit" commit
  pure tx_id

-- A zero `HappenedAt` stands for now.
abbrev pub dated : ℕ → BusinessTxInput → BusinessTxInput
dated t input = record input {
  happened_at = if input.happened_at == 0 then t else input.happened_at;
}

-- `CreateBusinessTransaction`
unfoldable pub create_business_transaction : String → String → BusinessTxInput → M Db Error String
create_business_transaction user_id business_id input = do
  guard (is_empty user_id || is_empty business_id)
      "ledger business writer: userID and businessID required"
  guard (not (str_eq input.tx_type "INCOME" || str_eq input.tx_type "EXPENSE"))
      "ledger business writer: type must be INCOME or EXPENSE"
  t ← time_now
  owner_id ←
      wrap "ledger business writer: business not found"
        (on_pool (reading (select_owner business_id)))
  guard (not (str_eq owner_id user_id)) "ledger business writer: user is not the business owner"
  wrap "ledger business writer: begin" begin
  record_business user_id business_id (dated t input)

-- WHERE scope = 'BUSINESS' AND "scopeId" = $1 AND "deletedAt" IS NULL AND "happenedAt" BETWEEN …
abbrev pub in_business : String → ℕ → ℕ → TxRow → Bool
in_business business_id from to r =
    str_eq r.scope "BUSINESS"
    && elim r.scope_id [ none ↦ false | some b ↦ str_eq b business_id ]
    && is_live r.deleted_at
    && leb from r.happened_at
    && leb r.happened_at to

-- COALESCE(SUM(CASE WHEN p THEN amount ELSE 0 END), 0)
unfoldable pub sum_when : (TxRow → Bool) → List TxRow → ℤ
sum_when p [] = pos 0
sum_when p (r ∷ rs) = (if p r then r.amount else pos 0) +ℤ sum_when p rs

abbrev pub is_income : TxRow → Bool
is_income r = str_eq r.tx_type "INCOME"

abbrev pub is_expense : TxRow → Bool
is_expense r = str_eq r.tx_type "EXPENSE"

abbrev pub is_purchase : TxRow → Bool
is_purchase r = is_expense r && str_eq r.category "ต้นทุนสินค้า"

-- The SELECT of `ComputeBusinessProfit`, and the two differences.
unfoldable pub profit_of : List TxRow → BusinessProfitSummary
profit_of rows =
    let sales = sum_when is_income rows in
    let purchases = sum_when is_purchase rows in
    let expenses = sum_when is_expense rows in
    record {
      total_sales = sales;
      total_purchases = purchases;
      total_expenses = expenses;
      gross_profit = sales -ℤ purchases;
      net_profit = sales -ℤ expenses;
    }

-- `ComputeBusinessProfit`
unfoldable pub compute_business_profit : String → ℕ → ℕ → M Db Error BusinessProfitSummary
compute_business_profit business_id from to = do
  guard (is_empty business_id) "ledger business: businessID required"
  wrap "ledger business: profit summary" (
      on_pool
        (reading (λ db. ok (profit_of (keep (in_business business_id from to) db.transactions)))))

abbrev kind_or_default : String → String
kind_or_default kind = if is_empty kind then "ร้านค้าเล็ก" else kind

unfoldable pub insert_business : String → String → String → Query Db BusinessRow
insert_business owner_id name kind st db =
    let row : BusinessRow = record {
      id = st.id;
      owner_id = owner_id;
      name = name;
      business_type = kind;
    } in
    ok (row, record db { businesses = row ∷ db.businesses })

-- `CreateBusiness`
unfoldable pub create_business : String → String → String → M Db Error BusinessRow
create_business owner_id name kind = do
  guard (is_empty (trim_space name)) "ledger business: name required"
  wrap "ledger business: create"
      (on_pool (insert_business owner_id (trim_space name) (kind_or_default kind)))

-- `ListMyBusinesses`, but for its order
unfoldable pub list_my_businesses : String → M Db Error (List BusinessRow)
list_my_businesses owner_id = wrap "ledger business: list" (
    on_pool
      (reading (λ db. ok (keep (λ (b : BusinessRow). str_eq b.owner_id owner_id) db.businesses))))
