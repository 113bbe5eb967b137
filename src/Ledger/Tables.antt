-- ===== src/Ledger/Tables.antt =====
-- The rows of the tables that go-core/internal/ledger reads and writes, and its input structs.
-- Columns that the code only stores for other readers (currency, createdAt, updatedAt, isSystem,
-- sortOrder) are left out. Money is in satang, a percentage in units of 0.0001, a confidence in
-- hundredths, a time in the units of the clock with 0 for Go's zero time.
use thclaws_thai_ai_agent.Base.{ℕ, String, Option, List}
use thclaws_thai_ai_agent.Base.Int.{ℤ}

-- `AllocationInput`
pub record AllocationInput : Type 0 where
  pub project_id : String
  pub amount : ℤ
  pub note : String

-- `WriteTxInput`
pub record WriteTxInput : Type 0 where
  pub user_id : String
  pub agent_id : String
  pub namespace : String
  pub tx_type : String
  pub amount : ℤ
  pub category : String
  pub note : String
  pub counterparty_name : String
  pub counterparty_role : String
  pub confidence : ℕ
  pub causation_id : String
  pub happened_at : ℕ
  pub allocations : List AllocationInput

-- A `transactions` row.
pub record TxRow : Type 0 where
  pub id : String
  pub user_id : String
  pub agent_id : Option String
  pub namespace : String
  pub scope : String
  pub scope_id : Option String
  pub tx_type : String
  pub amount : ℤ
  pub category : String
  pub note : Option String
  pub counterparty_name : Option String
  pub counterparty_role : Option String
  pub confidence : ℕ
  pub happened_at : ℕ
  pub deleted_at : Option ℕ

-- A `chart_accounts` row.
pub record ChartAccount : Type 0 where
  pub id : String
  pub namespace : String
  pub code : String
  pub name : String
  pub account_type : String
  pub normal_balance : String

-- A `journal_entries` row.
pub record JournalEntry : Type 0 where
  pub id : String
  pub namespace : String
  pub user_id : String
  pub agent_id : Option String
  pub source_transaction_id : String
  pub memo : String
  pub status : String
  pub causation_id : Option String
  pub occurred_at : ℕ

-- A `journal_lines` row.
pub record JournalLine : Type 0 where
  pub journal_entry_id : String
  pub namespace : String
  pub account_id : String
  pub debit : ℤ
  pub credit : ℤ
  pub memo : String

-- A `transaction_project_allocations` row.
pub record Allocation : Type 0 where
  pub namespace : String
  pub user_id : String
  pub transaction_id : String
  pub project_id : String
  pub amount : ℤ
  pub percent : ℕ
  pub note : Option String

-- A `projects` row.
pub record Project : Type 0 where
  pub id : String
  pub user_id : String
  pub namespace : String
  pub name : String
  pub description : Option String
  pub color : String
  pub budget_amount : Option ℤ
  pub target_date : Option ℕ
  pub status : String
  pub deleted_at : Option ℕ

-- What `json.Marshal` makes of an event's payload.
mutual
  pub data Json : Type 0 where
    str : String → Json
    money : ℤ → Json
    time : ℕ → Json
    allocs : List AllocationInput → Json
    object : Fields → Json

  pub data Fields : Type 0 where
    end : Fields
    field : String → Json → Fields → Fields

-- A `ledger_events` row; its place in the list is the order of `id`.
pub record LedgerEvent : Type 0 where
  pub namespace : String
  pub user_id : String
  pub event_type : String
  pub payload : Fields
  pub correlation_id : Option String
  pub causation_id : Option String
  pub occurred_at : ℕ

-- A `businesses` row.
pub record BusinessRow : Type 0 where
  pub id : String
  pub owner_id : String
  pub name : String
  pub business_type : String

-- A `households` row.
pub record HouseholdRow : Type 0 where
  pub id : String
  pub name : String
  pub created_by : String

-- A `household_members` row.
pub record HouseholdMember : Type 0 where
  pub household_id : String
  pub user_id : String
  pub role : String
  pub joined_at : ℕ

-- A `household_transactions` row.
pub record HouseholdTx : Type 0 where
  pub id : String
  pub household_id : String
  pub user_id : String
  pub tx_type : String
  pub amount : ℤ
  pub category : String
  pub note : Option String
  pub happened_at : ℕ
  pub deleted_at : Option ℕ

-- An `event_outbox` row, as `Append` inserts it.
pub record OutboxEntry : Type 0 where
  pub topic : String
  pub payload : Fields

pub record Db : Type 0 where
  pub transactions : List TxRow
  pub accounts : List ChartAccount
  pub entries : List JournalEntry
  pub lines : List JournalLine
  pub allocations : List Allocation
  pub projects : List Project
  pub events : List LedgerEvent
  pub outbox : List OutboxEntry
  pub businesses : List BusinessRow
  pub households : List HouseholdRow
  pub members : List HouseholdMember
  pub household_transactions : List HouseholdTx
