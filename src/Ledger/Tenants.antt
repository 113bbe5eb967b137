-- ===== src/Ledger/Tenants.antt =====
-- The rows of one user in the tables of go-core/internal/ledger.
pub mod Foreign
pub mod Same
pub mod Writes
use thclaws_thai_ai_agent.Base.{
  String, exists, find_first, Bool, true, false, ◌≡◌, refl, ◌∙◌, ap, Option, none, some, List, [],
  ◌∷◌, ◌++◌, str_eq, if◌then◌else◌, keep, arith, Bool-cases, inl, inr,
}
use thclaws_thai_ai_agent.Base.Int.{ℤ, pos, ltb_ℤ}
use thclaws_thai_ai_agent.Sql.{
  SqlError, no_rows, unique_violation, check_violation, Result, ok, err, Stamp, Query, on_tx,
  recover, wrap, ◌>>=◌,
}
use thclaws_thai_ai_agent.Sql.Triple.{Triple, Triple-pure, Triple-raise, Triple-if, Triple-bind}
use thclaws_thai_ai_agent.Sql.Triple.Rules.{Triple-on_tx, Triple-wrap, Triple-recover}
use thclaws_thai_ai_agent.Ledger.Tables.{
  AllocationInput, WriteTxInput, TxRow, JournalEntry, JournalLine, Allocation, Project, LedgerEvent,
  HouseholdTx, HouseholdRow, HouseholdMember, BusinessRow, ChartAccount, Fields, Db,
}
use thclaws_thai_ai_agent.Ledger.Accounts.{AccountSpec}
use thclaws_thai_ai_agent.Ledger.Journal.{
  is_account, upsert_account, ensure_account, one_sided, insert_line, insert_journal_line,
  insert_entry, post_lines, create_journal_entry,
}
use thclaws_thai_ai_agent.Ledger.Allocations.{
  allocation_row, same_slot, insert_allocation, insert_one, insert_allocations, skipped,
}
use thclaws_thai_ai_agent.Ledger.Events.{
  server_event, event_clash, insert_event, insert_server_event,
}
use thclaws_thai_ai_agent.Ledger.Projects.{ProjectInput, insert_project}
use thclaws_thai_ai_agent.Ledger.Household.{insert_household_tx}
use thclaws_thai_ai_agent.Ledger.Writer.{insert_transaction}

-- What a user has in the ledger, and the homes, members and businesses of everybody.
pub record Rows : Type 0 where
  pub transactions : List TxRow
  pub entries : List JournalEntry
  pub allocations : List Allocation
  pub projects : List Project
  pub events : List LedgerEvent
  pub household_transactions : List HouseholdTx
  pub households : List HouseholdRow
  pub members : List HouseholdMember
  pub businesses : List BusinessRow

unfoldable pub rows_of : String → Db → Rows
rows_of v db = record {
  transactions = keep (λ (r : TxRow). str_eq r.user_id v) db.transactions;
  entries = keep (λ (r : JournalEntry). str_eq r.user_id v) db.entries;
  allocations = keep (λ (r : Allocation). str_eq r.user_id v) db.allocations;
  projects = keep (λ (r : Project). str_eq r.user_id v) db.projects;
  events = keep (λ (r : LedgerEvent). str_eq r.user_id v) db.events;
  household_transactions = keep (λ (r : HouseholdTx). str_eq r.user_id v) db.household_transactions;
  households = db.households;
  members = db.members;
  businesses = db.businesses;
}
