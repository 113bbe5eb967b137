-- ===== src/Dispatcher/Handled.antt =====
-- The handlers of dispatcher/dispatcher.go: each gives one answer, and does to the ledger what its
-- calls of the ledger do.
pub mod Asked
pub mod Entered
pub mod Looked
pub mod Chatted
pub mod Answered
use thclaws_thai_ai_agent.Base.{String, List}
use thclaws_thai_ai_agent.Sql.Pooled.{Steps}
use thclaws_thai_ai_agent.Ledger.Tables.{Db, WriteTxInput}
use thclaws_thai_ai_agent.Ledger.Projects.{ProjectInput, create_project}
use thclaws_thai_ai_agent.Ledger.Writer.{create_personal_transaction}
use thclaws_thai_ai_agent.Ledger.Business.{BusinessTxInput, create_business_transaction}
use thclaws_thai_ai_agent.Ledger.Household.{HouseholdTransactionInput, create_household_transaction}
use thclaws_thai_ai_agent.Dispatcher.Does.{IsPreorder}

-- For each user a preorder on the tables, which every write for this user follows that a chat can
-- cause.
pub record IsFollowed (R : String → Db → Db → Type 0) : Type 0 where
  pub order : (u : String) → IsPreorder (R u)
  pub personal : (tx : WriteTxInput) → Steps (R tx.user_id) (create_personal_transaction tx)
  pub project : (p : ProjectInput) → Steps (R p.user_id) (create_project p)
  pub household :
      (u h : String) (i : HouseholdTransactionInput)
      → Steps (R u) (create_household_transaction u h i)
  pub business :
      (u b : String) (i : BusinessTxInput) → Steps (R u) (create_business_transaction u b i)
