-- ===== src/Dispatcher/Allocate.antt =====
-- `resolveProjectAllocations` of dispatcher/dispatcher.go, and an entry of the ledger with its card.
use thclaws_thai_ai_agent.Base.{ℕ, String, not, ◌||◌, List, [], if◌then◌else◌}
use thclaws_thai_ai_agent.Base.Int.{ℤ, pos, leb_ℤ}
use thclaws_thai_ai_agent.Sql.{Error, Result, ok, err}
use thclaws_thai_ai_agent.Ledger.Tables.{AllocationInput, Project, WriteTxInput}
use thclaws_thai_ai_agent.Ledger.Resolve.{resolve_project_allocations}
use thclaws_thai_ai_agent.Ledger.Writer.{create_personal_transaction}
use thclaws_thai_ai_agent.Dispatcher.Chat.{Service, Identity, C, return, ◌>>=◌, on_books}

-- The error is only logged.
abbrev pub resolved :
    Result Error (List AllocationInput × List Project) → List AllocationInput × List Project
resolved (ok r) = r
resolved (err e) = ([], [])

-- `resolveProjectAllocations`
unfoldable pub allocate : Service → Identity → String → ℤ → C (List AllocationInput × List Project)
allocate svc id content amount =
    if not svc.has_writer || leb_ℤ amount (pos 0)
    then return ([], [])
    else on_books (resolve_project_allocations id.user_id id.namespace content amount) >>= λ r.
        return (resolved r)

-- The parts of `WriteTxInput` that a handler chooses.
pub record Entry : Type 0 where
  pub tx_type : String
  pub amount : ℤ
  pub category : String
  pub note : String
  pub counterparty_name : String
  pub counterparty_role : String
  pub confidence : ℕ

abbrev pub input_of : Identity → String → Entry → List AllocationInput → WriteTxInput
input_of id message_id e allocations = record {
  user_id = id.user_id;
  agent_id = id.agent_id;
  namespace = id.namespace;
  tx_type = e.tx_type;
  amount = e.amount;
  category = e.category;
  note = e.note;
  counterparty_name = e.counterparty_name;
  counterparty_role = e.counterparty_role;
  confidence = e.confidence;
  causation_id = message_id;
  happened_at = 0;
  allocations = allocations;
}

-- `s.writer.CreatePersonalTransaction` with the projects that the text names
unfoldable pub record_entry :
    Service → Identity → String → String → Entry → C (Result Error String × List Project)
record_entry svc id message_id content e = do
  found ← allocate svc id content e.amount
  r ← on_books (create_personal_transaction (input_of id message_id e found.0))
  return (r, found.1)
