-- ===== src/Ledger/Examples.antt =====
-- Runs of the writers of go-core/internal/ledger, and their theorems at concrete inputs.
mod Households
mod Businesses
mod Failures
mod Repeats
mod Texts
use thclaws_thai_ai_agent.Base.{
  ℕ, zero, suc, String, ◌≡◌, refl, true, false, Option, none, some, List, [], ◌∷◌, arith, str_eq,
  ◌-◌, if◌then◌else◌,
}
use thclaws_thai_ai_agent.Base.Int.{ℤ, pos, negsuc, ◌+ℤ◌, ◌-ℤ◌}
use thclaws_thai_ai_agent.Base.Text.{trim_space, nullable_string, to_upper}
use thclaws_thai_ai_agent.Sql.{
  SqlError, check_violation, unavailable, Error, plain, wrapped, Result, ok, err, World, M, pure,
  raise, guard, recover, time_now, on_tx, on_pool, begin, rollback, commit, wrap, ◌>>=◌,
}
use thclaws_thai_ai_agent.Ledger.Tables.{AllocationInput, WriteTxInput, Db}
use thclaws_thai_ai_agent.Ledger.Accounts.{account_for_transaction}
use thclaws_thai_ai_agent.Ledger.Journal.{
  upsert_account, ensure_account, insert_line, insert_journal_line, insert_entry, post_lines,
  create_journal_entry,
}
use thclaws_thai_ai_agent.Ledger.Allocations.{
  skipped, select_project, validate_one, validate_from, validate_allocations, insert_one,
  insert_allocations,
}
use thclaws_thai_ai_agent.Ledger.Events.{select_recorded, insert_event, transaction_id_of}
use thclaws_thai_ai_agent.Ledger.Writer.{
  insert_transaction, recorded_payload, with_defaults, conclude, record_transaction,
  answer_or_record, record_once, create_personal_transaction, find_existing_transaction_id,
}
use thclaws_thai_ai_agent.Ledger.Update.{
  TransactionUpdateInput, update_transaction, delete_transaction,
}
use thclaws_thai_ai_agent.Ledger.Atomic.{create_personal_transaction_atomic}
use thclaws_thai_ai_agent.Ledger.Books.{On, IsSound, IsSound-nil}
use thclaws_thai_ai_agent.Ledger.Books.Kept.{create_personal_transaction-IsSound}
use thclaws_thai_ai_agent.Ledger.Books.Changed.{
  update_transaction-IsSound, delete_transaction-IsSound,
}

abbrev pub no_rows_at_all : Db
no_rows_at_all = record {
  transactions = [];
  accounts = [];
  entries = [];
  lines = [];
  allocations = [];
  projects = [];
  events = [];
  outbox = [];
  businesses = [];
  households = [];
  members = [];
  household_transactions = [];
}

-- The ids that the server draws: "a", "b", "c", …, one for each statement.
abbrev draw : ℕ → String
draw zero = "a"
draw (suc zero) = "b"
draw (suc (suc zero)) = "c"
draw (suc (suc (suc zero))) = "d"
draw (suc (suc (suc (suc zero)))) = "e"
draw (suc (suc (suc (suc (suc n))))) = "f"

abbrev pub world : List (Option SqlError) → Db → World Db
world faults db = record {
  db = db;
  work = db;
  aborted = false;
  faults = faults;
  uuid = draw;
  drawn = 0;
  clock = 7;
}

-- กาแฟ 60
abbrev pub coffee : WriteTxInput
coffee = record {
  user_id = "u";
  agent_id = "g";
  namespace = "n";
  tx_type = "EXPENSE";
  amount = pos 6000;
  category = "อาหารและเครื่องดื่ม";
  note = "กาแฟ";
  counterparty_name = "";
  counterparty_role = "";
  confidence = 95;
  causation_id = "evt-1";
  happened_at = 5;
  allocations = [];
}

pub create_coffee : (create_personal_transaction coffee (world [] no_rows_at_all)).0 ≡ ok "b"
unfolding create_personal_transaction record_once record_transaction guard time_now begin commit
    on_tx wrap recover ◌>>=◌ select_recorded answer_or_record insert_transaction
    create_journal_entry ensure_account upsert_account account_for_transaction insert_entry
    post_lines insert_journal_line insert_line validate_allocations validate_from insert_allocations
    insert_event conclude with_defaults ◌+ℤ◌ trim_space nullable_string
create_coffee = refl

-- The fourth statement of the transaction fails.
abbrev pub fourth_fails : List (Option SqlError)
fourth_fails = none ∷ none ∷ none ∷ none ∷ some unavailable ∷ []

create_coffee_fails :
    (create_personal_transaction coffee (world fourth_fails no_rows_at_all)).0
    ≡ err (wrapped "ledger writer: ensure account" unavailable)
unfolding create_personal_transaction record_once record_transaction guard time_now begin commit
    on_tx wrap recover ◌>>=◌ select_recorded answer_or_record insert_transaction
    create_journal_entry ensure_account upsert_account account_for_transaction with_defaults
    trim_space nullable_string
create_coffee_fails = refl

create_personal_transaction_atomic_example :
    (create_personal_transaction coffee (world fourth_fails no_rows_at_all)).1.db ≡ no_rows_at_all
create_personal_transaction_atomic_example =
    create_personal_transaction_atomic coffee (world fourth_fails no_rows_at_all) _
      create_coffee_fails

create_personal_transaction-IsSound_example :
    On IsSound (create_personal_transaction coffee (world [] no_rows_at_all)).1.db
create_personal_transaction-IsSound_example =
    create_personal_transaction-IsSound coffee (world [] no_rows_at_all) IsSound-nil

-- The books after the coffee was recorded, under id "b".
abbrev pub with_coffee : World Db
with_coffee = world [] (create_personal_transaction coffee (world [] no_rows_at_all)).1.db

pub IsSound-with_coffee : On IsSound with_coffee.db
IsSound-with_coffee =
    create_personal_transaction-IsSound coffee (world [] no_rows_at_all) IsSound-nil

-- กาแฟ 65, after all
abbrev pub dearer : TransactionUpdateInput
dearer = record {
  user_id = "u";
  agent_id = "g";
  namespace = "n";
  transaction_id = "b";
  tx_type = "expense";
  amount = pos 6500;
  category = "อาหารและเครื่องดื่ม";
  note = "กาแฟ";
  counterparty_name = "";
  counterparty_role = "";
  happened_at = 5;
  allocations = [];
}

update_transaction-IsSound_example :
    On IsSound (update_transaction dearer "tx.updated:b:1" with_coffee).1.db
update_transaction-IsSound_example =
    update_transaction-IsSound dearer "tx.updated:b:1" with_coffee IsSound-with_coffee

delete_transaction-IsSound_example : On IsSound (delete_transaction "u" "n" "b" with_coffee).1.db
delete_transaction-IsSound_example =
    delete_transaction-IsSound "u" "n" "b" with_coffee IsSound-with_coffee
