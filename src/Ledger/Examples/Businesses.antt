-- ===== src/Ledger/Examples/Businesses.antt =====
-- Runs of the business functions and of the dashboard's check, and their theorems at concrete inputs.
use thclaws_thai_ai_agent.Base.{String, ◌≡◌, refl, true, none, List, [], ◌∷◌}
use thclaws_thai_ai_agent.Base.Int.{pos, ◌+ℤ◌, ◌-ℤ◌}
use thclaws_thai_ai_agent.Base.Text.{nullable_string}
use thclaws_thai_ai_agent.Sql.{
  plain, ok, err, World, guard, time_now, on_pool, on_tx, begin, commit, wrap, ◌>>=◌,
}
use thclaws_thai_ai_agent.Ledger.Tables.{TxRow, Project, Db}
use thclaws_thai_ai_agent.Ledger.Accounts.{account_for_transaction}
use thclaws_thai_ai_agent.Ledger.Journal.{
  upsert_account, ensure_account, insert_line, insert_journal_line, insert_entry, post_lines,
  create_journal_entry,
}
use thclaws_thai_ai_agent.Ledger.Allocations.{
  validate_from, validate_allocations, insert_allocations, amounts, split_project_allocations,
}
use thclaws_thai_ai_agent.Ledger.Allocations.Split.{split_project_allocations-amounts}
use thclaws_thai_ai_agent.Ledger.Events.{insert_event}
use thclaws_thai_ai_agent.Ledger.Writer.{insert_transaction}
use thclaws_thai_ai_agent.Ledger.Business.{
  BusinessTxInput, select_owner, record_business, create_business_transaction, profit_of, sum_when,
  business_row,
}
use thclaws_thai_ai_agent.Ledger.Business.Booked.{
  create_business_transaction-IsSound, create_business_transaction_atomic,
  create_business_transaction_by_owner, is_other_expense, net_profit_counts_once,
}
use thclaws_thai_ai_agent.Ledger.Books.{On, IsSound, IsSound-nil}
use thclaws_thai_ai_agent.Ledger.Check.{select_check, ledger_check_passes}
use thclaws_thai_ai_agent.Ledger.Examples.{no_rows_at_all, world, with_coffee, IsSound-with_coffee}

-- Business "s" of the owner "o".
abbrev shop : World Db
shop = world [] (record no_rows_at_all {
  businesses =
      record { id = "s"; owner_id = "o"; name = "ร้าน"; business_type = "ร้านค้าเล็ก" } ∷ [];
})

abbrev sale : BusinessTxInput
sale = record {
  tx_type = "INCOME";
  amount = pos 90_000;
  category = "รายได้จากการขาย";
  note = "";
  happened_at = 5;
}

owner_sells : (create_business_transaction "o" "s" sale shop).0 ≡ ok "b"
unfolding create_business_transaction record_business guard time_now begin commit on_tx on_pool wrap
    ◌>>=◌ select_owner insert_transaction create_journal_entry ensure_account upsert_account
    account_for_transaction insert_entry post_lines insert_journal_line insert_line
    validate_allocations validate_from insert_allocations insert_event ◌+ℤ◌ nullable_string
owner_sells = refl

create_business_transaction-IsSound_example :
    On IsSound (create_business_transaction "o" "s" sale shop).1.db
create_business_transaction-IsSound_example =
    create_business_transaction-IsSound "o" "s" sale shop IsSound-nil

create_business_transaction_by_owner_example : select_owner "s" shop.db ≡ ok "o"
create_business_transaction_by_owner_example =
    create_business_transaction_by_owner "o" "s" sale shop "b" owner_sells

stranger_sells :
    (create_business_transaction "x" "s" sale shop).0
    ≡ err (plain "ledger business writer: user is not the business owner")
unfolding create_business_transaction guard time_now on_pool wrap ◌>>=◌ select_owner
stranger_sells = refl

create_business_transaction_atomic_example :
    (create_business_transaction "x" "s" sale shop).1.db ≡ shop.db
create_business_transaction_atomic_example =
    create_business_transaction_atomic "x" "s" sale shop _ stranger_sells

abbrev stock : BusinessTxInput
stock = record sale { tx_type = "EXPENSE"; amount = pos 40_000; category = "ต้นทุนสินค้า" }

abbrev rent : BusinessTxInput
rent = record sale { tx_type = "EXPENSE"; amount = pos 20_000; category = "อื่น ๆ" }

abbrev month : List TxRow
month =
    business_row "o" "s" rent "3"
    ∷ business_row "o" "s" stock "2"
    ∷ business_row "o" "s" sale "1"
    ∷ []

-- 900 of sales, 400 of goods, 200 of rent
month_profit : (profit_of month).net_profit ≡ pos 30_000
unfolding profit_of sum_when ◌+ℤ◌ ◌-ℤ◌
month_profit = refl

net_profit_counts_once_example :
    (profit_of month).net_profit ≡ (profit_of month).gross_profit -ℤ sum_when is_other_expense month
net_profit_counts_once_example = net_profit_counts_once month

ledger_check_passes_example :
    ((select_check "n" 0 9 with_coffee.db).balanced ≡ true)
    × ((select_check "n" 0 9 with_coffee.db).debit ≡ (select_check "n" 0 9 with_coffee.db).credit)
ledger_check_passes_example = ledger_check_passes "n" 0 9 with_coffee.db IsSound-with_coffee

abbrev pub project : String → Project
project id = record {
  id = id;
  user_id = "u";
  namespace = "n";
  name = id;
  description = none;
  color = "#1f7a5f";
  budget_amount = none;
  target_date = none;
  status = "ACTIVE";
  deleted_at = none;
}

-- 100 baht over three projects
split_project_allocations-amounts_example :
    amounts (split_project_allocations (project "p" ∷ project "q" ∷ project "r" ∷ []) (pos 10_000))
    ≡ pos 10_000
split_project_allocations-amounts_example =
    split_project_allocations-amounts (project "p") (project "q" ∷ project "r" ∷ []) (pos 10_000)
      refl
