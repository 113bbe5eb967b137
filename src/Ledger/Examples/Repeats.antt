-- ===== src/Ledger/Examples/Repeats.antt =====
-- Runs of the ledger on repeated and on allocated transactions, and their theorems.
use thclaws_thai_ai_agent.Base.{◌≡◌, refl, true, false, List, [], ◌∷◌}
use thclaws_thai_ai_agent.Base.Int.{pos, ◌+ℤ◌, ltb_ℤ}
use thclaws_thai_ai_agent.Base.Text.{trim_space}
use thclaws_thai_ai_agent.Sql.{ok, World, pure, guard, recover, on_tx, wrap, ◌>>=◌}
use thclaws_thai_ai_agent.Ledger.Tables.{WriteTxInput, AllocationInput, Db}
use thclaws_thai_ai_agent.Ledger.Allocations.{
  skipped, select_project, validate_one, validate_from, validate_allocations,
}
use thclaws_thai_ai_agent.Ledger.Allocations.Bounded.{
  kept_sum, kept_projects, is_fresh, validate_allocations-bounded,
}
use thclaws_thai_ai_agent.Ledger.Writer.{create_personal_transaction}
use thclaws_thai_ai_agent.Ledger.Writer.Repeated.{create_personal_transaction-repeated}
use thclaws_thai_ai_agent.Ledger.Examples.{
  no_rows_at_all, world, coffee, create_coffee, with_coffee,
}
use thclaws_thai_ai_agent.Ledger.Examples.Businesses.{project}

-- The coffee, sent again as a dearer one.
abbrev coffee_again : WriteTxInput
coffee_again = record coffee { amount = pos 6500; note = "ลาเต้" }

create_personal_transaction-repeated_example :
    ((create_personal_transaction coffee_again with_coffee).0 ≡ ok "b")
    × ((create_personal_transaction coffee_again with_coffee).1.db ≡ with_coffee.db)
create_personal_transaction-repeated_example =
    create_personal_transaction-repeated coffee coffee_again (world [] no_rows_at_all) with_coffee
      "b" refl create_coffee refl refl refl refl refl

abbrev with_projects : World Db
with_projects = world [] (record no_rows_at_all { projects = project "p" ∷ project "q" ∷ [] })

abbrev two_parts : List AllocationInput
two_parts =
    record { project_id = "p"; amount = pos 4000; note = "" }
    ∷ record { project_id = " q "; amount = pos 2000; note = "" }
    ∷ []

two_parts_fit : (validate_allocations "u" "n" (pos 6000) two_parts with_projects).0 ≡ ok tt
unfolding validate_allocations validate_from validate_one skipped select_project guard recover on_tx
    wrap ◌>>=◌ pure trim_space ◌+ℤ◌
two_parts_fit = refl

validate_allocations-bounded_example :
    (ltb_ℤ (pos 6000 +ℤ pos 1) (kept_sum two_parts) ≡ false)
    × (is_fresh [] (kept_projects two_parts) ≡ true)
validate_allocations-bounded_example =
    validate_allocations-bounded "u" "n" (pos 6000) two_parts with_projects two_parts_fit
