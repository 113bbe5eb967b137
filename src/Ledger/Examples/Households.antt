-- ===== src/Ledger/Examples/Households.antt =====
-- Runs of the household functions, and their theorems at concrete inputs.
use thclaws_thai_ai_agent.Base.{ℕ, String, ◌≡◌, refl, true, false, List, [], ◌∷◌, exists}
use thclaws_thai_ai_agent.Base.Int.{pos, leb_ℤ}
use thclaws_thai_ai_agent.Sql.{
  no_rows, wrapped, ok, err, World, guard, time_now, on_pool, wrap, ◌>>=◌,
}
use thclaws_thai_ai_agent.Ledger.Tables.{HouseholdTx, Db}
use thclaws_thai_ai_agent.Ledger.Household.{
  is_member, select_role, insert_member, add_household_member, HouseholdTransactionInput,
  household_row, insert_household_tx, create_household_transaction, joined, fetch_household_range,
}
use thclaws_thai_ai_agent.Ledger.Household.Roles.{
  add_household_member_by_owner, create_household_transaction_by_member,
  fetch_household_range_outsider,
}
use thclaws_thai_ai_agent.Ledger.Examples.{no_rows_at_all, world}

-- Household "h" of the owner "o".
abbrev home : World Db
home = world [] (record no_rows_at_all {
  households = record { id = "h"; name = "บ้าน"; created_by = "o" } ∷ [];
  members = record { household_id = "h"; user_id = "o"; role = "OWNER"; joined_at = 1 } ∷ [];
})

owner_adds : (add_household_member "o" "h" "m" home).0 ≡ ok tt
unfolding add_household_member guard on_pool wrap ◌>>=◌ select_role insert_member
owner_adds = refl

add_household_member_by_owner_example :
    (select_role "h" "o" home.db ≡ ok "OWNER")
    × (exists (is_member "h" "m") (add_household_member "o" "h" "m" home).1.db.members ≡ true)
add_household_member_by_owner_example = add_household_member_by_owner "o" "h" "m" home owner_adds

stranger_adds :
    (add_household_member "x" "h" "m" home).0
    ≡ err (wrapped "ledger household: not a member" no_rows)
unfolding add_household_member guard on_pool wrap ◌>>=◌ select_role insert_member
stranger_adds = refl

abbrev groceries : HouseholdTransactionInput
groceries = record {
  tx_type = "EXPENSE";
  amount = pos 25_000;
  category = "ของใช้เข้าบ้าน";
  note = "ตลาด";
  happened_at = 5;
}

owner_buys : (create_household_transaction "o" "h" groceries home).0 ≡ ok "b"
unfolding create_household_transaction guard on_pool wrap ◌>>=◌ time_now select_role
    insert_household_tx
owner_buys = refl

create_household_transaction_by_member_example :
    ((r : String) × (select_role "h" "o" home.db ≡ ok r))
    × (leb_ℤ groceries.amount (pos 0) ≡ false)
    × ((t : ℕ) × ((create_household_transaction "o" "h" groceries home).1.db.household_transactions
          ≡ household_row "h" "o" groceries t "b" ∷ []))
create_household_transaction_by_member_example =
    create_household_transaction_by_member "o" "h" groceries home "b" owner_buys

stranger_buys :
    (create_household_transaction "x" "h" groceries home).0
    ≡ err (wrapped "ledger household: not a member" no_rows)
unfolding create_household_transaction guard on_pool wrap ◌>>=◌ time_now select_role
    insert_household_tx
stranger_buys = refl

-- Home, with the groceries.
abbrev stocked : World Db
stocked = world [] (create_household_transaction "o" "h" groceries home).1.db

stranger_is_no_member : exists (is_member "h" "x") stocked.db.members ≡ false
unfolding create_household_transaction guard on_pool wrap ◌>>=◌ time_now select_role
    insert_household_tx
stranger_is_no_member = refl

abbrev nothing : List HouseholdTx
nothing = []

stranger_looks : (fetch_household_range "x" "h" 0 9 stocked).0 ≡ ok nothing
unfolding fetch_household_range joined create_household_transaction guard on_pool wrap ◌>>=◌
    time_now select_role insert_household_tx
stranger_looks = refl

fetch_household_range_outsider_example : nothing ≡ []
fetch_household_range_outsider_example =
    fetch_household_range_outsider "x" "h" 0 9 stocked nothing stranger_is_no_member stranger_looks
