-- ===== src/Ledger/Household.antt =====
-- Households and their members: ledger/household_summary.go.
pub mod Roles
pub mod Report
use thclaws_thai_ai_agent.Base.{
  ℕ, ◌+◌, String, Bool, true, false, not, Option, none, some, List, [], ◌∷◌, ◌++◌, ◌&&◌, ◌||◌, ◌==◌,
  str_eq, if◌then◌else◌, find_first, keep, exists, tally, leb,
}
use thclaws_thai_ai_agent.Base.Int.{ℤ, pos, leb_ℤ}
use thclaws_thai_ai_agent.Base.Text.{is_empty, trim_space, nullable_string}
use thclaws_thai_ai_agent.Sql.{
  SqlError, no_rows, Error, Result, ok, err, M, pure, guard, time_now, on_pool, reading, writing,
  wrap, ◌>>=◌, ◌>>◌, Query,
}
use thclaws_thai_ai_agent.Ledger.Tables.{HouseholdRow, HouseholdMember, HouseholdTx, Db}
use thclaws_thai_ai_agent.Ledger.Allocations.{is_live}

-- WHERE "householdId" = $1 AND "userId" = $2
abbrev pub is_member : String → String → HouseholdMember → Bool
is_member household_id user_id m = str_eq m.household_id household_id && str_eq m.user_id user_id

-- SELECT role FROM household_members WHERE …
unfoldable pub select_role : String → String → Db → Result SqlError String
select_role household_id user_id db =
    elim (find_first (is_member household_id user_id) db.members) [
      | some m ↦ ok m.role
      | none ↦ err no_rows
    ]

-- INSERT INTO household_members … ON CONFLICT ("householdId", "userId") DO NOTHING
unfoldable pub insert_member : String → String → String → Query Db (Unit {0})
insert_member household_id user_id role = writing λ st db.
    if exists (is_member household_id user_id) db.members then db else record db {
      members =
          record { household_id = household_id; user_id = user_id; role = role; joined_at = st.now }
          ∷ db.members;
    }

unfoldable pub insert_household : String → String → Query Db String
insert_household name user_id st db = ok (
  st.id,
  record db {
    households = record { id = st.id; name = name; created_by = user_id } ∷ db.households;
  },
)

-- `CreateHousehold`: two statements of the pool, each committed by itself
unfoldable pub create_household : String → String → M Db Error String
create_household user_id name = do
  guard (is_empty user_id || is_empty (trim_space name))
      "ledger household: userID and name required"
  id ← wrap "ledger household: create" (on_pool (insert_household (trim_space name) user_id))
  wrap "ledger household: add owner" (on_pool (insert_member id user_id "OWNER"))
  pure id

-- `AddHouseholdMember`
unfoldable pub add_household_member : String → String → String → M Db Error (Unit {0})
add_household_member owner_user_id household_id member_user_id = do
  guard (is_empty owner_user_id || is_empty household_id || is_empty member_user_id)
      "ledger household: ownerUserID, householdID and memberUserID required"
  role ←
      wrap "ledger household: not a member"
        (on_pool (reading (select_role household_id owner_user_id)))
  guard (not (str_eq role "OWNER")) "ledger household: only owner can add members"
  wrap "ledger household: add member" (on_pool (insert_member household_id member_user_id "MEMBER"))

-- `HouseholdTransactionInput`
pub record HouseholdTransactionInput : Type 0 where
  pub tx_type : String
  pub amount : ℤ
  pub category : String
  pub note : String
  pub happened_at : ℕ

abbrev pub household_row : String → String → HouseholdTransactionInput → ℕ → String → HouseholdTx
household_row household_id user_id input t id = record {
  id = id;
  household_id = household_id;
  user_id = user_id;
  tx_type = input.tx_type;
  amount = input.amount;
  category = input.category;
  note = nullable_string (trim_space input.note);
  happened_at = if input.happened_at == 0 then t else input.happened_at;
  deleted_at = none;
}

unfoldable pub insert_household_tx : (String → HouseholdTx) → Query Db String
insert_household_tx row st db =
    ok (st.id, record db { household_transactions = row st.id ∷ db.household_transactions })

-- `CreateHouseholdTransaction`
unfoldable pub create_household_transaction :
    String → String → HouseholdTransactionInput → M Db Error String
create_household_transaction user_id household_id input = do
  guard (is_empty user_id || is_empty household_id)
      "ledger household: userID and householdID required"
  guard (not (str_eq input.tx_type "INCOME" || str_eq input.tx_type "EXPENSE"))
      "ledger household: type must be INCOME or EXPENSE"
  guard (leb_ℤ input.amount (pos 0)) "ledger household: amount must be positive"
  wrap "ledger household: not a member" (on_pool (reading (select_role household_id user_id)))
  t ← time_now
  wrap "ledger household: insert transaction"
      (on_pool (insert_household_tx (household_row household_id user_id input t)))

-- The rows of the JOIN with the member rows of the caller, one for each pair.
unfoldable pub joined : String → String → ℕ → ℕ → Db → List HouseholdMember → List HouseholdTx
joined user_id household_id from to db [] = []
joined user_id household_id from to db (m ∷ ms) =
    (if is_member household_id user_id m
      then keep
          (λ (r : HouseholdTx).
            str_eq r.household_id household_id
            && is_live r.deleted_at
            && leb from r.happened_at
            && leb r.happened_at to)
          db.household_transactions
      else [])
    ++ joined user_id household_id from to db ms

-- `FetchHouseholdRange`, but for its order
unfoldable pub fetch_household_range : String → String → ℕ → ℕ → M Db Error (List HouseholdTx)
fetch_household_range user_id household_id from to = do
  guard (is_empty user_id || is_empty household_id)
      "ledger household: userID and householdID required"
  wrap "ledger household: query range"
      (on_pool (reading (λ db. ok (joined user_id household_id from to db db.members))))

-- A household as its members see it: the row, the caller's role and the number of members.
pub record Household : Type 0 where
  pub id : String
  pub name : String
  pub created_by : String
  pub role : String
  pub member_count : ℕ

abbrev seen_by : Db → HouseholdMember → HouseholdRow → Household
seen_by db m h = record {
  id = h.id;
  name = h.name;
  created_by = h.created_by;
  role = m.role;
  member_count = tally (λ (x : HouseholdMember). str_eq x.household_id h.id) db.members;
}

households_of : Db → HouseholdMember → List HouseholdRow → List Household
households_of db m [] = []
households_of db m (h ∷ hs) =
    (if str_eq h.id m.household_id then seen_by db m h ∷ [] else []) ++ households_of db m hs

unfoldable pub my_households : String → Db → List HouseholdMember → List Household
unfolding households_of
my_households user_id db [] = []
my_households user_id db (m ∷ ms) =
    (if str_eq m.user_id user_id then households_of db m db.households else [])
    ++ my_households user_id db ms

-- `ListMyHouseholds`, but for its order
unfoldable pub list_my_households : String → M Db Error (List Household)
list_my_households user_id = do
  guard (is_empty user_id) "ledger household: userID required"
  wrap "ledger household: list" (on_pool (reading (λ db. ok (my_households user_id db db.members))))
