-- ===== src/Ledger/Allocations.antt =====
-- The allocation of a transaction to projects, of ledger/projects.go.
pub mod Checked
pub mod Bounded
pub mod Split
unfoldable pub use Split.{split_project_allocations, amounts}
use thclaws_thai_ai_agent.Base.{
  ℕ, ◌+◌, ◌*◌, ◌/◌, String, Bool, true, false, Option, none, some, List, [], ◌∷◌, ◌&&◌, ◌||◌,
  str_eq, if◌then◌else◌, exists,
}
use thclaws_thai_ai_agent.Base.Int.{ℤ, pos, pos_part, ◌+ℤ◌, ltb_ℤ, leb_ℤ}
use thclaws_thai_ai_agent.Base.Text.{is_empty, trim_space, nullable_string}
use thclaws_thai_ai_agent.Sql.{
  Error, SqlError, no_rows, plain, wrapped, Result, ok, err, unique_violation, check_violation,
  Query, M, pure, raise, guard, recover, on_tx, reading, wrap, ◌>>=◌, ◌>>◌,
}
use thclaws_thai_ai_agent.Ledger.Tables.{AllocationInput, Allocation, Project, Db}

abbrev pub is_live : Option ℕ → Bool
is_live none = true
is_live (some t) = false

-- `projectID == "" || a.Amount <= 0`: the input is passed over
unfoldable pub skipped : AllocationInput → Bool
unfolding trim_space
skipped a = is_empty (trim_space a.project_id) || leb_ℤ a.amount (pos 0)

abbrev pub owns_project : String → String → String → Project → Bool
owns_project project_id user_id namespace p =
    str_eq p.id project_id
    && str_eq p.user_id user_id
    && str_eq p.namespace namespace
    && is_live p.deleted_at

-- SELECT true FROM projects WHERE … AND "deletedAt" IS NULL
unfoldable pub select_project : String → String → String → Db → Result SqlError (Unit {0})
select_project project_id user_id namespace db =
    if exists (owns_project project_id user_id namespace) db.projects then ok tt else err no_rows

abbrev pub seen_before : String → List String → Bool
seen_before k seen = exists (str_eq k) seen

-- What the loop keeps: the projects seen so far and the sum of their amounts.
abbrev pub Progress : Type 0
Progress = List String × ℤ

-- What the loop does with the answer to the project lookup.
abbrev pub after_lookup : Progress → Result SqlError (Unit {0}) → M Db Error Progress
after_lookup next (ok _) = pure next
after_lookup next (err no_rows) = raise (plain "ledger allocations: project not found")
after_lookup next (err e) = raise (wrapped "ledger allocations: project lookup" e)

module _ (user_id namespace : String) where
  -- One round of the loop of `validateAllocations`.
  unfoldable pub validate_one : Progress → AllocationInput → M Db Error Progress
  validate_one (seen, sum) a =
      if skipped a
      then pure (seen, sum)
      else if seen_before (trim_space a.project_id) seen
      then raise (plain "ledger allocations: duplicate project")
      else recover (on_tx (reading (select_project (trim_space a.project_id) user_id namespace)))
        >>= after_lookup (trim_space a.project_id ∷ seen, sum +ℤ a.amount)

  unfoldable pub validate_from : Progress → List AllocationInput → M Db Error Progress
  validate_from p [] = pure p
  validate_from p (a ∷ rest) = validate_one p a >>= λ q. validate_from q rest

-- `validateAllocations`. A satang is 0.01 of a baht, so `sum-txAmount > 0.01` is a sum of at least
-- two satang more.
unfoldable pub validate_allocations :
    String → String → ℤ → List AllocationInput → M Db Error (Unit {0})
validate_allocations user_id namespace tx_amount allocations = do
  p ← validate_from user_id namespace ([], pos 0) allocations
  guard (ltb_ℤ (tx_amount +ℤ pos 1) p.1)
      "ledger allocations: allocated amount exceeds transaction amount"

-- `math.Round((a.Amount/txAmount*100)*10000) / 10000`, in units of 0.0001 percent
unfoldable pub percent_of : ℤ → ℤ → ℕ
percent_of amount tx_amount =
    if ltb_ℤ (pos 0) tx_amount
    then (2 * pos_part amount * 1_000_000 + pos_part tx_amount) / (2 * pos_part tx_amount)
    else 0

abbrev pub same_slot : String → String → Allocation → Bool
same_slot tx_id project_id r = str_eq r.transaction_id tx_id && str_eq r.project_id project_id

-- INSERT INTO transaction_project_allocations, with its unique index and its CHECK
unfoldable pub insert_allocation : Allocation → Query Db (Unit {0})
insert_allocation r st db =
    if exists (same_slot r.transaction_id r.project_id) db.allocations
    then err unique_violation
    else if ltb_ℤ r.amount (pos 0)
    then err check_violation
    else ok (tt, record db { allocations = r ∷ db.allocations })

-- The row that `insertAllocations` writes for one input.
abbrev pub allocation_row : String → String → String → ℤ → AllocationInput → Allocation
allocation_row user_id namespace tx_id tx_amount a = record {
  namespace = namespace;
  user_id = user_id;
  transaction_id = tx_id;
  project_id = trim_space a.project_id;
  amount = a.amount;
  percent = percent_of a.amount tx_amount;
  note = nullable_string (trim_space a.note);
}

-- One round of `insertAllocations`.
unfoldable pub insert_one : String → String → String → ℤ → AllocationInput → M Db Error (Unit {0})
insert_one user_id namespace tx_id tx_amount a =
    if skipped a
    then pure tt
    else wrap "ledger allocations: insert"
        (on_tx (insert_allocation (allocation_row user_id namespace tx_id tx_amount a)))

-- `insertAllocations`
unfoldable pub insert_allocations :
    String → String → String → ℤ → List AllocationInput → M Db Error (Unit {0})
insert_allocations user_id namespace tx_id tx_amount [] = pure tt
insert_allocations user_id namespace tx_id tx_amount (a ∷ rest) =
    insert_one user_id namespace tx_id tx_amount a >>= λ _.
    insert_allocations user_id namespace tx_id tx_amount rest
