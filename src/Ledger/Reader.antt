-- ===== src/Ledger/Reader.antt =====
-- `FetchUserRange` and `FetchUserTotals` of ledger/writer.go.
use thclaws_thai_ai_agent.Base.{
  ℕ, String, Bool, ◌&&◌, ◌||◌, Option, none, some, List, [], ◌∷◌, str_eq, if◌then◌else◌, leb, keep,
  map,
}
use thclaws_thai_ai_agent.Base.Int.{ℤ}
use thclaws_thai_ai_agent.Base.Text.{is_empty}
use thclaws_thai_ai_agent.Sql.{Error, ok, M, guard, on_pool, reading, wrap, ◌>>◌}
use thclaws_thai_ai_agent.Ledger.Tables.{TxRow, Db}
use thclaws_thai_ai_agent.Ledger.Allocations.{is_live}
use thclaws_thai_ai_agent.Ledger.Business.{sum_when, is_income, is_expense}

-- `SummaryRow`
pub record SummaryRow : Type 0 where
  pub tx_type : String
  pub amount : ℤ
  pub category : String
  pub note : String
  pub happened_at : ℕ

-- `BalanceTotals`
pub record BalanceTotals : Type 0 where
  pub income : ℤ
  pub expense : ℤ

-- WHERE "userId" = $1 AND namespace = $2 AND "deletedAt" IS NULL
abbrev pub is_of_user : String → String → TxRow → Bool
is_of_user user_id namespace r =
    str_eq r.user_id user_id && str_eq r.namespace namespace && is_live r.deleted_at

abbrev coalesce : Option String → String
coalesce none = ""
coalesce (some s) = s

abbrev pub summary_row : TxRow → SummaryRow
summary_row r = record {
  tx_type = r.tx_type;
  amount = r.amount;
  category = r.category;
  note = coalesce r.note;
  happened_at = r.happened_at;
}

-- Before the first row that is older: `ORDER BY "happenedAt" DESC`, equal ones in table order
insert_by_time : SummaryRow → List SummaryRow → List SummaryRow
insert_by_time r [] = r ∷ []
insert_by_time r (s ∷ rest) =
    let later = insert_by_time r rest in
    if leb s.happened_at r.happened_at then r ∷ s ∷ rest else s ∷ later

unfoldable pub newest_first : List SummaryRow → List SummaryRow
unfolding insert_by_time
newest_first [] = []
newest_first (r ∷ rs) = insert_by_time r (newest_first rs)

-- `FetchUserRange`
unfoldable pub fetch_user_range : String → String → ℕ → ℕ → M Db Error (List SummaryRow)
unfolding newest_first
fetch_user_range user_id namespace from to = do
  guard (is_empty user_id || is_empty namespace) "ledger reader: userID and namespace required"
  wrap "ledger reader: query" (
      on_pool (
        reading (λ db. ok (
          newest_first (
            map summary_row (
              keep
                (λ (r : TxRow).
                  is_of_user user_id namespace r && leb from r.happened_at && leb r.happened_at to)
                db.transactions))))))

-- The SELECT of `FetchUserTotals`
unfoldable pub totals_of : String → String → Db → BalanceTotals
unfolding sum_when
totals_of user_id namespace db =
    let rows = keep (is_of_user user_id namespace) db.transactions in
    record { income = sum_when is_income rows; expense = sum_when is_expense rows }

-- `FetchUserTotals`
unfoldable pub fetch_user_totals : String → String → M Db Error BalanceTotals
unfolding totals_of
fetch_user_totals user_id namespace = do
  guard (is_empty user_id || is_empty namespace) "ledger reader: userID and namespace required"
  wrap "ledger reader: totals" (on_pool (reading (λ db. ok (totals_of user_id namespace db))))
