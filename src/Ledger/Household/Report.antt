-- ===== src/Ledger/Household/Report.antt =====
-- `HouseholdSummary` of ledger/household_summary.go.
use thclaws_thai_ai_agent.Base.{ℕ, String, Option, none, some, List, map}
use thclaws_thai_ai_agent.Base.Int.{◌-ℤ◌}
use thclaws_thai_ai_agent.Base.Text.{append}
use thclaws_thai_ai_agent.Sql.{Error, M, pure, ◌>>=◌}
use thclaws_thai_ai_agent.Thaitime.{Calendar, short_date}
use thclaws_thai_ai_agent.Ledger.Tables.{HouseholdTx, Db}
use thclaws_thai_ai_agent.Ledger.Money.{format_money}
use thclaws_thai_ai_agent.Ledger.Reader.{SummaryRow, newest_first}
use thclaws_thai_ai_agent.Ledger.Summary.{sum_by_type, details}
use thclaws_thai_ai_agent.Ledger.Household.{fetch_household_range}

abbrev coalesce : Option String → String
coalesce none = ""
coalesce (some s) = s

abbrev household_summary_row : HouseholdTx → SummaryRow
household_summary_row r = record {
  tx_type = r.tx_type;
  amount = r.amount;
  category = r.category;
  note = coalesce r.note;
  happened_at = r.happened_at;
}

unfoldable pub report : Calendar → List SummaryRow → String
unfolding append format_money sum_by_type details short_date
report cal rows =
    let income = sum_by_type rows "INCOME" in
    let expense = sum_by_type rows "EXPENSE" in
    append "รายรับ " (
      append (format_money income) (
        append " บาท | รายจ่าย " (
          append (format_money expense) (
            append " บาท | คงเหลือ " (
              append (format_money (income -ℤ expense)) (
                append " บาท"
                  (details "\nยังไม่มีรายการในบ้านในช่วงนี้ครับ" (short_date cal) rows)))))))

-- `HouseholdSummary`
unfoldable pub household_summary : Calendar → String → String → ℕ → ℕ → M Db Error String
unfolding newest_first report
household_summary cal user_id household_id from to = do
  rows ← fetch_household_range user_id household_id from to
  pure (report cal (newest_first (map household_summary_row rows)))
