-- ===== src/Ledger/Examples/Texts.antt =====
-- The texts of ledger/summary.go at concrete rows and amounts.
use thclaws_thai_ai_agent.Base.{ℕ, ◌-◌, ◌^◌, String, ◌≡◌, refl, List, [], ◌∷◌, arith}
use thclaws_thai_ai_agent.Base.Int.{pos, negsuc, ◌+ℤ◌}
use thclaws_thai_ai_agent.Ledger.Money.{format_int}
use thclaws_thai_ai_agent.Ledger.Money.Signed.{read_int, format_int-read}
use thclaws_thai_ai_agent.Ledger.Reader.{SummaryRow}
use thclaws_thai_ai_agent.Ledger.Summary.{CatSum, category_totals}
use thclaws_thai_ai_agent.Ledger.Summary.Categories.{
  sum_of, categorized, IsDescending, category_totals-IsDescending,
}

format_int-read_example : read_int (format_int (negsuc 1_234_566)) ≡ negsuc 1_234_566
format_int-read_example = format_int-read (negsuc 1_234_566) (omega arith) (omega arith)

-- The least `int64` is printed as a sign alone.
format_int_least : format_int (negsuc (2 ^ 63 - 1)) ≡ "-"
unfolding format_int
format_int_least = refl

abbrev spent : String → ℕ → SummaryRow
spent category satang = record {
  tx_type = "EXPENSE";
  amount = pos satang;
  category = category;
  note = "";
  happened_at = 0;
}

abbrev rows : List SummaryRow
rows = spent "เดินทาง" 5_000 ∷ spent "อาหาร" 6_000 ∷ spent "" 100 ∷ spent "เดินทาง" 4_000 ∷ []

abbrev total : String → ℕ → CatSum
total category satang = record { category = category; amount = pos satang }

rows_by_category : category_totals rows ≡ total "เดินทาง" 9_000 ∷ total "อาหาร" 6_000 ∷ []
unfolding category_totals ◌+ℤ◌
rows_by_category = refl

category_totals-IsDescending_example :
    (sum_of (category_totals rows) ≡ categorized rows) × IsDescending (category_totals rows)
category_totals-IsDescending_example = category_totals-IsDescending rows
