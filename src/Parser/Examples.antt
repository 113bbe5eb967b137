-- ===== src/Parser/Examples.antt =====
-- The theorems on the parsers at concrete texts.
use thclaws_thai_ai_agent.Base.{String, ◌≡◌, refl, true, none}
use thclaws_thai_ai_agent.Base.Text.{append}
use thclaws_thai_ai_agent.Parser.Amount.{thai_amount_tokens, next_word}
use thclaws_thai_ai_agent.Parser.Amount.Tokens.{joined, thai_amount_tokens-text}
use thclaws_thai_ai_agent.Base.Scan.{starts_any}
use thclaws_thai_ai_agent.Base.{◌≢◌, ◌⊎◌}
use thclaws_thai_ai_agent.Parser.Patterns.{expense_markers}
use thclaws_thai_ai_agent.Parser.Parse.{
  parse, normalized, record_income, record_expense, unknown, ask_today_summary, blank,
}
use thclaws_thai_ai_agent.Parser.Parse.Recorded.{
  IsEntry, IsBlank, parse-cases, parse-expense_marker,
}
use thclaws_thai_ai_agent.Parser.Repr.{is_plain, python_repr_to_json, python_repr_to_json-plain}

thai_amount_tokens-text_example :
    (left : String) × (append (joined (thai_amount_tokens "สองพันบาท")) left ≡ "สองพันบาท")
    × (next_word left ≡ none)
thai_amount_tokens-text_example = thai_amount_tokens-text "สองพันบาท"

slip_is_plain : is_plain "{\"isSlip\": true, \"amount\": 60}" ≡ true
unfolding is_plain
slip_is_plain = refl

python_repr_to_json-plain_example :
    python_repr_to_json "{\"isSlip\": true, \"amount\": 60}" ≡ "{\"isSlip\": true, \"amount\": 60}"
python_repr_to_json-plain_example =
    python_repr_to_json-plain "{\"isSlip\": true, \"amount\": 60}" slip_is_plain

parse_coffee : parse "กาแฟ 1,060.5" ≡ record {
  intent = record_expense;
  tx_type = "EXPENSE";
  amount = 106_050;
  category = "อาหารและเครื่องดื่ม";
  note = "กาแฟ";
  counterparty_name = "";
  counterparty_role = "";
  confidence = 95;
  reason = "";
}
unfolding parse
parse_coffee = refl

parse_gift : (parse "แม่ให้เงิน สองพัน").counterparty_name ≡ "แม่"
unfolding parse
parse_gift = refl

parse_summary : parse "สรุปของวันนี้ 5" ≡ blank ask_today_summary ""
unfolding parse
parse_summary = refl

parse_zero : parse "กาแฟ 0" ≡ blank unknown "invalid_amount"
unfolding parse
parse_zero = refl

parse_missing : parse "ซื้อกาแฟ" ≡ blank unknown "missing_amount"
unfolding parse
parse_missing = refl

parse-cases_example : IsEntry (parse "กาแฟ 60") ⊎ IsBlank (parse "กาแฟ 60")
parse-cases_example = parse-cases "กาแฟ 60"

salary_is_marked : starts_any (normalized "รายจ่าย เงินเดือน 5,000") expense_markers ≡ true
unfolding starts_any normalized
salary_is_marked = refl

parse-expense_marker_example : (parse "รายจ่าย เงินเดือน 5,000").intent ≢ record_income
parse-expense_marker_example = parse-expense_marker "รายจ่าย เงินเดือน 5,000" salary_is_marked
