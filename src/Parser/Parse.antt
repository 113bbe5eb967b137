-- ===== src/Parser/Parse.antt =====
-- `Parse` of parser/transaction.go. An amount is in satang, exactly; a confidence in hundredths.
pub mod Recorded
use thclaws_thai_ai_agent.Base.{
  ℕ, zero, suc, ◌*◌, String, Bool, true, false, not, ◌&&◌, ◌||◌, Option, none, some, List, [], ◌∷◌,
  str_eq, if◌then◌else◌, ltb, ◌==◌, ◌≡◌, refl,
}
use thclaws_thai_ai_agent.Base.Int.{ℤ, pos, negsuc}
use thclaws_thai_ai_agent.Base.Text.{is_empty, trim_space}
use thclaws_thai_ai_agent.Base.Scan.{starts_any, replace_all, remove_first}
use thclaws_thai_ai_agent.Base.Text.{append}
use thclaws_thai_ai_agent.Parser.Amount.{parse_thai_amount}
use thclaws_thai_ai_agent.Parser.Patterns.{
  is_help, is_ignore, is_date_question, asks_today, asks_month, asks_balance, leads_expense,
  strip_marker, expense_markers, income_markers, income_rules, expense_rules, first_matching_rule,
  find_amount, parse_float, find_thai_amount,
}
use thclaws_thai_ai_agent.Parser.Counterparty.{extract_counterparty}

-- `Intent`
pub data Intent : Type 0 where
  record_expense record_income ask_today_summary ask_month_summary ask_balance ask_date help ignore
        unknown :
      Intent

-- `Result`
pub record Parsed : Type 0 where
  pub intent : Intent
  pub tx_type : String
  pub amount : ℕ
  pub category : String
  pub note : String
  pub counterparty_name : String
  pub counterparty_role : String
  pub confidence : ℕ
  pub reason : String

-- `Result{Intent: i, Reason: r}`
abbrev pub blank : Intent → String → Parsed
blank i r = record {
  intent = i;
  tx_type = "";
  amount = 0;
  category = "";
  note = "";
  counterparty_name = "";
  counterparty_role = "";
  confidence = 0;
  reason = r;
}

-- `amountText` and `amount`, or the `Reason`
pub data Found : Type 0 where
  found : String → ℕ → Found
  not_found : String → Found

abbrev float_found : String → Option ℕ → Found
float_found text none = not_found "invalid_amount"
float_found text (some n) = if n == 0 then not_found "invalid_amount" else found text n

abbrev thai_found : String → ℤ × Bool → Found
thai_found text (pos n, true) = if n == 0 then not_found "missing_amount" else found text (n * 100)
thai_found text (_, _) = not_found "missing_amount"

abbrev amount_in : String → Option (String × String) → Found
amount_in text (some (whole, point)) = float_found (append whole point) (parse_float (whole, point))
amount_in text none =
    let thai = find_thai_amount text in
    if is_empty thai then not_found "missing_amount" else thai_found thai (parse_thai_amount thai)

-- The part of `Parse` that finds the amount.
unfoldable pub amount_of_text : String → Found
unfolding find_amount parse_float append find_thai_amount parse_thai_amount
amount_of_text text = amount_in text (find_amount text)

abbrev has_rule : Option String → Bool
has_rule none = false
has_rule (some c) = true

abbrev or_else : Option String → String → String
or_else none d = d
or_else (some c) d = c

-- `isIncome`
unfoldable pub is_income_text : String → Option String → Bool
unfolding starts_any leads_expense
is_income_text text income_match =
    not (starts_any text expense_markers)
    && (starts_any text income_markers || (has_rule income_match && not (leads_expense text)))

abbrev category_for : Bool → Option String → Option String → String
category_for true income_match expense_match = or_else income_match "รายรับอื่น ๆ"
category_for false income_match expense_match = or_else expense_match "อื่น ๆ"

abbrev confidence_for : String → String → ℕ
confidence_for text category =
    if starts_any text expense_markers || starts_any text income_markers
    then 90
    else if str_eq category "อื่น ๆ" || str_eq category "รายรับอื่น ๆ"
    then 70
    else 95

abbrev or_text : String → String → String
or_text s d = if is_empty s then d else s

-- What `Parse` makes of a text with an amount.
unfoldable pub recorded : String → Found → Parsed
unfolding strip_marker trim_space first_matching_rule is_income_text extract_counterparty
    remove_first starts_any
recorded text (not_found reason) = blank unknown reason
recorded text (found amount_text amount) =
    let clean = trim_space (strip_marker income_markers (strip_marker expense_markers text)) in
    let income_match = first_matching_rule clean income_rules in
    let is_income = is_income_text text income_match in
    let category = category_for is_income income_match (first_matching_rule clean expense_rules) in
    let (name, role) = extract_counterparty clean is_income in
    record {
      intent = if is_income then record_income else record_expense;
      tx_type = if is_income then "INCOME" else "EXPENSE";
      amount = amount;
      category = category;
      note = or_text (trim_space (remove_first clean amount_text)) clean;
      counterparty_name = name;
      counterparty_role = role;
      confidence = confidence_for text category;
      reason = "";
    }

-- `strings.TrimSpace(strings.ReplaceAll(text, ",", ""))`
unfoldable pub normalized : String → String
unfolding replace_all trim_space
normalized text = trim_space (replace_all text "," "")

-- `Parse`
unfoldable pub parse : String → Parsed
unfolding normalized is_help is_ignore is_date_question asks_today asks_month asks_balance
    amount_of_text recorded
parse text =
    let t = normalized text in
    if is_empty t
    then blank unknown "empty_text"
    else if is_help t
    then blank help ""
    else if is_ignore t
    then blank ignore ""
    else if is_date_question t
    then blank ask_date ""
    else if asks_today t
    then blank ask_today_summary ""
    else if asks_month t
    then blank ask_month_summary ""
    else if asks_balance t
    then blank ask_balance ""
    else recorded t (amount_of_text t)
