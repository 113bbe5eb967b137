-- ===== src/Ledger/Accounts.antt =====
-- The chart of accounts of ledger/writer.go: which account a transaction is booked on.
use thclaws_thai_ai_agent.Base.{String, ◌≡◌, refl, List, [], ◌∷◌, str_eq, if◌then◌else◌}

-- `accountSpec`
pub record AccountSpec : Type 0 where
  pub code : String
  pub name : String
  pub account_type : String
  pub normal_balance : String

abbrev pub cash_account_code : String
cash_account_code = "1010"

abbrev pub cash_account : AccountSpec
cash_account = record {
  code = cash_account_code;
  name = "เงินสด/เงินฝากพร้อมใช้";
  account_type = "ASSET";
  normal_balance = "DEBIT";
}

abbrev pub income_account : String → String → AccountSpec
income_account code name = record {
  code = code;
  name = name;
  account_type = "INCOME";
  normal_balance = "CREDIT";
}

abbrev pub expense_account : String → String → AccountSpec
expense_account code name = record {
  code = code;
  name = name;
  account_type = "EXPENSE";
  normal_balance = "DEBIT";
}

abbrev pub other_income : AccountSpec
other_income = income_account "4099" "รายรับอื่น ๆ"

abbrev pub other_expense : AccountSpec
other_expense = expense_account "5099" "ค่าใช้จ่ายอื่น ๆ"

-- `incomeAccounts`
abbrev pub income_accounts : List (String × AccountSpec)
income_accounts =
    ("เงินเดือน", income_account "4010" "รายได้เงินเดือน")
    ∷ ("รายได้จากการขาย", income_account "4020" "รายได้จากการขาย")
    ∷ ("รายรับอื่น ๆ", other_income)
    ∷ []

-- `expenseAccounts`
abbrev pub expense_accounts : List (String × AccountSpec)
expense_accounts =
    ("อาหารและเครื่องดื่ม", expense_account "5010" "ค่าอาหารและเครื่องดื่ม")
    ∷ ("ค่าน้ำค่าไฟ", expense_account "5020" "ค่าน้ำค่าไฟ")
    ∷ ("เดินทาง", expense_account "5030" "ค่าเดินทาง")
    ∷ ("ของใช้เข้าบ้าน", expense_account "5040" "ของใช้เข้าบ้าน")
    ∷ ("สุขภาพ", expense_account "5050" "ค่าสุขภาพ")
    ∷ ("การศึกษา", expense_account "5060" "ค่าการศึกษา")
    ∷ ("อื่น ๆ", other_expense)
    ∷ []

-- `m[k]` with the value for a missing key
pub lookup_or : List (String × AccountSpec) → String → AccountSpec → AccountSpec
lookup_or [] k d = d
lookup_or ((j, v) ∷ m) k d = if str_eq j k then v else lookup_or m k d

-- `accountForTransaction`
unfoldable pub account_for_transaction : String → String → AccountSpec
unfolding lookup_or
account_for_transaction tx_type category =
    if str_eq tx_type "INCOME"
    then lookup_or income_accounts category other_income
    else if str_eq tx_type "EXPENSE"
    then lookup_or expense_accounts category other_expense
    else other_expense

account_for_transaction_food : (account_for_transaction "EXPENSE" "เดินทาง").code ≡ "5030"
unfolding account_for_transaction
account_for_transaction_food = refl
