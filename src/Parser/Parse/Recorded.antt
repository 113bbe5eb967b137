-- ===== src/Parser/Parse/Recorded.antt =====
-- What the intents of `Parse` of parser/transaction.go stand for.
use thclaws_thai_ai_agent.Base.{
  ℕ, ◌<◌, ◌≡◌, ◌≢◌, ◌⊎◌, inl, inr, refl, String, Bool, true, false, Option, none, some, Bool-cases,
  ◌==◌, if◌then◌else◌, arith,
}
use thclaws_thai_ai_agent.Base.Int.{ℤ, pos, negsuc}
use thclaws_thai_ai_agent.Base.Text.{is_empty, trim_space, append}
use thclaws_thai_ai_agent.Base.Scan.{starts_any}
use thclaws_thai_ai_agent.Parser.Amount.{parse_thai_amount}
use thclaws_thai_ai_agent.Parser.Patterns.{
  is_help, is_ignore, is_date_question, asks_today, asks_month, asks_balance, expense_markers,
  find_amount, parse_float, find_thai_amount, strip_marker, income_markers, income_rules,
  first_matching_rule,
}
use thclaws_thai_ai_agent.Parser.Parse.{
  Intent, record_expense, record_income, ask_today_summary, ask_month_summary, ask_balance,
  ask_date, help, ignore, unknown, Parsed, blank, Found, found, not_found, float_found, thai_found,
  amount_in, amount_of_text, recorded, normalized, parse, is_income_text,
}

-- An entry for the ledger: its amount is positive, its type that of the intent.
pub record IsEntry (p : Parsed) : Type 0 where
  pub positive : 0 < p.amount
  pub typed :
      ((p.intent ≡ record_income) × (p.tx_type ≡ "INCOME"))
      ⊎ ((p.intent ≡ record_expense) × (p.tx_type ≡ "EXPENSE"))

-- No entry: the intent is neither of the two, and the fields are Go's zero values.
pub record IsBlank (p : Parsed) : Type 0 where
  pub not_income : p.intent ≢ record_income
  pub not_expense : p.intent ≢ record_expense
  pub nothing : p ≡ blank p.intent p.reason

IsFound : Found → Type 0
IsFound (found text n) = 0 < n
IsFound (not_found reason) = Unit {0}

float_found-IsFound : (text : String) (o : Option ℕ) → IsFound (float_found text o)
unfolding IsFound
float_found-IsFound text none = tt
float_found-IsFound text (some n) = elim (Bool-cases (n == 0)) [
  | inl z ↦ rw z tt
  | inr z ↦ rw z (ground arith)
]

thai_found-IsFound : (text : String) (r : ℤ × Bool) → IsFound (thai_found text r)
unfolding IsFound
thai_found-IsFound text (pos n, true) = elim (Bool-cases (n == 0)) [
  | inl z ↦ rw z tt
  | inr z ↦ rw z (ground arith)
]
thai_found-IsFound text (pos n, false) = tt
thai_found-IsFound text (negsuc n, b) = tt

amount_in-IsFound : (text : String) (o : Option (String × String)) → IsFound (amount_in text o)
unfolding IsFound
amount_in-IsFound text (some (whole, point)) =
    float_found-IsFound (append whole point) (parse_float (whole, point))
amount_in-IsFound text none = elim (Bool-cases (is_empty (find_thai_amount text))) [
  | inl z ↦ rw z tt
  | inr z ↦
      rw z (thai_found-IsFound (find_thai_amount text) (parse_thai_amount (find_thai_amount text)))
]

amount_of_text-IsFound : (text : String) → IsFound (amount_of_text text)
unfolding amount_of_text
amount_of_text-IsFound text = amount_in-IsFound text (find_amount text)

abbrev EntryOrBlank : Parsed → Type 0
EntryOrBlank p = IsEntry p ⊎ IsBlank p

recorded-cases : (text : String) (f : Found) → IsFound f → EntryOrBlank (recorded text f)
unfolding recorded IsFound
recorded-cases text (not_found reason) h =
    inr (record { not_income = λ e. cc; not_expense = λ e. cc; nothing = refl })
recorded-cases text (found amount_text n) h =
    let clean = trim_space (strip_marker income_markers (strip_marker expense_markers text)) in
    inl (record {
      positive = h;
      typed = elim (Bool-cases (is_income_text text (first_matching_rule clean income_rules))) [
        | inl i ↦ rw i (inl (refl, refl))
        | inr i ↦ rw i (inr (refl, refl))
      ];
    })

-- What holds of an early return and of the last case holds of `Parse`.
module _ (P : Parsed → Type 0)
    (early : (i : Intent) (r : String)
      → i ≢ record_income
      → i ≢ record_expense
      → P (blank i r)) where
  blank_or :
      (b : Bool) (i : Intent) (r : String) (q : Parsed)
      → i ≢ record_income
      → i ≢ record_expense
      → P q
      → P (if b then blank i r else q)
  blank_or true i r q hi he h = early i r hi he
  blank_or false i r q hi he h = h

  parse-by :
      (text : String)
      → P (recorded (normalized text) (amount_of_text (normalized text)))
      → P (parse text)
  unfolding parse
  parse-by text h =
      let t = normalized text in
      blank_or (is_empty t) unknown "empty_text" _ (λ e. cc) (λ e. cc)
        (blank_or (is_help t) help "" _ (λ e. cc) (λ e. cc)
          (blank_or (is_ignore t) ignore "" _ (λ e. cc) (λ e. cc)
            (blank_or (is_date_question t) ask_date "" _ (λ e. cc) (λ e. cc)
              (blank_or (asks_today t) ask_today_summary "" _ (λ e. cc) (λ e. cc)
                (blank_or (asks_month t) ask_month_summary "" _ (λ e. cc) (λ e. cc)
                  (blank_or (asks_balance t) ask_balance "" _ (λ e. cc) (λ e. cc) h))))))

-- Whatever the text is, `Parse` either gives an entry, with a positive amount and the type of its
-- intent, or an intent that is no entry with every field of the transaction left at its zero value.
pub parse-cases : (text : String) → IsEntry (parse text) ⊎ IsBlank (parse text)
parse-cases text =
    let t = normalized text in
    parse-by EntryOrBlank
      (λ i r hi he. inr (record { not_income = hi; not_expense = he; nothing = refl })) text
      (recorded-cases t (amount_of_text t) (amount_of_text-IsFound t))

recorded-expense_marker :
    (text : String) (f : Found)
    → starts_any text expense_markers ≡ true
    → (recorded text f).intent ≢ record_income
unfolding recorded is_income_text
recorded-expense_marker text (not_found reason) h = λ e. cc
recorded-expense_marker text (found amount_text n) h = rw h (λ e. cc)

-- A text that starts with รายจ่าย or ค่าใช้จ่าย, after the commas and the spaces around it are
-- removed, is never read as income, whatever words of income follow.
pub parse-expense_marker :
    (text : String)
    → starts_any (normalized text) expense_markers ≡ true
    → (parse text).intent ≢ record_income
parse-expense_marker text h =
    parse-by (λ p. p.intent ≢ record_income) (λ i r hi he. hi) text
      (recorded-expense_marker (normalized text) (amount_of_text (normalized text)) h)
