-- ===== src/Parser/Patterns.antt =====
-- The patterns of parser/transaction.go. `(?i)` is kept by the lower-case text, on the ASCII letters.
use Prim.Native.Char.{code}
use thclaws_thai_ai_agent.Base.{
  ℕ, zero, suc, ◌+◌, ◌-◌, ◌*◌, ◌^◌, String, Bool, ◌&&◌, ◌||◌, Option, none, some, List, [], ◌∷◌,
  ◌==◌, leb, if◌then◌else◌,
}
use thclaws_thai_ai_agent.Base.Text.{is_empty, to_lower, append, has_prefix, contains, size}
use thclaws_thai_ai_agent.Base.Scan.{
  Phrases, contains_any, is_any, starts_any, followed_by, skip, skip_blanks, is_digit,
}
use thclaws_thai_ai_agent.Parser.Amount.{next_word}

abbrev spent : Phrases
spent =
    "จ่าย" ∷ "ใช้" ∷ "หมด" ∷ "เสีย" ∷ "รายจ่าย" ∷ "ค่าอะไร" ∷ "ไปบ้าง" ∷ "เท่าไร" ∷ "กี่บาท" ∷ []

-- `helpExact`
unfoldable pub is_help : String → Bool
unfolding is_any to_lower
is_help text = is_any (to_lower text) (
    "ช่วยเหลือ" ∷ "help" ∷ "วิธีใช้" ∷ "ทำอะไรได้บ้าง" ∷ "ทำไรได้บ้าง" ∷ "มีอะไรบ้าง" ∷ "ใช้ทำอะไร"
    ∷ "ทำอะไรได้" ∷ "service" ∷ "service น่ะ" ∷ "บริการ" ∷ [])

-- `ignoreExact`
unfoldable pub is_ignore : String → Bool
unfolding is_any
is_ignore text = is_any text ("โอนเฉยๆ" ∷ "โอนเฉย ๆ" ∷ "ไม่บันทึก" ∷ "ยกเลิก" ∷ [])

-- `dateQuestion`
unfoldable pub is_date_question : String → Bool
unfolding is_any
is_date_question text = is_any text (
    "วันนี้วันอะไร" ∷ "วันนี้วันที่เท่าไร" ∷ "วันนี้วันที่อะไร" ∷ "วันอะไร" ∷ "วันที่เท่าไร"
    ∷ "วันที่อะไร" ∷ [])

-- `todayExact` or `todayLoose`
unfoldable pub asks_today : String → Bool
unfolding is_any followed_by
asks_today text =
    is_any text ("สรุปวันนี้" ∷ "วันนี้ใช้ไปเท่าไร" ∷ "วันนี้ใช้เท่าไร" ∷ "วันนี้ใช้ไปกี่บาท" ∷ [])
    || followed_by text "วันนี้" spent
    || followed_by text "สรุป" ("วันนี้" ∷ [])

-- `monthExact` or `monthLoose`
unfoldable pub asks_month : String → Bool
unfolding is_any followed_by
asks_month text =
    is_any text
      ("สรุปเดือนนี้" ∷ "เดือนนี้ใช้ไปเท่าไร" ∷ "เดือนนี้ใช้เท่าไร" ∷ "เดือนนี้ใช้ไปกี่บาท" ∷ [])
    || followed_by text "เดือนนี้" spent
    || followed_by text "สรุป" ("เดือนนี้" ∷ [])

-- `accountSummaryAsk`, `incomeExpenseAsk` or `balanceQuestion`
unfoldable pub asks_balance : String → Bool
unfolding is_any contains contains_any followed_by to_lower
asks_balance text =
    is_any text ("สรุปบัญชี" ∷ "ภาพรวมบัญชี" ∷ "รายงานบัญชี" ∷ "สรุปการเงิน" ∷ "ภาพรวมการเงิน" ∷ [])
    || followed_by text "รายรับ" ("รายจ่าย" ∷ [])
    || contains text "รายรับรายจ่าย"
    || followed_by text "รับจ่าย" ("เท่าไร" ∷ [])
    || followed_by text "รับเข้า" ("จ่ายออก" ∷ [])
    || contains_any (to_lower text) (
        "เงินเหลือ" ∷ "เหลือเงิน" ∷ "ยอดคงเหลือ" ∷ "คงเหลือเท่าไร" ∷ "คงเหลือเท่าไหร่"
        ∷ "เหลือเท่าไร" ∷ "เหลือเท่าไหร่" ∷ "balance" ∷ [])

-- `expenseLeadingTok`
unfoldable pub leads_expense : String → Bool
unfolding starts_any
leads_expense text = starts_any text ("ซื้อ" ∷ "จ่าย" ∷ "ค่า" ∷ [])

-- `^(a|b)\s*`, replaced by nothing: the first phrase that matches
unfoldable pub strip_marker : Phrases → String → String
unfolding has_prefix skip skip_blanks
strip_marker [] text = text
strip_marker (p ∷ ps) text =
    if has_prefix text p then skip_blanks (skip (size p) text) else strip_marker ps text

abbrev pub expense_markers : Phrases
expense_markers = "รายจ่าย" ∷ "ค่าใช้จ่าย" ∷ []

abbrev pub income_markers : Phrases
income_markers = "รายรับ" ∷ "รายได้" ∷ []

-- A `rule`
pub record Rule : Type 0 where
  pub phrases : Phrases
  pub category : String

abbrev pub income_rules : List Rule
income_rules =
    record { phrases = "เงินเดือน" ∷ "salary" ∷ []; category = "เงินเดือน" }
    ∷ record {
      phrases = "ขายของ" ∷ "ขายได้" ∷ "ยอดขาย" ∷ "ลูกค้าโอน" ∷ "รับเงิน" ∷ [];
      category = "รายได้จากการขาย";
    }
    ∷ record {
      phrases = "โบนัส" ∷ "รายได้" ∷ "ได้เงิน" ∷ "ให้เงิน" ∷ "ได้ตัง" ∷ "ได้ตังค์" ∷ [];
      category = "รายรับอื่น ๆ";
    }
    ∷ []

abbrev pub expense_rules : List Rule
expense_rules =
    record { phrases = "ค่าไฟ" ∷ "ไฟฟ้า" ∷ "ค่าน้ำ" ∷ "น้ำประปา" ∷ []; category = "ค่าน้ำค่าไฟ" }
    ∷ record {
      phrases = "น้ำมัน" ∷ "รถ" ∷ "แท็กซี่" ∷ "รถเมล์" ∷ "เดินทาง" ∷ "ค่าโดยสาร" ∷ [];
      category = "เดินทาง";
    }
    ∷ record {
      phrases = "ซื้อของเข้าบ้าน" ∷ "ของเข้าบ้าน" ∷ "โลตัส" ∷ "บิ๊กซี" ∷ "ตลาด" ∷ "ของใช้" ∷ [];
      category = "ของใช้เข้าบ้าน";
    }
    ∷ record {
      phrases =
          "กาแฟ" ∷ "ชา" ∷ "ข้าว" ∷ "อาหาร" ∷ "ก๋วยเตี๋ยว" ∷ "น้ำดื่ม" ∷ "ขนม" ∷ "ผัก" ∷ "หมู"
          ∷ "ไก่" ∷ "ไข่" ∷ [];
      category = "อาหารและเครื่องดื่ม";
    }
    ∷ record {
      phrases = "ค่าเทอม" ∷ "เรียน" ∷ "หนังสือ" ∷ "โรงเรียน" ∷ "การศึกษา" ∷ [];
      category = "การศึกษา";
    }
    ∷ record { phrases = "หมอ" ∷ "ยา" ∷ "โรงพยาบาล" ∷ "สุขภาพ" ∷ []; category = "สุขภาพ" }
    ∷ []

-- `firstMatchingRule`, with the category of the rule
unfoldable pub first_matching_rule : String → List Rule → Option String
unfolding contains_any to_lower
first_matching_rule text [] = none
first_matching_rule text (r ∷ rs) =
    if contains_any (to_lower text) r.phrases then some r.category else first_matching_rule text rs

-- `\d+` from here on
unfoldable pub digits_of : String → String
digits_of String.[] = ""
digits_of (String.◌∷◌ c s) = let rest = digits_of s in if is_digit c then String.◌∷◌ c rest else ""

-- `(?:\.\d{1,2})?` from here on
unfoldable pub decimals_of : String → String
decimals_of (String.◌∷◌ p (String.◌∷◌ c (String.◌∷◌ d s))) =
    if code p == 46 && is_digit c
    then String.◌∷◌ p (String.◌∷◌ c (if is_digit d then String.◌∷◌ d "" else ""))
    else ""
decimals_of (String.◌∷◌ p (String.◌∷◌ c String.[])) =
    if code p == 46 && is_digit c then String.◌∷◌ p (String.◌∷◌ c "") else ""
decimals_of s = ""

-- `amountPattern.FindStringSubmatch`: the digits before the point, and the point with its digits
unfoldable pub find_amount : String → Option (String × String)
unfolding digits_of decimals_of skip
find_amount String.[] = none
find_amount (String.◌∷◌ c s) =
    let later = find_amount s in
    let whole = digits_of (String.◌∷◌ c s) in
    if is_digit c then some (whole, decimals_of (skip (size whole) (String.◌∷◌ c s))) else later

read_digits : ℕ → String → ℕ
read_digits n String.[] = n
read_digits n (String.◌∷◌ c s) = read_digits (n * 10 + (code c - 48)) s

-- The satang of `.`, `.d` or `.dd`.
abbrev read_decimals : String → ℕ
read_decimals (String.◌∷◌ p (String.◌∷◌ c String.[])) = (code c - 48) * 10
read_decimals (String.◌∷◌ p (String.◌∷◌ c (String.◌∷◌ d s))) = (code c - 48) * 10 + (code d - 48)
read_decimals s = 0

-- `strconv.ParseFloat` in satang; from half a unit above the largest `float64` on it is ErrRange
unfoldable pub parse_float : String × String → Option ℕ
unfolding read_digits
parse_float (whole, point) =
    let n = read_digits 0 whole in
    if leb (2 ^ 1024 - 2 ^ 970) n then none else some (n * 100 + read_decimals point)

abbrev number_words : ℕ → String → String
number_words zero s = ""
number_words (suc fuel) s = elim (next_word s) [
  | none ↦ ""
  | some w ↦ append w (number_words fuel (skip (size w) s))
]

-- `thaiAmountPattern.FindString`; the length of the text is fuel enough, as a word is not empty
unfoldable pub find_thai_amount : String → String
unfolding next_word skip append
find_thai_amount String.[] = ""
find_thai_amount (String.◌∷◌ c s) =
    let later = find_thai_amount s in
    let here = number_words (size (String.◌∷◌ c s)) (String.◌∷◌ c s) in
    if is_empty here then later else here
