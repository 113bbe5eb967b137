-- ===== src/Dispatcher/Phrases.antt =====
-- The tests of dispatcher/dispatcher.go on a text: what the user wants.
use thclaws_thai_ai_agent.Base.{
  ℕ, zero, suc, ◌+◌, ◌/◌, ◌%◌, String, Bool, true, false, not, ◌&&◌, ◌||◌, Option, none, some, List,
  [], ◌∷◌, str_eq, if◌then◌else◌, ltb, ◌==◌, ◌≡◌, refl,
}
use thclaws_thai_ai_agent.Base.Text.{
  is_empty, trim_space, to_lower, contains, append, size, has_prefix,
}
use thclaws_thai_ai_agent.Base.Scan.{contains_any, is_any, replace_all, trim_suffix}
use thclaws_thai_ai_agent.Ledger.Money.{digit}
use thclaws_thai_ai_agent.Parser.Amount.{tokens_from}
use thclaws_thai_ai_agent.Parser.Parse.{parse}

-- `wantsImageRecall`
unfoldable pub wants_image_recall : String → Bool
unfolding contains_any trim_space
wants_image_recall text =
    let clean = trim_space text in
    contains_any clean ("ดูรูป" ∷ "ส่งรูป" ∷ "รูปล่าสุด" ∷ [])
    && contains_any clean ("เมื่อกี้" ∷ "ล่าสุด" ∷ "เก็บ" ∷ "ไว้" ∷ [])

-- `wantsLatestImageAnalysis`
unfoldable pub wants_latest_image_analysis : String → Bool
unfolding contains_any contains trim_space
wants_latest_image_analysis text =
    let clean = trim_space text in
    contains_any clean ("อ่านรูป" ∷ "วิเคราะห์รูป" ∷ "ดูสลิป" ∷ "อ่านสลิป" ∷ [])
    || (contains clean "รูปเมื่อกี้" && contains_any clean ("คืออะไร" ∷ "อะไร" ∷ []))

-- `strings.ToLower(strings.TrimSpace(text))`
unfoldable pub clean : String → String
unfolding to_lower trim_space
clean text = to_lower (trim_space text)

-- `wantsMiniApp`
unfoldable pub wants_mini_app : String → Bool
unfolding contains_any clean
wants_mini_app text = contains_any (clean text) (
    "เปิดสมุดบัญชี" ∷ "สมุดบัญชี" ∷ "mini app" ∷ "มินิแอป" ∷ "liff" ∷ "dashboard" ∷ "แดชบอร์ด"
    ∷ "เปิดบัญชี" ∷ "หน้าบัญชี" ∷ "กราฟ" ∷ "รายงานบัญชี" ∷ [])

-- `isCapabilityQuestion`
unfoldable pub is_capability_question : String → Bool
unfolding contains_any clean
is_capability_question text = contains_any (clean text) (
    "ทำอะไรได้บ้าง" ∷ "ทำไรได้บ้าง" ∷ "มีอะไรบ้าง" ∷ "ใช้ทำอะไร" ∷ "ทำอะไรได้" ∷ "service"
    ∷ "บริการ" ∷ "ช่วยอะไรได้" ∷ "ช่วยอะไรได้บ้าง" ∷ [])

-- `isFrustration`
unfoldable pub is_frustration : String → Bool
unfolding contains_any clean
is_frustration text =
    contains_any (clean text)
      ("กาก" ∷ "ห่วย" ∷ "โง่" ∷ "ไม่ตรง" ∷ "ตอบมั่ว" ∷ "มั่ว" ∷ "ไม่ได้เรื่อง" ∷ "ใช้ไม่ได้" ∷ [])

-- `asksAssistantToGuess`
unfoldable pub asks_assistant_to_guess : String → Bool
unfolding contains_any clean
asks_assistant_to_guess text = contains_any (clean text) ("คิดเอา" ∷ "เดาเอา" ∷ "จัดการเอง" ∷ [])

-- What `accountingChoice` returns.
pub data Choice : Type 0 where
  income expense transfer ignore : Choice

-- `accountingChoice`; `none` is ""
unfoldable pub accounting_choice : String → Option Choice
unfolding is_any trim_space
accounting_choice text =
    let t = trim_space text in
    if is_any t ("รายรับ" ∷ "บันทึกรายรับ" ∷ "เงินเข้า" ∷ [])
    then some income
    else if is_any t ("รายจ่าย" ∷ "บันทึกรายจ่าย" ∷ "ค่าใช้จ่าย" ∷ [])
    then some expense
    else if is_any t ("โอนเงิน" ∷ "โอนเฉยๆ" ∷ "โอนเฉย ๆ" ∷ "ไม่ใช่รายรับรายจ่าย" ∷ [])
    then some transfer
    else if is_any t ("ไม่บันทึก" ∷ "ยกเลิก" ∷ [])
    then some ignore
    else none

decimal_from : ℕ → ℕ → String → String
unfolding digit append
decimal_from zero n digits = digits
decimal_from (suc fuel) n digits =
    let rest = decimal_from fuel (n / 10) (append (digit (n % 10)) digits) in
    if n == 0 then digits else rest

-- `fmt.Sprintf("%.0f", amount)` of an amount above 0; a `float64` has at most 309 digits
abbrev rounded : ℕ → String
rounded amount = let n = (amount + 50) / 100 in if n == 0 then "0" else decimal_from 309 n ""

-- `thaiAmountOnlyPattern`
unfoldable pub is_thai_amount : String → Bool
unfolding tokens_from
is_thai_amount text = not (is_empty text) && is_empty (tokens_from (size text) text).1

-- `parseAmountOnly`: has the text an amount and nothing else?
unfoldable pub parse_amount_only : String → Bool
unfolding replace_all trim_suffix trim_space parse is_thai_amount decimal_from
parse_amount_only text =
    let trimmed = trim_space (trim_suffix (trim_space (replace_all text "," "")) "บาท") in
    let amount = (parse trimmed).amount in
    not (is_empty trimmed)
    && ltb 0 amount
    && (str_eq (rounded amount) trimmed || is_thai_amount trimmed)

-- `isAmbiguousFollowUp`
unfoldable pub is_ambiguous_follow_up : String → Bool
unfolding is_any clean trim_space parse_amount_only
is_ambiguous_follow_up text =
    not (is_empty (trim_space text))
    && (is_any (clean text) (
          "ใช่" ∷ "ไม่ใช่" ∷ "เอา" ∷ "ไม่เอา" ∷ "ตกลง" ∷ "โอเค" ∷ "ok" ∷ "ได้" ∷ "อันนั้น"
          ∷ "อันนี้" ∷ "เมื่อกี้" ∷ [])
        || parse_amount_only (trim_space text))

-- `isKnowledgeOrAdviceRequest`
unfoldable pub is_knowledge_or_advice_request : String → Bool
unfolding contains_any clean
is_knowledge_or_advice_request text = contains_any (clean text) (
    "สูตร" ∷ "วิธีทำ" ∷ "ทำยังไง" ∷ "ทำอย่างไร" ∷ "แนะนำ" ∷ "ควร" ∷ "วางแผน" ∷ "อธิบาย" ∷ "คืออะไร"
    ∷ "อะไรคือ" ∷ "ทำซูชิ" ∷ "หุงข้าว" ∷ "ทำอาหาร" ∷ "กินอะไรดี" ∷ "เก็บเงินยังไง" ∷ "ออมเงิน" ∷ [])

word_starts : String → List String → Bool
unfolding has_prefix contains append
word_starts text [] = false
word_starts text (p ∷ ps) = has_prefix text p || contains text (append " " p) || word_starts text ps

-- `looksAccountingRelated`
unfoldable pub looks_accounting_related : String → Bool
unfolding is_knowledge_or_advice_request word_starts clean trim_space
looks_accounting_related text =
    not (is_empty (trim_space text))
    && not (is_knowledge_or_advice_request text)
    && word_starts (clean text) (
        "ค่า" ∷ "ซื้อ" ∷ "จ่าย" ∷ "ใช้ไป" ∷ "เสีย" ∷ "รายรับ" ∷ "รายจ่าย" ∷ "รายได้" ∷ "เงินเดือน"
        ∷ "ขายของ" ∷ "ขายได้" ∷ "รับเงิน" ∷ "ได้เงิน" ∷ "ให้เงิน" ∷ "เมียให้" ∷ "แม่ให้" ∷ "พ่อให้"
        ∷ "โอน" ∷ "เติม" ∷ "บิล" ∷ "ค่าน้ำ" ∷ "ค่าไฟ" ∷ "น้ำมันรถ" ∷ [])

-- `isFinancialAdviceRequest`
unfoldable pub is_financial_advice_request : String → Bool
unfolding contains_any clean
is_financial_advice_request text =
    contains_any (clean text) (
      "ออม" ∷ "เก็บเงิน" ∷ "วางแผนการเงิน" ∷ "วางแผนเงิน" ∷ "งบประมาณ" ∷ "ประหยัด" ∷ "หนี้" ∷ "ผ่อน"
      ∷ "เงินสำรอง" ∷ "ฉุกเฉิน" ∷ "ลงทุน" ∷ "รายรับรายจ่าย" ∷ "กระแสเงินสด" ∷ "บัญชีครัวเรือน"
      ∷ "ใช้เงิน" ∷ "บริหารเงิน" ∷ "คุมรายจ่าย" ∷ "เป้าหมายการเงิน" ∷ [])
    && (contains_any (clean text)
          ("ควร" ∷ "แนะนำ" ∷ "วางแผน" ∷ "ทำยังไง" ∷ "ทำอย่างไร" ∷ "ช่วยดู" ∷ "ช่วยคิด" ∷ [])
        || contains_any (clean text) ("นักการเงิน" ∷ "นักบัญชี" ∷ []))

-- `isHouseholdCommand`
unfoldable pub is_household_command : String → Bool
unfolding contains_any clean
is_household_command text =
    contains_any (clean text)
      ("บันทึกบ้าน" ∷ "ค่าใช้จ่ายบ้าน" ∷ "บันทึกให้บ้าน" ∷ "รายจ่ายบ้าน" ∷ [])

-- `isHouseholdSummary`
unfoldable pub is_household_summary : String → Bool
unfolding contains clean
is_household_summary text = contains (clean text) "สรุปบ้าน"

-- `isBusinessSale`
unfoldable pub is_business_sale : String → Bool
unfolding contains_any clean
is_business_sale text = contains_any (clean text) ("ขาย" ∷ "ยอดขาย" ∷ "รายได้ร้าน" ∷ [])

-- `isBusinessPurchase`
unfoldable pub is_business_purchase : String → Bool
unfolding contains_any clean
is_business_purchase text =
    contains_any (clean text) ("ซื้อของเข้าร้าน" ∷ "ต้นทุนร้าน" ∷ "ซื้อวัตถุดิบ" ∷ [])

-- `isBusinessProfit`
unfoldable pub is_business_profit : String → Bool
unfolding contains_any clean
is_business_profit text = contains_any (clean text) ("กำไร" ∷ "สรุปร้าน" ∷ "สรุปธุรกิจ" ∷ [])

parse_amount_only_lem : parse_amount_only " 1,200 บาท" ≡ true
unfolding parse_amount_only
parse_amount_only_lem = refl

parse_amount_only_words : parse_amount_only "สองร้อยบาท" ≡ true
unfolding parse_amount_only
parse_amount_only_words = refl
