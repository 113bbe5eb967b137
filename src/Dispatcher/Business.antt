-- ===== src/Dispatcher/Business.antt =====
-- `handleBusinessText` and the business profit of dispatcher/dispatcher.go.
use thclaws_thai_ai_agent.Base.{ℕ, String, not, List, [], ◌∷◌, map, if◌then◌else◌, ◌==◌}
use thclaws_thai_ai_agent.Base.Int.{pos}
use thclaws_thai_ai_agent.Base.Text.{is_empty, append}
use thclaws_thai_ai_agent.Sql.{Error, Result, ok, err}
use thclaws_thai_ai_agent.Parser.Parse.{Parsed, parse}
use thclaws_thai_ai_agent.Ledger.Tables.{BusinessRow}
use thclaws_thai_ai_agent.Ledger.Money.{format_money}
use thclaws_thai_ai_agent.Ledger.Business.{
  BusinessProfitSummary, compute_business_profit, list_my_businesses,
}
use thclaws_thai_ai_agent.Ledger.Business.Sale.{record_business_sale, record_business_purchase}
use thclaws_thai_ai_agent.Dispatcher.Phrases.{
  is_business_sale, is_business_purchase, is_business_profit,
}
use thclaws_thai_ai_agent.Dispatcher.Chat.{Outcome, Service, Asker, C, ◌>>=◌, now, on_books}
use thclaws_thai_ai_agent.Dispatcher.Replies.{
  reply, reply_choices, reply_accounting_card, reply_summary_card,
}

-- The lines of the profit card.
unfoldable pub profit_text : String → BusinessProfitSummary → String
unfolding append format_money
profit_text name p = append "สรุปธุรกิจ: " (
    append name (
      append "\nยอดขาย: " (
        append (format_money p.total_sales) (
          append " บาท\nต้นทุนสินค้า: " (
            append (format_money p.total_purchases) (
              append " บาท\nค่าใช้จ่ายรวม: " (
                append (format_money p.total_expenses) (
                  append " บาท\nกำไรขั้นต้น: " (
                    append (format_money p.gross_profit) (
                      append " บาท\nกำไรสุทธิ: "
                        (append (format_money p.net_profit) " บาท")))))))))))

abbrev pub profit_reply : Asker → String → Result Error BusinessProfitSummary → C Outcome
profit_reply who name (err e) = reply who "คำนวณกำไรไม่สำเร็จครับ ลองอีกครั้งนะครับ"
profit_reply who name (ok p) = reply_summary_card who (append "กำไร: " name) (profit_text name p)

-- `buildAndReplyBusinessProfit`
unfoldable pub reply_business_profit : Service → Asker → BusinessRow → C Outcome
unfolding append profit_text
reply_business_profit svc who b = do
  t ← now
  r ← on_books (compute_business_profit b.id (svc.calendar.first_of_month t) t)
  profit_reply who b.name r

abbrev pub business_names : List BusinessRow → List String
business_names bs = map (λ (b : BusinessRow). b.name) bs

abbrev pub show_profit : Service → Asker → Result Error (List BusinessRow) → C Outcome
show_profit svc who (err e) = reply who "ดึงข้อมูลธุรกิจไม่สำเร็จครับ ลองอีกครั้งนะครับ"
show_profit svc who (ok []) =
    reply who "คุณยังไม่มีธุรกิจในระบบครับ สร้างธุรกิจผ่าน Mini App ก่อนนะครับ"
show_profit svc who (ok (b ∷ [])) = reply_business_profit svc who b
show_profit svc who (ok (b ∷ d ∷ bs)) =
    reply_choices who "ต้องการดูกำไรของธุรกิจไหนครับ?" (business_names (b ∷ d ∷ bs))

-- `handleBusinessProfit`
unfoldable pub handle_business_profit : Service → Asker → C Outcome
handle_business_profit svc who = do
  r ← on_books (list_my_businesses who.identity.user_id)
  show_profit svc who r

-- What follows the write: an error text, or the card.
abbrev pub after_write :
    Service → Asker → String → String → String → String → ℕ → Result Error String → C Outcome
after_write svc who failure direction category what amount (err e) = reply who failure
after_write svc who failure direction category what amount (ok tx_id) =
    reply_accounting_card svc who direction what (pos amount) category []

unfoldable pub record_sale : Service → Asker → String → String → ℕ → C Outcome
record_sale svc who business_id product amount = do
  r ← on_books (record_business_sale who.identity.user_id business_id product amount 0 0)
  after_write svc who "บันทึกยอดขายไม่สำเร็จครับ ลองอีกครั้งนะครับ" "รายรับ" "รายได้จากการขาย"
      product amount r

unfoldable pub record_purchase : Service → Asker → String → String → ℕ → C Outcome
record_purchase svc who business_id material amount = do
  r ← on_books (record_business_purchase who.identity.user_id business_id material amount 0 0)
  after_write svc who "บันทึกต้นทุนไม่สำเร็จครับ ลองอีกครั้งนะครับ" "รายจ่าย" "ต้นทุนสินค้า"
      material amount r

abbrev pub or_default : String → String → String
or_default s d = if is_empty s then d else s

-- A sale or a purchase of the one business.
unfoldable pub enter_business : Service → Asker → String → String → Parsed → C Outcome
enter_business svc who business_id content parsed =
    if is_business_sale content
    then if parsed.amount == 0
      then reply who
          "รับทราบครับ อยากบันทึกยอดขาย แต่ยังไม่เห็นจำนวนเงินครับ ขอตัวเลขด้วยนะครับ เช่น ขาย กาแฟ 120"
      else record_sale svc who business_id (or_default parsed.note "สินค้า") parsed.amount
    else if is_business_purchase content
    then if parsed.amount == 0
      then reply who
          "รับทราบครับ อยากบันทึกต้นทุน แต่ยังไม่เห็นจำนวนเงินครับ ขอตัวเลขด้วยนะครับ เช่น ซื้อวัตถุดิบ กาแฟ 500"
      else record_purchase svc who business_id (or_default parsed.note "วัตถุดิบ") parsed.amount
    else reply who "รับทราบครับ แต่ผมไม่แน่ใจว่าต้องการทำอะไรกับธุรกิจครับ"

abbrev pub choose_business : Service → Asker → String → Result Error (List BusinessRow) → C Outcome
choose_business svc who content (err e) = reply who "ดึงข้อมูลธุรกิจไม่สำเร็จครับ ลองอีกครั้งนะครับ"
choose_business svc who content (ok []) =
    reply who "คุณยังไม่มีธุรกิจในระบบครับ สร้างธุรกิจผ่าน Mini App ก่อนนะครับ"
choose_business svc who content (ok (b ∷ [])) = enter_business svc who b.id content (parse content)
choose_business svc who content (ok (b ∷ d ∷ bs)) =
    reply_choices who "คุณมีหลายธุรกิจครับ ต้องการบันทึกให้ธุรกิจไหน?" (business_names (b ∷ d ∷ bs))

-- `handleBusinessText`
unfoldable pub handle_business_text : Service → Asker → String → C Outcome
handle_business_text svc who content =
    if not svc.has_writer
    then reply who "ระบบบัญชีธุรกิจยังไม่พร้อมครับ"
    else if is_business_profit content
    then handle_business_profit svc who
    else on_books (list_my_businesses who.identity.user_id) >>= choose_business svc who content
