-- ===== src/Dispatcher/Answers.antt =====
-- The texts of dispatcher/dispatcher.go that are not fixed.
pub mod Sanitized
use thclaws_thai_ai_agent.Base.{
  String, Bool, true, false, not, ◌&&◌, ◌||◌, List, [], ◌∷◌, str_eq, if◌then◌else◌, exists,
}
use thclaws_thai_ai_agent.Base.Int.{ℤ, pos, ltb_ℤ}
use thclaws_thai_ai_agent.Base.Text.{is_empty, trim_space, to_lower, contains, append, size}
use thclaws_thai_ai_agent.Base.Scan.{contains_any, replace_all, join}
use thclaws_thai_ai_agent.Ledger.Tables.{Project}
use thclaws_thai_ai_agent.Ledger.Money.{format_money}

-- `claimsCompletedAction`
unfoldable pub claims_completed_action : String → Bool
unfolding contains_any
claims_completed_action answer =
    contains_any answer
      ("บันทึกแล้ว" ∷ "บันทึกเรียบร้อย" ∷ "ได้บันทึก" ∷ "ผมบันทึก" ∷ "ลงบัญชีแล้ว" ∷ [])

-- The entries of the map `replacements`; Go goes through them in any order.
abbrev pub replacements : List (String × String)
replacements =
    ("ครับ/ค่ะ", "ครับ")
    ∷ ("คะ/ค่ะ", "ครับ")
    ∷ ("นะครับ/ค่ะ", "นะครับ")
    ∷ ("ขอโทษครับ/ค่ะ", "ขอโทษครับ")
    ∷ []

unfoldable pub replace_each : List (String × String) → String → String
unfolding replace_all
replace_each [] answer = answer
replace_each ((old, new) ∷ rest) answer = replace_each rest (replace_all answer old new)

abbrev pub no_answer : String
no_answer = "ขออภัยครับ รอบนี้ผมยังเรียบเรียงคำตอบไม่ได้ ลองถามใหม่อีกครั้งนะครับ"

abbrev pub not_thai : String
not_thai = "ขอโทษครับ รอบนี้สมองกลางตอบไม่ตรงภาษาไทย ลองถามใหม่อีกครั้งนะครับ"

abbrev pub other_helper : String
other_helper = "ขอโทษครับ รอบก่อนตอบไม่ดี ผมจะตอบให้ตรงขึ้นและไม่เดาข้อมูลให้ครับ"

abbrev pub nothing_done : String
nothing_done =
    "ผมยังไม่ได้ทำรายการอะไรในรอบนี้นะครับ ถ้าต้องการบันทึกบัญชี ส่งรายการพร้อมจำนวนเงิน เช่น กาแฟ 60 ได้เลยครับ"

-- The tests of `sanitizeChatAnswer` after the replacements.
unfoldable pub checked_answer : String → String
unfolding contains_any contains to_lower claims_completed_action
checked_answer answer =
    if contains_any (to_lower answer)
      ("i'm sorry" ∷ "i cannot provide" ∷ "cannot provide a response" ∷ [])
    then not_thai
    else if contains answer "ผู้ช่วยอื่น"
    then other_helper
    else if claims_completed_action answer
    then nothing_done
    else answer

-- `sanitizeChatAnswer`, with the order in which the map is gone through
unfoldable pub sanitize_chat_answer : List (String × String) → String → String
unfolding trim_space replace_each checked_answer
sanitize_chat_answer order answer =
    if is_empty (trim_space answer)
    then no_answer
    else checked_answer (replace_each order (trim_space answer))

-- `buildSlipReply`
unfoldable pub build_slip_reply : String → String → String
unfolding append
build_slip_reply summary direction = append summary (
    append "\n" (
      append
        (if str_eq direction "INCOME"
          then "น่าจะเป็นรายรับ"
          else if str_eq direction "EXPENSE"
          then "น่าจะเป็นรายจ่าย"
          else if str_eq direction "TRANSFER"
          then "น่าจะเป็นการโอนระหว่างบัญชี"
          else "ยังไม่แน่ใจว่าเป็นรายรับหรือรายจ่าย")
        " รบกวนยืนยันก่อนบันทึกบัญชีครับ"))

-- `helpText`
abbrev pub help_text : String
help_text =
    "ผมช่วยเป็นเลขาส่วนตัวผ่าน LINE ได้ครับ\n- บันทึกบัญชี: กาแฟ 60 / ค่าไฟ 980 / เงินเดือน 25000\n- อ่านสลิป/รูป: ส่งรูปมาได้เลย ถ้าไม่ชัวร์ผมจะถามก่อนบันทึก\n- สรุปเงิน: สรุปวันนี้ / สรุปเดือนนี้ / ตอนนี้เหลือเงินเท่าไหร่\n- Mini App: พิมพ์ เปิดสมุดบัญชี เพื่อดูกราฟ รายการล่าสุด และบัญชีแยกประเภท\n- นักบัญชีครัวเรือน: ช่วยดูรับ-จ่าย งบประมาณ หมวดค่าใช้จ่าย และเงินคงเหลือ\n- นักการเงิน: ช่วยวางแผนออมเงิน จัดลำดับหนี้ เงินสำรอง และเป้าหมายการเงินแบบไม่เดาตัวเลข\n- ถามทั่วไป: สูตรอาหาร วางแผนงาน ค้นข้อมูล หรือให้ช่วยคิดก็ได้ครับ"

-- `pendingQuestion`
unfoldable pub pending_question : String → ℤ → String
unfolding append format_money
pending_question note amount =
    if ltb_ℤ (pos 0) amount
    then append "ผมเดาว่า \"" (
        append note (
          append "\" " (
            append (format_money amount)
              " บาท เป็นรายการบัญชี แต่ยังไม่ชัวร์ครับ ให้ลงฝั่งไหนดี?")))
    else "รายการนี้เหมือนเกี่ยวกับเงิน แต่เลขาขอเช็กก่อนครับ ให้ทำอะไรดี?"

names_after : List String → List Project → List String
unfolding trim_space
names_after seen [] = []
names_after seen (p ∷ ps) =
    let name = trim_space p.name in
    let skipped = names_after seen ps in
    let kept = names_after (name ∷ seen) ps in
    if is_empty name || exists (str_eq name) seen then skipped else name ∷ kept

-- `projectNames`
unfoldable pub project_names : List Project → List String
unfolding names_after
project_names projects = names_after [] projects

-- `projectReplyText`
unfoldable pub project_reply_text : List Project → String
unfolding project_names join
project_reply_text projects = join ", " (project_names projects)

-- `chooseContentType`
unfoldable pub choose_content_type : String → String → String
unfolding trim_space
choose_content_type primary fallback =
    if not (is_empty (trim_space primary)) && not (str_eq primary "application/octet-stream")
    then primary
    else if not (is_empty (trim_space fallback))
    then fallback
    else "application/octet-stream"
