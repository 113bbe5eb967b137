-- ===== src/Dispatcher/Text.antt =====
-- `handleText` of dispatcher/dispatcher.go, once the session is there.
use thclaws_thai_ai_agent.Base.{
  String, not, ◌&&◌, ◌||◌, Option, none, some, [], ◌∷◌, str_eq, if◌then◌else◌,
}
use thclaws_thai_ai_agent.Thaitime.{today_sentence}
use thclaws_thai_ai_agent.Ledger.Summary.{today, this_month, balance}
use thclaws_thai_ai_agent.Parser.Parse.{
  Intent, record_expense, record_income, ask_today_summary, ask_month_summary, ask_balance,
  ask_date, help, ignore, unknown, Parsed, parse,
}
use thclaws_thai_ai_agent.Dispatcher.Phrases.{
  Choice, accounting_choice, wants_latest_image_analysis, wants_image_recall, wants_mini_app,
  is_capability_question, is_frustration, asks_assistant_to_guess, is_ambiguous_follow_up,
  is_household_command, is_household_summary, is_business_sale, is_business_purchase,
  is_business_profit, looks_accounting_related, is_knowledge_or_advice_request,
}
use thclaws_thai_ai_agent.Dispatcher.Answers.{help_text}
use thclaws_thai_ai_agent.Dispatcher.Chat.{
  Outcome, delivered, refused, Service, Asker, C, return, ◌>>=◌, ◌>>◌, now, on_books,
}
use thclaws_thai_ai_agent.Dispatcher.Replies.{reply, reply_choices, reply_open_mini_app}
use thclaws_thai_ai_agent.Dispatcher.Pending.{
  clear_pending, handle_pending_accounting_choice, handle_pending_amount,
}
use thclaws_thai_ai_agent.Dispatcher.Household.{handle_household_text}
use thclaws_thai_ai_agent.Dispatcher.Business.{handle_business_text}
use thclaws_thai_ai_agent.Dispatcher.Image.{Ended, ended}
use thclaws_thai_ai_agent.Dispatcher.Recall.{reply_latest_image, analyze_latest_image}
use thclaws_thai_ai_agent.Dispatcher.Talk.{enter, summarised, chat, ask_amount}

unfoldable pub drop_question : Asker → C Outcome
drop_question who = do clear_pending who; reply who "โอเคครับ ไม่บันทึกรายการนี้"

-- A text that the parser does not know.
unfoldable pub answer_unknown : Service → Asker → String → String → String → Parsed → C Ended
answer_unknown svc who line_user_id message_id content p =
    if str_eq p.reason "missing_amount"
      && looks_accounting_related content
      && not (is_knowledge_or_advice_request content)
    then ended "ask_amount" (ask_amount who message_id content)
    else chat svc who line_user_id content

-- The `switch` on the intent of the parser.
unfoldable pub answer_intent :
    Service → Asker → String → String → String → Parsed → Intent → C Ended
answer_intent svc who line_user_id message_id content p ignore = ended "ignore" (drop_question who)
answer_intent svc who line_user_id message_id content p record_expense =
    enter svc who message_id content "รายจ่าย" "record_expense" p
answer_intent svc who line_user_id message_id content p record_income =
    enter svc who message_id content "รายรับ" "record_income" p
answer_intent svc who line_user_id message_id content p ask_today_summary =
    on_books (today svc.calendar who.identity.user_id who.identity.namespace)
    >>= summarised who "สรุปวันนี้" "today_summary" "ขอเวลาดึงข้อมูลครับ ลองใหม่อีกที"
        "today_summary_failed"
answer_intent svc who line_user_id message_id content p ask_month_summary =
    on_books (this_month svc.calendar who.identity.user_id who.identity.namespace)
    >>= summarised who "สรุปเดือนนี้" "month_summary" "ขอเวลาดึงข้อมูลครับ ลองใหม่อีกที"
        "month_summary_failed"
answer_intent svc who line_user_id message_id content p ask_balance =
    on_books (balance who.identity.user_id who.identity.namespace)
    >>= summarised who "ภาพรวมการเงิน" "balance" "ขอเวลาดึงยอดคงเหลือครับ ลองใหม่อีกที"
        "balance_failed"
answer_intent svc who line_user_id message_id content p ask_date =
    now >>= λ t. ended "ask_date" (reply who (today_sentence svc.calendar t))
answer_intent svc who line_user_id message_id content p help = ended "help" (
    reply_choices who help_text
      ("เปิดสมุดบัญชี" ∷ "สรุปวันนี้" ∷ "สรุปเดือนนี้" ∷ "อ่านรูปล่าสุด" ∷ []))
answer_intent svc who line_user_id message_id content p unknown =
    answer_unknown svc who line_user_id message_id content p

-- The routes behind the questions that may be open.
unfoldable pub route : Service → Asker → String → String → String → C Ended
route svc who line_user_id message_id content =
    if is_ambiguous_follow_up content
    then ended "ask_clarify_followup" (
        reply_choices who
          "ผมเห็นว่าเป็นคำตอบต่อเนื่อง แต่ตอนนี้ไม่มีรายการค้างให้ยืนยันครับ เลขาขอไม่เดานะ ส่งรายการใหม่อีกทีได้เลย"
          ("ช่วยเหลือ" ∷ "ไม่บันทึก" ∷ []))
    else if is_household_command content || is_household_summary content
    then ended "unknown" (handle_household_text svc who content)
    else if is_business_sale content || is_business_purchase content || is_business_profit content
    then ended "unknown" (handle_business_text svc who content)
    else answer_intent svc who line_user_id message_id content (parse content)
        (parse content).intent

-- An answer to an open question ends the handler; with an error, the intent says so.
abbrev pub handled_or : String → String → C Ended → Option Outcome → C Ended
handled_or intent failure rest none = rest
handled_or intent failure rest (some delivered) = return (delivered, intent)
handled_or intent failure rest (some refused) = return (refused, failure)

abbrev pub amount_or_route : Service → Asker → String → String → String → C Ended
amount_or_route svc who line_user_id message_id content =
    handle_pending_amount svc who message_id content
    >>= handled_or "pending_amount" "pending_amount_error"
        (route svc who line_user_id message_id content)

abbrev pub choice_or : Service → Asker → String → String → String → Option Choice → C Ended
choice_or svc who line_user_id message_id content none =
    amount_or_route svc who line_user_id message_id content
choice_or svc who line_user_id message_id content (some choice) =
    handle_pending_accounting_choice svc who message_id choice
    >>= handled_or "accounting_choice" "accounting_choice_error" (
        ended "accounting_choice_without_pending" (
          reply who
            "หมายถึงรายการไหนครับ? ส่งข้อความรายการมาก่อน เช่น \"กาแฟ 60\" แล้วผมจะจัดให้ ไม่มั่วแน่นอน"))

-- `handleText` from the first test on.
unfoldable pub answer_text : Service → Asker → String → String → String → C Ended
answer_text svc who line_user_id message_id content =
    if wants_latest_image_analysis content
    then ended "latest_image_analysis" (analyze_latest_image svc who)
    else if wants_image_recall content
    then ended "latest_image_recall" (reply_latest_image svc who)
    else if wants_mini_app content
    then ended "open_liff" (reply_open_mini_app svc who)
    else if is_capability_question content
    then ended "help" (
        reply_choices who help_text
          ("เปิดสมุดบัญชี" ∷ "สรุปวันนี้" ∷ "สรุปเดือนนี้" ∷ "อ่านรูปล่าสุด" ∷ []))
    else if is_frustration content
    then ended "frustration" (
        reply_choices who
          "รับทราบครับ รอบก่อนตอบไม่เข้าท่า เดี๋ยวผมคุมให้แน่นขึ้น: ไม่เดา ไม่มั่ว ถ้าเป็นเรื่องบัญชีจะถามก่อนบันทึกครับ"
          ("ช่วยเหลือ" ∷ "สรุปวันนี้" ∷ "ไม่บันทึก" ∷ []))
    else if asks_assistant_to_guess content
    then ended "ask_clarify_guess" (
        reply_choices who
          "ผมช่วยคิดได้ครับ แต่เรื่องเงินกับข้อมูลส่วนตัวผมจะไม่เดาให้มั่ว ๆ เลือกทางที่ต้องการได้เลย"
          ("สรุปวันนี้" ∷ "บันทึกรายรับ" ∷ "บันทึกรายจ่าย" ∷ "ถามทั่วไป" ∷ []))
    else choice_or svc who line_user_id message_id content (accounting_choice content)
