-- ===== src/Dispatcher/Talk.antt =====
-- The branches of `handleText` of dispatcher/dispatcher.go that ask, record and talk to the model.
use thclaws_thai_ai_agent.Base.{String, Bool, Option, none, some, List, [], ◌∷◌, if◌then◌else◌, ltb}
use thclaws_thai_ai_agent.Base.Int.{pos}
use thclaws_thai_ai_agent.Base.Text.{is_empty, append}
use thclaws_thai_ai_agent.Sql.{Error, Result, ok, err}
use thclaws_thai_ai_agent.Ledger.Tables.{Project}
use thclaws_thai_ai_agent.Ledger.Money.{format_money}
use thclaws_thai_ai_agent.Parser.Parse.{Parsed}
use thclaws_thai_ai_agent.Memory.Pending.{PendingInput, save_pending_accounting}
use thclaws_thai_ai_agent.Memory.Log.{save_conversation_snapshot}
use thclaws_thai_ai_agent.Dispatcher.Answers.{pending_question, sanitize_chat_answer}
use thclaws_thai_ai_agent.Dispatcher.Chat.{
  Outcome, Call, answered, timed_out, failed, Identity, WebResult, Service, Asker, C, ◌>>=◌, ◌>>◌,
  on_memory, deliver, text_reply, session_id,
}
use thclaws_thai_ai_agent.Dispatcher.Replies.{
  reply, reply_choices_with_lead, reply_accounting_card, reply_summary_card, reply_timeout_notice,
}
use thclaws_thai_ai_agent.Dispatcher.Allocate.{Entry, record_entry}
use thclaws_thai_ai_agent.Dispatcher.Prompt.{search_web_if_needed, build_prompt}
use thclaws_thai_ai_agent.Dispatcher.Image.{Ended, ended}

abbrev pub account_choices : List String
account_choices = "รายรับ" ∷ "รายจ่าย" ∷ "โอนเงิน" ∷ "ไม่บันทึก" ∷ []

-- What is saved when the parser is not sure, and when it misses the amount.
abbrev pub unsure : Identity → String → String → Parsed → PendingInput
unsure id message_id content p = record {
  owner_id = id.user_id;
  agent_id = id.agent_id;
  namespace = id.namespace;
  original = content;
  direction = "";
  amount = pos p.amount;
  note = p.note;
  category = p.category;
  counterparty_name = p.counterparty_name;
  counterparty_role = p.counterparty_role;
  confidence = p.confidence;
  causation_id = message_id;
  ttl = 0;
}

abbrev pub no_amount : Identity → String → String → PendingInput
no_amount id message_id content = record {
  owner_id = id.user_id;
  agent_id = id.agent_id;
  namespace = id.namespace;
  original = content;
  direction = "";
  amount = pos 0;
  note = content;
  category = "";
  counterparty_name = "";
  counterparty_role = "";
  confidence = 20;
  causation_id = message_id;
  ttl = 0;
}

-- `parsed.Confidence < 0.75`: the entry is asked about.
unfoldable pub confirm_entry : Asker → String → String → Parsed → C Outcome
unfolding append format_money pending_question
confirm_entry who message_id content p = do
  on_memory (save_pending_accounting (unsure who.identity message_id content p))
  reply_choices_with_lead who
      (append "ผมอ่านได้ว่า: "
          (append p.note (append " " (append (format_money (pos p.amount)) " บาท")))
        ∷ [])
      (pending_question p.note (pos p.amount)) account_choices

abbrev pub parsed_entry : Parsed → Entry
parsed_entry p = record {
  tx_type = p.tx_type;
  amount = pos p.amount;
  category = p.category;
  note = p.note;
  counterparty_name = p.counterparty_name;
  counterparty_role = p.counterparty_role;
  confidence = p.confidence;
}

abbrev pub after_record :
    Service → Asker → String → String → Parsed → Result Error String × List Project → C Ended
after_record svc who direction intent p (err e, projects) =
    ended "record_accounting_failed" (deliver (text_reply "บันทึกไม่สำเร็จ ลองอีกครั้งนะครับ"))
after_record svc who direction intent p (ok tx_id, projects) =
    ended intent (reply_accounting_card svc who direction p.note (pos p.amount) p.category projects)

-- The two cases of an entry.
unfoldable pub enter : Service → Asker → String → String → String → String → Parsed → C Ended
enter svc who message_id content direction intent p =
    if ltb p.confidence 75
    then ended "ask_confirm_accounting" (confirm_entry who message_id content p)
    else record_entry svc who.identity message_id content (parsed_entry p)
      >>= after_record svc who direction intent p

abbrev pub summarised : Asker → String → String → String → String → Result Error String → C Ended
summarised who title intent failure failed_intent (ok body) =
    ended intent (reply_summary_card who title body)
summarised who title intent failure failed_intent (err e) = ended failed_intent (reply who failure)

-- The last part: the answer of the model.
abbrev pub finish_chat : Service → Asker → String → List WebResult × Bool → Call String → C Ended
finish_chat svc who line_user_id web timed_out = ended "chat_failed" (reply_timeout_notice who)
finish_chat svc who line_user_id web failed =
    ended "chat_failed" (reply who "ระบบขัดข้องชั่วคราวครับ ลองอีกครั้งนะ")
finish_chat svc who line_user_id (results, web_failed) (answered answer) =
    on_memory (save_conversation_snapshot who.identity.namespace line_user_id "chat")
    >> ended (elim results [ [] ↦ "chat" | ◌∷◌ r rs ↦ "chat_web_search" ])
        (reply who (sanitize_chat_answer svc.replacement_order answer))

unfoldable pub chat_with :
    (String → String → String → Call String) → Service → Asker → String → String → C Ended
unfolding sanitize_chat_answer
chat_with chatter svc who line_user_id content = do
  web ← search_web_if_needed svc who content
  prompt ← build_prompt svc who content web
  finish_chat svc who line_user_id web
      (chatter who.identity.namespace (session_id who.session) prompt)

abbrev pub chat_by :
    Service → Asker → String → String → Option (String → String → String → Call String) → C Ended
chat_by svc who line_user_id content none =
    ended "chat_unavailable" (reply who "รับข้อความแล้วครับ")
chat_by svc who line_user_id content (some chatter) =
    if is_empty (session_id who.session)
    then ended "thclaws_session_unavailable"
        (reply who "ระบบสมองกลางกำลังต่อประวัติไม่สำเร็จครับ ลองอีกครั้งนะครับ")
    else chat_with chatter svc who line_user_id content

unfoldable pub chat : Service → Asker → String → String → C Ended
chat svc who line_user_id content = chat_by svc who line_user_id content svc.chatter

unfoldable pub ask_amount : Asker → String → String → C Outcome
ask_amount who message_id content = do
  on_memory (save_pending_accounting (no_amount who.identity message_id content))
  reply_choices_with_lead who ("ผมจับได้ว่าเกี่ยวกับเงิน แต่ยังไม่เห็นจำนวนเงินครับ" ∷ [])
      "รายการนี้เกี่ยวกับบัญชีไหมครับ? ถ้าจะบันทึก รบกวนส่งจำนวนเงินเพิ่มด้วย เช่น 60 บาท"
      account_choices
