-- ===== src/Dispatcher/Household.antt =====
-- `handleHouseholdText` and the household summary of dispatcher/dispatcher.go.
use thclaws_thai_ai_agent.Base.{String, not, List, [], ◌∷◌, map, if◌then◌else◌, ◌==◌}
use thclaws_thai_ai_agent.Base.Int.{pos}
use thclaws_thai_ai_agent.Base.Text.{is_empty, trim_space, to_lower, append}
use thclaws_thai_ai_agent.Base.Scan.{contains_any}
use thclaws_thai_ai_agent.Sql.{Error, Result, ok, err}
use thclaws_thai_ai_agent.Parser.Parse.{Parsed, parse}
use thclaws_thai_ai_agent.Ledger.Household.{
  Household, HouseholdTransactionInput, list_my_households, create_household_transaction,
}
use thclaws_thai_ai_agent.Ledger.Household.Report.{household_summary}
use thclaws_thai_ai_agent.Memory.Pending.{PendingInput, save_pending_accounting}
use thclaws_thai_ai_agent.Dispatcher.Phrases.{is_household_summary}
use thclaws_thai_ai_agent.Dispatcher.Pending.{thai_direction}
use thclaws_thai_ai_agent.Dispatcher.Chat.{
  Outcome, Service, Identity, Asker, C, ◌>>=◌, ◌>>◌, now, on_books, on_memory,
}
use thclaws_thai_ai_agent.Dispatcher.Replies.{
  reply, reply_choices, reply_choices_with_lead, reply_accounting_card, reply_summary_card,
}

abbrev pub summary_reply : Asker → String → Result Error String → C Outcome
summary_reply who name (err e) = reply who "สรุปบัญชีบ้านไม่สำเร็จครับ ลองอีกครั้งนะครับ"
summary_reply who name (ok body) = reply_summary_card who (append "สรุปบ้าน: " name) body

-- `buildAndReplyHouseholdSummary`
unfoldable pub reply_household_summary : Service → Asker → Household → C Outcome
unfolding append
reply_household_summary svc who h = do
  t ← now
  r ←
      on_books
        (household_summary svc.calendar who.identity.user_id h.id (svc.calendar.first_of_month t) t)
  summary_reply who h.name r

abbrev pub household_names : List Household → List String
household_names hs = map (λ (h : Household). h.name) hs

abbrev pub summarise : Service → Asker → Result Error (List Household) → C Outcome
summarise svc who (err e) = reply who "ดึงข้อมูลบ้านไม่สำเร็จครับ ลองอีกครั้งนะครับ"
summarise svc who (ok []) = reply who "คุณยังไม่มีบ้านในระบบครับ สร้างบ้านผ่าน Mini App ก่อนนะครับ"
summarise svc who (ok (h ∷ [])) = reply_household_summary svc who h
summarise svc who (ok (h ∷ k ∷ hs)) =
    reply_choices who "ต้องการสรุปบ้านไหนครับ?" (household_names (h ∷ k ∷ hs))

-- `handleHouseholdSummary`
unfoldable pub handle_household_summary : Service → Asker → C Outcome
handle_household_summary svc who = do
  r ← on_books (list_my_households who.identity.user_id)
  summarise svc who r

abbrev pub household_type : String → String
household_type content =
    if contains_any (to_lower content) ("รายรับ" ∷ "รายได้" ∷ []) then "INCOME" else "EXPENSE"

abbrev pub household_entry : String → Parsed → HouseholdTransactionInput
household_entry content parsed = record {
  tx_type = household_type content;
  amount = pos parsed.amount;
  category = if is_empty parsed.category then "อื่น ๆ" else parsed.category;
  note = if is_empty parsed.note then trim_space content else parsed.note;
  happened_at = 0;
}

-- What is pending while the user picks a home: it does not say that a home was meant.
abbrev pub household_pending : Identity → String → Parsed → PendingInput
household_pending id content parsed = record {
  owner_id = id.user_id;
  agent_id = id.agent_id;
  namespace = id.namespace;
  original = content;
  direction = "";
  amount = pos parsed.amount;
  note = parsed.note;
  category = parsed.category;
  counterparty_name = "";
  counterparty_role = "";
  confidence = 0;
  causation_id = "";
  ttl = 0;
}

abbrev pub after_household :
    Service → Asker → HouseholdTransactionInput → Result Error String → C Outcome
after_household svc who e (err x) = reply who "บันทึกบัญชีบ้านไม่สำเร็จครับ ลองอีกครั้งนะครับ"
after_household svc who e (ok tx_id) =
    reply_accounting_card svc who (thai_direction e.tx_type) e.note e.amount e.category []

unfoldable pub record_household : Service → Asker → String → HouseholdTransactionInput → C Outcome
record_household svc who household_id e = do
  r ← on_books (create_household_transaction who.identity.user_id household_id e)
  after_household svc who e r

unfoldable pub ask_household : Asker → String → Parsed → List Household → C Outcome
ask_household who content parsed hs = do
  on_memory (save_pending_accounting (household_pending who.identity content parsed))
  reply_choices_with_lead who ("คุณมีหลายบ้านครับ ต้องการบันทึกให้บ้านไหน?" ∷ [])
      "เลือกบ้านที่ต้องการบันทึกครับ" (household_names hs)

abbrev pub enter_household :
    Service → Asker → String → Parsed → Result Error (List Household) → C Outcome
enter_household svc who content parsed (err e) =
    reply who "ดึงข้อมูลบ้านไม่สำเร็จครับ ลองอีกครั้งนะครับ"
enter_household svc who content parsed (ok []) =
    reply who "คุณยังไม่มีบ้านในระบบครับ สร้างบ้านผ่าน Mini App ก่อน แล้วค่อยบันทึกบัญชีบ้านนะครับ"
enter_household svc who content parsed (ok (h ∷ [])) =
    record_household svc who h.id (household_entry content parsed)
enter_household svc who content parsed (ok (h ∷ k ∷ hs)) =
    ask_household who content parsed (h ∷ k ∷ hs)

-- The part of `handleHouseholdText` that records.
unfoldable pub handle_household_entry : Service → Asker → String → Parsed → C Outcome
unfolding contains_any to_lower trim_space
handle_household_entry svc who content parsed =
    if parsed.amount == 0
    then reply who
        "รับทราบครับ อยากบันทึกบัญชีบ้าน แต่ยังไม่เห็นจำนวนเงินครับ ขอตัวเลขด้วยนะครับ เช่น บันทึกบ้าน ค่าไฟ 500"
    else on_books (list_my_households who.identity.user_id)
      >>= enter_household svc who content parsed

-- `handleHouseholdText`
unfoldable pub handle_household_text : Service → Asker → String → C Outcome
handle_household_text svc who content =
    if not svc.has_writer
    then reply who "ระบบบัญชีครัวเรือนยังไม่พร้อมครับ"
    else if is_household_summary content
    then handle_household_summary svc who
    else handle_household_entry svc who content (parse content)
