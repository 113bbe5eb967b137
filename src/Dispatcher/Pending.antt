-- ===== src/Dispatcher/Pending.antt =====
-- `handlePendingAccountingChoice` and `handlePendingAmount` of dispatcher/dispatcher.go: the answer
-- to a question that is still open. `none` is a text that they do not handle.
use thclaws_thai_ai_agent.Base.{
  String, Bool, true, false, not, ◌&&◌, ◌||◌, Option, none, some, List, [], ◌∷◌, str_eq,
  if◌then◌else◌,
}
use thclaws_thai_ai_agent.Base.Int.{ℤ, pos, leb_ℤ}
use thclaws_thai_ai_agent.Base.Text.{is_empty, trim_space, append}
use thclaws_thai_ai_agent.Sql.{Error, Result, ok, err}
use thclaws_thai_ai_agent.Ledger.Tables.{Project}
use thclaws_thai_ai_agent.Parser.Parse.{Intent, record_expense, record_income, Parsed, parse}
use thclaws_thai_ai_agent.Memory.Store.{PendingAction, text, money}
use thclaws_thai_ai_agent.Memory.Pending.{
  PendingInput, save_pending_accounting, get_pending_accounting, clear_pending_accounting,
}
use thclaws_thai_ai_agent.Dispatcher.Phrases.{Choice, income, expense, transfer, ignore}
use thclaws_thai_ai_agent.Dispatcher.Chat.{
  Outcome, Service, Identity, Asker, C, return, ◌>>=◌, ◌>>◌, on_memory, log_event,
}
use thclaws_thai_ai_agent.Dispatcher.Replies.{reply, reply_choices, reply_accounting_card}
use thclaws_thai_ai_agent.Dispatcher.Allocate.{Entry, record_entry}

-- The pending action that a read found; an error is only logged.
abbrev pub found_pending : Result Error (Option PendingAction) → Option PendingAction
found_pending (ok p) = p
found_pending (err e) = none

unfoldable pub pending_of_asker : Asker → C (Option PendingAction)
pending_of_asker who = do
  r ← on_memory (get_pending_accounting who.identity.namespace)
  return (found_pending r)

-- `s.memory.ClearPendingAccounting`, its error only logged
unfoldable pub clear_pending : Asker → C (Unit {0})
clear_pending who = do on_memory (clear_pending_accounting who.identity.namespace); return tt

-- A category that a rule chose is kept; the two general ones follow the direction.
abbrev pub category_of : String → PendingAction → String
category_of direction p =
    if is_empty p.category || str_eq p.category "อื่น ๆ" || str_eq p.category "รายรับอื่น ๆ"
    then if str_eq direction "INCOME" then "รายรับอื่น ๆ" else "อื่น ๆ"
    else p.category

abbrev pub thai_direction : String → String
thai_direction direction = if str_eq direction "INCOME" then "รายรับ" else "รายจ่าย"

abbrev pub entry_of : String → ℤ → String → PendingAction → Entry
entry_of direction amount note p = record {
  tx_type = direction;
  amount = amount;
  category = category_of direction p;
  note = note;
  counterparty_name = p.counterparty_name;
  counterparty_role = p.counterparty_role;
  confidence = 85;
}

-- What follows `CreatePersonalTransaction`.
abbrev pub after_entry : Service → Asker → Entry → Result Error String × List Project → C Outcome
after_entry svc who e (err x, projects) = reply who "บันทึกไม่สำเร็จครับ ลองอีกทีนะ เลขาขอแก้มือ"
after_entry svc who e (ok tx_id, projects) = do
  clear_pending who
  reply_accounting_card svc who (thai_direction e.tx_type) e.note e.amount e.category projects

-- An entry with what is pending, and its card.
unfoldable pub record_pending :
    Service → Asker → String → String → ℤ → String → PendingAction → C Outcome
record_pending svc who message_id direction amount note p = do
  r ←
      record_entry svc who.identity message_id (append p.original (append " " note))
        (entry_of direction amount note p)
  after_entry svc who (entry_of direction amount note p) r

-- The question with the direction that was chosen, and without an amount.
abbrev pub directed : Identity → String → PendingAction → PendingInput
directed id direction p = record {
  owner_id = id.user_id;
  agent_id = id.agent_id;
  namespace = id.namespace;
  original = p.original;
  direction = direction;
  amount = pos 0;
  note = p.note;
  category = p.category;
  counterparty_name = p.counterparty_name;
  counterparty_role = p.counterparty_role;
  confidence = p.confidence;
  causation_id = p.causation_id;
  ttl = 0;
}

unfoldable pub ask_for_amount : Asker → String → PendingAction → C Outcome
ask_for_amount who direction p = do
  on_memory (save_pending_accounting (directed who.identity direction p))
  reply_choices who
      "ได้ครับ แต่ยังขาดจำนวนเงินครับ บอกเลขมาอีกนิด เช่น 200 บาท เดี๋ยวเลขาจัดให้แบบไม่เดา"
      ("ไม่บันทึก" ∷ [])

-- The choices INCOME and EXPENSE.
unfoldable pub choose_direction : Service → Asker → String → String → PendingAction → C Outcome
choose_direction svc who message_id direction p =
    if leb_ℤ p.amount (pos 0)
    then ask_for_amount who direction p
    else record_pending svc who message_id direction p.amount p.note p

unfoldable pub note_transfer : Asker → PendingAction → C Outcome
note_transfer who p = do
  log_event who "ledger.transfer_not_recorded" "" p.original (
      ("amount", money p.amount)
      ∷ ("note", text p.note)
      ∷ ("counterpartyName", text p.counterparty_name)
      ∷ ("counterpartyRole", text p.counterparty_role)
      ∷ ("reason", text "user_confirmed_transfer")
      ∷ [])
  reply who "โอเคครับ ถือว่าโอนเฉย ๆ ไม่บันทึกบัญชีให้ครับ"

-- The choices ignore and transfer.
unfoldable pub drop_choice : Asker → C Outcome
drop_choice who = do clear_pending who; reply who "รับทราบครับ ไม่บันทึกรายการนี้ให้ครับ"

unfoldable pub transfer_choice : Asker → PendingAction → C Outcome
transfer_choice who p = do clear_pending who; note_transfer who p

-- The choices, once something is pending.
unfoldable pub settle_choice : Service → Asker → String → Choice → PendingAction → C Outcome
settle_choice svc who message_id ignore p = drop_choice who
settle_choice svc who message_id transfer p = transfer_choice who p
settle_choice svc who message_id income p = choose_direction svc who message_id "INCOME" p
settle_choice svc who message_id expense p = choose_direction svc who message_id "EXPENSE" p

abbrev pub handled : C Outcome → C (Option Outcome)
handled m = m >>= λ o. return (some o)

abbrev pub on_choice : Service → Asker → String → Choice → Option PendingAction → C (Option Outcome)
on_choice svc who message_id choice none = return none
on_choice svc who message_id choice (some p) = handled (settle_choice svc who message_id choice p)

-- `handlePendingAccountingChoice`
unfoldable pub handle_pending_accounting_choice :
    Service → Asker → String → Choice → C (Option Outcome)
handle_pending_accounting_choice svc who message_id choice = do
  p ← pending_of_asker who
  on_choice svc who message_id choice p

abbrev pub is_entry : Intent → Bool
is_entry record_expense = true
is_entry record_income = true
is_entry _ = false

abbrev pub note_of : PendingAction → String
note_of p = if is_empty (trim_space p.note) then p.original else p.note

abbrev pub with_amount : Service → Asker → String → PendingAction → Parsed → C Outcome
with_amount svc who message_id p parsed =
    if is_entry parsed.intent
    then record_pending svc who message_id p.direction (pos parsed.amount) (note_of p) p
    else reply_choices who "ยังไม่เจอจำนวนเงินครับ ขอเป็นเลขหรือคำจำนวนเงิน เช่น 200 บาท / สองร้อย"
        ("ไม่บันทึก" ∷ [])

-- Is it a question for an amount? It has a direction and no amount.
abbrev pub awaits_amount : PendingAction → Bool
awaits_amount p = leb_ℤ p.amount (pos 0) && not (is_empty p.direction)

abbrev pub on_amount : Service → Asker → String → String → Option PendingAction → C (Option Outcome)
on_amount svc who message_id content none = return none
on_amount svc who message_id content (some p) =
    if awaits_amount p
    then handled (with_amount svc who message_id p (parse content))
    else return none

-- `handlePendingAmount`
unfoldable pub handle_pending_amount : Service → Asker → String → String → C (Option Outcome)
handle_pending_amount svc who message_id content = do
  p ← pending_of_asker who
  on_amount svc who message_id content p
