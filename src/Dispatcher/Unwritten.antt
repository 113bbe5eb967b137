-- ===== src/Dispatcher/Unwritten.antt =====
-- What dispatcher/dispatcher.go asks or says without an entry in the ledger.
use thclaws_thai_ai_agent.Base.{String, true, Option, none, some, ◌≡◌, refl, ◌∙◌, ltb}
use thclaws_thai_ai_agent.Ledger.Tables.{Db}
use thclaws_thai_ai_agent.Parser.Parse.{Parsed, record_expense, record_income}
use thclaws_thai_ai_agent.Memory.Store.{PendingAction}
use thclaws_thai_ai_agent.Dispatcher.Phrases.{ignore, transfer}
use thclaws_thai_ai_agent.Dispatcher.Chat.{Chat, Service, Asker}
use thclaws_thai_ai_agent.Dispatcher.Pending.{
  on_choice, settle_choice, handle_pending_accounting_choice,
}
use thclaws_thai_ai_agent.Dispatcher.Talk.{enter, chat}
use thclaws_thai_ai_agent.Dispatcher.Text.{answer_intent}
use thclaws_thai_ai_agent.Dispatcher.Does.{
  IsPreorder, Does, handled_answer, Does-return, Does-bind, Does-map,
}
use thclaws_thai_ai_agent.Dispatcher.Handled.Asked.{
  pending_of_asker-Does, drop_choice-Does, transfer_choice-Does,
}
use thclaws_thai_ai_agent.Dispatcher.Handled.Looked.{ended-Does}
use thclaws_thai_ai_agent.Dispatcher.Handled.Chatted.{confirm_entry-Does, chat_by-Does}

Unchanged : Db → Db → Type 0
Unchanged s t = t ≡ s

Unchanged-order : IsPreorder Unchanged
unfolding Unchanged
Unchanged-order = record { same = λ s. refl; then_to = λ s t u h k. k ∙ h }

ignored-Does :
    (svc : Service) (who : Asker) (message_id : String) (q : Option PendingAction)
    → Does Unchanged handled_answer (on_choice svc who message_id ignore q)
unfolding settle_choice
ignored-Does svc who message_id none = Does-return Unchanged-order none refl
ignored-Does svc who message_id (some q) =
    Does-map Unchanged-order (λ o. some o) (drop_choice-Does Unchanged-order who) (λ o. refl)

transferred-Does :
    (svc : Service) (who : Asker) (message_id : String) (q : Option PendingAction)
    → Does Unchanged handled_answer (on_choice svc who message_id transfer q)
unfolding settle_choice
transferred-Does svc who message_id none = Does-return Unchanged-order none refl
transferred-Does svc who message_id (some q) =
    Does-map Unchanged-order (λ o. some o) (transfer_choice-Does Unchanged-order who q) (λ o. refl)

unsure_not_written :
    (svc : Service) (who : Asker) (message_id content direction intent : String) (p : Parsed)
    (c : Chat)
    → ltb p.confidence 75 ≡ true
    → (enter svc who message_id content direction intent p c).1.books.db ≡ c.books.db
unfolding enter Unchanged
unsure_not_written svc who message_id content direction intent p c h = rw h (
    (ended-Does Unchanged-order "ask_confirm_accounting"
        (confirm_entry-Does Unchanged-order who message_id content p)).moved
      c)

-- Whatever question is open, whatever the model answers and whatever fails, the ledger's tables are
-- the same after the user has declined the entry or called it a transfer, after an expense or an
-- income whose confidence is below 0.75, and after a chat with the model.
pub chat_not_written :
    (svc : Service) (who : Asker) (line_user_id message_id content : String) (p : Parsed) (c : Chat)
    → ltb p.confidence 75 ≡ true
    → ((handle_pending_accounting_choice svc who message_id ignore c).1.books.db ≡ c.books.db)
      × ((handle_pending_accounting_choice svc who message_id transfer c).1.books.db ≡ c.books.db)
      × ((answer_intent svc who line_user_id message_id content p record_expense c).1.books.db
          ≡ c.books.db)
      × ((answer_intent svc who line_user_id message_id content p record_income c).1.books.db
          ≡ c.books.db)
      × ((chat svc who line_user_id content c).1.books.db ≡ c.books.db)
unfolding Unchanged chat answer_intent handle_pending_accounting_choice
chat_not_written svc who line_user_id message_id content p c h = (
  (Does-bind Unchanged-order (pending_of_asker-Does Unchanged-order who)
        (ignored-Does svc who message_id)).moved
      c,
  (Does-bind Unchanged-order (pending_of_asker-Does Unchanged-order who)
        (transferred-Does svc who message_id)).moved
      c,
  unsure_not_written svc who message_id content "รายจ่าย" "record_expense" p c h,
  unsure_not_written svc who message_id content "รายรับ" "record_income" p c h,
  (chat_by-Does Unchanged-order svc who line_user_id content svc.chatter).moved c,
)
