-- ===== src/Dispatcher/Handled/Asked.antt =====
-- `handlePendingAccountingChoice` and `handlePendingAmount`: the answer to an open question.
use thclaws_thai_ai_agent.Base.{String, refl, Option, none, some, List}
use thclaws_thai_ai_agent.Base.Int.{ℤ}
use thclaws_thai_ai_agent.Sql.{Error, Result, ok, err}
use thclaws_thai_ai_agent.Ledger.Tables.{Project, Db}
use thclaws_thai_ai_agent.Ledger.Resolve.Resolved.{resolve_project_allocations-Steps}
use thclaws_thai_ai_agent.Parser.Parse.{Parsed, parse}
use thclaws_thai_ai_agent.Memory.Store.{PendingAction}
use thclaws_thai_ai_agent.Dispatcher.Phrases.{Choice, income, expense, transfer, ignore}
use thclaws_thai_ai_agent.Dispatcher.Chat.{Outcome, Service, Identity, Asker, C}
use thclaws_thai_ai_agent.Dispatcher.Allocate.{allocate, Entry, record_entry}
use thclaws_thai_ai_agent.Dispatcher.Pending.{
  pending_of_asker, clear_pending, entry_of, after_entry, record_pending, ask_for_amount,
  choose_direction, note_transfer, drop_choice, transfer_choice, settle_choice, handled, on_choice,
  handle_pending_accounting_choice, with_amount, on_amount, handle_pending_amount,
}
use thclaws_thai_ai_agent.Dispatcher.Does.{
  IsPreorder, Does, answer, silent, handled_answer, Does-return, Does-on_memory, Does-on_books,
  Does-bind, Does-map, Does-if,
}
use thclaws_thai_ai_agent.Dispatcher.Silent.{
  reply-Does, reply_choices-Does, log_event-Does, reply_accounting_card-Does,
}
use thclaws_thai_ai_agent.Dispatcher.Handled.{IsFollowed}

module _ {R : Db → Db → Type 0} (pre : IsPreorder R) where
  pub pending_of_asker-Does : (who : Asker) → Does R silent (pending_of_asker who)
  unfolding pending_of_asker
  pending_of_asker-Does who = Does-bind pre (Does-on_memory pre _) (λ r. Does-return pre _ refl)

  pub clear_pending-Does : (who : Asker) → Does R silent (clear_pending who)
  unfolding clear_pending
  clear_pending-Does who = Does-bind pre (Does-on_memory pre _) (λ r. Does-return pre tt refl)

  pub drop_choice-Does : (who : Asker) → Does R answer (drop_choice who)
  unfolding drop_choice
  drop_choice-Does who = Does-bind pre (clear_pending-Does who) (λ u. reply-Does pre who _)

  pub transfer_choice-Does :
      (who : Asker) (p : PendingAction) → Does R answer (transfer_choice who p)
  unfolding transfer_choice note_transfer
  transfer_choice-Does who p =
      Does-bind pre (clear_pending-Does who)
        (λ u. Does-bind pre (log_event-Does pre who _ _ _ _) (λ v. reply-Does pre who _))

module _ {R : String → Db → Db → Type 0} (f : IsFollowed R) where
  allocate-Does :
      (svc : Service) (id : Identity) (content : String) (amount : ℤ)
      → Does (R id.user_id) silent (allocate svc id content amount)
  unfolding allocate
  allocate-Does svc id content amount = Does-if _ (Does-return (f.order _) _ refl) (
      Does-bind (f.order _)
        (Does-on_books (f.order _) (
          resolve_project_allocations-Steps (λ u. (f.order u).same) (λ u. (f.order u).then_to)
            f.project _ _ _ _))
        (λ r. Does-return (f.order _) _ refl))

  pub record_entry-Does :
      (svc : Service) (id : Identity) (message_id content : String) (e : Entry)
      → Does (R id.user_id) silent (record_entry svc id message_id content e)
  unfolding record_entry
  record_entry-Does svc id message_id content e =
      Does-bind (f.order _) (allocate-Does svc id content e.amount) (λ found.
        Does-bind (f.order _) (Does-on_books (f.order _) (f.personal _))
          (λ r. Does-return (f.order _) _ refl))

  after_entry-Does :
      (svc : Service) (who : Asker) (e : Entry) (r : Result Error String × List Project)
      → Does (R who.identity.user_id) answer (after_entry svc who e r)
  after_entry-Does svc who e (err x, projects) = reply-Does (f.order _) who _
  after_entry-Does svc who e (ok tx_id, projects) =
      Does-bind (f.order _) (clear_pending-Does (f.order _) who)
        (λ u. reply_accounting_card-Does (f.order _) svc who _ _ _ _ _)

  record_pending-Does :
      (svc : Service) (who : Asker) (message_id direction : String) (amount : ℤ) (note : String)
      (p : PendingAction)
      → Does
          (R who.identity.user_id)
          answer
          (record_pending svc who message_id direction amount note p)
  unfolding record_pending
  record_pending-Does svc who message_id direction amount note p =
      Does-bind (f.order _) (record_entry-Does svc who.identity message_id _ _)
        (λ r. after_entry-Does svc who (entry_of direction amount note p) r)

  choose_direction-Does :
      (svc : Service) (who : Asker) (message_id direction : String) (p : PendingAction)
      → Does (R who.identity.user_id) answer (choose_direction svc who message_id direction p)
  unfolding choose_direction ask_for_amount
  choose_direction-Does svc who message_id direction p =
      Does-if _
        (Does-bind (f.order _) (Does-on_memory (f.order _) _)
          (λ r. reply_choices-Does (f.order _) who _ _))
        (record_pending-Does svc who message_id direction _ _ p)

  settle_choice-Does :
      (svc : Service) (who : Asker) (message_id : String) (choice : Choice) (p : PendingAction)
      → Does (R who.identity.user_id) answer (settle_choice svc who message_id choice p)
  unfolding settle_choice
  settle_choice-Does svc who message_id ignore p = drop_choice-Does (f.order _) who
  settle_choice-Does svc who message_id transfer p = transfer_choice-Does (f.order _) who p
  settle_choice-Does svc who message_id income p = choose_direction-Does svc who message_id _ p
  settle_choice-Does svc who message_id expense p = choose_direction-Does svc who message_id _ p

  handled-Does :
      {u : String} {m : C Outcome} → Does (R u) answer m → Does (R u) handled_answer (handled m)
  handled-Does h = Does-map (f.order _) (λ o. some o) h (λ o. refl)

  on_choice-Does :
      (svc : Service) (who : Asker) (message_id : String) (choice : Choice)
      (p : Option PendingAction)
      → Does (R who.identity.user_id) handled_answer (on_choice svc who message_id choice p)
  on_choice-Does svc who message_id choice none = Does-return (f.order _) none refl
  on_choice-Does svc who message_id choice (some p) =
      handled-Does (settle_choice-Does svc who message_id choice p)

  pub handle_pending_accounting_choice-Does :
      (svc : Service) (who : Asker) (message_id : String) (choice : Choice)
      → Does
          (R who.identity.user_id)
          handled_answer
          (handle_pending_accounting_choice svc who message_id choice)
  unfolding handle_pending_accounting_choice
  handle_pending_accounting_choice-Does svc who message_id choice =
      Does-bind (f.order _) (pending_of_asker-Does (f.order _) who)
        (λ p. on_choice-Does svc who message_id choice p)

  with_amount-Does :
      (svc : Service) (who : Asker) (message_id : String) (p : PendingAction) (parsed : Parsed)
      → Does (R who.identity.user_id) answer (with_amount svc who message_id p parsed)
  with_amount-Does svc who message_id p parsed =
      Does-if _ (record_pending-Does svc who message_id _ _ _ p)
        (reply_choices-Does (f.order _) who _ _)

  on_amount-Does :
      (svc : Service) (who : Asker) (message_id content : String) (p : Option PendingAction)
      → Does (R who.identity.user_id) handled_answer (on_amount svc who message_id content p)
  on_amount-Does svc who message_id content none = Does-return (f.order _) none refl
  on_amount-Does svc who message_id content (some p) =
      Does-if _ (handled-Does (with_amount-Does svc who message_id p (parse content)))
        (Does-return (f.order _) none refl)

  pub handle_pending_amount-Does :
      (svc : Service) (who : Asker) (message_id content : String)
      → Does
          (R who.identity.user_id)
          handled_answer
          (handle_pending_amount svc who message_id content)
  unfolding handle_pending_amount
  handle_pending_amount-Does svc who message_id content =
      Does-bind (f.order _) (pending_of_asker-Does (f.order _) who)
        (λ p. on_amount-Does svc who message_id content p)
