-- ===== src/Dispatcher/Handled/Chatted.antt =====
-- The branches of `handleText` that ask, search and call the model.
use thclaws_thai_ai_agent.Base.{String, Bool, refl, Option, none, some, List}
use thclaws_thai_ai_agent.Sql.{Error, Result, ok, err}
use thclaws_thai_ai_agent.Ledger.Tables.{Db}
use thclaws_thai_ai_agent.Ledger.Reads.{today-Quiet, this_month-Quiet, balance-Quiet}
use thclaws_thai_ai_agent.Parser.Parse.{Parsed}
use thclaws_thai_ai_agent.Memory.Context.{ContextResult}
use thclaws_thai_ai_agent.Dispatcher.Chat.{
  Call, answered, timed_out, failed, WebResult, Service, Asker,
}
use thclaws_thai_ai_agent.Dispatcher.Prompt.{
  enqueue_memory_jobs, searched, search_with, search_web_if_needed, financial_snapshot, advice,
  from_context, build_prompt,
}
use thclaws_thai_ai_agent.Dispatcher.Talk.{confirm_entry, finish_chat, chat_with, chat_by}
use thclaws_thai_ai_agent.Dispatcher.Does.{
  IsPreorder, Does, answer, silent, ended_answer, Does-return, Does-on_memory, Does-read, Does-bind,
  Does-now, Does-enqueue, Does-if,
}
use thclaws_thai_ai_agent.Dispatcher.Silent.{
  reply-Does, reply_choices_with_lead-Does, reply_timeout_notice-Does, log_event-Does,
}
use thclaws_thai_ai_agent.Dispatcher.Handled.Looked.{ended-Does}

module _ {R : Db → Db → Type 0} (pre : IsPreorder R) where
  pub enqueue_memory_jobs-Does :
      (svc : Service) (who : Asker) (content : String)
      → Does R silent (enqueue_memory_jobs svc who content)
  unfolding enqueue_memory_jobs
  enqueue_memory_jobs-Does svc who content =
      Does-if _ (Does-bind pre (Does-enqueue pre _) (λ u. Does-enqueue pre _))
        (Does-return pre tt refl)

  searched-Does :
      (who : Asker) (content : String) (r : Call (List WebResult))
      → Does R silent (searched who content r)
  searched-Does who content (answered results) =
      Does-bind pre (log_event-Does pre who _ _ _ _) (λ u. Does-return pre _ refl)
  searched-Does who content timed_out =
      Does-bind pre (log_event-Does pre who _ _ _ _) (λ u. Does-return pre _ refl)
  searched-Does who content failed =
      Does-bind pre (log_event-Does pre who _ _ _ _) (λ u. Does-return pre _ refl)

  search_with-Does :
      (svc : Service) (who : Asker) (content : String) (s : Option (String → Call (List WebResult)))
      → Does R silent (search_with svc who content s)
  search_with-Does svc who content none = Does-return pre _ refl
  search_with-Does svc who content (some s) =
      Does-if _ (searched-Does who content (s content)) (Does-return pre _ refl)

  advice-Does :
      (svc : Service) (who : Asker) (content : String) → Does R silent (advice svc who content)
  unfolding advice financial_snapshot
  advice-Does svc who content =
      Does-if _
        (Does-bind pre
          (Does-bind pre (Does-read pre (balance-Quiet _ _)) (λ b.
            Does-bind pre (Does-read pre (this_month-Quiet _ _ _)) (λ m.
              Does-bind pre (Does-read pre (today-Quiet _ _ _)) (λ d. Does-return pre _ refl))))
          (λ s. Does-return pre _ refl))
        (Does-return pre _ refl)

  from_context-Does :
      (svc : Service) (who : Asker) (content : String) (web : List WebResult × Bool)
      (r : Result Error ContextResult)
      → Does R silent (from_context svc who content web r)
  from_context-Does svc who content web (err e) = Does-return pre _ refl
  from_context-Does svc who content web (ok res) =
      Does-bind pre (Does-now pre)
        (λ t. Does-bind pre (advice-Does svc who content) (λ a. Does-return pre _ refl))

  finish_chat-Does :
      (svc : Service) (who : Asker) (line_user_id : String) (web : List WebResult × Bool)
      (r : Call String)
      → Does R ended_answer (finish_chat svc who line_user_id web r)
  finish_chat-Does svc who line_user_id web timed_out =
      ended-Does pre _ (reply_timeout_notice-Does pre who)
  finish_chat-Does svc who line_user_id web failed = ended-Does pre _ (reply-Does pre who _)
  finish_chat-Does svc who line_user_id (results, web_failed) (answered said) =
      Does-bind pre (Does-on_memory pre _) (λ r. ended-Does pre _ (reply-Does pre who _))

  chat_with-Does :
      (chatter : String → String → String → Call String) (svc : Service) (who : Asker)
      (line_user_id content : String)
      → Does R ended_answer (chat_with chatter svc who line_user_id content)
  unfolding chat_with search_web_if_needed build_prompt
  chat_with-Does chatter svc who line_user_id content =
      Does-bind pre (search_with-Does svc who content svc.web_search) (λ web.
        Does-bind pre
          (Does-bind pre (Does-on_memory pre _) (λ r. from_context-Does svc who content web r))
          (λ prompt. finish_chat-Does svc who line_user_id web _))

  pub chat_by-Does :
      (svc : Service) (who : Asker) (line_user_id content : String)
      (c : Option (String → String → String → Call String))
      → Does R ended_answer (chat_by svc who line_user_id content c)
  chat_by-Does svc who line_user_id content none = ended-Does pre _ (reply-Does pre who _)
  chat_by-Does svc who line_user_id content (some c) =
      Does-if _ (ended-Does pre _ (reply-Does pre who _))
        (chat_with-Does c svc who line_user_id content)

  pub confirm_entry-Does :
      (who : Asker) (message_id content : String) (p : Parsed)
      → Does R answer (confirm_entry who message_id content p)
  unfolding confirm_entry
  confirm_entry-Does who message_id content p =
      Does-bind pre (Does-on_memory pre _) (λ r. reply_choices_with_lead-Does pre who _ _ _)
