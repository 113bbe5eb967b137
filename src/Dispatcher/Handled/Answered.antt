-- ===== src/Dispatcher/Handled/Answered.antt =====
-- `handleText` and `Dispatch`.
use thclaws_thai_ai_agent.Base.{◌||◌, String, subst, Option, none, some, List}
use thclaws_thai_ai_agent.Sql.{Error, Result, ok, err}
use thclaws_thai_ai_agent.Ledger.Tables.{Db, Project}
use thclaws_thai_ai_agent.Ledger.Reads.{today-Quiet, this_month-Quiet, balance-Quiet}
use thclaws_thai_ai_agent.Parser.Parse.{
  Intent, record_expense, record_income, ask_today_summary, ask_month_summary, ask_balance,
  ask_date, help, ignore, unknown, Parsed, parse,
}
use thclaws_thai_ai_agent.Dispatcher.Phrases.{
  Choice, accounting_choice, wants_latest_image_analysis, wants_image_recall, wants_mini_app,
  is_capability_question, is_frustration, asks_assistant_to_guess, is_ambiguous_follow_up,
  is_household_command, is_household_summary, is_business_sale, is_business_purchase,
  is_business_profit,
}
use thclaws_thai_ai_agent.Dispatcher.Chat.{
  Reply, Chat, Outcome, delivered, refused, Service, Asker, C, return, ◌>>=◌,
}
use thclaws_thai_ai_agent.Dispatcher.Image.{Ended}
use thclaws_thai_ai_agent.Dispatcher.Text.{
  drop_question, answer_unknown, answer_intent, route, handled_or, amount_or_route, choice_or,
  answer_text,
}
use thclaws_thai_ai_agent.Dispatcher.Talk.{after_record, enter, summarised, chat, ask_amount}
use thclaws_thai_ai_agent.Dispatcher.Does.{
  Does, ended_answer, handled_answer, Does-on_memory, Does-read, Does-bind, Does-now, Does-deliver,
  Does-if, Told,
}
use thclaws_thai_ai_agent.Dispatcher.Silent.{
  reply-Does, reply_choices-Does, reply_choices_with_lead-Does, reply_accounting_card-Does,
  reply_summary_card-Does, reply_open_mini_app-Does,
}
use thclaws_thai_ai_agent.Dispatcher.Handled.{IsFollowed}
use thclaws_thai_ai_agent.Dispatcher.Handled.Asked.{
  clear_pending-Does, record_entry-Does, handle_pending_accounting_choice-Does,
  handle_pending_amount-Does,
}
use thclaws_thai_ai_agent.Dispatcher.Handled.Entered.{
  handle_household_text-Does, handle_business_text-Does,
}
use thclaws_thai_ai_agent.Dispatcher.Handled.Looked.{
  ended-Does, reply_latest_image-Does, analyze_latest_image-Does,
}
use thclaws_thai_ai_agent.Dispatcher.Handled.Chatted.{chat_by-Does, confirm_entry-Does}

module _ {R : String → Db → Db → Type 0} (f : IsFollowed R) where
  after_record-Does :
      (svc : Service) (who : Asker) (direction intent : String) (p : Parsed)
      (r : Result Error String × List Project)
      → Does (R who.identity.user_id) ended_answer (after_record svc who direction intent p r)
  after_record-Does svc who direction intent p (err e, projects) =
      ended-Does (f.order _) _ (Does-deliver (f.order _) _)
  after_record-Does svc who direction intent p (ok tx_id, projects) =
      ended-Does (f.order _) _ (reply_accounting_card-Does (f.order _) svc who _ _ _ _ _)

  enter-Does :
      (svc : Service) (who : Asker) (message_id content direction intent : String) (p : Parsed)
      → Does
          (R who.identity.user_id)
          ended_answer
          (enter svc who message_id content direction intent p)
  unfolding enter
  enter-Does svc who message_id content direction intent p =
      Does-if _ (ended-Does (f.order _) _ (confirm_entry-Does (f.order _) who message_id content p))
        (Does-bind (f.order _) (record_entry-Does f svc who.identity message_id content _)
          (λ r. after_record-Does svc who direction intent p r))

  summarised-Does :
      (who : Asker) (title intent failure failed_intent : String) (r : Result Error String)
      → Does
          (R who.identity.user_id)
          ended_answer
          (summarised who title intent failure failed_intent r)
  summarised-Does who title intent failure failed_intent (ok body) =
      ended-Does (f.order _) _ (reply_summary_card-Does (f.order _) who _ _)
  summarised-Does who title intent failure failed_intent (err e) =
      ended-Does (f.order _) _ (reply-Does (f.order _) who _)

  answer_unknown-Does :
      (svc : Service) (who : Asker) (line_user_id message_id content : String) (p : Parsed)
      → Does
          (R who.identity.user_id)
          ended_answer
          (answer_unknown svc who line_user_id message_id content p)
  unfolding answer_unknown ask_amount chat
  answer_unknown-Does svc who line_user_id message_id content p =
      Does-if _
        (ended-Does (f.order _) _ (
          Does-bind (f.order _) (Does-on_memory (f.order _) _)
            (λ r. reply_choices_with_lead-Does (f.order _) who _ _ _)))
        (chat_by-Does (f.order _) svc who line_user_id content svc.chatter)

  answer_intent-Does :
      (svc : Service) (who : Asker) (line_user_id message_id content : String) (p : Parsed)
      (i : Intent)
      → Does
          (R who.identity.user_id)
          ended_answer
          (answer_intent svc who line_user_id message_id content p i)
  unfolding answer_intent drop_question
  answer_intent-Does svc who line_user_id message_id content p ignore = ended-Does (f.order _) _ (
      Does-bind (f.order _) (clear_pending-Does (f.order _) who)
        (λ u. reply-Does (f.order _) who _))
  answer_intent-Does svc who line_user_id message_id content p record_expense =
      enter-Does svc who message_id content _ _ p
  answer_intent-Does svc who line_user_id message_id content p record_income =
      enter-Does svc who message_id content _ _ p
  answer_intent-Does svc who line_user_id message_id content p ask_today_summary =
      Does-bind (f.order _) (Does-read (f.order _) (today-Quiet _ _ _))
        (λ r. summarised-Does who _ _ _ _ r)
  answer_intent-Does svc who line_user_id message_id content p ask_month_summary =
      Does-bind (f.order _) (Does-read (f.order _) (this_month-Quiet _ _ _))
        (λ r. summarised-Does who _ _ _ _ r)
  answer_intent-Does svc who line_user_id message_id content p ask_balance =
      Does-bind (f.order _) (Does-read (f.order _) (balance-Quiet _ _))
        (λ r. summarised-Does who _ _ _ _ r)
  answer_intent-Does svc who line_user_id message_id content p ask_date =
      Does-bind (f.order _) (Does-now (f.order _))
        (λ t. ended-Does (f.order _) _ (reply-Does (f.order _) who _))
  answer_intent-Does svc who line_user_id message_id content p help =
      ended-Does (f.order _) _ (reply_choices-Does (f.order _) who _ _)
  answer_intent-Does svc who line_user_id message_id content p unknown =
      answer_unknown-Does svc who line_user_id message_id content p

  route-Does :
      (svc : Service) (who : Asker) (line_user_id message_id content : String)
      → Does (R who.identity.user_id) ended_answer (route svc who line_user_id message_id content)
  unfolding route
  route-Does svc who line_user_id message_id content =
      Does-if (is_ambiguous_follow_up content)
        (ended-Does (f.order _) _ (reply_choices-Does (f.order _) who _ _))
        (Does-if (is_household_command content || is_household_summary content)
          (ended-Does (f.order _) _ (handle_household_text-Does f svc who content))
          (Does-if
            (is_business_sale content || is_business_purchase content || is_business_profit content)
            (ended-Does (f.order _) _ (handle_business_text-Does f svc who content))
            (answer_intent-Does svc who line_user_id message_id content (parse content)
              (parse content).intent)))

  -- What is handled is the answer; what is not leaves it to the rest.
  handled_or-Told :
      (intent failure : String) (rest : C Ended) {u : String}
      → Does (R u) ended_answer rest
      → (o : Option Outcome) (before : List Reply) (c : Chat) → Told o before c.sent
      → Told
          (ended_answer (handled_or intent failure rest o c).0)
          before
          (handled_or intent failure rest o c).1.sent
  unfolding Told return
  handled_or-Told intent failure rest h none before c t =
      subst (λ s. Told (ended_answer (rest c).0) s (rest c).1.sent) t (h.told c)
  handled_or-Told intent failure rest h (some delivered) before c t = t
  handled_or-Told intent failure rest h (some refused) before c t = t

  handled_or-moved :
      (intent failure : String) (rest : C Ended) {u : String}
      → Does (R u) ended_answer rest
      → (o : Option Outcome) (c : Chat)
      → R u c.books.db (handled_or intent failure rest o c).1.books.db
  unfolding return
  handled_or-moved intent failure rest h none c = h.moved c
  handled_or-moved intent failure rest h (some delivered) c = (f.order _).same _
  handled_or-moved intent failure rest h (some refused) c = (f.order _).same _

  handled_or-Does :
      (intent failure : String) {m : C (Option Outcome)} {rest : C Ended} {u : String}
      → Does (R u) handled_answer m
      → Does (R u) ended_answer rest
      → Does (R u) ended_answer (m >>= handled_or intent failure rest)
  unfolding ◌>>=◌
  handled_or-Does intent failure {m} {rest} hm hr = record {
    moved = λ c.
        (f.order _).then_to _ _ _ (hm.moved c)
          (handled_or-moved intent failure rest hr (m c).0 (m c).1);
    told = λ c. handled_or-Told intent failure rest hr (m c).0 c.sent (m c).1 (hm.told c);
  }

  amount_or_route-Does :
      (svc : Service) (who : Asker) (line_user_id message_id content : String)
      → Does
          (R who.identity.user_id)
          ended_answer
          (amount_or_route svc who line_user_id message_id content)
  amount_or_route-Does svc who line_user_id message_id content =
      handled_or-Does _ _ (handle_pending_amount-Does f svc who message_id content)
        (route-Does svc who line_user_id message_id content)

  choice_or-Does :
      (svc : Service) (who : Asker) (line_user_id message_id content : String)
      (choice : Option Choice)
      → Does
          (R who.identity.user_id)
          ended_answer
          (choice_or svc who line_user_id message_id content choice)
  choice_or-Does svc who line_user_id message_id content none =
      amount_or_route-Does svc who line_user_id message_id content
  choice_or-Does svc who line_user_id message_id content (some choice) =
      handled_or-Does _ _ (handle_pending_accounting_choice-Does f svc who message_id choice)
        (ended-Does (f.order _) _ (reply-Does (f.order _) who _))

  pub answer_text-Does :
      (svc : Service) (who : Asker) (line_user_id message_id content : String)
      → Does
          (R who.identity.user_id)
          ended_answer
          (answer_text svc who line_user_id message_id content)
  unfolding answer_text
  answer_text-Does svc who line_user_id message_id content =
      Does-if (wants_latest_image_analysis content)
        (ended-Does (f.order _) _ (analyze_latest_image-Does (f.order _) svc who))
        (Does-if (wants_image_recall content)
          (ended-Does (f.order _) _ (reply_latest_image-Does (f.order _) svc who))
          (Does-if (wants_mini_app content)
            (ended-Does (f.order _) _ (reply_open_mini_app-Does (f.order _) svc who))
            (Does-if (is_capability_question content)
              (ended-Does (f.order _) _ (reply_choices-Does (f.order _) who _ _))
              (Does-if (is_frustration content)
                (ended-Does (f.order _) _ (reply_choices-Does (f.order _) who _ _))
                (Does-if (asks_assistant_to_guess content)
                  (ended-Does (f.order _) _ (reply_choices-Does (f.order _) who _ _))
                  (choice_or-Does svc who line_user_id message_id content
                    (accounting_choice content)))))))
