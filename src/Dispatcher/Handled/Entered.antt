-- ===== src/Dispatcher/Handled/Entered.antt =====
-- `handleHouseholdText` and `handleBusinessText`.
use thclaws_thai_ai_agent.Base.{ℕ, String, List, [], ◌∷◌, ◌==◌}
use thclaws_thai_ai_agent.Sql.{Error, Result, ok, err}
use thclaws_thai_ai_agent.Ledger.Tables.{Db, BusinessRow}
use thclaws_thai_ai_agent.Ledger.Household.{Household, HouseholdTransactionInput}
use thclaws_thai_ai_agent.Ledger.Business.{BusinessProfitSummary}
use thclaws_thai_ai_agent.Ledger.Business.Sale.{record_business_sale, record_business_purchase}
use thclaws_thai_ai_agent.Ledger.Reads.{
  list_my_households-Quiet, household_summary-Quiet, list_my_businesses-Quiet,
  compute_business_profit-Quiet,
}
use thclaws_thai_ai_agent.Parser.Parse.{Parsed, parse}
use thclaws_thai_ai_agent.Dispatcher.Phrases.{is_business_sale, is_business_purchase}
use thclaws_thai_ai_agent.Dispatcher.Chat.{Service, Asker}
use thclaws_thai_ai_agent.Dispatcher.Household.{
  summary_reply, reply_household_summary, summarise, handle_household_summary, household_entry,
  after_household, record_household, ask_household, enter_household, handle_household_entry,
  handle_household_text,
}
use thclaws_thai_ai_agent.Dispatcher.Business.{
  profit_reply, reply_business_profit, show_profit, handle_business_profit, after_write,
  record_sale, record_purchase, enter_business, choose_business, handle_business_text,
}
use thclaws_thai_ai_agent.Dispatcher.Does.{
  Does, answer, Does-on_memory, Does-on_books, Does-read, Does-bind, Does-now, Does-if,
}
use thclaws_thai_ai_agent.Dispatcher.Silent.{
  reply-Does, reply_choices-Does, reply_choices_with_lead-Does, reply_accounting_card-Does,
  reply_summary_card-Does,
}
use thclaws_thai_ai_agent.Dispatcher.Handled.{IsFollowed}

module _ {R : String → Db → Db → Type 0} (f : IsFollowed R) where
  summary_reply-Does :
      (who : Asker) (name : String) (r : Result Error String)
      → Does (R who.identity.user_id) answer (summary_reply who name r)
  summary_reply-Does who name (err e) = reply-Does (f.order _) who _
  summary_reply-Does who name (ok body) = reply_summary_card-Does (f.order _) who _ _

  summarise-Does :
      (svc : Service) (who : Asker) (r : Result Error (List Household))
      → Does (R who.identity.user_id) answer (summarise svc who r)
  unfolding reply_household_summary
  summarise-Does svc who (err e) = reply-Does (f.order _) who _
  summarise-Does svc who (ok []) = reply-Does (f.order _) who _
  summarise-Does svc who (ok (h ∷ [])) = Does-bind (f.order _) (Does-now (f.order _)) (λ t.
      Does-bind (f.order _) (Does-read (f.order _) (household_summary-Quiet _ _ _ _ _))
        (λ r. summary_reply-Does who _ r))
  summarise-Does svc who (ok (h ∷ k ∷ hs)) = reply_choices-Does (f.order _) who _ _

  after_household-Does :
      (svc : Service) (who : Asker) (e : HouseholdTransactionInput) (r : Result Error String)
      → Does (R who.identity.user_id) answer (after_household svc who e r)
  after_household-Does svc who e (err x) = reply-Does (f.order _) who _
  after_household-Does svc who e (ok tx_id) =
      reply_accounting_card-Does (f.order _) svc who _ _ _ _ _

  enter_household-Does :
      (svc : Service) (who : Asker) (content : String) (p : Parsed)
      (r : Result Error (List Household))
      → Does (R who.identity.user_id) answer (enter_household svc who content p r)
  unfolding record_household ask_household
  enter_household-Does svc who content p (err e) = reply-Does (f.order _) who _
  enter_household-Does svc who content p (ok []) = reply-Does (f.order _) who _
  enter_household-Does svc who content p (ok (h ∷ [])) =
      Does-bind (f.order _) (Does-on_books (f.order _) (f.household _ _ _))
        (λ r. after_household-Does svc who (household_entry content p) r)
  enter_household-Does svc who content p (ok (h ∷ k ∷ hs)) =
      Does-bind (f.order _) (Does-on_memory (f.order _) _)
        (λ r. reply_choices_with_lead-Does (f.order _) who _ _ _)

  handle_household_entry-Does :
      (svc : Service) (who : Asker) (content : String) (p : Parsed)
      → Does (R who.identity.user_id) answer (handle_household_entry svc who content p)
  unfolding handle_household_entry
  handle_household_entry-Does svc who content p = Does-if _ (reply-Does (f.order _) who _) (
      Does-bind (f.order _) (Does-read (f.order _) (list_my_households-Quiet _))
        (λ r. enter_household-Does svc who content p r))

  pub handle_household_text-Does :
      (svc : Service) (who : Asker) (content : String)
      → Does (R who.identity.user_id) answer (handle_household_text svc who content)
  unfolding handle_household_text handle_household_summary
  handle_household_text-Does svc who content = Does-if _ (reply-Does (f.order _) who _) (
      Does-if _
        (Does-bind (f.order _) (Does-read (f.order _) (list_my_households-Quiet _))
          (λ r. summarise-Does svc who r))
        (handle_household_entry-Does svc who content (parse content)))

  profit_reply-Does :
      (who : Asker) (name : String) (r : Result Error BusinessProfitSummary)
      → Does (R who.identity.user_id) answer (profit_reply who name r)
  profit_reply-Does who name (err e) = reply-Does (f.order _) who _
  profit_reply-Does who name (ok p) = reply_summary_card-Does (f.order _) who _ _

  show_profit-Does :
      (svc : Service) (who : Asker) (r : Result Error (List BusinessRow))
      → Does (R who.identity.user_id) answer (show_profit svc who r)
  unfolding reply_business_profit
  show_profit-Does svc who (err e) = reply-Does (f.order _) who _
  show_profit-Does svc who (ok []) = reply-Does (f.order _) who _
  show_profit-Does svc who (ok (b ∷ [])) = Does-bind (f.order _) (Does-now (f.order _)) (λ t.
      Does-bind (f.order _) (Does-read (f.order _) (compute_business_profit-Quiet _ _ _))
        (λ r. profit_reply-Does who _ r))
  show_profit-Does svc who (ok (b ∷ d ∷ bs)) = reply_choices-Does (f.order _) who _ _

  after_write-Does :
      (svc : Service) (who : Asker) (failure direction category what : String) (amount : ℕ)
      (r : Result Error String)
      → Does
          (R who.identity.user_id)
          answer
          (after_write svc who failure direction category what amount r)
  after_write-Does svc who failure direction category what amount (err e) =
      reply-Does (f.order _) who _
  after_write-Does svc who failure direction category what amount (ok tx_id) =
      reply_accounting_card-Does (f.order _) svc who _ _ _ _ _

  record_sale-Does :
      (svc : Service) (who : Asker) (business_id product : String) (amount : ℕ)
      → Does (R who.identity.user_id) answer (record_sale svc who business_id product amount)
  unfolding record_sale record_business_sale
  record_sale-Does svc who business_id product amount =
      Does-bind (f.order _) (Does-on_books (f.order _) (f.business _ _ _))
        (λ r. after_write-Does svc who _ _ _ _ _ r)

  record_purchase-Does :
      (svc : Service) (who : Asker) (business_id material : String) (amount : ℕ)
      → Does (R who.identity.user_id) answer (record_purchase svc who business_id material amount)
  unfolding record_purchase record_business_purchase
  record_purchase-Does svc who business_id material amount =
      Does-bind (f.order _) (Does-on_books (f.order _) (f.business _ _ _))
        (λ r. after_write-Does svc who _ _ _ _ _ r)

  enter_business-Does :
      (svc : Service) (who : Asker) (business_id content : String) (p : Parsed)
      → Does (R who.identity.user_id) answer (enter_business svc who business_id content p)
  unfolding enter_business
  enter_business-Does svc who business_id content p =
      Does-if (is_business_sale content)
        (Does-if (p.amount == 0) (reply-Does (f.order _) who _)
          (record_sale-Does svc who business_id _ p.amount))
        (Does-if (is_business_purchase content)
          (Does-if (p.amount == 0) (reply-Does (f.order _) who _)
            (record_purchase-Does svc who business_id _ p.amount))
          (reply-Does (f.order _) who _))

  choose_business-Does :
      (svc : Service) (who : Asker) (content : String) (r : Result Error (List BusinessRow))
      → Does (R who.identity.user_id) answer (choose_business svc who content r)
  choose_business-Does svc who content (err e) = reply-Does (f.order _) who _
  choose_business-Does svc who content (ok []) = reply-Does (f.order _) who _
  choose_business-Does svc who content (ok (b ∷ [])) =
      enter_business-Does svc who b.id content (parse content)
  choose_business-Does svc who content (ok (b ∷ d ∷ bs)) = reply_choices-Does (f.order _) who _ _

  pub handle_business_text-Does :
      (svc : Service) (who : Asker) (content : String)
      → Does (R who.identity.user_id) answer (handle_business_text svc who content)
  unfolding handle_business_text handle_business_profit
  handle_business_text-Does svc who content = Does-if _ (reply-Does (f.order _) who _) (
      Does-if _
        (Does-bind (f.order _) (Does-read (f.order _) (list_my_businesses-Quiet _))
          (λ r. show_profit-Does svc who r))
        (Does-bind (f.order _) (Does-read (f.order _) (list_my_businesses-Quiet _))
          (λ r. choose_business-Does svc who content r)))
