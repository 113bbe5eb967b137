-- ===== src/Dispatcher/Silent.antt =====
-- The replies of dispatcher/dispatcher.go: each is one answer, and leaves the ledger alone.
use thclaws_thai_ai_agent.Base.{ℕ, String, refl, Option, none, some, List}
use thclaws_thai_ai_agent.Base.Int.{ℤ}
use thclaws_thai_ai_agent.Ledger.Tables.{Db, Project}
use thclaws_thai_ai_agent.Memory.Store.{Meta}
use thclaws_thai_ai_agent.Liff.Session.{Codec, sign}
use thclaws_thai_ai_agent.Dispatcher.Chat.{
  delivered, Service, Asker, ◌>>=◌, save_message, log_event, Reply, deliver,
}
use thclaws_thai_ai_agent.Dispatcher.Replies.{
  given, unix, noted, or_text, send_app, open_app, reply, reply_image, reply_accounting_card,
  reply_summary_card, reply_choices_with_lead, reply_choices, reply_timeout_notice,
  reply_open_mini_app,
}
use thclaws_thai_ai_agent.Dispatcher.Does.{
  IsPreorder, Does, answer, silent, Follows, Does-return, Does-on_memory, Does-bind, Does-now,
  Does-deliver, Does-refuse, Follows-return, Follows-bind, Does-send,
}

module _ {R : Db → Db → Type 0} (pre : IsPreorder R) where
  pub save_message-Does :
      (who : Asker) (role content : String) (meta : Meta)
      → Does R silent (save_message who role content meta)
  unfolding save_message
  save_message-Does who role content meta =
      Does-bind pre (Does-on_memory pre _) (λ r. Does-return pre tt refl)

  pub log_event-Does :
      (who : Asker) (event source content : String) (meta : Meta)
      → Does R silent (log_event who event source content meta)
  unfolding log_event
  log_event-Does who event source content meta =
      Does-bind pre (Does-on_memory pre _) (λ r. Does-return pre tt refl)

  noted-Follows :
      (who : Asker) (said : String) (said_meta : Meta) (event : String) (meta : Meta)
      (logged : String)
      → Follows R (noted who said said_meta event meta logged delivered)
  noted-Follows who said said_meta event meta logged =
      Follows-bind pre (save_message-Does who _ _ _)
        (λ a. Follows-bind pre (log_event-Does who _ _ _ _) (λ b. Follows-return pre))

  noted-Does :
      (r : Reply) (who : Asker) (said : String) (said_meta : Meta) (event : String) (meta : Meta)
      (logged : String)
      → Does R answer (deliver r >>= noted who said said_meta event meta logged)
  noted-Does r who said said_meta event meta logged =
      Does-send pre _ (Does-deliver pre r) (Does-refuse pre)
        (noted-Follows who said said_meta event meta logged)

  pub reply-Does : (who : Asker) (content : String) → Does R answer (reply who content)
  unfolding reply
  reply-Does who content = noted-Does _ who _ _ _ _ _

  pub reply_image-Does :
      (who : Asker) (content url image_id : String)
      → Does R answer (reply_image who content url image_id)
  unfolding reply_image
  reply_image-Does who content url image_id = noted-Does _ who _ _ _ _ _

  or_text-Does :
      (r : Reply) (who : Asker) (content kind : String) (said_meta : Meta) (event : String)
      (meta : Meta)
      → Does R answer (deliver r >>= or_text who content kind said_meta event meta)
  or_text-Does r who content kind said_meta event meta =
      Does-send pre _ (Does-deliver pre r) (reply-Does who content)
        (noted-Follows who content _ event meta content)

  pub reply_accounting_card-Does :
      (svc : Service) (who : Asker) (direction note : String) (amount : ℤ) (category : String)
      (projects : List Project)
      → Does R answer (reply_accounting_card svc who direction note amount category projects)
  unfolding reply_accounting_card
  reply_accounting_card-Does svc who direction note amount category projects =
      Does-bind pre (Does-now pre) (λ t. or_text-Does _ who _ _ _ _ _)

  pub reply_summary_card-Does :
      (who : Asker) (title body : String) → Does R answer (reply_summary_card who title body)
  unfolding reply_summary_card
  reply_summary_card-Does who title body = or_text-Does _ who _ _ _ _ _

  pub reply_choices_with_lead-Does :
      (who : Asker) (lead : List String) (content : String) (choices : List String)
      → Does R answer (reply_choices_with_lead who lead content choices)
  unfolding reply_choices_with_lead
  reply_choices_with_lead-Does who lead content choices = noted-Does _ who _ _ _ _ _

  pub reply_choices-Does :
      (who : Asker) (content : String) (choices : List String)
      → Does R answer (reply_choices who content choices)
  unfolding reply_choices
  reply_choices-Does who content choices = noted-Does _ who _ _ _ _ _

  pub reply_timeout_notice-Does : (who : Asker) → Does R answer (reply_timeout_notice who)
  unfolding reply_timeout_notice
  reply_timeout_notice-Does who = noted-Does _ who _ _ _ _ _

  send_app-Does :
      (svc : Service) (who : Asker) (o : Option String) → Does R answer (send_app svc who o)
  send_app-Does svc who none = reply-Does who _
  send_app-Does svc who (some token) = noted-Does _ who _ _ _ _ _

  open_app-Does :
      (svc : Service) (who : Asker) (o : Option (Codec × String)) (t : ℕ)
      → Does R answer (open_app svc who o t)
  open_app-Does svc who none t = reply-Does who _
  open_app-Does svc who (some (codec, secret)) t =
      send_app-Does svc who (given (sign codec who.identity secret (unix t)))

  pub reply_open_mini_app-Does :
      (svc : Service) (who : Asker) → Does R answer (reply_open_mini_app svc who)
  unfolding reply_open_mini_app
  reply_open_mini_app-Does svc who =
      Does-bind pre (Does-now pre) (λ t. open_app-Does svc who svc.liff_issuer t)
