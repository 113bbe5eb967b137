-- ===== src/Dispatcher/Replies.antt =====
-- The replies of dispatcher/dispatcher.go: what LINE took is saved as the assistant's message and
-- logged; a card that LINE refuses is sent as a text.
use thclaws_thai_ai_agent.Base.{
  ℕ, ◌/◌, String, Option, none, some, List, [], ◌∷◌, if◌then◌else◌, length,
}
use thclaws_thai_ai_agent.Base.Int.{ℤ, pos}
use thclaws_thai_ai_agent.Sql.{Result, ok, err}
use thclaws_thai_ai_agent.Liff.Session.{Codec, sign}
use thclaws_thai_ai_agent.Base.Text.{is_empty, append, trim_space}
use thclaws_thai_ai_agent.Base.Scan.{trim_suffix}
use thclaws_thai_ai_agent.Thaitime.{short_date_time}
use thclaws_thai_ai_agent.Ledger.Tables.{Project}
use thclaws_thai_ai_agent.Ledger.Money.{format_money}
use thclaws_thai_ai_agent.Memory.Store.{Meta, text, number, money, texts}
use thclaws_thai_ai_agent.Dispatcher.Answers.{project_reply_text, project_names}
use thclaws_thai_ai_agent.Dispatcher.Chat.{
  text_reply, image_reply, accounting_card, summary_card, open_app_card, texts_with_choices,
  Outcome, delivered, refused, Service, C, return, ◌>>=◌, ◌>>◌, now, deliver, Asker, save_message,
  log_event,
}

abbrev pub line_reply : Meta
line_reply = ("source", text "line_reply") ∷ []

-- The two writes after a reply that LINE took.
abbrev pub noted : Asker → String → Meta → String → Meta → String → Outcome → C Outcome
noted who said said_meta event meta logged refused = return refused
noted who said said_meta event meta logged delivered = do
  save_message who "assistant" said said_meta
  log_event who event "" logged meta
  return delivered

-- `reply`
unfoldable pub reply : Asker → String → C Outcome
reply who content = do
  sent ← deliver (text_reply content)
  noted who content line_reply "line.reply.sent" [] content sent

-- `replyImage`
unfoldable pub reply_image : Asker → String → String → String → C Outcome
unfolding append
reply_image who content url image_id = do
  sent ← deliver (image_reply content url)
  noted who (append content " [image]") (("storedImageId", text image_id) ∷ line_reply)
      "line.image_reply.sent" (("storedImageId", text image_id) ∷ []) content sent

-- What follows a card: if LINE refused it, the text is sent instead.
abbrev pub or_text : Asker → String → String → Meta → String → Meta → Outcome → C Outcome
or_text who content kind said_meta event meta refused = reply who content
or_text who content kind said_meta event meta delivered =
    noted who content (("messageKind", text kind) ∷ said_meta) event meta content delivered

abbrev pub with_projects : String → String → String
with_projects content projects =
    if is_empty projects then content else append content (append "\nโครงการ: " projects)

abbrev pub recorded_text : String → String → ℤ → String → List Project → String
recorded_text direction note amount category projects =
    with_projects
      (append "บันทึก" (
        append direction (
          append " " (
            append note (
              append " " (
                append (format_money amount)
                  (append " บาท (" (append category ") เรียบร้อยครับ"))))))))
      (project_reply_text projects)

-- `replyAccountingCard`
unfoldable pub reply_accounting_card :
    Service → Asker → String → String → ℤ → String → List Project → C Outcome
unfolding append format_money project_reply_text project_names short_date_time
reply_accounting_card svc who direction note amount category projects = do
  t ← now
  sent ← deliver (
      accounting_card direction note amount category (short_date_time svc.calendar t)
        (project_reply_text projects))
  or_text who (recorded_text direction note amount category projects) "accounting_card" line_reply
      "line.accounting_card.sent"
      (("direction", text direction)
        ∷ ("amount", money amount)
        ∷ ("category", text category)
        ∷ ("projects", texts (project_names projects))
        ∷ [])
      sent

-- `replySummaryCard`
unfoldable pub reply_summary_card : Asker → String → String → C Outcome
reply_summary_card who title body = do
  sent ← deliver (summary_card title body)
  or_text who body "summary_card" (("title", text title) ∷ line_reply) "line.summary_card.sent"
      (("title", text title) ∷ []) sent

-- `replyChoicesWithLead`
unfoldable pub reply_choices_with_lead : Asker → List String → String → List String → C Outcome
reply_choices_with_lead who lead content choices = do
  sent ← deliver (texts_with_choices lead content choices)
  noted who content (("quickReplyChoices", texts choices) ∷ line_reply) "line.quick_reply.sent"
      (("choiceCount", number (length choices)) ∷ []) content sent

-- `replyChoices`
unfoldable pub reply_choices : Asker → String → List String → C Outcome
unfolding reply_choices_with_lead
reply_choices who content choices = reply_choices_with_lead who [] content choices

abbrev pub timeout_reply_text : String
timeout_reply_text = "หมดเวลาประมวลผลครับ กรุณาส่งใหม่อีกครั้งนะครับ"

-- `replyTimeoutNotice`
unfoldable pub reply_timeout_notice : Asker → C Outcome
unfolding reply
reply_timeout_notice who = reply who timeout_reply_text

-- `strings.TrimRight(s, "/")`
unfoldable pub trim_slashes : String → String
trim_slashes String.[] = ""
trim_slashes (String.◌∷◌ c s) =
    let rest = trim_slashes s in
    if is_empty rest then trim_suffix (String.◌∷◌ c "") "/" else String.◌∷◌ c rest

-- `liffOpenURL`
unfoldable pub liff_open_url : Service → String → String
unfolding append trim_slashes trim_space
liff_open_url svc token =
    let encoded = svc.media.query_escape token in
    if is_empty (trim_space svc.public_base_url)
    then if is_empty svc.liff_id
      then append "/liff/dashboard?t=" encoded
      else append "https://liff.line.me/"
          (append (svc.media.path_escape svc.liff_id) (append "?t=" encoded))
    else append (trim_slashes svc.public_base_url) (append "/liff/dashboard?t=" encoded)

-- The value, or that there was an error.
abbrev pub given : Result String String → Option String
given (ok s) = some s
given (err e) = none

-- The Unix seconds of a time in nanoseconds.
abbrev pub unix : ℕ → ℤ
unix t = pos (t / 1_000_000_000)

abbrev pub send_app : Service → Asker → Option String → C Outcome
send_app svc who none = reply who "เปิดสมุดบัญชีไม่สำเร็จครับ ลองใหม่อีกครั้งนะครับ"
send_app svc who (some token) = do
  sent ← deliver (open_app_card (liff_open_url svc token))
  noted who "ส่งปุ่มเปิด Mini App บัญชีครัวเรือนแล้วครับ"
      (("messageKind", text "liff_card") ∷ line_reply) "line.liff_card.sent"
      (("urlPath", text "/liff/dashboard") ∷ []) "ส่งปุ่มเปิด Mini App บัญชีครัวเรือนแล้วครับ" sent

abbrev pub open_app : Service → Asker → Option (Codec × String) → ℕ → C Outcome
open_app svc who none t = reply who "Mini App ยังไม่พร้อมเปิดครับ ลองใหม่อีกครั้งนะครับ"
open_app svc who (some (codec, secret)) t =
    send_app svc who (given (sign codec who.identity secret (unix t)))

-- `replyOpenMiniApp`
unfoldable pub reply_open_mini_app : Service → Asker → C Outcome
unfolding reply liff_open_url
reply_open_mini_app svc who = do t ← now; open_app svc who svc.liff_issuer t
