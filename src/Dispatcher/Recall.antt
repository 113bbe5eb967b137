-- ===== src/Dispatcher/Recall.antt =====
-- `replyLatestImage` and `analyzeLatestImage` of dispatcher/dispatcher.go.
use thclaws_thai_ai_agent.Base.{ℕ, String, Option, none, some, List, if◌then◌else◌}
use thclaws_thai_ai_agent.Sql.{Error, Result, ok, err}
use thclaws_thai_ai_agent.Memory.Store.{StoredImage}
use thclaws_thai_ai_agent.Memory.Images.{get_latest_stored_image}
use thclaws_thai_ai_agent.Dispatcher.Answers.{build_slip_reply, choose_content_type}
use thclaws_thai_ai_agent.Dispatcher.Chat.{
  Outcome, Call, answered, timed_out, failed, Vision, Service, Asker, C, ◌>>=◌, now, on_memory,
  session_id,
}
use thclaws_thai_ai_agent.Base.Int.{pos}
use thclaws_thai_ai_agent.Media.{build_image_url}
use thclaws_thai_ai_agent.Dispatcher.Replies.{given, unix, reply, reply_image, reply_timeout_notice}
use thclaws_thai_ai_agent.Dispatcher.Image.{ask_slip}

-- `media.BuildImageURL` for ten minutes
unfoldable pub image_url : Service → String → ℕ → Option String
image_url svc id t =
    given
      (build_image_url svc.media svc.public_base_url id svc.image_access_secret (pos 600) (unix t))

abbrev pub send_image : Asker → String → Option String → C Outcome
send_image who image_id none = reply who "เปิดรูปล่าสุดยังไม่ได้ครับ ระบบลิงก์รูปยังไม่พร้อม"
send_image who image_id (some url) = reply_image who "รูปนี้ครับ รูปล่าสุดที่คุณส่งไว้" url image_id

abbrev pub show_image : Service → Asker → ℕ → Result Error (Option StoredImage) → C Outcome
show_image svc who t (err e) = reply who "ดึงรูปล่าสุดไม่สำเร็จครับ ลองใหม่อีกที"
show_image svc who t (ok none) = reply who "ยังไม่พบรูปที่คุณเคยส่งไว้ครับ"
show_image svc who t (ok (some img)) = send_image who img.id (image_url svc img.id t)

-- `replyLatestImage`
unfoldable pub reply_latest_image : Service → Asker → C Outcome
reply_latest_image svc who = do
  t ← now
  r ← on_memory (get_latest_stored_image who.identity.namespace)
  show_image svc who t r

abbrev pub seen_again : Asker → StoredImage → Call Vision → C Outcome
seen_again who img timed_out = reply_timeout_notice who
seen_again who img failed = reply who "AI อ่านรูปล่าสุดไม่สำเร็จครับ ลองส่งรูปใหม่อีกครั้งนะครับ"
seen_again who img (answered v) =
    if v.is_slip
    then if v.has_amount
      then ask_slip who img.id v v.direction_hint (build_slip_reply v.final_reply v.direction_hint)
      else reply who (build_slip_reply v.final_reply v.direction_hint)
    else reply who v.final_reply

abbrev pub loaded :
    (String → String → List ℕ → String → Call Vision)
    → Asker
    → StoredImage
    → Call (List ℕ × String)
    → C Outcome
loaded look who img timed_out = reply_timeout_notice who
loaded look who img failed = reply who "เปิดรูปล่าสุดจากคลังภาพไม่สำเร็จครับ"
loaded look who img (answered (data_bytes, content_type)) = seen_again who img (
    look who.identity.namespace (session_id who.session) data_bytes
      (choose_content_type content_type img.content_type))

abbrev pub analyze_found :
    (String → String → Call (List ℕ × String))
    → (String → String → List ℕ → String → Call Vision)
    → Asker
    → Result Error (Option StoredImage)
    → C Outcome
analyze_found get look who (err e) = reply who "ดึงรูปล่าสุดไม่สำเร็จครับ ลองใหม่อีกที"
analyze_found get look who (ok none) = reply who "ยังไม่พบรูปที่คุณเคยส่งไว้ครับ"
analyze_found get look who (ok (some img)) = loaded look who img (get img.bucket img.object_name)

unfoldable pub analyze_with :
    (String → String → Call (List ℕ × String))
    → (String → String → List ℕ → String → Call Vision)
    → Asker
    → C Outcome
unfolding choose_content_type build_slip_reply
analyze_with get look who =
    on_memory (get_latest_stored_image who.identity.namespace) >>= analyze_found get look who

abbrev pub analyze_by :
    Asker
    → Option (String → String → Call (List ℕ × String))
    → Option (String → String → List ℕ → String → Call Vision)
    → C Outcome
analyze_by who (some get) (some look) = analyze_with get look who
analyze_by who _ _ = reply who "ตอนนี้ระบบอ่านรูปยังไม่พร้อมครับ"

-- `analyzeLatestImage`
unfoldable pub analyze_latest_image : Service → Asker → C Outcome
analyze_latest_image svc who = analyze_by who svc.store_get svc.vision
