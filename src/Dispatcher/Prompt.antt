-- ===== src/Dispatcher/Prompt.antt =====
-- What surrounds a chat with the model in dispatcher/dispatcher.go: jobs, web search and prompt.
use thclaws_thai_ai_agent.Base.{
  ℕ, suc, String, Bool, true, false, Option, none, some, List, [], ◌∷◌, map, length, if◌then◌else◌,
}
use thclaws_thai_ai_agent.Base.Text.{is_empty, trim_space, append}
use thclaws_thai_ai_agent.Sql.{Error, Result, ok, err}
use thclaws_thai_ai_agent.Thaitime.{short_date_time}
use thclaws_thai_ai_agent.Base.Int.{pos}
use thclaws_thai_ai_agent.Ledger.Money.{format_int}
use thclaws_thai_ai_agent.Ledger.Summary.{today, this_month, balance}
use thclaws_thai_ai_agent.Memory.Store.{Message, AgentSession, number, texts}
use thclaws_thai_ai_agent.Memory.Context.{ContextResult, get_context}
use thclaws_thai_ai_agent.Websearch.{should_search}
use thclaws_thai_ai_agent.Dispatcher.Phrases.{is_financial_advice_request}
use thclaws_thai_ai_agent.Dispatcher.Chat.{
  Call, answered, timed_out, failed, brain_extract, memory_compact, WebResult, Identity, Service,
  Asker, C, return, ◌>>=◌, ◌>>◌, now, on_books, on_memory, enqueue, log_event,
}

abbrev pub enqueue_both : Identity → String → C (Unit {0})
enqueue_both id content =
    enqueue (brain_extract id.user_id id.agent_id id.namespace content)
    >> enqueue (memory_compact id.user_id id.agent_id id.namespace)

-- `enqueueMemoryJobs`
unfoldable pub enqueue_memory_jobs : Service → Asker → String → C (Unit {0})
enqueue_memory_jobs svc who content =
    if svc.has_queue then enqueue_both who.identity content else return tt

-- The results, and whether the search failed.
abbrev pub searched : Asker → String → Call (List WebResult) → C (List WebResult × Bool)
searched who content (answered results) =
    log_event who "thclaws.web_search.completed" "thclaws" content (
      ("resultCount", number (length results))
      ∷ ("urls", texts (map (λ (r : WebResult). r.url) results))
      ∷ [])
    >>= λ u. return (results, false)
searched who content timed_out =
    log_event who "thclaws.web_search.failed" "thclaws" content [] >>= λ u. return ([], true)
searched who content failed =
    log_event who "thclaws.web_search.failed" "thclaws" content [] >>= λ u. return ([], true)

abbrev pub search_with :
    Service → Asker → String → Option (String → Call (List WebResult)) → C (List WebResult × Bool)
search_with svc who content none = return ([], false)
search_with svc who content (some search_web) =
    if should_search content then searched who content (search_web content) else return ([], false)

-- `searchWebIfNeeded`; the reason of a failure is not kept
unfoldable pub search_web_if_needed : Service → Asker → String → C (List WebResult × Bool)
search_web_if_needed svc who content = search_with svc who content svc.web_search

abbrev pub snapshot_part : String → Result Error String → String
snapshot_part head (err e) = ""
snapshot_part head (ok body) =
    if is_empty (trim_space body) then "" else append head (append body "\n")

-- `financialSnapshot`
unfoldable pub financial_snapshot : Service → Asker → C String
unfolding append trim_space
financial_snapshot svc who = do
  b ← on_books (balance who.identity.user_id who.identity.namespace)
  m ← on_books (this_month svc.calendar who.identity.user_id who.identity.namespace)
  d ← on_books (today svc.calendar who.identity.user_id who.identity.namespace)
  return (
      append (snapshot_part "- ภาพรวม: " b)
        (append (snapshot_part "- เดือนนี้:\n" m) (snapshot_part "- วันนี้:\n" d)))

abbrev pub session_part : Option AgentSession → String
session_part none = ""
session_part (some s) =
    if is_empty s.id
    then ""
    else append "thClaws session broker:\n- sessionId: " (
        append s.id
          (append "\n- runtime: " (append s.runtime (append "\n- model: " (append s.model "\n")))))

abbrev pub duties : String
duties =
    "หน้าที่ของ thClaws: วิเคราะห์บริบท วางแผนคำตอบ/เครื่องมือแบบปลอดภัย แล้วสรุปตอบผู้ใช้\nskills เปิดใช้งาน:\n- นักบัญชีครัวเรือน: ช่วยจัดหมวดรายรับรายจ่าย ทำบัญชีครัวเรือนแบบแยกประเภท สรุปเงินสด กระแสเงินสด งบประมาณ เป้าหมาย และหนี้ โดยยึดรายการจริงเท่านั้น\n- นักการเงินส่วนบุคคล: ให้คำแนะนำการเงินแบบระมัดระวัง เช่น วางงบ ออมเงิน เงินสำรองฉุกเฉิน จัดลำดับหนี้ และเป้าหมายการเงิน ห้ามรับประกันผลตอบแทนหรือแนะนำลงทุนเฉพาะตัวถ้าข้อมูลไม่พอ\nวิเคราะห์ประวัติการคุยก่อนตอบ เหมือนเลขาส่วนตัวที่จำบริบทได้ดี คุยเป็นธรรมชาติ ใช้คำว่า 'ครับ' เท่านั้น ไม่ใช้ 'ครับ/ค่ะ'\nใช้ข้อมูลจริงจาก history, memory summary, wiki ส่วนตัวของ namespace นี้เท่านั้น ห้ามแต่งเรื่องหรือเดาข้ามผู้ใช้\nตัวเลขบัญชี ยอดเงิน รายการรับจ่าย และรูปภาพ ต้องมาจาก tool/ledger/image result จริงเท่านั้น ถ้าไม่มีผลลัพธ์จริงให้บอกว่าไม่พบข้อมูล\nถ้าความมั่นใจต่ำหรือบริบทไม่พอ ให้ตั้งคำถามกลับผู้ใช้ทันที ไม่ต้องฝืนตอบ และถามซ้ำได้จนมั่นใจ\nถ้าคำถามอ้างถึงเรื่องก่อนหน้าแต่ข้อมูลไม่พอ ให้ถามสั้น ๆ เพื่อยืนยันก่อน ห้ามเดาว่าใช่\nถ้าเป็นเรื่องส่วนตัว/ยอดเงิน/ประวัติที่ไม่มีใน history หรือ tool result ให้บอกว่าไม่มีข้อมูลพอแล้วถามต่อ\nถ้าเป็นคำถามความรู้ทั่วไป สูตรอาหาร วิธีทำ แผน หรือคำแนะนำทั่วไป ให้ตอบได้ตามปกติ แต่ต้องบอกชัดว่าเป็นคำแนะนำทั่วไป ไม่ใช่ข้อมูลส่วนตัวจากฐานข้อมูล\nถ้าเป็นคำถามเชิงความเห็นเกี่ยวกับคน/นิสัย ให้ตอบแบบระมัดระวัง เช่น 'จากที่เห็นในประวัติ...' และห้ามฟันธงเกินหลักฐาน\n"

abbrev pub no_snapshot : String
no_snapshot =
    "- ยังดึงตัวเลขบัญชีจริงไม่ได้หรือยังไม่มีรายการพอ ให้ถามข้อมูลเพิ่มก่อนแนะนำแบบเจาะจง\n"

abbrev pub advice_rules : String
advice_rules =
    "กติกาคำแนะนำการเงิน: เริ่มจากตัวเลขจริงที่มี ถ้าขาดรายได้ประจำ หนี้ เป้าหมาย หรือภาระครอบครัว ให้ถามเพิ่ม ห้ามแต่งตัวเลขเอง\n"

abbrev pub search_rules : String
search_rules =
    "ถ้ามี internet_search ให้ใช้ข้อมูลจากรายการนั้นเป็นหลักสำหรับข้อมูลสด และแนบชื่อแหล่งที่มาหรือ URL สั้น ๆ\nถ้าผู้ใช้ถามเรื่องข้อมูลสดแต่ internet_search_error เกิดขึ้น ให้บอกว่าค้นเว็บไม่ได้ตอนนี้และถามว่าจะให้ลองใหม่ไหม\nห้ามบอกว่าบันทึกหรือทำรายการแล้ว ถ้ายังไม่มีผลจาก tool/ledger จริงใน prompt\n"

web_lines : ℕ → List WebResult → String
unfolding append format_int
web_lines i [] = ""
web_lines i (r ∷ rs) = append (format_int (pos i)) (
    append ". " (
      append r.title (
        append "\nurl: " (
          append r.url
            (append "\nsnippet: " (append r.snippet (append "\n" (web_lines (suc i) rs))))))))

abbrev web_part : List WebResult → Bool → String
web_part [] false = ""
web_part [] true = "internet_search_error: ค้นเว็บไม่สำเร็จในรอบนี้\n"
web_part (r ∷ rs) web_failed = append "internet_search:\n" (web_lines 1 (r ∷ rs))

page_lines : List (String × String) → String
unfolding append
page_lines [] = ""
page_lines ((title, summary) ∷ ps) =
    append "- " (append title (append ": " (append summary (append "\n" (page_lines ps)))))

history_lines : List Message → String
unfolding append
history_lines [] = ""
history_lines (m ∷ ms) =
    append m.role (append ": " (append m.content (append "\n" (history_lines ms))))

abbrev pub headed : String → String → String
headed head body = if is_empty body then "" else append head body

abbrev pub advice_part : String → String
advice_part snapshot =
    append "financial_context_from_ledger:\n"
      (append (if is_empty snapshot then no_snapshot else snapshot) advice_rules)

unfoldable pub advice : Service → Asker → String → C String
unfolding append is_financial_advice_request
advice svc who content =
    if is_financial_advice_request content
    then (financial_snapshot svc who >>= λ snapshot. return (advice_part snapshot))
    else return ""

-- The prompt from its parts.
unfoldable pub prompt_text :
    Service → Asker → ℕ → String → String → List WebResult × Bool → ContextResult → String
unfolding append web_lines page_lines history_lines short_date_time
prompt_text svc who t content advised web res = append (session_part who.session) (
    append "เวลาปัจจุบันของระบบ: " (
      append (short_date_time svc.calendar t) (
        append "\n" (
          append duties (
            append advised (
              append search_rules (
                append (web_part web.0 web.1) (
                  append
                    (headed "สรุปเดิม:\n" (
                      if is_empty res.compact_summary then "" else append res.compact_summary "\n"))
                    (append (headed "wiki:\n" (page_lines res.wiki_pages)) (
                      append (headed "history:\n" (history_lines res.recent_history))
                        (append "คำถามล่าสุด: " content)))))))))))

abbrev pub from_context :
    Service → Asker → String → List WebResult × Bool → Result Error ContextResult → C String
from_context svc who content web (err e) = return content
from_context svc who content web (ok res) = now >>= λ t.
    advice svc who content >>= λ advised. return (prompt_text svc who t content advised web res)

-- `buildPrompt`
unfoldable pub build_prompt : Service → Asker → String → List WebResult × Bool → C String
build_prompt svc who content web = do
  r ← on_memory (get_context (svc.brain_pages who.identity.namespace) who.identity.namespace)
  from_context svc who content web r
