-- ===== src/Dispatcher/Image.antt =====
-- `handleImage` of dispatcher/dispatcher.go.
use thclaws_thai_ai_agent.Base.{
  ℕ, String, Bool, ◌||◌, Option, none, some, List, [], ◌∷◌, str_eq, length, if◌then◌else◌,
}
use thclaws_thai_ai_agent.Base.Text.{is_empty, trim_space, append, contains}
use thclaws_thai_ai_agent.Sql.{Error, Result, ok, err}
use thclaws_thai_ai_agent.Memory.Store.{StoredImage, SlipRecord, text, number}
use thclaws_thai_ai_agent.Memory.Pending.{PendingInput, save_pending_accounting}
use thclaws_thai_ai_agent.Memory.Images.{
  save_stored_image, create_pending_slip, apply_vision_to_slip,
}
use thclaws_thai_ai_agent.Dispatcher.Answers.{build_slip_reply}
use thclaws_thai_ai_agent.Dispatcher.Chat.{
  Outcome, Call, answered, timed_out, failed, Identity, Vision, Service, Asker, C, return, ◌>>=◌,
  ◌>>◌, now, on_memory, save_message, session_id,
}
use thclaws_thai_ai_agent.Dispatcher.Replies.{reply, reply_choices_with_lead, reply_timeout_notice}

-- The result and the intent that the session is touched with.
abbrev pub Ended : Type 0
Ended = Outcome × String

unfoldable pub ended : String → C Outcome → C Ended
ended intent m = m >>= λ o. return (o, intent)

abbrev pub slip_choices : List String
slip_choices = "รายจ่าย" ∷ "รายรับ" ∷ "โอนเงิน" ∷ "ไม่บันทึก" ∷ []

abbrev pub note_or_default : String → String
note_or_default note = if is_empty (trim_space note) then "สลิปโอนเงิน" else trim_space note

abbrev pub is_income_hint : String → Bool
is_income_hint direction = str_eq direction "INCOME"

abbrev pub is_expense_hint : String → Bool
is_expense_hint direction = str_eq direction "EXPENSE"

-- The input of `saveSlipPendingAccounting`
unfoldable pub slip_pending : Identity → String → Vision → String → PendingInput
unfolding trim_space
slip_pending id cause v direction = record {
  owner_id = id.user_id;
  agent_id = id.agent_id;
  namespace = id.namespace;
  original = note_or_default v.final_reply;
  direction = if is_income_hint direction || is_expense_hint direction then direction else "";
  amount = v.amount;
  note = "สลิปโอนเงิน";
  category = if is_income_hint direction then "รายรับอื่น ๆ" else "อื่น ๆ";
  counterparty_name =
      if is_income_hint direction
      then v.from_name
      else if is_expense_hint direction
      then v.to_name
      else "";
  counterparty_role =
      if is_income_hint direction then "from" else if is_expense_hint direction then "to" else "";
  confidence = v.confidence;
  causation_id = cause;
  ttl = 0;
}

-- The question what to do with a slip; that it could not be saved is only logged.
unfoldable pub ask_slip : Asker → String → Vision → String → String → C Outcome
ask_slip who cause v direction answer = do
  on_memory (save_pending_accounting (slip_pending who.identity cause v direction))
  reply_choices_with_lead who (answer ∷ []) "จะให้ลงบัญชีรายการนี้ยังไงครับ?" slip_choices

-- A slip with an amount is asked about, any other picture is answered.
unfoldable pub slip_or_reply : Asker → String → Vision → String → C Ended
unfolding build_slip_reply
slip_or_reply who cause v direction =
    let answer = build_slip_reply v.final_reply direction in
    if v.has_amount
    then ended "slip_vision" (ask_slip who cause v direction answer)
    else ended "slip_vision" (reply who answer)

abbrev pub applied : Asker → String → Vision → Result Error String → C Ended
applied who cause v (err e) = ended "image_vision" (reply who v.final_reply)
applied who cause v (ok direction) = slip_or_reply who cause v direction

abbrev pub slip_made : Asker → String → Vision → Result Error SlipRecord → C Ended
slip_made who cause v (err e) = ended "image_vision" (reply who v.final_reply)
slip_made who cause v (ok slip) =
    on_memory (
      apply_vision_to_slip (record {
        owner_id = who.identity.user_id;
        slip_id = slip.id;
        is_slip = v.is_slip;
        amount = if v.has_amount then some v.amount else none;
        from_account_masked = v.from_account_masked;
        to_account_masked = v.to_account_masked;
        final_reply = v.final_reply;
        direction_hint = v.direction_hint;
      }))
    >>= applied who cause v

abbrev pub with_image : Asker → String → Vision → Result Error StoredImage → C Ended
with_image who cause v (err e) = ended "image_vision" (reply who v.final_reply)
with_image who cause v (ok img) =
    if v.is_slip
    then on_memory (
        create_pending_slip who.identity.user_id who.identity.agent_id who.identity.namespace
          img.id)
      >>= slip_made who cause v
    else ended "image_vision" (reply who v.final_reply)

abbrev pub seen : Asker → String → Result Error StoredImage → Call Vision → C Ended
seen who cause img timed_out = ended "vision_failed" (reply_timeout_notice who)
seen who cause img failed =
    ended "vision_failed"
      (reply who "เก็บรูปไว้แล้วครับ แต่ AI อ่านรูปไม่สำเร็จ ลองส่งใหม่อีกครั้งนะครับ")
seen who cause img (answered v) = with_image who cause v img

-- `filepath.Ext`: from the last point after the last slash
unfoldable pub file_ext : String → String
unfolding contains
file_ext String.[] = ""
file_ext (String.◌∷◌ c s) =
    let rest = file_ext s in
    if contains s "." || contains s "/"
    then rest
    else if str_eq (String.◌∷◌ c "") "."
    then String.◌∷◌ c s
    else ""

-- `extFromContentType`
unfoldable pub ext_from_content_type : String → String
unfolding contains file_ext
ext_from_content_type content_type =
    if contains content_type "png"
    then ".png"
    else if contains content_type "webp"
    then ".webp"
    else if is_empty (file_ext content_type)
    then ".jpg"
    else file_ext content_type

-- The object's name without its extension, made of the user, the day and a fresh UUID.
abbrev pub Naming : Type 0
Naming = String → ℕ → String

-- After the object is stored: its metadata, and what the vision model sees.
unfoldable pub keep_and_see :
    Asker → String → List ℕ × String → String → String → Call Vision → C Ended
keep_and_see who message_id content object_name bucket v = do
  img ← on_memory (
      save_stored_image (record {
        owner_id = who.identity.user_id;
        agent_id = who.identity.agent_id;
        namespace = who.identity.namespace;
        line_message_id = message_id;
        bucket = bucket;
        object_name = object_name;
        content_type = content.1;
        size = length content.0;
      }))
  seen who message_id img v

abbrev pub stored : Asker → String → List ℕ × String → String → Call Vision → Call String → C Ended
stored who message_id content object_name v timed_out =
    ended "image_store_failed" (reply_timeout_notice who)
stored who message_id content object_name v failed =
    ended "image_store_failed" (reply who "รับรูปแล้วครับ แต่เก็บรูปไม่สำเร็จ กรุณาส่งใหม่อีกครั้ง")
stored who message_id content object_name v (answered bucket) =
    keep_and_see who message_id content object_name bucket v

-- The three collaborators that an image needs.
pub record Eyes : Type 0 where
  pub download : String → Call (List ℕ × String)
  pub put : String → List ℕ → String → Call String
  pub look : String → String → List ℕ → String → Call Vision

unfoldable pub store_image : Naming → Eyes → Asker → String → List ℕ × String → C Ended
unfolding append ext_from_content_type
store_image naming eyes who message_id content = do
  save_message who "user" "[image]" (
      ("source", text "line")
      ∷ ("contentType", text content.1)
      ∷ ("size", number (length content.0))
      ∷ [])
  t ← now
  let object_name = append (naming who.identity.user_id t) (ext_from_content_type content.1)
  stored who message_id content object_name
      (eyes.look who.identity.namespace (session_id who.session) content.0 content.1)
      (eyes.put object_name content.0 content.1)

abbrev pub downloaded : Naming → Eyes → Asker → String → Call (List ℕ × String) → C Ended
downloaded naming eyes who message_id timed_out =
    ended "image_download_failed" (reply_timeout_notice who)
downloaded naming eyes who message_id failed =
    ended "image_download_failed" (reply who "รับรูปไม่สำเร็จครับ กรุณาส่งรูปใหม่อีกครั้ง")
downloaded naming eyes who message_id (answered content) =
    store_image naming eyes who message_id content

abbrev pub eyes_of : Service → Option Eyes
eyes_of svc = elim svc.line_content [
  | none ↦ none
  | some download ↦ elim svc.store_put [
    | none ↦ none
    | some put ↦ elim svc.vision [
      | none ↦ none
      | some look ↦ some (record { download = download; put = put; look = look })
    ]
  ]
]

abbrev pub look_at : Naming → Asker → String → Option Eyes → C Ended
look_at naming who message_id none = ended "image_dependencies_missing" (reply who "รับรูปแล้วครับ")
look_at naming who message_id (some eyes) =
    downloaded naming eyes who message_id (eyes.download message_id)

-- `handleImage`, once the session is there
unfoldable pub answer_image : Naming → Service → Asker → String → C Ended
answer_image naming svc who message_id = look_at naming who message_id (eyes_of svc)
