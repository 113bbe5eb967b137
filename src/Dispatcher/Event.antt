-- ===== src/Dispatcher/Event.antt =====
-- `Dispatch`, `handleText` and `handleImage` of dispatcher/dispatcher.go. Resolving the LINE user is
-- the call of another package, and an argument.
use thclaws_thai_ai_agent.Base.{
  ℕ, ◌-◌, String, Bool, false, not, ◌&&◌, Option, none, some, [], ◌∷◌, str_eq, if◌then◌else◌, leb,
  ◌==◌,
}
use thclaws_thai_ai_agent.Base.Text.{is_empty, trim_space, size}
use thclaws_thai_ai_agent.Base.Scan.{first_chars}
use thclaws_thai_ai_agent.Sql.{Error, Result, ok, err}
use thclaws_thai_ai_agent.Memory.Store.{AgentSession, text, number}
use thclaws_thai_ai_agent.Memory.Sessions.{
  SessionInput, ensure_agent_session, touch_agent_session, ensure_agent_profile,
}
use thclaws_thai_ai_agent.Dispatcher.Chat.{
  Outcome, delivered, refused, Identity, Service, Asker, C, return, ◌>>=◌, ◌>>◌, now, on_memory,
  deliver, text_reply, save_message, log_event,
}
use thclaws_thai_ai_agent.Dispatcher.Replies.{timeout_reply_text}
use thclaws_thai_ai_agent.Dispatcher.Prompt.{enqueue_memory_jobs}
use thclaws_thai_ai_agent.Dispatcher.Image.{Naming, Ended, answer_image}
use thclaws_thai_ai_agent.Dispatcher.Text.{answer_text}

-- The fields that `Dispatch` reads from the event, and when the webhook received it.
pub record Event : Type 0 where
  pub line_user_id : String
  pub reply_token : String
  pub message_type : String
  pub content : String
  pub message_id : String
  pub received_at : Option ℕ

-- What `ResolveOrCreateLineUser` answers; `unknown_user` is `users.ErrUnknown`.
pub data Resolved : Type 0 where
  known : Identity → Resolved
  unknown_user broken : Resolved

-- The input of `ensureThClawsSession`
abbrev pub session_input : Identity → String → SessionInput
session_input id intent = record {
  owner_id = id.user_id;
  agent_id = id.agent_id;
  namespace = id.namespace;
  runtime = "thclaws-session-broker";
  model = "sml/auto";
  last_intent = intent;
}

abbrev pub session_of : Result Error AgentSession → Option AgentSession
session_of (ok s) = some s
session_of (err e) = none

-- `redactID`; the bytes of a LINE id are ASCII
abbrev pub redact_id : String → String
redact_id id = if leb (size id) 8 then id else first_chars 8 id

-- The deferred `TouchAgentSession`, its error only logged: only where there is a session.
abbrev pub touch : Identity → Option AgentSession → Ended → C Outcome
touch id none (o, intent) = return o
touch id (some s) (o, intent) =
    on_memory (touch_agent_session id.namespace "thclaws-session-broker" intent) >> return o

-- The profile and the session, whose errors are only logged.
unfoldable pub start_session : Identity → String → C (Option AgentSession)
start_session id intent = do
  on_memory (ensure_agent_profile id.agent_id id.namespace)
  s ← on_memory (ensure_agent_session (session_input id intent))
  return (session_of s)

-- What `handleText` does before the first test.
unfoldable pub note_text : Service → Asker → String → String → C (Unit {0})
unfolding first_chars
note_text svc who line_user_id content = do
  save_message who "user" content (("source", text "line") ∷ [])
  log_event who "line.text.received" "" content (
      ("lineUserIdHash", text (redact_id line_user_id))
      ∷ ("messageLength", number (size content))
      ∷ [])
  enqueue_memory_jobs svc who content

-- `handleText`
unfoldable pub handle_text : Service → Identity → String → String → String → C Outcome
unfolding trim_space
handle_text svc id line_user_id message_id content = do
  session ← start_session id "line_text"
  let who : Asker = record { identity = id; session = session }
  note_text svc who line_user_id (trim_space content)
  r ← answer_text svc who line_user_id message_id (trim_space content)
  touch id session r

-- `handleImage`
unfoldable pub handle_image : Naming → Service → Identity → String → C Outcome
handle_image naming svc id message_id = do
  session ← start_session id "line_image"
  r ← answer_image naming svc (record { identity = id; session = session }) message_id
  touch id session r

-- `replyBudgetExceeded`, at a time
abbrev pub budget_exceeded : Service → Option ℕ → ℕ → Bool
budget_exceeded svc none t = false
budget_exceeded svc (some received) t =
    not (svc.reply_timeout == 0) && leb svc.reply_timeout (t - received)

abbrev pub by_type : Naming → Service → Event → Identity → C Outcome
by_type naming svc e id =
    if str_eq e.message_type "image"
    then handle_image naming svc id e.message_id
    else if str_eq e.message_type "text"
    then handle_text svc id e.line_user_id e.message_id e.content
    else return delivered

abbrev pub for_user : Naming → Service → Event → Resolved → C Outcome
for_user naming svc e (known id) = by_type naming svc e id
for_user naming svc e unknown_user =
    deliver
      (text_reply "ยินดีต้อนรับ! ระบบกำลังสร้างบัญชีให้คุณ ลองส่งข้อความนี้อีกครั้งสักครู่นะครับ")
for_user naming svc e broken = return refused

-- `Dispatch`; its result is `refused` where it returns an error
unfoldable pub dispatch : Naming → Service → (String → Resolved) → Event → C Outcome
dispatch naming svc resolve e = now >>= λ t.
    if is_empty e.reply_token
    then return delivered
    else if budget_exceeded svc e.received_at t
    then deliver (text_reply timeout_reply_text)
    else for_user naming svc e (resolve e.line_user_id)
