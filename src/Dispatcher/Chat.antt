-- ===== src/Dispatcher/Chat.antt =====
-- What a handler of dispatcher/dispatcher.go works on: the ledger's database, the memory's, LINE and
-- the job queue. Each call of LINE and of the queue meets the next of its faults, if any is left.
use thclaws_thai_ai_agent.Base.{
  ℕ, String, Bool, true, false, Option, none, some, List, [], ◌∷◌, if◌then◌else◌,
}
use thclaws_thai_ai_agent.Base.Int.{ℤ}
use thclaws_thai_ai_agent.Base.Text.{is_empty}
use thclaws_thai_ai_agent.Sql.{Error, Result, World, M}
use thclaws_thai_ai_agent.Ledger.Tables.{Db}
use thclaws_thai_ai_agent.Memory.Store.{Store, Meta, text, AgentSession}
use thclaws_thai_ai_agent.Memory.Log.{save_conversation_message, save_event_log}
use thclaws_thai_ai_agent.Thaitime.{Calendar}
use thclaws_thai_ai_agent.Liff.Session.{Codec}
use thclaws_thai_ai_agent.Media.{Lib}
pub use thclaws_thai_ai_agent.Liff.Session.{Identity}

-- The calls of `Replier`.
pub data Reply : Type 0 where
  text_reply : String → Reply
  image_reply : String → String → Reply
  accounting_card : String → String → ℤ → String → String → String → Reply
  summary_card : String → String → Reply
  open_app_card : String → Reply
  texts_with_choices : List String → String → List String → Reply

-- The jobs of `JobEnqueuer`.
pub data Job : Type 0 where
  brain_extract : String → String → String → String → Job
  memory_compact : String → String → String → Job

-- Whether LINE took the reply: a nil error or not.
pub data Outcome : Type 0 where
  delivered refused : Outcome

pub record Chat : Type 0 where
  pub books : World Db
  pub memory : World Store
  pub sent : List Reply
  pub line_faults : List Bool
  pub jobs : List Job
  pub queue_faults : List Bool

-- What a call of a service outside answers; `isTimeoutErr` tells its errors apart.
pub data Call (A : Type 0) : Type 0 where
  answered : A → Call A
  timed_out failed : Call A

-- `parser.VisionResult`
pub record Vision : Type 0 where
  pub is_slip : Bool
  pub has_amount : Bool
  pub amount : ℤ
  pub from_name : String
  pub to_name : String
  pub from_account_masked : String
  pub to_account_masked : String
  pub final_reply : String
  pub direction_hint : String
  pub confidence : ℕ

-- `websearch.Result`
pub record WebResult : Type 0 where
  pub title : String
  pub url : String
  pub snippet : String

-- The collaborators of `Service`, `none` where the field is nil: a chat model by session and prompt,
-- LINE's content, an object store, a vision model, the pages of the brain (none where it fails), the
-- web, and the codec and secret of LIFF tokens; the libraries behind signed links.
pub record Service : Type 0 where
  pub chatter : Option (String → String → String → Call String)
  pub line_content : Option (String → Call (List ℕ × String))
  pub store_put : Option (String → List ℕ → String → Call String)
  pub store_get : Option (String → String → Call (List ℕ × String))
  pub vision : Option (String → String → List ℕ → String → Call Vision)
  pub brain_pages : String → List (String × String)
  pub has_queue : Bool
  pub web_search : Option (String → Call (List WebResult))
  pub liff_issuer : Option (Codec × String)
  pub media : Lib
  pub image_access_secret : String
  pub public_base_url : String
  pub liff_id : String
  pub has_writer : Bool
  pub reply_timeout : ℕ
  pub calendar : Calendar
  pub replacement_order : List (String × String)

abbrev pub C : Type 0 → Type 0
C A = Chat → A × Chat

module _ {A : Type 0} where
  unfoldable pub return : A → C A
  return a c = (a, c)

  -- A call of the ledger.
  unfoldable pub on_books : M Db Error A → C (Result Error A)
  on_books m c = let (r, w) = m c.books in (r, record c { books = w })

  -- A call of the memory service.
  unfoldable pub on_memory : M Store Error A → C (Result Error A)
  on_memory m c = let (r, w) = m c.memory in (r, record c { memory = w })

module _ {A B : Type 0} where
  infixl 10 ◌>>=◌ ◌>>◌
  unfoldable pub ◌>>=◌ : C A → (A → C B) → C B
  ◌>>=◌ m f c = let (a, c') = m c in f a c'

  abbrev pub ◌>>◌ : C A → C B → C B
  m >> n = m >>= λ _. n

-- `thaitime.Now()`
unfoldable pub now : C ℕ
now c = (c.books.clock, c)

abbrev pub take_fault : List Bool → Bool × List Bool
take_fault [] = (false, [])
take_fault (f ∷ fs) = (f, fs)

abbrev pub settle : Reply → Bool → Chat → Outcome × Chat
settle r true c = (refused, c)
settle r false c = (delivered, record c { sent = r ∷ c.sent })

-- A call of `Replier`.
unfoldable pub deliver : Reply → C Outcome
deliver r c =
    let (fault, left) = take_fault c.line_faults in settle r fault (record c { line_faults = left })

abbrev pub queued : Job → Bool → Chat → Unit {0} × Chat
queued j true c = (tt, c)
queued j false c = (tt, record c { jobs = j ∷ c.jobs })

-- A call of `JobEnqueuer`, its error only logged.
unfoldable pub enqueue : Job → C (Unit {0})
enqueue j c =
    let (fault, left) = take_fault c.queue_faults in
    queued j fault (record c { queue_faults = left })

-- The session of the context.
abbrev pub session_id : Option AgentSession → String
session_id none = ""
session_id (some s) = s.id

-- `withSessionMetadata`
abbrev pub with_session_metadata : Option AgentSession → Meta → Meta
with_session_metadata none meta = meta
with_session_metadata (some s) meta =
    if is_empty s.id
    then meta
    else ("thclawsSessionId", text s.id)
      ∷ ("thclawsRuntime", text s.runtime)
      ∷ ("thclawsModel", text s.model)
      ∷ meta

-- What every handler knows: who asks, in which session.
pub record Asker : Type 0 where
  pub identity : Identity
  pub session : Option AgentSession

-- `s.memory.SaveConversationMessage`, its error only logged.
unfoldable pub save_message : Asker → String → String → Meta → C (Unit {0})
save_message who role content meta = do
  on_memory (
      save_conversation_message (record {
        owner_id = who.identity.user_id;
        agent_id = who.identity.agent_id;
        namespace = who.identity.namespace;
        role = role;
        content = content;
        metadata = with_session_metadata who.session meta;
      }))
  return tt

-- `s.memory.SaveEventLog`, its error only logged.
unfoldable pub log_event : Asker → String → String → String → Meta → C (Unit {0})
log_event who event_type source content meta = do
  on_memory (
      save_event_log (record {
        owner_id = who.identity.user_id;
        agent_id = who.identity.agent_id;
        namespace = who.identity.namespace;
        event_type = event_type;
        source = source;
        content = content;
        metadata = with_session_metadata who.session meta;
      }))
  return tt
