-- ===== src/Memory/Store.antt =====
-- The documents of memory/models.go, and the updates of MongoDB that the service calls.
use thclaws_thai_ai_agent.Base.{
  ℕ, String, Bool, Option, none, some, List, [], ◌∷◌, if◌then◌else◌, exists, find_first,
}
use thclaws_thai_ai_agent.Base.Int.{ℤ}

-- What a metadata map holds under a key.
pub data Value : Type 0 where
  text : String → Value
  number : ℕ → Value
  money : ℤ → Value
  texts : List String → Value

abbrev pub Meta : Type 0
Meta = List (String × Value)

-- `PendingAction` of the kind accounting_confirmation
pub record PendingAction : Type 0 where
  pub owner_id : String
  pub agent_id : String
  pub namespace : String
  pub original : String
  pub direction : String
  pub amount : ℤ
  pub note : String
  pub category : String
  pub counterparty_name : String
  pub counterparty_role : String
  pub confidence : ℕ
  pub causation_id : String
  pub expires_at : ℕ

-- `ConversationMessage`
pub record Message : Type 0 where
  pub id : String
  pub owner_id : String
  pub agent_id : String
  pub namespace : String
  pub role : String
  pub content : String
  pub metadata : Meta
  pub compacted : Bool
  pub created_at : ℕ

-- `EventLog`
pub record EventLog : Type 0 where
  pub owner_id : String
  pub agent_id : String
  pub namespace : String
  pub event_type : String
  pub source : String
  pub content : String
  pub metadata : Meta
  pub created_at : ℕ

-- `AgentSession`
pub record AgentSession : Type 0 where
  pub id : String
  pub owner_id : String
  pub agent_id : String
  pub namespace : String
  pub runtime : String
  pub model : String
  pub last_intent : String
  pub turn_count : ℕ

-- `AgentProfile`
pub record AgentProfile : Type 0 where
  pub agent_id : String
  pub namespace : String

-- A conversation snapshot.
pub record Snapshot : Type 0 where
  pub namespace : String
  pub line_user_id : String
  pub last_intent : String

-- `StoredImage`
pub record StoredImage : Type 0 where
  pub id : String
  pub owner_id : String
  pub agent_id : String
  pub namespace : String
  pub line_message_id : String
  pub bucket : String
  pub object_name : String
  pub content_type : String
  pub size : ℕ
  pub created_at : ℕ

-- `SlipRecord`
pub record SlipRecord : Type 0 where
  pub id : String
  pub owner_id : String
  pub agent_id : String
  pub namespace : String
  pub stored_image_id : String
  pub status : String
  pub direction : String
  pub amount : Option ℤ
  pub from_account_masked : String
  pub to_account_masked : String
  pub raw_text : String

-- `UserAccountIdentity`
pub record AccountIdentity : Type 0 where
  pub owner_id : String
  pub account_no_masked : String
  pub is_owner_account : Bool

-- `MemorySummary`
pub record MemorySummary : Type 0 where
  pub owner_id : String
  pub agent_id : String
  pub namespace : String
  pub summary : String
  pub message_count : ℕ
  pub from_date : ℕ
  pub to_date : ℕ
  pub created_at : ℕ

-- `PersonalWikiPage`
pub record WikiPage : Type 0 where
  pub owner_id : String
  pub agent_id : String
  pub namespace : String
  pub title : String
  pub content : String
  pub updated_at : ℕ

pub record Store : Type 0 where
  pub pending_actions : List PendingAction
  pub messages : List Message
  pub event_logs : List EventLog
  pub sessions : List AgentSession
  pub profiles : List AgentProfile
  pub snapshots : List Snapshot
  pub images : List StoredImage
  pub slips : List SlipRecord
  pub accounts : List AccountIdentity
  pub summaries : List MemorySummary
  pub wiki_pages : List WikiPage

module _ {A : Type 0} where
  -- `UpdateOne`: the first document that the filter finds
  abbrev pub update_one : (A → Bool) → (A → A) → List A → List A
  update_one p f [] = []
  update_one p f (x ∷ xs) = if p x then f x ∷ xs else x ∷ update_one p f xs

  -- `UpdateOne` with `SetUpsert(true)`
  abbrev pub upsert : (A → Bool) → (A → A) → A → List A → List A
  upsert p f new xs = if exists p xs then update_one p f xs else new ∷ xs

  abbrev or_new : (A → A) → A → Option A → A
  or_new f new none = new
  or_new f new (some x) = f x

  -- The document after `FindOneAndUpdate` with `SetUpsert(true)`
  abbrev pub upserted : (A → Bool) → (A → A) → A → List A → A
  upserted p f new xs = or_new f new (find_first p xs)
