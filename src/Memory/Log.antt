-- ===== src/Memory/Log.antt =====
-- Conversation messages, snapshots and event logs of memory/service.go.

use Prim.Native.Char.{Char, code}
use thclaws_thai_ai_agent.Base.{
  ℕ, ◌-◌, String, Bool, false, not, [], ◌∷◌, ◌&&◌, str_eq, if◌then◌else◌, keep, leb, ltb, ◌≡◌, refl,
}
use thclaws_thai_ai_agent.Base.Text.{is_empty, trim_space, to_lower}
use thclaws_thai_ai_agent.Base.Scan.{contains_any}
use thclaws_thai_ai_agent.Sql.{Error, ok, Stamp, Query, M, pure, on_pool, wrap, writing}
use thclaws_thai_ai_agent.Memory.Store.{Value, Meta, Snapshot, Store, upsert}

-- The bytes of a character in UTF-8.
abbrev pub byte_count : Char → ℕ
byte_count c =
    let k = code c in
    if ltb k 0x80 then 1 else if ltb k 0x800 then 2 else if ltb k 0x10000 then 3 else 4

-- `s[:n]` of the bytes; the bytes of a character that the cut divides are left out
unfoldable pub first_bytes : ℕ → String → String
first_bytes n String.[] = ""
first_bytes n (String.◌∷◌ c s) =
    let rest = first_bytes (n - byte_count c) s in
    if leb (byte_count c) n then String.◌∷◌ c rest else ""

-- `if len(content) > 4000 { content = content[:4000] }`
unfoldable pub capped : String → String
unfolding first_bytes
capped content = first_bytes 4_000 content

-- `SaveMessageInput`
pub record MessageInput : Type 0 where
  pub owner_id : String
  pub agent_id : String
  pub namespace : String
  pub role : String
  pub content : String
  pub metadata : Meta

unfoldable pub insert_message : MessageInput → String → Query Store String
insert_message input content st s = ok (
  st.id,
  record s {
    messages =
        record {
          id = st.id;
          owner_id = input.owner_id;
          agent_id = input.agent_id;
          namespace = input.namespace;
          role = input.role;
          content = content;
          metadata = input.metadata;
          compacted = false;
          created_at = st.now;
        }
        ∷ s.messages;
  },
)

-- `SaveConversationMessage`
unfoldable pub save_conversation_message : MessageInput → M Store Error String
save_conversation_message input =
    if is_empty (trim_space input.content)
    then pure ""
    else wrap "memory: SaveConversationMessage"
        (on_pool (insert_message input (capped (trim_space input.content))))

abbrev is_snapshot : String → String → Snapshot → Bool
is_snapshot namespace line_user_id x =
    str_eq x.namespace namespace && str_eq x.line_user_id line_user_id

unfoldable pub put_snapshot : String → String → String → Stamp → Store → Store
put_snapshot namespace line_user_id intent st s = record s {
  snapshots =
      upsert (is_snapshot namespace line_user_id)
        (λ (x : Snapshot). record x { last_intent = intent })
        (record { namespace = namespace; line_user_id = line_user_id; last_intent = intent })
        s.snapshots;
}

-- `SaveConversationSnapshot`
unfoldable pub save_conversation_snapshot : String → String → String → M Store Error (Unit {0})
save_conversation_snapshot namespace line_user_id intent =
    wrap "memory: SaveConversationSnapshot"
      (on_pool (writing (put_snapshot namespace line_user_id intent)))

-- `sensitiveKeyPattern`
unfoldable pub is_sensitive : String → Bool
unfolding contains_any to_lower
is_sensitive key =
    contains_any (to_lower key)
      ("token" ∷ "secret" ∷ "password" ∷ "authorization" ∷ "base" ∷ "64" ∷ [])

-- `sanitizeMetadata`
abbrev pub sanitize_metadata : Meta → Meta
sanitize_metadata meta = keep (λ (e : String × Value). not (is_sensitive e.0)) meta

-- `EventLogInput`
pub record EventInput : Type 0 where
  pub owner_id : String
  pub agent_id : String
  pub namespace : String
  pub event_type : String
  pub source : String
  pub content : String
  pub metadata : Meta

unfoldable pub put_event_log : EventInput → Stamp → Store → Store
put_event_log input st s = record s {
  event_logs =
      record {
        owner_id = input.owner_id;
        agent_id = input.agent_id;
        namespace = input.namespace;
        event_type = input.event_type;
        source = if is_empty input.source then "line" else input.source;
        content = capped input.content;
        metadata = sanitize_metadata input.metadata;
        created_at = st.now;
      }
      ∷ s.event_logs;
}

-- `SaveEventLog`
unfoldable pub save_event_log : EventInput → M Store Error (Unit {0})
save_event_log input = wrap "memory: SaveEventLog" (on_pool (writing (put_event_log input)))

sanitize_metadata_lem :
    sanitize_metadata (("replyToken", Value.number 1) ∷ ("urlPath", Value.number 2) ∷ [])
    ≡ ("urlPath", Value.number 2) ∷ []
unfolding is_sensitive
sanitize_metadata_lem = refl
