-- ===== src/Memory/Compact.antt =====
-- `CompactConversationIfNeeded` of memory/service.go; its audit log is left out. MongoDB returns
-- messages with the same time in any order: `tie` says which of two such messages comes first.
mod Sorted
pub mod Beside
mod Aged
pub mod Timed
pub mod History
pub mod Others
pub mod Tail
use thclaws_thai_ai_agent.Base.{
  ℕ, ◌+◌, ◌-◌, String, Bool, true, false, Option, none, some, List, [], ◌∷◌, ◌||◌, str_eq, ltb, map,
  ◌==◌, ◌&&◌, length, take, keep, if◌then◌else◌,
}
use thclaws_thai_ai_agent.Base.Text.{append}
use thclaws_thai_ai_agent.Sql.{
  Error, ok, Query, M, pure, on_pool, reading, writing, wrap, ◌>>=◌, ◌>>◌,
}
use thclaws_thai_ai_agent.Memory.Store.{Message, MemorySummary, Store}
use thclaws_thai_ai_agent.Memory.Log.{byte_count}
use thclaws_thai_ai_agent.Memory.Context.{is_fresh}

-- `CompactInput`
pub record CompactInput : Type 0 where
  pub owner_id : String
  pub agent_id : String
  pub namespace : String

-- `len(s)`
unfoldable pub byte_size : String → ℕ
byte_size String.[] = 0
byte_size (String.◌∷◌ c s) = byte_count c + byte_size s

abbrev pub fresh_messages : String → Store → List Message
fresh_messages namespace s = keep (is_fresh namespace) s.messages

module _ (tie : Message → Message → Bool) where
  -- Is the first message the older one?
  abbrev pub is_older : Message → Message → Bool
  is_older x y = ltb x.created_at y.created_at || (x.created_at == y.created_at && tie x y)

  unfoldable pub insert_oldest : Message → List Message → List Message
  insert_oldest x [] = x ∷ []
  insert_oldest x (y ∷ ys) =
      let rest = insert_oldest x ys in if is_older x y then x ∷ y ∷ ys else y ∷ rest

  -- `SetSort` by `createdAt`, 1
  unfoldable pub by_age : List Message → List Message
  unfolding insert_oldest
  by_age [] = []
  by_age (x ∷ xs) = insert_oldest x (by_age xs)

  -- The oldest messages that are not compacted.
  unfoldable pub oldest : String → ℕ → Store → List Message
  unfolding by_age
  oldest namespace limit s = take limit (by_age (fresh_messages namespace s))

-- The loop that writes the summary, with the bytes that are written.
unfoldable pub transcript : ℕ → List Message → String
unfolding append byte_size
transcript used [] = ""
transcript used (m ∷ ms) =
    let line = append m.role (append ": " (append m.content "\n")) in
    let rest = transcript (used + byte_size line) ms in
    if ltb 12_000 (used + byte_size line) then "" else append line rest

abbrev last_of : Message → List Message → Message
last_of m [] = m
last_of m (n ∷ ns) = last_of n ns

abbrev summary_of : CompactInput → Message → List Message → ℕ → MemorySummary
summary_of input m ms now = record {
  owner_id = input.owner_id;
  agent_id = input.agent_id;
  namespace = input.namespace;
  summary = transcript 0 (m ∷ ms);
  message_count = length (m ∷ ms);
  from_date = m.created_at;
  to_date = (last_of m ms).created_at;
  created_at = now;
}

unfoldable pub insert_summary : CompactInput → Message → List Message → Query Store MemorySummary
unfolding transcript
insert_summary input m ms st s = ok (
  summary_of input m ms st.now,
  record s { summaries = summary_of input m ms st.now ∷ s.summaries },
)

-- `{"_id": {"$in": ids}}`
unfoldable pub is_among : String → List Message → Bool
is_among i [] = false
is_among i (m ∷ ms) = str_eq m.id i || is_among i ms

abbrev pub marked : List Message → Message → Message
marked done m = if is_among m.id done then record m { compacted = true } else m

-- `UpdateMany` with `"compacted": true`
unfoldable pub mark_compacted : List Message → Store → Store
unfolding is_among
mark_compacted done s = record s { messages = map (marked done) s.messages }

-- What is done with the messages that were found.
unfoldable pub compact_messages : CompactInput → List Message → M Store Error (Option MemorySummary)
compact_messages input [] = pure none
compact_messages input (m ∷ ms) = do
  summary ←
      wrap "memory: CompactConversationIfNeeded: insert summary"
        (on_pool (insert_summary input m ms))
  wrap "memory: CompactConversationIfNeeded: mark compacted"
      (on_pool (writing (λ st. mark_compacted (m ∷ ms))))
  pure (some summary)

module _ (tie : Message → Message → Bool) where
  unfoldable pub compact_oldest : CompactInput → ℕ → M Store Error (Option MemorySummary)
  compact_oldest input count =
      if ltb count 40
      then pure none
      else wrap "memory: CompactConversationIfNeeded: find"
          (on_pool (reading (λ s. ok (oldest tie input.namespace (count - 12) s))))
        >>= compact_messages input

  -- `CompactConversationIfNeeded`
  unfoldable pub compact_conversation_if_needed :
      CompactInput → M Store Error (Option MemorySummary)
  compact_conversation_if_needed input =
      wrap "memory: CompactConversationIfNeeded: count"
        (on_pool (reading (λ s. ok (length (fresh_messages input.namespace s)))))
      >>= compact_oldest input
