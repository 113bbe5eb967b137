-- ===== src/Memory/Examples.antt =====
-- The pending questions and the compaction of memory/service.go at concrete documents.
use thclaws_thai_ai_agent.Base.{
  exists, ◌==◌, ℕ, zero, suc, ◌+◌, String, Bool, true, false, not, ◌&&◌, ◌≡◌, refl, Option, none,
  some, List, [], ◌∷◌, length, str_eq, if◌then◌else◌, ltb, arith,
}
use thclaws_thai_ai_agent.Base.Int.{pos}
use thclaws_thai_ai_agent.Sql.{Stamp, World, Error, Result, ok, ◌>>=◌, wrap, on_pool, pure}
use thclaws_thai_ai_agent.Memory.Store.{Message, MemorySummary, Store}
use thclaws_thai_ai_agent.Memory.Pending.{PendingInput, pending_of, put_pending, drop_pending}
use thclaws_thai_ai_agent.Memory.Pending.View.{asked, pending_is_map}
use thclaws_thai_ai_agent.Memory.Context.{recent_messages}
use thclaws_thai_ai_agent.Memory.Compact.{
  CompactInput, fresh_messages, is_among, oldest, by_age, insert_oldest, insert_summary,
  compact_messages, compact_oldest, compact_conversation_if_needed,
}
use thclaws_thai_ai_agent.Memory.Compact.Beside.{IsUnique}
use thclaws_thai_ai_agent.Memory.Compact.Timed.{HasOwnTimes}
use thclaws_thai_ai_agent.Memory.Compact.History.{compact_keeps_history}
use thclaws_thai_ai_agent.Memory.Compact.Tail.{compact_leaves_tail}

abbrev question : PendingInput
question = record {
  owner_id = "u1";
  agent_id = "a1";
  namespace = "line:u1";
  original = " แท็กซี่ 60 ";
  direction = "";
  amount = pos 6_000;
  note = "แท็กซี่";
  category = "เดินทาง";
  counterparty_name = "";
  counterparty_role = "";
  confidence = 70;
  causation_id = "m1";
  ttl = 0;
}

abbrev no_documents : Store
no_documents = record {
  pending_actions = [];
  messages = [];
  event_logs = [];
  sessions = [];
  profiles = [];
  snapshots = [];
  images = [];
  slips = [];
  accounts = [];
  summaries = [];
  wiki_pages = [];
}

abbrev stamp : Stamp
stamp = record { id = "p"; now = 5 }

still_open : ltb 600_000_000_004 (pending_of question 5).expires_at ≡ true
unfolding pending_of
still_open = refl

pending_is_map_example :
    (asked "line:u2" 600_000_000_004 (put_pending question stamp no_documents) ≡ (
      if str_eq "line:u1" "line:u2"
      then some (pending_of question 5)
      else asked "line:u2" 600_000_000_004 no_documents))
    × (asked "line:u2" 600_000_000_004 (drop_pending "line:u1" stamp no_documents) ≡ (
        if str_eq "line:u1" "line:u2" then none else asked "line:u2" 600_000_000_004 no_documents))
pending_is_map_example =
    pending_is_map question stamp no_documents "line:u2" 600_000_000_004 still_open

-- Messages of one conversation and a last one of another.
abbrev talk : String → ℕ → List Message
talk i zero =
    record {
      id = "other";
      owner_id = "u2";
      agent_id = "a1";
      namespace = "line:u2";
      role = "user";
      content = "hi";
      metadata = [];
      compacted = false;
      created_at = 3;
    }
    ∷ []
talk i (suc n) =
    record {
      id = i;
      owner_id = "u1";
      agent_id = "a1";
      namespace = "line:u1";
      role = "user";
      content = "hi";
      metadata = [];
      compacted = false;
      created_at = n;
    }
    ∷ talk (String.◌∷◌ "i" i) n

abbrev after_talk : World Store
after_talk = record {
  db = record no_documents { messages = talk "m" 40 };
  work = no_documents;
  aborted = false;
  faults = [];
  uuid = λ n. "id";
  drawn = 0;
  clock = 50;
}

abbrev talker : CompactInput
talker = record { owner_id = "u1"; agent_id = "a1"; namespace = "line:u1" }

all_unique : List Message → Bool
unfolding is_among
all_unique [] = true
all_unique (m ∷ ms) = not (is_among m.id ms) && all_unique ms

all_unique-IsUnique : (ms : List Message) → all_unique ms ≡ true → IsUnique ms
unfolding all_unique IsUnique
all_unique-IsUnique [] h = tt
all_unique-IsUnique (m ∷ ms) h = (ground arith, all_unique-IsUnique ms (ground arith))

talk-IsUnique : IsUnique after_talk.db.messages
unfolding all_unique
talk-IsUnique = all_unique-IsUnique after_talk.db.messages refl

-- Of two messages with the same time, the one that was written first.
abbrev first_found : Message → Message → Bool
first_found x y = true

all_timed : List Message → Bool
all_timed [] = true
all_timed (m ∷ ms) = not (exists (λ (x : Message). x.created_at == m.created_at) ms) && all_timed ms

all_timed-HasOwnTimes : (ms : List Message) → all_timed ms ≡ true → HasOwnTimes ms
unfolding all_timed HasOwnTimes
all_timed-HasOwnTimes [] h = tt
all_timed-HasOwnTimes (m ∷ ms) h = (ground arith, all_timed-HasOwnTimes ms (ground arith))

talk-HasOwnTimes : HasOwnTimes (fresh_messages "line:u1" after_talk.db)
unfolding all_timed
talk-HasOwnTimes = all_timed-HasOwnTimes (fresh_messages "line:u1" after_talk.db) refl

compact_keeps_history_example :
    recent_messages "line:u1" (compact_conversation_if_needed first_found talker after_talk).1.db
    ≡ recent_messages "line:u1" after_talk.db
compact_keeps_history_example =
    compact_keeps_history first_found talker "line:u1" after_talk talk-IsUnique talk-HasOwnTimes

abbrev talk_summary : Result Error (Option MemorySummary) → MemorySummary
talk_summary (ok (some s)) = s
talk_summary r = record {
  owner_id = "";
  agent_id = "";
  namespace = "";
  summary = "";
  message_count = 0;
  from_date = 0;
  to_date = 0;
  created_at = 0;
}

is_compacted :
    (compact_conversation_if_needed first_found talker after_talk).0
    ≡ ok (some (talk_summary (compact_conversation_if_needed first_found talker after_talk).0))
unfolding compact_conversation_if_needed compact_oldest compact_messages insert_summary oldest
    by_age insert_oldest ◌>>=◌ wrap on_pool pure
is_compacted = refl

compact_leaves_tail_example :
    (length (
        fresh_messages "line:u1"
          (compact_conversation_if_needed first_found talker after_talk).1.db)
      ≡ 12)
    × ((talk_summary (compact_conversation_if_needed first_found talker after_talk).0).message_count
          + 12
        ≡ length (fresh_messages "line:u1" after_talk.db))
compact_leaves_tail_example =
    compact_leaves_tail first_found talker after_talk _ talk-IsUnique is_compacted
