-- ===== src/Memory/Pending.antt =====
-- The pending accounting question of memory/service.go: at most one for a namespace, for ten minutes.
pub mod View
use thclaws_thai_ai_agent.Base.{
  ℕ, ◌+◌, ◌*◌, String, Bool, not, Option, none, some, ◌&&◌, str_eq, if◌then◌else◌, keep, find_first,
  ltb, ◌==◌,
}
use thclaws_thai_ai_agent.Base.Int.{ℤ}
use thclaws_thai_ai_agent.Base.Text.{is_empty, trim_space}
use thclaws_thai_ai_agent.Sql.{
  SqlError, Error, Result, ok, err, Stamp, Query, M, guard, on_pool, wrap, ◌>>=◌, ◌>>◌, writing,
}
use thclaws_thai_ai_agent.Memory.Store.{PendingAction, Store, upsert}

-- `PendingAccountingInput`; a TTL of 0 or less stands for the default
pub record PendingInput : Type 0 where
  pub owner_id : String
  pub agent_id : String
  pub namespace : String
  pub original : String
  pub direction : String
  pub amount : ℤ
  pub note : String
  pub category : String
  pub counterparty_name : String
  pub counterparty_role : String
  pub confidence : ℕ
  pub causation_id : String
  pub ttl : ℕ

-- Ten minutes in nanoseconds.
abbrev pub ten_minutes : ℕ
ten_minutes = 10 * 60 * 1_000_000_000

abbrev pub is_for : String → PendingAction → Bool
is_for namespace p = str_eq p.namespace namespace

-- The document of `SavePendingAccounting`
unfoldable pub pending_of : PendingInput → ℕ → PendingAction
unfolding trim_space
pending_of input now = record {
  owner_id = input.owner_id;
  agent_id = input.agent_id;
  namespace = input.namespace;
  original = trim_space input.original;
  direction = input.direction;
  amount = input.amount;
  note = trim_space input.note;
  category = trim_space input.category;
  counterparty_name = trim_space input.counterparty_name;
  counterparty_role = trim_space input.counterparty_role;
  confidence = input.confidence;
  causation_id = input.causation_id;
  expires_at = now + (if input.ttl == 0 then ten_minutes else input.ttl);
}

unfoldable pub put_pending : PendingInput → Stamp → Store → Store
unfolding pending_of
put_pending input st s =
    let doc = pending_of input st.now in
    record s { pending_actions = upsert (is_for input.namespace) (λ p. doc) doc s.pending_actions }

-- `SavePendingAccounting`
unfoldable pub save_pending_accounting : PendingInput → M Store Error (Unit {0})
save_pending_accounting input = do
  guard (is_empty (trim_space input.namespace)) "memory: SavePendingAccounting: namespace is empty"
  wrap "memory: SavePendingAccounting" (on_pool (writing (put_pending input)))

-- The filter of `GetPendingAccounting`
abbrev pub is_open : String → ℕ → PendingAction → Bool
is_open namespace now p = is_for namespace p && ltb now p.expires_at

unfoldable pub find_pending : String → Query Store (Option PendingAction)
find_pending namespace st s = ok (find_first (is_open namespace st.now) s.pending_actions, s)

-- `GetPendingAccounting`
unfoldable pub get_pending_accounting : String → M Store Error (Option PendingAction)
get_pending_accounting namespace = do
  guard (is_empty (trim_space namespace)) "memory: GetPendingAccounting: namespace is empty"
  wrap "memory: GetPendingAccounting" (on_pool (find_pending namespace))

unfoldable pub drop_pending : String → Stamp → Store → Store
drop_pending namespace st s = record s {
  pending_actions = keep (λ (p : PendingAction). not (is_for namespace p)) s.pending_actions;
}

-- `ClearPendingAccounting`
unfoldable pub clear_pending_accounting : String → M Store Error (Unit {0})
clear_pending_accounting namespace = do
  guard (is_empty (trim_space namespace)) "memory: ClearPendingAccounting: namespace is empty"
  wrap "memory: ClearPendingAccounting" (on_pool (writing (drop_pending namespace)))
