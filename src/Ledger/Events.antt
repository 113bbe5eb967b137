-- ===== src/Ledger/Events.antt =====
-- The event log: ledger/events.go, and the events that the writers of ledger insert.
use thclaws_thai_ai_agent.Base.{
  String, Bool, false, none, some, List, [], ◌∷◌, ◌++◌, ◌&&◌, str_eq, if◌then◌else◌, find_first,
  exists,
}
use thclaws_thai_ai_agent.Base.Text.{is_empty, nullable_string}
use thclaws_thai_ai_agent.Sql.{
  SqlError, no_rows, Error, Result, ok, err, unique_violation, Stamp, Query, M, pure, guard, begin,
  commit, on_tx, on_pool, recover, writing, wrap, ◌>>=◌, ◌>>◌,
}
use thclaws_thai_ai_agent.Ledger.Tables.{
  Json, str, time, Fields, end, field, object, LedgerEvent, OutboxEntry, Db,
}

-- `payload.transactionId` of `json.Unmarshal`, "" where it is missing or no text
abbrev as_text : Json → String
as_text (str s) = s
as_text _ = ""

unfoldable pub transaction_id_of : Fields → String
transaction_id_of end = ""
transaction_id_of (field k v rest) =
    if str_eq k "transactionId" then as_text v else transaction_id_of rest

-- WHERE namespace = $1 AND "causationId" = $2 AND type = 'tx.recorded'
abbrev pub is_recorded : String → String → LedgerEvent → Bool
is_recorded namespace cause e =
    str_eq e.namespace namespace
    && str_eq e.event_type "tx.recorded"
    && elim e.causation_id [ none ↦ false | some c ↦ str_eq c cause ]

-- SELECT payload FROM ledger_events WHERE … ORDER BY id ASC LIMIT 1
unfoldable pub select_recorded : String → String → Db → Result SqlError Fields
select_recorded namespace cause db = elim (find_first (is_recorded namespace cause) db.events) [
  | some e ↦ ok e.payload
  | none ↦ err no_rows
]

-- The unique index on (namespace, causationId) of the 'tx.recorded' events.
abbrev pub event_clash : LedgerEvent → List LedgerEvent → Bool
event_clash e events = elim e.causation_id [
  | none ↦ false
  | some c ↦
      if str_eq e.event_type "tx.recorded" then exists (is_recorded e.namespace c) events else false
]

-- INSERT INTO ledger_events
unfoldable pub insert_event : LedgerEvent → Query Db (Unit {0})
insert_event e st db =
    if event_clash e db.events
    then err unique_violation
    else ok (tt, record db { events = db.events ++ e ∷ [] })

-- An event of a caller without a causation, stamped by the server.
abbrev pub server_event : String → String → String → Fields → Stamp → LedgerEvent
server_event namespace user_id event_type payload st = record {
  namespace = namespace;
  user_id = user_id;
  event_type = event_type;
  payload = payload;
  correlation_id = none;
  causation_id = none;
  occurred_at = st.now;
}

abbrev pub insert_server_event : String → String → String → Fields → Query Db (Unit {0})
insert_server_event namespace user_id event_type payload = writing λ st db. record db {
  events = db.events ++ server_event namespace user_id event_type payload st ∷ [];
}

-- `insertLedgerEventTx`
unfoldable pub insert_ledger_event_tx : String → String → String → Fields → M Db Error (Unit {0})
insert_ledger_event_tx namespace user_id event_type payload =
    wrap "ledger event: insert" (on_tx (insert_server_event namespace user_id event_type payload))

-- `appendLedgerEvent`; its callers drop the error
unfoldable pub append_ledger_event :
    String → String → String → Fields → M Db Error (Result SqlError (Unit {0}))
append_ledger_event namespace user_id event_type payload =
    recover (on_pool (insert_server_event namespace user_id event_type payload))

-- `LedgerEventInput`
pub record LedgerEventInput : Type 0 where
  pub namespace : String
  pub user_id : String
  pub event_type : String
  pub payload : Fields
  pub outbox_topic : String
  pub correlation_id : String
  pub causation_id : String

abbrev appended : LedgerEventInput → Stamp → LedgerEvent
appended input st = record {
  namespace = input.namespace;
  user_id = input.user_id;
  event_type = input.event_type;
  payload = input.payload;
  correlation_id = nullable_string input.correlation_id;
  causation_id = nullable_string input.causation_id;
  occurred_at = st.now;
}

-- The insert of `Append`, RETURNING the event's id and its time.
unfoldable pub insert_appended : LedgerEventInput → Query Db Stamp
insert_appended input st db =
    if event_clash (appended input st) db.events
    then err unique_violation
    else ok (st, record db { events = db.events ++ appended input st ∷ [] })

-- The payload of the outbox row: the event's metadata, and its payload under "data".
unfoldable pub outbox_payload : LedgerEventInput → Stamp → Fields
outbox_payload input st = field "eventId" (str st.id) (
    field "namespace" (str input.namespace) (
      field "userId" (str input.user_id) (
        field "type" (str input.event_type) (
          field "correlationId" (str input.correlation_id) (
            field "causationId" (str input.causation_id)
              (field "occurredAt" (time st.now) (field "data" (object input.payload) end)))))))

abbrev outbox_entry : LedgerEventInput → Stamp → OutboxEntry
outbox_entry input st = record { topic = input.outbox_topic; payload = outbox_payload input st }

-- INSERT INTO event_outbox, if the caller gave a topic
unfoldable pub enqueue : LedgerEventInput → Stamp → M Db Error (Unit {0})
enqueue input st =
    if is_empty input.outbox_topic
    then pure tt
    else wrap "ledger: Append: insert outbox"
        (on_tx (writing (λ _ db. record db { outbox = db.outbox ++ outbox_entry input st ∷ [] })))

-- `Append`, up to the cache invalidation that follows the commit
unfoldable pub append : LedgerEventInput → M Db Error String
append input = do
  guard (is_empty input.namespace) "ledger: Append: namespace required"
  wrap "ledger: Append: begin tx" begin
  st ← wrap "ledger: Append: insert event" (on_tx (insert_appended input))
  enqueue input st
  wrap "ledger: Append: commit" commit
  pure st.id
