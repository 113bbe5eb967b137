-- ===== src/Events/Relay.antt =====
-- The outbox relay of events/outbox_relay.go, over the table `event_outbox`.
--
-- The decoded payload of a row is `none` where `json.Unmarshal` into a map fails. NATS is the
-- parameter `publish`: the error, if any, of the n-th call of `Publish`. Whether the n-th UPDATE of
-- the store succeeds is the parameter `writable`: the store only logs a failure.
pub mod Blocked
pub mod Delivery
pub mod Marked
use thclaws_thai_ai_agent.Base.{
  ℕ, ◌+◌, String, Bool, true, false, Option, none, some, List, [], ◌∷◌, ◌++◌, ◌==◌, str_eq,
  if◌then◌else◌, length, take, keep, update_where, leb,
}
use thclaws_thai_ai_agent.Base.Text.{is_empty}
use thclaws_thai_ai_agent.Ledger.Tables.{Json, str, Fields, end, field}
use thclaws_thai_ai_agent.Events.Subject.{build_subject}

pub data Status : Type 0 where
  pending published : Status

-- A row of `event_outbox`, in the order of `id`.
pub record OutboxRow : Type 0 where
  pub id : ℕ
  pub topic : String
  pub payload : Option Fields
  pub status : Status
  pub attempts : ℕ
  pub last_error : Option String

-- What NATS has accepted.
pub record Message : Type 0 where
  pub subject : String
  pub envelope : Fields

pub data Metric : Type 0 where
  recorded_published recorded_failure recorded_skipped : String → Metric

pub record Relay : Type 0 where
  pub rows : List OutboxRow
  pub sent : List Message
  pub calls : ℕ
  pub updates : ℕ
  pub metrics : List Metric

abbrev pub waits : Status → Bool
waits pending = true
waits published = false

-- WHERE status = 'pending'
abbrev pub is_pending : OutboxRow → Bool
is_pending r = waits r.status

abbrev pub row_id : ℕ → OutboxRow → Bool
row_id id r = r.id == id

-- `FetchPending`
unfoldable pub fetch_pending : ℕ → Relay → List OutboxRow
fetch_pending batch_size r = take batch_size (keep is_pending r.rows)

abbrev as_string : Json → String
as_string (str s) = s
as_string _ = ""

-- `envelope[key].(string)`, "" where it is missing or no text
unfoldable pub text_field : String → Fields → String
text_field key end = ""
text_field key (field k v rest) = if str_eq k key then as_string v else text_field key rest

module _ (publish : ℕ → Option String) (writable : ℕ → Bool) where
  abbrev update_row : (OutboxRow → OutboxRow) → ℕ → Relay → Relay
  update_row f id r = record r {
    rows = if writable r.updates then update_where (row_id id) f r.rows else r.rows;
    updates = r.updates + 1;
  }

  -- `MarkPublished`
  unfoldable pub mark_published : ℕ → Relay → Relay
  mark_published =
      update_row (λ (x : OutboxRow). record x { status = published; last_error = none })

  -- `BumpAttempts`
  unfoldable pub bump_attempts : ℕ → String → Relay → Relay
  bump_attempts id message =
      update_row
        (λ (x : OutboxRow). record x { attempts = x.attempts + 1; last_error = some message }) id

  abbrev pub measured : Metric → Relay → Relay
  measured m r = record r { metrics = r.metrics ++ m ∷ [] }

  -- `Publish`, and what `processRow` does with its answer.
  unfoldable pub publish_row : ℕ → Message → Relay → Relay
  unfolding mark_published bump_attempts
  publish_row id m r = elim (publish r.calls) [
    | some e ↦
        measured (recorded_failure m.subject)
          (bump_attempts id e (record r { calls = r.calls + 1 }))
    | none ↦
        measured (recorded_published m.subject)
          (mark_published id (record r { calls = r.calls + 1; sent = r.sent ++ m ∷ [] }))
  ]

  -- `processRow` from the test of the namespace on
  unfoldable pub process_envelope : OutboxRow → Fields → Relay → Relay
  unfolding publish_row
  process_envelope row envelope r =
      let namespace = text_field "Namespace" envelope in
      if is_empty namespace
      then measured (recorded_skipped "missing_namespace")
          (bump_attempts row.id "payload missing Namespace field" r)
      else publish_row row.id
          (record { subject = build_subject row.topic namespace; envelope = envelope }) r

  -- `processRow`
  unfoldable pub process_row : OutboxRow → Relay → Relay
  unfolding process_envelope
  process_row row r = elim row.payload [
    | none ↦
        measured (recorded_skipped "bad_json") (bump_attempts row.id "payload not valid JSON" r)
    | some envelope ↦ process_envelope row envelope r
  ]

  -- The loop of `DrainOnce`.
  unfoldable pub process_rows : List OutboxRow → Relay → Relay
  process_rows [] r = r
  process_rows (row ∷ rest) r = process_rows rest (process_row row r)

  -- `DrainOnce`; `none` is a failed fetch
  unfoldable pub drain_once : Bool → ℕ → Relay → Option ℕ × Relay
  drain_once readable batch_size r =
      if readable
      then (some (length (fetch_pending batch_size r)), process_rows (fetch_pending batch_size r) r)
      else (none, r)

-- What `Run` does after a drain.
pub data Next : Type 0 where
  at_once idle_sleep error_sleep : Next

unfoldable pub after_drain : ℕ → Option ℕ → Next
after_drain batch_size none = error_sleep
after_drain batch_size (some n) = if leb batch_size n then at_once else idle_sleep
