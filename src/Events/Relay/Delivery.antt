-- ===== src/Events/Relay/Delivery.antt =====
-- What the relay of events/outbox_relay.go has sent, and which rows it marks: proofs.
use thclaws_thai_ai_agent.Base.{
  ℕ, String, ◌≡◌, refl, Bool, true, Option, none, some, List, [], ◌∷◌, ◌++◌, arith, if◌then◌else◌,
  Bool-cases, Option-cases, inl, inr, ap, ◌∙◌, sym,
}
use thclaws_thai_ai_agent.Base.Text.{is_empty}
use thclaws_thai_ai_agent.Ledger.Tables.{Fields}
use thclaws_thai_ai_agent.Events.Subject.{build_subject}
use thclaws_thai_ai_agent.Events.Relay.{
  OutboxRow, Message, Relay, fetch_pending, text_field, mark_published, bump_attempts, publish_row,
  process_envelope, process_row, process_rows, drain_once,
}

-- The message of a row that names its namespace.
abbrev pub message_of : String → Fields → Message
message_of topic envelope = record {
  subject = build_subject topic (text_field "Namespace" envelope);
  envelope = envelope;
}

abbrev pub messages_of_row : OutboxRow → List Message
messages_of_row row = elim row.payload [
  | none ↦ []
  | some envelope ↦
      if is_empty (text_field "Namespace" envelope) then [] else message_of row.topic envelope ∷ []
]

-- The messages of a batch, in its order.
pub messages_of : List OutboxRow → List Message
messages_of [] = []
messages_of (row ∷ rest) = messages_of_row row ++ messages_of rest

append_nil : {A : Type 0} (xs : List A) → xs ++ [] ≡ xs
append_nil [] = refl
append_nil (x ∷ xs) = ap (λ ys. x ∷ ys) (append_nil xs)

append_assoc : {A : Type 0} (xs ys zs : List A) → (xs ++ ys) ++ zs ≡ xs ++ (ys ++ zs)
append_assoc [] ys zs = refl
append_assoc (x ∷ xs) ys zs = ap (λ ws. x ∷ ws) (append_assoc xs ys zs)

module _ (publish : ℕ → Option String) (writable : ℕ → Bool) where
  publish_row-sends :
      (id : ℕ) (m : Message) (r : Relay)
      → ((n : ℕ) → publish n ≡ none)
      → (publish_row publish writable id m r).sent ≡ r.sent ++ m ∷ []
  unfolding publish_row mark_published bump_attempts
  publish_row-sends id m r up = elim (Option-cases (publish r.calls)) [
    | inl p ↦ ground arith
    | inr (e, p) ↦ ground (arith, up r.calls)
  ]

  process_row-sends :
      (row : OutboxRow) (r : Relay)
      → ((n : ℕ) → publish n ≡ none)
      → (process_row publish writable row r).sent ≡ r.sent ++ messages_of_row row
  unfolding process_row process_envelope bump_attempts
  process_row-sends row r up = elim (Option-cases row.payload) [
    | inl p ↦ rw p (sym (append_nil r.sent))
    | inr (envelope, p) ↦ elim (Bool-cases (is_empty (text_field "Namespace" envelope))) [
      | inl e ↦ rw (p, e) (sym (append_nil r.sent))
      | inr e ↦ rw (p, e) (publish_row-sends row.id _ r up)
    ]
  ]

  process_rows-sends :
      (rows : List OutboxRow) (r : Relay)
      → ((n : ℕ) → publish n ≡ none)
      → (process_rows publish writable rows r).sent ≡ r.sent ++ messages_of rows
  unfolding process_rows messages_of
  process_rows-sends [] r up = sym (append_nil r.sent)
  process_rows-sends (row ∷ rest) r up =
      process_rows-sends rest (process_row publish writable row r) up
      ∙ ap (λ s. s ++ messages_of rest) (process_row-sends row r up)
      ∙ append_assoc r.sent (messages_of_row row) (messages_of rest)

  -- While NATS accepts every call, one drain sends exactly the messages of the rows that it
  -- fetched, in the order of their ids, one for each row that names its namespace.
  pub drain_once-sends :
      (batch_size : ℕ) (r : Relay)
      → ((n : ℕ) → publish n ≡ none)
      → (drain_once publish writable true batch_size r).1.sent
        ≡ r.sent ++ messages_of (fetch_pending batch_size r)
  unfolding drain_once
  drain_once-sends batch_size r up = process_rows-sends (fetch_pending batch_size r) r up
