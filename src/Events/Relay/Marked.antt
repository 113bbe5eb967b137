-- ===== src/Events/Relay/Marked.antt =====
-- Which rows the relay of events/outbox_relay.go marks as published: proofs.
use thclaws_thai_ai_agent.Base.{
  ℕ, ◌+◌, String, ◌≡◌, refl, Bool, true, false, not, ◌&&◌, Option, none, some, List, [], ◌∷◌, ◌++◌,
  ◌==◌, arith, if◌then◌else◌, exists, update_where, Bool-cases, Option-cases, inl, inr, ◌⊎◌, sym,
  subst,
}
use thclaws_thai_ai_agent.Base.Text.{is_empty}
use thclaws_thai_ai_agent.Ledger.Tables.{Fields}
use thclaws_thai_ai_agent.Events.Relay.{
  OutboxRow, Message, Relay, published, waits, row_id, fetch_pending, text_field, mark_published,
  bump_attempts, publish_row, process_envelope, process_row, process_rows, drain_once,
}
use thclaws_thai_ai_agent.Events.Relay.Delivery.{message_of}

-- A row with this id that is marked as published.
abbrev pub is_done : ℕ → OutboxRow → Bool
is_done k x = x.id == k && not (waits x.status)

pub Within : Message → List Message → Type 0
Within m [] = ⊥
Within m (x ∷ xs) = (m ≡ x) ⊎ Within m xs

-- A row with id `k` of the batch names its namespace, and its message is among those sent.
pub IsSentFor : ℕ → List OutboxRow → List Message → Type 0
IsSentFor k [] sent = ⊥
IsSentFor k (row ∷ rest) sent =
    ((row.id ≡ k)
      × ((envelope : Fields) × (row.payload ≡ some envelope)
          × (is_empty (text_field "Namespace" envelope) ≡ false)
          × Within (message_of row.topic envelope) sent))
    ⊎ IsSentFor k rest sent

Within-left : (m : Message) (xs ys : List Message) → Within m xs → Within m (xs ++ ys)
unfolding Within
Within-left m [] ys h = absurd h
Within-left m (x ∷ xs) ys (inl e) = inl e
Within-left m (x ∷ xs) ys (inr h) = inr (Within-left m xs ys h)

Within-last : (m : Message) (xs : List Message) → Within m (xs ++ m ∷ [])
unfolding Within
Within-last m [] = inl refl
Within-last m (x ∷ xs) = inr (Within-last m xs)

marked :
    (k id : ℕ) (xs : List OutboxRow)
    → exists (is_done k) (
        update_where
          (row_id id)
          (λ (x : OutboxRow). record x { status = published; last_error = none })
          xs)
      ≡ true
    → (exists (is_done k) xs ≡ true) ⊎ (id ≡ k)
marked k id [] e = inl e
marked k id (x ∷ xs) e = elim (Bool-cases (x.id == id)) [
  | inl p ↦ ground (arith, marked k id xs)
  | inr p ↦ ground (arith, marked k id xs)
]

bumped :
    (k id : ℕ) (m : String) (xs : List OutboxRow)
    → exists (is_done k) (
        update_where
          (row_id id)
          (λ (x : OutboxRow). record x { attempts = x.attempts + 1; last_error = some m })
          xs)
      ≡ true
    → exists (is_done k) xs ≡ true
bumped k id m [] e = e
bumped k id m (x ∷ xs) e = ground (arith, bumped k id m xs)

either_rows :
    (k : ℕ) (b : Bool) (xs ys : List OutboxRow)
    → exists (is_done k) (if b then xs else ys) ≡ true
    → (exists (is_done k) xs ≡ true) ⊎ (exists (is_done k) ys ≡ true)
either_rows k true xs ys e = inl e
either_rows k false xs ys e = inr e

module _ (publish : ℕ → Option String) (writable : ℕ → Bool) where
  mark_published-marks :
      (k id : ℕ) (r : Relay)
      → exists (is_done k) (mark_published publish writable id r).rows ≡ true
      → (exists (is_done k) r.rows ≡ true) ⊎ (id ≡ k)
  unfolding mark_published
  mark_published-marks k id r e = elim (either_rows k (writable r.updates) _ r.rows e) [
    | inl h ↦ marked k id r.rows h
    | inr h ↦ inl h
  ]

  bump_attempts-marks :
      (k id : ℕ) (m : String) (r : Relay)
      → exists (is_done k) (bump_attempts publish writable id m r).rows ≡ true
      → exists (is_done k) r.rows ≡ true
  unfolding bump_attempts
  bump_attempts-marks k id m r e = elim (either_rows k (writable r.updates) _ r.rows e) [
    | inl h ↦ bumped k id m r.rows h
    | inr h ↦ h
  ]

  publish_row-accepted :
      (id : ℕ) (m : Message) (r : Relay)
      → publish r.calls ≡ none
      → ((publish_row publish writable id m r).sent ≡ r.sent ++ m ∷ [])
        × ((publish_row publish writable id m r).rows
            ≡ (mark_published publish writable id
                (record r { calls = r.calls + 1; sent = r.sent ++ m ∷ [] })).rows)
  unfolding publish_row mark_published
  publish_row-accepted id m r p = rw (publish_row, p) (refl, refl)

  publish_row-rejected :
      (id : ℕ) (m : Message) (x : String) (r : Relay)
      → publish r.calls ≡ some x
      → ((publish_row publish writable id m r).sent ≡ r.sent)
        × ((publish_row publish writable id m r).rows
            ≡ (bump_attempts publish writable id x (record r { calls = r.calls + 1 })).rows)
  unfolding publish_row bump_attempts
  publish_row-rejected id m x r p = rw (publish_row, p) (refl, refl)

  publish_row-marks :
      (k id : ℕ) (m : Message) (r : Relay)
      → exists (is_done k) (publish_row publish writable id m r).rows ≡ true
      → (exists (is_done k) r.rows ≡ true)
        ⊎ ((id ≡ k) × Within m (publish_row publish writable id m r).sent)
  publish_row-marks k id m r e = elim (Option-cases (publish r.calls)) [
    | inl p ↦
        let did = publish_row-accepted id m r p in
        elim (mark_published-marks k id _
          (subst (λ rows. exists (is_done k) rows ≡ true) did.1 e)) [
            | inl h ↦ inl h
            | inr h ↦ inr (h, subst (Within m) (sym did.0) (Within-last m r.sent))
          ]
    | inr (x, p) ↦
        let did = publish_row-rejected id m x r p in
        inl (bump_attempts-marks k id x _ (subst (λ rows. exists (is_done k) rows ≡ true) did.1 e))
  ]

  publish_row-grows :
      (n m : Message) (id : ℕ) (r : Relay)
      → Within n r.sent
      → Within n (publish_row publish writable id m r).sent
  publish_row-grows n m id r h = elim (Option-cases (publish r.calls)) [
    | inl p ↦
        subst (Within n) (sym (publish_row-accepted id m r p).0) (Within-left n r.sent (m ∷ []) h)
    | inr (x, p) ↦ subst (Within n) (sym (publish_row-rejected id m x r p).0) h
  ]

  process_row-publishes :
      (row : OutboxRow) (envelope : Fields) (r : Relay)
      → row.payload ≡ some envelope
      → is_empty (text_field "Namespace" envelope) ≡ false
      → process_row publish writable row r
        ≡ publish_row publish writable row.id (message_of row.topic envelope) r
  unfolding process_row process_envelope
  process_row-publishes row envelope r p n = rw (p, n) refl

  process_row-marks :
      (k : ℕ) (row : OutboxRow) (r : Relay)
      → exists (is_done k) (process_row publish writable row r).rows ≡ true
      → (exists (is_done k) r.rows ≡ true)
        ⊎ ((row.id ≡ k)
            × ((envelope : Fields) × (row.payload ≡ some envelope)
                × (is_empty (text_field "Namespace" envelope) ≡ false)
                × Within (message_of row.topic envelope) (process_row publish writable row r).sent))
  unfolding process_row process_envelope
  process_row-marks k row r e = elim (Option-cases row.payload) [
    | inl p ↦ inl (bump_attempts-marks k row.id _ r (rw p at e))
    | inr (envelope, p) ↦ elim (Bool-cases (is_empty (text_field "Namespace" envelope))) [
      | inl n ↦ inl (bump_attempts-marks k row.id _ r (rw (p, n) at e))
      | inr n ↦
          let same = process_row-publishes row envelope r p n in
          elim (publish_row-marks k row.id (message_of row.topic envelope) r
            (subst (λ q. exists (is_done k) q.rows ≡ true) same e)) [
              | inl h ↦ inl h
              | inr h ↦ inr (
                h.0,
                (
                  envelope,
                  p,
                  n,
                  subst (λ q. Within (message_of row.topic envelope) q.sent) (sym same) h.1,
                ),
              )
            ]
    ]
  ]

  process_row-grows :
      (m : Message) (row : OutboxRow) (r : Relay)
      → Within m r.sent
      → Within m (process_row publish writable row r).sent
  unfolding process_row process_envelope bump_attempts
  process_row-grows m row r h = elim (Option-cases row.payload) [
    | inl p ↦ rw (process_row, p) h
    | inr (envelope, p) ↦ elim (Bool-cases (is_empty (text_field "Namespace" envelope))) [
      | inl n ↦ rw (process_row, p, n) h
      | inr n ↦
          subst (λ q. Within m q.sent) (sym (process_row-publishes row envelope r p n))
            (publish_row-grows m _ row.id r h)
    ]
  ]

  process_rows-grows :
      (m : Message) (rows : List OutboxRow) (r : Relay)
      → Within m r.sent
      → Within m (process_rows publish writable rows r).sent
  unfolding process_rows
  process_rows-grows m [] r h = h
  process_rows-grows m (row ∷ rest) r h = process_rows-grows m rest _ (process_row-grows m row r h)

  process_rows-marks :
      (k : ℕ) (rows : List OutboxRow) (r : Relay)
      → exists (is_done k) (process_rows publish writable rows r).rows ≡ true
      → (exists (is_done k) r.rows ≡ true)
        ⊎ IsSentFor k rows (process_rows publish writable rows r).sent
  unfolding process_rows IsSentFor
  process_rows-marks k [] r e = inl e
  process_rows-marks k (row ∷ rest) r e =
      elim (process_rows-marks k rest (process_row publish writable row r) e) [
        | inr h ↦ inr (inr h)
        | inl h ↦ elim (process_row-marks k row r h) [
          | inl g ↦ inl g
          | inr g ↦ inr (inl (g.0, (g.1.0, g.1.1, g.1.2, process_rows-grows _ rest _ g.1.3)))
        ]
      ]

  -- A row that is marked as published after a drain was so before, or its message was accepted:
  -- it is a row of the batch whose payload names its namespace, and the message made of it is among
  -- those sent.
  pub drain_once-IsSentFor :
      (k batch_size : ℕ) (r : Relay)
      → exists (is_done k) (drain_once publish writable true batch_size r).1.rows ≡ true
      → (exists (is_done k) r.rows ≡ true)
        ⊎ IsSentFor k
            (fetch_pending batch_size r)
            (drain_once publish writable true batch_size r).1.sent
  unfolding drain_once
  drain_once-IsSentFor k batch_size r e = process_rows-marks k (fetch_pending batch_size r) r e
