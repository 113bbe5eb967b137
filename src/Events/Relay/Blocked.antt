-- ===== src/Events/Relay/Blocked.antt =====
-- Rows without a namespace before the relay of events/outbox_relay.go: proofs.
use thclaws_thai_ai_agent.Base.{
  ℕ, zero, suc, ◌+◌, String, ◌≡◌, refl, Bool, true, Option, none, some, List, [], ◌∷◌, ◌==◌, take,
  keep, update_where, length, ap, ◌∙◌, sym, subst, Bool-cases, Option-cases, inl, inr,
}
use thclaws_thai_ai_agent.Base.Text.{is_empty}
use thclaws_thai_ai_agent.Ledger.Tables.{Fields}
use thclaws_thai_ai_agent.Ledger.Events.{LedgerEventInput, outbox_payload}
use thclaws_thai_ai_agent.Sql.{Stamp}
use thclaws_thai_ai_agent.Events.Relay.{
  OutboxRow, pending, Relay, waits, is_pending, row_id, fetch_pending, text_field, bump_attempts,
  process_row, process_rows, drain_once,
}

-- A payload that is no JSON object, or that has no text under "Namespace".
abbrev pub is_bad_payload : Option Fields → Bool
is_bad_payload none = true
is_bad_payload (some envelope) = is_empty (text_field "Namespace" envelope)

abbrev pub AllBad : List OutboxRow → Type 0
AllBad [] = Unit
AllBad (x ∷ xs) = (is_bad_payload x.payload ≡ true) × AllBad xs

-- What a bump leaves alone.
abbrev SameRows : List OutboxRow → List OutboxRow → Type 0
SameRows [] [] = Unit
SameRows (x ∷ xs) (y ∷ ys) = (x.payload ≡ y.payload) × (x.status ≡ y.status) × SameRows xs ys
SameRows _ _ = ⊥

SameRows-refl : (xs : List OutboxRow) → SameRows xs xs
SameRows-refl [] = tt
SameRows-refl (x ∷ xs) = (refl, refl, SameRows-refl xs)

SameRows-trans : (xs ys zs : List OutboxRow) → SameRows xs ys → SameRows ys zs → SameRows xs zs
SameRows-trans [] [] [] h k = tt
SameRows-trans (x ∷ xs) (y ∷ ys) (z ∷ zs) h k =
    (h.0 ∙ k.0, h.1 ∙ k.1, SameRows-trans xs ys zs h.2 k.2)
SameRows-trans [] [] (z ∷ zs) h k = k
SameRows-trans [] (y ∷ ys) zs h k = absurd h
SameRows-trans (x ∷ xs) [] zs h k = absurd h
SameRows-trans (x ∷ xs) (y ∷ ys) [] h k = absurd k

bumped :
    (id : ℕ) (e : String) (xs : List OutboxRow)
    → SameRows xs (
        update_where
          (row_id id)
          (λ (x : OutboxRow). record x { attempts = x.attempts + 1; last_error = some e })
          xs)
bumped id e [] = tt
bumped id e (x ∷ xs) = elim (Bool-cases (x.id == id)) [
  | inl p ↦ rw p (refl, refl, bumped id e xs)
  | inr p ↦ rw p (refl, refl, bumped id e xs)
]

module _ (publish : ℕ → Option String) (writable : ℕ → Bool) where
  bump-SameRows :
      (id : ℕ) (e : String) (r : Relay)
      → SameRows r.rows (bump_attempts publish writable id e r).rows
  unfolding bump_attempts
  bump-SameRows id e r = elim (Bool-cases (writable r.updates)) [
    | inl p ↦ rw p (bumped id e r.rows)
    | inr p ↦ rw p (SameRows-refl r.rows)
  ]

  bump-sent :
      (id : ℕ) (e : String) (r : Relay) → (bump_attempts publish writable id e r).sent ≡ r.sent
  unfolding bump_attempts
  bump-sent id e r = refl

  -- A bad row is bumped: nothing is sent, and no status changes.
  process_bad :
      (row : OutboxRow) (r : Relay)
      → is_bad_payload row.payload ≡ true
      → ((process_row publish writable row r).sent ≡ r.sent)
        × SameRows r.rows (process_row publish writable row r).rows
  unfolding process_row
  process_bad row r h = elim (Option-cases row.payload) [
    | inl p ↦ rw p (refl, bump-SameRows row.id _ r)
    | inr (env, p) ↦
        rw (p, subst (λ o. is_bad_payload o ≡ true) p h) (refl, bump-SameRows row.id _ r)
  ]

  process-AllBad :
      (xs : List OutboxRow) (r : Relay)
      → AllBad xs
      → ((process_rows publish writable xs r).sent ≡ r.sent)
        × SameRows r.rows (process_rows publish writable xs r).rows
  unfolding process_rows
  process-AllBad [] r h = (refl, SameRows-refl r.rows)
  process-AllBad (x ∷ xs) r h =
      let one = process_bad x r h.0 in
      let rest = process-AllBad xs (process_row publish writable x r) h.1 in
      (rest.0 ∙ one.0, SameRows-trans r.rows _ _ one.1 rest.1)

  SameRows-AllBad :
      (n : ℕ) (xs ys : List OutboxRow)
      → SameRows xs ys
      → AllBad (take n (keep is_pending xs))
      → AllBad (take n (keep is_pending ys))
        × (length (take n (keep is_pending xs)) ≡ length (take n (keep is_pending ys)))
  SameRows-AllBad n [] [] h b = (b, refl)
  SameRows-AllBad n [] (y ∷ ys) h b = absurd h
  SameRows-AllBad n (x ∷ xs) [] h b = absurd h
  SameRows-AllBad zero (x ∷ xs) (y ∷ ys) h b = (tt, refl)
  SameRows-AllBad (suc n) (x ∷ xs) (y ∷ ys) h b = elim (Bool-cases (is_pending x)) [
    | inl p ↦
        rw (p, sym (ap waits h.1) ∙ p)
          (let c = rw p at b in
            let ih = SameRows-AllBad n xs ys h.2 c.1 in
            ((ap is_bad_payload (sym h.0) ∙ c.0, ih.0), ap suc ih.1))
    | inr p ↦ rw (p, sym (ap waits h.1) ∙ p) (SameRows-AllBad (suc n) xs ys h.2 (rw p at b))
  ]

  -- The relay after `k` drains, each of which reads the table.
  unfoldable pub drains : ℕ → ℕ → Relay → Relay
  drains zero batch_size r = r
  drains (suc k) batch_size r =
      drains k batch_size (drain_once publish writable true batch_size r).1

  -- If every row of the batch is bad, the relay sends nothing however often it drains: the batch
  -- is fetched again, and what stands behind it in the table is never reached.
  pub drains-blocked :
      (k batch_size : ℕ) (r : Relay)
      → AllBad (fetch_pending batch_size r)
      → ((drains k batch_size r).sent ≡ r.sent)
        × AllBad (fetch_pending batch_size (drains k batch_size r))
        × (length (fetch_pending batch_size (drains k batch_size r))
            ≡ length (fetch_pending batch_size r))
  unfolding drains drain_once fetch_pending
  drains-blocked zero n r h = (refl, h, refl)
  drains-blocked (suc k) n r h =
      let first = process-AllBad (take n (keep is_pending r.rows)) r h in
      let again = SameRows-AllBad n r.rows _ first.1 h in
      let later = drains-blocked k n _ again.0 in
      (later.0 ∙ first.0, later.1, later.2 ∙ sym again.1)

outbox_payload-is_bad :
    (input : LedgerEventInput) (st : Stamp) → is_bad_payload (some (outbox_payload input st)) ≡ true
unfolding outbox_payload text_field
outbox_payload-is_bad input st = refl

-- The rows that calls of `Append` leave in the outbox, from `id` on.
pub rows_of : ℕ → List (LedgerEventInput × Stamp) → List OutboxRow
rows_of id [] = []
rows_of id ((input, st) ∷ rest) =
    record {
      id = id;
      topic = input.outbox_topic;
      payload = some (outbox_payload input st);
      status = pending;
      attempts = 0;
      last_error = none;
    }
    ∷ rows_of (suc id) rest

rows_of-AllBad :
    (n id : ℕ) (calls : List (LedgerEventInput × Stamp))
    → AllBad (take n (keep is_pending (rows_of id calls)))
unfolding rows_of
rows_of-AllBad zero id calls = tt
rows_of-AllBad (suc n) id [] = tt
rows_of-AllBad (suc n) id ((input, st) ∷ rest) =
    (outbox_payload-is_bad input st, rows_of-AllBad n (suc id) rest)

module _ (publish : ℕ → Option String) (writable : ℕ → Bool) where
  -- The relay never publishes an event that `Append` put into the outbox, however often it drains,
  -- for the payload has its namespace under "namespace" and the relay reads "Namespace".
  pub appended_never_sent :
      (k batch_size id : ℕ) (calls : List (LedgerEventInput × Stamp)) (r : Relay)
      → r.rows ≡ rows_of id calls
      → (drains publish writable k batch_size r).sent ≡ r.sent
  unfolding fetch_pending
  appended_never_sent k n id calls r h =
      (drains-blocked publish writable k n r (
        subst (λ rows. AllBad (take n (keep is_pending rows))) (sym h)
          (rows_of-AllBad n id calls))).0
