-- ===== src/Ledger/Writer/Recorded.antt =====
-- The event that a `CreatePersonalTransaction` of ledger/writer.go leaves: proofs.
use thclaws_thai_ai_agent.Base.{
  String, Bool, true, false, ◌≡◌, refl, sym, ◌∙◌, subst, some, List, [], ◌∷◌, ◌++◌, str_eq, eq_iff,
  eq_refl, find_first, exists, if◌then◌else◌, arith, Bool-cases, inl, inr,
}
use thclaws_thai_ai_agent.Base.Text.{is_empty, nullable_string}
use thclaws_thai_ai_agent.Sql.{
  SqlError, no_rows, unique_violation, check_violation, in_failed_tx, unavailable, Result, ok, err,
  World, Query, pure, raise, begin, rollback, commit, on_tx, on_pool, recover, reading, wrap,
}
use thclaws_thai_ai_agent.Sql.Leaves.{Leaves, Anywhere, Leaves-bind, Leaves-then}
use thclaws_thai_ai_agent.Sql.Triple.Rules.{on_tx_succeeded}
use thclaws_thai_ai_agent.Sql.Quiet.{Quiet-on_tx}
use thclaws_thai_ai_agent.Sql.Pooled.{on_pool_succeeded, was_read}
use thclaws_thai_ai_agent.Ledger.Tables.{WriteTxInput, Fields, Db}
use thclaws_thai_ai_agent.Ledger.Events.{
  is_recorded, event_clash, select_recorded, insert_event, transaction_id_of,
}
use thclaws_thai_ai_agent.Ledger.Writer.{
  with_defaults, recorded_payload, recorded_event, payload_id, find_existing_transaction_id,
  conclude, record_transaction, answer_or_record, record_once, create_personal_transaction,
}

-- The first event of a causation is that of the transaction `id`.
unfoldable pub IsRecordedAs : String → String → String → Db → Type 0
IsRecordedAs namespace cause id db =
    (payload : Fields) × (select_recorded namespace cause db ≡ ok payload)
    × (transaction_id_of payload ≡ id)

find_last :
    {A : Type 0} (p : A → Bool) (x : A) (xs : List A)
    → exists p xs ≡ false
    → p x ≡ true
    → find_first p (xs ++ x ∷ []) ≡ some x
find_last p x [] n h = rw h refl
find_last p x (y ∷ ys) n h = elim (Bool-cases (p y)) [
  | inl k ↦ let q : true ≡ false = rw k at n in cc
  | inr k ↦ rw k (find_last p x ys (rw k at n) h)
]

caused-nullable : (s : String) → is_empty s ≡ false → nullable_string s ≡ some s
unfolding nullable_string
caused-nullable s h = elim (Bool-cases (str_eq s "")) [
  | inl k ↦ let e : s ≡ "" = (eq_iff s "").0 k in let q : true ≡ false = rw e at h in cc
  | inr k ↦ rw k refl
]

ok_inj : {E A : Type 0} {a b : A} → ◌≡◌ {A = Result E A} (ok a) (ok b) → a ≡ b
ok_inj e = cc

not_refused :
    (b : Bool) (x : SqlError) (s t : Db)
    → ◌≡◌ {A = Result SqlError (Unit {0} × Db)} (if b then err x else ok (tt, s)) (ok (tt, t))
    → (b ≡ false) × (s ≡ t)
not_refused true x s t e = cc
not_refused false x s t e = (refl, cc)

module _ (tx : WriteTxInput) (caused : is_empty tx.causation_id ≡ false) where
  Recorded : String → World Db → Type 0
  Recorded id w = IsRecordedAs tx.namespace tx.causation_id id w.db

  -- The open transaction has the event, if it was inserted.
  Logged : String → Result SqlError (Unit {0}) → World Db → Type 0
  Logged id r w = (r ≡ ok tt) → IsRecordedAs tx.namespace tx.causation_id id w.work

  inserted :
      (id journal_id : String) (db : Db)
      → exists (is_recorded tx.namespace tx.causation_id) db.events ≡ false
      → IsRecordedAs tx.namespace tx.causation_id id
          (record db { events = db.events ++ recorded_event tx id journal_id ∷ [] })
  unfolding IsRecordedAs select_recorded transaction_id_of recorded_payload
  inserted id journal_id db n = (
    recorded_payload tx id journal_id,
    rw
        (
          select_recorded,
          find_last (is_recorded tx.namespace tx.causation_id) (recorded_event tx id journal_id)
              db.events n
              (rw
                (
                  caused-nullable tx.causation_id caused,
                  eq_refl tx.namespace,
                  eq_refl tx.causation_id,
                )
                refl),
        )
        refl,
    refl,
  )

  did_insert :
      (id journal_id : String) (w : World Db) (db : Db)
      → insert_event
          (recorded_event tx id journal_id)
          (record { id = w.uuid w.drawn; now = w.clock })
          w.work
        ≡ ok (tt, db)
      → (exists (is_recorded tx.namespace tx.causation_id) w.work.events ≡ false)
        × (record w.work { events = w.work.events ++ recorded_event tx id journal_id ∷ [] } ≡ db)
  unfolding insert_event
  did_insert id journal_id w db e =
      let clash : event_clash (recorded_event tx id journal_id) w.work.events
          ≡ exists (is_recorded tx.namespace tx.causation_id) w.work.events =
        rw (caused-nullable tx.causation_id caused) refl in
      let (new, same) =
        not_refused (event_clash (recorded_event tx id journal_id) w.work.events) _ _ _ e in
      (sym clash ∙ new, same)

  Leaves-insert :
      (id journal_id : String)
      → Leaves Anywhere
          (recover (on_tx (insert_event (recorded_event tx id journal_id))))
          (Logged id)
  unfolding Logged recover
  Leaves-insert id journal_id = record {
    after = λ w r p e f.
        let q = insert_event (recorded_event tx id journal_id) in
        let (new, same) =
          did_insert id journal_id w (on_tx q w).1.work (on_tx_succeeded q w tt (ok_inj e ∙ f)) in
        subst (IsRecordedAs tx.namespace tx.causation_id id) same
          (inserted id journal_id w.work new);
  }

  Found : Result SqlError Fields → World Db → Type 0
  Found r w =
      (payload : Fields)
      → r ≡ ok payload
      → select_recorded tx.namespace tx.causation_id w.db ≡ ok payload

  Leaves-payload : (r : Result SqlError Fields) → Leaves (Found r) (payload_id r) Recorded
  unfolding Found Recorded IsRecordedAs pure raise
  Leaves-payload (ok payload) = record { after = λ w id h e. (payload, h payload refl, ok_inj e) }
  Leaves-payload (err x) = record { after = λ w id h e. cc }

  Leaves-find : Leaves Anywhere (find_existing_transaction_id tx.namespace tx.causation_id) Recorded
  unfolding find_existing_transaction_id recover Found
  Leaves-find =
      Leaves-bind {R = Found}
        (record {
          after = λ w r p e payload f.
              let q : Query Db Fields = reading (select_recorded tx.namespace tx.causation_id) in
              let (found, same) =
                was_read (select_recorded tx.namespace tx.causation_id)
                  (record { id = w.uuid w.drawn; now = w.clock }) w.db payload (on_pool q w).1.db
                  (on_pool_succeeded q w payload (ok_inj e ∙ f)) in
              subst (λ db. select_recorded tx.namespace tx.causation_id db ≡ ok payload) same found;
        })
        Leaves-payload

  committed :
      (m : String) (w : World Db) (a : Unit {0})
      → (wrap m commit w).0 ≡ ok a
      → w.work ≡ (wrap m commit w).1.db
  unfolding wrap commit
  committed m w a e = ground arith

  Leaves-conclude :
      (id : String) (r : Result SqlError (Unit {0}))
      → Leaves (Logged id r) (conclude tx id r) Recorded
  unfolding conclude pure raise Logged Recorded
  Leaves-conclude id (ok tt) =
      Leaves-bind {R = λ _ w. IsRecordedAs tx.namespace tx.causation_id id w.db}
        (record {
          after = λ w a p e.
              subst (IsRecordedAs tx.namespace tx.causation_id id) (committed _ w a e) (p refl);
        })
        λ _. record {
          after =
              λ w b p e. subst (λ x. IsRecordedAs tx.namespace tx.causation_id x w.db) (ok_inj e) p;
        }
  Leaves-conclude id (err unique_violation) = rw caused (Leaves-then rollback λ _. Leaves-find)
  Leaves-conclude id (err no_rows) = record { after = λ w a p e. cc }
  Leaves-conclude id (err check_violation) = record { after = λ w a p e. cc }
  Leaves-conclude id (err in_failed_tx) = record { after = λ w a p e. cc }
  Leaves-conclude id (err unavailable) = record { after = λ w a p e. cc }

  Leaves-record : Leaves Anywhere (record_transaction tx) Recorded
  unfolding record_transaction
  Leaves-record = Leaves-then _ λ tx_id. Leaves-then _ λ journal_id.
      Leaves-then _
        λ _. Leaves-then _ λ _. Leaves-bind (Leaves-insert tx_id journal_id) (Leaves-conclude tx_id)

  Leaves-answer : (r : Result SqlError Fields) → Leaves (Found r) (answer_or_record tx r) Recorded
  unfolding answer_or_record Found Recorded IsRecordedAs pure
  Leaves-answer (ok payload) = record { after = λ w id h e. (payload, h payload refl, ok_inj e) }
  Leaves-answer (err x) = record { after = λ w id h e. Leaves-record.after w id tt e }

  Leaves-once : Leaves (λ w. w.work ≡ w.db) (record_once tx) Recorded
  unfolding record_once recover Found
  Leaves-once = rw caused (
      Leaves-bind {R = Found}
        (record {
          after = λ w r same e payload f.
              let q : Query Db Fields = reading (select_recorded tx.namespace tx.causation_id) in
              let (found, _) =
                was_read (select_recorded tx.namespace tx.causation_id)
                  (record { id = w.uuid w.drawn; now = w.clock }) w.work payload (on_tx q w).1.work
                  (on_tx_succeeded q w payload (ok_inj e ∙ f)) in
              subst (λ db. select_recorded tx.namespace tx.causation_id db ≡ ok payload)
                (same ∙ sym ((Quiet-on_tx q).same w)) found;
        })
        Leaves-answer)

began :
    (m : String) (w : World Db) (a : Unit {0})
    → (wrap m begin w).0 ≡ ok a
    → (wrap m begin w).1.work ≡ (wrap m begin w).1.db
unfolding wrap begin
began m w a e = ground arith

pub create_personal_transaction-IsRecordedAs :
    (input : WriteTxInput) (w : World Db) (id : String)
    → is_empty input.causation_id ≡ false
    → (create_personal_transaction input w).0 ≡ ok id
    → IsRecordedAs input.namespace input.causation_id id (create_personal_transaction input w).1.db
unfolding create_personal_transaction with_defaults Recorded
create_personal_transaction-IsRecordedAs input w id caused e =
    (Leaves-then {P = Anywhere} {Q = λ i v. IsRecordedAs input.namespace input.causation_id i v.db}
        _
        λ _. Leaves-then _ λ t.
          Leaves-bind {R = λ _ v. v.work ≡ v.db} (record { after = λ v a p e. began _ v a e })
            (λ _. Leaves-once (with_defaults t input) caused)).after
      w id tt e
