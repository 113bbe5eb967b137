-- ===== src/Ledger/Tenants/Writes.antt =====
-- The handlers of go-core/internal/ledger that a chat calls, and the rows of the other users.
use thclaws_thai_ai_agent.Base.{String, false, ◌≡◌, refl, ◌∙◌, str_eq}
use thclaws_thai_ai_agent.Sql.{SqlError, unique_violation, Error, Result, ok, err, M}
use thclaws_thai_ai_agent.Sql.Quiet.{Quiet, quiet_rules}
use thclaws_thai_ai_agent.Sql.Triple.{Safe, Safe-Quiet, Safe-if, Safe-bind, Keeps, Keeps-bind}
use thclaws_thai_ai_agent.Sql.Triple.Rules.{Triple-recover-reading, Safe-commit, Keeps-begin}
use thclaws_thai_ai_agent.Sql.Pooled.{Steps, Steps-Quiet, Steps-bind, Steps-on_pool}
use thclaws_thai_ai_agent.Ledger.Tables.{WriteTxInput, Fields, Db}
use thclaws_thai_ai_agent.Ledger.Writer.{
  conclude, record_transaction, answer_or_record, record_once, create_personal_transaction,
  personal_row, with_defaults,
}
use thclaws_thai_ai_agent.Ledger.Business.{
  BusinessTxInput, business_row, write_in, record_business, create_business_transaction,
}
use thclaws_thai_ai_agent.Ledger.Projects.{ProjectInput, create_project}
use thclaws_thai_ai_agent.Ledger.Household.{HouseholdTransactionInput, create_household_transaction}
use thclaws_thai_ai_agent.Ledger.Events.{append_ledger_event}
use thclaws_thai_ai_agent.Ledger.Atomic.{quiet_steps}
use thclaws_thai_ai_agent.Ledger.Books.Frame.{validate_allocations-frame}
use thclaws_thai_ai_agent.Ledger.Books.Beside.{Steps-recover}
use thclaws_thai_ai_agent.Ledger.Tenants.{rows_of}
use thclaws_thai_ai_agent.Ledger.Tenants.Foreign.{
  insert_transaction-Foreign, insert_event-Foreign, insert_server_event-Foreign,
  insert_project-Foreign, insert_household_tx-Foreign,
}
use thclaws_thai_ai_agent.Ledger.Tenants.Same.{
  Same, foreign, recover-Foreign, create_journal_entry-Same, insert_allocations-Same,
}

-- Every user but `u` keeps what it has.
unfoldable pub OthersKept : String → Db → Db → Type 0
OthersKept u s t = (v : String) → str_eq u v ≡ false → rows_of v t ≡ rows_of v s

module _ (v : String) (s : Db) where
  conclude-Same :
      (tx : WriteTxInput) (id : String) (r : Result SqlError (Unit {0}))
      → Safe (Same v s) (Same v s) (conclude tx id r)
  unfolding conclude
  conclude-Same tx id (ok _) = Safe-commit _ id (λ s h. h)
  conclude-Same tx id (err unique_violation) = Safe-Quiet (search quiet_steps)
  conclude-Same tx id (err e) = Safe-Quiet (search quiet_steps)

  record_transaction-Same :
      (tx : WriteTxInput)
      → str_eq tx.user_id v ≡ false
      → Safe (Same v s) (Same v s) (record_transaction tx)
  unfolding record_transaction
  record_transaction-Same tx n =
      Safe-bind (search quiet_steps)
        (foreign v s _ (insert_transaction-Foreign n (personal_row tx) (λ i. refl)))
        λ id. Safe-bind (search quiet_steps) (create_journal_entry-Same v s _ n tx id refl) λ j.
          Safe-bind (search quiet_steps) (validate_allocations-frame (Same v s) _ _ _ _) λ _.
            Safe-bind (search quiet_steps) (insert_allocations-Same v s _ n _ id _ _) λ _.
              Safe-bind (search quiet_steps) (recover-Foreign v s (insert_event-Foreign n _ refl))
                λ r. conclude-Same tx id r

  answer_or_record-Same :
      (tx : WriteTxInput) (r : Result SqlError Fields)
      → str_eq tx.user_id v ≡ false
      → Safe (Same v s) (Same v s) (answer_or_record tx r)
  unfolding answer_or_record
  answer_or_record-Same tx (ok p) n = Safe-Quiet (search quiet_steps)
  answer_or_record-Same tx (err e) n = record_transaction-Same tx n

  record_once-Same :
      (tx : WriteTxInput)
      → str_eq tx.user_id v ≡ false
      → Safe (Same v s) (Same v s) (record_once tx)
  unfolding record_once
  record_once-Same tx n = Safe-if _ (record_transaction-Same tx n) (
      Safe-bind (search quiet_steps) (Triple-recover-reading _) (λ r. answer_or_record-Same tx r n))

  record_business-Same :
      (u b : String) (i : BusinessTxInput)
      → str_eq u v ≡ false
      → Safe (Same v s) (Same v s) (record_business u b i)
  unfolding record_business
  record_business-Same u b i n =
      Safe-bind (search quiet_steps)
        (foreign v s _ (insert_transaction-Foreign n (business_row u b i) (λ i. refl)))
        λ id.
          Safe-bind (search quiet_steps)
            (create_journal_entry-Same v s _ n (write_in u b i) id refl)
            λ j. Safe-bind (search quiet_steps) (validate_allocations-frame (Same v s) _ _ _ _) λ _.
              Safe-bind (search quiet_steps) (insert_allocations-Same v s _ n _ id _ _) λ _.
                Safe-bind (search quiet_steps) (foreign v s _ (insert_event-Foreign n _ refl))
                  λ _. Safe-commit _ id (λ s h. h)

pub create_personal_transaction-OthersKept :
    (tx : WriteTxInput) → Steps (OthersKept tx.user_id) (create_personal_transaction tx)
unfolding OthersKept
create_personal_transaction-OthersKept tx = record {
  after = λ w v n. (whole v w.db n).after w refl;
}
  where
    whole :
        (v : String) (s : Db)
        → str_eq tx.user_id v ≡ false
        → Keeps (Same v s) (create_personal_transaction tx)
    whole v s n =
        unfold create_personal_transaction with_defaults in
        Keeps-bind (search quiet_steps)
          λ _. Keeps-bind (search quiet_steps) λ t. Keeps-begin _ (record_once-Same v s _ n)

pub create_business_transaction-OthersKept :
    (u b : String) (i : BusinessTxInput) → Steps (OthersKept u) (create_business_transaction u b i)
unfolding OthersKept
create_business_transaction-OthersKept u b i = record {
  after = λ w v n. (whole v w.db n).after w refl;
}
  where
    whole :
        (v : String) (s : Db)
        → str_eq u v ≡ false
        → Keeps (Same v s) (create_business_transaction u b i)
    whole v s n =
        unfold create_business_transaction in
        Keeps-bind (search quiet_rules) λ _. Keeps-bind (search quiet_rules) λ _.
          Keeps-bind (search quiet_rules) λ t. Keeps-bind (search quiet_rules) λ owner.
            Keeps-bind (search quiet_rules) λ _. Keeps-begin _ (record_business-Same v s u b _ n)

pub OthersKept-refl : (u : String) (s : Db) → OthersKept u s s
unfolding OthersKept
OthersKept-refl u s v n = refl

pub OthersKept-trans :
    (u : String) (s t r : Db) → OthersKept u s t → OthersKept u t r → OthersKept u s r
unfolding OthersKept
OthersKept-trans u s t r h k v n = k v n ∙ h v n

quiet : {A : Type 0} (u : String) {m : M Db Error A} → Quiet m → Steps (OthersKept u) m
quiet u q = Steps-Quiet (OthersKept-refl u) q

pub create_project-OthersKept : (p : ProjectInput) → Steps (OthersKept p.user_id) (create_project p)
unfolding create_project append_ledger_event OthersKept
create_project-OthersKept p =
    Steps-bind (OthersKept-trans p.user_id) (quiet p.user_id (search quiet_rules)) (λ a.
      Steps-bind (OthersKept-trans p.user_id)
        (Steps-on_pool _ _ (OthersKept-refl p.user_id)
          (λ st s a s' e v n. (insert_project-Foreign n p refl).same st s a s' e))
        (λ b.
          Steps-bind (OthersKept-trans p.user_id)
            (Steps-recover _ (OthersKept-refl p.user_id)
              (λ st s a s' e v n. (insert_server_event-Foreign n _ _ _).same st s a s' e))
            (λ c. quiet p.user_id (search quiet_rules))))

pub create_household_transaction-OthersKept :
    (u h : String) (i : HouseholdTransactionInput)
    → Steps (OthersKept u) (create_household_transaction u h i)
unfolding create_household_transaction OthersKept
create_household_transaction-OthersKept u h i =
    Steps-bind (OthersKept-trans u) (quiet u (search quiet_rules)) (λ a.
      Steps-bind (OthersKept-trans u) (quiet u (search quiet_rules)) (λ b.
        Steps-bind (OthersKept-trans u) (quiet u (search quiet_rules)) (λ c.
          Steps-bind (OthersKept-trans u) (quiet u (search quiet_rules)) (λ d.
            Steps-bind (OthersKept-trans u) (quiet u (search quiet_rules)) (λ t.
              Steps-on_pool _ _ (OthersKept-refl u) (λ st s a s' e v n.
                (insert_household_tx-Foreign n _ (λ i. refl)).same st s a s' e))))))
