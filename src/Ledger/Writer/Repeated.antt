-- ===== src/Ledger/Writer/Repeated.antt =====
-- `CreatePersonalTransaction` of ledger/writer.go, called again: proofs.
use thclaws_thai_ai_agent.Base.{String, false, ◌≡◌, refl, ◌∙◌, ap, [], ◌||◌}
use thclaws_thai_ai_agent.Base.Text.{is_empty}
use thclaws_thai_ai_agent.Sql.{ok, World, pure, guard, time_now, begin, on_tx, recover, wrap, ◌>>=◌}
use thclaws_thai_ai_agent.Ledger.Tables.{WriteTxInput, Fields, Db}
use thclaws_thai_ai_agent.Ledger.Events.{select_recorded, transaction_id_of}
use thclaws_thai_ai_agent.Ledger.Writer.{
  with_defaults, answer_or_record, record_once, create_personal_transaction,
}
use thclaws_thai_ai_agent.Ledger.Writer.Recorded.{
  IsRecordedAs, create_personal_transaction-IsRecordedAs,
}

answers :
    (input : WriteTxInput) (w : World Db) (payload : Fields)
    → (is_empty input.user_id || is_empty input.namespace) ≡ false
    → is_empty input.causation_id ≡ false
    → w.faults ≡ []
    → select_recorded input.namespace input.causation_id w.db ≡ ok payload
    → ((create_personal_transaction input w).0 ≡ ok (transaction_id_of payload))
      × ((create_personal_transaction input w).1.db ≡ w.db)
unfolding create_personal_transaction record_once guard time_now begin on_tx recover wrap ◌>>=◌ pure
    with_defaults answer_or_record select_recorded transaction_id_of
answers input w payload named caused healthy found =
    rw (named, healthy) (rw caused (rw found (refl, refl)))

-- `CreatePersonalTransaction` is idempotent in its causation id. When a call with one has succeeded,
-- a further call on the tables it left, with the same namespace and causation id, whatever else it is
-- given, returns the id that the first one returned and changes nothing, if the user and the
-- namespace are there and no call of it fails.
pub create_personal_transaction-repeated :
    (input again : WriteTxInput) (w v : World Db) (id : String)
    → is_empty input.causation_id ≡ false
    → (create_personal_transaction input w).0 ≡ ok id
    → v.db ≡ (create_personal_transaction input w).1.db
    → v.faults ≡ []
    → (is_empty again.user_id || is_empty again.namespace) ≡ false
    → again.namespace ≡ input.namespace
    → again.causation_id ≡ input.causation_id
    → ((create_personal_transaction again v).0 ≡ ok id)
      × ((create_personal_transaction again v).1.db ≡ v.db)
unfolding IsRecordedAs
create_personal_transaction-repeated input again w v id caused first left healthy named ns cause =
    let (payload, found, is_id) =
      create_personal_transaction-IsRecordedAs input w id caused first in
    let (same_id, same_db) =
      answers again v payload named (ap is_empty cause ∙ caused) healthy
        (rw (ns, cause, left) found) in
    (same_id ∙ ap (λ x. ok x) is_id, same_db)
