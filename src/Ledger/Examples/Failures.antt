-- ===== src/Ledger/Examples/Failures.antt =====
-- Calls of the ledger that fail, and the theorems on failures at those inputs.
use thclaws_thai_ai_agent.Base.{◌≡◌, refl, none, some, [], ◌∷◌}
use thclaws_thai_ai_agent.Base.Int.{◌+ℤ◌}
use thclaws_thai_ai_agent.Base.Text.{trim_space, to_upper, nullable_string}
use thclaws_thai_ai_agent.Sql.{
  unavailable, wrapped, err, World, pure, guard, recover, on_tx, begin, wrap, ◌>>=◌,
}
use thclaws_thai_ai_agent.Ledger.Tables.{end, Db}
use thclaws_thai_ai_agent.Ledger.Journal.{upsert_account, ensure_account, create_journal_entry}
use thclaws_thai_ai_agent.Ledger.Allocations.{validate_from, validate_allocations}
use thclaws_thai_ai_agent.Ledger.Writer.{personal_row}
use thclaws_thai_ai_agent.Ledger.Events.{
  insert_ledger_event_tx, enqueue, LedgerEventInput, insert_appended, append,
}
use thclaws_thai_ai_agent.Ledger.Update.{
  validate_transaction_update, select_target, revise, update_transaction, remove,
  delete_transaction, soft_delete, cleaned, update_transaction_row, void_entries, clear_allocations,
}
use thclaws_thai_ai_agent.Ledger.Atomic.{update_transaction_atomic}
use thclaws_thai_ai_agent.Ledger.Examples.{no_rows_at_all, world, coffee, dearer, fourth_fails}

-- One transaction, "b" of "u"; the fourth statement of a database transaction fails.
abbrev failing : World Db
failing = world fourth_fails (record no_rows_at_all { transactions = personal_row coffee "b" ∷ [] })

update_fails :
    (update_transaction dearer "e" failing).0
    ≡ err (wrapped "ledger writer: ensure account" unavailable)
unfolding update_transaction validate_transaction_update revise select_target cleaned guard recover
    begin on_tx wrap ◌>>=◌ trim_space to_upper pure validate_allocations validate_from
    update_transaction_row void_entries create_journal_entry ensure_account upsert_account ◌+ℤ◌
update_fails = refl

update_transaction_atomic_example : (update_transaction dearer "e" failing).1.db ≡ failing.db
update_transaction_atomic_example = update_transaction_atomic dearer "e" failing _ update_fails

delete_fails :
    (delete_transaction "u" "n" "b" failing).0 ≡ err (wrapped "ledger event: insert" unavailable)
unfolding delete_transaction remove soft_delete void_entries clear_allocations
    insert_ledger_event_tx guard recover begin on_tx wrap ◌>>=◌
delete_fails = refl

abbrev slip : LedgerEventInput
slip = record {
  namespace = "n";
  user_id = "u";
  event_type = "slip.attached";
  payload = end;
  outbox_topic = "slip.image";
  correlation_id = "";
  causation_id = "";
}

-- The insert into the outbox fails.
abbrev third_fails : World Db
third_fails = world (none ∷ none ∷ some unavailable ∷ []) no_rows_at_all

append_fails :
    (append slip third_fails).0 ≡ err (wrapped "ledger: Append: insert outbox" unavailable)
unfolding append insert_appended enqueue guard begin on_tx wrap ◌>>=◌ nullable_string
append_fails = refl
