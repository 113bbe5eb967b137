-- ===== src/Ledger/Journal.antt =====
-- Double entry of ledger/writer.go: accounts, journal entries and their lines.
use thclaws_thai_ai_agent.Base.{
  String, Bool, false, Option, none, some, ◌∷◌, ◌&&◌, ◌||◌, str_eq, if◌then◌else◌, find_first,
  update_where, exists, ◌==◌,
}
use thclaws_thai_ai_agent.Base.Int.{ℤ, pos, ltb_ℤ}
use thclaws_thai_ai_agent.Base.Text.{nullable_string}
use thclaws_thai_ai_agent.Sql.{
  Error, plain, ok, err, unique_violation, check_violation, Query, M, pure, raise, on_tx, wrap,
  ◌>>=◌, ◌>>◌,
}
use thclaws_thai_ai_agent.Ledger.Tables.{WriteTxInput, ChartAccount, JournalEntry, JournalLine, Db}
use thclaws_thai_ai_agent.Ledger.Accounts.{AccountSpec, cash_account, account_for_transaction}

abbrev pub is_account : String → String → ChartAccount → Bool
is_account namespace code a = str_eq a.namespace namespace && str_eq a.code code

abbrev described : AccountSpec → ChartAccount → ChartAccount
described spec a = record a {
  name = spec.name;
  account_type = spec.account_type;
  normal_balance = spec.normal_balance;
}

-- INSERT INTO chart_accounts … ON CONFLICT (namespace, code) DO UPDATE … RETURNING id
unfoldable pub upsert_account : String → AccountSpec → Query Db String
upsert_account namespace spec st db =
    elim (find_first (is_account namespace spec.code) db.accounts) [
      | some a ↦ ok (
        a.id,
        record db {
          accounts = update_where (is_account namespace spec.code) (described spec) db.accounts;
        },
      )
      | none ↦ ok (
        st.id,
        record db {
          accounts =
              record {
                id = st.id;
                namespace = namespace;
                code = spec.code;
                name = spec.name;
                account_type = spec.account_type;
                normal_balance = spec.normal_balance;
              }
              ∷ db.accounts;
        },
      )
    ]

-- `ensureAccount`
unfoldable pub ensure_account : String → AccountSpec → M Db Error String
ensure_account namespace spec =
    wrap "ledger writer: ensure account" (on_tx (upsert_account namespace spec))

abbrev zero_amount : ℤ → Bool
zero_amount (pos n) = n == 0
zero_amount _ = false

-- CHECK of journal_lines: one side is positive, the other zero
unfoldable pub one_sided : ℤ → ℤ → Bool
one_sided debit credit =
    (ltb_ℤ (pos 0) debit && zero_amount credit) || (ltb_ℤ (pos 0) credit && zero_amount debit)

unfoldable pub insert_line : JournalLine → Query Db (Unit {0})
unfolding one_sided
insert_line l st db =
    if one_sided l.debit l.credit
    then ok (tt, record db { lines = l ∷ db.lines })
    else err check_violation

-- `insertJournalLine`
unfoldable pub insert_journal_line :
    String → String → String → ℤ → ℤ → String → M Db Error (Unit {0})
insert_journal_line journal_id namespace account_id debit credit memo =
    wrap "ledger writer: insert journal line" (
      on_tx (
        insert_line (record {
          journal_entry_id = journal_id;
          namespace = namespace;
          account_id = account_id;
          debit = debit;
          credit = credit;
          memo = memo;
        })))

abbrev same_cause : String → Option String → JournalEntry → Bool
same_cause namespace none e = false
same_cause namespace (some c) e = elim e.causation_id [
  | none ↦ false
  | some d ↦ str_eq e.namespace namespace && str_eq d c
]

-- INSERT INTO journal_entries …, with the unique index on (namespace, causationId)
unfoldable pub insert_entry : WriteTxInput → String → Query Db String
unfolding nullable_string
insert_entry tx tx_id st db =
    if exists (same_cause tx.namespace (nullable_string tx.causation_id)) db.entries
    then err unique_violation
    else ok (
      st.id,
      record db {
        entries =
            record {
              id = st.id;
              namespace = tx.namespace;
              user_id = tx.user_id;
              agent_id = nullable_string tx.agent_id;
              source_transaction_id = tx_id;
              memo = tx.note;
              status = "POSTED";
              causation_id = nullable_string tx.causation_id;
              occurred_at = tx.happened_at;
            }
            ∷ db.entries;
      },
    )

-- The `switch in.Type` of `createJournalEntry`.
unfoldable pub post_lines : WriteTxInput → String → String → String → M Db Error (Unit {0})
post_lines tx journal_id cash_id target_id =
    if str_eq tx.tx_type "INCOME"
    then (do
      insert_journal_line journal_id tx.namespace cash_id tx.amount (pos 0) tx.note
      insert_journal_line journal_id tx.namespace target_id (pos 0) tx.amount tx.note)
    else if str_eq tx.tx_type "EXPENSE"
    then (do
      insert_journal_line journal_id tx.namespace target_id tx.amount (pos 0) tx.note
      insert_journal_line journal_id tx.namespace cash_id (pos 0) tx.amount tx.note)
    else raise (plain "ledger writer: unsupported transaction type for journal")

-- `createJournalEntry`
unfoldable pub create_journal_entry : WriteTxInput → String → M Db Error String
create_journal_entry tx tx_id = do
  cash_id ← ensure_account tx.namespace cash_account
  target_id ← ensure_account tx.namespace (account_for_transaction tx.tx_type tx.category)
  journal_id ← wrap "ledger writer: insert journal entry" (on_tx (insert_entry tx tx_id))
  post_lines tx journal_id cash_id target_id
  pure journal_id
