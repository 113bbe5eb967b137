-- ===== src/Ledger/Check.antt =====
-- `fetchLedgerCheck` of ledger/dashboard.go: the debits and credits of the posted entries.
use thclaws_thai_ai_agent.Base.{
  ℕ, String, ◌≡◌, refl, Bool, true, List, [], ◌∷◌, ◌&&◌, str_eq, leb, keep, arith,
}
use thclaws_thai_ai_agent.Base.Int.{ℤ, pos, ◌+ℤ◌, leb_ℤ}
use thclaws_thai_ai_agent.Sql.{Error, ok, M, on_pool, reading, wrap}
use thclaws_thai_ai_agent.Ledger.Tables.{JournalEntry, JournalLine, Db}
use thclaws_thai_ai_agent.Ledger.Books.{debits, credits, On, IsSound, IsBalanced}

-- `LedgerCheck`, but for its text
pub record LedgerCheck : Type 0 where
  pub debit : ℤ
  pub credit : ℤ
  pub balanced : Bool

-- WHERE je.namespace = $1 AND je.status = 'POSTED' AND je."occurredAt" BETWEEN …
abbrev pub is_checked : String → ℕ → ℕ → JournalEntry → Bool
is_checked namespace from to e =
    str_eq e.namespace namespace
    && str_eq e.status "POSTED"
    && leb from e.occurred_at
    && leb e.occurred_at to

-- SUM over the join of the entries with their lines
unfoldable pub sum_debits : List JournalEntry → List JournalLine → ℤ
sum_debits [] ls = pos 0
sum_debits (e ∷ es) ls = debits e.id ls +ℤ sum_debits es ls

unfoldable pub sum_credits : List JournalEntry → List JournalLine → ℤ
sum_credits [] ls = pos 0
sum_credits (e ∷ es) ls = credits e.id ls +ℤ sum_credits es ls

-- `math.Abs(debit-credit) < 0.01` is a difference of less than one satang.
unfoldable pub check_of : ℤ → ℤ → LedgerCheck
check_of debit credit = record {
  debit = debit;
  credit = credit;
  balanced = leb_ℤ debit credit && leb_ℤ credit debit;
}

unfoldable pub select_check : String → ℕ → ℕ → Db → LedgerCheck
select_check namespace from to db =
    let es = keep (is_checked namespace from to) db.entries in
    check_of (sum_debits es db.lines) (sum_credits es db.lines)

-- `fetchLedgerCheck`
unfoldable pub fetch_ledger_check : String → ℕ → ℕ → M Db Error LedgerCheck
unfolding select_check
fetch_ledger_check namespace from to =
    wrap "ledger dashboard: ledger check"
      (on_pool (reading (λ db. ok (select_check namespace from to db))))

sums_agree :
    (es : List JournalEntry) (ls : List JournalLine)
    → IsBalanced [] [] ls
    → sum_debits es ls ≡ sum_credits es ls
unfolding sum_debits sum_credits
sums_agree [] ls h = refl
sums_agree (e ∷ es) ls h = rw (h e.id, sums_agree es ls h)

leb_refl : (a : ℤ) → (leb_ℤ a a && leb_ℤ a a) ≡ true
leb_refl a = ground arith

-- On sound books the check of the dashboard passes, for every namespace and every range of times.
pub ledger_check_passes :
    (namespace : String) (from to : ℕ) (db : Db)
    → On IsSound db
    → ((select_check namespace from to db).balanced ≡ true)
      × ((select_check namespace from to db).debit ≡ (select_check namespace from to db).credit)
unfolding select_check check_of
ledger_check_passes namespace from to db h =
    let same = sums_agree (keep (is_checked namespace from to) db.entries) db.lines h.balanced in
    (
      rw same (leb_refl (sum_credits (keep (is_checked namespace from to) db.entries) db.lines)),
      same,
    )
