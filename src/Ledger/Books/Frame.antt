-- ===== src/Ledger/Books/Frame.antt =====
-- The statements of go-core/internal/ledger that touch neither transactions nor the journal.
use thclaws_thai_ai_agent.Base.{String, ◌≡◌, List, [], ◌∷◌, arith}
use thclaws_thai_ai_agent.Base.Int.{ℤ}
use thclaws_thai_ai_agent.Sql.{
  SqlError, no_rows, Result, ok, err, Stamp, Query, recover, on_tx, reading, wrap, ◌>>=◌,
}
use thclaws_thai_ai_agent.Sql.Triple.{Triple, Triple-pure, Triple-raise, Triple-if, Triple-bind}
use thclaws_thai_ai_agent.Sql.Triple.Rules.{
  Triple-guard, Triple-on_tx, Triple-wrap, Triple-recover, Triple-recover-reading,
}
use thclaws_thai_ai_agent.Ledger.Tables.{AllocationInput, Allocation, Fields, LedgerEvent, Db}
use thclaws_thai_ai_agent.Ledger.Accounts.{AccountSpec}
use thclaws_thai_ai_agent.Ledger.Journal.{upsert_account, ensure_account}
use thclaws_thai_ai_agent.Ledger.Allocations.{
  Progress, after_lookup, validate_one, validate_from, validate_allocations, insert_allocation,
  insert_one, insert_allocations,
}
use thclaws_thai_ai_agent.Ledger.Events.{insert_event, insert_server_event, insert_ledger_event_tx}
use thclaws_thai_ai_agent.Ledger.Update.{clear_allocations}
use thclaws_thai_ai_agent.Ledger.Books.{Books, On}

-- `q` leaves the books alone
pub record Aside {A : Type 0} (q : Query Db A) : Type 0 where
  pub txs :
      (st : Stamp) (s : Db) (a : A) (s' : Db)
      → q st s ≡ ok (a, s')
      → s'.transactions ≡ s.transactions
  pub entries :
      (st : Stamp) (s : Db) (a : A) (s' : Db) → q st s ≡ ok (a, s') → s'.entries ≡ s.entries
  pub lines : (st : Stamp) (s : Db) (a : A) (s' : Db) → q st s ≡ ok (a, s') → s'.lines ≡ s.lines

Aside-keeps :
    (P : Books) {A : Type 0} {q : Query Db A}
    → Aside q
    → (st : Stamp) (s : Db) (a : A) (s' : Db) → On P s
    → q st s ≡ ok (a, s')
    → On P s'
Aside-keeps P h st s a s' p e =
    rw (h.txs st s a s' e) (rw (h.entries st s a s' e) (rw (h.lines st s a s' e) p))

upsert_account-Aside : (ns : String) (spec : AccountSpec) → Aside (upsert_account ns spec)
unfolding upsert_account
upsert_account-Aside ns spec = record {
  txs = λ st s a s' e. ground arith;
  entries = λ st s a s' e. ground arith;
  lines = λ st s a s' e. ground arith;
}

insert_allocation-Aside : (r : Allocation) → Aside (insert_allocation r)
unfolding insert_allocation
insert_allocation-Aside r = record {
  txs = λ st s a s' e. ground arith;
  entries = λ st s a s' e. ground arith;
  lines = λ st s a s' e. ground arith;
}

insert_event-Aside : (e : LedgerEvent) → Aside (insert_event e)
unfolding insert_event
insert_event-Aside e = record {
  txs = λ st s a s' h. ground arith;
  entries = λ st s a s' h. ground arith;
  lines = λ st s a s' h. ground arith;
}

insert_server_event-Aside : (ns u ty : String) (p : Fields) → Aside (insert_server_event ns u ty p)
insert_server_event-Aside ns u ty p = record {
  txs = λ st s a s' e. ground arith;
  entries = λ st s a s' e. ground arith;
  lines = λ st s a s' e. ground arith;
}

clear_allocations-Aside : (t u ns : String) → Aside (clear_allocations t u ns)
unfolding clear_allocations
clear_allocations-Aside t u ns = record {
  txs = λ st s a s' e. ground arith;
  entries = λ st s a s' e. ground arith;
  lines = λ st s a s' e. ground arith;
}

module _ (P : Books) where
  aside :
      {A : Type 0} (m : String) {q : Query Db A}
      → Aside q
      → Triple (On P) (wrap m (on_tx q)) (λ _. On P)
  aside m {q} h = Triple-wrap m (Triple-on_tx q (Aside-keeps P h))

  pub ensure_account-frame :
      (ns : String) (spec : AccountSpec) → Triple (On P) (ensure_account ns spec) (λ _. On P)
  unfolding ensure_account
  ensure_account-frame ns spec = aside _ (upsert_account-Aside ns spec)

  pub clear_allocations-frame :
      (m t u ns : String) → Triple (On P) (wrap m (on_tx (clear_allocations t u ns))) (λ _. On P)
  clear_allocations-frame m t u ns = aside m (clear_allocations-Aside t u ns)

  pub insert_ledger_event_tx-frame :
      (ns u ty : String) (p : Fields) → Triple (On P) (insert_ledger_event_tx ns u ty p) (λ _. On P)
  unfolding insert_ledger_event_tx
  insert_ledger_event_tx-frame ns u ty p = aside _ (insert_server_event-Aside ns u ty p)

  pub insert_event-frame :
      (e : LedgerEvent) → Triple (On P) (recover (on_tx (insert_event e))) (λ _. On P)
  insert_event-frame e = Triple-recover _ (Aside-keeps P (insert_event-Aside e))

  pub insert_event-aside :
      (m : String) (e : LedgerEvent) → Triple (On P) (wrap m (on_tx (insert_event e))) (λ _. On P)
  insert_event-aside m e = aside m (insert_event-Aside e)

  insert_one-frame :
      (u ns t : String) (x : ℤ) (a : AllocationInput)
      → Triple (On P) (insert_one u ns t x a) (λ _. On P)
  unfolding insert_one
  insert_one-frame u ns t x a = search (Triple-if, Triple-pure, aside, insert_allocation-Aside)

  pub insert_allocations-frame :
      (u ns t : String) (x : ℤ) (allots : List AllocationInput)
      → Triple (On P) (insert_allocations u ns t x allots) (λ _. On P)
  unfolding insert_allocations
  insert_allocations-frame u ns t x [] = Triple-pure tt
  insert_allocations-frame u ns t x (a ∷ rest) =
      Triple-bind (insert_one-frame u ns t x a) (λ _. insert_allocations-frame u ns t x rest)

-- `validateAllocations` writes nothing at all.
module _ (P : Db → Type 0) where
  after_lookup-frame :
      (p : Progress) (r : Result SqlError (Unit {0})) → Triple P (after_lookup p r) (λ _. P)
  after_lookup-frame p (ok _) = Triple-pure p
  after_lookup-frame p (err no_rows) = Triple-raise _ _
  after_lookup-frame p (err e) = Triple-raise _ _

  lookup-frame :
      (f : Db → Result SqlError (Unit {0})) (p : Progress)
      → Triple P (recover (on_tx (reading f)) >>= after_lookup p) (λ _. P)
  lookup-frame f p = Triple-bind (Triple-recover-reading f) (λ r. after_lookup-frame p r)

  validate_one-frame :
      (u ns : String) (p : Progress) (a : AllocationInput)
      → Triple P (validate_one u ns p a) (λ _. P)
  unfolding validate_one
  validate_one-frame u ns p a = search (Triple-if, Triple-pure, Triple-raise, lookup-frame)

  validate_from-frame :
      (u ns : String) (p : Progress) (allots : List AllocationInput)
      → Triple P (validate_from u ns p allots) (λ _. P)
  unfolding validate_from
  validate_from-frame u ns p [] = Triple-pure p
  validate_from-frame u ns p (a ∷ rest) =
      Triple-bind (validate_one-frame u ns p a) (λ q. validate_from-frame u ns q rest)

  pub validate_allocations-frame :
      (u ns : String) (x : ℤ) (allots : List AllocationInput)
      → Triple P (validate_allocations u ns x allots) (λ _. P)
  unfolding validate_allocations
  validate_allocations-frame u ns x allots =
      Triple-bind (validate_from-frame u ns _ allots) (λ p. Triple-guard _ _)
