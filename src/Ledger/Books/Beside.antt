-- ===== src/Ledger/Books/Beside.antt =====
-- The handlers of go-core/internal/ledger that touch neither transactions nor the journal.
use thclaws_thai_ai_agent.Base.{String, ◌≡◌, refl, ◌∙◌, arith}
use thclaws_thai_ai_agent.Sql.{Error, ok, Stamp, Query, M, recover, on_pool, wrap}
use thclaws_thai_ai_agent.Sql.Quiet.{Quiet, quiet_rules}
use thclaws_thai_ai_agent.Sql.Pooled.{Steps, Steps-Quiet, Steps-bind, Steps-on_pool}
use thclaws_thai_ai_agent.Ledger.Tables.{Fields, HouseholdTx, Project, Db}
use thclaws_thai_ai_agent.Ledger.Events.{insert_server_event, append_ledger_event}
use thclaws_thai_ai_agent.Ledger.Projects.{ProjectInput, insert_project, create_project}
use thclaws_thai_ai_agent.Ledger.Household.{
  HouseholdTransactionInput, insert_household_tx, create_household_transaction,
}
use thclaws_thai_ai_agent.Ledger.Books.{Books, On}

-- The same transactions and the same journal.
pub record SameBooks (s t : Db) : Type 0 where
  pub txs : t.transactions ≡ s.transactions
  pub entries : t.entries ≡ s.entries
  pub lines : t.lines ≡ s.lines

SameBooks-refl : (s : Db) → SameBooks s s
SameBooks-refl s = record { txs = refl; entries = refl; lines = refl }

SameBooks-trans : (s t u : Db) → SameBooks s t → SameBooks t u → SameBooks s u
SameBooks-trans s t u h k = record {
  txs = k.txs ∙ h.txs;
  entries = k.entries ∙ h.entries;
  lines = k.lines ∙ h.lines;
}

pub SameBooks-On : (P : Books) (s t : Db) → SameBooks s t → On P s → On P t
SameBooks-On P s t h p = rw (h.txs, h.entries, h.lines) p

pub Steps-recover :
    {A : Type 0} {R : Db → Db → Type 0} (q : Query Db A)
    → ((s : Db) → R s s)
    → ((st : Stamp) (s : Db) (a : A) (s' : Db) → q st s ≡ ok (a, s') → R s s')
    → Steps R (recover (on_pool q))
unfolding recover wrap
Steps-recover q r h = record { after = (Steps-on_pool "" q r h).after }

insert_project-SameBooks :
    (p : ProjectInput) (st : Stamp) (s : Db) (a : Project) (s' : Db)
    → insert_project p st s ≡ ok (a, s')
    → SameBooks s s'
unfolding insert_project
insert_project-SameBooks p st s a s' e = record {
  txs = ground arith;
  entries = ground arith;
  lines = ground arith;
}

insert_server_event-SameBooks :
    (ns u k : String) (d : Fields) (st : Stamp) (s : Db) (a : Unit {0}) (s' : Db)
    → insert_server_event ns u k d st s ≡ ok (a, s')
    → SameBooks s s'
insert_server_event-SameBooks ns u k d st s a s' e = record {
  txs = ground arith;
  entries = ground arith;
  lines = ground arith;
}

insert_household_tx-SameBooks :
    (row : String → HouseholdTx) (st : Stamp) (s : Db) (a : String) (s' : Db)
    → insert_household_tx row st s ≡ ok (a, s')
    → SameBooks s s'
unfolding insert_household_tx
insert_household_tx-SameBooks row st s a s' e = record {
  txs = ground arith;
  entries = ground arith;
  lines = ground arith;
}

Quiet-step : {A : Type 0} {m : M Db Error A} → Quiet m → Steps SameBooks m
Quiet-step q = Steps-Quiet SameBooks-refl q

pub create_project-SameBooks : (p : ProjectInput) → Steps SameBooks (create_project p)
unfolding create_project append_ledger_event
create_project-SameBooks p = Steps-bind SameBooks-trans (Quiet-step (search quiet_rules)) (λ a.
    Steps-bind SameBooks-trans (Steps-on_pool _ _ SameBooks-refl (insert_project-SameBooks p)) (λ b.
      Steps-bind SameBooks-trans
        (Steps-recover _ SameBooks-refl (insert_server_event-SameBooks _ _ _ _))
        (λ c. Quiet-step (search quiet_rules))))

pub create_household_transaction-SameBooks :
    (u h : String) (i : HouseholdTransactionInput)
    → Steps SameBooks (create_household_transaction u h i)
unfolding create_household_transaction
create_household_transaction-SameBooks u h i =
    Steps-bind SameBooks-trans (Quiet-step (search quiet_rules)) (λ a.
      Steps-bind SameBooks-trans (Quiet-step (search quiet_rules)) (λ b.
        Steps-bind SameBooks-trans (Quiet-step (search quiet_rules)) (λ c.
          Steps-bind SameBooks-trans (Quiet-step (search quiet_rules)) (λ d.
            Steps-bind SameBooks-trans (Quiet-step (search quiet_rules))
              (λ t. Steps-on_pool _ _ SameBooks-refl (insert_household_tx-SameBooks _))))))
