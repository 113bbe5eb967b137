-- ===== src/Ledger/Allocations/Checked.antt =====
-- `validateAllocations` of ledger/projects.go and the committed tables: proofs.
use thclaws_thai_ai_agent.Base.{String, List, [], ◌∷◌}
use thclaws_thai_ai_agent.Base.Int.{ℤ}
use thclaws_thai_ai_agent.Sql.{SqlError, no_rows, Result, ok, err}
use thclaws_thai_ai_agent.Sql.Quiet.{Quiet, Quiet-bind, quiet_rules}
use thclaws_thai_ai_agent.Ledger.Tables.{AllocationInput}
use thclaws_thai_ai_agent.Ledger.Allocations.{
  Progress, after_lookup, validate_one, validate_from, validate_allocations,
}

after_lookup-Quiet : (p : Progress) (r : Result SqlError (Unit {0})) → Quiet (after_lookup p r)
after_lookup-Quiet p (ok _) = search quiet_rules
after_lookup-Quiet p (err no_rows) = search quiet_rules
after_lookup-Quiet p (err e) = search quiet_rules

validate_one-Quiet :
    (u ns : String) (p : Progress) (a : AllocationInput) → Quiet (validate_one u ns p a)
unfolding validate_one
validate_one-Quiet u ns p a = search (quiet_rules, after_lookup-Quiet)

validate_from-Quiet :
    (u ns : String) (p : Progress) (allots : List AllocationInput)
    → Quiet (validate_from u ns p allots)
unfolding validate_from
validate_from-Quiet u ns p [] = search quiet_rules
validate_from-Quiet u ns p (a ∷ rest) =
    Quiet-bind _ _ (validate_one-Quiet u ns p a) (λ q. validate_from-Quiet u ns q rest)

pub validate_allocations-Quiet :
    (u ns : String) (x : ℤ) (allots : List AllocationInput)
    → Quiet (validate_allocations u ns x allots)
unfolding validate_allocations
validate_allocations-Quiet u ns x allots = search (quiet_rules, validate_from-Quiet)
