-- ===== src/Ledger/Resolve/Resolved.antt =====
-- `ResolveProjectAllocations` of ledger/projects.go writes at most a project.
use thclaws_thai_ai_agent.Base.{String, List, [], ◌∷◌, Bool, true, false, if◌then◌else◌}
use thclaws_thai_ai_agent.Base.Int.{ℤ}
use thclaws_thai_ai_agent.Sql.{M}
use thclaws_thai_ai_agent.Sql.Quiet.{Quiet-pure}
use thclaws_thai_ai_agent.Sql.Pooled.{Steps, Steps-Quiet, Steps-bind}
use thclaws_thai_ai_agent.Ledger.Tables.{Project, Db}
use thclaws_thai_ai_agent.Ledger.Projects.{ProjectInput, create_project}
use thclaws_thai_ai_agent.Ledger.Reads.{list_active_projects-Quiet}
use thclaws_thai_ai_agent.Ledger.Resolve.{matched_or_new, resolve_project_allocations}

Steps-if :
    {S E A : Type 0} {R : S → S → Type 0} (b : Bool) {m n : M S E A}
    → Steps R m
    → Steps R n
    → Steps R (if b then m else n)
Steps-if true hm hn = hm
Steps-if false hm hn = hn

module _ {R : String → Db → Db → Type 0} (same : (u : String) (s : Db) → R u s s)
    (then_to : (v : String) (s t u : Db) → R v s t → R v t u → R v s u)
    (made : (p : ProjectInput) → Steps (R p.user_id) (create_project p)) where
  matched_or_new-Steps :
      (u ns name : String) (amount : ℤ) (ps : List Project)
      → Steps (R u) (matched_or_new u ns name amount ps)
  matched_or_new-Steps u ns name amount (p ∷ ps) = Steps-Quiet (same _) (Quiet-pure _)
  matched_or_new-Steps u ns name amount [] =
      Steps-if _ (Steps-Quiet (same _) (Quiet-pure _))
        (Steps-bind (then_to _) (made _) (λ p. Steps-Quiet (same _) (Quiet-pure _)))

  pub resolve_project_allocations-Steps :
      (u ns content : String) (amount : ℤ)
      → Steps (R u) (resolve_project_allocations u ns content amount)
  unfolding resolve_project_allocations
  resolve_project_allocations-Steps u ns content amount =
      Steps-if _ (Steps-Quiet (same _) (Quiet-pure _)) (
        Steps-bind (then_to _) (Steps-Quiet (same _) (list_active_projects-Quiet u ns))
          (λ ps. matched_or_new-Steps u ns _ amount _))
