-- ===== src/Ledger/Allocations/Bounded.antt =====
-- What `validateAllocations` of ledger/projects.go lets through: proofs.
use thclaws_thai_ai_agent.Base.{
  String, ◌≡◌, refl, Bool, true, false, List, [], ◌∷◌, if◌then◌else◌, arith, Bool-cases, inl, inr,
  ◌∙◌, subst,
}
use thclaws_thai_ai_agent.Base.Int.{ℤ, pos, ◌+ℤ◌, ltb_ℤ, int_laws, zero_left}
use thclaws_thai_ai_agent.Base.Text.{trim_space}
use thclaws_thai_ai_agent.Sql.{pure, SqlError, no_rows, Error, Result, ok, err, World}
use thclaws_thai_ai_agent.Sql.Triple.{Triple, Triple-raise, Triple-if, Triple-bind, Triple-weaken}
use thclaws_thai_ai_agent.Sql.Triple.Rules.{Triple-guard-passed, Triple-recover-reading}
use thclaws_thai_ai_agent.Ledger.Tables.{AllocationInput, Db}
use thclaws_thai_ai_agent.Ledger.Allocations.{
  Progress, skipped, seen_before, after_lookup, validate_one, validate_from, validate_allocations,
}

-- The amounts that `insertAllocations` will write.
unfoldable pub kept_sum : List AllocationInput → ℤ
kept_sum [] = pos 0
kept_sum (a ∷ rest) = (if skipped a then pos 0 else a.amount) +ℤ kept_sum rest

-- The project ids of those, in the order of the input, each of them once.
unfoldable pub kept_projects : List AllocationInput → List String
kept_projects [] = []
kept_projects (a ∷ rest) =
    if skipped a then kept_projects rest else trim_space a.project_id ∷ kept_projects rest

-- The ids are different from each other and from those seen before.
unfoldable pub is_fresh : List String → List String → Bool
is_fresh seen [] = true
is_fresh seen (k ∷ ks) = if seen_before k seen then false else is_fresh (k ∷ seen) ks

abbrev added : Progress → AllocationInput → Progress
added p a = if skipped a then p else (trim_space a.project_id ∷ p.0, p.1 +ℤ a.amount)

-- What one round is known to have done when it succeeds.
abbrev Added : Progress → AllocationInput → Progress → Db → Type 0
Added p a q _ =
    (q ≡ added p a) × (skipped a ≡ false → seen_before (trim_space a.project_id) p.0 ≡ false)

same_ok : (p q : Progress) → ◌≡◌ {A = Result Error Progress} (ok p) (ok q) → p ≡ q
same_ok p q e = ground arith

returns :
    (Q : Progress → Db → Type 0) (p : Progress)
    → ((s : Db) → Q p s)
    → Triple {E = Error} (λ _. Unit {0}) (pure p) Q
unfolding pure
returns Q p h = record { after = λ w a u e. subst (λ q. Q q w.work) (same_ok p a e) (h w.work) }

after_lookup-adds :
    (Q : Progress → Db → Type 0) (p : Progress) (r : Result SqlError (Unit {0}))
    → ((s : Db) → Q p s)
    → Triple (λ _. Unit {0}) (after_lookup p r) Q
after_lookup-adds Q p (ok _) h = returns Q p h
after_lookup-adds Q p (err no_rows) h = Triple-raise _ _
after_lookup-adds Q p (err e) h = Triple-raise _ _

validate_one-adds :
    (u ns : String) (p : Progress) (a : AllocationInput)
    → Triple (λ _. Unit {0}) (validate_one u ns p a) (Added p a)
unfolding validate_one
validate_one-adds u ns p a =
    Triple-if (skipped a) (λ s. returns (Added p a) p (λ _. (rw s refl, λ n. cc)))
      (λ s.
        Triple-if (seen_before (trim_space a.project_id) p.0) (λ b. Triple-raise _ _)
          (λ b. Triple-bind (Triple-recover-reading _) λ r.
            after_lookup-adds (Added p a) (trim_space a.project_id ∷ p.0, p.1 +ℤ a.amount) r
              (λ _. (rw s refl, λ n. b))))

-- From progress `p` to progress `q` over these inputs.
abbrev Passed : Progress → List AllocationInput → Progress → Db → Type 0
Passed p allots q _ = (q.1 ≡ p.1 +ℤ kept_sum allots) × (is_fresh p.0 (kept_projects allots) ≡ true)

no_more : (a : ℤ) → a ≡ a +ℤ pos 0
no_more a = omega int_laws

regroup : (a b c : ℤ) → (a +ℤ b) +ℤ c ≡ a +ℤ (b +ℤ c)
regroup a b c = omega int_laws

pass_on :
    (p q r : Progress) (a : AllocationInput) (rest : List AllocationInput) (s : Db)
    → Added p a q s
    → Passed q rest r s
    → Passed p (a ∷ rest) r s
unfolding kept_sum kept_projects is_fresh
pass_on p q r a rest s h k = elim (Bool-cases (skipped a)) [
  | inl t ↦
      let from_p = subst (λ z. Passed z rest r s) (rw t at h.0) k in
      rw (t, zero_left (kept_sum rest)) from_p
  | inr f ↦
      let from_p = subst (λ z. Passed z rest r s) (rw f at h.0) k in
      rw (f, h.1 f) (from_p.0 ∙ regroup p.1 a.amount (kept_sum rest), from_p.1)
]

validate_from-passes :
    (u ns : String) (p : Progress) (allots : List AllocationInput)
    → Triple (λ _. Unit {0}) (validate_from u ns p allots) (Passed p allots)
unfolding validate_from kept_sum kept_projects is_fresh
validate_from-passes u ns p [] = returns (Passed p []) p (λ _. (no_more p.1, refl))
validate_from-passes u ns p (a ∷ rest) = Triple-bind (validate_one-adds u ns p a) λ q. record {
  after =
      λ w r h e. pass_on p q r a rest w.work h ((validate_from-passes u ns q rest).after w r tt e);
}

validates :
    (u ns : String) (x : ℤ) (allots : List AllocationInput)
    → Triple
        (λ _. Unit {0})
        (validate_allocations u ns x allots)
        (λ _ _.
          (ltb_ℤ (x +ℤ pos 1) (kept_sum allots) ≡ false)
          × (is_fresh [] (kept_projects allots) ≡ true))
unfolding validate_allocations
validates u ns x allots = Triple-bind (validate_from-passes u ns ([], pos 0) allots) λ p.
    Triple-weaken (Triple-guard-passed _ _) λ _ s h.
      (subst (λ z. ltb_ℤ (x +ℤ pos 1) z ≡ false) (h.0.0 ∙ zero_left (kept_sum allots)) h.1, h.0.1)

-- When `validateAllocations` succeeds, the amounts that will be written add up to no more than the
-- amount of the transaction and one satang, and no project takes part twice.
pub validate_allocations-bounded :
    (u ns : String) (x : ℤ) (allots : List AllocationInput) (w : World Db)
    → (validate_allocations u ns x allots w).0 ≡ ok tt
    → (ltb_ℤ (x +ℤ pos 1) (kept_sum allots) ≡ false) × (is_fresh [] (kept_projects allots) ≡ true)
validate_allocations-bounded u ns x allots w e = (validates u ns x allots).after w tt tt e
