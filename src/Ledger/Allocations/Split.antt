-- ===== src/Ledger/Allocations/Split.antt =====
-- `splitProjectAllocations` of ledger/projects.go: equal shares, the last takes what is left.
use native.Mathlib.Nat.{mul-div-le}
use thclaws_thai_ai_agent.Base.{
  false, ℕ, zero, suc, ◌+◌, ◌-◌, ◌*◌, ◌≤◌, arith, sym, ap, ◌∙◌, ◌/◌, ◌≡◌, refl, List, [], ◌∷◌,
  if◌then◌else◌, length,
}
use thclaws_thai_ai_agent.Base.Int.{zero_left, negsuc, ℤ, pos, pos_part, ◌+ℤ◌, ◌-ℤ◌, leb_ℤ}
use thclaws_thai_ai_agent.Ledger.Tables.{AllocationInput, Project}

-- The share of one project, by the projects behind it: `i == len(projects)-1` has none.
share : ℤ → ℤ → ℤ → List Project → ℤ
share amount each allocated [] = amount -ℤ allocated
share amount each allocated (_ ∷ _) = each

split_from : ℤ → ℤ → ℤ → List Project → List AllocationInput
unfolding share
split_from amount each allocated [] = []
split_from amount each allocated (p ∷ rest) =
    let v = share amount each allocated rest in
    let without = split_from amount each allocated rest in
    let with = split_from amount each (allocated +ℤ v) rest in
    if leb_ℤ v (pos 0)
    then without
    else record { project_id = p.id; amount = v; note = "auto from chat" } ∷ with

-- `math.Floor((amount/n)*100) / 100` is a division of satang that rounds down.
unfoldable pub split_project_allocations : List Project → ℤ → List AllocationInput
unfolding split_from
split_project_allocations [] amount = []
split_project_allocations (p ∷ rest) amount =
    if leb_ℤ amount (pos 0)
    then []
    else split_from amount (pos (pos_part amount / length (p ∷ rest))) (pos 0) (p ∷ rest)

unfoldable pub amounts : List AllocationInput → ℤ
amounts [] = pos 0
amounts (a ∷ rest) = a.amount +ℤ amounts rest

sum_ℤ : (a b : ℕ) → pos a +ℤ pos b ≡ pos (a + b)
unfolding ◌+ℤ◌
sum_ℤ a b = ground arith

positive : (v : ℕ) → leb_ℤ (pos (suc v)) (pos 0) ≡ false
positive v = ground arith

no_more : (l : ℕ) → l + 0 ≡ l
no_more l = omega arith

-- A share that is 0 is left out, which changes neither sum.
split_from-round :
    (am e l v : ℕ) (p : Project) (rest : List Project)
    → share (pos am) (pos e) (pos l) rest ≡ pos v
    → amounts (split_from (pos am) (pos e) (pos l) (p ∷ rest))
      ≡ pos v +ℤ amounts (split_from (pos am) (pos e) (pos (l + v)) rest)
unfolding amounts split_from
split_from-round am e l zero p rest h = rw (h, no_more l) (sym (zero_left _))
split_from-round am e l (suc v) p rest h = rw (h, sum_ℤ l (suc v), positive v) refl

-- What is allocated from `l` on is what was left, if the shares of all but the last fit into it.
split_from-amounts :
    (am e l : ℕ) (p : Project) (rest : List Project)
    → l + e * length rest ≤ am
    → amounts (split_from (pos am) (pos e) (pos l) (p ∷ rest)) ≡ pos (am - l)
split_from-amounts am e l p [] h =
    split_from-round am e l (am - l) p [] (unfold share ◌-ℤ◌ in ground arith)
    ∙ unfold amounts split_from ◌+ℤ◌ in ground arith
split_from-amounts am e l p (q ∷ rest) h =
    split_from-round am e l e p (q ∷ rest) (unfold share in refl)
    ∙ ap (λ x. pos e +ℤ x) (split_from-amounts am e (l + e) q rest (grind arith))
    ∙ sum_ℤ e (am - (l + e))
    ∙ ap pos (grind arith)

fits : (n k : ℕ) → 0 + n / suc k * k ≤ n
fits n k = grind (arith, mul-div-le n (suc k))

nothing_less : (n : ℕ) → n - 0 ≡ n
nothing_less n = omega arith

-- The shares that a transaction of more than 0 is split into add up to its amount, to the satang,
-- when there is a project at all.
pub split_project_allocations-amounts :
    (p : Project) (rest : List Project) (amount : ℤ)
    → leb_ℤ amount (pos 0) ≡ false
    → amounts (split_project_allocations (p ∷ rest) amount) ≡ amount
unfolding split_project_allocations
split_project_allocations-amounts p rest (pos n) h =
    rw h (split_from-amounts n (n / suc (length rest)) 0 p rest (fits n (length rest)))
    ∙ ap pos (nothing_less n)
split_project_allocations-amounts p rest (negsuc n) h = ground arith
