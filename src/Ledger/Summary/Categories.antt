-- ===== src/Ledger/Summary/Categories.antt =====
-- The totals by category of ledger/summary.go.
use thclaws_thai_ai_agent.Base.{
  String, true, false, ◌≡◌, refl, sym, ap, ◌∙◌, List, [], ◌∷◌, if◌then◌else◌, str_eq, Bool-cases,
  inl, inr, arith,
}
use thclaws_thai_ai_agent.Base.Int.{ℤ, pos, ◌+ℤ◌, ◌≤ℤ◌, zero_left, int_laws}
use thclaws_thai_ai_agent.Base.Text.{is_empty}
use thclaws_thai_ai_agent.Ledger.Reader.{SummaryRow}
use thclaws_thai_ai_agent.Ledger.Summary.{
  CatSum, add_total, totals_by_category, goes_before, insert_sorted, sorted, category_totals,
}

-- What the totals of a list of categories add up to.
unfoldable pub sum_of : List CatSum → ℤ
sum_of [] = pos 0
sum_of (c ∷ cs) = c.amount +ℤ sum_of cs

-- What the rows with a category add up to.
unfoldable pub categorized : List SummaryRow → ℤ
categorized [] = pos 0
categorized (r ∷ rs) = (if is_empty r.category then pos 0 else r.amount) +ℤ categorized rs

assoc_ℤ : (a b c : ℤ) → (a +ℤ b) +ℤ c ≡ a +ℤ (b +ℤ c)
assoc_ℤ a b c = grind int_laws

right_zero : (a : ℤ) → a +ℤ pos 0 ≡ a
right_zero a = grind int_laws

swap_ℤ : (a b c : ℤ) → a +ℤ (b +ℤ c) ≡ b +ℤ (a +ℤ c)
swap_ℤ a b c = grind int_laws

add_total-sum_of :
    (k : String) (a : ℤ) (cs : List CatSum) → sum_of (add_total k a cs) ≡ a +ℤ sum_of cs
unfolding sum_of add_total
add_total-sum_of k a [] = refl
add_total-sum_of k a (c ∷ cs) = elim (Bool-cases (str_eq c.category k)) [
  | inl h ↦ rw h (assoc_ℤ c.amount a (sum_of cs) ∙ swap_ℤ c.amount a (sum_of cs))
  | inr h ↦ rw (h, add_total-sum_of k a cs) (swap_ℤ c.amount a (sum_of cs))
]

insert_sorted-sum_of :
    (c : CatSum) (ds : List CatSum) → sum_of (insert_sorted c ds) ≡ c.amount +ℤ sum_of ds
unfolding sum_of insert_sorted
insert_sorted-sum_of c [] = refl
insert_sorted-sum_of c (d ∷ ds) = elim (Bool-cases (goes_before d c)) [
  | inl h ↦ rw (h, insert_sorted-sum_of c ds) (swap_ℤ d.amount c.amount (sum_of ds))
  | inr h ↦ rw h refl
]

sorted-sum_of : (cs : List CatSum) → sum_of (sorted cs) ≡ sum_of cs
unfolding sum_of sorted
sorted-sum_of [] = refl
sorted-sum_of (c ∷ cs) =
    insert_sorted-sum_of c (sorted cs) ∙ ap (λ s. c.amount +ℤ s) (sorted-sum_of cs)

totals_by_category-sum_of :
    (rows : List SummaryRow) (totals : List CatSum)
    → sum_of (totals_by_category rows totals) ≡ categorized rows +ℤ sum_of totals
unfolding totals_by_category categorized
totals_by_category-sum_of [] totals = sym (zero_left (sum_of totals))
totals_by_category-sum_of (r ∷ rs) totals = elim (Bool-cases (is_empty r.category)) [
  | inl h ↦ rw (h, zero_left (categorized rs)) (totals_by_category-sum_of rs totals)
  | inr h ↦
      rw
        (
          h,
          totals_by_category-sum_of rs (add_total r.category r.amount totals),
          add_total-sum_of r.category r.amount totals,
        )
        (swap_ℤ (categorized rs) r.amount (sum_of totals)
          ∙ sym (assoc_ℤ r.amount (categorized rs) (sum_of totals)))
]

-- No entry has more than `a`.
AtMost : ℤ → List CatSum → Type 0
AtMost a [] = Unit {0}
AtMost a (c ∷ cs) = (c.amount ≤ℤ a) × AtMost a cs

-- From the largest amount to the smallest.
pub IsDescending : List CatSum → Type 0
unfolding AtMost
IsDescending [] = Unit {0}
IsDescending (c ∷ cs) = AtMost c.amount cs × IsDescending cs

AtMost-weaken : (a b : ℤ) (cs : List CatSum) → a ≤ℤ b → AtMost a cs → AtMost b cs
unfolding AtMost
AtMost-weaken a b [] h p = tt
AtMost-weaken a b (c ∷ cs) h (p, q) = (omega arith, AtMost-weaken a b cs h q)

insert_sorted-AtMost :
    (a : ℤ) (c : CatSum) (ds : List CatSum)
    → c.amount ≤ℤ a
    → AtMost a ds
    → AtMost a (insert_sorted c ds)
unfolding AtMost insert_sorted
insert_sorted-AtMost a c [] h p = (h, tt)
insert_sorted-AtMost a c (d ∷ ds) h (p, q) = elim (Bool-cases (goes_before d c)) [
  | inl e ↦ rw e (p, insert_sorted-AtMost a c ds h q)
  | inr e ↦ rw e (h, (p, q))
]

goes_before-amount : (d c : CatSum) → goes_before d c ≡ true → c.amount ≤ℤ d.amount
unfolding goes_before
goes_before-amount d c e = ground arith

not_goes_before-amount : (d c : CatSum) → goes_before d c ≡ false → d.amount ≤ℤ c.amount
unfolding goes_before
not_goes_before-amount d c e = ground arith

insert_sorted-IsDescending :
    (c : CatSum) (ds : List CatSum) → IsDescending ds → IsDescending (insert_sorted c ds)
unfolding IsDescending AtMost insert_sorted
insert_sorted-IsDescending c [] h = (tt, tt)
insert_sorted-IsDescending c (d ∷ ds) (p, q) = elim (Bool-cases (goes_before d c)) [
  | inl e ↦ rw e (
    insert_sorted-AtMost d.amount c ds (goes_before-amount d c e) p,
    insert_sorted-IsDescending c ds q,
  )
  | inr e ↦
      let l = not_goes_before-amount d c e in
      rw e ((l, AtMost-weaken d.amount c.amount ds l p), (p, q))
]

sorted-IsDescending : (cs : List CatSum) → IsDescending (sorted cs)
unfolding IsDescending sorted
sorted-IsDescending [] = tt
sorted-IsDescending (c ∷ cs) = insert_sorted-IsDescending c (sorted cs) (sorted-IsDescending cs)

-- The totals by category, added up, are the sum of all rows that have a category: none is counted
-- twice or lost. They are listed from the largest amount to the smallest.
pub category_totals-IsDescending :
    (rows : List SummaryRow)
    → (sum_of (category_totals rows) ≡ categorized rows) × IsDescending (category_totals rows)
unfolding category_totals sum_of
category_totals-IsDescending rows = (
  sorted-sum_of (totals_by_category rows [])
      ∙ totals_by_category-sum_of rows []
      ∙ right_zero (categorized rows),
  sorted-IsDescending (totals_by_category rows []),
)
