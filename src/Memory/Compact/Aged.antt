-- ===== src/Memory/Compact/Aged.antt =====
-- The messages in the order in which the compaction of memory/service.go reads them, whatever
-- decides between equal times.
use thclaws_thai_ai_agent.Base.{
  ℕ, zero, suc, String, Bool, false, ◌||◌, ◌≡◌, refl, ◌∙◌, ap, List, [], ◌∷◌, str_eq, eq_refl,
  length, take, keep, arith, Bool-cases, inl, inr,
}
use thclaws_thai_ai_agent.Memory.Store.{Message}
use thclaws_thai_ai_agent.Memory.Compact.{is_among, is_older, insert_oldest, by_age}
use thclaws_thai_ai_agent.Memory.Compact.Sorted.{drop}
use thclaws_thai_ai_agent.Memory.Compact.Beside.{IsUnique, beside, swapped, str_eq_sym}

module _ (tie : Message → Message → Bool) where
  is_among-insert_oldest :
      (i : String) (x : Message) (xs : List Message)
      → is_among i (insert_oldest tie x xs) ≡ (str_eq x.id i || is_among i xs)
  unfolding is_among insert_oldest
  is_among-insert_oldest i x [] = refl
  is_among-insert_oldest i x (y ∷ ys) = elim (Bool-cases (is_older tie x y)) [
    | inl b ↦ rw b refl
    | inr b ↦
        rw (b, is_among-insert_oldest i x ys)
          (swapped (str_eq y.id i) (str_eq x.id i) (is_among i ys))
  ]

  pub is_among-by_age :
      (i : String) (xs : List Message) → is_among i (by_age tie xs) ≡ is_among i xs
  unfolding is_among by_age
  is_among-by_age i [] = refl
  is_among-by_age i (x ∷ xs) =
      is_among-insert_oldest i x (by_age tie xs)
      ∙ ap (λ b. str_eq x.id i || b) (is_among-by_age i xs)

  IsUnique-insert_oldest :
      (x : Message) (xs : List Message)
      → is_among x.id xs ≡ false
      → IsUnique xs
      → IsUnique (insert_oldest tie x xs)
  unfolding IsUnique is_among insert_oldest
  IsUnique-insert_oldest x [] n u = (refl, tt)
  IsUnique-insert_oldest x (y ∷ ys) n (m, u) = elim (Bool-cases (is_older tie x y)) [
    | inl b ↦ rw b (n, (m, u))
    | inr b ↦ rw b (
      is_among-insert_oldest y.id x ys ∙ rw (str_eq_sym x.id y.id (ground arith), m) refl,
      IsUnique-insert_oldest x ys (ground arith) u,
    )
  ]

  pub IsUnique-by_age : (xs : List Message) → IsUnique xs → IsUnique (by_age tie xs)
  unfolding IsUnique by_age
  IsUnique-by_age [] u = tt
  IsUnique-by_age (x ∷ xs) (n, u) =
      IsUnique-insert_oldest x _ (is_among-by_age x.id xs ∙ n) (IsUnique-by_age xs u)

  length-keep-insert_oldest :
      (p : Message → Bool) (x : Message) (xs : List Message)
      → length (keep p (insert_oldest tie x xs)) ≡ length (keep p (x ∷ xs))
  unfolding insert_oldest
  length-keep-insert_oldest p x [] = refl
  length-keep-insert_oldest p x (y ∷ ys) = elim (Bool-cases (is_older tie x y)) [
    | inl b ↦ rw b refl
    | inr b ↦ rw b (elim (Bool-cases (p y)) [
      | inl k ↦ elim (Bool-cases (p x)) [
        | inl l ↦ rw (k, l) (ap (λ n. suc n) (length-keep-insert_oldest p x ys ∙ rw l refl))
        | inr l ↦ rw (k, l) (ap (λ n. suc n) (length-keep-insert_oldest p x ys ∙ rw l refl))
      ]
      | inr k ↦ rw k (length-keep-insert_oldest p x ys)
    ])
  ]

  pub length-keep-by_age :
      (p : Message → Bool) (xs : List Message)
      → length (keep p (by_age tie xs)) ≡ length (keep p xs)
  unfolding by_age
  length-keep-by_age p [] = refl
  length-keep-by_age p (x ∷ xs) = elim (Bool-cases (p x)) [
    | inl k ↦
        length-keep-insert_oldest p x (by_age tie xs)
        ∙ rw k (ap (λ n. suc n) (length-keep-by_age p xs))
    | inr k ↦ length-keep-insert_oldest p x (by_age tie xs) ∙ rw k (length-keep-by_age p xs)
  ]

  length-insert_oldest :
      (x : Message) (xs : List Message) → length (insert_oldest tie x xs) ≡ suc (length xs)
  unfolding insert_oldest
  length-insert_oldest x [] = refl
  length-insert_oldest x (y ∷ ys) = elim (Bool-cases (is_older tie x y)) [
    | inl b ↦ rw b refl
    | inr b ↦ rw b (ap (λ n. suc n) (length-insert_oldest x ys))
  ]

  pub length-by_age : (xs : List Message) → length (by_age tie xs) ≡ length xs
  unfolding by_age
  length-by_age [] = refl
  length-by_age (x ∷ xs) = length-insert_oldest x _ ∙ ap (λ n. suc n) (length-by_age xs)

keep-unused :
    (x : Message) (ys zs : List Message)
    → is_among x.id zs ≡ false
    → keep (beside (x ∷ ys)) zs ≡ keep (beside ys) zs
unfolding is_among
keep-unused x ys [] n = refl
keep-unused x ys (z ∷ zs) n =
    let apart : str_eq x.id z.id ≡ false = str_eq_sym x.id z.id (ground arith) in
    elim (Bool-cases (is_among z.id ys)) [
      | inl k ↦ rw (apart, k) (keep-unused x ys zs (ground arith))
      | inr k ↦ rw (apart, k) (ap (λ xs. z ∷ xs) (keep-unused x ys zs (ground arith)))
    ]

-- Without the earlier ones the later ones stay.
pub keep-beside-take :
    (n : ℕ) (xs : List Message) → IsUnique xs → keep (beside (take n xs)) xs ≡ drop n xs
unfolding drop IsUnique is_among
keep-beside-take zero xs u = keep_whole xs
  where
    keep_whole : (xs : List Message) → keep (beside []) xs ≡ xs
    keep_whole [] = refl
    keep_whole (x ∷ xs) = unfold is_among in ap (λ ys. x ∷ ys) (keep_whole xs)
keep-beside-take (suc n) [] u = refl
keep-beside-take (suc n) (x ∷ xs) (h, u) =
    rw (eq_refl x.id) (keep-unused x (take n xs) xs h ∙ keep-beside-take n xs u)
