-- ===== src/Memory/Compact/Sorted.antt =====
-- Sorted messages, and the ends of a sorted list.
use thclaws_thai_ai_agent.Base.{
  ℕ, zero, suc, ◌+◌, ◌-◌, Bool, true, ◌≡◌, refl, sym, ◌∙◌, ap, List, [], ◌∷◌, ◌++◌, leb, length,
  take, keep, if◌then◌else◌, arith, Bool-cases, inl, inr,
}
use mathlib.Core.List.{append_assoc}
use thclaws_thai_ai_agent.Memory.Context.{insert_newest, newest, backwards}

unfoldable pub drop : {A : Type 0} → ℕ → List A → List A
drop zero xs = xs
drop (suc n) [] = []
drop (suc n) (x ∷ xs) = drop n xs

module _ {A : Type 0} where
  pub length-drop : (n : ℕ) (xs : List A) → length (drop n xs) ≡ length xs - n
  unfolding drop
  length-drop zero xs = omega arith
  length-drop (suc n) [] = omega arith
  length-drop (suc n) (x ∷ xs) = omega (arith, length-drop n xs)

  pub backwards-acc : (xs acc : List A) → backwards xs acc ≡ backwards xs [] ++ acc
  unfolding backwards
  backwards-acc [] acc = refl
  backwards-acc (x ∷ xs) acc =
      backwards-acc xs (x ∷ acc)
      ∙ sym (
          ap (λ ys. ys ++ acc) (backwards-acc xs (x ∷ []))
          ∙ append_assoc (backwards xs []) (x ∷ []) acc)

  backwards-split :
      (n : ℕ) (xs acc : List A)
      → backwards xs acc ≡ backwards (drop n xs) (backwards (take n xs) acc)
  unfolding backwards drop
  backwards-split zero xs acc = refl
  backwards-split (suc n) [] acc = refl
  backwards-split (suc n) (x ∷ xs) acc = backwards-split n xs (x ∷ acc)

  pub length-backwards : (xs acc : List A) → length (backwards xs acc) ≡ length xs + length acc
  unfolding backwards
  length-backwards [] acc = omega arith
  length-backwards (x ∷ xs) acc = omega (arith, length-backwards xs (x ∷ acc))

  take_all : (xs ys : List A) → take (length xs) (xs ++ ys) ≡ xs
  take_all [] ys = refl
  take_all (x ∷ xs) ys = ap (λ zs. x ∷ zs) (take_all xs ys)

  -- The oldest but n, found from the other end.
  pub take-backwards :
      (n : ℕ) (xs : List A) → take (length xs - n) (backwards xs []) ≡ backwards (drop n xs) []
  take-backwards n xs =
      let split : backwards xs [] ≡ backwards (drop n xs) [] ++ backwards (take n xs) [] =
        backwards-split n xs [] ∙ backwards-acc (drop n xs) (backwards (take n xs) []) in
      let size : length xs - n ≡ length (backwards (drop n xs) []) =
        omega (arith, length-backwards (drop n xs) [], length-drop n xs) in
      rw (split, size) (take_all (backwards (drop n xs) []) (backwards (take n xs) []))

module _ {A : Type 0} (time : A → ℕ) where
  -- No element is later than `t`.
  unfoldable pub NoLater : ℕ → List A → Type 0
  NoLater t [] = Unit
  NoLater t (x ∷ xs) = (leb (time x) t ≡ true) × NoLater t xs

  unfoldable pub IsNewestFirst : List A → Type 0
  unfolding NoLater
  IsNewestFirst [] = Unit
  IsNewestFirst (x ∷ xs) = NoLater (time x) xs × IsNewestFirst xs

  pub NoLater-le : (s t : ℕ) (xs : List A) → leb s t ≡ true → NoLater s xs → NoLater t xs
  unfolding NoLater
  NoLater-le s t [] h n = tt
  NoLater-le s t (x ∷ xs) h (a, n) = (ground arith, NoLater-le s t xs h n)

  NoLater-insert :
      (t : ℕ) (x : A) (xs : List A)
      → leb (time x) t ≡ true
      → NoLater t xs
      → NoLater t (insert_newest time x xs)
  unfolding NoLater insert_newest
  NoLater-insert t x [] h n = (h, n)
  NoLater-insert t x (y ∷ ys) h (a, n) = elim (Bool-cases (leb (time y) (time x))) [
    | inl b ↦ rw b (h, (a, n))
    | inr b ↦ rw b (a, NoLater-insert t x ys h n)
  ]

  IsNewestFirst-insert :
      (x : A) (xs : List A) → IsNewestFirst xs → IsNewestFirst (insert_newest time x xs)
  unfolding IsNewestFirst NoLater insert_newest
  IsNewestFirst-insert x [] s = (tt, tt)
  IsNewestFirst-insert x (y ∷ ys) (n, s) = elim (Bool-cases (leb (time y) (time x))) [
    | inl b ↦ rw b ((b, NoLater-le _ _ ys b n), (n, s))
    | inr b ↦ rw b (NoLater-insert (time y) x ys (ground arith) n, IsNewestFirst-insert x ys s)
  ]

  pub IsNewestFirst-newest : (xs : List A) → IsNewestFirst (newest time xs)
  unfolding IsNewestFirst newest
  IsNewestFirst-newest [] = tt
  IsNewestFirst-newest (x ∷ xs) = IsNewestFirst-insert x _ (IsNewestFirst-newest xs)

  NoLater-keep : (t : ℕ) (p : A → Bool) (xs : List A) → NoLater t xs → NoLater t (keep p xs)
  unfolding NoLater
  NoLater-keep t p [] n = tt
  NoLater-keep t p (x ∷ xs) (a, n) = elim (Bool-cases (p x)) [
    | inl h ↦ rw h (a, NoLater-keep t p xs n)
    | inr h ↦ rw h (NoLater-keep t p xs n)
  ]

  insert_first : (x : A) (xs : List A) → NoLater (time x) xs → insert_newest time x xs ≡ x ∷ xs
  unfolding NoLater insert_newest
  insert_first x [] n = refl
  insert_first x (y ∷ ys) (a, n) = rw a refl

  keep-insert :
      (p : A → Bool) (x : A) (xs : List A)
      → IsNewestFirst xs
      → keep p (insert_newest time x xs)
        ≡ (if p x then insert_newest time x (keep p xs) else keep p xs)
  unfolding IsNewestFirst insert_newest
  keep-insert p x [] s = refl
  keep-insert p x (y ∷ ys) (n, s) = elim (Bool-cases (leb (time y) (time x))) [
    | inl b ↦ elim (Bool-cases (p x)) [
      | inl h ↦
          rw (b, h) (sym (insert_first x _ (NoLater-keep _ p (y ∷ ys) (cons_no_later x y ys b n))))
      | inr h ↦ rw (b, h) refl
    ]
    | inr b ↦ elim (Bool-cases (p x)) [
      | inl h ↦ elim (Bool-cases (p y)) [
        | inl k ↦ rw (b, h, k, b, keep-insert p x ys s, h) refl
        | inr k ↦ rw (b, h, k, keep-insert p x ys s, h) refl
      ]
      | inr h ↦ elim (Bool-cases (p y)) [
        | inl k ↦ rw (b, h, k, keep-insert p x ys s, h) refl
        | inr k ↦ rw (b, h, k, keep-insert p x ys s, h) refl
      ]
    ]
  ]
    where
      cons_no_later :
          (x y : A) (ys : List A)
          → leb (time y) (time x) ≡ true
          → NoLater (time y) ys
          → NoLater (time x) (y ∷ ys)
      cons_no_later x y ys b n = unfold NoLater in (b, NoLater-le _ _ ys b n)

  -- Sorting and leaving out commute.
  pub keep-newest : (p : A → Bool) (xs : List A) → keep p (newest time xs) ≡ newest time (keep p xs)
  unfolding newest
  keep-newest p [] = refl
  keep-newest p (x ∷ xs) = elim (Bool-cases (p x)) [
    | inl h ↦
        rw (keep-insert p x (newest time xs) (IsNewestFirst-newest xs), h, keep-newest p xs) refl
    | inr h ↦
        rw (keep-insert p x (newest time xs) (IsNewestFirst-newest xs), h, keep-newest p xs) refl
  ]

  length-insert : (x : A) (xs : List A) → length (insert_newest time x xs) ≡ suc (length xs)
  unfolding insert_newest
  length-insert x [] = refl
  length-insert x (y ∷ ys) = elim (Bool-cases (leb (time y) (time x))) [
    | inl b ↦ rw b refl
    | inr b ↦ rw b (ap (λ n. suc n) (length-insert x ys))
  ]

  pub length-newest : (xs : List A) → length (newest time xs) ≡ length xs
  unfolding newest
  length-newest [] = refl
  length-newest (x ∷ xs) = length-insert x _ ∙ ap (λ n. suc n) (length-newest xs)
