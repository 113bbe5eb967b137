-- ===== src/Memory/Compact/Beside.antt =====
-- Messages with different ids, and what leaving some of them out leaves.
use thclaws_thai_ai_agent.Base.{
  ℕ, zero, suc, String, Bool, true, false, not, ◌||◌, ◌≡◌, refl, ◌∙◌, ap, List, [], ◌∷◌, str_eq,
  eq_iff, eq_refl, leb, map, take, keep, arith, Bool-cases, inl, inr,
}
use thclaws_thai_ai_agent.Memory.Store.{Message}
use thclaws_thai_ai_agent.Memory.Context.{insert_newest, newest, backwards, is_fresh}
use thclaws_thai_ai_agent.Memory.Compact.{is_among, marked}
use thclaws_thai_ai_agent.Memory.Compact.Sorted.{drop}

-- No two messages have the same id.
unfoldable pub IsUnique : List Message → Type 0
unfolding is_among
IsUnique [] = Unit
IsUnique (m ∷ ms) = (is_among m.id ms ≡ false) × IsUnique ms

-- Messages by `created_at`
abbrev pub by_time : Message → ℕ
by_time m = m.created_at

pub swapped : (a b c : Bool) → (a || (b || c)) ≡ (b || (a || c))
swapped true true c = refl
swapped true false c = refl
swapped false true c = refl
swapped false false c = refl

is_among-insert :
    (i : String) (x : Message) (xs : List Message)
    → is_among i (insert_newest by_time x xs) ≡ (str_eq x.id i || is_among i xs)
unfolding is_among insert_newest
is_among-insert i x [] = refl
is_among-insert i x (y ∷ ys) = elim (Bool-cases (leb (by_time y) (by_time x))) [
  | inl b ↦ rw b refl
  | inr b ↦ rw (b, is_among-insert i x ys) (swapped (str_eq y.id i) (str_eq x.id i) (is_among i ys))
]

pub is_among-newest :
    (i : String) (xs : List Message) → is_among i (newest by_time xs) ≡ is_among i xs
unfolding is_among newest
is_among-newest i [] = refl
is_among-newest i (x ∷ xs) =
    is_among-insert i x (newest by_time xs) ∙ ap (λ b. str_eq x.id i || b) (is_among-newest i xs)

pub is_among-keep :
    (i : String) (p : Message → Bool) (xs : List Message)
    → is_among i xs ≡ false
    → is_among i (keep p xs) ≡ false
unfolding is_among
is_among-keep i p [] n = refl
is_among-keep i p (x ∷ xs) n = elim (Bool-cases (str_eq x.id i)) [
  | inl h ↦ absurd (ground arith)
  | inr h ↦ elim (Bool-cases (p x)) [
    | inl k ↦ rw (k, h) (is_among-keep i p xs (ground arith))
    | inr k ↦ rw k (is_among-keep i p xs (ground arith))
  ]
]

pub IsUnique-keep : (p : Message → Bool) (xs : List Message) → IsUnique xs → IsUnique (keep p xs)
unfolding IsUnique
IsUnique-keep p [] u = tt
IsUnique-keep p (x ∷ xs) (n, u) = elim (Bool-cases (p x)) [
  | inl k ↦ rw k (is_among-keep x.id p xs n, IsUnique-keep p xs u)
  | inr k ↦ rw k (IsUnique-keep p xs u)
]

pub str_eq_sym : (a b : String) → str_eq b a ≡ false → str_eq a b ≡ false
str_eq_sym a b n = elim (Bool-cases (str_eq a b)) [
  | inl h ↦ let p : a ≡ b = (eq_iff a b).0 h in let q : true ≡ false = rw (p, eq_refl b) at n in cc
  | inr h ↦ h
]

IsUnique-insert :
    (x : Message) (xs : List Message)
    → is_among x.id xs ≡ false
    → IsUnique xs
    → IsUnique (insert_newest by_time x xs)
unfolding IsUnique is_among insert_newest
IsUnique-insert x [] n u = (refl, tt)
IsUnique-insert x (y ∷ ys) n (m, u) = elim (Bool-cases (leb (by_time y) (by_time x))) [
  | inl b ↦ rw b (n, (m, u))
  | inr b ↦ rw b (
    is_among-insert y.id x ys ∙ rw (differ x y ys n, m) refl,
    IsUnique-insert x ys (later x y ys n) u,
  )
]
  where
    later :
        (x y : Message) (ys : List Message)
        → is_among x.id (y ∷ ys) ≡ false
        → is_among x.id ys ≡ false
    later x y ys n = unfold is_among in ground arith

    differ :
        (x y : Message) (ys : List Message)
        → is_among x.id (y ∷ ys) ≡ false
        → str_eq x.id y.id ≡ false
    differ x y ys n = str_eq_sym x.id y.id (unfold is_among in ground arith)

pub IsUnique-newest : (xs : List Message) → IsUnique xs → IsUnique (newest by_time xs)
unfolding IsUnique newest
IsUnique-newest [] u = tt
IsUnique-newest (x ∷ xs) (n, u) =
    IsUnique-insert x _ (is_among-newest x.id xs ∙ n) (IsUnique-newest xs u)

-- The messages that are not in a list.
abbrev pub beside : List Message → Message → Bool
beside done m = not (is_among m.id done)

none_beside :
    (all xs : List Message)
    → ((i : String) → is_among i xs ≡ true → is_among i all ≡ true)
    → keep (beside all) xs ≡ []
none_beside all [] h = refl
none_beside all (x ∷ xs) h =
    rw (h x.id (unfold is_among in rw (eq_refl x.id) refl))
      (none_beside all xs (λ i e. h i (unfold is_among in rw e (or_true (str_eq x.id i)))))
  where
    or_true : (a : Bool) → (a || true) ≡ true
    or_true true = refl
    or_true false = refl

pub is_among-drop :
    (n : ℕ) (i : String) (xs : List Message)
    → is_among i xs ≡ false
    → is_among i (drop n xs) ≡ false
unfolding drop
is_among-drop zero i xs h = h
is_among-drop (suc n) i [] h = h
is_among-drop (suc n) i (x ∷ xs) h = is_among-drop n i xs (unfold is_among in ground arith)

-- Without the later ones the first ones stay.
pub keep-beside :
    (n : ℕ) (xs : List Message) → IsUnique xs → keep (beside (drop n xs)) xs ≡ take n xs
unfolding drop IsUnique
keep-beside zero xs u = none_beside xs xs (λ i e. e)
keep-beside (suc n) [] u = refl
keep-beside (suc n) (x ∷ xs) (h, u) =
    rw (is_among-drop n x.id xs h) (ap (λ ys. x ∷ ys) (keep-beside n xs u))

pub is_among-backwards :
    (i : String) (xs acc : List Message)
    → is_among i (backwards xs acc) ≡ (is_among i xs || is_among i acc)
unfolding is_among backwards
is_among-backwards i [] acc = refl
is_among-backwards i (x ∷ xs) acc =
    is_among-backwards i xs (x ∷ acc) ∙ moved (is_among i xs) (str_eq x.id i) (is_among i acc)
  where
    moved : (a b c : Bool) → (a || (b || c)) ≡ ((b || a) || c)
    moved true true c = refl
    moved true false c = refl
    moved false true c = refl
    moved false false c = refl

pub keep_same :
    {A : Type 0} (p q : A → Bool) (xs : List A) → ((x : A) → p x ≡ q x) → keep p xs ≡ keep q xs
keep_same p q [] h = refl
keep_same p q (x ∷ xs) h = elim (Bool-cases (q x)) [
  | inl k ↦ rw (h x ∙ k, k) (ap (λ ys. x ∷ ys) (keep_same p q xs h))
  | inr k ↦ rw (h x ∙ k, k) (keep_same p q xs h)
]

pub keep-marked :
    (namespace : String) (done xs : List Message)
    → keep (is_fresh namespace) (map (marked done) xs)
      ≡ keep (beside done) (keep (is_fresh namespace) xs)
keep-marked namespace done [] = refl
keep-marked namespace done (x ∷ xs) = elim (Bool-cases (is_among x.id done)) [
  | inl h ↦ elim (Bool-cases (str_eq x.namespace namespace)) [
    | inl k ↦ elim (Bool-cases x.compacted) [
      | inl c ↦ rw (h, k, c) (keep-marked namespace done xs)
      | inr c ↦ rw (h, k, c, h) (keep-marked namespace done xs)
    ]
    | inr k ↦ rw (h, k) (keep-marked namespace done xs)
  ]
  | inr h ↦ elim (Bool-cases (is_fresh namespace x)) [
    | inl k ↦ rw (h, k, h) (ap (λ ys. x ∷ ys) (keep-marked namespace done xs))
    | inr k ↦ rw (h, k) (keep-marked namespace done xs)
  ]
]

pub take-take : {A : Type 0} (n : ℕ) (xs : List A) → take n (take n xs) ≡ take n xs
take-take zero xs = refl
take-take (suc n) [] = refl
take-take (suc n) (x ∷ xs) = ap (λ ys. x ∷ ys) (take-take n xs)
