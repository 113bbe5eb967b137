-- ===== src/Memory/Compact/Timed.antt =====
-- Messages with different times: the order of the compaction is that of `GetContext`, backwards.
use thclaws_thai_ai_agent.Base.{
  ℕ, ◌-◌, String, Bool, true, false, ◌==◌, ◌≡◌, refl, sym, ◌∙◌, ap, subst, List, [], ◌∷◌, ◌++◌, ltb,
  leb, length, take, exists, arith, Bool-cases, inl, inr,
}
use mathlib.Core.List.{append_assoc}
use thclaws_thai_ai_agent.Memory.Store.{Message, Store}
use thclaws_thai_ai_agent.Memory.Context.{insert_newest, newest, backwards}
use thclaws_thai_ai_agent.Memory.Compact.{fresh_messages, is_older, insert_oldest, by_age, oldest}
use thclaws_thai_ai_agent.Memory.Compact.Sorted.{
  drop, backwards-acc, NoLater, IsNewestFirst, IsNewestFirst-newest, NoLater-le, take-backwards,
  length-newest,
}
use thclaws_thai_ai_agent.Memory.Compact.Beside.{by_time}

-- Does the message have this time?
abbrev is_at : ℕ → Message → Bool
is_at t m = m.created_at == t

-- No two messages have the same time.
unfoldable pub HasOwnTimes : List Message → Type 0
HasOwnTimes [] = Unit
HasOwnTimes (m ∷ ms) = (exists (is_at m.created_at) ms ≡ false) × HasOwnTimes ms

exists-insert :
    (t : ℕ) (x : Message) (xs : List Message)
    → exists (is_at t) xs ≡ false
    → is_at t x ≡ false
    → exists (is_at t) (insert_newest by_time x xs) ≡ false
unfolding insert_newest
exists-insert t x [] n h = rw h refl
exists-insert t x (y ∷ ys) n h = elim (Bool-cases (leb (by_time y) (by_time x))) [
  | inl b ↦ rw (b, h) n
  | inr b ↦ elim (Bool-cases (is_at t y)) [
    | inl k ↦ let q : true ≡ false = rw k at n in cc
    | inr k ↦ rw (b, k) (exists-insert t x ys (rw k at n) h)
  ]
]

exists-newest :
    (t : ℕ) (xs : List Message)
    → exists (is_at t) xs ≡ false
    → exists (is_at t) (newest by_time xs) ≡ false
unfolding newest
exists-newest t [] n = refl
exists-newest t (x ∷ xs) n = elim (Bool-cases (is_at t x)) [
  | inl k ↦ let q : true ≡ false = rw k at n in cc
  | inr k ↦ exists-insert t x (newest by_time xs) (exists-newest t xs (rw k at n)) k
]

-- All messages are older than `t`.
AllOlder : ℕ → List Message → Type 0
AllOlder t [] = Unit
AllOlder t (m ∷ ms) = (ltb m.created_at t ≡ true) × AllOlder t ms

AllOlder-strict :
    (t : ℕ) (xs : List Message) → NoLater by_time t xs → exists (is_at t) xs ≡ false → AllOlder t xs
unfolding AllOlder NoLater
AllOlder-strict t [] h n = tt
AllOlder-strict t (x ∷ xs) (a, h) n = elim (Bool-cases (is_at t x)) [
  | inl k ↦ let q : true ≡ false = rw k at n in cc
  | inr k ↦ (ground arith, AllOlder-strict t xs h (rw k at n))
]

AllOlder-backwards :
    (t : ℕ) (xs acc : List Message) → AllOlder t xs → AllOlder t acc → AllOlder t (backwards xs acc)
unfolding AllOlder backwards
AllOlder-backwards t [] acc h k = k
AllOlder-backwards t (x ∷ xs) acc (a, h) k = AllOlder-backwards t xs (x ∷ acc) h (a, k)

module _ (tie : Message → Message → Bool) where
  insert_last :
      (x : Message) (xs : List Message)
      → AllOlder x.created_at xs
      → insert_oldest tie x xs ≡ xs ++ x ∷ []
  unfolding AllOlder insert_oldest
  insert_last x [] h = refl
  insert_last x (y ∷ ys) (a, h) =
      let later : is_older tie x y ≡ false = ground arith in
      rw later (ap (λ zs. y ∷ zs) (insert_last x ys h))

  insert_before_last :
      (x y : Message) (zs : List Message)
      → ltb x.created_at y.created_at ≡ true
      → insert_oldest tie x (zs ++ y ∷ []) ≡ insert_oldest tie x zs ++ y ∷ []
  unfolding insert_oldest
  insert_before_last x y [] h = rw h refl
  insert_before_last x y (z ∷ zs) h = elim (Bool-cases (is_older tie x z)) [
    | inl b ↦ rw b refl
    | inr b ↦ rw b (ap (λ ms. z ∷ ms) (insert_before_last x y zs h))
  ]

  insert-backwards :
      (x : Message) (xs : List Message)
      → IsNewestFirst by_time xs
      → exists (is_at x.created_at) xs ≡ false
      → insert_oldest tie x (backwards xs []) ≡ backwards (insert_newest by_time x xs) []
  unfolding IsNewestFirst insert_newest backwards
  insert-backwards x [] s n = unfold insert_oldest in refl
  insert-backwards x (y ∷ ys) (f, s) n = elim (Bool-cases (leb (by_time y) (by_time x))) [
    | inl b ↦ rw b (
        insert_last x (backwards ys (y ∷ [])) (
          AllOlder-backwards x.created_at (y ∷ ys) []
            (AllOlder-strict x.created_at (y ∷ ys)
              (unfold NoLater in (b, NoLater-le by_time _ _ ys b f)) n)
            (unfold AllOlder in tt))
        ∙ sym (
            backwards-acc ys (y ∷ x ∷ [])
            ∙ sym (
                ap (λ ms. ms ++ x ∷ []) (backwards-acc ys (y ∷ []))
                ∙ append_assoc (backwards ys []) (y ∷ []) (x ∷ []))))
    | inr b ↦
        rw (b, backwards-acc ys (y ∷ []), backwards-acc (insert_newest by_time x ys) (y ∷ []))
          (insert_before_last x y (backwards ys []) (ground arith)
            ∙ ap (λ ms. ms ++ y ∷ []) (insert-backwards x ys s (ground arith)))
  ]

  pub by_age-newest :
      (xs : List Message) → HasOwnTimes xs → by_age tie xs ≡ backwards (newest by_time xs) []
  unfolding HasOwnTimes by_age newest
  by_age-newest [] u = unfold backwards in refl
  by_age-newest (x ∷ xs) (n, u) =
      ap (insert_oldest tie x) (by_age-newest xs u)
      ∙ insert-backwards x (newest by_time xs) (IsNewestFirst-newest by_time xs)
          (exists-newest x.created_at xs n)

  -- The messages that are compacted.
  pub oldest_lem :
      (namespace : String) (s : Store)
      → HasOwnTimes (fresh_messages namespace s)
      → oldest tie namespace (length (fresh_messages namespace s) - 12) s
        ≡ backwards (drop 12 (newest by_time (fresh_messages namespace s))) []
  unfolding oldest
  oldest_lem namespace s u =
      ap (take (length (fresh_messages namespace s) - 12))
        (by_age-newest (fresh_messages namespace s) u)
      ∙ subst
          (λ n.
            take (n - 12) (backwards (newest by_time (fresh_messages namespace s)) [])
            ≡ backwards (drop 12 (newest by_time (fresh_messages namespace s))) [])
          (length-newest by_time (fresh_messages namespace s))
          (take-backwards 12 (newest by_time (fresh_messages namespace s)))
