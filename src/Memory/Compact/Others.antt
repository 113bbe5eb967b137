-- ===== src/Memory/Compact/Others.antt =====
-- The messages of the other conversations after a compaction, of memory/service.go.
use thclaws_thai_ai_agent.Base.{
  ℕ, suc, zero, String, Bool, true, false, ◌≡◌, refl, ◌∙◌, ap, List, [], ◌∷◌, str_eq, eq_iff, take,
  keep, arith, Bool-cases, inl, inr,
}
use thclaws_thai_ai_agent.Memory.Store.{Message, Store}
use thclaws_thai_ai_agent.Memory.Context.{newest, backwards, is_fresh, recent_messages}
use thclaws_thai_ai_agent.Memory.Compact.{by_age, fresh_messages, oldest, is_among, mark_compacted}
use thclaws_thai_ai_agent.Memory.Compact.Aged.{is_among-by_age}
use thclaws_thai_ai_agent.Memory.Compact.Beside.{
  IsUnique, beside, by_time, is_among-keep, str_eq_sym, keep-marked,
}

-- No message of `zs` is among `ys`.
IsApart : List Message → List Message → Type 0
IsApart ys [] = Unit
IsApart ys (z ∷ zs) = (is_among z.id ys ≡ false) × IsApart ys zs

IsApart-smaller :
    (xs ys zs : List Message)
    → ((i : String) → is_among i xs ≡ false → is_among i ys ≡ false)
    → IsApart xs zs
    → IsApart ys zs
unfolding IsApart
IsApart-smaller xs ys [] h a = tt
IsApart-smaller xs ys (z ∷ zs) h (n, a) = (h z.id n, IsApart-smaller xs ys zs h a)

keep-IsApart : (ys zs : List Message) → IsApart ys zs → keep (beside ys) zs ≡ zs
unfolding IsApart
keep-IsApart ys [] a = refl
keep-IsApart ys (z ∷ zs) (n, a) = rw n (ap (λ xs. z ∷ xs) (keep-IsApart ys zs a))

IsApart-cons :
    (x : Message) (ys zs : List Message)
    → is_among x.id zs ≡ false
    → IsApart ys zs
    → IsApart (x ∷ ys) zs
unfolding IsApart is_among
IsApart-cons x ys [] n a = tt
IsApart-cons x ys (z ∷ zs) n (m, a) =
    (rw (str_eq_sym x.id z.id (ground arith)) m, IsApart-cons x ys zs (ground arith) a)

-- Of messages with different ids, what one test takes is apart from what another takes.
IsApart-keep :
    (p q : Message → Bool) (xs : List Message)
    → ((x : Message) → p x ≡ true → q x ≡ false)
    → IsUnique xs
    → IsApart (keep p xs) (keep q xs)
unfolding IsApart IsUnique
IsApart-keep p q [] h u = tt
IsApart-keep p q (x ∷ xs) h (n, u) = elim (Bool-cases (p x)) [
  | inl k ↦
      rw (k, h x k)
        (IsApart-cons x (keep p xs) (keep q xs) (is_among-keep x.id q xs n)
          (IsApart-keep p q xs h u))
  | inr k ↦ elim (Bool-cases (q x)) [
    | inl l ↦ rw (k, l) (is_among-keep x.id p xs n, IsApart-keep p q xs h u)
    | inr l ↦ rw (k, l) (IsApart-keep p q xs h u)
  ]
]

fresh_elsewhere :
    (namespace other : String)
    → str_eq namespace other ≡ false
    → (m : Message) → is_fresh namespace m ≡ true
    → is_fresh other m ≡ false
fresh_elsewhere namespace other n m h =
    let e : m.namespace ≡ namespace = (eq_iff m.namespace namespace).0 (ground arith) in
    rw (e, n) refl

is_among-take :
    (n : ℕ) (i : String) (xs : List Message)
    → is_among i xs ≡ false
    → is_among i (take n xs) ≡ false
unfolding is_among
is_among-take zero i xs h = refl
is_among-take (suc n) i [] h = refl
is_among-take (suc n) i (x ∷ xs) h =
    let apart : str_eq x.id i ≡ false = ground arith in
    rw apart (is_among-take n i xs (ground arith))

pub recent-other :
    (tie : Message → Message → Bool) (namespace other : String) (limit : ℕ) (s : Store)
    → str_eq namespace other ≡ false
    → IsUnique s.messages
    → recent_messages other (mark_compacted (oldest tie namespace limit s) s)
      ≡ recent_messages other s
unfolding recent_messages mark_compacted oldest
recent-other tie namespace other limit s n u =
    let done = take limit (by_age tie (fresh_messages namespace s)) in
    ap (λ ms. backwards (take 12 (newest by_time ms)) [])
      (keep-marked other done s.messages
        ∙ keep-IsApart done (keep (is_fresh other) s.messages) (
            IsApart-smaller (fresh_messages namespace s) done (keep (is_fresh other) s.messages)
              (λ i a.
                is_among-take limit i _ (is_among-by_age tie i (fresh_messages namespace s) ∙ a))
              (IsApart-keep (is_fresh namespace) (is_fresh other) s.messages
                (fresh_elsewhere namespace other n) u)))
