-- ===== src/Memory/Pending/View.antt =====
-- The pending questions of memory/service.go as a partial map from namespaces to questions.
use thclaws_thai_ai_agent.Base.{
  ℕ, String, Bool, true, false, not, ◌≡◌, refl, Option, none, some, List, [], ◌∷◌, ◌&&◌, str_eq,
  eq_iff, if◌then◌else◌, find_first, keep, exists, ltb, Bool-cases, inl, inr, arith,
}
use thclaws_thai_ai_agent.Sql.{Stamp}
use thclaws_thai_ai_agent.Memory.Store.{PendingAction, Store, update_one, upsert}
use thclaws_thai_ai_agent.Memory.Pending.{
  PendingInput, is_for, is_open, pending_of, put_pending, drop_pending,
}

-- What a namespace is asked at a time, which is what `GetPendingAccounting` finds.
unfoldable pub asked : String → ℕ → Store → Option PendingAction
asked namespace t s = find_first (is_open namespace t) s.pending_actions

and_true : (b : Bool) → (b && true) ≡ b
and_true true = refl
and_true false = refl

-- A document of the namespace, as it is seen from another or the same one.
here_is_open :
    (ns ns' : String) (t : ℕ) (doc : PendingAction)
    → doc.namespace ≡ ns
    → ltb t doc.expires_at ≡ true
    → is_open ns' t doc ≡ str_eq ns ns'
here_is_open ns ns' t doc n h = rw (n, h) (and_true (str_eq ns ns'))

elsewhere_not_open :
    (ns ns' : String) (t : ℕ) (p : PendingAction)
    → is_for ns p ≡ true
    → str_eq ns ns' ≡ false
    → is_open ns' t p ≡ false
elsewhere_not_open ns ns' t p a b =
    ground (arith, eq_iff p.namespace ns, eq_iff p.namespace ns', eq_iff ns ns')

open_elsewhere :
    (ns ns' : String) (t : ℕ) (p : PendingAction)
    → is_for ns p ≡ false
    → is_open ns' t p ≡ true
    → str_eq ns ns' ≡ false
open_elsewhere ns ns' t p a b =
    ground (arith, eq_iff p.namespace ns, eq_iff p.namespace ns', eq_iff ns ns')

module _ (ns ns' : String) (t : ℕ) (doc : PendingAction) (n : doc.namespace ≡ ns)
    (h : ltb t doc.expires_at ≡ true) where
  put_first :
      (rest old : Option PendingAction)
      → (str_eq ns ns' ≡ false → rest ≡ old)
      → (if is_open ns' t doc then some doc else rest) ≡ (if str_eq ns ns' then some doc else old)
  put_first rest old e = elim (Bool-cases (str_eq ns ns')) [
    | inl a ↦ rw (here_is_open ns ns' t doc n h, a) refl
    | inr a ↦ rw (here_is_open ns ns' t doc n h, a) (e a)
  ]

  updated-asked :
      (ps : List PendingAction)
      → exists (is_for ns) ps ≡ true
      → find_first (is_open ns' t) (update_one (is_for ns) (λ p. doc) ps)
        ≡ (if str_eq ns ns' then some doc else find_first (is_open ns' t) ps)
  updated-asked [] e = absurd (ground arith)
  updated-asked (p ∷ ps) e = elim (Bool-cases (is_for ns p)) [
    | inl a ↦ rw a (put_first _ _ (λ b. rw (elsewhere_not_open ns ns' t p a b) refl))
    | inr a ↦ elim (Bool-cases (is_open ns' t p)) [
      | inl b ↦ rw (a, b, open_elsewhere ns ns' t p a b) refl
      | inr b ↦ rw (a, b) (updated-asked ps (ground arith))
    ]
  ]

  upsert-asked :
      (ps : List PendingAction)
      → find_first (is_open ns' t) (upsert (is_for ns) (λ p. doc) doc ps)
        ≡ (if str_eq ns ns' then some doc else find_first (is_open ns' t) ps)
  upsert-asked ps = elim (Bool-cases (exists (is_for ns) ps)) [
    | inl e ↦ rw e (updated-asked ps e)
    | inr e ↦ rw e (put_first _ _ (λ b. refl))
  ]

drop_head :
    (b : Bool) (x y : Option PendingAction)
    → (b ≡ false → x ≡ y)
    → (if b then none else x) ≡ (if b then none else y)
drop_head true x y e = refl
drop_head false x y e = e refl

pending_namespace :
    (input : PendingInput) (now : ℕ) → (pending_of input now).namespace ≡ input.namespace
unfolding pending_of
pending_namespace input now = refl

dropped-asked :
    (ns ns' : String) (t : ℕ) (ps : List PendingAction)
    → find_first (is_open ns' t) (keep (λ p. not (is_for ns p)) ps)
      ≡ (if str_eq ns ns' then none else find_first (is_open ns' t) ps)
dropped-asked ns ns' t [] = ground arith
dropped-asked ns ns' t (p ∷ ps) = elim (Bool-cases (is_for ns p)) [
  | inl a ↦
      rw (a, dropped-asked ns ns' t ps)
        (drop_head _ _ _ (λ b. rw (elsewhere_not_open ns ns' t p a b) refl))
  | inr a ↦ elim (Bool-cases (is_open ns' t p)) [
    | inl b ↦ rw (a, b, open_elsewhere ns ns' t p a b) refl
    | inr b ↦ rw (a, b) (dropped-asked ns ns' t ps)
  ]
]

-- The pending questions are a partial map from namespaces to questions, which forgets the documents
-- and their order. Until the question expires, `SavePendingAccounting` sets its namespace to the
-- question that was put, and `ClearPendingAccounting` unsets it; neither changes what any other
-- namespace is asked.
pub pending_is_map :
    (input : PendingInput) (st : Stamp) (s : Store) (namespace : String) (t : ℕ)
    → ltb t (pending_of input st.now).expires_at ≡ true
    → (asked namespace t (put_pending input st s) ≡ (
        if str_eq input.namespace namespace
        then some (pending_of input st.now)
        else asked namespace t s))
      × (asked namespace t (drop_pending input.namespace st s)
          ≡ (if str_eq input.namespace namespace then none else asked namespace t s))
unfolding asked put_pending drop_pending
pending_is_map input st s namespace t h = (
  upsert-asked input.namespace namespace t (pending_of input st.now)
      (pending_namespace input st.now) h s.pending_actions,
  dropped-asked input.namespace namespace t s.pending_actions,
)
