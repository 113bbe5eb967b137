-- ===== src/Ledger/Household/Roles.antt =====
-- Who may do what in a household of ledger/household_summary.go: proofs.
use thclaws_thai_ai_agent.Base.{
  ℕ, String, ◌≡◌, refl, Bool, true, false, not, some, List, [], ◌∷◌, ◌&&◌, str_eq, eq_iff, eq_refl,
  exists, find_first, arith, Bool-cases, Option-cases, inl, inr, ap, subst, ◌∙◌,
}
use thclaws_thai_ai_agent.Base.Int.{pos, leb_ℤ}
use thclaws_thai_ai_agent.Sql.{Error, ok, err, World, Stamp}
use thclaws_thai_ai_agent.Sql.Quiet.{Atomic, atomic_rules, quiet_rules}
use thclaws_thai_ai_agent.Sql.Pooled.{
  Pooled, Pooled-bind, Pooled-guard-passed, Pooled-time_now, Pooled-on_pool, Pooled-reading,
  Atomic-on_pool, Steps, Steps-Quiet, Steps-bind, Steps-on_pool,
}
use thclaws_thai_ai_agent.Ledger.Tables.{HouseholdMember, HouseholdTx, Db}
use thclaws_thai_ai_agent.Ledger.Household.{
  is_member, select_role, insert_member, add_household_member, HouseholdTransactionInput,
  fetch_household_range, create_household_transaction, insert_household_tx, household_row, joined,
}

module _ (household user : String) where
  insert_member-adds :
      (role : String) (st : Stamp) (s s' : Db) (a : Unit {0})
      → insert_member household user role st s ≡ ok (a, s')
      → exists (is_member household user) s'.members ≡ true
  unfolding insert_member
  insert_member-adds role st s s' a e =
      elim (Bool-cases (exists (is_member household user) s.members)) [
        | inl t ↦ ground arith
        | inr t ↦ ground (arith, eq_refl household, eq_refl user)
      ]

owner_of : (role : String) → not (str_eq role "OWNER") ≡ false → role ≡ "OWNER"
owner_of role e = ground (arith, eq_iff role "OWNER")

added :
    (owner household member : String) (db : Db)
    → Pooled
        (λ s. s ≡ db)
        (add_household_member owner household member)
        (λ _ s.
          (select_role household owner db ≡ ok "OWNER")
          × (exists (is_member household member) s.members ≡ true))
unfolding add_household_member
added owner household member db = Pooled-bind (Pooled-guard-passed _ _) λ _.
    Pooled-bind (Pooled-reading _ _) λ role. Pooled-bind (Pooled-guard-passed _ _) λ _.
      Pooled-on_pool _ _ λ st s a s' p e. (
        subst (λ d. select_role household owner d ≡ ok "OWNER") p.0.0.0
            (p.0.1 ∙ ap ok (owner_of role p.1)),
        insert_member-adds household member "MEMBER" st s s' a e,
      )

-- Who adds a member to a household, and is told that this worked, had the role OWNER in it, and
-- the new member is in it afterwards.
pub add_household_member_by_owner :
    (owner household member : String) (w : World Db)
    → (add_household_member owner household member w).0 ≡ ok tt
    → (select_role household owner w.db ≡ ok "OWNER")
      × (exists
            (is_member household member)
            (add_household_member owner household member w).1.db.members
          ≡ true)
add_household_member_by_owner owner household member w e =
    (added owner household member w.db).after w tt refl e

-- Adding a member that fails, for want of the role or for any other reason, changes nothing.
pub add_household_member_atomic :
    (owner household member : String) (w : World Db) (e : Error)
    → (add_household_member owner household member w).0 ≡ err e
    → (add_household_member owner household member w).1.db ≡ w.db
unfolding add_household_member
add_household_member_atomic owner household member w e p =
    Atomic.same {m = add_household_member owner household member}
      (search (atomic_rules, Atomic-on_pool)) w e p

-- no member that is there loses or changes its role
KeepsRoles : Db → Db → Type 0
KeepsRoles s t = (h u r : String) → select_role h u s ≡ ok r → select_role h u t ≡ ok r

exists-first :
    (p : HouseholdMember → Bool) (xs : List HouseholdMember) (y : HouseholdMember)
    → find_first p xs ≡ some y
    → exists p xs ≡ true
exists-first p [] y e = cc
exists-first p (x ∷ xs) y e = elim (Bool-cases (p x)) [
  | inl h ↦ rw h refl
  | inr h ↦ ground (arith, exists-first p xs y)
]

exists_in :
    (h u : String) (s : Db) (r : String)
    → select_role h u s ≡ ok r
    → exists (is_member h u) s.members ≡ true
unfolding select_role
exists_in h u s r e = elim (Option-cases (find_first (is_member h u) s.members)) [
  | inl n ↦ ground arith
  | inr (m, f) ↦ exists-first (is_member h u) s.members m f
]

insert_member-KeepsRoles :
    (h u role : String) (st : Stamp) (s : Db) (a : Unit {0}) (s' : Db)
    → insert_member h u role st s ≡ ok (a, s')
    → KeepsRoles s s'
unfolding KeepsRoles insert_member select_role
insert_member-KeepsRoles h u role st s a s' e g v r p =
    elim (Bool-cases (exists (is_member h u) s.members)) [
      | inl t ↦ ground arith
      | inr t ↦ elim (Bool-cases (str_eq h g && str_eq u v)) [
        | inl same ↦ ground (arith, eq_iff h g, eq_iff u v, exists_in g v s r p)
        | inr other ↦ ground arith
      ]
    ]

KeepsRoles-same : (s : Db) → KeepsRoles s s
unfolding KeepsRoles
KeepsRoles-same s h u r p = p

KeepsRoles-then : (s t u : Db) → KeepsRoles s t → KeepsRoles t u → KeepsRoles s u
unfolding KeepsRoles
KeepsRoles-then s t u f g h v r p = g h v r (f h v r p)

adding-Steps : (o h m : String) → Steps KeepsRoles (add_household_member o h m)
unfolding add_household_member
adding-Steps o h m =
    Steps-bind KeepsRoles-then (Steps-Quiet KeepsRoles-same (search quiet_rules)) λ _.
      Steps-bind KeepsRoles-then (Steps-Quiet KeepsRoles-same (search quiet_rules)) λ role.
        Steps-bind KeepsRoles-then (Steps-Quiet KeepsRoles-same (search quiet_rules))
          λ _. Steps-on_pool _ _ KeepsRoles-same (insert_member-KeepsRoles h m "MEMBER")

-- Adding a member, whether it works or not, leaves the role of everybody who is in a household
-- as it was: the owner who is added again stays the owner.
add_household_member_keeps_roles :
    (owner household member : String) (w : World Db) (h u r : String)
    → select_role h u w.db ≡ ok r
    → select_role h u (add_household_member owner household member w).1.db ≡ ok r
unfolding KeepsRoles
add_household_member_keeps_roles owner household member w =
    (adding-Steps owner household member).after w

entered :
    (u h : String) (i : HouseholdTransactionInput) (db : Db)
    → Pooled
        (λ s. s ≡ db)
        (create_household_transaction u h i)
        (λ id s.
          ((r : String) × (select_role h u db ≡ ok r))
          × (leb_ℤ i.amount (pos 0) ≡ false)
          × ((t : ℕ) × (s.household_transactions
                ≡ household_row h u i t id ∷ db.household_transactions)))
unfolding create_household_transaction insert_household_tx
entered u h i db = Pooled-bind (Pooled-guard-passed _ _) λ _.
    Pooled-bind (Pooled-guard-passed _ _) λ _. Pooled-bind (Pooled-guard-passed _ _) λ _.
      Pooled-bind (Pooled-reading _ _) λ r. Pooled-bind Pooled-time_now λ t.
        Pooled-on_pool _ _ λ st s a s' p e. (
          (r, subst (λ d. select_role h u d ≡ ok r) p.0.0.0.0 p.1),
          p.0.1,
          (t, ground (arith, p.0.0.0.0)),
        )

-- A household transaction that is recorded was recorded by a member of the household, with an
-- amount above 0, and it is one new row of that household, before the rows that were there.
pub create_household_transaction_by_member :
    (u h : String) (i : HouseholdTransactionInput) (w : World Db) (id : String)
    → (create_household_transaction u h i w).0 ≡ ok id
    → ((r : String) × (select_role h u w.db ≡ ok r))
      × (leb_ℤ i.amount (pos 0) ≡ false)
      × ((t : ℕ) × ((create_household_transaction u h i w).1.db.household_transactions
            ≡ household_row h u i t id ∷ w.db.household_transactions))
create_household_transaction_by_member u h i w id e = (entered u h i w.db).after w id refl e

-- A household transaction that is refused, because the caller is no member or for any other
-- reason, leaves everything as it was.
pub create_household_transaction_atomic :
    (u h : String) (i : HouseholdTransactionInput) (w : World Db) (e : Error)
    → (create_household_transaction u h i w).0 ≡ err e
    → (create_household_transaction u h i w).1.db ≡ w.db
unfolding create_household_transaction
create_household_transaction_atomic u h i w e p =
    Atomic.same {m = create_household_transaction u h i}
      (search (atomic_rules, Atomic-on_pool) depth 12) w e p

joined-outsider :
    (u h : String) (from to : ℕ) (db : Db) (ms : List HouseholdMember)
    → exists (is_member h u) ms ≡ false
    → joined u h from to db ms ≡ []
unfolding joined
joined-outsider u h from to db [] e = refl
joined-outsider u h from to db (m ∷ ms) e = elim (Bool-cases (is_member h u m)) [
  | inl t ↦ ground arith
  | inr f ↦ rw f (joined-outsider u h from to db ms (ground arith))
]

seen_range :
    (u h : String) (from to : ℕ) (db : Db)
    → Pooled
        (λ s. s ≡ db)
        (fetch_household_range u h from to)
        (λ rows s. rows ≡ joined u h from to db db.members)
unfolding fetch_household_range
seen_range u h from to db = Pooled-bind (Pooled-guard-passed _ _) λ _.
    Pooled-on_pool _ _ λ st s a s' p e. ground (arith, ap (λ d. joined u h from to d d.members) p.0)

-- Who is no member of a household is shown no transaction of it, whatever it holds.
pub fetch_household_range_outsider :
    (u h : String) (from to : ℕ) (w : World Db) (rows : List HouseholdTx)
    → exists (is_member h u) w.db.members ≡ false
    → (fetch_household_range u h from to w).0 ≡ ok rows
    → rows ≡ []
fetch_household_range_outsider u h from to w rows o e =
    (seen_range u h from to w.db).after w rows refl e
    ∙ joined-outsider u h from to w.db w.db.members o
