-- ===== src/Line/RateLimit/Window.antt =====
-- How many messages of each user pass the limiter of line/ratelimit.go in one window: proofs.
use text.Mathlib.TextLemmas.{tail-eq_of_cons-eq}
use thclaws_thai_ai_agent.Base.{
  ℕ, suc, ◌-◌, String, ◌≡◌, refl, Bool, true, false, ◌&&◌, some, List, [], ◌∷◌, if◌then◌else◌, leb,
  tally, str_eq, eq_iff, eq_refl, arith, Bool-cases, inl, inr, ap, ◌∙◌, sym, subst,
}
use thclaws_thai_ai_agent.Base.Int.{ℤ, pos}
use thclaws_thai_ai_agent.Base.Text.{is_empty, append}
use thclaws_thai_ai_agent.Line.RateLimit.{
  RateLimiter, RateLimitResult, Redis, key_of, judge, after_incr, check,
}

-- INCR adds one to its counter and to no other, and answers with the sum; EXPIRE leaves the
-- counters alone until the window is over.
pub record IsCounting {R : Type 0} (redis : Redis R) (count : R → String → ℕ) : Type 0 where
  pub answers : (k : String) (r : R) → (redis.incr k r).0 ≡ some (suc (count r k))
  pub adds : (k : String) (r : R) → count (redis.incr k r).1 k ≡ suc (count r k)
  pub others : (k j : String) (r : R) → str_eq k j ≡ false → count (redis.incr k r).1 j ≡ count r j
  pub expires : (k j : String) (t : ℤ) (r : R) → count (redis.expire k t r) j ≡ count r j

append-cancel : (p a b : String) → append p a ≡ append p b → a ≡ b
unfolding append
append-cancel String.[] a b e = e
append-cancel (String.◌∷◌ c p) a b e = append-cancel p a b (tail-eq_of_cons-eq e)

key_of-apart : (a b : String) → str_eq a b ≡ false → str_eq (key_of a) (key_of b) ≡ false
unfolding key_of
key_of-apart a b ne = elim (Bool-cases (str_eq (key_of a) (key_of b))) [
  | inr f ↦ f
  | inl t ↦
      subst (λ q. q ≡ false)
        (sym ne
          ∙ (eq_iff a b).1
              (append-cancel "ratelimit:line:" a b ((eq_iff (key_of a) (key_of b)).0 t))
          ∙ sym t)
        refl
]

abbrev pub lesser : ℕ → ℕ → ℕ
lesser a b = if leb a b then a else b

module _ {R : Type 0} (redis : Redis R) (l : RateLimiter) where
  -- One call of `Check` for each message, in the order of the messages.
  unfoldable pub check_all : List String → R → List (String × RateLimitResult)
  check_all [] r = []
  check_all (user ∷ rest) r =
      (user, (check redis l user r).0) ∷ check_all rest (check redis l user r).2

module _ {R : Type 0} (redis : Redis R) (count : R → String → ℕ) (h : IsCounting redis count)
    (n window : ℕ) where
  abbrev pub limiter : RateLimiter
  limiter = record { default_limit = pos n; default_window = pos window }

  -- What is left of a call by a user with a name: INCR has answered.
  check-counted :
      (user : String) (r : R)
      → is_empty user ≡ false
      → check redis limiter user r
        ≡ after_incr redis limiter user
            (some (suc (count r (key_of user))), (redis.incr (key_of user) r).1)
  unfolding check
  check-counted user r e = rw e (
      ap (λ o. after_incr redis limiter user (o, (redis.incr (key_of user) r).1))
        (h.answers (key_of user) r))

  check-allowed :
      (user : String) (r : R)
      → is_empty user ≡ false
      → (check redis limiter user r).0.allowed ≡ leb (suc (count r (key_of user))) n
  unfolding after_incr judge
  check-allowed user r e = rw (check-counted user r e) (ground arith)

  settled :
      (k j : String) (b : Bool) (t : ℤ) (r : R)
      → count (if b then redis.expire k t r else r) j ≡ count r j
  settled k j true t r = h.expires k j t r
  settled k j false t r = refl

  check-count :
      (user : String) (r : R)
      → is_empty user ≡ false
      → count (check redis limiter user r).2 (key_of user) ≡ suc (count r (key_of user))
  unfolding after_incr judge
  check-count user r e = rw (check-counted user r e) (settled _ _ _ _ _ ∙ h.adds (key_of user) r)

  check-count_other :
      (user other : String) (r : R)
      → str_eq user other ≡ false
      → count (check redis limiter user r).2 (key_of other) ≡ count r (key_of other)
  unfolding check after_incr judge
  check-count_other user other r ne = elim (Bool-cases (is_empty user)) [
    | inl e ↦ rw e refl
    | inr e ↦
        rw (check-counted user r e)
          (settled _ _ _ _ _ ∙ h.others (key_of user) (key_of other) r (key_of-apart user other ne))
  ]

  abbrev pub passed : String → List (String × RateLimitResult) → ℕ
  passed user = tally (λ (p : String × RateLimitResult). str_eq p.0 user && p.1.allowed)

  one_more :
      (m k c : ℕ)
      → k ≡ lesser m (n - suc c)
      → (if leb (suc c) n then suc k else k) ≡ lesser (suc m) (n - c)
  one_more m k c e = ground arith

  own_message :
      (user : String) (rest : List String) (r : R)
      → is_empty user ≡ false
      → passed user (check_all redis limiter rest (check redis limiter user r).2)
        ≡ lesser
            (tally (λ v. str_eq v user) rest)
            (n - count (check redis limiter user r).2 (key_of user))
      → passed user (check_all redis limiter (user ∷ rest) r)
        ≡ lesser (tally (λ v. str_eq v user) (user ∷ rest)) (n - count r (key_of user))
  unfolding check_all
  own_message user rest r e later =
      rw (eq_refl user, check-allowed user r e)
        (one_more (tally (λ v. str_eq v user) rest) _ (count r (key_of user)) (
          later
          ∙ ap (λ c. lesser (tally (λ v. str_eq v user) rest) (n - c)) (check-count user r e)))

  -- In one window the limiter lets through the messages of a user up to the limit and no more,
  -- whatever messages of other users come between them, given that Redis counts.
  pub check_all-passed :
      (user : String) (users : List String) (r : R)
      → is_empty user ≡ false
      → passed user (check_all redis limiter users r)
        ≡ lesser (tally (λ v. str_eq v user) users) (n - count r (key_of user))
  unfolding check_all
  check_all-passed user [] r e = ground arith
  check_all-passed user (v ∷ rest) r e = elim (Bool-cases (str_eq v user)) [
    | inl same ↦
        subst
          (λ x.
            passed user (check_all redis limiter (x ∷ rest) r)
            ≡ lesser (tally (λ y. str_eq y user) (x ∷ rest)) (n - count r (key_of user)))
          (sym ((eq_iff v user).0 same))
          (own_message user rest r e (check_all-passed user rest _ e))
    | inr other ↦ rw (other, check_all-passed user rest _ e, check-count_other v user r other) refl
  ]
