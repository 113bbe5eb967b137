-- ===== src/Line/Examples.antt =====
-- A Redis that counts, and the theorem on the limiter of line/ratelimit.go at a run with it.
use thclaws_thai_ai_agent.Base.{
  ℕ, suc, ◌-◌, String, ◌≡◌, refl, some, List, [], ◌∷◌, str_eq, eq_refl, if◌then◌else◌, tally,
}
use thclaws_thai_ai_agent.Line.RateLimit.{Redis}
use thclaws_thai_ai_agent.Line.RateLimit.Window.{
  IsCounting, lesser, limiter, check_all, passed, check_all-passed,
}

-- Counters by their keys, none of which expires.
abbrev counters : Redis (String → ℕ)
counters = record {
  incr = λ k r. (some (suc (r k)), λ j. if str_eq k j then suc (r k) else r j);
  expire = λ k t r. r;
}

abbrev count_in : (String → ℕ) → String → ℕ
count_in r k = r k

IsCounting-counters : IsCounting counters count_in
IsCounting-counters = record {
  answers = λ k r. refl;
  adds = λ k r. rw (eq_refl k) refl;
  others = λ k j r e. rw e refl;
  expires = λ k j t r. refl;
}

abbrev all_zero : String → ℕ
all_zero k = 0

abbrev senders : List String
senders = "a" ∷ "b" ∷ "a" ∷ "a" ∷ "b" ∷ []

-- Two of the three messages of "a" pass a limit of two.
check_all-passed_example :
    passed counters count_in IsCounting-counters 2 60 "a"
      (check_all counters (limiter counters count_in IsCounting-counters 2 60) senders all_zero)
    ≡ lesser (tally (λ v. str_eq v "a") senders) (2 - 0)
check_all-passed_example =
    check_all-passed counters count_in IsCounting-counters 2 60 "a" senders all_zero refl
