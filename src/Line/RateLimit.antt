-- ===== src/Line/RateLimit.antt =====
-- The rate limiter of line/ratelimit.go: a counter in Redis for each user, in fixed windows.
--
-- Redis is a parameter: its state is a type, and `incr` and `expire` are its commands. A duration
-- is in nanoseconds. Log lines are left out; the counters of the metrics are kept.
pub mod Window
use thclaws_thai_ai_agent.Base.{
  ℕ, ◌-◌, ◌/◌, String, Bool, true, false, Option, none, some, List, [], ◌∷◌, ◌==◌, if◌then◌else◌,
}
use thclaws_thai_ai_agent.Base.Int.{ℤ, pos, negsuc, ◌-ℤ◌, leb_ℤ, ltb_ℤ, pos_part, neg_part}
use thclaws_thai_ai_agent.Base.Text.{is_empty, append}

abbrev default_rate_limit : ℕ
default_rate_limit = 30

-- 60 seconds
abbrev default_rate_window : ℕ
default_rate_window = 60_000_000_000

-- What `RateLimiter` is set up with.
pub record RateLimiter : Type 0 where
  pub default_limit : ℤ
  pub default_window : ℤ

-- `NewRateLimiter`
unfoldable pub new_rate_limiter : ℤ → ℤ → RateLimiter
new_rate_limiter limit window = record {
  default_limit = if leb_ℤ limit (pos 0) then pos default_rate_limit else limit;
  default_window = if leb_ℤ window (pos 0) then pos default_rate_window else window;
}

-- `RateLimitResult`
pub record RateLimitResult : Type 0 where
  pub allowed : Bool
  pub remaining : ℤ
  pub reset_seconds : ℤ

-- The commands that the limiter sends; none is an error of `INCR`, one of `EXPIRE` is ignored.
pub record Redis (R : Type 0) : Type 0 where
  pub incr : String → R → Option ℕ × R
  pub expire : String → ℤ → R → R

-- `int(d.Seconds())`
abbrev seconds_of : ℤ → ℤ
seconds_of d = pos (pos_part d / 1_000_000_000) -ℤ pos (neg_part d / 1_000_000_000)

-- `fmt.Sprintf("ratelimit:line:%s", lineUserID)`
unfoldable pub key_of : String → String
unfolding append
key_of user = append "ratelimit:line:" user

abbrev fail_open : RateLimitResult
fail_open = record { allowed = true; remaining = negsuc 0; reset_seconds = pos 0 }

-- What `Check` makes of the count.
unfoldable pub judge : RateLimiter → ℕ → RateLimitResult × List String
judge l count =
    if ltb_ℤ l.default_limit (pos count)
    then (
      record { allowed = false; remaining = pos 0; reset_seconds = seconds_of l.default_window },
      "line_ratelimit_hit_total" ∷ "line_ratelimit_blocked_total" ∷ [],
    )
    else (
      record {
        allowed = true;
        remaining = l.default_limit -ℤ pos count;
        reset_seconds = seconds_of l.default_window;
      },
      "line_ratelimit_hit_total" ∷ [],
    )

module _ {R : Type 0} (redis : Redis R) (l : RateLimiter) where
  -- `Check` behind `Incr`: the decision, the metrics, and Redis after it
  unfoldable pub after_incr : String → Option ℕ × R → RateLimitResult × List String × R
  unfolding judge
  after_incr user (none, r) = (fail_open, [], r)
  after_incr user (some count, r) =
      let (result, metrics) = judge l count in
      (result, metrics, if count == 1 then redis.expire (key_of user) l.default_window r else r)

  -- `Check`
  unfoldable pub check : String → R → RateLimitResult × List String × R
  unfolding after_incr
  check user r =
      if is_empty user then (fail_open, [], r) else after_incr user (redis.incr (key_of user) r)
