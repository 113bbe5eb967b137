-- ===== src/Ledger/Money.antt =====
-- `formatMoney` and `formatInt` of ledger/summary.go. Money is in satang, so the `%.2f` is exact.
pub mod Groups
pub mod Signed
use thclaws_thai_ai_agent.Base.{
  ℕ, zero, suc, ◌+◌, ◌*◌, ◌/◌, ◌%◌, ◌^◌, String, if◌then◌else◌, ltb, ◌==◌, ◌≡◌, refl,
}
use thclaws_thai_ai_agent.Base.Int.{ℤ, pos, negsuc}
use thclaws_thai_ai_agent.Base.Text.{append}

abbrev pub char_at : String → ℕ → String
char_at String.[] n = ""
char_at (String.◌∷◌ c s) zero = String.◌∷◌ c ""
char_at (String.◌∷◌ c s) (suc n) = char_at s n

-- `%d` of a number below 10
unfoldable pub digit : ℕ → String
digit d = char_at "0123456789" d

-- `%03d` of a number below 1000
unfoldable pub padded : ℕ → String
unfolding digit append
padded n = append (digit (n / 100)) (append (digit (n / 10 % 10)) (digit (n % 10)))

-- `%d` of a number below 1000
unfoldable pub plain_digits : ℕ → String
unfolding digit append padded
plain_digits n =
    if ltb n 10
    then digit n
    else if ltb n 100
    then append (digit (n / 10)) (digit (n % 10))
    else padded n

-- The loop of `formatInt`: an `int64` has at most 7 groups of three digits.
unfoldable pub format_groups : ℕ → ℕ → String → String
unfolding padded plain_digits append
format_groups zero n digits = digits
format_groups (suc fuel) n digits =
    let group = n % 1000 in
    let left = n / 1000 in
    let text = if ltb 0 left then append "," (padded group) else plain_digits group in
    let rest = format_groups fuel left (append text digits) in if n == 0 then digits else rest

-- `formatInt`. The opposite of the least `int64` is itself, and the loop does not run.
unfoldable pub format_int : ℤ → String
unfolding append
format_int (pos n) = if n == 0 then "0" else format_groups 7 n ""
format_int (negsuc n) = append "-" (if suc n == 2 ^ 63 then "" else format_groups 7 (suc n) "")

-- `-n`
abbrev pub minus : ℕ → ℤ
minus zero = pos 0
minus (suc n) = negsuc n

-- `"." + strings.TrimRight(frac, "0")` of two digits, not both 0
abbrev fraction : ℕ → String
fraction c =
    append "." (if c % 10 == 0 then digit (c / 10) else append (digit (c / 10)) (digit (c % 10)))

-- `whole` and `frac` of a number of baht that is not whole
abbrev with_fraction : ℕ → String
with_fraction v = append (format_int (pos (v / 100))) (fraction (v % 100))

-- `formatMoney`; with a fraction the text is not "0"
unfoldable pub format_money : ℤ → String
unfolding format_int digit append
format_money (pos v) = if v % 100 == 0 then format_int (pos (v / 100)) else with_fraction v
format_money (negsuc v) =
    if suc v % 100 == 0
    then format_int (minus (suc v / 100))
    else append "-" (with_fraction (suc v))

format_money_lem : format_money (pos 123_456_050) ≡ "1,234,560.5"
unfolding format_money format_groups
format_money_lem = refl

format_money_negative : format_money (negsuc 4) ≡ "-0.05"
unfolding format_money format_groups
format_money_negative = refl

format_money_whole : format_money (negsuc 123_499) ≡ "-1,235"
unfolding format_money format_groups
format_money_whole = refl
