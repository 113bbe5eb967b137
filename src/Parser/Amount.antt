-- ===== src/Parser/Amount.antt =====
-- `parseThaiAmount`, `thaiAmountTokens` and `thaiDigit` of parser/transaction.go.
--
-- An `int` is 64 bits wide: it is kept as its residue modulo 2 ^ 64. The loop of
-- `thaiAmountTokens` runs on fuel, the length of the text, which is enough as a token is not empty.
pub mod Tokens
use Prim.Native.Char.{Char, code}
use thclaws_thai_ai_agent.Base.{
  ℕ, zero, suc, ◌+◌, ◌-◌, ◌*◌, ◌%◌, ◌^◌, ◌≤◌, String, ◌≡◌, refl, Bool, true, false, ◌&&◌, ◌||◌,
  Option, none, some, List, [], ◌∷◌, ◌==◌, str_eq, eq_iff, if◌then◌else◌, ltb, find_first,
  Option-cases, Bool-cases, inl, inr, arith, ap, ◌∙◌, sym, subst,
}
use thclaws_thai_ai_agent.Base.Int.{ℤ, pos, negsuc}
use thclaws_thai_ai_agent.Base.Text.{is_empty, trim_space, append, has_prefix, size}

abbrev pub words : List String
words =
    "ศูนย์" ∷ "หนึ่ง" ∷ "นึง" ∷ "เอ็ด" ∷ "สอง" ∷ "สาม" ∷ "สี่" ∷ "ห้า" ∷ "หก" ∷ "เจ็ด" ∷ "แปด"
    ∷ "เก้า" ∷ "สิบ" ∷ "ยี่" ∷ "ร้อย" ∷ "พัน" ∷ "หมื่น" ∷ "แสน" ∷ "ล้าน" ∷ []

-- `strings.TrimPrefix(s, p)` where `p` is a prefix
unfoldable pub drop_prefix : String → String → String
drop_prefix s String.[] = s
drop_prefix String.[] (String.◌∷◌ d t) = ""
drop_prefix (String.◌∷◌ c s) (String.◌∷◌ d t) = drop_prefix s t

-- The first of the words that the text starts with.
unfoldable pub next_word : String → Option String
unfolding has_prefix
next_word text = find_first (has_prefix text) words

-- The tokens, with what is left of the text.
unfoldable pub tokens_from : ℕ → String → List String × String
unfolding next_word drop_prefix
tokens_from zero text = ([], text)
tokens_from (suc fuel) text = elim (next_word text) [
  | none ↦ ([], text)
  | some tok ↦ let (toks, left) = tokens_from fuel (drop_prefix text tok) in (tok ∷ toks, left)
]

-- `thaiAmountTokens`
unfoldable pub thai_amount_tokens : String → List String
unfolding tokens_from
thai_amount_tokens text = (tokens_from (size text) text).0

abbrev is_one_of : String → List String → Bool
is_one_of s [] = false
is_one_of s (w ∷ ws) = str_eq s w || is_one_of s ws

-- `thaiDigit`
unfoldable pub thai_digit : String → Option ℕ
thai_digit tok =
    if str_eq tok "ศูนย์"
    then some 0
    else if is_one_of tok ("หนึ่ง" ∷ "นึง" ∷ "เอ็ด" ∷ [])
    then some 1
    else if str_eq tok "สอง"
    then some 2
    else if str_eq tok "สาม"
    then some 3
    else if str_eq tok "สี่"
    then some 4
    else if str_eq tok "ห้า"
    then some 5
    else if str_eq tok "หก"
    then some 6
    else if str_eq tok "เจ็ด"
    then some 7
    else if str_eq tok "แปด"
    then some 8
    else if str_eq tok "เก้า"
    then some 9
    else none

-- The variables of the loop.
pub record Sum : Type 0 where
  pub total : ℕ
  pub current : ℕ
  pub last_was_unit : Bool

abbrev pub wrap64 : ℕ → ℕ
wrap64 n = n % 2 ^ 64

-- The case of a unit below ล้าน.
unfoldable pub take_unit : ℕ → Sum → Sum
take_unit u s = record s {
  current = wrap64 (if s.current == 0 || s.last_was_unit then s.current + u else s.current * u);
  last_was_unit = true;
}

unfoldable pub take_million : Sum → Sum
take_million s = record {
  total = wrap64 (s.total + (if s.current == 0 then 1 else s.current) * 1_000_000);
  current = 0;
  last_was_unit = true;
}

unfoldable pub take_ones : ℕ → Sum → Sum
take_ones d s = record s { current = wrap64 (s.current + d); last_was_unit = false }

-- The `switch` of the loop.
unfoldable pub take_token : String → Sum → Option Sum
unfolding take_unit take_million take_ones thai_digit
take_token tok s =
    if str_eq tok "ล้าน"
    then some (take_million s)
    else if str_eq tok "แสน"
    then some (take_unit 100_000 s)
    else if str_eq tok "หมื่น"
    then some (take_unit 10_000 s)
    else if str_eq tok "พัน"
    then some (take_unit 1_000 s)
    else if str_eq tok "ร้อย"
    then some (take_unit 100 s)
    else if str_eq tok "สิบ"
    then some (take_unit 10 s)
    else if str_eq tok "ยี่"
    then some (take_ones 2 s)
    else elim (thai_digit tok) [ none ↦ none | some d ↦ some (take_ones d s) ]

unfoldable pub take_tokens : List String → Sum → Option Sum
unfolding take_token
take_tokens [] s = some s
take_tokens (tok ∷ rest) s = elim (take_token tok s) [
  | none ↦ none
  | some next ↦ take_tokens rest next
]

-- The `int` of a residue.
abbrev signed : ℕ → ℤ
signed n = if ltb n (2 ^ 63) then pos n else negsuc (2 ^ 64 - 1 - n)

abbrev answer : Option Sum → ℤ × Bool
answer none = (pos 0, false)
answer (some s) = let n = wrap64 (s.total + s.current) in (signed n, ltb 0 n && ltb n (2 ^ 63))

abbrev amount_of : List String → ℤ × Bool
amount_of [] = (pos 0, false)
amount_of (tok ∷ rest) =
    answer (take_tokens (tok ∷ rest) (record { total = 0; current = 0; last_was_unit = false }))

-- `parseThaiAmount`; the number is exact in the `float64` up to 2 ^ 53
unfoldable pub parse_thai_amount : String → ℤ × Bool
unfolding thai_amount_tokens take_tokens
parse_thai_amount text =
    if is_empty (trim_space text)
    then (pos 0, false)
    else amount_of (thai_amount_tokens (trim_space text))

parse_thai_amount_two_thousand : parse_thai_amount "สองพันบาท" ≡ (pos 2000, true)
unfolding parse_thai_amount trim_space
parse_thai_amount_two_thousand = refl

-- 250 is read as 2050: the digit before สิบ multiplies what came before it, too.
parse_thai_amount_two_hundred_and_fifty : parse_thai_amount "สองร้อยห้าสิบ" ≡ (pos 2050, true)
unfolding parse_thai_amount trim_space
parse_thai_amount_two_hundred_and_fifty = refl
