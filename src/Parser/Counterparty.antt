-- ===== src/Parser/Counterparty.antt =====
-- `extractCounterparty` and `cleanCounterparty` of parser/transaction.go.
use Prim.Native.Char.{Char}
use thclaws_thai_ai_agent.Base.{
  ℕ, zero, suc, String, Bool, true, false, not, ◌&&◌, Option, none, some, List, [], ◌∷◌,
  if◌then◌else◌, ◌≡◌, refl,
}
use thclaws_thai_ai_agent.Base.Text.{is_empty, trim_space, has_prefix, contains, size}
use thclaws_thai_ai_agent.Base.Scan.{
  Phrases, is_any, starts_any, skip, skip_blanks, is_digit, is_blank, fields, join, trim,
}

-- `[^\s\d]`
abbrev is_name_char : Char → Bool
is_name_char c = not (is_blank c) && not (is_digit c)

abbrev and_before : Char → Option String → Option String
and_before c none = none
and_before c (some s) = some (String.◌∷◌ c s)

abbrev or_stop : Option String → Option String → Option String
or_stop (some s) stop = some s
or_stop none stop = stop

-- The longest `[^\s\d]*(\s+[^\s\d]+){0,n}` from here on. At a gap a blank was read, and a word must come.
unfoldable pub names : String → ℕ → Bool → Option String
names String.[] n gap = if gap then none else some ""
names (String.◌∷◌ c s) n true =
    let blank = names s n true in
    let word = names s n false in
    if is_blank c then and_before c blank else if is_digit c then none else and_before c word
names (String.◌∷◌ c s) zero false =
    let word = names s zero false in if is_name_char c then and_before c word else some ""
names (String.◌∷◌ c s) (suc n) false =
    let word = names s (suc n) false in
    let gap = names s n true in
    if is_name_char c
    then and_before c word
    else if is_blank c
    then or_stop (and_before c gap) (some "")
    else some ""

abbrev starts_name : String → Bool
starts_name String.[] = false
starts_name (String.◌∷◌ c s) = is_name_char c

-- `(?:a|b|…)\s*([^\s\d]+(?:\s+[^\s\d]+){0,3})` from here on, `none` if a phrase does not start here
abbrev name_after : Phrases → String → Option String
name_after [] text = none
name_after (p ∷ ps) text =
    let left = skip_blanks (skip (size p) text) in
    if has_prefix text p && starts_name left then names left 3 false else name_after ps text

-- Its first match in the text: `receivedFromPat` and `paidToPattern`
unfoldable pub find_name : Phrases → String → Option String
unfolding names has_prefix skip skip_blanks
find_name ps String.[] = none
find_name ps (String.◌∷◌ c s) =
    let later = find_name ps s in or_stop (name_after ps (String.◌∷◌ c s)) later

abbrev received : Phrases
received = "รับจาก" ∷ "ได้เงินจาก" ∷ "รับเงินจาก" ∷ "รายรับจาก" ∷ "ขายให้" ∷ []

abbrev paid : Phrases
paid = "จ่ายให้" ∷ "โอนให้" ∷ []

-- `\s*(?:ให้เงิน|ให้ตัง|ให้ตังค์|โอนให้|ให้มา)`
unfoldable pub gives : String → Bool
unfolding starts_any skip_blanks
gives text =
    starts_any (skip_blanks text) ("ให้เงิน" ∷ "ให้ตัง" ∷ "ให้ตังค์" ∷ "โอนให้" ∷ "ให้มา" ∷ [])

-- `[^\s\d]*(\s+[^\s\d]+){0,n}` from here on, the longest that `gives` follows
unfoldable pub giver_from : String → ℕ → Bool → Option String
unfolding gives
giver_from String.[] n gap = none
giver_from (String.◌∷◌ c s) n true =
    let blank = giver_from s n true in
    let word = giver_from s n false in
    if is_blank c then and_before c blank else if is_digit c then none else and_before c word
giver_from (String.◌∷◌ c s) zero false =
    let word = giver_from s zero false in
    let stop = if gives (String.◌∷◌ c s) then some "" else none in
    if is_name_char c then or_stop (and_before c word) stop else stop
giver_from (String.◌∷◌ c s) (suc n) false =
    let word = giver_from s (suc n) false in
    let gap = giver_from s n true in
    let stop = if gives (String.◌∷◌ c s) then some "" else none in
    if is_name_char c
    then or_stop (and_before c word) stop
    else if is_blank c
    then or_stop (and_before c gap) stop
    else stop

-- `giverPattern`
unfoldable pub find_giver : String → Option String
unfolding giver_from
find_giver String.[] = none
find_giver (String.◌∷◌ c s) = if is_name_char c then and_before c (giver_from s 2 false) else none

abbrev edges : String
edges = " :：,，.。"

-- The parts up to the first one that stops the name.
parts_before : List String → List String
unfolding trim is_any
parts_before [] = []
parts_before (part ∷ parts) =
    let rest = parts_before parts in
    let p = trim part edges in
    if is_any p ("บาท" ∷ "ครับ" ∷ "ค่ะ" ∷ "นะ" ∷ "แล้ว" ∷ "เพิ่ม" ∷ "อีก" ∷ [])
    then []
    else p ∷ rest

-- `cleanCounterparty`
unfoldable pub clean_counterparty : String → String
unfolding trim trim_space fields parts_before join
clean_counterparty value = join " " (parts_before (fields (trim (trim_space value) edges)))

-- The cases of `extractCounterparty`, by what the patterns find: the name and its role
abbrev named : Bool → String → Option String → Option String → Option String → String × String
named is_income text (some name) giver payee = (clean_counterparty name, "from")
named is_income text none (some name) payee = (clean_counterparty name, "from")
named is_income text none none (some name) =
    (clean_counterparty name, if is_income && contains text "ให้เงิน" then "from" else "to")
named is_income text none none none = ("", "")

-- `extractCounterparty`
unfoldable pub extract_counterparty : String → Bool → String × String
unfolding trim_space find_name find_giver clean_counterparty contains
extract_counterparty text is_income =
    let t = trim_space text in
    if is_empty t
    then ("", "")
    else named is_income t (find_name received t) (find_giver t) (find_name paid t)

extract_counterparty_giver : extract_counterparty "แม่ให้เงิน 500" true ≡ ("แม่", "from")
unfolding extract_counterparty
extract_counterparty_giver = refl

extract_counterparty_payee : extract_counterparty "โอนให้ สม ชาย บาท 20" false ≡ ("สม ชาย", "to")
unfolding extract_counterparty
extract_counterparty_payee = refl
