-- ===== src/Base/Scan.antt =====
-- Searches in a text: `strings.Replace`, `strings.Fields`, `strings.Trim` and what the patterns of
-- Go's `regexp` in this program are made of.
use Prim.Native.Char.{Char, code}
use thclaws_thai_ai_agent.Base.{
  ℕ, zero, suc, ◌-◌, String, Bool, true, false, ◌&&◌, ◌||◌, Option, none, some, List, [], ◌∷◌, ◌==◌,
  leb, str_eq, if◌then◌else◌, ◌≡◌, refl,
}
use thclaws_thai_ai_agent.Base.Text.{is_empty, is_space, append, has_prefix, contains, size}

abbrev pub Phrases : Type 0
Phrases = List String

-- `for _, p := range phrases { if strings.Contains(text, p) { return true } }; return false`
unfoldable pub contains_any : String → Phrases → Bool
unfolding contains
contains_any text [] = false
contains_any text (p ∷ ps) = contains text p || contains_any text ps

-- `^(a|b|…)$`
unfoldable pub is_any : String → Phrases → Bool
is_any text [] = false
is_any text (p ∷ ps) = str_eq text p || is_any text ps

-- `^(a|b|…)`
unfoldable pub starts_any : String → Phrases → Bool
unfolding has_prefix
starts_any text [] = false
starts_any text (p ∷ ps) = has_prefix text p || starts_any text ps

abbrev is_newline : Char → Bool
is_newline c = code c == 10

-- What `.*` can run over.
unfoldable pub line_of : String → String
line_of String.[] = ""
line_of (String.◌∷◌ c s) = let rest = line_of s in if is_newline c then "" else String.◌∷◌ c rest

-- The text without its first characters.
unfoldable pub skip : ℕ → String → String
skip zero s = s
skip (suc n) String.[] = ""
skip (suc n) (String.◌∷◌ c s) = skip n s

-- The text up to a number of characters.
unfoldable pub first_chars : ℕ → String → String
first_chars zero s = ""
first_chars (suc n) String.[] = ""
first_chars (suc n) (String.◌∷◌ c s) = String.◌∷◌ c (first_chars n s)

-- `a.*(b|c|…)`
unfoldable pub followed_by : String → String → Phrases → Bool
unfolding has_prefix contains_any line_of skip
followed_by String.[] a bs = false
followed_by (String.◌∷◌ c s) a bs =
    (has_prefix (String.◌∷◌ c s) a && contains_any (line_of (skip (size a) (String.◌∷◌ c s))) bs)
    || followed_by s a bs

-- What follows the first place of a phrase.
unfoldable pub after : String → String → Option String
unfolding has_prefix skip
after String.[] p = if is_empty p then some "" else none
after (String.◌∷◌ c s) p =
    let later = after s p in
    if has_prefix (String.◌∷◌ c s) p then some (skip (size p) (String.◌∷◌ c s)) else later

-- What comes before the first place of a phrase; the whole text if it has none.
unfoldable pub before : String → String → String
unfolding has_prefix
before String.[] p = ""
before (String.◌∷◌ c s) p =
    let rest = before s p in if has_prefix (String.◌∷◌ c s) p then "" else String.◌∷◌ c rest

replace_from : ℕ → String → String → String → String
unfolding has_prefix append
replace_from skipped old new String.[] = ""
replace_from (suc n) old new (String.◌∷◌ c s) = replace_from n old new s
replace_from zero old new (String.◌∷◌ c s) =
    let found = replace_from (size old - 1) old new s in
    let rest = replace_from zero old new s in
    if has_prefix (String.◌∷◌ c s) old then append new found else String.◌∷◌ c rest

-- `strings.ReplaceAll`, of a text that is not empty
unfoldable pub replace_all : String → String → String → String
unfolding replace_from
replace_all s old new = replace_from zero old new s

-- `strings.Replace(s, old, "", 1)`
unfoldable pub remove_first : String → String → String
unfolding has_prefix skip
remove_first String.[] old = ""
remove_first (String.◌∷◌ c s) old =
    let rest = remove_first s old in
    if has_prefix (String.◌∷◌ c s) old then skip (size old) (String.◌∷◌ c s) else String.◌∷◌ c rest

-- `strings.TrimSuffix`
unfoldable pub trim_suffix : String → String → String
trim_suffix String.[] t = ""
trim_suffix (String.◌∷◌ c s) t =
    let rest = trim_suffix s t in if str_eq (String.◌∷◌ c s) t then "" else String.◌∷◌ c rest

-- Is the character one of the text's?
unfoldable pub is_in : Char → String → Bool
is_in c String.[] = false
is_in c (String.◌∷◌ d s) = code c == code d || is_in c s

trim_start : String → String → String
unfolding is_in
trim_start cutset String.[] = ""
trim_start cutset (String.◌∷◌ c s) =
    let rest = trim_start cutset s in if is_in c cutset then rest else String.◌∷◌ c s

trim_end : String → String → String
unfolding is_in
trim_end cutset String.[] = ""
trim_end cutset (String.◌∷◌ c s) =
    let rest = trim_end cutset s in
    if is_empty rest && is_in c cutset then "" else String.◌∷◌ c rest

-- `strings.Trim`
unfoldable pub trim : String → String → String
unfolding trim_start trim_end
trim s cutset = trim_end cutset (trim_start cutset s)

abbrev with_word : String → List String → List String
with_word w ws = if is_empty w then ws else w ∷ ws

-- The word that the text goes on with, and the words after it.
split_words : String → String × List String
unfolding is_space
split_words String.[] = ("", [])
split_words (String.◌∷◌ c s) =
    let (w, ws) = split_words s in if is_space c then ("", with_word w ws) else (String.◌∷◌ c w, ws)

-- `strings.Fields`
unfoldable pub fields : String → List String
unfolding split_words
fields s = let (w, ws) = split_words s in with_word w ws

-- `strings.Join`
unfoldable pub join : String → List String → String
unfolding append
join sep [] = ""
join sep (w ∷ []) = w
join sep (w ∷ v ∷ ws) = append w (append sep (join sep (v ∷ ws)))

-- `[0-9]`
abbrev pub is_digit : Char → Bool
is_digit c = let k = code c in leb 48 k && leb k 57

-- `\s` of `regexp`
abbrev pub is_blank : Char → Bool
is_blank c = let k = code c in k == 9 || k == 10 || k == 12 || k == 13 || k == 32

-- `^\s*`
unfoldable pub skip_blanks : String → String
skip_blanks String.[] = ""
skip_blanks (String.◌∷◌ c s) =
    let rest = skip_blanks s in if is_blank c then rest else String.◌∷◌ c s

replace_all_lem : replace_all "1,000,000 aaa" "aa" "b" ≡ "1,000,000 ba"
unfolding replace_all
replace_all_lem = refl

fields_lem : join "+" (fields "  a bc\n d ") ≡ "a+bc+d"
unfolding fields join
fields_lem = refl

followed_by_lem : followed_by "xaa\nb ac b" "a" ("b" ∷ []) ≡ true
unfolding followed_by
followed_by_lem = refl

trim_suffix_lem : trim_suffix "60บาท" "บาท" ≡ "60"
unfolding trim_suffix
trim_suffix_lem = refl
