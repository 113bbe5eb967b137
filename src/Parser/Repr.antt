-- ===== src/Parser/Repr.antt =====
-- `pythonReprToJSON` of parser/vision.go: Python literals rewritten as JSON.
--
-- The code goes over bytes. It compares them with ASCII bytes only, which no byte of a longer code
-- point is, so that going over code points is the same. `i += 3` and `i += 4` behind a word are the
-- number of letters still to pass over.
use Prim.Native.Char.{Char, code}
use text.Mathlib.TextEquality.{Char-path}
use thclaws_thai_ai_agent.Base.{
  ℕ, zero, suc, String, ◌≡◌, refl, Bool, true, false, not, ◌&&◌, ◌||◌, ◌==◌, if◌then◌else◌, leb,
  arith, ap, sym, Bool-cases, inl, inr,
}
use thclaws_thai_ai_agent.Base.Text.{append}

-- `isWordChar`
unfoldable pub is_word_char : Char → Bool
is_word_char c =
    let k = code c in
    (leb b'A' k && leb k b'Z')
    || (leb b'a' k && leb k b'z')
    || (leb b'0' k && leb k b'9')
    || k == b'_'

-- The text goes on with the rest of the word, and not with a letter behind it.
unfoldable pub ends_word : String → String → Bool
unfolding is_word_char
ends_word String.[] String.[] = true
ends_word (String.◌∷◌ c s) String.[] = not (is_word_char c)
ends_word String.[] (String.◌∷◌ d w) = false
ends_word (String.◌∷◌ c s) (String.◌∷◌ d w) = code c == code d && ends_word s w

-- Where the loop is: `skip` letters of a word to pass over, or behind a byte that is a letter or
-- not, or in a string with its quote.
pub data State : Type 0 where
  skip : ℕ → State
  outside : Bool → State
  inside escaped : Char → State

abbrev is_quote : Char → Bool
is_quote c = code c == 0x22 || code c == 0x27

-- `matchesWord` at a byte behind one that is a letter or not
unfoldable pub matches_word : Bool → Char → String → String → Bool
unfolding ends_word
matches_word behind_letter c rest word = not behind_letter && ends_word (String.◌∷◌ c rest) word

-- One round in a string whose quote is `q`.
unfoldable pub in_string : Char → Char → String × State
in_string q c =
    if code c == 0x5c
    then (String.◌∷◌ c "", escaped q)
    else if code c == code q
    then ((if code q == 0x27 then "\"" else String.◌∷◌ c ""), outside (is_word_char c))
    else if code c == 0x22 && code q == 0x27
    then ("\\\"", inside q)
    else (String.◌∷◌ c "", inside q)

-- One round outside of strings.
unfoldable pub in_code : Bool → Char → String → String × State
unfolding is_word_char matches_word
in_code behind_letter c rest =
    if is_quote c
    then ("\"", inside c)
    else if matches_word behind_letter c rest "True"
    then ("true", skip 3)
    else if matches_word behind_letter c rest "False"
    then ("false", skip 4)
    else if matches_word behind_letter c rest "None"
    then ("null", skip 3)
    else (String.◌∷◌ c "", outside (is_word_char c))

unfoldable pub round : State → Char → String → String × State
unfolding in_string in_code is_word_char
round (skip zero) c rest = in_code true c rest
round (skip (suc zero)) c rest = ("", outside (is_word_char c))
round (skip (suc (suc n))) c rest = ("", skip (suc n))
round (outside behind_letter) c rest = in_code behind_letter c rest
round (inside q) c rest = in_string q c
round (escaped q) c rest = (String.◌∷◌ c "", inside q)

unfoldable pub rewrite_from : State → String → String
unfolding round append
rewrite_from st String.[] = ""
rewrite_from st (String.◌∷◌ c rest) =
    let (out, next) = round st c rest in append out (rewrite_from next rest)

-- `pythonReprToJSON`
unfoldable pub python_repr_to_json : String → String
unfolding rewrite_from
python_repr_to_json content = rewrite_from (outside false) content

python_repr_to_json_lem :
    python_repr_to_json "{'isSlip': True, 'note': 'a \"b\"', 'x': None, 'Trueness': False}"
    ≡ "{\"isSlip\": true, \"note\": \"a \\\"b\\\"\", \"x\": null, \"Trueness\": false}"
unfolding python_repr_to_json
python_repr_to_json_lem = refl

-- No single quote, and no letter that starts a Python literal.
abbrev pub is_plain_char : Char → Bool
is_plain_char c = not (code c == 0x27 || code c == b'T' || code c == b'F' || code c == b'N')

unfoldable pub is_plain : String → Bool
is_plain String.[] = true
is_plain (String.◌∷◌ c s) = is_plain_char c && is_plain s

is_calm : State → Bool
is_calm (skip n) = false
is_calm (outside b) = true
is_calm (inside q) = code q == 0x22
is_calm (escaped q) = code q == 0x22

abbrev Unchanged : Char → String × State → Type 0
Unchanged c r = (r.0 ≡ String.◌∷◌ c "") × (is_calm r.1 ≡ true)

in_string-plain :
    (q c : Char) → code q == 0x22 ≡ true → is_plain_char c ≡ true → Unchanged c (in_string q c)
unfolding in_string is_calm
in_string-plain q c h p = elim (Bool-cases (code c == 0x5c)) [
  | inl e ↦ rw e (refl, h)
  | inr e ↦ elim (Bool-cases (code c == code q)) [ inl s ↦ ground arith | inr s ↦ ground arith ]
]

ends_word-plain :
    (b : Bool) (c d : Char) (rest w : String)
    → (code c == code d) ≡ false
    → matches_word b c rest (String.◌∷◌ d w) ≡ false
unfolding matches_word ends_word
ends_word-plain b c d rest w h = ground arith

is_double : (c : Char) → is_plain_char c ≡ true → is_quote c ≡ true → code c ≡ 0x22
is_double c p q = ground arith

same_letter : (c : Char) → code c ≡ 0x22 → "\"" ≡ String.◌∷◌ c ""
same_letter c e = ap (λ d. String.◌∷◌ d "") (Char-path "\"" c (sym e))

in_code-plain :
    (b : Bool) (c : Char) (rest : String) → is_plain_char c ≡ true → Unchanged c (in_code b c rest)
unfolding in_code is_calm
in_code-plain b c rest p = elim (Bool-cases (is_quote c)) [
  | inl q ↦ rw q (same_letter c (is_double c p q), ground (arith, is_double c p q))
  | inr q ↦
      rw
        (
          q,
          ends_word-plain b c "T" rest "rue" (ground arith),
          ends_word-plain b c "F" rest "alse" (ground arith),
          ends_word-plain b c "N" rest "one" (ground arith),
        )
        (refl, refl)
]

round-plain :
    (st : State) (c : Char) (rest : String)
    → is_calm st ≡ true
    → is_plain_char c ≡ true
    → Unchanged c (round st c rest)
unfolding round is_calm
round-plain (skip n) c rest h p = cc
round-plain (outside b) c rest h p = in_code-plain b c rest p
round-plain (inside q) c rest h p = in_string-plain q c h p
round-plain (escaped q) c rest h p = (refl, h)

rewrite_from-plain :
    (s : String) (st : State) → is_calm st ≡ true → is_plain s ≡ true → rewrite_from st s ≡ s
unfolding rewrite_from is_plain append
rewrite_from-plain String.[] st h p = refl
rewrite_from-plain (String.◌∷◌ c s) st h p = elim (Bool-cases (is_plain_char c)) [
  | inr f ↦ ground arith
  | inl t ↦
      let (same, calm) = round-plain st c s h t in
      rw same (ap (λ r. String.◌∷◌ c r) (rewrite_from-plain s _ calm (rw t at p)))
]

-- A text that has no single quote and none of the letters T, F and N, such as most JSON, is
-- left as it is.
pub python_repr_to_json-plain : (s : String) → is_plain s ≡ true → python_repr_to_json s ≡ s
unfolding python_repr_to_json is_calm
python_repr_to_json-plain s p = rewrite_from-plain s (outside false) refl p
