-- ===== src/Parser/Amount/Tokens.antt =====
-- `thaiAmountTokens` of parser/transaction.go: proofs.
use Prim.Native.Char.{code}
use thclaws_thai_ai_agent.Base.{
  ℕ, zero, suc, ◌+◌, ◌≤◌, String, ◌≡◌, refl, Bool, true, false, not, ◌&&◌, none, some, List, [],
  ◌∷◌, ◌==◌, find_first, Option-cases, Bool-cases, inl, inr, arith, ap, ◌∙◌, sym, subst,
}
use text.Mathlib.TextEquality.{Char-path}
use thclaws_thai_ai_agent.Base.Text.{is_empty, append, has_prefix, size}
use thclaws_thai_ai_agent.Parser.Amount.{
  next_word, words, drop_prefix, tokens_from, thai_amount_tokens,
}

pub joined : List String → String
joined [] = ""
joined (s ∷ ss) = append s (joined ss)

append_assoc_text : (s t u : String) → append (append s t) u ≡ append s (append t u)
unfolding append
append_assoc_text String.[] t u = refl
append_assoc_text (String.◌∷◌ c s) t u = ap (λ r. String.◌∷◌ c r) (append_assoc_text s t u)

some_inj : (x y : String) → some x ≡ some y → x ≡ y
some_inj x y e = ground arith

drop_prefix-append : (s p : String) → has_prefix s p ≡ true → append p (drop_prefix s p) ≡ s
unfolding has_prefix drop_prefix append
drop_prefix-append s String.[] h = ground arith
drop_prefix-append String.[] (String.◌∷◌ d t) h = cc
drop_prefix-append (String.◌∷◌ c s) (String.◌∷◌ d t') h = elim (Bool-cases (code c == code d)) [
  | inr f ↦ ground arith
  | inl t ↦
      ap (λ r. String.◌∷◌ d r) (drop_prefix-append s t' (rw t at h))
      ∙ ap (λ x. String.◌∷◌ x s) (sym (Char-path c d (ground arith)))
]

found-passes :
    (p : String → Bool) (ws : List String) (w : String) → find_first p ws ≡ some w → p w ≡ true
found-passes p [] w e = cc
found-passes p (x ∷ ws) w e = elim (Bool-cases (p x)) [
  | inl t ↦ subst (λ y. p y ≡ true) (some_inj x w (rw t at e)) t
  | inr f ↦ found-passes p ws w (rw f at e)
]

abbrev all_words : List String → Bool
all_words [] = true
all_words (w ∷ ws) = not (is_empty w) && all_words ws

found-is_word :
    (p : String → Bool) (ws : List String) (w : String)
    → all_words ws ≡ true
    → find_first p ws ≡ some w
    → is_empty w ≡ false
found-is_word p [] w a e = cc
found-is_word p (x ∷ ws) w a e = elim (Bool-cases (p x)) [
  | inl t ↦ subst (λ y. is_empty y ≡ false) (some_inj x w (rw t at e)) (ground arith)
  | inr f ↦ found-is_word p ws w (ground arith) (rw f at e)
]

size-append : (s t : String) → size (append s t) ≡ size s + size t
unfolding append
size-append String.[] t = omega arith
size-append (String.◌∷◌ c s) t = omega (arith, size-append s t)

size-word : (w : String) → is_empty w ≡ false → suc zero ≤ size w
size-word String.[] h = cc
size-word (String.◌∷◌ c s) h = omega arith

-- What is dropped is a word, and the text gets shorter.
shorter :
    (text tok : String) → next_word text ≡ some tok → suc (size (drop_prefix text tok)) ≤ size text
unfolding next_word
shorter text tok e =
    let whole =
      ap size (drop_prefix-append text tok (found-passes (has_prefix text) words tok e)) in
    omega (
      arith,
      whole,
      size-append tok (drop_prefix text tok),
      size-word tok (found-is_word (has_prefix text) words tok refl e),
    )

Reads : List String × String → String → Type 0
Reads r text = (append (joined r.0) r.1 ≡ text) × (next_word r.1 ≡ none)

next_word-prefix : (text tok : String) → next_word text ≡ some tok → has_prefix text tok ≡ true
unfolding next_word
next_word-prefix text tok e = found-passes (has_prefix text) words tok e

next_word-nil : (text : String) → size text ≤ zero → next_word text ≡ none
unfolding next_word has_prefix
next_word-nil String.[] h = refl
next_word-nil (String.◌∷◌ c s) h = ground arith

tokens_from-Reads :
    (fuel : ℕ) (text : String) → size text ≤ fuel → Reads (tokens_from fuel text) text
unfolding Reads tokens_from joined append
tokens_from-Reads zero text h = (refl, next_word-nil text h)
tokens_from-Reads (suc fuel) text h = elim (Option-cases (next_word text)) [
  | inl e ↦ rw (tokens_from, e) (refl, e)
  | inr (tok, e) ↦
      let rest =
        tokens_from-Reads fuel (drop_prefix text tok) (omega (arith, shorter text tok e)) in
      rw (tokens_from, e)
        ((
          append_assoc_text tok _ _
              ∙ ap (append tok) rest.0
              ∙ drop_prefix-append text tok (next_word-prefix text tok e),
          rest.1,
        ))
]

-- The tokens of a text, one after the other, are the text up to a place where no number word
-- starts: none is left out or made up.
pub thai_amount_tokens-text :
    (text : String)
    → (left : String) × (append (joined (thai_amount_tokens text)) left ≡ text)
      × (next_word left ≡ none)
unfolding Reads thai_amount_tokens
thai_amount_tokens-text text =
    let r = tokens_from-Reads (size text) text (omega arith) in
    ((tokens_from (size text) text).1, r.0, r.1)
