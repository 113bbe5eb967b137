-- ===== src/Ledger/Money/Signed.antt =====
-- `formatInt` of ledger/summary.go against a reader of its texts.
use Prim.Native.Char.{code}
use thclaws_thai_ai_agent.Base.{
  ℕ, zero, suc, ◌/◌, ◌%◌, ◌^◌, ◌<◌, String, if◌then◌else◌, ltb, ◌==◌, ◌≡◌, refl, ap, ◌∙◌, subst,
  arith, Bool, true, false, Bool-cases, inl, inr, not, ◌&&◌,
}
use thclaws_thai_ai_agent.Base.Text.{append}
use thclaws_thai_ai_agent.Ledger.Money.{
  digit, padded, plain_digits, format_groups, format_int, minus,
}
use thclaws_thai_ai_agent.Base.Int.{ℤ, pos, negsuc, pos_part, neg_part}
use thclaws_thai_ai_agent.Ledger.Money.Groups.{
  read_number, group_text, format_groups-read, end-read,
}

-- A text without a minus sign.
unsigned : String → Bool
unsigned String.[] = true
unsigned (String.◌∷◌ c s) = not (code c == 45) && unsigned s

unsigned-append :
    (s t : String) → unsigned s ≡ true → unsigned t ≡ true → unsigned (append s t) ≡ true
unfolding unsigned append
unsigned-append String.[] t h k = k
unsigned-append (String.◌∷◌ c s) t h k = ground (arith, unsigned-append s t)

unsigned-digit : (d : ℕ) → unsigned (digit d) ≡ true
unfolding unsigned digit
unsigned-digit zero = refl
unsigned-digit (suc zero) = refl
unsigned-digit (suc (suc zero)) = refl
unsigned-digit (suc (suc (suc zero))) = refl
unsigned-digit (suc (suc (suc (suc zero)))) = refl
unsigned-digit (suc (suc (suc (suc (suc zero))))) = refl
unsigned-digit (suc (suc (suc (suc (suc (suc zero)))))) = refl
unsigned-digit (suc (suc (suc (suc (suc (suc (suc zero))))))) = refl
unsigned-digit (suc (suc (suc (suc (suc (suc (suc (suc zero)))))))) = refl
unsigned-digit (suc (suc (suc (suc (suc (suc (suc (suc (suc zero))))))))) = refl
unsigned-digit (suc (suc (suc (suc (suc (suc (suc (suc (suc (suc d)))))))))) = refl

unsigned-padded : (g : ℕ) → unsigned (padded g) ≡ true
unfolding padded
unsigned-padded g =
    unsigned-append (digit (g / 100)) _ (unsigned-digit (g / 100))
      (unsigned-append (digit (g / 10 % 10)) _ (unsigned-digit _) (unsigned-digit _))

unsigned-plain_digits : (g : ℕ) → unsigned (plain_digits g) ≡ true
unfolding plain_digits
unsigned-plain_digits g = elim (Bool-cases (ltb g 10)) [
  | inl a ↦ rw a (unsigned-digit g)
  | inr a ↦ elim (Bool-cases (ltb g 100)) [
    | inl b ↦ rw (a, b) (unsigned-append (digit (g / 10)) _ (unsigned-digit _) (unsigned-digit _))
    | inr b ↦ rw (a, b) (unsigned-padded g)
  ]
]

unsigned-group_text : (n : ℕ) → unsigned (group_text n) ≡ true
unfolding group_text
unsigned-group_text n = elim (Bool-cases (ltb 0 (n / 1000))) [
  | inl a ↦ rw a (unsigned-append "," _ (unfold unsigned in refl) (unsigned-padded (n % 1000)))
  | inr a ↦ rw a (unsigned-plain_digits (n % 1000))
]

unsigned-format_groups :
    (fuel n : ℕ) (digits : String)
    → unsigned digits ≡ true
    → unsigned (format_groups fuel n digits) ≡ true
unfolding format_groups group_text
unsigned-format_groups zero n digits h = h
unsigned-format_groups (suc fuel) n digits h = elim (Bool-cases (n == 0)) [
  | inl z ↦ rw z h
  | inr z ↦ rw z (
      unsigned-format_groups fuel (n / 1000) (append (group_text n) digits)
        (unsigned-append (group_text n) digits (unsigned-group_text n) h))
]

-- Reads a decimal number that may have a minus sign in front.
unfoldable pub read_int : String → ℤ
unfolding read_number
read_int String.[] = pos 0
read_int (String.◌∷◌ c s) =
    if code c == 45 then minus (read_number 0 s) else pos (read_number 0 (String.◌∷◌ c s))

read_int-unsigned : (s : String) → unsigned s ≡ true → read_int s ≡ pos (read_number 0 s)
unfolding read_int unsigned read_number
read_int-unsigned String.[] h = refl
read_int-unsigned (String.◌∷◌ c s) h = elim (Bool-cases (code c == 45)) [
  | inl k ↦ absurd (ground arith)
  | inr k ↦ rw k refl
]

groups-read : (n : ℕ) → n < 2 ^ 63 → read_number 0 (format_groups 7 n "") ≡ n
groups-read n h = format_groups-read 7 n "" (omega arith) ∙ end-read n

groups-read_int : (n : ℕ) → n < 2 ^ 63 → read_int (format_groups 7 n "") ≡ pos n
groups-read_int n h =
    read_int-unsigned (format_groups 7 n "")
      (unsigned-format_groups 7 n "" (unfold unsigned in refl))
    ∙ ap (λ k. pos k) (groups-read n h)

minus-read : (s : String) → read_int (append "-" s) ≡ minus (read_number 0 s)
unfolding read_int append
minus-read s = refl

zero_read : read_int (format_int (pos 0)) ≡ pos 0
unfolding read_int format_int
zero_read = refl

-- `formatInt` of a number that an `int64` holds, but for the least one, read back digit by digit with
-- the commas passed over and the sign in front, is that number: the seven rounds of the loop are
-- enough and no digit is lost or moved.
pub format_int-read :
    (n : ℤ) → pos_part n < 2 ^ 63 → neg_part n < 2 ^ 63 → read_int (format_int n) ≡ n
unfolding format_int
format_int-read (pos n) h k = elim (Bool-cases (n == 0)) [
  | inl z ↦
      let e : 0 ≡ n = ground arith in subst (λ k. read_int (format_int (pos k)) ≡ pos k) e zero_read
  | inr z ↦ rw z (groups-read_int n h)
]
format_int-read (negsuc n) h k =
    let below : (suc n == 2 ^ 63) ≡ false = ground arith in
    rw below (minus-read (format_groups 7 (suc n) "") ∙ ap minus (groups-read (suc n) k))
