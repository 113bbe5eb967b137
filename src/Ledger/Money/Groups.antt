-- ===== src/Ledger/Money/Groups.antt =====
-- The groups of `formatInt` of ledger/summary.go against a reader of them.
use Prim.Native.Char.{code}
use thclaws_thai_ai_agent.Base.{
  ℕ, zero, suc, ◌+◌, ◌-◌, ◌*◌, ◌/◌, ◌%◌, ◌^◌, ◌<◌, String, if◌then◌else◌, ltb, ◌==◌, ◌≡◌, refl, ap,
  ◌∙◌, arith, Bool-cases, inl, inr,
}
use thclaws_thai_ai_agent.Base.Text.{append}
use thclaws_thai_ai_agent.Ledger.Money.{digit, padded, plain_digits, format_groups}

-- Reads a decimal number, the commas passed over.
unfoldable pub read_number : ℕ → String → ℕ
read_number n String.[] = n
read_number n (String.◌∷◌ c s) =
    let comma = read_number n s in
    let more = read_number (n * 10 + (code c - 48)) s in if code c == 44 then comma else more

read_number-append :
    (n : ℕ) (s t : String) → read_number n (append s t) ≡ read_number (read_number n s) t
unfolding read_number append
read_number-append n String.[] t = refl
read_number-append n (String.◌∷◌ c s) t = elim (Bool-cases (code c == 44)) [
  | inl h ↦ rw (h, read_number-append n s t) refl
  | inr h ↦ rw (h, read_number-append (n * 10 + (code c - 48)) s t) refl
]

read_number-digit : (n d : ℕ) → d < 10 → read_number n (digit d) ≡ n * 10 + d
unfolding read_number digit
read_number-digit n zero h = refl
read_number-digit n (suc zero) h = refl
read_number-digit n (suc (suc zero)) h = refl
read_number-digit n (suc (suc (suc zero))) h = refl
read_number-digit n (suc (suc (suc (suc zero)))) h = refl
read_number-digit n (suc (suc (suc (suc (suc zero))))) h = refl
read_number-digit n (suc (suc (suc (suc (suc (suc zero)))))) h = refl
read_number-digit n (suc (suc (suc (suc (suc (suc (suc zero))))))) h = refl
read_number-digit n (suc (suc (suc (suc (suc (suc (suc (suc zero)))))))) h = refl
read_number-digit n (suc (suc (suc (suc (suc (suc (suc (suc (suc zero))))))))) h = refl
read_number-digit n (suc (suc (suc (suc (suc (suc (suc (suc (suc (suc d)))))))))) h =
    absurd (ground arith)

read_number-padded : (n g : ℕ) → g < 1000 → read_number n (padded g) ≡ n * 1000 + g
unfolding padded
read_number-padded n g h =
    rw
      (
        read_number-append n (digit (g / 100)) (append (digit (g / 10 % 10)) (digit (g % 10))),
        read_number-append (read_number n (digit (g / 100))) (digit (g / 10 % 10)) (digit (g % 10)),
        read_number-digit n (g / 100) (omega arith),
        read_number-digit (n * 10 + g / 100) (g / 10 % 10) (omega arith),
        read_number-digit ((n * 10 + g / 100) * 10 + g / 10 % 10) (g % 10) (omega arith),
      )
      (omega arith)

read_number-plain_digits : (g : ℕ) → g < 1000 → read_number 0 (plain_digits g) ≡ g
unfolding plain_digits
read_number-plain_digits g h = elim (Bool-cases (ltb g 10)) [
  | inl a ↦ rw a (read_number-digit 0 g (ground arith) ∙ omega arith)
  | inr a ↦ elim (Bool-cases (ltb g 100)) [
    | inl b ↦
        rw
          (
            a,
            b,
            read_number-append 0 (digit (g / 10)) (digit (g % 10)),
            read_number-digit 0 (g / 10) (ground arith),
            read_number-digit (0 * 10 + g / 10) (g % 10) (omega arith),
          )
          (omega arith)
    | inr b ↦ rw (a, b) (read_number-padded 0 g h ∙ omega arith)
  ]
]

comma-read : (n : ℕ) (s : String) → read_number n (append "," s) ≡ read_number n s
unfolding read_number append
comma-read n s = refl

unfoldable pub group_text : ℕ → String
group_text n = if ltb 0 (n / 1000) then append "," (padded (n % 1000)) else plain_digits (n % 1000)

read_number-group_text : (n : ℕ) → read_number (n / 1000) (group_text n) ≡ n
unfolding group_text
read_number-group_text n = elim (Bool-cases (ltb 0 (n / 1000))) [
  | inl a ↦
      rw
        (
          a,
          comma-read (n / 1000) (padded (n % 1000)),
          read_number-padded (n / 1000) (n % 1000) (omega arith),
        )
        (omega arith)
  | inr a ↦
      let z : n / 1000 ≡ 0 = ground arith in
      rw (a, z, read_number-plain_digits (n % 1000) (omega arith)) (omega arith)
]

pub format_groups-read :
    (fuel n : ℕ) (digits : String)
    → n < 1000 ^ fuel
    → read_number 0 (format_groups fuel n digits) ≡ read_number n digits
unfolding format_groups group_text
format_groups-read zero n digits h = ap (λ x. read_number x digits) (omega arith)
format_groups-read (suc fuel) n digits h = elim (Bool-cases (n == 0)) [
  | inl z ↦ rw z (ap (λ x. read_number x digits) (ground arith))
  | inr z ↦
      rw
        (
          z,
          format_groups-read fuel (n / 1000) (append (group_text n) digits) (omega arith),
          read_number-append (n / 1000) (group_text n) digits,
          read_number-group_text n,
        )
        refl
]

pub end-read : (n : ℕ) → read_number n "" ≡ n
unfolding read_number
end-read n = refl
