-- ===== src/Media/Links.antt =====
-- Which links `Verify` of media/media.go lets through: proofs.
use thclaws_thai_ai_agent.Base.{
  String, ◌≡◌, refl, false, ◌||◌, some, str_eq, eq_refl, eq_iff, Bool-cases, Option-cases, inl, inr,
  arith, ◌∙◌, sym, subst,
}
use thclaws_thai_ai_agent.Base.Int.{ℤ, ltb_ℤ}
use thclaws_thai_ai_agent.Base.Text.{is_empty, trim_space, append}
use thclaws_thai_ai_agent.Sql.{Result, ok, err}
use thclaws_thai_ai_agent.Media.{Lib, sign, check_expiry, check_signature, verify}

-- The decimal form of a number is read back; hexadecimal digits have no space around them.
pub record IsLib (lib : Lib) (ts : ℤ) : Type 0 where
  pub parse_int_lem : lib.parse_int (lib.format_int ts) ≡ some ts
  pub mac_hex_lem : (secret s : String) → trim_space (lib.mac_hex secret s) ≡ lib.mac_hex secret s

ok_ne : {A : Type 0} {m : String} {a : A} → ◌≡◌ {A = Result String A} (err m) (ok a) → ⊥
ok_ne h = cc

module _ (lib : Lib) where
  sign-ok :
      (id exp secret sig : String)
      → sign lib id exp secret ≡ ok sig
      → sig ≡ lib.mac_hex (trim_space secret) (append id (append "." exp))
  unfolding sign
  sign-ok id exp secret sig e = elim (Bool-cases (is_empty id || is_empty exp)) [
    | inl a ↦ absurd (ok_ne (rw a at e))
    | inr a ↦ elim (Bool-cases (is_empty (trim_space secret))) [
      | inl b ↦ absurd (ok_ne (rw (a, b) at e))
      | inr b ↦ ground arith
    ]
  ]

  check_expiry-ok :
      (exp : String) (now : ℤ)
      → check_expiry lib exp now ≡ ok tt
      → (ts : ℤ) × (lib.parse_int exp ≡ some ts) × (ltb_ℤ ts now ≡ false)
  unfolding check_expiry
  check_expiry-ok exp now e = elim (Option-cases (lib.parse_int exp)) [
    | inl n ↦ absurd (ok_ne (rw (check_expiry, n) at e))
    | inr (ts, p) ↦ elim (Bool-cases (ltb_ℤ ts now)) [
      | inl l ↦ absurd (ok_ne (rw (check_expiry, p, l) at e))
      | inr l ↦ (ts, p, l)
    ]
  ]

  check_signature-ok :
      (exp sig : String) (now : ℤ) (want : String)
      → check_signature lib exp sig now (ok want) ≡ ok tt
      → (want ≡ trim_space sig) × (check_expiry lib exp now ≡ ok tt)
  unfolding check_signature
  check_signature-ok exp sig now want e = elim (Bool-cases (str_eq want (trim_space sig))) [
    | inl t ↦ ((eq_iff want (trim_space sig)).0 t, rw t at e)
    | inr f ↦ absurd (ok_ne (rw f at e))
  ]

  -- A link that is let through carries the signature of this image and this time under the
  -- server's secret, and the time, a number, is not over.
  pub verify-ok_link :
      (id exp sig secret : String) (now : ℤ)
      → verify lib id exp sig secret now ≡ ok tt
      → (trim_space sig ≡ lib.mac_hex (trim_space secret) (append id (append "." exp)))
        × ((ts : ℤ) × (lib.parse_int exp ≡ some ts) × (ltb_ℤ ts now ≡ false))
  unfolding verify
  verify-ok_link id exp sig secret now e = signed (sign lib id exp secret) refl
    where
      signed :
          (r : Result String String)
          → sign lib id exp secret ≡ r
          → (trim_space sig ≡ lib.mac_hex (trim_space secret) (append id (append "." exp)))
            × ((ts : ℤ) × (lib.parse_int exp ≡ some ts) × (ltb_ℤ ts now ≡ false))
      signed (err x) s = absurd (
          ok_ne {m = x} {a = tt}
            (unfold check_signature in subst (λ q. check_signature lib exp sig now q ≡ ok tt) s e))
      signed (ok want) s =
          let good =
            check_signature-ok exp sig now want
              (subst (λ q. check_signature lib exp sig now q ≡ ok tt) s e) in
          (sym good.0 ∙ sign-ok id exp secret want s, check_expiry-ok exp now good.1)

module _ (lib : Lib) (ts : ℤ) (h : IsLib lib ts) where
  trimmed : (id exp secret sig : String) → sign lib id exp secret ≡ ok sig → trim_space sig ≡ sig
  trimmed id exp secret sig e = rw (sign-ok lib id exp secret sig e) (h.mac_hex_lem _ _)

  -- A link that was signed is let through under the same secret until its time is over.
  pub verify-sign_link :
      (id secret sig : String) (now : ℤ)
      → sign lib id (lib.format_int ts) secret ≡ ok sig
      → ltb_ℤ ts now ≡ false
      → verify lib id (lib.format_int ts) sig secret now ≡ ok tt
  unfolding verify check_signature check_expiry
  verify-sign_link id secret sig now signed early =
      rw (signed, trimmed id (lib.format_int ts) secret sig signed, eq_refl sig)
        (rw (check_expiry, h.parse_int_lem, early) refl)
