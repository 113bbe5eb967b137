-- ===== src/Liff/Session/Signed.antt =====
-- Which tokens `Verify` of liff/session.go lets in: proofs.
use Prim.Native.Char.{code}
use thclaws_thai_ai_agent.Base.{
  String, ◌≡◌, refl, Bool, false, ◌||◌, ◌==◌, some, List, [], ◌∷◌, str_eq, eq_refl, eq_iff,
  Bool-cases, Option-cases, inl, inr, arith, ap, ◌∙◌, subst,
}
use thclaws_thai_ai_agent.Base.Int.{ℤ, ◌+ℤ◌, ltb_ℤ}
use thclaws_thai_ai_agent.Base.Text.{is_empty, trim_space, append}
use thclaws_thai_ai_agent.Sql.{Result, ok, err}
use thclaws_thai_ai_agent.Liff.Session.{
  Session, session_of, Identity, Codec, session_ttl, split_dots, lacks_identity, sign, admit,
  read_payload, verify_parts, verify,
}

unfoldable pub has_dot : String → Bool
has_dot String.[] = false
has_dot (String.◌∷◌ c s) = code c == b'.' || has_dot s

-- base64url has no dot and decodes what it encoded; JSON reads back the session that it wrote.
pub record IsCodec (codec : Codec) (session : Session) : Type 0 where
  pub decode_lem : (s : String) → codec.decode (codec.encode s) ≡ some s
  pub no_dot : (s : String) → has_dot (codec.encode s) ≡ false
  pub unmarshal_lem : codec.unmarshal (codec.marshal session) ≡ some session

split_dots-plain : (s : String) → has_dot s ≡ false → split_dots s ≡ s ∷ []
unfolding has_dot split_dots
split_dots-plain String.[] h = refl
split_dots-plain (String.◌∷◌ c s) h = elim (Bool-cases (code c == b'.')) [
  | inl d ↦ ground arith
  | inr d ↦ rw (d, split_dots-plain s (rw d at h)) refl
]

split_dots-dot :
    (p q : String) → has_dot p ≡ false → split_dots (append p (append "." q)) ≡ p ∷ split_dots q
unfolding has_dot split_dots append
split_dots-dot String.[] q h = refl
split_dots-dot (String.◌∷◌ c p) q h = elim (Bool-cases (code c == b'.')) [
  | inl d ↦ ground arith
  | inr d ↦ rw (d, split_dots-dot p q (rw d at h)) refl
]

split_dots-two :
    (p q : String)
    → has_dot p ≡ false
    → has_dot q ≡ false
    → split_dots (append p (append "." q)) ≡ p ∷ q ∷ []
split_dots-two p q hp hq = split_dots-dot p q hp ∙ ap (λ ps. p ∷ ps) (split_dots-plain q hq)

ok_inj : {E A : Type 0} (x y : A) → ◌≡◌ {A = Result E A} (ok x) (ok y) → x ≡ y
ok_inj x y e = ground arith

module _ (codec : Codec) where
  abbrev sealed : String → String → String
  sealed secret payload = append payload (append "." (codec.encode (codec.mac secret payload)))

  sign-sealed :
      (identity : Identity) (secret token : String) (t : ℤ)
      → sign codec identity secret t ≡ ok token
      → (is_empty (trim_space secret) ≡ false)
        × (sealed secret (codec.encode (codec.marshal (session_of identity t))) ≡ token)
  unfolding sign
  sign-sealed identity secret token t e = elim (Bool-cases (is_empty (trim_space secret))) [
    | inl blank ↦ ground arith
    | inr given ↦ (given, ok_inj _ _ (rw given at e))
  ]

module _ (codec : Codec) (s : Session) (h : IsCodec codec s) where
  verify-sealed :
      (secret body : String) (now : ℤ)
      → is_empty (trim_space secret) ≡ false
      → verify codec (sealed codec secret (codec.encode body)) secret now
        ≡ read_payload codec (codec.encode body) now
  unfolding verify verify_parts
  verify-sealed secret body now given =
      let sum = codec.mac secret (codec.encode body) in
      rw
        (
          given,
          split_dots-two (codec.encode body) (codec.encode sum) (h.no_dot body) (h.no_dot sum),
        )
        (rw (verify_parts, h.decode_lem sum, eq_refl sum) refl)

  read_payload-session :
      (now : ℤ) → read_payload codec (codec.encode (codec.marshal s)) now ≡ admit codec now s
  unfolding read_payload
  read_payload-session now = rw (read_payload, h.decode_lem (codec.marshal s), h.unmarshal_lem) refl

module _ (codec : Codec) where
  admitted :
      (s : Session) (now : ℤ)
      → lacks_identity s ≡ false
      → ltb_ℤ s.expires_at now ≡ false
      → admit codec now s ≡ ok s
  unfolding admit
  admitted s now complete early = rw (complete, early) refl

  -- A session that was signed for a complete identity is let in under the same secret, with that
  -- identity, until its 600 seconds are over.
  pub verify-sign :
      (identity : Identity) (secret token : String) (t now : ℤ)
      → IsCodec codec (session_of identity t)
      → lacks_identity (session_of identity t) ≡ false
      → ltb_ℤ (t +ℤ session_ttl) now ≡ false
      → sign codec identity secret t ≡ ok token
      → verify codec token secret now ≡ ok (session_of identity t)
  verify-sign identity secret token t now h complete early signed =
      let (given, same) = sign-sealed codec identity secret token t signed in
      subst (λ x. verify codec x secret now ≡ ok (session_of identity t)) same
        (verify-sealed codec _ h secret _ now given
          ∙ read_payload-session codec _ h now
          ∙ admitted (session_of identity t) now complete early)

-- The two parts of a token whose signature is that of its payload under this secret.
pub IsSigned : Codec → String → List String → Type 0
IsSigned codec secret (payload ∷ signature ∷ []) =
    codec.decode signature ≡ some (codec.mac secret payload)
IsSigned codec secret _ = ⊥

err_ne : {A : Type 0} {m : String} {a : A} → ◌≡◌ {A = Result String A} (err m) (ok a) → ⊥
err_ne h = cc

module _ (codec : Codec) where
  admit-ok :
      (now : ℤ) (r s : Session)
      → admit codec now r ≡ ok s
      → (lacks_identity s ≡ false) × (ltb_ℤ s.expires_at now ≡ false)
  unfolding admit
  admit-ok now r s e = elim (Bool-cases (lacks_identity r)) [
    | inl l ↦ ground arith
    | inr l ↦ elim (Bool-cases (ltb_ℤ r.expires_at now)) [
      | inl x ↦ ground arith
      | inr x ↦
          subst (λ q. (lacks_identity q ≡ false) × (ltb_ℤ q.expires_at now ≡ false))
            (ok_inj r s (rw (l, x) at e)) (l, x)
    ]
  ]

  read_payload-ok :
      (payload : String) (now : ℤ) (s : Session)
      → read_payload codec payload now ≡ ok s
      → (lacks_identity s ≡ false) × (ltb_ℤ s.expires_at now ≡ false)
  unfolding read_payload
  read_payload-ok payload now s e = elim (Option-cases (codec.decode payload)) [
    | inl d ↦ absurd (err_ne (rw (read_payload, d) at e))
    | inr (body, d) ↦ elim (Option-cases (codec.unmarshal body)) [
      | inl u ↦ absurd (err_ne (rw (read_payload, d, u) at e))
      | inr (r, u) ↦ admit-ok now r s (rw (read_payload, d, u) at e)
    ]
  ]

  verify_parts-ok :
      (secret : String) (now : ℤ) (parts : List String) (s : Session)
      → verify_parts codec secret now parts ≡ ok s
      → IsSigned codec secret parts × (lacks_identity s ≡ false) × (ltb_ℤ s.expires_at now ≡ false)
  unfolding verify_parts IsSigned
  verify_parts-ok secret now [] s e = cc
  verify_parts-ok secret now (p ∷ []) s e = cc
  verify_parts-ok secret now (p ∷ q ∷ r ∷ rest) s e = cc
  verify_parts-ok secret now (p ∷ q ∷ []) s e = elim (Option-cases (codec.decode q)) [
    | inl d ↦ absurd (err_ne (rw (verify_parts, d) at e))
    | inr (got, d) ↦ elim (Bool-cases (str_eq got (codec.mac secret p))) [
      | inr f ↦ absurd (err_ne (rw (verify_parts, d, f) at e))
      | inl t ↦
          let fit = read_payload-ok p now s (rw (verify_parts, d, t) at e) in
          (d ∙ ap some ((eq_iff got (codec.mac secret p)).0 t), fit.0, fit.1)
    ]
  ]

  -- A token that is let in has two parts, the second of which is the signature of the first under
  -- the server's secret, and its session names a user, an agent and a namespace and is not over.
  pub verify-IsSigned :
      (token secret : String) (now : ℤ) (s : Session)
      → verify codec token secret now ≡ ok s
      → IsSigned codec secret (split_dots token)
        × (lacks_identity s ≡ false)
        × (ltb_ℤ s.expires_at now ≡ false)
  unfolding verify
  verify-IsSigned token secret now s e = elim (Bool-cases (is_empty (trim_space secret))) [
    | inl blank ↦ ground arith
    | inr given ↦ verify_parts-ok secret now (split_dots token) s (rw given at e)
  ]
