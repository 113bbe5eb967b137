-- ===== src/Liff/Examples.antt =====
-- A codec, and the theorems on the sessions of liff/session.go at runs with it.
use Prim.Native.Char.{Char, code}
use text.Mathlib.TextEquality.{Char-path}
use thclaws_thai_ai_agent.Base.{
  String, ◌≡◌, refl, false, ◌==◌, Option, none, some, str_eq, if◌then◌else◌, ap, arith, Bool-cases,
  inl, inr,
}
use thclaws_thai_ai_agent.Base.Int.{pos, ◌+ℤ◌, ltb_ℤ}
use thclaws_thai_ai_agent.Base.Text.{append, trim_space}
use thclaws_thai_ai_agent.Sql.{ok}
use thclaws_thai_ai_agent.Liff.Session.{
  Identity, Codec, session_of, session_ttl, split_dots, lacks_identity, sign, verify,
}
use thclaws_thai_ai_agent.Liff.Session.Signed.{
  has_dot, IsCodec, IsSigned, verify-sign, verify-IsSigned,
}

abbrev ann : Identity
ann = record { user_id = "u"; agent_id = "g"; namespace = "n" }

-- Two letters for each: "d" and a dash for a dot, "c" and the letter for any other.
shield : String → String
shield String.[] = ""
shield (String.◌∷◌ c s) =
    if code c == b'.'
    then String.◌∷◌ "d" (String.◌∷◌ "-" (shield s))
    else String.◌∷◌ "c" (String.◌∷◌ c (shield s))

abbrev with_head : Char → Option String → Option String
with_head c none = none
with_head c (some s) = some (String.◌∷◌ c s)

unshield : String → Option String
unshield String.[] = some ""
unshield (String.◌∷◌ a String.[]) = none
unshield (String.◌∷◌ a (String.◌∷◌ b s)) =
    with_head (if code a == b'd' then "." else b) (unshield s)

-- A codec that knows one session.
abbrev codec : Codec
codec = record {
  mac = λ secret s. append secret s;
  encode = shield;
  decode = unshield;
  marshal = λ s. s.user_id;
  unmarshal = λ body. if str_eq body "u" then some (session_of ann (pos 100)) else none;
}

unshield-shield : (s : String) → unshield (shield s) ≡ some s
unfolding shield unshield
unshield-shield String.[] = refl
unshield-shield (String.◌∷◌ c s) = elim (Bool-cases (code c == b'.')) [
  | inl d ↦
      rw (d, unshield-shield s) (ap (λ x. some (String.◌∷◌ x s)) (Char-path "." c (ground arith)))
  | inr d ↦ rw (d, unshield-shield s) refl
]

shield-has_dot : (s : String) → has_dot (shield s) ≡ false
unfolding shield has_dot
shield-has_dot String.[] = refl
shield-has_dot (String.◌∷◌ c s) = elim (Bool-cases (code c == b'.')) [
  | inl d ↦ rw (d, shield-has_dot s) refl
  | inr d ↦ rw (d, d, shield-has_dot s) refl
]

IsCodec-codec : IsCodec codec (session_of ann (pos 100))
IsCodec-codec = record {
  decode_lem = unshield-shield;
  no_dot = shield-has_dot;
  unmarshal_lem = refl;
}

abbrev token : String
token = append (shield "u") (append "." (shield (append "k" (shield "u"))))

signed : sign codec ann "k" (pos 100) ≡ ok token
unfolding sign trim_space
signed = refl

early : ltb_ℤ (pos 100 +ℤ session_ttl) (pos 700) ≡ false
unfolding ◌+ℤ◌
early = refl

-- 600 seconds later
verify-sign_example : verify codec token "k" (pos 700) ≡ ok (session_of ann (pos 100))
verify-sign_example =
    verify-sign codec ann "k" token (pos 100) (pos 700) IsCodec-codec refl early signed

verify-IsSigned_example :
    IsSigned codec "k" (split_dots token)
    × (lacks_identity (session_of ann (pos 100)) ≡ false)
    × (ltb_ℤ (session_of ann (pos 100)).expires_at (pos 700) ≡ false)
verify-IsSigned_example =
    verify-IsSigned codec token "k" (pos 700) (session_of ann (pos 100)) verify-sign_example
