-- ===== src/Liff/Session.antt =====
-- The signed session of liff/session.go.
--
-- HMAC, base64 and encoding/json are parameters (`Codec`). Bytes are texts, a time is its Unix
-- seconds. `json.Marshal` of a `Session` has no error to return.
pub mod Signed
use Prim.Native.Char.{Char, code}
use thclaws_thai_ai_agent.Base.{
  String, Bool, true, false, not, ◌||◌, ◌==◌, Option, none, some, List, [], ◌∷◌, str_eq,
  if◌then◌else◌,
}
use thclaws_thai_ai_agent.Base.Int.{ℤ, pos, ◌+ℤ◌, ltb_ℤ}
use thclaws_thai_ai_agent.Base.Text.{is_empty, trim_space, append}
use thclaws_thai_ai_agent.Sql.{Result, ok, err}

-- `sessionTTL`, in seconds
abbrev pub session_ttl : ℤ
session_ttl = pos 600

-- `Session`
pub record Session : Type 0 where
  pub user_id : String
  pub agent_id : String
  pub namespace : String
  pub expires_at : ℤ

-- `users.Identity`, as far as it is signed
pub record Identity : Type 0 where
  pub user_id : String
  pub agent_id : String
  pub namespace : String

-- `hmac.New(sha256.New, secret)` and its sum, `base64.RawURLEncoding`, `json.Marshal` and
-- `json.Unmarshal` of a `Session`.
pub record Codec : Type 0 where
  pub mac : String → String → String
  pub encode : String → String
  pub decode : String → Option String
  pub marshal : Session → String
  pub unmarshal : String → Option Session

-- The letter `c` before the first part.
abbrev pub before : Char → List String → List String
before c [] = String.◌∷◌ c "" ∷ []
before c (p ∷ ps) = String.◌∷◌ c p ∷ ps

-- `strings.Split(s, ".")`
unfoldable pub split_dots : String → List String
split_dots String.[] = "" ∷ []
split_dots (String.◌∷◌ c s) = if code c == b'.' then "" ∷ split_dots s else before c (split_dots s)

-- The session that `Sign` writes.
abbrev pub session_of : Identity → ℤ → Session
session_of identity now = record {
  user_id = identity.user_id;
  agent_id = identity.agent_id;
  namespace = identity.namespace;
  expires_at = now +ℤ session_ttl;
}

abbrev pub lacks_identity : Session → Bool
lacks_identity s = is_empty s.user_id || is_empty s.agent_id || is_empty s.namespace

module _ (codec : Codec) where
  -- `Sign`
  unfoldable pub sign : Identity → String → ℤ → Result String String
  sign identity secret now =
      if is_empty (trim_space secret)
      then err "liff session: secret required"
      else let payload = codec.encode (codec.marshal (session_of identity now)) in
        ok (append payload (append "." (codec.encode (codec.mac secret payload))))

  -- The tests of `Verify` on the session itself.
  unfoldable pub admit : ℤ → Session → Result String Session
  admit now s =
      if lacks_identity s
      then err "liff session: missing identity"
      else if ltb_ℤ s.expires_at now
      then err "liff session: expired"
      else ok s

  -- `Verify` behind the test of the signature
  unfoldable pub read_payload : String → ℤ → Result String Session
  unfolding admit
  read_payload payload now = elim (codec.decode payload) [
    | none ↦ err "liff session: invalid payload encoding"
    | some body ↦ elim (codec.unmarshal body) [
      | none ↦ err "liff session: payload"
      | some s ↦ admit now s
    ]
  ]

  -- `Verify` behind the split
  unfoldable pub verify_parts : String → ℤ → List String → Result String Session
  unfolding read_payload
  verify_parts secret now (payload ∷ signature ∷ []) = elim (codec.decode signature) [
    | none ↦ err "liff session: invalid signature encoding"
    | some got ↦
        if not (str_eq got (codec.mac secret payload))
        then err "liff session: signature mismatch"
        else read_payload payload now
  ]
  verify_parts secret now _ = err "liff session: invalid token"

  -- `Verify`
  unfoldable pub verify : String → String → ℤ → Result String Session
  unfolding verify_parts
  verify token secret now =
      if is_empty (trim_space secret)
      then err "liff session: secret required"
      else verify_parts secret now (split_dots token)
