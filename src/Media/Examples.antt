-- ===== src/Media/Examples.antt =====
-- The theorems on the links of media/media.go at runs with small parameters.
use thclaws_thai_ai_agent.Base.{
  String, ◌≡◌, refl, Bool, true, false, none, some, str_eq, ◌&&◌, if◌then◌else◌,
}
use thclaws_thai_ai_agent.Base.Int.{ℤ, pos, ltb_ℤ}
use thclaws_thai_ai_agent.Base.Text.{trim_space, append}
use thclaws_thai_ai_agent.Sql.{ok, err}
use thclaws_thai_ai_agent.Media.{Lib, sign, verify}
use thclaws_thai_ai_agent.Media.Links.{IsLib, verify-sign_link, verify-ok_link}

abbrev digest : String → String → String
digest secret s = if str_eq secret "k" && str_eq s "id.700" then "6b" else "00"

abbrev lib : Lib
lib = record {
  mac_hex = digest;
  parse_int = λ s. if str_eq s "700" then some (pos 700) else none;
  format_int = λ n. "700";
  path_escape = λ s. s;
  query_escape = λ s. s;
  trim_slashes = λ s. s;
  object_id = λ s. some s;
  stored_image = λ s. ok none;
  get = λ bucket name. err "no such object";
}

digest_trimmed : (b : Bool) → trim_space (if b then "6b" else "00") ≡ (if b then "6b" else "00")
unfolding trim_space
digest_trimmed true = refl
digest_trimmed false = refl

IsLib-lib : IsLib lib (pos 700)
IsLib-lib = record {
  parse_int_lem = refl;
  mac_hex_lem = λ secret s. digest_trimmed (str_eq secret "k" && str_eq s "id.700");
}

signed : sign lib "id" "700" "k" ≡ ok "6b"
unfolding sign trim_space append
signed = refl

verify-sign_link_example : verify lib "id" "700" "6b" "k" (pos 650) ≡ ok tt
verify-sign_link_example =
    verify-sign_link lib (pos 700) IsLib-lib "id" "k" "6b" (pos 650) signed refl

verify-ok_link_example :
    (trim_space "6b" ≡ digest (trim_space "k") (append "id" (append "." "700")))
    × ((ts : ℤ) × (lib.parse_int "700" ≡ some ts) × (ltb_ℤ ts (pos 650) ≡ false))
verify-ok_link_example = verify-ok_link lib "id" "700" "6b" "k" (pos 650) verify-sign_link_example
