-- ===== src/Media.antt =====
-- The signed links to stored images of media/media.go.
--
-- HMAC with its hexadecimal form, strconv, the URL escapes, the image records in MongoDB and the
-- object store are parameters (`Lib`). A time is its Unix seconds.
pub mod Links
mod Examples
use thclaws_thai_ai_agent.Base.{
  ℕ, String, Bool, true, false, not, ◌||◌, Option, none, some, str_eq, if◌then◌else◌,
}
use thclaws_thai_ai_agent.Base.Int.{ℤ, pos, ◌+ℤ◌, leb_ℤ, ltb_ℤ}
use thclaws_thai_ai_agent.Base.Text.{is_empty, trim_space, append}
use thclaws_thai_ai_agent.Sql.{Result, ok, err}

-- What the handler knows of a stored image.
pub record StoredImage : Type 0 where
  pub bucket : String
  pub object_name : String
  pub content_type : String

pub record Lib : Type 0 where
  pub mac_hex : String → String → String
  pub parse_int : String → Option ℤ
  pub format_int : ℤ → String
  pub path_escape : String → String
  pub query_escape : String → String
  pub trim_slashes : String → String
  pub object_id : String → Option String
  pub stored_image : String → Result String (Option StoredImage)
  pub get : String → String → Result String (String × String)

-- The answer of the handler: a status, or the bytes of an image with their type.
pub data Response : Type 0 where
  status : ℕ → Response
  image : String → String → Response

module _ (lib : Lib) where
  -- `Sign`
  unfoldable pub sign : String → String → String → Result String String
  sign id exp secret =
      if is_empty id || is_empty exp
      then err "media: id and exp required"
      else if is_empty (trim_space secret)
      then err "media: signing secret required"
      else ok (lib.mac_hex (trim_space secret) (append id (append "." exp)))

  -- The tests of `Verify` behind the signature
  unfoldable pub check_expiry : String → ℤ → Result String (Unit {0})
  check_expiry exp now = elim (lib.parse_int exp) [
    | none ↦ err "media: bad exp"
    | some ts ↦ if ltb_ℤ ts now then err "media: signature expired" else ok tt
  ]

  unfoldable pub check_signature :
      String → String → ℤ → Result String String → Result String (Unit {0})
  unfolding check_expiry
  check_signature exp sig now (err e) = err e
  check_signature exp sig now (ok want) =
      if not (str_eq want (trim_space sig))
      then err "media: bad signature"
      else check_expiry exp now

  -- `Verify`
  unfoldable pub verify : String → String → String → String → ℤ → Result String (Unit {0})
  unfolding sign check_signature
  verify id exp sig secret now = check_signature exp sig now (sign id exp secret)

  typed : StoredImage → String × String → Response
  typed img (bytes, content_type) =
      image (if is_empty img.content_type then content_type else img.content_type) bytes

  fetched : StoredImage → Result String (String × String) → Response
  unfolding typed
  fetched img (err e) = status 502
  fetched img (ok found) = typed img found

  looked_up : Result String (Option StoredImage) → Response
  unfolding fetched
  looked_up (err e) = status 500
  looked_up (ok none) = status 404
  looked_up (ok (some img)) = fetched img (lib.get img.bucket img.object_name)

  allowed : String → Result String (Unit {0}) → Response
  unfolding looked_up
  allowed id (err e) = status 403
  allowed id (ok _) = elim (lib.object_id id) [
    | none ↦ status 400
    | some object ↦ looked_up (lib.stored_image object)
  ]

  -- `ServeImage`
  unfoldable pub serve_image : String → String → String → String → ℤ → Response
  unfolding verify allowed
  serve_image id exp sig secret now = allowed id (verify id exp sig secret now)

  abbrev link : String → String → String → String → String
  link base id exp sig = append base (
      append "/v2/media/images/" (
        append (lib.path_escape id)
          (append "?exp=" (append (lib.query_escape exp) (append "&sig=" (lib.query_escape sig))))))

  -- `BuildImageURL`
  unfoldable pub build_image_url : String → String → String → ℤ → ℤ → Result String String
  unfolding sign
  build_image_url base_url id secret ttl now =
      let base = lib.trim_slashes (trim_space base_url) in
      let exp = lib.format_int (now +ℤ (if leb_ℤ ttl (pos 0) then pos 600 else ttl)) in
      if is_empty base
      then err "media: base URL required"
      else elim (sign id exp secret) [ err e ↦ err e | ok sig ↦ ok (link base id exp sig) ]
