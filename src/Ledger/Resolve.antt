-- ===== src/Ledger/Resolve.antt =====
-- `ResolveProjectAllocations` of ledger/projects.go: the projects that a chat text names.
pub mod Resolved
use Prim.Native.Char.{Char, code}
use thclaws_thai_ai_agent.Base.{
  ℕ, zero, suc, ◌-◌, String, Bool, true, false, not, ◌&&◌, ◌||◌, Option, none, some, List, [], ◌∷◌,
  str_eq, if◌then◌else◌, leb, ltb, keep, ◌≡◌, refl,
}
use thclaws_thai_ai_agent.Base.Int.{ℤ, pos, leb_ℤ}
use thclaws_thai_ai_agent.Base.Text.{is_empty, is_space, trim_space, to_lower, contains, size}
use thclaws_thai_ai_agent.Base.Scan.{
  contains_any, is_any, after, before, skip, first_chars, trim, fields, join, is_in, is_digit,
}
use thclaws_thai_ai_agent.Sql.{Error, M, pure, ◌>>=◌}
use thclaws_thai_ai_agent.Ledger.Tables.{AllocationInput, Project, Db}
use thclaws_thai_ai_agent.Ledger.Allocations.{split_project_allocations}
use thclaws_thai_ai_agent.Ledger.Projects.{create_project, list_active_projects}

-- `mentionsProjectContext`
unfoldable pub mentions_project_context : String → Bool
unfolding contains_any to_lower trim_space
mentions_project_context text =
    contains_any (to_lower (trim_space text)) ("โครงการ" ∷ "โปรเจกต์" ∷ "project" ∷ "#" ∷ [])

without_marks : String → String
unfolding is_space is_in
without_marks String.[] = ""
without_marks (String.◌∷◌ c s) =
    let rest = without_marks s in
    if is_space c || is_in c "#:：,;/\\-–—()[]{}\"'" then rest else String.◌∷◌ c rest

-- `normalizeProjectKey`
unfoldable pub normalize_project_key : String → String
unfolding without_marks to_lower trim_space
normalize_project_key text = without_marks (to_lower (trim_space text))

-- `unicode.IsDigit`, on the ASCII and the Thai digits
abbrev is_unicode_digit : Char → Bool
is_unicode_digit c = let k = code c in is_digit c || (leb 0xe50 k && leb k 0xe59)

-- `containsDigit`
unfoldable pub contains_digit : String → Bool
contains_digit String.[] = false
contains_digit (String.◌∷◌ c s) = is_unicode_digit c || contains_digit s

cut_at : List String → String → String
unfolding before
cut_at [] segment = segment
cut_at (stop ∷ stops) segment = cut_at stops (before segment stop)

-- The words of the name: at most `room`, up to the first with a digit or บาท.
name_words : ℕ → List String → List String
unfolding contains_digit contains
name_words zero ws = []
name_words (suc room) [] = []
name_words (suc room) (w ∷ ws) =
    let rest = name_words room ws in if contains_digit w || contains w "บาท" then [] else w ∷ rest

abbrev specific : String → String
specific name = if is_any name ("" ∷ "อะไร" ∷ "ไหน" ∷ "ใหม่" ∷ "นี้" ∷ []) then "" else name

abbrev shortened : String → String
shortened name = if ltb 80 (size name) then trim_space (first_chars 80 name) else name

-- What `projectNameAfterMarker` makes of the text after the marker.
unfoldable pub name_in : String → String
unfolding trim_space trim cut_at name_words fields join is_any first_chars
name_in left =
    let segment = trim (trim_space left) " \t\r\n:：-–—#" in
    let cut =
      cut_at
        ("\n" ∷ "\r" ∷ "," ∷ "，" ∷ ";" ∷ "|" ∷ " / " ∷ " บาท" ∷ " จำนวน" ∷ " ค่า" ∷ " ซื้อ"
          ∷ " จ่าย" ∷ " รับ" ∷ " ราย" ∷ [])
        segment in
    specific (shortened (trim (trim_space (join " " (name_words 4 (fields cut)))) " :：-–—#"))

-- `projectNameAfterMarker`; a lower-case ASCII text has the places of the text itself
unfoldable pub project_name_after_marker : String → String → String
unfolding after to_lower skip name_in
project_name_after_marker text marker = elim (after (to_lower text) marker) [
  | none ↦ ""
  | some left ↦ name_in (skip (size text - size left) text)
]

first_name : String → List String → String
unfolding project_name_after_marker
first_name text [] = ""
first_name text (m ∷ ms) =
    let name = project_name_after_marker text m in
    let rest = first_name text ms in if is_empty name then rest else name

-- `extractExplicitProjectName`
unfoldable pub extract_explicit_project_name : String → String
unfolding trim_space first_name
extract_explicit_project_name text =
    first_name (trim_space text) ("โครงการ" ∷ "โปรเจกต์" ∷ "project" ∷ "#" ∷ [])

-- The test of the loop.
unfoldable pub is_named : String → String → Project → Bool
unfolding normalize_project_key contains
is_named text_key explicit_key p =
    let name_key = normalize_project_key p.name in
    not (is_empty name_key)
    && (if is_empty explicit_key
        then contains text_key name_key
        else str_eq name_key explicit_key
          || contains name_key explicit_key
          || contains explicit_key name_key)

abbrev split_among : ℤ → List Project → List AllocationInput × List Project
split_among amount matches = (split_project_allocations matches amount, matches)

-- What follows the loop: a project that the text names and that is not there is created.
abbrev matched_or_new :
    String → String → String → ℤ → List Project → M Db Error (List AllocationInput × List Project)
matched_or_new user_id namespace name amount (p ∷ ps) = pure (split_among amount (p ∷ ps))
matched_or_new user_id namespace name amount [] =
    if is_empty name
    then pure ([], [])
    else create_project (record {
      user_id = user_id;
      namespace = namespace;
      name = name;
      description = "";
      color = "#0f766e";
      budget_amount = pos 0;
      target_date = 0;
    })
      >>= λ p. pure (split_among amount (p ∷ []))

-- `ResolveProjectAllocations`; every match is one that was seen, so its last loop keeps them all
unfoldable pub resolve_project_allocations :
    String → String → String → ℤ → M Db Error (List AllocationInput × List Project)
unfolding trim_space mentions_project_context normalize_project_key extract_explicit_project_name
    is_named
resolve_project_allocations user_id namespace text amount =
    let t = trim_space text in
    let name = extract_explicit_project_name t in
    if is_empty user_id
      || is_empty namespace
      || leb_ℤ amount (pos 0)
      || not (mentions_project_context t)
    then pure ([], [])
    else list_active_projects user_id namespace >>= λ projects.
        matched_or_new user_id namespace name amount
          (keep (is_named (normalize_project_key t) (normalize_project_key name)) projects)

extract_explicit_project_name_lem :
    extract_explicit_project_name "จ่าย 500 Project: สวน หลังบ้าน ค่าไม้ 20" ≡ "สวน หลังบ้าน"
unfolding extract_explicit_project_name
extract_explicit_project_name_lem = refl
