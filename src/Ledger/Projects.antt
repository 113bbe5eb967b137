-- ===== src/Ledger/Projects.antt =====
-- Projects: ledger/projects.go.
pub mod Colors
use Prim.Native.Char.{Char, code}
use thclaws_thai_ai_agent.Base.{
  ℕ, String, Bool, true, false, not, Option, none, some, List, ◌∷◌, ◌&&◌, ◌||◌, str_eq,
  if◌then◌else◌, find_first, update_where, keep, exists, leb, ◌==◌,
}
use thclaws_thai_ai_agent.Base.Int.{ℤ, pos, leb_ℤ}
use thclaws_thai_ai_agent.Base.Text.{is_empty, trim_space, to_lower, nullable_string, size}
use thclaws_thai_ai_agent.Sql.{
  SqlError, no_rows, unique_violation, Error, plain, wrapped, Result, ok, err, M, pure, raise,
  guard, on_pool, recover, reading, wrap, ◌>>=◌, ◌>>◌, Query,
}
use thclaws_thai_ai_agent.Ledger.Tables.{Project, str, Fields, end, field, Db}
use thclaws_thai_ai_agent.Ledger.Allocations.{is_live, owns_project}
use thclaws_thai_ai_agent.Ledger.Events.{append_ledger_event}

-- `ProjectInput`
pub record ProjectInput : Type 0 where
  pub user_id : String
  pub namespace : String
  pub name : String
  pub description : String
  pub color : String
  pub budget_amount : ℤ
  pub target_date : ℕ

abbrev pub is_hex_digit : Char → Bool
is_hex_digit c =
    let k = code c in
    (leb b'0' k && leb k b'9') || (leb b'a' k && leb k b'f') || (leb b'A' k && leb k b'F')

unfoldable pub all_hex : String → Bool
all_hex String.[] = true
all_hex (String.◌∷◌ c s) = is_hex_digit c && all_hex s

-- '#' and six hexadecimal digits. A text of seven bytes that are all ASCII has seven code points;
-- one with other code points fails the second test of the source too.
unfoldable pub is_color : String → Bool
unfolding all_hex
is_color String.[] = false
is_color (String.◌∷◌ c s) = code c == b'#' && size s == 6 && all_hex s

abbrev pub default_color : String
default_color = "#0f766e"

-- `cleanColor`
unfoldable pub clean_color : String → String
unfolding is_color
clean_color color = if is_color (trim_space color) then trim_space color else default_color

-- `nullablePositiveAmount`
unfoldable pub nullable_positive_amount : ℤ → Option ℤ
nullable_positive_amount v = if leb_ℤ v (pos 0) then none else some v

-- `nullableTime`
unfoldable pub nullable_time : ℕ → Option ℕ
nullable_time t = if t == 0 then none else some t

-- The unique index on (namespace, lower(name)) of the projects that are not deleted.
abbrev pub same_name : String → String → Project → Bool
same_name namespace name p =
    str_eq p.namespace namespace && str_eq (to_lower p.name) (to_lower name) && is_live p.deleted_at

abbrev pub project_row : ProjectInput → String → Project
project_row input id = record {
  id = id;
  user_id = input.user_id;
  namespace = input.namespace;
  name = trim_space input.name;
  description = nullable_string (trim_space input.description);
  color = clean_color input.color;
  budget_amount = nullable_positive_amount input.budget_amount;
  target_date = nullable_time input.target_date;
  status = "ACTIVE";
  deleted_at = none;
}

-- INSERT INTO projects … RETURNING …
unfoldable pub insert_project : ProjectInput → Query Db Project
insert_project input st db =
    if exists (same_name input.namespace (trim_space input.name)) db.projects
    then err unique_violation
    else ok
        (project_row input st.id, record db { projects = project_row input st.id ∷ db.projects })

abbrev project_payload : Project → Fields
project_payload p = field "projectId" (str p.id) (field "name" (str p.name) end)

-- `CreateProject`; the error of the event is dropped
unfoldable pub create_project : ProjectInput → M Db Error Project
create_project input = do
  guard (is_empty input.user_id || is_empty input.namespace || is_empty (trim_space input.name))
      "ledger projects: userID namespace and name required"
  p ← wrap "ledger projects: create" (on_pool (insert_project input))
  append_ledger_event input.namespace input.user_id "project.created" (project_payload p)
  pure p

abbrev pub revised_project : ProjectInput → Project → Project
revised_project input p = record p {
  name = trim_space input.name;
  description = nullable_string (trim_space input.description);
  color = clean_color input.color;
  budget_amount = nullable_positive_amount input.budget_amount;
  target_date = nullable_time input.target_date;
}

abbrev same_name_elsewhere : String → ProjectInput → Project → Bool
same_name_elsewhere project_id input p =
    same_name input.namespace (trim_space input.name) p && not (str_eq p.id project_id)

-- UPDATE projects … RETURNING …
unfoldable pub update_project_row : String → ProjectInput → Query Db Project
update_project_row project_id input st db =
    elim (find_first (owns_project project_id input.user_id input.namespace) db.projects) [
      | none ↦ err no_rows
      | some p ↦
          if exists (same_name_elsewhere project_id input) db.projects
          then err unique_violation
          else ok (
            revised_project input p,
            record db {
              projects =
                  update_where (owns_project project_id input.user_id input.namespace)
                    (revised_project input) db.projects;
            },
          )
    ]

abbrev project_updated : Result SqlError Project → M Db Error Project
project_updated (ok p) = pure p
project_updated (err no_rows) = raise (plain "ledger projects: project not found")
project_updated (err e) = raise (wrapped "ledger projects: update" e)

-- `UpdateProject`
unfoldable pub update_project : String → ProjectInput → M Db Error Project
update_project project_id input = do
  guard
      (is_empty input.user_id
        || is_empty input.namespace
        || is_empty project_id
        || is_empty (trim_space input.name))
      "ledger projects: userID namespace projectID and name required"
  found ← recover (on_pool (update_project_row project_id input))
  p ← project_updated found
  append_ledger_event input.namespace input.user_id "project.updated" (project_payload p)
  pure p

abbrev pub archived : ℕ → Project → Project
archived t p = record p { status = "ARCHIVED"; deleted_at = some t }

-- UPDATE projects SET status = 'ARCHIVED' …; whether a row was affected
unfoldable pub archive_project : String → String → String → Query Db Bool
archive_project user_id namespace project_id st db = ok (
  exists (owns_project project_id user_id namespace) db.projects,
  record db {
    projects =
        update_where (owns_project project_id user_id namespace) (archived st.now) db.projects;
  },
)

-- `DeleteProject`
unfoldable pub delete_project : String → String → String → M Db Error (Unit {0})
delete_project user_id namespace project_id = do
  guard (is_empty user_id || is_empty namespace || is_empty project_id)
      "ledger projects: userID namespace and projectID required"
  affected ← wrap "ledger projects: delete" (on_pool (archive_project user_id namespace project_id))
  guard (not affected) "ledger projects: project not found"
  append_ledger_event namespace user_id "project.deleted" (field "projectId" (str project_id) end)
  pure tt

abbrev pub is_active : String → String → Project → Bool
is_active user_id namespace p =
    str_eq p.user_id user_id
    && str_eq p.namespace namespace
    && str_eq p.status "ACTIVE"
    && is_live p.deleted_at

-- `listActiveProjects`, but for its order
unfoldable pub list_active_projects : String → String → M Db Error (List Project)
list_active_projects user_id namespace =
    wrap "ledger projects: active list"
      (on_pool (reading (λ db. ok (keep (is_active user_id namespace) db.projects))))
