-- ===== src/Memory/Context.antt =====
-- `GetContext` of memory/service.go. Its reads run side by side; they only read, so they stand here
-- one after the other. The pages of the brain come from the interface `WikiBrainReader`.
use thclaws_thai_ai_agent.Base.{
  ℕ, String, Bool, not, ◌&&◌, Option, none, some, List, [], ◌∷◌, ◌++◌, str_eq, if◌then◌else◌, leb,
  keep, map, take,
}
use thclaws_thai_ai_agent.Base.Text.{is_empty}
use thclaws_thai_ai_agent.Sql.{
  SqlError, Error, wrapped, Result, ok, err, M, pure, raise, guard, on_pool, reading, recover,
  ◌>>=◌, ◌>>◌,
}
use thclaws_thai_ai_agent.Memory.Store.{Message, MemorySummary, WikiPage, Store}

module _ {A : Type 0} (time : A → ℕ) where
  unfoldable pub insert_newest : A → List A → List A
  insert_newest x [] = x ∷ []
  insert_newest x (y ∷ ys) =
      let rest = insert_newest x ys in if leb (time y) (time x) then x ∷ y ∷ ys else y ∷ rest

  -- `SetSort` by a time, -1. MongoDB leaves the order of equal times open; here it is that in which
  -- the documents stand.
  unfoldable pub newest : List A → List A
  unfolding insert_newest
  newest [] = []
  newest (x ∷ xs) = insert_newest x (newest xs)

abbrev head_of : {A : Type 0} → List A → Option A
head_of [] = none
head_of (x ∷ xs) = some x

unfoldable pub backwards : {A : Type 0} → List A → List A → List A
backwards [] done = done
backwards (x ∷ xs) done = backwards xs (x ∷ done)

abbrev pub is_fresh : String → Message → Bool
is_fresh namespace m = str_eq m.namespace namespace && not m.compacted

-- The last messages that are not compacted, the oldest first.
unfoldable pub recent_messages : String → Store → List Message
unfolding newest backwards
recent_messages namespace s =
    backwards
      (take 12 (newest (λ (m : Message). m.created_at) (keep (is_fresh namespace) s.messages))) []

abbrev summary_text : Option MemorySummary → String
summary_text none = ""
summary_text (some s) = s.summary

unfoldable pub latest_summary : String → Store → String
unfolding newest
latest_summary namespace s = summary_text (
    head_of (
      newest (λ (x : MemorySummary). x.created_at)
        (keep (λ (x : MemorySummary). str_eq x.namespace namespace) s.summaries)))

unfoldable pub recent_pages : String → Store → List WikiPage
unfolding newest
recent_pages namespace s = take 8 (
    newest (λ (p : WikiPage). p.updated_at)
      (keep (λ (p : WikiPage). str_eq p.namespace namespace) s.wiki_pages))

-- `ContextResult`, a page by its title and summary
pub record ContextResult : Type 0 where
  pub recent_history : List Message
  pub compact_summary : String
  pub wiki_pages : List (String × String)

abbrev page_line : WikiPage → String × String
page_line p = (p.title, p.content)

abbrev assembled :
    List (String × String)
    → Result SqlError (List Message)
    → Result SqlError String
    → Result SqlError (List WikiPage)
    → M Store Error ContextResult
assembled brain (err e) s p = raise (wrapped "memory: GetContext messages" e)
assembled brain (ok ms) (err e) p = raise (wrapped "memory: GetContext summary" e)
assembled brain (ok ms) (ok s) (err e) = raise (wrapped "memory: GetContext wikiPages" e)
assembled brain (ok ms) (ok s) (ok ps) =
    pure
      (record { recent_history = ms; compact_summary = s; wiki_pages = brain ++ map page_line ps })

-- `GetContext`, with the pages of the brain, none where it failed
unfoldable pub get_context : List (String × String) → String → M Store Error ContextResult
get_context brain namespace = do
  guard (is_empty namespace) "memory: GetContext: namespace required"
  ms ← recover (on_pool (reading (λ s. ok (recent_messages namespace s))))
  summary ← recover (on_pool (reading (λ s. ok (latest_summary namespace s))))
  pages ← recover (on_pool (reading (λ s. ok (recent_pages namespace s))))
  assembled brain ms summary pages
