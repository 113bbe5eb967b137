-- ===== src/Websearch.antt =====
-- `ShouldSearch` of go-core/internal/websearch/websearch.go: which texts are looked up in the web.
use thclaws_thai_ai_agent.Base.{String, Bool, false, not, ◌&&◌, ◌||◌, [], ◌∷◌, if◌then◌else◌}
use thclaws_thai_ai_agent.Base.Text.{is_empty, trim_space, to_lower, has_prefix, size}
use thclaws_thai_ai_agent.Base.Scan.{Phrases, contains_any, skip, is_blank, is_in}

-- `[^\s<>"']+` from here on
abbrev starts_link : String → Bool
starts_link String.[] = false
starts_link (String.◌∷◌ c s) = not (is_blank c) && not (is_in c "<>\"'")

-- A scheme with a link behind it.
unfoldable pub has_link : String → String → Bool
unfolding has_prefix skip is_in
has_link String.[] scheme = false
has_link (String.◌∷◌ c s) scheme =
    (has_prefix (String.◌∷◌ c s) scheme && starts_link (skip (size scheme) (String.◌∷◌ c s)))
    || has_link s scheme

-- `urlPattern`
unfoldable pub has_url : String → Bool
unfolding has_link
has_url text = has_link text "http://" || has_link text "https://"

-- `searchKeywordRe`
abbrev search_keywords : Phrases
search_keywords =
    "ค้นหา" ∷ "หาให้" ∷ "ดูเว็บ" ∷ "จากเว็บ" ∷ "internet" ∷ "อินเทอร์เน็ต" ∷ "google" ∷ "กูเกิล"
    ∷ "ข่าว" ∷ "ล่าสุด" ∷ "ปัจจุบัน" ∷ "ตอนนี้" ∷ "วันนี้" ∷ "ราคา" ∷ "หุ้น" ∷ "คริปโต" ∷ "อากาศ"
    ∷ "ผลบอล" ∷ "ตาราง" ∷ "ใครเป็น" ∷ "ใครคือ" ∷ "เว็บ" ∷ "url" ∷ []

-- `accountingHintRe`
abbrev accounting_hints : Phrases
accounting_hints =
    "กาแฟ" ∷ "ข้าว" ∷ "ค่าไฟ" ∷ "ค่าน้ำ" ∷ "เงินเดือน" ∷ "ขายของ" ∷ "รายรับ" ∷ "รายจ่าย"
    ∷ "สรุปวันนี้" ∷ "สรุปเดือนนี้" ∷ "เงินเหลือ" ∷ "วันนี้วันอะไร" ∷ []

-- The tests of `ShouldSearch` on the trimmed text.
unfoldable pub is_searched : String → Bool
unfolding contains_any to_lower has_url
is_searched text =
    if is_empty text || contains_any text accounting_hints
    then false
    else has_url text || contains_any (to_lower text) search_keywords

-- `ShouldSearch`
unfoldable pub should_search : String → Bool
unfolding trim_space is_searched
should_search text = is_searched (trim_space text)
