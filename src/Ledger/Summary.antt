-- ===== src/Ledger/Summary.antt =====
-- The texts of a chat summary: ledger/summary.go.
pub mod Categories
use Prim.Native.Char.{code}
use thclaws_thai_ai_agent.Base.{
  ℕ, zero, suc, ◌+◌, ◌-◌, ◌*◌, ◌/◌, String, Bool, true, false, not, ◌&&◌, ◌||◌, Option, none, some,
  List, [], ◌∷◌, str_eq, if◌then◌else◌, ltb, leb, ◌==◌, keep, length, take, ◌≡◌, refl,
}
use thclaws_thai_ai_agent.Base.Int.{ℤ, pos, ◌+ℤ◌, ◌-ℤ◌, ltb_ℤ}
use thclaws_thai_ai_agent.Base.Text.{is_empty, trim_space, append}
use thclaws_thai_ai_agent.Sql.{Error, M, pure, time_now, ◌>>=◌}
use thclaws_thai_ai_agent.Thaitime.{Calendar, short_date, time_text, month_label}
use thclaws_thai_ai_agent.Ledger.Tables.{Db}
use thclaws_thai_ai_agent.Ledger.Money.{format_money, format_int}
use thclaws_thai_ai_agent.Ledger.Reader.{
  SummaryRow, BalanceTotals, fetch_user_range, fetch_user_totals,
}

-- `catSum`
pub record CatSum : Type 0 where
  pub category : String
  pub amount : ℤ

-- `sumByType`
unfoldable pub sum_by_type : List SummaryRow → String → ℤ
sum_by_type [] t = pos 0
sum_by_type (r ∷ rs) t = (if str_eq r.tx_type t then r.amount else pos 0) +ℤ sum_by_type rs t

-- `filterByType`
abbrev pub filter_by_type : List SummaryRow → String → List SummaryRow
filter_by_type rows t = keep (λ (r : SummaryRow). str_eq r.tx_type t) rows

-- `totals[category] += amount`, on the map as a list of its entries
unfoldable pub add_total : String → ℤ → List CatSum → List CatSum
add_total category amount [] = record { category = category; amount = amount } ∷ []
add_total category amount (c ∷ cs) =
    let rest = add_total category amount cs in
    if str_eq c.category category
    then record { category = c.category; amount = c.amount +ℤ amount } ∷ cs
    else c ∷ rest

-- The loop of `categoryTotals`.
unfoldable pub totals_by_category : List SummaryRow → List CatSum → List CatSum
unfolding add_total
totals_by_category [] totals = totals
totals_by_category (r ∷ rs) totals =
    let skipped = totals_by_category rs totals in
    let added = totals_by_category rs (add_total r.category r.amount totals) in
    if is_empty r.category then skipped else added

-- `s < t` of strings: by code points, which is the order of their UTF-8
unfoldable pub text_less : String → String → Bool
text_less String.[] String.[] = false
text_less String.[] (String.◌∷◌ d t) = true
text_less (String.◌∷◌ c s) String.[] = false
text_less (String.◌∷◌ c s) (String.◌∷◌ d t) =
    let rest = text_less s t in ltb (code c) (code d) || (code c == code d && rest)

-- The comparison of `sort.Slice`
unfoldable pub goes_before : CatSum → CatSum → Bool
unfolding text_less
goes_before a b =
    ltb_ℤ b.amount a.amount || (not (ltb_ℤ a.amount b.amount) && text_less a.category b.category)

unfoldable pub insert_sorted : CatSum → List CatSum → List CatSum
unfolding goes_before
insert_sorted c [] = c ∷ []
insert_sorted c (d ∷ ds) =
    let rest = insert_sorted c ds in if goes_before d c then d ∷ rest else c ∷ d ∷ ds

-- `sort.Slice`; no two entries of the map are equal in the order
unfoldable pub sorted : List CatSum → List CatSum
unfolding insert_sorted
sorted [] = []
sorted (c ∷ cs) = insert_sorted c (sorted cs)

-- `categoryTotals`
unfoldable pub category_totals : List SummaryRow → List CatSum
unfolding totals_by_category sorted
category_totals rows = sorted (totals_by_category rows [])

abbrev note_or_category : SummaryRow → String
note_or_category r = if is_empty (trim_space r.note) then r.category else trim_space r.note

abbrev in_brackets : String → String → String
in_brackets category note =
    if is_empty category || str_eq category note then "" else append " (" (append category ")")

-- One line of `appendRows`.
unfoldable pub row_line : (ℕ → String) → SummaryRow → String
unfolding append format_money trim_space
row_line label r = append "\n- " (
    append (label r.happened_at) (
      append " " (
        append (note_or_category r) (
          append " " (
            append (format_money r.amount)
              (append " บาท" (in_brackets r.category (note_or_category r))))))))

-- `appendRows`, with the number of rows that are still shown and that of the rows left out
unfoldable pub append_rows : (ℕ → String) → ℕ → List SummaryRow → String
unfolding append row_line format_int
append_rows label limit [] = ""
append_rows label zero (r ∷ rs) =
    append "\n- และอีก " (append (format_int (pos (length (r ∷ rs)))) " รายการ")
append_rows label (suc limit) (r ∷ rs) = append (row_line label r) (append_rows label limit rs)

category_lines : List CatSum → String
unfolding append format_money
category_lines [] = ""
category_lines (c ∷ cs) = append "\n- " (
    append c.category
      (append " " (append (format_money c.amount) (append " บาท" (category_lines cs)))))

abbrev titled : String → String → String
titled title body = if is_empty body then "" else append title body

abbrev headed : String → ℤ → ℤ → String
headed label income expense = append label (
    append "\nรับเข้า " (
      append (format_money income) (
        append " บาท | จ่ายออก " (
          append (format_money expense)
            (append " บาท | คงเหลือ " (append (format_money (income -ℤ expense)) " บาท"))))))

-- The rows and the categories below the first line, or what is said when there are none.
unfoldable pub details : String → (ℕ → String) → List SummaryRow → String
unfolding append format_money append_rows category_totals category_lines
details nothing time rows =
    let expenses = filter_by_type rows "EXPENSE" in
    let incomes = filter_by_type rows "INCOME" in
    if length expenses == 0 && length incomes == 0
    then nothing
    else append (titled "\nรายจ่าย:" (append_rows time 8 expenses)) (
        append (titled "\nรายรับ:" (append_rows time 5 incomes))
          (titled "\nรวมรายจ่ายตามหมวด:" (category_lines (take 5 (category_totals expenses)))))

-- `buildPeriodSummary`, with the text of a row's time
unfoldable pub build_period_summary : String → (ℕ → String) → List SummaryRow → String
unfolding append format_money sum_by_type details
build_period_summary label time rows =
    append (headed label (sum_by_type rows "INCOME") (sum_by_type rows "EXPENSE"))
      (details "\nยังไม่มีรายการที่บันทึกไว้ในช่วงนี้ครับ" time rows)

-- What RFC 3339 keeps of an instant: the second.
abbrev to_second : ℕ → ℕ
to_second t = t / 1_000_000_000 * 1_000_000_000

module _ (cal : Calendar) where
  -- `LocalDayRange`
  unfoldable pub local_day_range : ℕ → ℕ × ℕ
  local_day_range now =
      (to_second (cal.midnight now), to_second (cal.midnight now + 24 * 3_600 * 1_000_000_000 - 1))

  -- `LocalMonthRange`
  unfoldable pub local_month_range : ℕ → ℕ × ℕ
  local_month_range now =
      (to_second (cal.first_of_month now), to_second (cal.first_of_next_month now - 1))

  -- `Today`
  unfoldable pub today : String → String → M Db Error String
  unfolding local_day_range build_period_summary short_date time_text append
  today user_id namespace = do
    now ← time_now
    rows ← fetch_user_range user_id namespace (local_day_range now).0 (local_day_range now).1
    pure (build_period_summary (append "วันนี้ " (short_date cal now)) (time_text cal) rows)

  -- `ThisMonth`
  unfoldable pub this_month : String → String → M Db Error String
  unfolding local_month_range build_period_summary month_label short_date append
  this_month user_id namespace = do
    now ← time_now
    rows ← fetch_user_range user_id namespace (local_month_range now).0 (local_month_range now).1
    pure (build_period_summary (append "เดือนนี้ " (month_label cal now)) (short_date cal) rows)

unfoldable pub balance_text : BalanceTotals → String
unfolding append format_money
balance_text totals = append "ตามรายการที่บันทึกไว้ทั้งหมด รับเข้า " (
    append (format_money totals.income) (
      append " บาท จ่ายออก " (
        append (format_money totals.expense) (
          append " บาท คงเหลือ "
            (append (format_money (totals.income -ℤ totals.expense)) " บาทครับ")))))

-- `Balance`
unfoldable pub balance : String → String → M Db Error String
unfolding balance_text
balance user_id namespace = do
  totals ← fetch_user_totals user_id namespace
  pure (balance_text totals)
