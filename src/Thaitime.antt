-- ===== src/Thaitime.antt =====
-- go-core/internal/thaitime: the texts of times. What Go's `time` says of an instant in the zone of
-- Bangkok is a parameter; an instant is in nanoseconds.
use thclaws_thai_ai_agent.Base.{
  ℕ, zero, suc, ◌+◌, ◌%◌, ◌/◌, String, List, [], ◌∷◌, if◌then◌else◌, ltb,
}
use thclaws_thai_ai_agent.Base.Text.{append}
use thclaws_thai_ai_agent.Ledger.Money.{digit, plain_digits}

-- The methods of `time.Time` in the zone of Bangkok.
pub record Calendar : Type 0 where
  pub year : ℕ → ℕ
  pub month : ℕ → ℕ
  pub day : ℕ → ℕ
  pub weekday : ℕ → ℕ
  pub hour : ℕ → ℕ
  pub minute : ℕ → ℕ
  pub midnight : ℕ → ℕ
  pub first_of_month : ℕ → ℕ
  pub first_of_next_month : ℕ → ℕ

abbrev item : List String → ℕ → String
item [] n = ""
item (s ∷ ss) zero = s
item (s ∷ ss) (suc n) = item ss n

abbrev months : List String
months =
    "" ∷ "ม.ค." ∷ "ก.พ." ∷ "มี.ค." ∷ "เม.ย." ∷ "พ.ค." ∷ "มิ.ย." ∷ "ก.ค." ∷ "ส.ค." ∷ "ก.ย." ∷ "ต.ค."
    ∷ "พ.ย." ∷ "ธ.ค." ∷ []

abbrev full_months : List String
full_months =
    "" ∷ "มกราคม" ∷ "กุมภาพันธ์" ∷ "มีนาคม" ∷ "เมษายน" ∷ "พฤษภาคม" ∷ "มิถุนายน" ∷ "กรกฎาคม"
    ∷ "สิงหาคม" ∷ "กันยายน" ∷ "ตุลาคม" ∷ "พฤศจิกายน" ∷ "ธันวาคม" ∷ []

abbrev weekdays : List String
weekdays = "อาทิตย์" ∷ "จันทร์" ∷ "อังคาร" ∷ "พุธ" ∷ "พฤหัสบดี" ∷ "ศุกร์" ∷ "เสาร์" ∷ []

-- `%02d` of a number below 100
unfoldable pub two_digits : ℕ → String
unfolding append digit
two_digits n = append (digit (n / 10)) (digit (n % 10))

-- `%d` of a number below 1000000
abbrev whole : ℕ → String
whole n =
    if ltb n 1000
    then plain_digits n
    else append (plain_digits (n / 1000)) (append (digit (n / 100 % 10)) (two_digits (n % 100)))

module _ (cal : Calendar) where
  -- `ShortDate`
  unfoldable pub short_date : ℕ → String
  unfolding append plain_digits two_digits
  short_date t = append (plain_digits (cal.day t)) (
      append " "
        (append (item months (cal.month t)) (append " " (two_digits ((cal.year t + 543) % 100)))))

  -- `LongDate`
  unfoldable pub long_date : ℕ → String
  unfolding append plain_digits digit two_digits
  long_date t =
      append (plain_digits (cal.day t)) (
        append " "
          (append (item full_months (cal.month t)) (append " " (whole (cal.year t + 543)))))

  -- `Time`
  unfoldable pub time_text : ℕ → String
  unfolding append two_digits
  time_text t = append (two_digits (cal.hour t)) (append ":" (two_digits (cal.minute t)))

  -- `ShortDateTime`
  unfoldable pub short_date_time : ℕ → String
  unfolding append short_date time_text
  short_date_time t = append (short_date t) (append " " (time_text t))

  -- `TodaySentence`
  unfoldable pub today_sentence : ℕ → String
  unfolding append long_date
  today_sentence t =
      append "วันนี้วัน"
        (append (item weekdays (cal.weekday t)) (append "ที่ " (append (long_date t) " ครับ")))

  -- `monthLabel` of ledger/summary.go
  unfoldable pub month_label : ℕ → String
  unfolding append two_digits
  month_label t =
      append (item months (cal.month t)) (append " " (two_digits ((cal.year t + 543) % 100)))
