-- ===== src/Normalize/Calendar.antt =====
-- Calendar arithmetic: `isLeapYear` and `daysInMonth` of packages/receipt-core/src/normalize.ts, and
-- the day and year functions by which ECMAScript defines `Date`, counted from 0000-01-01.
use submittedit.Common.{
  ℕ, zero, suc, ◌+◌, ◌-◌, ◌*◌, ◌/◌, ◌%◌, Bool, not, ◌&&◌, ◌||◌, List, [], ◌∷◌, leb, ◌==◌,
  if◌then◌else◌,
}

unfoldable pub is_leap_year : ℕ → Bool
is_leap_year year = year % 4 == 0 && (not (year % 100 == 0) || year % 400 == 0)

abbrev pub nth : List ℕ → ℕ → ℕ
nth [] i = 0
nth (x ∷ xs) zero = x
nth (x ∷ xs) (suc i) = nth xs i

-- `days[month - 1] ?? 0`.
unfoldable pub days_in_month : ℕ → ℕ → ℕ
unfolding is_leap_year
days_in_month year zero = 0
days_in_month year (suc m) =
    nth
      (31
        ∷ (if is_leap_year year then 29 else 28)
        ∷ 31
        ∷ 30
        ∷ 31
        ∷ 30
        ∷ 31
        ∷ 31
        ∷ 30
        ∷ 31
        ∷ 30
        ∷ 31
        ∷ [])
      m

-- The days before 1 January of a year: ECMAScript's `DayFromYear`.
unfoldable pub day_from_year : ℕ → ℕ
day_from_year y = 365 * y + (y + 3) / 4 - (y + 99) / 100 + (y + 399) / 400

-- The days of a year before the first of a month.
unfoldable pub days_before_month : ℕ → ℕ → ℕ
days_before_month year zero = 0
days_before_month year (suc m) = days_before_month year m + days_in_month year m

-- The largest `k ≤ bound` with `f k ≤ n`, or 0.
unfoldable pub search_down : (ℕ → ℕ) → ℕ → ℕ → ℕ
search_down f n zero = 0
search_down f n (suc k) = let rest = search_down f n k in if leb (f (suc k)) n then suc k else rest

-- ECMAScript's `YearFromTime`: the last year that begins on or before the day.
unfoldable pub year_of_day : ℕ → ℕ
year_of_day n = search_down day_from_year n (n / 365)

unfoldable pub month_of_day : ℕ → ℕ → ℕ
month_of_day year n = search_down (days_before_month year) n 12
