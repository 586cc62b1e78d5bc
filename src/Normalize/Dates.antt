-- ===== src/Normalize/Dates.antt =====
-- packages/receipt-core/src/normalize.ts, `normalizeTimestamp`: the calendar fields of a time.
use submittedit.Common.{
  ℕ, zero, suc, ◌+◌, ◌-◌, ◌/◌, ◌≤◌, ◌<◌, ◌≡◌, refl, ap, subst, false, [], ◌∷◌, arith, ltb,
}
use native.Mathlib.Decide.{dec_lt}
use submittedit.Normalize.Calendar.{
  nth, is_leap_year, days_in_month, day_from_year, days_before_month, search_down, year_of_day,
  month_of_day,
}
use submittedit.Normalize.Timestamp.{has_invalid_date, local_time, stamp_of_time}

-- `search_down` finds the last place where the function is still at most `n`.
search_down_found :
    (f : ℕ → ℕ) (n k : ℕ) → f 0 ≤ n → (f (search_down f n k) ≤ n) × (search_down f n k ≤ k)
unfolding search_down
search_down_found f n zero h = (h, omega arith)
search_down_found f n (suc k) h = ground (arith, search_down_found f n k)

search_down_last : (f : ℕ → ℕ) (n k j : ℕ) → search_down f n k < j → j ≤ k → n < f j
unfolding search_down
search_down_last f n zero j h le = absurd (omega arith)
search_down_last f n (suc k) j h le = ground (arith, search_down_last f n k j, ap f)

year_length : (y : ℕ) → day_from_year (suc y) ≡ day_from_year y + days_before_month y 13
unfolding day_from_year days_before_month days_in_month is_leap_year
year_length y = ground arith

day_from_year_above : (n y : ℕ) → n / 365 < y → n < day_from_year y
unfolding day_from_year
day_from_year_above n y h = omega arith

search_down_bounds :
    (f : ℕ → ℕ) (n k : ℕ)
    → f 0 ≤ n
    → n < f (suc k)
    → (f (search_down f n k) ≤ n) × (n < f (suc (search_down f n k))) × (search_down f n k ≤ k)
search_down_bounds f n k low high =
    let (found, within) = search_down_found f n k low in
    let above : n < f (suc (search_down f n k)) = elim (dec_lt (search_down f n k) k) [
      | yes p ↦ search_down_last f n k (suc (search_down f n k)) (omega arith) p
      | no p ↦ let e : k ≡ search_down f n k = omega arith in subst (λ m. n < f (suc m)) e high
    ] in
    (found, above, within)

year_of_day_bounds :
    (n : ℕ) → (day_from_year (year_of_day n) ≤ n) × (n < day_from_year (suc (year_of_day n)))
unfolding year_of_day
year_of_day_bounds n =
    let zero_low : day_from_year 0 ≤ n = unfold day_from_year in omega arith in
    let (low, high, within) =
      search_down_bounds day_from_year n (n / 365) zero_low
        (day_from_year_above n (suc (n / 365)) (omega arith)) in
    (low, high)

positive_month : (y n m : ℕ) → n < days_before_month y (suc m) → 1 ≤ m
unfolding days_before_month days_in_month
positive_month y n zero h = absurd (omega arith)
positive_month y n (suc m) h = omega arith

month_of_day_bounds :
    (y n : ℕ)
    → n < days_before_month y 13
    → (days_before_month y (month_of_day y n) ≤ n)
      × (n < days_before_month y (suc (month_of_day y n)))
      × (1 ≤ month_of_day y n)
      × (month_of_day y n ≤ 12)
unfolding month_of_day
month_of_day_bounds y n h =
    let zero_low : days_before_month y 0 ≤ n = unfold days_before_month in omega arith in
    let (low, high, within) = search_down_bounds (days_before_month y) n 12 zero_low h in
    (low, high, positive_month y n (search_down (days_before_month y) n 12) high, within)

days_before_month-suc :
    (y m : ℕ) → days_before_month y (suc m) ≡ days_before_month y m + days_in_month y m
unfolding days_before_month
days_before_month-suc y m = refl

-- The fields of a time add up to it, and are those of a day of the calendar.
pub stamp_adds_up : (time : ℕ) → local_time (stamp_of_time time) ≡ time
unfolding local_time stamp_of_time
stamp_adds_up time =
    let day = time / 86400000 in
    let (year_low, year_high) = year_of_day_bounds day in
    let whole = year_length (year_of_day day) in
    let (low, high, first, last) =
      month_of_day_bounds (year_of_day day) (day - day_from_year (year_of_day day)) (omega arith) in
    omega arith

pub stamp_is_valid :
    (time : ℕ)
    → ltb (stamp_of_time time).year 1 ≡ false
    → has_invalid_date (stamp_of_time time) ≡ false
unfolding has_invalid_date stamp_of_time
stamp_is_valid time h =
    let day = time / 86400000 in
    let (year_low, year_high) = year_of_day_bounds day in
    let whole = year_length (year_of_day day) in
    let (low, high, first, last) =
      month_of_day_bounds (year_of_day day) (day - day_from_year (year_of_day day)) (omega arith) in
    let next =
      days_before_month-suc (year_of_day day)
        (month_of_day (year_of_day day) (day - day_from_year (year_of_day day))) in
    ground arith

short_list-le : (m : ℕ) → nth (31 ∷ 30 ∷ 31 ∷ 30 ∷ 31 ∷ 31 ∷ 30 ∷ 31 ∷ 30 ∷ 31 ∷ []) m ≤ 31
short_list-le m = ground arith

pub days_in_month-le : (y m : ℕ) → days_in_month y m ≤ 31
unfolding days_in_month is_leap_year
days_in_month-le y zero = omega arith
days_in_month-le y (suc zero) = omega arith
days_in_month-le y (suc (suc zero)) = ground arith
days_in_month-le y (suc (suc (suc m))) = short_list-le m
