-- ===== src/Normalize/Timestamp.antt =====
-- `normalizeTimestamp` of packages/receipt-core/src/normalize.ts, with the parts of ECMAScript's
-- `Date` that it uses. A time is a number of milliseconds since 0000-01-01T00:00:00.000Z, which is
-- never negative here: the year is at least 1 and an offset is less than a day.
use submittedit.Common.{
  ℕ, zero, ◌≡◌, refl, suc, ◌+◌, ◌-◌, ◌*◌, ◌/◌, ◌%◌, ◌^◌, Bool, false, ◌||◌, Option, none, some, [],
  ◌∷◌, ◌++◌, ltb, ◌==◌, if◌then◌else◌,
}
use submittedit.Text.{Text, u, is_digit}
use submittedit.Text.Decimal.{pad_digits}
use submittedit.Result.{Result, ok, throw, throw_if, ◌>>◌, JsonPath, root, invalid_timestamp}
use submittedit.Value.{Value, str}
use submittedit.Normalize.Calendar.{
  days_in_month, day_from_year, days_before_month, year_of_day, month_of_day, search_down,
}

pub data Zone : Type 0 where
  utc : Zone
  ahead behind : (hour minute : ℕ) → Zone

-- The groups of `RFC3339_PATTERN`, as numbers.
pub record Stamp : Type 0 where
  pub year : ℕ
  pub month : ℕ
  pub day : ℕ
  pub hour : ℕ
  pub minute : ℕ
  pub second : ℕ
  pub millisecond : ℕ
  pub zone : Zone

infixl 5 ◌>>=?◌
abbrev pub ◌>>=?◌ {ℓ κ} : {A : Type ℓ} {B : Type κ} → Option A → (A → Option B) → Option B
none >>=? f = none
some a >>=? f = f a

-- `\d{k}`, read as a number.
unfoldable pub take_digits : ℕ → ℕ → Text → Option (ℕ × Text)
unfolding is_digit
take_digits zero acc s = some (acc, s)
take_digits (suc k) acc [] = none
take_digits (suc k) acc (c ∷ s) =
    let rest = take_digits k (acc * 10 + (c - b'0')) s in if is_digit c then rest else none

unfoldable pub expect : ℕ → Text → Option Text
expect c [] = none
expect c (d ∷ s) = if c == d then some s else none

-- Up to `k` digits of a fraction, each with its weight in milliseconds.
unfoldable pub take_fraction_digits : ℕ → ℕ → Text → ℕ × Text
unfolding is_digit
take_fraction_digits zero acc s = (acc, s)
take_fraction_digits (suc k) acc [] = (acc, [])
take_fraction_digits (suc k) acc (c ∷ s) =
    let rest = take_fraction_digits k (acc + (c - b'0') * 10 ^ k) s in
    if is_digit c then rest else (acc, c ∷ s)

abbrev first_is_digit : Text → Bool
first_is_digit [] = false
first_is_digit (c ∷ s) = is_digit c

-- `(?:\.(\d{1,3}))?`.
unfoldable pub take_fraction : Text → Option (ℕ × Text)
unfolding take_fraction_digits
take_fraction [] = some (0, [])
take_fraction (c ∷ s) =
    if c == b'.'
    then (if first_is_digit s then some (take_fraction_digits 3 0 s) else none)
    else some (0, c ∷ s)

abbrev end_of_text : Zone → Text → Option Zone
end_of_text z [] = some z
end_of_text z (c ∷ s) = none

take_offset : (ℕ → ℕ → Zone) → Text → Option Zone
take_offset f s = take_digits 2 0 s >>=? λ (hour, s).
    expect b':' s >>=? λ s. take_digits 2 0 s >>=? λ (minute, s). end_of_text (f hour minute) s

-- `(Z|[+-]\d{2}:\d{2})$`.
unfoldable pub take_zone : Text → Option Zone
unfolding take_offset
take_zone [] = none
take_zone (c ∷ s) =
    if c == b'Z'
    then end_of_text utc s
    else if c == b'+'
    then take_offset ahead s
    else if c == b'-'
    then take_offset behind s
    else none

-- `RFC3339_PATTERN.exec(value)`.
unfoldable pub match_rfc3339 : Text → Option Stamp
match_rfc3339 s = take_digits 4 0 s >>=? λ (year, s). expect b'-' s >>=? λ s.
    take_digits 2 0 s >>=? λ (month, s). expect b'-' s >>=? λ s. take_digits 2 0 s >>=? λ (day, s).
    expect b'T' s >>=? λ s. take_digits 2 0 s >>=? λ (hour, s). expect b':' s >>=? λ s.
    take_digits 2 0 s >>=? λ (minute, s). expect b':' s >>=? λ s.
    take_digits 2 0 s >>=? λ (second, s). take_fraction s >>=? λ (millisecond, s).
    take_zone s >>=? λ zone. some (record {
      year = year;
      month = month;
      day = day;
      hour = hour;
      minute = minute;
      second = second;
      millisecond = millisecond;
      zone = zone;
    })

unfoldable pub has_invalid_date : Stamp → Bool
has_invalid_date t =
    t.year == 0
    || ltb t.month 1
    || ltb 12 t.month
    || ltb t.day 1
    || ltb (days_in_month t.year t.month) t.day
    || ltb 23 t.hour
    || ltb 59 t.minute
    || ltb 59 t.second

unfoldable pub has_invalid_offset : Zone → Bool
has_invalid_offset utc = false
has_invalid_offset (ahead hour minute) = ltb 23 hour || ltb 59 minute
has_invalid_offset (behind hour minute) = ltb 23 hour || ltb 59 minute

-- `setUTCFullYear` and `setUTCHours`.
unfoldable pub local_time : Stamp → ℕ
local_time t =
    (day_from_year t.year + days_before_month t.year t.month + (t.day - 1)) * 86400000
    + t.hour * 3600000
    + t.minute * 60000
    + t.second * 1000
    + t.millisecond

-- `local.getTime() - offsetMinutes * 60_000`.
unfoldable pub utc_time : ℕ → Zone → ℕ
utc_time time utc = time
utc_time time (ahead hour minute) = time - (hour * 60 + minute) * 60000
utc_time time (behind hour minute) = time + (hour * 60 + minute) * 60000

-- The calendar fields of a time.
unfoldable pub stamp_of_time : ℕ → Stamp
stamp_of_time time =
    let day = time / 86400000 in
    let year = year_of_day day in
    let day_of_year = day - day_from_year year in
    let month = month_of_day year day_of_year in
    record {
      year = year;
      month = month;
      day = day_of_year - days_before_month year month + 1;
      hour = time / 3600000 % 24;
      minute = time / 60000 % 60;
      second = time / 1000 % 60;
      millisecond = time % 1000;
      zone = utc;
    }

-- A number of `k` digits, a separator, and what follows.
abbrev pub part : ℕ → ℕ → ℕ → Text → Text
part k n separator rest = pad_digits k n ++ (separator ∷ rest)

-- `toISOString`, for years of four digits.
unfoldable pub to_iso_string : Stamp → Text
to_iso_string t = part 4 t.year b'-' (
    part 2 t.month b'-' (
      part 2 t.day b'T' (
        part 2 t.hour b':'
          (part 2 t.minute b':' (part 2 t.second b'.' (part 3 t.millisecond b'Z' []))))))

abbrev pub check_year : Stamp → JsonPath → Result Text
check_year t path = do
  throw_if (ltb t.year 1 || ltb 9999 t.year) invalid_timestamp path
  ok (to_iso_string t)

abbrev pub check_stamp : Option Stamp → JsonPath → Result Text
check_stamp none path = throw invalid_timestamp path
check_stamp (some t) path = do
  throw_if (has_invalid_date t) invalid_timestamp path
  throw_if (has_invalid_offset t.zone) invalid_timestamp path
  check_year (stamp_of_time (utc_time (local_time t) t.zone)) path

unfoldable pub normalize_timestamp : Value → JsonPath → Result Text
normalize_timestamp (str s) path = check_stamp (match_rfc3339 s) path
normalize_timestamp _ path = throw invalid_timestamp path

timestamp_test :
    normalize_timestamp (str (u "2024-02-29T23:30:05.7-01:45")) root
    ≡ ok (u "2024-03-01T01:15:05.700Z")
unfolding normalize_timestamp match_rfc3339 has_invalid_date has_invalid_offset local_time utc_time
    stamp_of_time to_iso_string take_digits expect take_fraction take_zone pad_digits u year_of_day
    month_of_day search_down day_from_year days_before_month days_in_month
timestamp_test = refl
