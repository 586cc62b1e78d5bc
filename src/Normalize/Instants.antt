-- ===== src/Normalize/Instants.antt =====
-- packages/receipt-core/src/normalize.ts, `normalizeTimestamp`: the calendar fields of a time, their
-- text, and the instant that a text gives.
use submittedit.Common.{
  ℕ, ◌≤◌, ◌+◌, ◌*◌, sym, subst, ◌<◌, ◌≡◌, refl, false, Option, none, some, [], ◌∷◌, ◌++◌, arith,
  ltb,
}
use submittedit.Text.{Text}
use submittedit.Text.Decimal.{pad_digits}
use submittedit.Result.{ok, JsonPath}
use submittedit.Value.{Value, str}
use submittedit.Normalize.Timestamp.{
  Zone, utc, ahead, behind, Stamp, take_digits, expect, take_fraction, take_zone, match_rfc3339,
  has_invalid_date, has_invalid_offset, local_time, utc_time, stamp_of_time, to_iso_string,
  check_year, check_stamp, normalize_timestamp,
}
use submittedit.Normalize.Calendar.{day_from_year}
use submittedit.Normalize.Dates.{stamp_adds_up, stamp_is_valid, days_in_month-le}

two_digits :
    (n : ℕ) (rest : Text) → n < 100 → take_digits 2 0 (pad_digits 2 n ++ rest) ≡ some (n, rest)
unfolding take_digits pad_digits
two_digits n rest h = ground arith

four_digits :
    (n : ℕ) (rest : Text) → n < 10000 → take_digits 4 0 (pad_digits 4 n ++ rest) ≡ some (n, rest)
unfolding take_digits pad_digits
four_digits n rest h = ground arith

milliseconds :
    (n : ℕ)
    → n < 1000
    → take_fraction (b'.' ∷ (pad_digits 3 n ++ (b'Z' ∷ []))) ≡ some (n, b'Z' ∷ [])
unfolding take_fraction pad_digits
milliseconds n h = ground arith

expect_self : (c : ℕ) (s : Text) → expect c (c ∷ s) ≡ some s
unfolding expect
expect_self c s = ground arith

zone_utc : take_zone (b'Z' ∷ []) ≡ some utc
unfolding take_zone
zone_utc = refl

-- The fields of a stamp in UTC are in the ranges of their digits.
pub record IsPrintable (t : Stamp) : Type 0 where
  pub year_fits : t.year < 10000
  pub month_fits : t.month < 100
  pub day_fits : t.day < 100
  pub hour_fits : t.hour < 100
  pub minute_fits : t.minute < 100
  pub second_fits : t.second < 100
  pub millisecond_fits : t.millisecond < 1000
  pub in_utc : t.zone ≡ utc

match-to_iso_string : (t : Stamp) → IsPrintable t → match_rfc3339 (to_iso_string t) ≡ some t
unfolding match_rfc3339 to_iso_string
match-to_iso_string t h =
    simp
      (
        expect_self,
        zone_utc,
        four_digits t.year _ h.year_fits,
        two_digits t.month _ h.month_fits,
        two_digits t.day _ h.day_fits,
        two_digits t.hour _ h.hour_fits,
        two_digits t.minute _ h.minute_fits,
        two_digits t.second _ h.second_fits,
        milliseconds t.millisecond h.millisecond_fits,
      )
      (ground arith)

stamp_of_time-IsPrintable :
    (time : ℕ)
    → ltb (stamp_of_time time).year 1 ≡ false
    → ltb 9999 (stamp_of_time time).year ≡ false
    → IsPrintable (stamp_of_time time)
unfolding has_invalid_date
stamp_of_time-IsPrintable time low high =
    let t = stamp_of_time time in
    let valid = stamp_is_valid time low in
    let short = days_in_month-le t.year t.month in
    record {
      year_fits = ground arith;
      month_fits = ground arith;
      day_fits = ground arith;
      hour_fits = ground arith;
      minute_fits = ground arith;
      second_fits = ground arith;
      millisecond_fits = unfold stamp_of_time in omega arith;
      in_utc = unfold stamp_of_time in refl;
    }

check_year_stable :
    (time : ℕ) (p q : JsonPath) (text : Text)
    → check_year (stamp_of_time time) p ≡ ok text
    → check_stamp (match_rfc3339 text) q ≡ ok text
unfolding has_invalid_offset utc_time stamp_of_time to_iso_string
check_year_stable time p q text h =
    let low : ltb (stamp_of_time time).year 1 ≡ false = ground arith in
    let high : ltb 9999 (stamp_of_time time).year ≡ false = ground arith in
    let printed : to_iso_string (stamp_of_time time) ≡ text = ground arith in
    let reads = match-to_iso_string _ (stamp_of_time-IsPrintable time low high) in
    let valid = stamp_is_valid time low in
    let zone = (stamp_of_time-IsPrintable time low high).in_utc in
    rw (← printed, reads, valid, zone, stamp_adds_up time, low, high) refl

from_stamp :
    (found : Option Stamp) (p q : JsonPath) (t : Text)
    → check_stamp found p ≡ ok t
    → check_stamp (match_rfc3339 t) q ≡ ok t
from_stamp none p q t h = cc
from_stamp (some s) p q t h =
    check_year_stable (utc_time (local_time s) s.zone) p q t (ground arith)

-- If `normalizeTimestamp` returns the text `t`, then it normalizes `t` to `t`.
pub normalize_timestamp_stable :
    (v : Value) (p q : JsonPath) (t : Text)
    → normalize_timestamp v p ≡ ok t
    → normalize_timestamp (str t) q ≡ ok t
unfolding normalize_timestamp
normalize_timestamp_stable (str s) p q t h = from_stamp (match_rfc3339 s) p q t h
normalize_timestamp_stable _ p q t h = cc

-- The number `written` is the UTC time of the local time `given` in a zone: a zone that is ahead of UTC
-- has a later local time.
abbrev pub IsUtcOf : Zone → ℕ → ℕ → Type 0
IsUtcOf utc given written = given ≡ written
IsUtcOf (ahead hour minute) given written = given ≡ written + hour * 3600000 + minute * 60000
IsUtcOf (behind hour minute) given written = given + hour * 3600000 + minute * 60000 ≡ written

-- `t` is a timestamp in UTC of the instant that `s` gives.
pub record SameInstant (s t : Text) : Type 0 where
  pub given : Stamp
  pub written : Stamp
  pub reads_given : match_rfc3339 s ≡ some given
  pub reads_written : match_rfc3339 t ≡ some written
  pub in_utc : written.zone ≡ utc
  pub same_time : IsUtcOf given.zone (local_time given) (local_time written)

-- A local time of the year 1 or later is later than an offset from UTC is long.
later_than_offset : (a : Stamp) → has_invalid_date a ≡ false → 86400000 ≤ local_time a
unfolding has_invalid_date local_time
later_than_offset a h =
    let year : 1 ≤ a.year = ground arith in
    let days : 1 ≤ day_from_year a.year = unfold day_from_year in omega arith in omega arith

utc_time-IsUtcOf :
    (z : Zone) (time : ℕ)
    → 86400000 ≤ time
    → has_invalid_offset z ≡ false
    → IsUtcOf z time (utc_time time z)
unfolding has_invalid_offset utc_time
utc_time-IsUtcOf utc time late h = refl
utc_time-IsUtcOf (ahead hour minute) time late h =
    let hours : hour ≤ 23 = ground arith in let minutes : minute ≤ 59 = ground arith in omega arith
utc_time-IsUtcOf (behind hour minute) time late h = omega arith

check_stamp-SameInstant :
    (s : Text) (found : Option Stamp) (p : JsonPath) (t : Text)
    → match_rfc3339 s ≡ found
    → check_stamp found p ≡ ok t
    → SameInstant s t
unfolding to_iso_string
check_stamp-SameInstant s none p t e h = cc
check_stamp-SameInstant s (some a) p t e h =
    let time = utc_time (local_time a) a.zone in
    let dated : has_invalid_date a ≡ false = ground arith in
    let offset : has_invalid_offset a.zone ≡ false = ground arith in
    let low : ltb (stamp_of_time time).year 1 ≡ false = ground arith in
    let high : ltb 9999 (stamp_of_time time).year ≡ false = ground arith in
    let printed : to_iso_string (stamp_of_time time) ≡ t = ground arith in
    let fits = stamp_of_time-IsPrintable time low high in
    record {
      given = a;
      written = stamp_of_time time;
      reads_given = e;
      reads_written = rw⁻¹ printed (match-to_iso_string (stamp_of_time time) fits);
      in_utc = fits.in_utc;
      same_time =
          subst (IsUtcOf a.zone (local_time a)) (sym (stamp_adds_up time))
            (utc_time-IsUtcOf a.zone (local_time a) (later_than_offset a dated) offset);
    }

-- If `normalizeTimestamp` returns `t` for the text `s`, then both match the RFC 3339 pattern, `t` is
-- written in UTC, and its time is that of `s` less the hours and minutes that the offset of `s` is
-- ahead of UTC, or plus those that it is behind.
pub normalize_timestamp-SameInstant :
    (s : Text) (p : JsonPath) (t : Text) → normalize_timestamp (str s) p ≡ ok t → SameInstant s t
unfolding normalize_timestamp
normalize_timestamp-SameInstant s p t h = check_stamp-SameInstant s (match_rfc3339 s) p t refl h
