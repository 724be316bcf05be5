-- ===== src/Ingestion/Dates.antt =====
-- What ingestion/time.py uses of datetime and calendar. A date is its ordinal, 1 for the first day of
-- year 1; its year, month and day are found from that.
pub mod Civil
use nd_mind.Base.{
  ℕ, zero, suc, ◌+◌, ◌-◌, ◌*◌, ◌/◌, ◌%◌, Bool, not, ◌&&◌, ◌||◌, Option, none, some, ltb, leb, ◌==◌,
  if◌then◌else◌,
}
use nd_mind.Ingestion.Result.{Result, ok, raise, TimeError, or_raise}

unfoldable pub is_leap : ℕ → Bool
is_leap y = y % 4 == 0 && (not (y % 100 == 0) || y % 400 == 0)

-- `monthrange(y, m)[1]` of a month from 1 to 12
unfoldable pub month_length : ℕ → ℕ → ℕ
month_length y m =
    if m == 2
    then (if is_leap y then 29 else 28)
    else (if m == 4 || m == 6 || m == 9 || m == 11 then 30 else 31)

unfoldable pub days_before_year : ℕ → ℕ
days_before_year y = let p = y - 1 in p * 365 + p / 4 - p / 100 + p / 400

-- The days of a year before its month m.
unfoldable pub days_before_month : ℕ → ℕ → ℕ
days_before_month y zero = 0
days_before_month y (suc zero) = 0
days_before_month y (suc (suc m)) = days_before_month y (suc m) + month_length y (suc m)

abbrev pub last_ordinal : ℕ
last_ordinal = 3652059

abbrev pub within : ℕ → ℕ → ℕ → Bool
within low high n = leb low n && leb n high

-- `date(y, m, d)`; none is its ValueError.
unfoldable pub date : ℕ → ℕ → ℕ → Option ℕ
date y m d =
    if within 1 9999 y && within 1 12 m && within 1 (month_length y m) d
    then some (days_before_year y + days_before_month y m + d)
    else none

-- `d + timedelta(days=n)` and `d - timedelta(days=n)`
unfoldable pub plus_days : ℕ → ℕ → Result ℕ
plus_days d n = if leb (d + n) last_ordinal then ok (d + n) else raise TimeError.overflow

unfoldable pub minus_days : ℕ → ℕ → Result ℕ
minus_days d n = if ltb n d then ok (d - n) else raise TimeError.overflow

-- The year that a date lies in, from a year not behind it on.
unfoldable pub find_year : ℕ → ℕ → ℕ → ℕ
find_year zero y n = y
find_year (suc fuel) y n =
    let later = find_year fuel (suc y) n in if leb n (days_before_year (suc y)) then y else later

-- `d.year`; no year is longer than 366 days.
unfoldable pub year_of : ℕ → ℕ
year_of n = find_year 32 (suc ((n - 1) / 366)) n

unfoldable pub find_month : ℕ → ℕ → ℕ → ℕ → ℕ
find_month zero y m r = m
find_month (suc fuel) y m r =
    let later = find_month fuel y (suc m) r in
    if leb r (days_before_month y (suc m)) then m else later

-- `d.month`
unfoldable pub month_of : ℕ → ℕ
month_of n = find_month 11 (year_of n) 1 (n - days_before_year (year_of n))

-- `d.day`
unfoldable pub day_of : ℕ → ℕ
day_of n = n - days_before_year (year_of n) - days_before_month (year_of n) (month_of n)

-- `d.weekday()`, 0 for Monday
abbrev pub weekday : ℕ → ℕ
weekday n = (n + 6) % 7

-- `d - timedelta(days=d.weekday())`, as `_week_start`
abbrev pub week_start : ℕ → Result ℕ
week_start d = minus_days d (weekday d)

-- `monthrange(y, m)[1]`, which raises for another month.
abbrev pub monthrange : ℕ → ℕ → Result ℕ
monthrange y m = if within 1 12 m then ok (month_length y m) else raise TimeError.value_error

-- `date(y, m, d)`, as the rules call it.
abbrev pub make_date : ℕ → ℕ → ℕ → Result ℕ
make_date y m d = or_raise TimeError.value_error (date y m d)
