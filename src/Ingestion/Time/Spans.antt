-- ===== src/Ingestion/Time/Spans.antt =====
-- ingestion/time.py: what its rules read and return. A pattern of `re` is a function of the text into
-- its groups; a named weekday or month is its number, a number its value. A moment, of UTC or of a
-- local clock, is a number of microseconds.
use nd_mind.Base.{
  ℕ, suc, ◌+◌, ◌-◌, ◌*◌, ◌/◌, String, Bool, true, false, Option, none, some, ltb, leb,
  if◌then◌else◌,
}
use nd_mind.Core.Vocabulary.{TimePrecision}
use nd_mind.Ingestion.Result.{Result, ok, raise, TimeError, or_raise, ◌>>=◌}
use nd_mind.Ingestion.Dates.{last_ordinal, plus_days, minus_days}

pub data Direction : Type 0 where
  future past auto : Direction

pub data Qualifier : Type 0 where
  this next last coming past : Qualifier

pub data Which : Type 0 where
  this next last : Which

pub data MonthQualifier : Type 0 where
  this next last coming early mid late : MonthQualifier

pub data Period : Type 0 where
  week weekend month year : Period

pub data Edge : Type 0 where
  end start : Edge

pub data EdgeUnit : Type 0 where
  week month year : EdgeUnit

pub data SpanUnit : Type 0 where
  day week fortnight month year : SpanUnit

-- The other reading that an assumption names, without its wording.
pub data Alternative : Type 0 where
  this_day : Alternative
  -- a date by its weekday, day and month
  on_date : ℕ → ℕ → Alternative
  friday : ℕ → Alternative
  other_way_round : ℕ → ℕ → Alternative
  month_has : ℕ → ℕ → Alternative
  day_of_later : ℕ → ℕ → ℕ → ℕ → Alternative
  month_of_year : ℕ → ℕ → Alternative
  -- a time of day, instead of another
  instead_of : ℕ → ℕ → Alternative

-- `_Day`
pub record SpanDay : Type 0 where
  pub start : ℕ
  pub days : ℕ
  pub precision : TimePrecision
  pub rule : String
  pub assumed : Bool
  pub alternative : Option Alternative

abbrev pub one_day : ℕ → String → SpanDay
one_day d name = record {
  start = d;
  days = 1;
  precision = TimePrecision.day;
  rule = name;
  assumed = false;
  alternative = none;
}

abbrev pub assumed_day : ℕ → String → Alternative → SpanDay
assumed_day d name other = record (one_day d name) { assumed = true; alternative = some other }

-- A time zone: a moment of UTC on its clock, a moment of its clock as UTC (none where no datetime
-- holds it), and whether its name begins with "America/".
pub record Zone : Type 0 where
  pub to_local : ℕ → ℕ
  pub to_utc : ℕ → Option ℕ
  pub is_american : Bool

-- `TurnNow`
pub record TurnNow : Type 0 where
  pub instant : ℕ
  pub zone : Zone

abbrev pub day_us : ℕ
day_us = 86400000000

abbrev pub minute_us : ℕ
minute_us = 60000000

-- `now.today`
unfoldable pub today : TurnNow → ℕ
today now = suc (now.zone.to_local now.instant / day_us)

-- `_at`, of a date and a time of day
unfoldable pub at : ℕ → ℕ → Zone → Result ℕ
at d time zone = or_raise TimeError.overflow (zone.to_utc ((d - 1) * day_us + time))

-- `moment + delta` and `moment - delta`
unfoldable pub plus_us : ℕ → ℕ → Result ℕ
plus_us m n = if ltb (m + n) (last_ordinal * day_us) then ok (m + n) else raise TimeError.overflow

unfoldable pub minus_us : ℕ → ℕ → Result ℕ
minus_us m n = if leb n m then ok (m - n) else raise TimeError.overflow

-- What the rules use of dateutil's relativedelta: a date some months or years on or back; none is
-- its ValueError.
pub record Relative : Type 0 where
  pub add_months : ℕ → ℕ → Option ℕ
  pub sub_months : ℕ → ℕ → Option ℕ
  pub add_years : ℕ → ℕ → Option ℕ
  pub sub_years : ℕ → ℕ → Option ℕ

pub record Patterns : Type 0 where
  pub iso_date : String → Option (ℕ × ℕ × ℕ)
  -- the optional year comes with the number of its digits
  pub numeric_date : String → Option (ℕ × ℕ × Option (ℕ × ℕ))
  pub units_ahead : String → Option (ℕ × SpanUnit)
  pub units_back : String → Option (ℕ × SpanUnit)
  pub weekday : String → Option (Option Qualifier × Option ℕ)
  pub period : String → Option (Qualifier × Period)
  pub edge : String → Option (Edge × Option Which × EdgeUnit)
  pub day_of_month : String → Option (ℕ × Which)
  pub day_month : String → Option (ℕ × Option ℕ × Option ℕ)
  pub bare_number : String → Option ℕ
  pub month_name : String → Option (Option MonthQualifier × Option ℕ × Option ℕ)
  pub four_digits : String → Option ℕ

-- A number of days, weeks, months or years on or back.
pub data Shift : Type 0 where
  ahead back : ℕ → Shift

abbrev pub times : ℕ → Shift → Shift
times k (Shift.ahead n) = Shift.ahead (k * n)
times k (Shift.back n) = Shift.back (k * n)

-- `d + timedelta(days=n)` of a signed n
abbrev pub shift_days : ℕ → Shift → Result ℕ
shift_days d (Shift.ahead n) = plus_days d n
shift_days d (Shift.back n) = minus_days d n

abbrev pub shift_months : Relative → ℕ → Shift → Result ℕ
shift_months r d (Shift.ahead n) = or_raise TimeError.value_error (r.add_months d n)
shift_months r d (Shift.back n) = or_raise TimeError.value_error (r.sub_months d n)

abbrev pub shift_years : Relative → ℕ → Shift → Result ℕ
shift_years r d (Shift.ahead n) = or_raise TimeError.value_error (r.add_years d n)
shift_years r d (Shift.back n) = or_raise TimeError.value_error (r.sub_years d n)

-- `year + step`
abbrev pub shift_number : ℕ → Shift → ℕ
shift_number y (Shift.ahead n) = y + n
shift_number y (Shift.back n) = y - n

abbrev pub found : SpanDay → Result (Option SpanDay)
found d = ok (some d)

abbrev pub no_match : Result (Option SpanDay)
no_match = ok none

-- A rule's result at a date that may raise.
abbrev pub found_at : Result ℕ → (ℕ → SpanDay) → Result (Option SpanDay)
found_at r f = r >>= λ d. found (f d)
