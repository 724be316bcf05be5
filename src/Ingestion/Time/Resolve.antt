-- ===== src/Ingestion/Time/Resolve.antt =====
-- ingestion/time.py: `resolve`. The reading of a routine (`_routine`) is an argument.
use Prim.Native.String.{◌++◌ as join}
use nd_mind.Base.{
  ℕ, suc, ◌+◌, ◌-◌, ◌*◌, ◌%◌, String, Bool, true, false, ◌&&◌, ◌||◌, Option, none, some, leb, ◌==◌,
  if◌then◌else◌,
}
use nd_mind.Core.Vocabulary.{TimePrecision}
use nd_mind.Ingestion.Result.{Result, ok, ◌>>=◌}
use nd_mind.Ingestion.Dates.{year_of, weekday, plus_days, minus_days, make_date}
use nd_mind.Ingestion.Time.Spans.{
  Direction, Alternative, SpanDay, Zone, TurnNow, minute_us, at, plus_us, minus_us, Relative,
  Patterns, Shift, shift_months,
}
use nd_mind.Ingestion.Time.Months.{span}
use nd_mind.Ingestion.Time.Clocks.{Part, ClockTime, ClockPatterns, make_time}

-- `TimeClock`
pub data TimeClock : Type 0 where
  occurred valid due trigger mentioned : TimeClock

pub data Bound : Type 0 where
  since until by : Bound

-- The rules that `_yearly` writes, and another.
pub data RoutineRule : Type 0 where
  yearly_month : ℕ → RoutineRule
  yearly_day : ℕ → ℕ → RoutineRule
  written : String → RoutineRule

pub record Resolved : Type 0 where
  pub expression : String
  pub clock : TimeClock
  pub start : ℕ
  pub end : Option ℕ
  pub precision : TimePrecision
  pub rule : String
  pub rrule : Option RoutineRule
  pub assumed : Bool
  pub alternative : Option Alternative
  pub part_of_day : Option Part
  pub bound : Option Bound

-- A number of minutes, or of hours.
pub data ClockUnit : Type 0 where
  minutes hours : ClockUnit

pub record ResolvePatterns : Type 0 where
  pub spans : Patterns
  pub clocks : ClockPatterns
  pub norm : String → String
  -- the text without a leading "on", "at" and such
  pub bare : String → String
  -- whether anything but small words is left
  pub has_leftover : String → Bool
  -- a weekday and the text behind it
  pub weekday_and_rest : String → Option (Option ℕ × String)
  pub iso_datetime : String → Option (ℕ × ℕ × ℕ × ℕ × ℕ)
  pub in_units : String → Option (ℕ × ClockUnit)
  pub units_ago : String → Option (ℕ × ClockUnit)

-- The first hour of a part of the day, and the hour behind its last.
abbrev part_hours : Part → ℕ × ℕ
part_hours Part.morning = (8, 12)
part_hours Part.afternoon = (14, 17)
part_hours Part.evening = (18, 21)
part_hours Part.night = (21, 24)

abbrev pub hour_us : ℕ
hour_us = 3600000000

abbrev is_day : TimePrecision → Bool
is_day TimePrecision.day = true
is_day _ = false

-- A span of one day, to which a time applies.
abbrev pub is_one_day : SpanDay → Bool
is_one_day d = is_day d.precision && d.days == 1

abbrev resolved : ℕ → Option ℕ → TimePrecision → String → Resolved
resolved s e precision name = record {
  expression = "";
  clock = TimeClock.occurred;
  start = s;
  end = e;
  precision = precision;
  rule = name;
  rrule = none;
  assumed = false;
  alternative = none;
  part_of_day = none;
  bound = none;
}

-- What a span's end is by its precision, with the span's own one given.
abbrev end_of : Relative → SpanDay → Zone → ℕ → TimePrecision → Result ℕ
end_of r d zone e TimePrecision.month =
    shift_months r d.start (Shift.ahead 1) >>= λ next. at next 0 zone
end_of r d zone e TimePrecision.year =
    make_date (suc (year_of d.start)) 1 1 >>= λ next. at next 0 zone
end_of r d zone e _ = ok e

abbrev clock_alternative : ClockTime → Option Alternative → Option Alternative
clock_alternative ct other = elim ct.alternative [
  | none ↦ other
  | some t ↦ if ct.assumed then some (Alternative.instead_of t ct.value) else other
]

abbrev at_time : SpanDay → ClockTime → Option Part → Zone → Result Resolved
at_time d ct part zone = at d.start ct.value zone >>= λ s.
    ok (record (resolved s none TimePrecision.datetime (join d.rule "+time")) {
      assumed = d.assumed || ct.assumed;
      alternative = clock_alternative ct d.alternative;
      part_of_day = part;
    })

abbrev at_part : SpanDay → Part → Zone → Result Resolved
at_part d part zone = at d.start ((part_hours part).0 * hour_us) zone >>= λ s.
    at d.start 0 zone >>= λ midnight. plus_us midnight ((part_hours part).1 * hour_us) >>= λ e.
    ok (record (resolved s (some e) TimePrecision.datetime (join d.rule "+part_of_day")) {
      assumed = d.assumed;
      alternative = d.alternative;
      part_of_day = some part;
    })

abbrev whole_span : Relative → SpanDay → Option Part → Zone → Result Resolved
whole_span r d part zone = at d.start 0 zone >>= λ s. plus_days d.start d.days >>= λ next.
    at next 0 zone >>= λ e. end_of r d zone e d.precision >>= λ e'.
    ok (record (resolved s (if is_one_day d then none else some e') d.precision d.rule) {
      assumed = d.assumed;
      alternative = d.alternative;
      part_of_day = part;
    })

abbrev part_or_whole : Relative → SpanDay → Option Part → Zone → Result Resolved
part_or_whole r d none zone = whole_span r d none zone
part_or_whole r d (some part) zone =
    if is_one_day d then at_part d part zone else whole_span r d (some part) zone

-- `_apply_time`
unfoldable pub apply_time :
    Relative → SpanDay → Option ClockTime → Option Part → TurnNow → Result Resolved
apply_time r d none part now = part_or_whole r d part now.zone
apply_time r d (some ct) part now =
    if is_one_day d then at_time d ct part now.zone else part_or_whole r d part now.zone

-- `_exact_instant`
abbrev unit_us : ClockUnit → ℕ
unit_us ClockUnit.minutes = minute_us
unit_us ClockUnit.hours = hour_us

abbrev instant_of : String → Result ℕ → Result (Option Resolved)
instant_of name r = r >>= λ s. ok (some (resolved s none TimePrecision.datetime name))

abbrev ago_or : Option (ℕ × ClockUnit) → TurnNow → Result (Option Resolved)
ago_or none now = ok none
ago_or (some (n, unit)) now = instant_of "n_units_ago" (minus_us now.instant (n * unit_us unit))

abbrev in_or :
    ResolvePatterns → Option (ℕ × ClockUnit) → String → TurnNow → Result (Option Resolved)
in_or p none text now = ago_or (p.units_ago text) now
in_or p (some (n, unit)) text now = instant_of "in_n_units" (plus_us now.instant (n * unit_us unit))

abbrev iso_or :
    ResolvePatterns → Option (ℕ × ℕ × ℕ × ℕ × ℕ) → String → TurnNow → Result (Option Resolved)
iso_or p none text now = in_or p (p.in_units text) text now
iso_or p (some (y, m, d, hour, minute)) text now =
    instant_of "iso_datetime"
      (make_date y m d >>= λ e. make_time hour minute >>= λ t. at e t now.zone)

unfoldable pub exact_instant : ResolvePatterns → String → TurnNow → Result (Option Resolved)
exact_instant p text now = iso_or p (p.iso_datetime text) text now

-- `(wd - d.weekday() + 3) % 7 - 3`, added to the date
abbrev pub nearest : ℕ → ℕ → Result ℕ
nearest d wd =
    let n = (wd + 10 - weekday d) % 7 in
    if leb 3 n then plus_days d (n - 3) else minus_days d (3 - n)

abbrev with_weekday : ℕ → SpanDay → Result (Option SpanDay)
with_weekday wd d =
    if weekday d.start == wd
    then ok (some (record d { rule = join d.rule "+weekday" }))
    else (nearest d.start wd >>= λ other. ok (
        some (record d {
          rule = join d.rule "+weekday_mismatch";
          assumed = true;
          alternative = some (Alternative.on_date wd other);
        })))

abbrev check_weekday : Option ℕ → Option SpanDay → Result (Option SpanDay)
check_weekday wd none = ok none
check_weekday none (some d) = ok (some d)
check_weekday (some wd) (some d) = if is_day d.precision then with_weekday wd d else ok (some d)

-- `_weekday_and_date`
unfoldable pub weekday_and_date :
    Relative → Patterns → Option (Option ℕ × String) → TurnNow → Direction → Result (Option SpanDay)
weekday_and_date r p none now direction = ok none
weekday_and_date r p (some (wd, rest)) now direction =
    span r p rest now direction >>= λ d. check_weekday wd d
