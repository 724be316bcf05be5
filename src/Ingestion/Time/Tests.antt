-- ===== src/Ingestion/Time/Tests.antt =====
-- Times resolved on Thursday 26 November 2026, at noon of a clock that keeps UTC. The patterns find
-- what a test sets.
use nd_mind.Base.{ℕ, ◌+◌, ◌*◌, true, false, none, some, ◌≡◌, ◌↔◌, ◌-◌, refl, arith}
use nd_mind.Core.Vocabulary.{TimePrecision}
use nd_mind.Ingestion.Result.{ok, raise, TimeError}
use nd_mind.Ingestion.Dates.{
  is_leap, month_length, days_before_year, days_before_month, date, plus_days, minus_days,
  find_year, year_of, find_month, month_of, day_of,
}
use nd_mind.Ingestion.Time.Spans.{
  Direction, Qualifier, Zone, TurnNow, day_us, today, at, plus_us, minus_us, Relative, Patterns,
}
use nd_mind.Ingestion.Time.Rules.{safe_date, next_date, weekday_rule}
use nd_mind.Ingestion.Time.Rules.Weekdays.{IsWeekday, weekday_rule-IsWeekday}
use nd_mind.Ingestion.Time.Rules.Nearest.{IsNearest, next_date-IsNearest}
use nd_mind.Ingestion.Time.Clocks.{ClockPatterns, make_time, bare_hour}
use nd_mind.Ingestion.Time.Resolve.{TimeClock, ResolvePatterns, hour_us}
use nd_mind.Ingestion.Time.Expressions.{reminder_time}
use nd_mind.Ingestion.Time.Expressions.Reminders.{Fires, reminder_time-Fires}
use nd_mind.Ingestion.Time.Windows.{
  WindowDirection, Window, CalendarText, contains, overlaps, clip, bounded,
}
use nd_mind.Ingestion.Time.Windows.Overlap.{IsDuring, overlaps-Met}
use nd_mind.Ingestion.Time.Ranges.{
  RangePatterns, SpanWord, UnitName, relative_span, range, plain_window, resolve_window, window_by,
}
use nd_mind.Ingestion.Time.Ranges.Sides.{IsWindowOf, resolve_window-IsWindowOf}

abbrev utc : Zone
utc = record { to_local = λ m. m; to_utc = λ m. some m; is_american = false }

abbrev thursday : ℕ
thursday = 739946

abbrev noon_of : ℕ → ℕ
noon_of d = (d - 1) * day_us + 12 * hour_us

abbrev now : TurnNow
now = record { instant = noon_of thursday; zone = utc }

-- No test moves by a month or a year.
abbrev no_months : Relative
no_months = record {
  add_months = λ d n. none;
  sub_months = λ d n. none;
  add_years = λ d n. none;
  sub_years = λ d n. none;
}

calendar : Unit {0}
unfolding is_leap month_length days_before_year days_before_month date plus_days minus_days
    find_year year_of find_month month_of day_of today at plus_us minus_us
calendar = tt

today_is :
    (today now ≡ thursday)
    × (year_of thursday ≡ 2026)
    × (month_of thursday ≡ 11)
    × (day_of thursday ≡ 26)
unfolding calendar
today_is = (refl, refl, refl, refl)

-- Next Friday, from a Thursday.
weekday_rule-IsWeekday_example :
    IsWeekday
      (some Qualifier.next)
      Direction.future
      (today now)
      4
      (weekday_rule (some (some Qualifier.next, some 4)) now Direction.future)
unfolding today
weekday_rule-IsWeekday_example =
    weekday_rule-IsWeekday now (some Qualifier.next) 4 Direction.future (omega arith) (omega arith)
      (omega arith)

-- The 29th of February is the 28th in 2027.
next_date-IsNearest_example : IsNearest Direction.future thursday 2 29 740040
unfolding calendar next_date safe_date
next_date-IsNearest_example =
    next_date-IsNearest thursday 2 29 740040 Direction.future (omega arith) (omega arith) refl

abbrev this_week : Window
this_week = record {
  expression = "this week";
  clock = TimeClock.occurred;
  span = bounded (noon_of 739943) (noon_of 739950) TimePrecision.day "this_week";
  anchor = none;
}

overlaps-Met_example :
    (overlaps this_week 5 (some (noon_of thursday)) ≡ true)
    ↔ ((t : ℕ) × IsDuring 5 (some (noon_of thursday)) t × (contains this_week t ≡ true))
overlaps-Met_example = overlaps-Met this_week 5 (some (noon_of thursday)) (omega arith)

overlapping : overlaps this_week 5 (some (noon_of thursday)) ≡ true
unfolding overlaps
overlapping = refl

abbrev no_spans : Patterns
no_spans = record {
  iso_date = λ s. none;
  numeric_date = λ s. none;
  units_ahead = λ s. none;
  units_back = λ s. none;
  weekday = λ s. none;
  period = λ s. none;
  edge = λ s. none;
  day_of_month = λ s. none;
  day_month = λ s. none;
  bare_number = λ s. none;
  month_name = λ s. none;
  four_digits = λ s. none;
}

abbrev no_clocks : ClockPatterns
no_clocks = record {
  tonight = λ s. none;
  last_night = λ s. none;
  day_part = λ s. none;
  hm_ampm = λ s. none;
  h_ampm = λ s. none;
  hm24 = λ s. none;
  h_bare = λ s. none;
  noon = λ s. none;
  midday = λ s. none;
  midnight = λ s. none;
}

-- A text in which no rule finds anything.
abbrev patterns : ResolvePatterns
patterns = record {
  spans = no_spans;
  clocks = no_clocks;
  norm = λ s. s;
  bare = λ s. s;
  has_leftover = λ s. true;
  weekday_and_rest = λ s. none;
  iso_datetime = λ s. none;
  in_units = λ s. none;
  units_ago = λ s. none;
}

abbrev ranges : RangePatterns
ranges = record {
  between = λ s. none;
  with_month = λ s t. s;
  bound = λ s. none;
  counted = λ s. some (SpanWord.last, some 7, UnitName.day);
  digits = λ n. "7";
  window_text = λ s. s;
}

abbrev last_week : Window
last_week = record {
  expression = "last 7 days";
  clock = TimeClock.occurred;
  span = bounded (noon_of 739939) (noon_of thursday) TimePrecision.day "last_7_days";
  anchor = none;
}

resolve_window-IsWindowOf_example :
    IsWindowOf WindowDirection.past now.instant
      (window_by no_months patterns
        (λ s. s)
        (λ s. CalendarText.other)
        ranges
        (λ s. none)
        "last 7 days"
        now
        WindowDirection.past
        none)
      last_week
    × (last_week.expression ≡ "last 7 days")
    × (last_week.clock ≡ TimeClock.occurred)
    × (last_week.anchor ≡ none)
unfolding calendar resolve_window plain_window range relative_span clip
resolve_window-IsWindowOf_example =
    resolve_window-IsWindowOf no_months patterns (λ s. s) (λ s. CalendarText.other) ranges
      (λ s. none) "last 7 days" TimeClock.occurred now WindowDirection.past none none last_week
      (omega arith) refl

-- A reminder a day and an hour before a day's event fires two days before it.
reminder_time-Fires_example :
    Fires
      (noon_of thursday)
      TimePrecision.day
      (day_us + hour_us)
      ((739944 - 1) * day_us + 9 * hour_us)
      utc
unfolding calendar reminder_time
reminder_time-Fires_example =
    reminder_time-Fires (noon_of thursday) (day_us + hour_us) ((739944 - 1) * day_us + 9 * hour_us)
      TimePrecision.day utc refl

-- "at 7" is taken for the morning, and 75 minutes are refused.
bare :
    bare_hour 7 "" none
    ≡ ok (record {
      text = "";
      time =
          some (record { value = 7 * hour_us; assumed = true; alternative = some (19 * hour_us) });
      part = none;
    })
unfolding bare_hour make_time
bare = refl

no_minute : make_time 19 75 ≡ raise TimeError.value_error
unfolding make_time
no_minute = refl
