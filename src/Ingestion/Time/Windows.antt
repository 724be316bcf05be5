-- ===== src/Ingestion/Time/Windows.antt =====
-- ingestion/time.py: the windows of a recall, `resolve_window` and what it calls.
use Prim.Native.String.{◌++◌ as join}
pub mod Overlap
use nd_mind.Base.{
  ℕ, suc, ◌+◌, ◌-◌, ◌*◌, ◌/◌, ◌%◌, min, String, Bool, true, false, ◌&&◌, ◌||◌, Option, none, some,
  List, [], ◌∷◌, ltb, leb, ◌==◌, if◌then◌else◌,
}
use text.Mathlib.Text.{starts_with}
use nd_mind.Core.Vocabulary.{TimePrecision}
use nd_mind.Ingestion.Result.{Result, ok, raise, TimeError, ◌>>=◌}
use nd_mind.Ingestion.Dates.{year_of, weekday, plus_days, minus_days, make_date}
use nd_mind.Ingestion.Time.Spans.{
  Direction, SpanDay, Zone, TurnNow, day_us, today, at, plus_us, minus_us, Relative, Shift,
  shift_days, shift_months,
}
use nd_mind.Ingestion.Time.Months.{span}
use nd_mind.Ingestion.Time.Clocks.{Part}
use nd_mind.Ingestion.Time.Resolve.{ResolvePatterns, TimeClock, hour_us, weekday_and_date}
use nd_mind.Ingestion.Time.Expressions.{or_weekday}

pub data WindowDirection : Type 0 where
  past future any : WindowDirection

-- `_Span`: `[start, end)`, none for unbounded.
pub record Span : Type 0 where
  pub start : Option ℕ
  pub end : Option ℕ
  pub precision : TimePrecision
  pub rule : String

-- A `Window` holds its span; what it would assume is never set.
pub record Window : Type 0 where
  pub expression : String
  pub clock : TimeClock
  pub span : Span
  pub anchor : Option String

abbrev pub from_start : Option ℕ → ℕ → Bool
from_start none t = true
from_start (some s) t = leb s t

abbrev pub before_end : Option ℕ → ℕ → Bool
before_end none t = true
before_end (some e) t = ltb t e

-- `Window.contains`
unfoldable pub contains : Window → ℕ → Bool
contains w t = from_start w.span.start t && before_end w.span.end t

abbrev behind_start : Option ℕ → ℕ → Bool
behind_start none e = true
behind_start (some s) e = ltb s e

abbrev span_overlaps : Window → ℕ → ℕ → Bool
span_overlaps w s e = before_end w.span.end s && behind_start w.span.start e

-- `Window.overlaps`
unfoldable pub overlaps : Window → ℕ → Option ℕ → Bool
unfolding contains
overlaps w s none = contains w s
overlaps w s (some e) = if leb e s then contains w s else span_overlaps w s e

abbrev starts_before : Option ℕ → ℕ → Bool
starts_before none now = true
starts_before (some s) now = ltb s now

abbrev ends_after : Option ℕ → ℕ → Bool
ends_after none now = true
ends_after (some e) now = ltb now e

abbrev pub straddles : Option ℕ → Option ℕ → ℕ → Bool
straddles s e now = starts_before s now && ends_after e now

-- `_clip`
unfoldable pub clip : Option ℕ → Option ℕ → ℕ → WindowDirection → Option ℕ × Option ℕ
clip s e now WindowDirection.past = if straddles s e now then (s, some now) else (s, e)
clip s e now WindowDirection.future = if straddles s e now then (some now, e) else (s, e)
clip s e now WindowDirection.any = (s, e)

abbrev pub bounded : ℕ → ℕ → TimePrecision → String → Span
bounded s e precision name = record {
  start = some s;
  end = some e;
  precision = precision;
  rule = name;
}

-- `_day_span`
abbrev next_of : Relative → SpanDay → TimePrecision → Result ℕ
next_of r d TimePrecision.month = shift_months r d.start (Shift.ahead 1)
next_of r d TimePrecision.year = make_date (suc (year_of d.start)) 1 1
next_of r d _ = plus_days d.start d.days

unfoldable pub day_span : Relative → SpanDay → Zone → Result (ℕ × ℕ)
day_span r d zone =
    at d.start 0 zone >>= λ s. next_of r d d.precision >>= λ next. at next 0 zone >>= λ e. ok (s, e)

-- `_calendar_day`; its list of small words differs from that of `resolve`.
unfoldable pub calendar_day :
    Relative
    → ResolvePatterns
    → (String → String)
    → String
    → TurnNow
    → Direction
    → Result (Option SpanDay)
calendar_day r p bare text now direction = span r p.spans text now direction >>= λ first.
    elim first [
      | some d ↦ ok (some d)
      | none ↦ span r p.spans (bare text) now direction >>= λ d.
          or_weekday r p (bare text) now direction d
    ]

-- The distance of two moments.
abbrev apart : ℕ → ℕ → ℕ
apart a b = (a - b) + (b - a)

-- `_distance`
unfoldable pub distance : ℕ × ℕ → TurnNow → ℕ
distance (s, e) now =
    if leb s now.instant && ltb now.instant e
    then 0
    else min (apart s now.instant) (apart e now.instant)

-- The day of a part of the day counted from today.
pub data PartDay : Type 0 where
  this yesterday tomorrow : PartDay

abbrev part_shift : PartDay → Shift
part_shift PartDay.this = Shift.ahead 0
part_shift PartDay.yesterday = Shift.back 1
part_shift PartDay.tomorrow = Shift.ahead 1

-- _WINDOW_PARTS
abbrev window_hours : Part → ℕ × ℕ
window_hours Part.morning = (5, 12)
window_hours Part.afternoon = (12, 17)
window_hours Part.evening = (17, 21)
window_hours Part.night = (21, 29)

abbrev part_rule : Part → String
part_rule Part.morning = "part_of_day_morning"
part_rule Part.afternoon = "part_of_day_afternoon"
part_rule Part.evening = "part_of_day_evening"
part_rule Part.night = "part_of_day_night"

-- `_part_of_day`
unfoldable pub part_of_day : PartDay → Part → TurnNow → Result Span
part_of_day day part now = shift_days (today now) (part_shift day) >>= λ d.
    at d 0 now.zone >>= λ midnight. plus_us midnight ((window_hours part).0 * hour_us) >>= λ s.
    plus_us midnight ((window_hours part).1 * hour_us) >>= λ e.
    ok (bounded s e TimePrecision.datetime (part_rule part))

-- What the patterns of `_calendar` find in a text.
pub data CalendarText : Type 0 where
  open_ended upcoming recent other : CalendarText
  part : PartDay → Part → CalendarText

-- _LOOKUP
abbrev lookup : WindowDirection → Direction
lookup WindowDirection.past = Direction.past
lookup WindowDirection.future = Direction.future
lookup WindowDirection.any = Direction.auto

-- A date that names no year, with no direction given.
abbrev is_nearest : WindowDirection → String → Bool
is_nearest WindowDirection.any name =
    starts_with name "day_month_" || starts_with name "month_name_"
is_nearest _ name = false

abbrev span_of : SpanDay → ℕ × ℕ → Span
span_of d (s, e) = bounded s e d.precision d.rule

abbrev nearer : Relative → TurnNow → SpanDay → SpanDay → Result Span
nearer r now before later = day_span r before now.zone >>= λ b. day_span r later now.zone >>= λ l.
    ok (if leb (distance b now) (distance l now) then span_of before b else span_of later l)

abbrev both_or : Relative → TurnNow → SpanDay → Option SpanDay → Option SpanDay → Result Span
both_or r now d (some before) (some later) = nearer r now before later
both_or r now d _ _ = day_span r d now.zone >>= λ s. ok (span_of d s)

abbrev pub month_us : ℕ
month_us = 30 * day_us

module _ (r : Relative) (p : ResolvePatterns) (bare : String → String)
    (kind_of : String → CalendarText) where
  abbrev calendar_window :
      String → TurnNow → WindowDirection → Option SpanDay → Result (Option Span)
  calendar_window text now direction none = ok none
  calendar_window text now direction (some d) =
      if is_nearest direction d.rule
      then (calendar_day r p bare text now Direction.past >>= λ past.
          calendar_day r p bare text now Direction.future >>= λ future.
          both_or r now d past future >>= λ w. ok (some w))
      else (day_span r d now.zone >>= λ s. ok (some (span_of d s)))

  abbrev calendar_by : String → TurnNow → WindowDirection → CalendarText → Result (Option Span)
  calendar_by text now direction CalendarText.open_ended =
      ok (some (record { start = none; end = none; precision = TimePrecision.year; rule = "open" }))
  calendar_by text now direction CalendarText.upcoming = plus_us now.instant month_us >>= λ e.
      ok (some (bounded now.instant e TimePrecision.day "upcoming_30_days"))
  calendar_by text now direction CalendarText.recent = minus_us now.instant month_us >>= λ s.
      ok (some (bounded s now.instant TimePrecision.day "recent_30_days"))
  calendar_by text now direction (CalendarText.part day q) =
      part_of_day day q now >>= λ w. ok (some w)
  calendar_by text now direction CalendarText.other =
      calendar_day r p bare text now (lookup direction) >>= λ d.
      calendar_window text now direction d

  -- `_calendar`
  unfoldable pub calendar : String → TurnNow → WindowDirection → Result (Option Span)
  calendar text now direction = calendar_by text now direction (kind_of text)
