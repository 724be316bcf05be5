-- ===== src/Ingestion/Time/Ranges.antt =====
-- ingestion/time.py: windows by their bounds or counted from now, and `resolve_window`.
-- A number in a rule's name is left out of it.
use Prim.Native.String.{◌++◌ as join}
pub mod Sides
use nd_mind.Base.{
  ℕ, suc, ◌+◌, ◌-◌, ◌*◌, ◌/◌, ◌%◌, String, Bool, true, false, ◌&&◌, Option, none, some, ltb, leb,
  ◌==◌, if◌then◌else◌, get_or,
}
use nd_mind.Core.Vocabulary.{TimePrecision}
use nd_mind.Ingestion.Result.{Result, ok, raise, TimeError, ◌>>=◌}
use nd_mind.Ingestion.Dates.{weekday, plus_days, minus_days}
use nd_mind.Ingestion.Time.Spans.{Zone, TurnNow, day_us, at, plus_us, minus_us, Relative}
use nd_mind.Ingestion.Time.Resolve.{ResolvePatterns, TimeClock}
use nd_mind.Ingestion.Time.Anchors.{AnchorText, anchored}
use nd_mind.Ingestion.Time.Windows.{
  WindowDirection, Window, Span, clip, bounded, CalendarText, calendar,
}

pub data SpanWord : Type 0 where
  last past previous next coming following : SpanWord

pub data UnitName : Type 0 where
  day week fortnight month year : UnitName

-- _SPAN_UNITS
abbrev unit_days : UnitName → ℕ
unit_days UnitName.day = 1
unit_days UnitName.week = 7
unit_days UnitName.fortnight = 14
unit_days UnitName.month = 30
unit_days UnitName.year = 365

abbrev unit_name : UnitName → String
unit_name UnitName.day = "day"
unit_name UnitName.week = "week"
unit_name UnitName.fortnight = "fortnight"
unit_name UnitName.month = "month"
unit_name UnitName.year = "year"

-- "last week" and "next month" are the calendar's; `none` here.
abbrev counted : SpanWord → Option ℕ → Option ℕ
counted SpanWord.last none = none
counted SpanWord.next none = none
counted SpanWord.coming none = none
counted w none = some 1
counted w (some n) = some n

abbrev looks_ahead : SpanWord → Bool
looks_ahead SpanWord.next = true
looks_ahead SpanWord.coming = true
looks_ahead SpanWord.following = true
looks_ahead _ = false

abbrev pub span_ahead : TurnNow → ℕ → String → Result (Option Span)
span_ahead now delta name =
    plus_us now.instant delta >>= λ e. ok (some (bounded now.instant e TimePrecision.day name))

abbrev pub span_behind : TurnNow → ℕ → String → Result (Option Span)
span_behind now delta name =
    minus_us now.instant delta >>= λ s. ok (some (bounded s now.instant TimePrecision.day name))

abbrev count_name : (ℕ → String) → ℕ → UnitName → String
count_name digits n unit = join (digits n) (join "_" (join (unit_name unit) "s"))

abbrev count_span : (ℕ → String) → SpanWord → Option ℕ → UnitName → TurnNow → Result (Option Span)
count_span digits w none unit now = ok none
count_span digits w (some n) unit now =
    let delta = n * unit_days unit * day_us in
    if looks_ahead w
    then span_ahead now delta (join "next_" (count_name digits n unit))
    else span_behind now delta (join "last_" (count_name digits n unit))

-- `_relative_span`
unfoldable pub relative_span :
    (ℕ → String) → Option (SpanWord × Option ℕ × UnitName) → TurnNow → Result (Option Span)
relative_span digits none now = ok none
relative_span digits (some (w, n, unit)) now = count_span digits w (counted w n) unit now

pub data RangeWord : Type 0 where
  since before after until : RangeWord

pub record RangePatterns : Type 0 where
  pub between : String → Option (String × String)
  -- the left text of a range whose month is written once, on the right, or the text itself
  pub with_month : String → String → String
  pub bound : String → Option (RangeWord × String)
  pub counted : String → Option (SpanWord × Option ℕ × UnitName)
  pub window_text : String → String
  -- the decimal digits of a number
  pub digits : ℕ → String

-- `_PRECISION_ORDER.index`
abbrev precision_index : TimePrecision → ℕ
precision_index TimePrecision.datetime = 0
precision_index TimePrecision.day = 1
precision_index TimePrecision.month = 2
precision_index TimePrecision.year = 3

abbrev finer : TimePrecision → TimePrecision → TimePrecision
finer p q = if leb (precision_index p) (precision_index q) then p else q

abbrev between_spans : Option Span → Option Span → Option Span
between_spans none b = none
between_spans (some a) none = none
between_spans (some a) (some b) = elim a.start [
  | none ↦ none
  | some s ↦ some (record {
    start = some s;
    end = b.end;
    precision = finer a.precision b.precision;
    rule = "between";
  })
]

abbrev pub is_before : Option ℕ → ℕ → Bool
is_before none now = true
is_before (some s) now = ltb s now

abbrev is_future : WindowDirection → Bool
is_future WindowDirection.future = true
is_future _ = false

-- The window of a bound, from the span that it names.
unfoldable pub bound_span : RangeWord → TurnNow → WindowDirection → Span → Span
bound_span RangeWord.since now direction s = record s {
  end = if is_before s.start now.instant then some now.instant else none;
  rule = join "since_" s.rule;
}
bound_span RangeWord.before now direction s = record s {
  start = none;
  end = s.start;
  rule = join "before_" s.rule;
}
bound_span RangeWord.after now direction s = record s {
  start = s.end;
  end = none;
  rule = join "after_" s.rule;
}
bound_span RangeWord.until now direction s = record s {
  start = if is_future direction then some now.instant else none;
  rule = join "until_" s.rule;
}

abbrev else_try : Result (Option Span) → Result (Option Span) → Result (Option Span)
else_try (raise e) later = raise e
else_try (ok none) later = later
else_try (ok (some w)) later = ok (some w)

abbrev pub clipped : Span → ℕ → WindowDirection → Span
clipped s now direction =
    let (start, end) = clip s.start s.end now direction in record s { start = start; end = end }

abbrev pub window_or : Option Span → Result Span
window_or none = raise TimeError.unresolvable
window_or (some s) = ok s

module _ (r : Relative) (p : ResolvePatterns) (bare : String → String)
    (kind_of : String → CalendarText) (q : RangePatterns) where
  abbrev bound_or : Option (RangeWord × String) → TurnNow → WindowDirection → Result (Option Span)
  bound_or none now direction = ok none
  bound_or (some (w, rest)) now direction = calendar r p bare kind_of rest now direction >>= λ s.
      elim s [ none ↦ ok none | some found ↦ ok (some (bound_span w now direction found)) ]

  abbrev between_or :
      Option (String × String) → String → TurnNow → WindowDirection → Result (Option Span)
  between_or none text now direction = bound_or (q.bound text) now direction
  between_or (some (left, right)) text now direction =
      calendar r p bare kind_of (q.with_month left right) now direction >>= λ a.
      calendar r p bare kind_of right now direction >>= λ b. ok (between_spans a b)

  -- `_range`
  unfoldable pub range : String → TurnNow → WindowDirection → Result (Option Span)
  range text now direction = between_or (q.between text) text now direction

  -- The window of a text with no event.
  unfoldable pub plain_window : String → TurnNow → WindowDirection → Result (Option Span)
  plain_window text now direction = else_try (range text now direction) (
      else_try (relative_span q.digits (q.counted text) now)
        (calendar r p bare kind_of text now direction))

  abbrev pub window_by :
      (String → Option AnchorText)
      → String
      → TurnNow
      → WindowDirection
      → Option (ℕ × Option ℕ)
      → Result (Option Span)
  window_by anchor_text text now direction none = plain_window text now direction
  window_by anchor_text text now direction (some event) = anchored (anchor_text text) event now

  -- `resolve_window`
  unfoldable pub resolve_window :
      (String → Option AnchorText)
      → String
      → TimeClock
      → TurnNow
      → WindowDirection
      → Option (ℕ × Option ℕ)
      → Option String
      → Result Window
  resolve_window anchor_text expression clock now direction event label =
      window_by anchor_text (q.window_text (p.norm expression)) now direction event >>= λ w.
      window_or w >>= λ s. ok (record {
        expression = expression;
        clock = clock;
        span = clipped s now.instant direction;
        anchor = label;
      })
