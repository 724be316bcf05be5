-- ===== src/Ingestion/Time/Months.antt =====
-- ingestion/time.py: the rules for months, days of months and years, and the order of all rules.
use Prim.Native.String.{◌++◌ as join}
use nd_mind.Base.{
  ℕ, suc, ◌-◌, String, Bool, true, not, ◌&&◌, Option, none, some, List, [], ◌∷◌, ltb, leb, ◌==◌,
  if◌then◌else◌,
}
use nd_mind.Core.Vocabulary.{TimePrecision}
use nd_mind.Ingestion.Result.{Result, ok, raise, ◌>>=◌}
use nd_mind.Ingestion.Dates.{
  year_of, month_of, day_of, week_start, within, month_length, monthrange, make_date, plus_days,
  minus_days,
}
use nd_mind.Ingestion.Time.Spans.{
  Direction, Which, MonthQualifier, Edge, EdgeUnit, Alternative, SpanDay, one_day, assumed_day,
  TurnNow, today, Relative, Patterns, Shift, times, shift_days, shift_months, shift_number, found,
  no_match, found_at,
}
use nd_mind.Ingestion.Time.Rules.{
  is_past, relative_day, safe_date, next_date, iso_or_numeric, in_n, weekday_rule, month_start,
  period_rule, span_of,
}

abbrev which_name : Which → String
which_name Which.this = "this"
which_name Which.next = "next"
which_name Which.last = "last"

abbrev which_step : Which → Shift
which_step Which.this = Shift.ahead 0
which_step Which.next = Shift.ahead 1
which_step Which.last = Shift.back 1

abbrev which_or_this : Option Which → Which
which_or_this none = Which.this
which_or_this (some w) = w

abbrev edge_name : String → Which → String → String
edge_name before w after = join before (join (which_name w) after)

abbrev edge_of_week : Edge → Which → ℕ → Result (Option SpanDay)
edge_of_week Edge.end w monday = plus_days monday 6 >>= λ sunday. plus_days monday 4 >>= λ friday.
    found (assumed_day sunday (edge_name "end_of_" w "_week") (Alternative.friday (day_of friday)))
edge_of_week Edge.start w monday = found (one_day monday (edge_name "start_of_" w "_week"))

abbrev edge_of_month : Relative → Edge → Which → ℕ → Result (Option SpanDay)
edge_of_month r Edge.end w first = shift_months r first (Shift.ahead 1) >>= λ next.
    found_at (minus_days next 1) (λ e. one_day e (edge_name "end_of_" w "_month"))
edge_of_month r Edge.start w first = found (one_day first (edge_name "start_of_" w "_month"))

abbrev edge_of_year : Edge → Which → ℕ → Result (Option SpanDay)
edge_of_year Edge.end w y =
    found_at (make_date y 12 31) (λ e. one_day e (edge_name "end_of_" w "_year"))
edge_of_year Edge.start w y =
    found_at (make_date y 1 1) (λ e. one_day e (edge_name "start_of_" w "_year"))

abbrev edge_on : Relative → Edge → Which → EdgeUnit → ℕ → Result (Option SpanDay)
edge_on r e w EdgeUnit.week t = week_start t >>= λ monday.
    shift_days monday (times 7 (which_step w)) >>= λ start. edge_of_week e w start
edge_on r e w EdgeUnit.month t = month_start t >>= λ first.
    shift_months r first (which_step w) >>= λ start. edge_of_month r e w start
edge_on r e w EdgeUnit.year t = edge_of_year e w (shift_number (year_of t) (which_step w))

-- `_edges`
unfoldable pub edges :
    Relative → Option (Edge × Option Which × EdgeUnit) → TurnNow → Result (Option SpanDay)
edges r none now = no_match
edges r (some (e, w, unit)) now = edge_on r e (which_or_this w) unit (today now)

-- `first.replace(day=d)` of the first day of a month
abbrev pub replace_day : ℕ → ℕ → Result ℕ
replace_day first d = make_date (year_of first) (month_of first) d

abbrev clamp_note : ℕ → ℕ → ℕ → Option ℕ → Alternative
clamp_note d m last none = Alternative.month_has m last
clamp_note d m last (some other) = Alternative.day_of_later d (month_of other) m last

-- `_clamped`
unfoldable pub clamped : ℕ → ℕ → String → Option ℕ → Result (Option SpanDay)
clamped first d name other =
    let m = month_of first in
    monthrange (year_of first) m >>= λ last.
    if leb d last
    then found_at (replace_day first d) (λ e. one_day e name)
    else found_at (replace_day first last)
        (λ e. assumed_day e (join name "_clamped") (clamp_note d m last other))

abbrev dated : ℕ → ℕ → ℕ → Option ℕ → Direction → Result (Option SpanDay)
dated t d m (some y) direction = found_at (safe_date y m d) (λ e. one_day e "day_month_year")
dated t d m none direction =
    found_at (next_date t m d direction)
      (λ e. one_day e (if is_past direction then "day_month_past" else "day_month_next"))

abbrev day_and_month : ℕ → ℕ → Option ℕ → Option ℕ → Direction → Result (Option SpanDay)
day_and_month t d none y direction = no_match
day_and_month t d (some m) y direction = monthrange (year_of t) m >>= λ last.
    if ltb last d && not (m == 2 && d == 29) then no_match else dated t d m y direction

abbrev bare_day : Relative → ℕ → ℕ → Direction → Result (Option SpanDay)
bare_day r t d direction = month_start t >>= λ this_month.
    if is_past direction
    then ((if leb d (day_of t) then ok this_month else shift_months r this_month (Shift.back 1))
        >>= λ first. clamped first d "bare_day_of_month_past" none)
    else (if leb (day_of t) d
        then (if ltb (month_length (year_of t) (month_of t)) d
            then (shift_months r this_month (Shift.ahead 1) >>= λ next.
                clamped this_month d "bare_day_of_month" (some next))
            else found_at (make_date (year_of t) (month_of t) d)
                (λ e. one_day e "bare_day_of_month"))
        else (shift_months r this_month (Shift.ahead 1) >>= λ first.
            clamped first d "bare_day_of_month" none))

abbrev bare_number : Relative → Option ℕ → ℕ → Direction → Result (Option SpanDay)
bare_number r none t direction = no_match
bare_number r (some d) t direction = if within 1 31 d then bare_day r t d direction else no_match

abbrev day_month_or :
    Relative → Option (ℕ × Option ℕ × Option ℕ) → Option ℕ → ℕ → Direction → Result (Option SpanDay)
day_month_or r none bare t direction = bare_number r bare t direction
day_month_or r (some (d, m, y)) bare t direction = day_and_month t d m y direction

-- `_day_of_month`
unfoldable pub day_of_month :
    Relative
    → Option (ℕ × Which)
    → Option (ℕ × Option ℕ × Option ℕ)
    → Option ℕ
    → TurnNow
    → Direction
    → Result (Option SpanDay)
day_of_month r (some (d, w)) dm bare now direction = month_start (today now) >>= λ this_month.
    shift_months r this_month (which_step w) >>= λ first.
    clamped first d (edge_name "day_of_" w "_month") none
day_of_month r none dm bare now direction = day_month_or r dm bare (today now) direction

abbrev month_span : String → ℕ → SpanDay
month_span name d = span_of d 1 TimePrecision.month name

abbrev next_month_name : ℕ → ℕ → ℕ → Result (Option SpanDay)
next_month_name t m this_year =
    if ltb (month_of t) m
    then found (record (month_span "next_month_name" this_year) {
      assumed = true;
      alternative = some (Alternative.month_of_year m (suc (year_of t)));
    })
    else found_at (make_date (suc (year_of t)) m 1) (month_span "next_month_name")

-- The month of this year or the one before or behind it, by where it lies in the year.
abbrev month_in : Bool → String → Result ℕ → ℕ → Result (Option SpanDay)
month_in this name other this_year =
    if this then found (month_span name this_year) else found_at other (month_span name)

abbrev near_month : ℕ → ℕ → ℕ → Direction → Result (Option SpanDay)
near_month t m this_year direction =
    if is_past direction
    then month_in (leb m (month_of t)) "month_name_past" (make_date (year_of t - 1) m 1) this_year
    else month_in (leb (month_of t) m) "month_name_next" (make_date (suc (year_of t)) m 1) this_year

abbrev qualified_month : Option MonthQualifier → ℕ → ℕ → ℕ → Direction → Result (Option SpanDay)
qualified_month (some MonthQualifier.last) t m this_year direction =
    month_in (ltb m (month_of t)) "last_month_name" (make_date (year_of t - 1) m 1) this_year
qualified_month (some MonthQualifier.this) t m this_year direction =
    found (month_span "this_month_name" this_year)
qualified_month (some MonthQualifier.next) t m this_year direction = next_month_name t m this_year
qualified_month _ t m this_year direction = near_month t m this_year direction

-- `_month`
unfoldable pub month_rule :
    Option (Option MonthQualifier × Option ℕ × Option ℕ)
    → TurnNow
    → Direction
    → Result (Option SpanDay)
month_rule none now direction = no_match
month_rule (some (q, none, y)) now direction = no_match
month_rule (some (q, some m, some y)) now direction =
    found_at (make_date y m 1) (month_span "month_year")
month_rule (some (q, some m, none)) now direction =
    make_date (year_of (today now)) m 1 >>= λ this_year.
    qualified_month q (today now) m this_year direction

-- `_year`
unfoldable pub year_rule : Option ℕ → Result (Option SpanDay)
year_rule none = no_match
year_rule (some y) =
    if within 1900 2200 y
    then found_at (make_date y 1 1) (λ e. span_of e 1 TimePrecision.year "year")
    else no_match

-- The rules of `_SPAN_RULES`, in order, each on the text.
abbrev span_rules :
    Relative → Patterns → TurnNow → Direction → List (String → Result (Option SpanDay))
span_rules r p now direction =
    (λ text. relative_day text now)
    ∷ (λ text. iso_or_numeric p text now direction)
    ∷ (λ text. in_n r (p.units_ahead text) (p.units_back text) now)
    ∷ (λ text. weekday_rule (p.weekday text) now direction)
    ∷ (λ text. period_rule r (p.period text) now)
    ∷ (λ text. edges r (p.edge text) now)
    ∷ (λ text.
        day_of_month r (p.day_of_month text) (p.day_month text) (p.bare_number text) now direction)
    ∷ (λ text. month_rule (p.month_name text) now direction)
    ∷ (λ text. year_rule (p.four_digits text))
    ∷ []

abbrev else_later : Result (Option SpanDay) → Result (Option SpanDay) → Result (Option SpanDay)
else_later (raise e) later = raise e
else_later (ok none) later = later
else_later (ok (some d)) later = found d

abbrev first_of : List (String → Result (Option SpanDay)) → String → Result (Option SpanDay)
first_of [] text = no_match
first_of (rule ∷ rules) text = else_later (rule text) (first_of rules text)

-- `_span`
unfoldable pub span : Relative → Patterns → String → TurnNow → Direction → Result (Option SpanDay)
span r p text now direction = first_of (span_rules r p now direction) text
