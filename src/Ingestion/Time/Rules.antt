-- ===== src/Ingestion/Time/Rules.antt =====
-- ingestion/time.py: the rules for days, weeks and other periods counted from today.
use Prim.Native.String.{◌++◌ as join}
pub mod Weekdays
pub mod Nearest
use nd_mind.Base.{
  ℕ, suc, ◌+◌, ◌-◌, ◌*◌, ◌%◌, String, Bool, true, false, not, ◌&&◌, ◌||◌, Option, none, some, List,
  [], ◌∷◌, ltb, leb, ◌==◌, if◌then◌else◌, str_eq,
}
use nd_mind.Core.Vocabulary.{TimePrecision}
use nd_mind.Ingestion.Result.{Result, ok, raise, TimeError, ◌>>=◌}
use nd_mind.Ingestion.Dates.{
  year_of, month_of, day_of, weekday, week_start, month_length, monthrange, make_date, plus_days,
  minus_days,
}
use nd_mind.Ingestion.Time.Spans.{
  Direction, Qualifier, Which, Period, Edge, EdgeUnit, SpanUnit, Alternative, SpanDay, one_day,
  assumed_day, TurnNow, today, Relative, Patterns, Shift, times, shift_days, shift_months,
  shift_years, shift_number, found, no_match, found_at,
}

abbrev pub is_past : Direction → Bool
is_past Direction.past = true
is_past _ = false

abbrev days_table : List (String × Shift × String)
days_table =
    ("today", Shift.ahead 0, "today")
    ∷ ("now", Shift.ahead 0, "today")
    ∷ ("tomorrow", Shift.ahead 1, "tomorrow")
    ∷ ("yesterday", Shift.back 1, "yesterday")
    ∷ ("day after tomorrow", Shift.ahead 2, "day_after_tomorrow")
    ∷ ("day before yesterday", Shift.back 2, "day_before_yesterday")
    ∷ ("last night", Shift.back 1, "last_night")
    ∷ []

abbrev lookup_day : String → List (String × Shift × String) → Option (Shift × String)
lookup_day text [] = none
lookup_day text ((word, s, name) ∷ rest) =
    let later = lookup_day text rest in if str_eq word text then some (s, name) else later

abbrev day_from : ℕ → Option (Shift × String) → Result (Option SpanDay)
day_from d none = no_match
day_from d (some (s, name)) = found_at (shift_days d s) (λ e. one_day e name)

-- `_relative_day`
unfoldable pub relative_day : String → TurnNow → Result (Option SpanDay)
relative_day text now = day_from (today now) (lookup_day text days_table)

-- `_safe_date`
unfoldable pub safe_date : ℕ → ℕ → ℕ → Result ℕ
safe_date y m d = monthrange y m >>= λ last. make_date y m (if leb d last then d else last)

-- `_next_date`; a year before the first one raises as the year 0 does.
unfoldable pub next_date : ℕ → ℕ → ℕ → Direction → Result ℕ
next_date t m d direction = safe_date (year_of t) m d >>= λ candidate.
    if is_past direction
    then (if leb candidate t then ok candidate else safe_date (year_of t - 1) m d)
    else (if leb t candidate then ok candidate else safe_date (suc (year_of t)) m d)

-- The day and month of a numeric date, and whether they could be read the other way round.
abbrev order_of : Bool → ℕ → ℕ → ℕ × ℕ × Bool
order_of month_first a b =
    let d = if month_first then b else a in
    let m = if month_first then a else b in
    if ltb 12 m then (m, d, false) else (d, m, leb a 12 && leb b 12 && not (a == b))

abbrev full_year : ℕ → ℕ → ℕ
full_year y digits = if digits == 2 then y + 2000 else y

abbrev numeric_on : ℕ → Direction → ℕ → ℕ → Option (ℕ × ℕ) → Result ℕ
numeric_on t direction d m none = next_date t m d direction
numeric_on t direction d m (some (y, digits)) = make_date (full_year y digits) m d

abbrev numeric_day : Bool → ℕ → ℕ → Bool → ℕ → SpanDay
numeric_day month_first a b ambiguous e =
    record (one_day e (if month_first then "numeric_date_mdy" else "numeric_date_dmy")) {
      assumed = ambiguous;
      alternative = if ambiguous then some (Alternative.other_way_round b a) else none;
    }

unfoldable pub numeric_rule :
    Option (ℕ × ℕ × Option (ℕ × ℕ)) → TurnNow → Direction → Result (Option SpanDay)
numeric_rule none now direction = no_match
numeric_rule (some (a, b, year)) now direction =
    let parts = order_of now.zone.is_american a b in
    found_at (numeric_on (today now) direction parts.0 parts.1 year)
      (numeric_day now.zone.is_american a b parts.2)

unfoldable pub iso_rule : Option (ℕ × ℕ × ℕ) → Result (Option SpanDay) → Result (Option SpanDay)
iso_rule none other = other
iso_rule (some (y, m, d)) other = found_at (make_date y m d) (λ e. one_day e "iso_date")

-- `_iso_or_numeric`
unfoldable pub iso_or_numeric : Patterns → String → TurnNow → Direction → Result (Option SpanDay)
iso_or_numeric p text now direction =
    iso_rule (p.iso_date text) (numeric_rule (p.numeric_date text) now direction)

abbrev unit_shift : Relative → ℕ → SpanUnit → Shift → Result ℕ
unit_shift r d SpanUnit.day s = shift_days d s
unit_shift r d SpanUnit.week s = shift_days d (times 7 s)
unit_shift r d SpanUnit.fortnight s = shift_days d (times 14 s)
unit_shift r d SpanUnit.month s = shift_months r d s
unit_shift r d SpanUnit.year s = shift_years r d s

-- `_in_n` and `_in_n_apply`
unfoldable pub in_n :
    Relative → Option (ℕ × SpanUnit) → Option (ℕ × SpanUnit) → TurnNow → Result (Option SpanDay)
in_n r none none now = no_match
in_n r (some (n, unit)) back now =
    found_at (unit_shift r (today now) unit (Shift.ahead n)) (λ e. one_day e "in_n_units")
in_n r none (some (n, unit)) now =
    found_at (unit_shift r (today now) unit (Shift.back n)) (λ e. one_day e "n_units_ago")

-- The days from one weekday on to another, 0 for the same.
abbrev pub days_ahead : ℕ → ℕ → ℕ
days_ahead from to = (to + 7 - from) % 7

-- `(today.weekday() - wd) % 7 or 7`
abbrev days_back : ℕ → ℕ → ℕ
days_back from to = let n = (from + 7 - to) % 7 in if n == 0 then 7 else n

-- `next Friday`: the day of the next calendar week, and the coming one named where it is another.
abbrev next_weekday : ℕ → ℕ → Result (Option SpanDay)
next_weekday t wd =
    let ahead = days_ahead (weekday t) wd in
    plus_days t ahead >>= λ upcoming. week_start t >>= λ monday.
    plus_days monday (7 + wd) >>= λ next_week.
    if not (next_week == upcoming) && not (ahead == 0)
    then found (assumed_day next_week "weekday_of_next_week" (Alternative.on_date wd upcoming))
    else (if ahead == 0
        then found_at (plus_days t 7) (λ e. one_day e "weekday_of_next_week")
        else found (one_day next_week "weekday_of_next_week"))

abbrev bare_weekday : ℕ → ℕ → Direction → Result (Option SpanDay)
bare_weekday t wd direction =
    let ahead = days_ahead (weekday t) wd in
    if is_past direction
    then (if ahead == 0
        then found_at (minus_days t 7) (λ e. assumed_day e "past_weekday" Alternative.this_day)
        else found_at (minus_days t (days_back (weekday t) wd)) (λ e. one_day e "past_weekday"))
    else (if ahead == 0
        then found_at (plus_days t 7) (λ e. assumed_day e "bare_weekday_today" Alternative.this_day)
        else found_at (plus_days t ahead) (λ e. one_day e "upcoming_weekday"))

abbrev last_weekday : ℕ → ℕ → Result (Option SpanDay)
last_weekday t wd =
    found_at (minus_days t (days_back (weekday t) wd)) (λ e. one_day e "last_weekday")

abbrev this_weekday : ℕ → ℕ → Result (Option SpanDay)
this_weekday t wd =
    found_at (plus_days t (days_ahead (weekday t) wd)) (λ e. one_day e "this_weekday")

abbrev qualified_weekday : Option Qualifier → ℕ → ℕ → Direction → Result (Option SpanDay)
qualified_weekday (some Qualifier.last) t wd direction = last_weekday t wd
qualified_weekday (some Qualifier.past) t wd direction = last_weekday t wd
qualified_weekday (some Qualifier.next) t wd direction = next_weekday t wd
qualified_weekday (some Qualifier.this) t wd direction = this_weekday t wd
qualified_weekday (some Qualifier.coming) t wd direction = this_weekday t wd
qualified_weekday none t wd direction = bare_weekday t wd direction

-- The rule computes the coming and the last such day first, so that both must be dates.
abbrev on_weekday : Option Qualifier → ℕ → ℕ → Direction → Result (Option SpanDay)
on_weekday q t wd direction = plus_days t (days_ahead (weekday t) wd) >>= λ upcoming.
    minus_days t (days_back (weekday t) wd) >>= λ previous. qualified_weekday q t wd direction

-- `_weekday`
unfoldable pub weekday_rule :
    Option (Option Qualifier × Option ℕ) → TurnNow → Direction → Result (Option SpanDay)
weekday_rule none now direction = no_match
weekday_rule (some (q, none)) now direction = no_match
weekday_rule (some (q, some wd)) now direction = on_weekday q (today now) wd direction

abbrev qualifier_name : Qualifier → String
qualifier_name Qualifier.this = "this"
qualifier_name Qualifier.next = "next"
qualifier_name Qualifier.last = "last"
qualifier_name Qualifier.coming = "coming"
qualifier_name Qualifier.past = "past"

abbrev period_step : Qualifier → Shift
period_step Qualifier.this = Shift.ahead 0
period_step Qualifier.next = Shift.ahead 1
period_step Qualifier.coming = Shift.ahead 1
period_step Qualifier.last = Shift.back 1
period_step Qualifier.past = Shift.back 1

abbrev pub span_of : ℕ → ℕ → TimePrecision → String → SpanDay
span_of d n precision name = record (one_day d name) { days = n; precision = precision }

-- "this weekend" on a Sunday is the one that ends today.
abbrev saturday_of : Qualifier → ℕ → Result ℕ
saturday_of Qualifier.this t = week_start t >>= λ monday.
    plus_days monday 5 >>= λ s. if weekday t == 6 then minus_days t 1 else ok s
saturday_of _ t = week_start t >>= λ monday. plus_days monday 5

abbrev weekend_step : Qualifier → ℕ → Shift
weekend_step Qualifier.coming t = Shift.ahead (if ltb (weekday t) 5 then 0 else 1)
weekend_step q t = period_step q

-- `_month_start` of a date's month
abbrev pub month_start : ℕ → Result ℕ
month_start t = make_date (year_of t) (month_of t) 1

abbrev period_day : Relative → Qualifier → Period → ℕ → Result (Option SpanDay)
period_day r q Period.week t = week_start t >>= λ monday.
    found_at (shift_days monday (times 7 (period_step q)))
      (λ e. span_of e 7 TimePrecision.day (join (qualifier_name q) "_week"))
period_day r q Period.weekend t = saturday_of q t >>= λ saturday.
    found_at (shift_days saturday (times 7 (weekend_step q t)))
      (λ e. span_of e 2 TimePrecision.day (join (qualifier_name q) "_weekend"))
period_day r q Period.month t = month_start t >>= λ first.
    found_at (shift_months r first (period_step q))
      (λ e. span_of e 1 TimePrecision.month (join (qualifier_name q) "_month"))
period_day r q Period.year t =
    found_at (make_date (shift_number (year_of t) (period_step q)) 1 1)
      (λ e. span_of e 1 TimePrecision.year (join (qualifier_name q) "_year"))

-- `_periods`
unfoldable pub period_rule :
    Relative → Option (Qualifier × Period) → TurnNow → Result (Option SpanDay)
period_rule r none now = no_match
period_rule r (some (q, unit)) now = period_day r q unit (today now)
