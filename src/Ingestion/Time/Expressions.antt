-- ===== src/Ingestion/Time/Expressions.antt =====
-- ingestion/time.py: `resolve`, `resolve_lead` and `reminder_time`.
use Prim.Native.String.{◌++◌ as join, len, slice}
use text.Mathlib.Text.{starts_with}
pub mod Reminders
use nd_mind.Base.{
  ℕ, suc, ◌+◌, ◌-◌, ◌*◌, ◌/◌, ◌%◌, String, Bool, true, false, ◌&&◌, Option, none, some, List, [],
  ◌∷◌, ltb, if◌then◌else◌, is_some,
}
use nd_mind.Core.Vocabulary.{TimePrecision}
use nd_mind.Ingestion.Result.{Result, ok, raise, TimeError, ◌>>=◌}
use nd_mind.Ingestion.Dates.{year_of, month_of, day_of, plus_days, minus_days}
use nd_mind.Ingestion.Time.Spans.{
  Direction, SpanDay, one_day, Zone, TurnNow, day_us, minute_us, today, at, minus_us, Relative,
}
use nd_mind.Ingestion.Time.Rules.{safe_date}
use nd_mind.Ingestion.Time.Months.{span}
use nd_mind.Ingestion.Time.Clocks.{Part, ClockTime, Clocked, clock_time}
use nd_mind.Ingestion.Time.Resolve.{
  TimeClock, Bound, RoutineRule, Resolved, ClockUnit, ResolvePatterns, hour_us, apply_time,
  exact_instant, weekday_and_date,
}

abbrev pub bounds : List (String × Bound)
bounds =
    ("since", Bound.since)
    ∷ ("from", Bound.since)
    ∷ ("until", Bound.until)
    ∷ ("till", Bound.until)
    ∷ ("til", Bound.until)
    ∷ ("up to", Bound.until)
    ∷ ("by", Bound.by)
    ∷ ("before", Bound.by)
    ∷ []

-- The text behind a leading bound, with the bound.
unfoldable pub strip_bound : List (String × Bound) → String → String × Option Bound
strip_bound [] text = (text, none)
strip_bound ((word, b) ∷ rest) text =
    let later = strip_bound rest text in
    if starts_with text (join word " ")
    then (slice text (suc (len word)) (len text), some b)
    else later

-- `_default_direction`
unfoldable pub default_direction : TimeClock → Option Bound → Direction
default_direction TimeClock.valid (some Bound.since) = Direction.past
default_direction _ _ = Direction.future

abbrev pub direction_or : Direction → TimeClock → Option Bound → Direction
direction_or Direction.auto clock bound = default_direction clock bound
direction_or d clock bound = d

abbrev is_future : Direction → Bool
is_future Direction.future = true
is_future _ = false

-- Whether a time of today lies before the turn; with no time it does not.
abbrev passed : Option ClockTime → TurnNow → Result Bool
passed none now = ok false
passed (some ct) now = at (today now) ct.value now.zone >>= λ m. ok (ltb m now.instant)

-- The day of a text that names none.
abbrev implied_day : Clocked → TurnNow → Direction → Result SpanDay
implied_day c now direction =
    if is_some c.time
    then (passed c.time now >>= λ gone.
        if gone && is_future direction
        then (plus_days (today now) 1 >>= λ d. ok (one_day d "next_time_of_day"))
        else ok (one_day (today now) "today_implied"))
    else if is_some c.part
    then ok (one_day (today now) "today_implied")
    else raise TimeError.unresolvable

abbrev day_or : ResolvePatterns → Clocked → TurnNow → Direction → Option SpanDay → Result SpanDay
day_or p c now direction (some d) = ok d
day_or p c now direction none =
    if p.has_leftover c.text then raise TimeError.unresolvable else implied_day c now direction

-- `_span(bare, …) or _weekday_and_date(bare, …)`
abbrev pub or_weekday :
    Relative
    → ResolvePatterns
    → String
    → TurnNow
    → Direction
    → Option SpanDay
    → Result (Option SpanDay)
or_weekday r p text now direction (some d) = ok (some d)
or_weekday r p text now direction none =
    weekday_and_date r p.spans (p.weekday_and_rest text) now direction

abbrev bare_or :
    Relative
    → ResolvePatterns
    → String
    → TurnNow
    → Direction
    → Option SpanDay
    → Result (Option SpanDay)
bare_or r p text now direction (some d) = ok (some d)
bare_or r p text now direction none =
    span r p.spans (p.bare text) now direction >>= λ d. or_weekday r p (p.bare text) now direction d

-- The day that a text names.
unfoldable pub find_day :
    Relative → ResolvePatterns → Clocked → TurnNow → Direction → Result SpanDay
find_day r p c now direction = span r p.spans c.text now direction >>= λ first.
    bare_or r p c.text now direction first >>= λ d. day_or p c now direction d

abbrev yearly_on : Resolved → TurnNow → ℕ → ℕ → Result ℕ
yearly_on result now local d =
    if ltb d (today now)
    then (safe_date (suc (year_of d)) (month_of d) (day_of d) >>= λ e.
        at e (local % day_us) now.zone)
    else ok result.start

abbrev yearly_by : TimePrecision → Resolved → TurnNow → ℕ → ℕ → Result Resolved
yearly_by TimePrecision.month result now local d = ok (record result {
  rrule = some (RoutineRule.yearly_month (month_of d));
  rule = join result.rule "+yearly";
})
yearly_by TimePrecision.year result now local d = ok result
yearly_by _ result now local d = yearly_on result now local d >>= λ s. ok (record result {
  rrule = some (RoutineRule.yearly_day (month_of d) (day_of d));
  start = s;
  rule = join result.rule "+yearly";
})

-- `_yearly`
unfoldable pub yearly : Resolved → TurnNow → Result Resolved
yearly result now =
    if is_some result.rrule
    then ok result
    else (let local = now.zone.to_local result.start in
        yearly_by result.precision result now local (suc (local / day_us)))

abbrev pub replaced : String → TimeClock → Option Bound → Resolved → Resolved
replaced expression clock bound result = record result {
  expression = expression;
  clock = clock;
  bound = bound;
}

abbrev yearly_if : Bool → Resolved → TurnNow → Result Resolved
yearly_if true result now = yearly result now
yearly_if false result now = ok result

-- A text with no routine: an exact instant, or a day with its time.
abbrev by_day :
    Relative
    → ResolvePatterns
    → Clocked
    → TurnNow
    → Direction
    → Bool
    → Option Resolved
    → Result Resolved
by_day r p c now direction recurring (some exact) = ok exact
by_day r p c now direction recurring none = find_day r p c now direction >>= λ d.
    apply_time r d c.time c.part now >>= λ result. yearly_if recurring result now

abbrev routine_or :
    Relative
    → ResolvePatterns
    → String
    → TurnNow
    → Direction
    → Bool
    → Option Resolved
    → Result Resolved
routine_or r p text now direction recurring (some routine) = ok routine
routine_or r p text now direction recurring none = clock_time p.clocks text >>= λ c.
    exact_instant p c.text now >>= λ exact. by_day r p c now direction recurring exact

-- `resolve`, with `_routine` given
unfoldable pub resolve :
    Relative
    → ResolvePatterns
    → (String → TurnNow → Result (Option Resolved))
    → String
    → TimeClock
    → TurnNow
    → Direction
    → Bool
    → Result Resolved
resolve r p routine expression clock now direction recurring =
    let (text, bound) = strip_bound bounds (p.norm expression) in
    routine text now >>= λ found.
    routine_or r p text now (direction_or direction clock bound) recurring found >>= λ result.
    ok (replaced expression clock bound result)

-- `resolve_lead`: what its patterns find in the text of a reminder.
pub data LeadText : Type 0 where
  day_before same_day : LeadText
  units_before : ℕ → ℕ → LeadText

-- The time before the event; a unit is its microseconds.
unfoldable pub resolve_lead : Option LeadText → Result (ℕ × String)
resolve_lead none = raise TimeError.unresolvable
resolve_lead (some LeadText.day_before) = ok (day_us, "day_before")
resolve_lead (some LeadText.same_day) = ok (0, "same_day")
resolve_lead (some (LeadText.units_before n unit)) = ok (n * unit, "n_units_before")

abbrev is_datetime : TimePrecision → Bool
is_datetime TimePrecision.datetime = true
is_datetime _ = false

-- `math.ceil(lead / timedelta(days=1))`, exactly and not by a float, of a lead that is not negative
abbrev pub days_up : ℕ → ℕ
days_up lead = (lead + (day_us - 1)) / day_us

-- `reminder_time`, of an event's start
unfoldable pub reminder_time : ℕ → TimePrecision → ℕ → Zone → Result ℕ
reminder_time start precision lead zone =
    if is_datetime precision
    then minus_us start lead
    else (minus_days (suc (zone.to_local start / day_us)) (days_up lead) >>= λ d.
        at d (9 * hour_us) zone)
