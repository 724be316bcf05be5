-- ===== src/Ingestion/Time/Rules/Weekdays.antt =====
-- ingestion/time.py, `_weekday`: the day that a named weekday stands for.
use nd_mind.Base.{ℕ, ◌+◌, ◌≤◌, ◌<◌, ◌≡◌, Option, none, some, arith}
use nd_mind.Ingestion.Result.{Result, ok}
use nd_mind.Ingestion.Dates.{last_ordinal, weekday, plus_days, minus_days}
use nd_mind.Ingestion.Time.Spans.{Direction, Qualifier, SpanDay, TurnNow, today}
use nd_mind.Ingestion.Time.Rules.{on_weekday, weekday_rule}

abbrev pub IsBehind : ℕ → ℕ → Type 0
IsBehind t d = (t ≤ d + 7) × (d < t)

abbrev pub IsAhead : ℕ → ℕ → Type 0
IsAhead t d = (t < d) × (d ≤ t + 7)

-- Where the day lies, by the qualifier and the direction: "next" is a day of the next week from Monday on.
abbrev pub LiesIn : Option Qualifier → Direction → ℕ → ℕ → Type 0
LiesIn (some Qualifier.last) direction t d = IsBehind t d
LiesIn (some Qualifier.past) direction t d = IsBehind t d
LiesIn (some Qualifier.next) direction t d = (t + 7 ≤ d + weekday t) × (d + weekday t < t + 14)
LiesIn (some Qualifier.this) direction t d = (t ≤ d) × (d < t + 7)
LiesIn (some Qualifier.coming) direction t d = (t ≤ d) × (d < t + 7)
LiesIn none Direction.past t d = IsBehind t d
LiesIn none _ t d = IsAhead t d

pub record IsWeekday (q : Option Qualifier) (direction : Direction) (t wd : ℕ)
    (r : Result (Option SpanDay)) : Type 0 where
  pub day : SpanDay
  pub returns : r ≡ ok (some day)
  pub falls : weekday day.start ≡ wd
  pub lies : LiesIn q direction t day.start
  pub one : day.days ≡ 1

module _ (t wd : ℕ) (lo : 7 < t) (hi : t + 14 ≤ last_ordinal) (h : wd < 7) where
  on_weekday-IsWeekday :
      (q : Option Qualifier) (direction : Direction)
      → IsWeekday q direction t wd (on_weekday q t wd direction)
  unfolding plus_days minus_days
  on_weekday-IsWeekday (some Qualifier.last) direction = ground arith
  on_weekday-IsWeekday (some Qualifier.past) direction = ground arith
  on_weekday-IsWeekday (some Qualifier.next) direction = ground arith
  on_weekday-IsWeekday (some Qualifier.this) direction = ground arith
  on_weekday-IsWeekday (some Qualifier.coming) direction = ground arith
  on_weekday-IsWeekday none Direction.past = ground arith
  on_weekday-IsWeekday none _ = ground arith

-- Where today is the eighth date or a later one, and two weeks or more before the last date, a named
-- weekday is resolved to one day, which falls on that weekday and lies where the word before it says: with
-- "last" or "past" in the week that ends before today, with "next" in the next calendar week, with "this"
-- or "coming" in the seven days that begin today, and with none in the week that ends before today, where
-- the direction is the past, and else in the seven days that begin after today.
pub weekday_rule-IsWeekday :
    (now : TurnNow) (q : Option Qualifier) (wd : ℕ) (direction : Direction)
    → 7 < today now
    → today now + 14 ≤ last_ordinal
    → wd < 7
    → IsWeekday q direction (today now) wd (weekday_rule (some (q, some wd)) now direction)
unfolding weekday_rule
weekday_rule-IsWeekday now q wd direction lo hi h =
    on_weekday-IsWeekday (today now) wd lo hi h q direction
