-- ===== src/Ingestion/Time/Anchors.antt =====
-- ingestion/time.py: windows relative to an event, `_anchored`. A number in a rule's name is left out.
use Prim.Native.String.{◌++◌ as join}
use nd_mind.Base.{
  ℕ, suc, ◌+◌, ◌-◌, ◌*◌, ◌/◌, ◌%◌, String, Option, none, some, ltb, ◌==◌, if◌then◌else◌, get_or,
}
use nd_mind.Core.Vocabulary.{TimePrecision}
use nd_mind.Ingestion.Result.{Result, ok, ◌>>=◌}
use nd_mind.Ingestion.Dates.{weekday, plus_days, minus_days}
use nd_mind.Ingestion.Time.Spans.{Zone, TurnNow, day_us, at, plus_us, minus_us}
use nd_mind.Ingestion.Time.Windows.{Span, bounded}

-- What `_anchored` finds in a text.
pub data AnchorUnit : Type 0 where
  day week month : AnchorUnit

pub data Side : Type 0 where
  before after : Side

pub data AnchorText : Type 0 where
  during before after since : AnchorText
  weekend : Side → AnchorText
  units : Option ℕ → AnchorUnit → Side → AnchorText

abbrev pub anchor_days : AnchorUnit → ℕ
anchor_days AnchorUnit.day = 1
anchor_days AnchorUnit.week = 7
anchor_days AnchorUnit.month = 30

abbrev pub anchor_name : AnchorUnit → String
anchor_name AnchorUnit.day = "anchor_day"
anchor_name AnchorUnit.week = "anchor_week"
anchor_name AnchorUnit.month = "anchor_month"

-- `n % 7 or 7`
abbrev or_seven : ℕ → ℕ
or_seven n = let m = n % 7 in if m == 0 then 7 else m

-- The Saturday before a day, and the one after it.
abbrev pub saturday : Side → ℕ → ℕ → Result ℕ
saturday Side.before first last = minus_days first (or_seven (weekday first + 2))
saturday Side.after first last = plus_days last (or_seven (12 - weekday last))

abbrev pub side_name : Side → String
side_name Side.before = "_before"
side_name Side.after = "_after"

abbrev pub days_beside : Side → ℕ → ℕ → ℕ → String → Zone → Result Span
days_beside Side.before first last n name zone = minus_days first n >>= λ d. at d 0 zone >>= λ s.
    at first 0 zone >>= λ e. ok (bounded s e TimePrecision.day (join name "_before"))
days_beside Side.after first last n name zone = plus_days last 1 >>= λ d. at d 0 zone >>= λ s.
    plus_days d n >>= λ next.
    at next 0 zone >>= λ e. ok (bounded s e TimePrecision.day (join name "_after"))

-- A window relative to an event from `s` to `e`, on the days from `first` to `last`.
unfoldable pub beside : AnchorText → ℕ → ℕ → ℕ → ℕ → TurnNow → Result Span
beside AnchorText.during s e first last now = ok (bounded s e TimePrecision.day "anchor_during")
beside AnchorText.before s e first last now =
    ok
      (record { start = none; end = some s; precision = TimePrecision.day; rule = "anchor_before" })
beside AnchorText.after s e first last now =
    ok (record { start = some e; end = none; precision = TimePrecision.day; rule = "anchor_after" })
beside AnchorText.since s e first last now =
    ok (bounded s now.instant TimePrecision.day "anchor_since")
beside (AnchorText.weekend side) s e first last now = saturday side first last >>= λ d.
    at d 0 now.zone >>= λ start. plus_us start (2 * day_us) >>= λ end.
    ok (bounded start end TimePrecision.day (join "anchor_weekend" (side_name side)))
beside (AnchorText.units n unit side) s e first last now =
    days_beside side first last (anchor_days unit * get_or n 1) (anchor_name unit) now.zone

-- The end of the event: its own, or that of its first day.
abbrev event_end : ℕ → Option ℕ → ℕ → Zone → Result ℕ
event_end s none first zone = plus_days first 1 >>= λ d. at d 0 zone
event_end s (some e) first zone = if ltb s e then ok e else (plus_days first 1 >>= λ d. at d 0 zone)

abbrev local_day : Zone → ℕ → ℕ
local_day zone m = suc (zone.to_local m / day_us)

-- `_anchored`
unfoldable pub anchored : Option AnchorText → ℕ × Option ℕ → TurnNow → Result (Option Span)
anchored text (s, end) now = event_end s end (local_day now.zone s) now.zone >>= λ e.
    minus_us e 1 >>= λ final. elim text [
      | none ↦ ok none
      | some t ↦
          beside t s e (local_day now.zone s) (local_day now.zone final) now >>= λ w. ok (some w)
    ]
