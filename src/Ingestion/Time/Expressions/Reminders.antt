-- ===== src/Ingestion/Time/Expressions/Reminders.antt =====
-- ingestion/time.py, `reminder_time`: when the reminder of an event fires.
use nd_mind.Base.{ℕ, suc, ◌+◌, ◌*◌, ◌/◌, ◌≤◌, ◌≡◌, arith}
use nd_mind.Core.Vocabulary.{TimePrecision}
use nd_mind.Ingestion.Result.{ok, >>=-returned, ◌>>=◌}
use nd_mind.Ingestion.Dates.{minus_days}
use nd_mind.Ingestion.Time.Spans.{Zone, day_us, at, minus_us}
use nd_mind.Ingestion.Time.Resolve.{hour_us}
use nd_mind.Ingestion.Time.Expressions.{days_up, reminder_time}

-- A day's nine o'clock, the day as few days before the event's local day as cover the lead.
pub record FiresOnDay (start lead m : ℕ) (zone : Zone) : Type 0 where
  pub day : ℕ
  pub before : ℕ
  pub counts : day + before ≡ suc (zone.to_local start / day_us)
  pub covers : lead ≤ before * day_us
  pub least : (n : ℕ) → lead ≤ n * day_us → before ≤ n
  pub nine : at day (9 * hour_us) zone ≡ ok m

abbrev pub Fires : ℕ → TimePrecision → ℕ → ℕ → Zone → Type 0
Fires start TimePrecision.datetime lead m zone = m + lead ≡ start
Fires start _ lead m zone = FiresOnDay start lead m zone

on_day :
    (start lead m : ℕ) (zone : Zone)
    → (minus_days (suc (zone.to_local start / day_us)) (days_up lead) >>= λ d.
        at d (9 * hour_us) zone)
      ≡ ok m
    → FiresOnDay start lead m zone
unfolding minus_days
on_day start lead m zone h =
    let (d, e, nine) =
      >>=-returned (minus_days (suc (zone.to_local start / day_us)) (days_up lead)) _ h in
    record {
      day = d;
      before = days_up lead;
      counts = ground (arith, e);
      covers = omega arith;
      least = λ n le. omega arith;
      nine = nine;
    }

-- A reminder fires its lead before an event with a time; of any other event it fires at nine o'clock, local
-- time, of the day that is as few days before the event's as cover the lead.
pub reminder_time-Fires :
    (start lead m : ℕ) (precision : TimePrecision) (zone : Zone)
    → reminder_time start precision lead zone ≡ ok m
    → Fires start precision lead m zone
unfolding reminder_time minus_us
reminder_time-Fires start lead m TimePrecision.datetime zone h = ground arith
reminder_time-Fires start lead m TimePrecision.day zone h = on_day start lead m zone h
reminder_time-Fires start lead m _ zone h =
    let f = on_day start lead m zone h in
    record {
      day = f.day;
      before = f.before;
      counts = f.counts;
      covers = f.covers;
      least = f.least;
      nine = f.nine;
    }
