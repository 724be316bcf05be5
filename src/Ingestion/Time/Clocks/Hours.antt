-- ===== src/Ingestion/Time/Clocks/Hours.antt =====
-- ingestion/time.py, `_clock_time`: the times of day that it takes out of a text.
use nd_mind.Base.{◌≢◌, ℕ, ◌+◌, ◌<◌, ◌≡◌, ◌⊎◌, String, Bool, true, false, Option, none, some, arith}
use nd_mind.Ingestion.Result.{Result, ok, raise, TimeError}
use nd_mind.Ingestion.Time.Spans.{day_us}
use nd_mind.Ingestion.Time.Clocks.{
  Part, ClockTime, Clocked, ClockPatterns, make_time, h24, clocked, bare_hour, clock_time,
  midnight_or, midday_or, noon_or, h_bare_or, hm24_or, h_ampm_or, hm_ampm_or, tonight_or,
}

abbrev pub half_day : ℕ
half_day = 43200000000

-- A time within a day; where it is assumed, the other reading is half a day off, in the same day.
abbrev pub IsTime : ClockTime → Type 0
IsTime c = elim c.alternative [
  | none ↦ (c.value < day_us) × (c.assumed ≡ false)
  | some t ↦
      (c.value < day_us)
      × (c.assumed ≡ true)
      × ((c.value ≡ t + half_day) ⊎ (t ≡ c.value + half_day))
      × (t < day_us)
]

abbrev pub TimeOf : Option ClockTime → Type 0
TimeOf none = Unit
TimeOf (some c) = IsTime c

-- What a text gives, if it does not raise.
abbrev pub Gives : Result Clocked → Type 0
Gives (ok c) = TimeOf c.time
Gives (raise e) = e ≡ TimeError.value_error

clocked-Gives :
    (text : String) (part : Option Part) (h m : ℕ) → Gives (clocked text part (make_time h m))
unfolding make_time
clocked-Gives text part h m = ground arith

bare_hour-Gives : (h : ℕ) (text : String) (part : Option Part) → Gives (bare_hour h text part)
unfolding bare_hour make_time
bare_hour-Gives h text part = ground arith

module _ (p : ClockPatterns) (part : Option Part) where
  midnight_or-Gives : (o : Option String) (text : String) → Gives (midnight_or o text part)
  midnight_or-Gives (some rest) text = clocked-Gives rest part 0 0
  midnight_or-Gives none text = tt

  midday_or-Gives : (o : Option String) (text : String) → Gives (midday_or p o text part)
  midday_or-Gives (some rest) text = clocked-Gives rest part 12 0
  midday_or-Gives none text = midnight_or-Gives (p.midnight text) text

  noon_or-Gives : (o : Option String) (text : String) → Gives (noon_or p o text part)
  noon_or-Gives (some rest) text = clocked-Gives rest part 12 0
  noon_or-Gives none text = midday_or-Gives (p.midday text) text

  h_bare_or-Gives : (o : Option (ℕ × String)) (text : String) → Gives (h_bare_or p o text part)
  h_bare_or-Gives (some (h, rest)) text = bare_hour-Gives h rest part
  h_bare_or-Gives none text = noon_or-Gives (p.noon text) text

  hm24_or-Gives : (o : Option (ℕ × ℕ × String)) (text : String) → Gives (hm24_or p o text part)
  hm24_or-Gives (some (h, m, rest)) text = clocked-Gives rest part h m
  hm24_or-Gives none text = h_bare_or-Gives (p.h_bare text) text

  h_ampm_or-Gives :
      (o : Option (ℕ × Bool × String)) (text : String) → Gives (h_ampm_or p o text part)
  h_ampm_or-Gives (some (h, pm, rest)) text = clocked-Gives rest part (h24 h pm) 0
  h_ampm_or-Gives none text = hm24_or-Gives (p.hm24 text) text

  hm_ampm_or-Gives :
      (o : Option (ℕ × ℕ × Bool × String)) (text : String) → Gives (hm_ampm_or p o text part)
  hm_ampm_or-Gives (some (h, m, pm, rest)) text = clocked-Gives rest part (h24 h pm) m
  hm_ampm_or-Gives none text = h_ampm_or-Gives (p.h_ampm text) text

-- Reading a time of day from any text either gives none, or a time within the day, which is assumed just
-- where the other half of the day is named as its alternative, or raises a plain `ValueError`.
pub clock_time-Gives : (p : ClockPatterns) (text : String) → Gives (clock_time p text)
unfolding clock_time
clock_time-Gives p text =
    let found = tonight_or p (p.tonight text) text in
    hm_ampm_or-Gives p found.1 (p.hm_ampm found.0) found.0

-- An hour with no "am" or "pm" is always read.
pub bare_hour-ne-raise :
    (h : ℕ) (text : String) (part : Option Part) (e : TimeError) → bare_hour h text part ≢ raise e
unfolding bare_hour make_time
bare_hour-ne-raise h text part e = ground arith
