-- ===== src/Ingestion/Time/Clocks.antt =====
-- ingestion/time.py: a time or a part of the day taken out of a text. A time of day is a number of
-- microseconds; what a pattern takes out of the text comes with what is left of it.
pub mod Hours
use nd_mind.Base.{
  ℕ, ◌+◌, ◌*◌, ◌%◌, String, Bool, true, false, ◌&&◌, ◌||◌, Option, none, some, ltb, leb, ◌==◌,
  if◌then◌else◌,
}
use nd_mind.Ingestion.Result.{Result, ok, raise, TimeError, ◌>>=◌}
use nd_mind.Ingestion.Time.Spans.{minute_us}

pub data Part : Type 0 where
  morning afternoon evening night : Part

-- `_ClockTime`
pub record ClockTime : Type 0 where
  pub value : ℕ
  pub assumed : Bool
  pub alternative : Option ℕ

-- What `_clock_time` returns.
pub record Clocked : Type 0 where
  pub text : String
  pub time : Option ClockTime
  pub part : Option Part

pub record ClockPatterns : Type 0 where
  -- the text with "tonight" or "last night" replaced by its day
  pub tonight : String → Option String
  pub last_night : String → Option String
  pub day_part : String → Option (Part × String)
  -- an hour, a minute and whether it is "pm"
  pub hm_ampm : String → Option (ℕ × ℕ × Bool × String)
  pub h_ampm : String → Option (ℕ × Bool × String)
  pub hm24 : String → Option (ℕ × ℕ × String)
  pub h_bare : String → Option (ℕ × String)
  pub noon : String → Option String
  pub midday : String → Option String
  pub midnight : String → Option String

-- `time(hour, minute)`
unfoldable pub make_time : ℕ → ℕ → Result ℕ
make_time hour minute =
    if ltb hour 24 && ltb minute 60
    then ok ((hour * 60 + minute) * minute_us)
    else raise TimeError.value_error

-- `_h24`
abbrev pub h24 : ℕ → Bool → ℕ
h24 hour pm = let h = hour % 12 in if pm then h + 12 else h

abbrev exactly : ℕ → ClockTime
exactly t = record { value = t; assumed = false; alternative = none }

abbrev pub clocked : String → Option Part → Result ℕ → Result Clocked
clocked text part r = r >>= λ t. ok (record { text = text; time = some (exactly t); part = part })

abbrev in_second_half : Option Part → Bool
in_second_half (some Part.evening) = true
in_second_half (some Part.night) = true
in_second_half (some Part.afternoon) = true
in_second_half _ = false

abbrev is_morning : Option Part → Bool
is_morning (some Part.morning) = true
is_morning _ = false

abbrev either_half : ℕ → String → Option Part → ℕ → ℕ → Clocked
either_half hour text part am pm = record {
  text = text;
  time = some (record {
    value = if leb hour 6 then pm else am;
    assumed = true;
    alternative = some (if leb hour 6 then am else pm);
  });
  part = part;
}

-- An hour with no "am" or "pm".
unfoldable pub bare_hour : ℕ → String → Option Part → Result Clocked
bare_hour hour text part =
    if ltb 12 hour || hour == 0
    then clocked text part (make_time (hour % 24) 0)
    else if in_second_half part && ltb hour 12
    then clocked text part (make_time (hour + 12) 0)
    else if is_morning part
    then clocked text part (make_time hour 0)
    else if hour == 12
    then clocked text part (make_time 12 0)
    else (make_time hour 0 >>= λ am.
        make_time (hour + 12) 0 >>= λ pm. ok (either_half hour text part am pm))

-- The part of the day and the text without it.
abbrev part_or : Option (Part × String) → String → String × Option Part
part_or none text = (text, none)
part_or (some (p, rest)) text = (rest, some p)

abbrev last_night_or : ClockPatterns → Option String → String → String × Option Part
last_night_or p (some rest) text = (rest, some Part.night)
last_night_or p none text = part_or (p.day_part text) text

abbrev pub tonight_or : ClockPatterns → Option String → String → String × Option Part
tonight_or p (some rest) text = (rest, some Part.night)
tonight_or p none text = last_night_or p (p.last_night text) text

abbrev pub midnight_or : Option String → String → Option Part → Result Clocked
midnight_or (some rest) text part = clocked rest part (make_time 0 0)
midnight_or none text part = ok (record { text = text; time = none; part = part })

abbrev pub midday_or : ClockPatterns → Option String → String → Option Part → Result Clocked
midday_or p (some rest) text part = clocked rest part (make_time 12 0)
midday_or p none text part = midnight_or (p.midnight text) text part

abbrev pub noon_or : ClockPatterns → Option String → String → Option Part → Result Clocked
noon_or p (some rest) text part = clocked rest part (make_time 12 0)
noon_or p none text part = midday_or p (p.midday text) text part

abbrev pub h_bare_or : ClockPatterns → Option (ℕ × String) → String → Option Part → Result Clocked
h_bare_or p (some (hour, rest)) text part = bare_hour hour rest part
h_bare_or p none text part = noon_or p (p.noon text) text part

abbrev pub hm24_or : ClockPatterns → Option (ℕ × ℕ × String) → String → Option Part → Result Clocked
hm24_or p (some (hour, minute, rest)) text part = clocked rest part (make_time hour minute)
hm24_or p none text part = h_bare_or p (p.h_bare text) text part

abbrev pub h_ampm_or :
    ClockPatterns → Option (ℕ × Bool × String) → String → Option Part → Result Clocked
h_ampm_or p (some (hour, pm, rest)) text part = clocked rest part (make_time (h24 hour pm) 0)
h_ampm_or p none text part = hm24_or p (p.hm24 text) text part

abbrev pub hm_ampm_or :
    ClockPatterns → Option (ℕ × ℕ × Bool × String) → String → Option Part → Result Clocked
hm_ampm_or p (some (hour, minute, pm, rest)) text part =
    clocked rest part (make_time (h24 hour pm) minute)
hm_ampm_or p none text part = h_ampm_or p (p.h_ampm text) text part

-- `_clock_time`
unfoldable pub clock_time : ClockPatterns → String → Result Clocked
clock_time p text =
    let (rest, part) = tonight_or p (p.tonight text) text in hm_ampm_or p (p.hm_ampm rest) rest part
