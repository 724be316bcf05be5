-- ===== src/Metering/Store.antt =====
-- metering/adapters/inmemory.py: the spend counters, the runtime flag, the marks and the token
-- buckets. Providers, keys and identities are numbers; a moment is in microseconds, on the wall
-- clock since the first Python datetime and on the monotonic clock since its start.
pub mod Calls
use nd_mind.Base.{ℕ, ◌+◌, ◌-◌, ◌*◌, ◌/◌, ◌%◌, Bool, Option, List}
use nd_mind.Base.Dict.{Dict}

-- `utc_day`: days since the first of January of year 1.
abbrev pub utc_day : ℕ → ℕ
utc_day at = at / 86400000000

-- Days since the first of March of year 0, in the era of 400 years, its year and the year's day.
abbrev era_day : ℕ → ℕ
era_day day = (day + 306) % 146097

abbrev era_year : ℕ → ℕ
era_year d = (d - d / 1460 + d / 36524 - d / 146096) / 365

abbrev year_day : ℕ → ℕ
year_day d = d - (365 * era_year d + era_year d / 4 - era_year d / 100)

abbrev year_month : ℕ → ℕ
year_month d = (5 * year_day d + 2) / 153

-- `utc_month`: the months since March of year 0.
abbrev pub utc_month : ℕ → ℕ
utc_month at =
    let d = era_day (utc_day at) in
    4800 * ((utc_day at + 306) / 146097) + 12 * era_year d + year_month d

-- Midnight of the moment's day, and of the first day of its month.
abbrev pub day_start : ℕ → ℕ
day_start at = utc_day at * 86400000000

abbrev pub month_start : ℕ → ℕ
month_start at =
    let d = era_day (utc_day at) in
    (utc_day at - (year_day d - (153 * year_month d + 2) / 5)) * 86400000000

pub record SpendTotals : Type 0 where
  pub day : ℕ
  pub month : ℕ
  pub providers : Dict ℕ

-- What is left in a bucket, in parts of a token of which a minute's microseconds make one.
pub record Bucket : Type 0 where
  pub tokens : ℕ
  pub at : ℕ

pub record SpendStore : Type 0 where
  pub kill : Option Bool
  pub day : Dict ℕ
  pub month : Dict ℕ
  pub providers : Dict ℕ
  pub credit_out : Dict ℕ
  pub seen : Dict ℕ
  pub buckets : Dict Bucket
  pub daily : Dict (Dict ℕ)
  pub fail : Bool
