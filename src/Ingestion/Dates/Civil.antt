-- ===== src/Ingestion/Dates/Civil.antt =====
-- A date's year, month and day, and that they give the date back.
use native.Mathlib.Nat.{add-zero, suc-add, add-suc}
use nd_mind.Base.{ℕ, zero, suc, ◌+◌, ◌-◌, ◌*◌, ◌/◌, ◌≤◌, ◌<◌, ◌≡◌, some, ap, arith}
use nd_mind.Ingestion.Dates.{
  is_leap, month_length, days_before_year, days_before_month, last_ordinal, date, find_year,
  year_of,
}

find_year-in :
    (fuel y n : ℕ)
    → days_before_year y < n
    → n ≤ days_before_year (y + fuel)
    → (days_before_year (find_year fuel y n) < n)
      × (n ≤ days_before_year (suc (find_year fuel y n)))
      × (y ≤ find_year fuel y n)
      × (find_year fuel y n ≤ y + fuel)
unfolding find_year
find_year-in zero y n lo hi = absurd (omega (arith, ap days_before_year (add-zero y)))
find_year-in (suc fuel) y n lo hi =
    ground (arith, find_year-in fuel (suc y) n, suc-add y fuel, add-suc y fuel)

years_of_366 : (k : ℕ) → days_before_year (suc k) ≤ k * 366
unfolding days_before_year
years_of_366 k = omega arith

-- The start of the search is 32 years off at most.
near : (k n : ℕ) → n ≤ k * 366 + 366 → n ≤ last_ordinal → n ≤ days_before_year (suc k + 32)
unfolding days_before_year
near k n h hi = omega arith

module _ (n : ℕ) (lo : 1 ≤ n) (hi : n ≤ last_ordinal) where
  found :
      (days_before_year (year_of n) < n)
      × (n ≤ days_before_year (suc (year_of n)))
      × (suc ((n - 1) / 366) ≤ year_of n)
      × (year_of n ≤ suc ((n - 1) / 366) + 32)
  unfolding year_of
  found =
      find_year-in 32 (suc ((n - 1) / 366)) n (omega (arith, years_of_366 ((n - 1) / 366)))
        (near ((n - 1) / 366) n (omega arith) hi)

  pub year_of-in : (days_before_year (year_of n) < n) × (n ≤ days_before_year (suc (year_of n)))
  year_of-in = (found.0, found.1)

  pub year_of_pos : 1 ≤ year_of n
  year_of_pos = omega (arith, found)

pub days_before_year_mono : (y z : ℕ) → y ≤ z → days_before_year y ≤ days_before_year z
unfolding days_before_year
days_before_year_mono y z h = omega arith

-- A later year begins after an earlier one's last day.
pub days_before_year-later :
    (y z : ℕ) → 1 ≤ y → y < z → days_before_year y + 365 ≤ days_before_year z
unfolding days_before_year
days_before_year-later y z h lt = omega arith

pub year_length :
    (y : ℕ) → 1 ≤ y → days_before_year (suc y) ≡ days_before_year y + days_before_month y 13
unfolding days_before_year days_before_month month_length is_leap
year_length y h = ground arith

days_before_month_mono :
    (y k m : ℕ) → days_before_month y (suc m) ≤ days_before_month y (suc (m + k))
unfolding days_before_month
days_before_month_mono y zero m = omega (arith, ap (λ n. days_before_month y (suc n)) (add-zero m))
days_before_month_mono y (suc k) m = rw (add-suc m) (omega (arith, days_before_month_mono y k m))

month_end :
    (y m : ℕ) → 1 ≤ m → m ≤ 12 → days_before_month y m + month_length y m ≤ days_before_month y 13
unfolding days_before_month
month_end y zero lo hi = elim lo [ ]
month_end y (suc m) lo hi =
    let k : suc m + (11 - m) ≡ 12 = omega arith in
    omega
      (arith, days_before_month_mono y (11 - m) (suc m), ap (λ n. days_before_month y (suc n)) k)

-- A date of a year lies in that year.
pub date-year :
    (y m d e : ℕ) → date y m d ≡ some e → (days_before_year y < e) × (e ≤ days_before_year (suc y))
unfolding date
date-year y m d e h = ground (arith, month_end y m, year_length y)
