-- ===== src/Config/Prices/Rounding.antt =====
-- The roundings of a quotient that config/prices.py asks of decimals.
use nd_mind.Base.{ℕ, ◌+◌, ◌*◌, ◌/◌, ◌%◌, ◌≤◌, ◌<◌, ltb, ◌==◌, if◌then◌else◌, ◌≡◌, arith}
use native.Mathlib.Nat.{div-eq_of_lt-le}

-- ROUND_HALF_UP
unfoldable pub half_up : ℕ → ℕ → ℕ
half_up n d = (2 * n + d) / (2 * d)

-- ROUND_HALF_EVEN, the default.
unfoldable pub half_even : ℕ → ℕ → ℕ
half_even n d =
    let q = n / d in
    let r = n % d in
    if ltb (2 * r) d then q else if ltb d (2 * r) then q + 1 else if q % 2 == 0 then q else q + 1

-- A whole number of units is not rounded.
pub half_up-exact : (k d : ℕ) → 0 < d → half_up (k * d) d ≡ k
unfolding half_up
half_up-exact k d p = div-eq_of_lt-le (2 * d) (grind arith) (grind arith)

-- At most half a unit is lost or added.
pub half_even-near :
    (n : ℕ)
    → (2 * n ≤ 2 * (half_even n 10000 * 10000) + 10000)
      × (2 * (half_even n 10000 * 10000) ≤ 2 * n + 10000)
unfolding half_even
half_even-near n = ground arith
