-- ===== src/Metering/Tests.antt =====
-- The gate at concrete moments: limits of half a dollar a day, two providers, one person.
use nd_mind.Base.{ℕ, ◌+◌, ◌*◌, ◌≤◌, true, false, Option, none, some, [], ◌∷◌, ◌≡◌, refl, arith}
use nd_mind.Base.Dict.{Dict, insert, lookup}
use nd_mind.Base.{List}
use nd_mind.Metering.Ledger.{Implements, spend_all, spend_all-Implements}
use nd_mind.Metering.Quota.{QuotaLimits, Spent, Tier, usage}
use nd_mind.Metering.Store.{SpendStore, month_start}
use nd_mind.Metering.Store.Calls.{Clocks, Gate, ◌>>◌, totals, totals_of}
use nd_mind.Metering.Limits.{BlockReason, SpendLimits}
use nd_mind.Metering.Gate.{app_block, guest_block, kill_switch_on, spent, turn_block, used_up, warn}
use nd_mind.Metering.Limits.{cap_block}
use nd_mind.Metering.AppBlock.{IsOpen}
use nd_mind.Metering.Guarantees.{blocks, turn_block-IsOpen, turn_block-closed}
use nd_mind.Metering.RateLimit.{admitted, rate_limited-bound}

-- Noon of the 29th of September 2026, and 100 seconds of the monotonic clock; it stands still.
abbrev noon : ℕ
noon = 63926280000000000

abbrev clocks : Clocks
clocks = record { monotonic = λ n. 100000000; wall = λ n. noon }

abbrev limits : SpendLimits
limits = record {
  daily_usd = 50000000;
  monthly_usd = 500000000;
  warn_ratio = 800000;
  credits_usd = [];
  credit_since = none;
  kill_switch = false;
  providers = 1 ∷ 2 ∷ [];
  guest_daily_usd = some 10000000;
}

abbrev fresh_store : SpendStore
fresh_store = record {
  kill = none;
  day = [];
  month = [];
  providers = [];
  credit_out = [];
  seen = [];
  buckets = [];
  daily = [];
  fail = false;
}

abbrev guests : ℕ → Option ℕ
guests since = some 9999999

abbrev gate : Gate
gate = record {
  store = fresh_store;
  flag = none;
  guest_spend = some guests;
  warned = [];
  readings = 0;
}

abbrev down : Gate
down = record gate { store = record fresh_store { fail = true } }

abbrev allowances : QuotaLimits
allowances = record { guest = 10; standard = 250; premium = 1000 }

abbrev some_spent : Spent
some_spent = record { usd = 249; tokens = 12 }

month_of_noon : (month_start noon ≡ 63923817600000000)
month_of_noon = refl

passes_turn :
    (turn_block clocks limits (some (usage allowances Tier.standard some_spent)) true gate).0
    ≡ some none
unfolding turn_block app_block guest_block kill_switch_on used_up cap_block totals lookup
passes_turn = refl

cap_reached :
    ((spent clocks limits 1 50000000 >> app_block clocks limits) gate).0
    ≡ some (
        some
          (record { reason = BlockReason.daily_cap; limit = some 50000000; value = some 50000000 }))
unfolding app_block kill_switch_on used_up cap_block totals lookup insert spent warn
cap_reached = refl

turn_block-closed_example : blocks (turn_block clocks limits none true down).0 ≡ true
turn_block-closed_example = turn_block-closed clocks limits none true down refl

turn_block-IsOpen_example : IsOpen clocks limits gate (totals_of noon fresh_store)
turn_block-IsOpen_example =
    turn_block-IsOpen clocks limits (some (usage allowances Tier.standard some_spent)) true gate
      passes_turn

abbrev ledger : ℕ → Option (Dict ℕ)
ledger since = some ((1, 7) ∷ (2, 5) ∷ [])

rate_limited-bound_example :
    admitted clocks limits 7 2 (7 ∷ 8 ∷ 7 ∷ 7 ∷ []) gate * 60000000 ≤ 2 * 60000000 + 0 * 2
unfolding lookup
rate_limited-bound_example =
    rate_limited-bound clocks limits 7 2 (7 ∷ 8 ∷ 7 ∷ 7 ∷ []) gate (λ n. omega arith) refl refl

abbrev costs : List (ℕ × ℕ)
costs = (1, 42) ∷ (2, 7) ∷ (1, 8) ∷ []

fresh_store-Implements : Implements clocks limits [] fresh_store
unfolding lookup
fresh_store-Implements = record {
  up = refl;
  day = λ at. refl;
  month = λ at. refl;
  provider = λ p. refl;
}

spend_all-Implements_example :
    Implements clocks limits
      (spend_all clocks limits costs gate []).1
      (spend_all clocks limits costs gate []).0.store
spend_all-Implements_example =
    spend_all-Implements clocks limits costs gate [] fresh_store-Implements
