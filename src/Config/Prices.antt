-- ===== src/Config/Prices.antt =====
-- config/prices.py: what a model's tokens cost, and what they count as in a quota. Providers and
-- models are numbers; a price is in millionths of a dollar, per million tokens.
pub mod Rounding
pub mod Charges
use nd_mind.Base.{
  ℕ, ◌+◌, ◌*◌, Bool, true, false, not, ◌&&◌, ◌||◌, Option, none, some, List, [], ◌∷◌, ltb, ◌==◌,
  if◌then◌else◌, is_some,
}
use nd_mind.Base.Dict.{Dict, lookup}
use nd_mind.Config.Prices.Rounding.{half_even, half_up}

pub record ModelRef : Type 0 where
  pub provider : ℕ
  pub model : ℕ

pub record ModelPrice : Type 0 where
  pub input : ℕ
  pub cached_input : ℕ
  pub output : ℕ

pub record PriceTable : Type 0 where
  pub baseline : ModelRef
  pub models : Dict (Dict ModelPrice)

-- FAKE_PROVIDER
abbrev pub fake_provider : ℕ
fake_provider = 0

abbrev pub price_in : ℕ → Option (Dict ModelPrice) → Option ModelPrice
price_in model none = none
price_in model (some prices) = lookup model prices

abbrev cons_price : Option ModelPrice → List ModelPrice → List ModelPrice
cons_price none found = found
cons_price (some p) found = p ∷ found

-- The prices of a model in the tables of the other providers.
abbrev found_prices : ℕ → Dict (Dict ModelPrice) → List ModelPrice
found_prices model [] = []
found_prices model ((provider, prices) ∷ tables) =
    let rest = found_prices model tables in
    if provider == fake_provider then rest else cons_price (lookup model prices) rest

abbrev the_only : List ModelPrice → Option ModelPrice
the_only (p ∷ []) = some p
the_only _ = none

-- `_stand_in_price`
unfoldable pub stand_in_price : PriceTable → ℕ → Option ModelPrice
stand_in_price table model = the_only (found_prices model table.models)

abbrev or_stand_in : PriceTable → ModelRef → Option ModelPrice → Option ModelPrice
or_stand_in table ref (some p) = some p
or_stand_in table ref none =
    if ref.provider == fake_provider then stand_in_price table ref.model else none

-- `price_for`; none is the ConfigError.
unfoldable pub price_for : PriceTable → ModelRef → Option ModelPrice
price_for table ref = or_stand_in table ref (price_in ref.model (lookup ref.provider table.models))

-- `BLEND_INPUT_PER_OUTPUT * p.input + p.output`
abbrev pub blend : ModelPrice → ℕ
blend p = 3 * p.input + p.output

abbrev pub ratio : Option ModelPrice → Option ModelPrice → Option ℕ
ratio (some p) (some b) = some (half_up (10000 * blend p) (blend b))
ratio _ _ = none

-- `weight`, in ten thousandths; the division before it is exact to 28 digits, and taken as exact.
unfoldable pub weight : PriceTable → ModelRef → Option ℕ
weight table ref = ratio (price_for table ref) (price_for table table.baseline)

abbrev charged : ℕ → Option ℕ → Option ℕ
charged total none = none
charged total (some w) = some (half_up (total * w) 10000)

unfoldable pub charged_tokens : PriceTable → ModelRef → ℕ → Option ℕ
charged_tokens table ref total = charged total (weight table ref)

-- The tokens times their prices: millionths of a millionth of a dollar.
abbrev pub spend : ModelPrice → ℕ → ℕ → ℕ → ℕ
spend p input cached output = input * p.input + cached * p.cached_input + output * p.output

abbrev cost_at : Option ModelPrice → ℕ → ℕ → ℕ → Option ℕ
cost_at none input cached output = none
cost_at (some p) input cached output = some (half_even (spend p input cached output) 10000)

-- `cost`, in the quantum of `usd`: hundred millionths of a dollar, a half to the even one.
unfoldable pub cost : PriceTable → ModelRef → ℕ → ℕ → ℕ → Option ℕ
cost table ref input cached output = cost_at (price_for table ref) input cached output

-- `require`: whether no routed model lacks a price.
unfoldable pub require : PriceTable → List ModelRef → Bool
require table [] = true
require table (r ∷ refs) = is_some (price_for table r) && require table refs

abbrev not_free : Option ModelPrice → Bool
not_free none = false
not_free (some b) = ltb 0 (blend b)

-- The checks of `read_price_table` on a table that was read: its baseline has a price, not zero.
abbrev pub is_accepted : PriceTable → Bool
is_accepted table = not_free (price_for table table.baseline)
