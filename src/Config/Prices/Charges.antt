-- ===== src/Config/Prices/Charges.antt =====
-- What config/prices.py charges.
use nd_mind.Base.{
  and-true, ℕ, ◌+◌, ◌*◌, ◌≤◌, true, Option-cases, some, List, [], ◌∷◌, ◌≡◌, refl, inl, inr, arith,
  is_some, All,
}
use nd_mind.Config.Prices.{
  ModelPrice, ModelRef, PriceTable, blend, charged_tokens, cost, is_accepted, price_for, require,
  spend, weight,
}
use nd_mind.Config.Prices.Rounding.{half_even, half_even-near, half_up-exact}

-- In a table that is accepted a token of the baseline counts as one, so what a call on it is
-- charged is the number of its tokens.
pub charged_tokens-baseline :
    (table : PriceTable) (total : ℕ)
    → is_accepted table ≡ true
    → charged_tokens table table.baseline total ≡ some total
unfolding charged_tokens weight
charged_tokens-baseline table total ok = elim (Option-cases (price_for table table.baseline)) [
  | inl e ↦ let bad = rw e at ok in cc
  | inr (b, e) ↦
      let good = rw e at ok in
      let one = half_up-exact 10000 (blend b) (ground (arith, good)) in
      rw (e, one, half_up-exact total 10000 (omega arith)) refl
]

-- Within half a hundred millionth of a dollar of what the tokens cost exactly.
abbrev pub Near : ModelPrice → ℕ → ℕ → ℕ → ℕ → Type 0
Near p input cached output c =
    (2 * spend p input cached output ≤ 2 * (c * 10000) + 10000)
    × (2 * (c * 10000) ≤ 2 * spend p input cached output + 10000)

abbrev pub HasCost : PriceTable → ℕ → ℕ → ℕ → ModelRef → Type 0
HasCost table input cached output ref =
    (p : ModelPrice) × (c : ℕ) × (price_for table ref ≡ some p)
    × (cost table ref input cached output ≡ some c)
    × Near p input cached output c

cost-Near :
    (table : PriceTable) (input cached output : ℕ) (ref : ModelRef)
    → is_some (price_for table ref) ≡ true
    → HasCost table input cached output ref
unfolding cost
cost-Near table input cached output ref e = elim (Option-cases (price_for table ref)) [
  | inl f ↦ let bad = rw f at e in cc
  | inr (p, f) ↦
      let n = spend p input cached output in (p, half_even n 10000, f, rw f refl, half_even-near n)
]

-- Where a table has a price for each routed model, each call on one has a cost, which is within half a
-- hundred millionth of a dollar of the sum of its tokens times their prices.
pub require-HasCost :
    (table : PriceTable) (refs : List ModelRef) (input cached output : ℕ)
    → require table refs ≡ true
    → All (HasCost table input cached output) refs
unfolding require
require-HasCost table [] input cached output e = tt
require-HasCost table (r ∷ refs) input cached output e =
    let both = and-true (is_some (price_for table r)) (require table refs) e in
    (
      cost-Near table input cached output r both.0,
      require-HasCost table refs input cached output both.1,
    )
