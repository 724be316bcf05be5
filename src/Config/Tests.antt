-- ===== src/Config/Tests.antt =====
-- A table of two models.
use nd_mind.Base.{some, [], ◌∷◌, ◌≡◌, refl}
use nd_mind.Base.Dict.{lookup}
use nd_mind.Config.Prices.{
  ModelPrice, ModelRef, PriceTable, charged_tokens, cost, price_for, stand_in_price, weight,
}
use nd_mind.Config.Prices.Rounding.{half_even, half_up}

abbrev small : ModelPrice
small = record { input = 250000; cached_input = 25000; output = 2000000 }

abbrev large : ModelPrice
large = record { input = 3000000; cached_input = 300000; output = 15000000 }

abbrev small_ref : ModelRef
small_ref = record { provider = 1; model = 1 }

abbrev large_ref : ModelRef
large_ref = record { provider = 2; model = 7 }

-- The fake provider, standing in for the large model.
abbrev fake_ref : ModelRef
fake_ref = record { provider = 0; model = 7 }

abbrev table : PriceTable
table = record { baseline = small_ref; models = (1, (1, small) ∷ []) ∷ (2, (7, large) ∷ []) ∷ [] }

weighed :
    (weight table large_ref ≡ some 87273)
    × (charged_tokens table fake_ref 100 ≡ some 873)
    × (cost table large_ref 1000 0 333 ≡ some 799500)
unfolding weight charged_tokens cost price_for stand_in_price half_up half_even lookup
weighed = (refl, refl, refl)
