-- ===== src/Solver/Pricing.antt =====
-- What an order is worth: isFeeHighEnough (solver/src/utils/placeInitialOffer.ts) and shouldImproveOffer
-- (solver/src/improveOffer/app.ts).
pub mod Value
mod Tests
use example_liquidity_layer.Prelude.{Bool, Result, false, if◌then◌else◌, not, ok, true, ◌>>=◌, ◌>>◌}
use example_liquidity_layer.Prelude.Int.{le_ℤ, pos, ℤ, ◌*ℤ◌, ◌+ℤ◌, ◌/ℤ◌}
use example_liquidity_layer.Uint64.{Uint64, uint64_to_bigint}
use example_liquidity_layer.Solver.Config.{PricingParameters}

abbrev pub precision : ℤ
precision = pos 10000

-- The fair value of an order, and what the edge adds to it.
unfoldable pub value_with_edge : ℤ → PricingParameters → Result ℤ
value_with_edge amount_in pricing = do
  probability ← pricing.probability_scaled
  let fair_value = amount_in *ℤ probability /ℤ precision
  edge ← pricing.edge_pct_of_fv_scaled
  ok (fair_value +ℤ fair_value *ℤ edge /ℤ precision)

pub record FeeCheck : Type 0 where
  pub should_place_offer : Bool
  pub fv_with_edge : ℤ

-- `fairValueWithEdge > fastOrder.maxFee` is that it is not at most the fee.
unfoldable pub is_fee_high_enough : ℤ → ℤ → PricingParameters → Result FeeCheck
unfolding value_with_edge
is_fee_high_enough amount_in max_fee pricing = do
  value ← value_with_edge amount_in pricing
  ok (
      if not (le_ℤ value max_fee)
      then record { should_place_offer = false; fv_with_edge = value }
      else record { should_place_offer = true; fv_with_edge = value })

unfoldable pub should_improve_offer : Uint64 → Uint64 → PricingParameters → Result Bool
unfolding value_with_edge
should_improve_offer amount_in max_offer_price_allowed pricing = do
  amount ← uint64_to_bigint amount_in
  value ← value_with_edge amount pricing
  price ← uint64_to_bigint max_offer_price_allowed
  ok (le_ℤ value price)
