-- ===== src/Solver/Pricing/Tests.antt =====
-- An order on which the theorem of the pricing is applied.
use example_liquidity_layer.Prelude.{arith, leb, ok, refl, ◌*◌, ◌+◌, ◌<◌, ◌≡◌, ◌≤◌}
use example_liquidity_layer.Prelude.Int.{pos}
use example_liquidity_layer.Uint64.{bigint, bn}
use example_liquidity_layer.Solver.Config.{PricingParameters}
use example_liquidity_layer.Solver.Pricing.{is_fee_high_enough, should_improve_offer}
use example_liquidity_layer.Solver.Pricing.Value.{fee_tests_agree}

-- A probability of 0.69 and an edge of 0.05, scaled.
abbrev pricing : PricingParameters
pricing = record {
  chain = 2;
  probability_scaled = ok (pos 6900);
  edge_pct_of_fv_scaled = ok (pos 500);
}

fee_tests_agree_example :
    (is_fee_high_enough (pos 1000) (pos 724) pricing
      ≡ ok (record { should_place_offer = leb 724 724; fv_with_edge = pos 724 }))
    × (should_improve_offer (bn (pos 1000)) (bigint (pos 724)) pricing ≡ ok (leb 724 724))
    × (690 ≤ 724)
    × (690 ≤ 1000)
    × (690 * 10000 ≤ 1000 * 6900)
    × (1000 * 6900 < (690 + 1) * 10000)
fee_tests_agree_example =
    fee_tests_agree pricing 6900 500 refl refl 1000 724 (bn (pos 1000)) (bigint (pos 724))
      (omega arith) refl refl (omega arith) (omega arith)
