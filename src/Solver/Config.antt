-- ===== src/Solver/Config.antt =====
-- The solver's configuration (solver/src/utils/config.ts).
use example_liquidity_layer.Prelude.Int.{ℤ}
use example_liquidity_layer.Prelude.{Result, ℕ}

pub record ComputeUnitsConfig : Type 0 where
  pub verify_signatures : ℕ
  pub post_vaa : ℕ
  pub settle_auction_none_cctp : ℕ
  pub settle_auction_none_local : ℕ
  pub settle_auction_complete : ℕ
  pub initiate_auction : ℕ

-- The two numbers are doubles; what the program uses of them is `BigInt(x * 10000)`, which is a RangeError
-- where the double product is no integer.
pub record PricingParameters : Type 0 where
  pub chain : ℕ
  pub probability_scaled : Result ℤ
  pub edge_pct_of_fv_scaled : Result ℤ
