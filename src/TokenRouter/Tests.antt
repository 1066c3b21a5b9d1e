-- ===== src/TokenRouter/Tests.antt =====
-- An order of 1000 for Polygon.

use example_liquidity_layer.Prelude.{error, replicate, throw, [], none, refl, some, ◌∷◌}
use example_liquidity_layer.Buffer.{Bytes}
use example_liquidity_layer.MatchingEngine.Fixture.{ledger, programs}
use example_liquidity_layer.TokenRouter.Fixture.{core_bridge, deployed, polygon, prepared, router}
use example_liquidity_layer.TokenRouter.{TokenRouter}
use example_liquidity_layer.TokenRouter.Market.{PlaceOrderAccounts}
use example_liquidity_layer.TokenRouter.Market.Placed.{Placeable}

-- A router whose orders are still to be prepared.
abbrev fresh_router : TokenRouter
fresh_router = record router {
  fetch_prepared_order = λ key. throw (error "Account does not exist");
}

abbrev redeemer : Bytes
redeemer = replicate 32 9

-- The order is placed by another key, which leaves out all that can be left out but the target chain.
abbrev placing : PlaceOrderAccounts
placing = record {
  payer = 7 ∷ [];
  prepared_order = 4 ∷ [];
  prepared_by = none;
  target_router_endpoint = none;
  target_chain = some 5;
  destination_domain = none;
}

placeable : Placeable router programs ledger core_bridge placing.prepared_order
unfolding polygon
placeable = record {
  order = prepared;
  stored = refl;
  custodian = deployed;
  custodian_stored = refl;
  not_paused = refl;
  is_chain = refl;
  target = polygon;
  domain = 0;
  by_cctp = refl;
}
