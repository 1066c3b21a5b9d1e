-- ===== src/Penalty/Tests.antt =====
-- Runs of the price arithmetic, and its theorems at concrete auctions.
use example_liquidity_layer.Prelude.{
  Option, arith, none, ok, refl, replicate, some, ℕ, ◌+◌, ◌<◌, ◌≡◌, ◌≤◌,
}
use example_liquidity_layer.Prelude.Int.{le_ℤ, pos, ◌*ℤ◌, ◌+ℤ◌, ◌-ℤ◌, ◌/ℤ◌}
use example_liquidity_layer.Uint64.{number, uint64_to_bigint}
use example_liquidity_layer.Penalty.{
  Accounts, AuctionParameters, compute_deposit_penalty, fetch_auction_parameters,
  penalty_after_grace,
}
use example_liquidity_layer.Auction.{AuctionInfo}
use example_liquidity_layer.Penalty.Laws.{IsSane}
use example_liquidity_layer.Penalty.Late.{compute_deposit_penalty_lem, deposit_penalty_bounds}

abbrev params : AuctionParameters
params = record {
  user_penalty_reward_bps = 250_000;
  initial_penalty_bps = 100_000;
  duration = 2;
  grace_period = 4;
  penalty_period = 10;
  min_offer_delta_bps = 20_000;
  security_deposit_base = 4_200_000;
  security_deposit_bps = 5_000;
}

abbrev accounts : Accounts
accounts = record {
  auction_config_id = ok 1;
  fetch_auction_config = λ id. ok (record { id = id; parameters = params });
}

abbrev info : AuctionInfo
info = record {
  config_id = 1;
  custody_token_bump = 255;
  vaa_sequence = pos 7;
  source_chain = 2;
  best_offer_token = replicate 32 1;
  initial_offer_token = replicate 32 2;
  start_slot = pos 100;
  amount_in = pos 990;
  security_deposit = pos 1000;
  offer_price = pos 10;
  redeemer_message_len = 0;
  destination_asset_info = none;
}

params-IsSane : IsSane params
params-IsSane = record { reward = omega arith; initial = omega arith; base = omega arith }

fetched : (id : Option ℕ) → fetch_auction_parameters accounts id ≡ ok params
unfolding fetch_auction_parameters
fetched none = refl
fetched (some id) = refl

-- Five slots after the grace period of an auction that started at slot 100.
five_late :
    compute_deposit_penalty accounts info (number (pos 111)) none
    ≡ ok (record { penalty = pos 413; user_reward = pos 137 })
unfolding compute_deposit_penalty fetch_auction_parameters uint64_to_bigint penalty_after_grace le_ℤ
    ◌-ℤ◌ ◌+ℤ◌ ◌*ℤ◌ ◌/ℤ◌
five_late = refl

compute_deposit_penalty_lem_example :
    compute_deposit_penalty accounts info (number (pos 111)) none
    ≡ ok (record { penalty = pos 413; user_reward = pos 137 })
compute_deposit_penalty_lem_example =
    compute_deposit_penalty_lem accounts none params 100 1000 info refl refl (fetched none)
      params-IsSane (omega arith) (omega arith) (number (pos 111)) 111 refl (omega arith)

deposit_penalty_bounds_example :
    (penalty reward : ℕ) × (compute_deposit_penalty accounts info (number (pos 116)) none
      ≡ ok (record { penalty = pos penalty; user_reward = pos reward }))
    × (penalty + reward ≤ 1000)
    × (116 ≤ 106 → penalty + reward ≡ 0)
    × (106 < 116 → 116 ≤ 116 → penalty + reward ≡ 1000)
deposit_penalty_bounds_example =
    deposit_penalty_bounds accounts none params 100 1000 info refl refl (fetched none) params-IsSane
      (omega arith) (omega arith) (number (pos 116)) 116 refl (omega arith)
