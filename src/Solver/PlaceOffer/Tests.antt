-- ===== src/Solver/PlaceOffer/Tests.antt =====
-- A network on which the theorems of opening an auction are applied.

use example_liquidity_layer.Prelude.{
  Option, [], false, none, ok, refl, some, true, ℕ, ◌+◌, ◌∷◌, ◌≡◌,
}
use example_liquidity_layer.Prelude.Int.{le_ℤ, pos, ◌*ℤ◌, ◌+ℤ◌, ◌/ℤ◌}
use example_liquidity_layer.Uint64.{uint64_to_bigint}
use example_liquidity_layer.Penalty.{
  AuctionParameters, compute_notional_security_deposit, fetch_auction_parameters,
}
use example_liquidity_layer.Vaa.{ParsedVaa}
use example_liquidity_layer.Solver.Config.{ComputeUnitsConfig, PricingParameters}
use example_liquidity_layer.Solver.Pricing.{is_fee_high_enough, value_with_edge}
use example_liquidity_layer.Solver.Transactions.{PreparedTransaction, program_instruction}
use example_liquidity_layer.Solver.PlaceOffer.{
  FastOrder, Offers, get_place_initial_offer_accounts, handle_place_initial_offer, offer_if_open,
  offer_if_wanted, offer_with_deposit, place_initial_offer_tx,
}
use example_liquidity_layer.Solver.PlaceOffer.Txs.{
  NoAuction, OpensAuction, WorthIt, handle_place_initial_offer_lem,
}

abbrev params : AuctionParameters
params = record {
  user_penalty_reward_bps = 250_000;
  initial_penalty_bps = 100_000;
  duration = 2;
  grace_period = 4;
  penalty_period = 10;
  min_offer_delta_bps = 20_000;
  security_deposit_base = 4_200_000;
  security_deposit_bps = 5_000;
}

abbrev vaa : ParsedVaa
vaa = record {
  emitter_chain = "Ethereum";
  emitter_address = 9 ∷ [];
  sequence = 11;
  timestamp = 1700000000;
  payload = [];
  hash = 77 ∷ [];
}

-- No account exists, and the calls are counted.
abbrev network : Offers ℕ
network = record {
  sdk = record {
    is_chain_id = λ n. true;
    to_chain_id = λ chain. 2;
    deserialize = λ bytes. ok vaa;
    keccak256 = λ bytes. bytes;
  };
  accounts = record {
    auction_config_id = ok 2;
    fetch_auction_config = λ id. ok (record { id = id; parameters = params });
  };
  posted_vaa_key = λ hash. 1 ∷ hash;
  auction_address = λ hash. 2 ∷ hash;
  router_endpoint_address = λ chain. ok (chain ∷ []);
  account_exists = λ key w. (ok false, w + 1);
  is_balance_sufficient = λ owner amount w. (ok true, w + 1);
  post_vaa_txs = λ w. (ok [], w + 1);
  initial_offer_ixs = λ places price total payer w. (ok (program_instruction [] ∷ []), w + 1);
}

abbrev units : ComputeUnitsConfig
units = record {
  verify_signatures = 60000;
  post_vaa = 100000;
  settle_auction_none_cctp = 1;
  settle_auction_none_local = 1;
  settle_auction_complete = 1;
  initiate_auction = 250000;
}

abbrev order : FastOrder
order = record { amount_in = pos 1000; max_fee = pos 800; target_chain = 6 }

abbrev pricing : Option PricingParameters
pricing =
    some (record {
      chain = 2;
      probability_scaled = ok (pos 6900);
      edge_pct_of_fv_scaled = ok (pos 500);
    })

abbrev offer : PreparedTransaction
offer = record {
  ixs = program_instruction [] ∷ [];
  signers = (5 ∷ []) ∷ [];
  compute_units = 250000;
  fee_micro_lamports = 10;
  nonce_account = none;
  address_lookup_table_accounts = none;
  tx_name = some "placeInitialOffer";
  confirm_options = some (record { commitment = some "finalized"; skip_preflight = some true });
}

one_offer :
    handle_place_initial_offer network units "finalized" pricing [] 2 order (5 ∷ []) 0
    ≡ (ok (offer ∷ []), 4)
unfolding handle_place_initial_offer get_place_initial_offer_accounts offer_if_open offer_if_wanted
    offer_with_deposit place_initial_offer_tx is_fee_high_enough value_with_edge uint64_to_bigint
    compute_notional_security_deposit fetch_auction_parameters le_ℤ ◌+ℤ◌ ◌*ℤ◌ ◌/ℤ◌
one_offer = refl

handle_place_initial_offer_lem_example :
    (unopened : NoAuction network units "finalized" order (5 ∷ []) [] 2 0) × WorthIt network units
      "finalized" order
      (5 ∷ [])
      pricing
    × OpensAuction network units "finalized" order (5 ∷ []) unopened.places (offer ∷ [])
handle_place_initial_offer_lem_example =
    handle_place_initial_offer_lem network units "finalized" order (5 ∷ []) pricing [] 2 0 4 offer
      [] one_offer
