-- ===== src/Solver/PlaceOffer/Accepted/Tests.antt =====
-- The offer of the solver on the small state of the chain.
use example_liquidity_layer.Prelude.{Option, [], false, none, ok, refl, some, true, ℕ, ◌+◌, ◌∷◌}
use example_liquidity_layer.Prelude.Int.{pos}
use example_liquidity_layer.MatchingEngine.Fixture.{before_auction, program}
use example_liquidity_layer.MatchingEngine.Fixture.Served.{fast_vaa_in, missing}
use example_liquidity_layer.Solver.Config.{ComputeUnitsConfig, PricingParameters}
use example_liquidity_layer.Solver.Transactions.{PreparedTransaction, program_instruction}
use example_liquidity_layer.Solver.PlaceOffer.Client.{Network}
use example_liquidity_layer.Solver.PlaceOffer.Accepted.{Posted}

-- No account exists, and the calls are counted.
abbrev network : Network ℕ
network = record {
  posted_vaa_key = λ hash. 30 ∷ [];
  account_exists = λ key w. (ok false, w + 1);
  is_balance_sufficient = λ owner amount w. (ok true, w + 1);
  post_vaa_txs = λ w. (ok [], w + 1);
  encode = λ ix. program_instruction [];
}

posted : Posted program before_auction before_auction network [] 2 1000 50 5
unfolding fast_vaa_in
posted = record {
  parsed = record {
    emitter_chain = "Ethereum";
    emitter_address = 9 ∷ [];
    sequence = 3;
    timestamp = 1000;
    payload = 11 ∷ [];
    hash = 40 ∷ 41 ∷ [];
  };
  parses = refl;
  posted = fast_vaa_in missing;
  same_digest = refl;
  same_source = refl;
  same_target = refl;
  same_amount = refl;
  same_fee = refl;
}

abbrev units : ComputeUnitsConfig
units = record {
  verify_signatures = 60000;
  post_vaa = 100000;
  settle_auction_none_cctp = 1;
  settle_auction_none_local = 1;
  settle_auction_complete = 1;
  initiate_auction = 250000;
}

abbrev pricing : Option PricingParameters
pricing =
    some (record {
      chain = 2;
      probability_scaled = ok (pos 400);
      edge_pct_of_fv_scaled = ok (pos 500);
    })

abbrev offer : PreparedTransaction
offer = record {
  ixs = program_instruction [] ∷ program_instruction [] ∷ [];
  signers = (31 ∷ []) ∷ [];
  compute_units = 250000;
  fee_micro_lamports = 10;
  nonce_account = none;
  address_lookup_table_accounts = none;
  tx_name = some "placeInitialOffer";
  confirm_options = some (record { commitment = some "finalized"; skip_preflight = some true });
}
