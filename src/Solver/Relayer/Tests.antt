-- ===== src/Solver/Relayer/Tests.antt =====
-- A relayer to which a finalized VAA is shown.

use example_liquidity_layer.Prelude.{
  [], false, none, ok, range_error, refl, some, throw, true, type_error, ℕ, ◌+◌, ◌∷◌, ◌≡◌, ◌⊎◌,
}
use example_liquidity_layer.Prelude.Int.{pos}
use example_liquidity_layer.Prelude.Maps.{get, int_key, nat_key}
use example_liquidity_layer.Buffer.{read, read_uint_be}
use example_liquidity_layer.Messages.{Layouts, decode, try_parse_slow_order_response}
use example_liquidity_layer.Vaa.{Sdk}
use example_liquidity_layer.Solver.Json.{undefined}
use example_liquidity_layer.Solver.AppConfig.{
  Platform, add_chains, is_fast_finality, new_app_config,
}
use example_liquidity_layer.Solver.Transactions.{PreparedTransaction, program_instruction}
use example_liquidity_layer.Solver.PlaceOffer.{Offers}
use example_liquidity_layer.Solver.Settle.{
  AuctionAccount, Settling, create_settle_tx, fetch_our_auction, handle_settle_auction, recognize,
  settle_completed, settle_response, settle_with,
}
use example_liquidity_layer.Solver.Relayer.{
  Observation, Relay, Relayer, on_observation, settle_auction,
}
use example_liquidity_layer.Solver.Relayer.Observed.{Opened, Settled, on_observation_lem}

abbrev sdk : Sdk
sdk = record {
  is_chain_id = λ n. true;
  to_chain_id = λ chain. 2;
  deserialize = λ bytes. ok (record {
    emitter_chain = "Ethereum";
    emitter_address = 9 ∷ [];
    sequence = 12;
    timestamp = 1700000000;
    payload = 11 ∷ [];
    hash = 78 ∷ [];
  });
  keccak256 = λ bytes. bytes;
}

-- A deposit is its byte; no order is read.
abbrev layouts : Layouts
layouts = record {
  deserialize_deposit = λ bytes. ok (record { payload_id = 2; payload = bytes });
  serialize_deposit = λ d. ok (1 ∷ []);
  deserialize_order = λ bytes. throw range_error;
  serialize_order = λ o. throw range_error;
  is_chain = λ chain. true;
}

abbrev platform : Platform
platform = record {
  to_chain_id = λ chain. 2;
  is_evm = λ chain. true;
  core_bridge = λ environment chain. none;
  to_public_key = λ v. throw type_error;
  associated_token = λ owner. ok owner;
}

abbrev offers : Offers ℕ
offers = record {
  sdk = sdk;
  accounts = record {
    auction_config_id = throw type_error;
    fetch_auction_config = λ id. throw type_error;
  };
  posted_vaa_key = λ hash. 1 ∷ hash;
  auction_address = λ hash. 2 ∷ hash;
  router_endpoint_address = λ chain. ok (chain ∷ []);
  account_exists = λ key w. (ok false, w + 1);
  is_balance_sufficient = λ owner amount w. (ok true, w + 1);
  post_vaa_txs = λ w. (ok [], w + 1);
  initial_offer_ixs = λ places price total payer w. (ok [], w + 1);
}

-- An auction that one of our accounts won, and that is completed.
abbrev auction : AuctionAccount
auction = record {
  status = record {
    not_started = false;
    active = false;
    completed = some (pos 110);
    settled = none;
  };
  info = some (record {
    config_id = 0;
    custody_token_bump = 255;
    vaa_sequence = pos 12;
    source_chain = 2;
    best_offer_token = 8 ∷ [];
    initial_offer_token = 8 ∷ [];
    start_slot = pos 100;
    amount_in = pos 1000;
    security_deposit = pos 4200005;
    offer_price = pos 100;
    redeemer_message_len = 0;
    destination_asset_info = none;
  });
}

abbrev settling : Settling ℕ
settling = record {
  sdk = sdk;
  posted_vaa_key = λ hash. 1 ∷ hash;
  auction_address = λ hash. 2 ∷ hash;
  chain_cfg = λ chain. ok true;
  fetch_vaa =
      λ sequence w. (ok (record { vaa = some (sequence ∷ []); tx_hash = some "0xab" }), w + 1);
  is_fast_order = λ payload. true;
  fetch_auction = λ place w. (ok auction, w + 1);
  is_recognized_token_account = λ key. true;
  fetch_evm_args =
      λ tx_hash w. (ok (record { encoded_cctp_message = []; cctp_attestation = some [] }), w + 1);
  account_exists = λ key w. (ok true, w + 1);
  post_vaa_txs = λ w. (ok [], w + 1);
  lookup_table = λ w. (ok (6 ∷ []), w + 1);
  settle_ixs = λ places best args w. (ok (program_instruction best ∷ []), w + 1);
}

abbrev relayer : Relayer ℕ
relayer = record {
  platform = platform;
  config = new_app_config platform "Testnet" [] [] undefined [];
  scaled = λ pricing. record {
    chain = 2;
    probability_scaled = throw range_error;
    edge_pct_of_fv_scaled = throw range_error;
  };
  layouts = layouts;
  offers = offers;
  settling = settling;
  units = record {
    verify_signatures = 60000;
    post_vaa = 100000;
    settle_auction_none_cctp = 1;
    settle_auction_none_local = 1;
    settle_auction_complete = 400000;
    initiate_auction = 250000;
  };
  commitment = "finalized";
  payer = 5 ∷ [];
}

abbrev seen : Observation
seen = record {
  raw = [];
  parsed = record {
    emitter_chain = "Ethereum";
    emitter_address = 9 ∷ [];
    sequence = 11;
    timestamp = 1700000000;
    payload = 1 ∷ [];
    hash = 77 ∷ [];
  };
  consistency_level = 1;
}

abbrev settlement : PreparedTransaction
settlement = record {
  ixs = program_instruction (8 ∷ []) ∷ [];
  signers = (5 ∷ []) ∷ [];
  compute_units = 400000;
  fee_micro_lamports = 10;
  nonce_account = none;
  address_lookup_table_accounts = some ((6 ∷ []) ∷ []);
  tx_name = some "settleAuctionComplete";
  confirm_options = some (record { commitment = some "finalized"; skip_preflight = some false });
}

one_batch : on_observation relayer 1700000100 seen 0 ≡ (ok (settlement ∷ []), 6)
unfolding on_observation settle_auction is_fast_finality new_app_config add_chains get
    try_parse_slow_order_response decode read_uint_be read handle_settle_auction settle_response
    settle_completed settle_with create_settle_tx fetch_our_auction recognize
one_batch = refl

on_observation_lem_example :
    Opened relayer 1700000100 seen 0 (settlement ∷ [])
    ⊎ Settled relayer 1700000100 seen 0 (settlement ∷ [])
on_observation_lem_example = on_observation_lem relayer 1700000100 seen 0 6 settlement [] one_batch

abbrev start : Relay ℕ
start = record { world = 0; transaction_batch_queue = []; sent = [] }
