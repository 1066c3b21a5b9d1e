-- ===== src/Solver/Settle/Accepted/Tests.antt =====
-- The settlement of the solver on the small state of the chain.
use example_liquidity_layer.Prelude.{
  [], false, none, ok, refl, replicate, some, throw, range_error, true, ℕ, ◌+◌, ◌∷◌, ◌≡◌, ◌↔◌,
}
use example_liquidity_layer.Prelude.Int.{pos, ◌*ℤ◌, ◌+ℤ◌, ◌-ℤ◌, ◌/ℤ◌}
use example_liquidity_layer.Vaa.{
  ParsedVaa, fetch_vaa_account, fetch_encoded, byte_at, new_vaa_account, emitter_info, vaa_digest,
  vaa_hash, vaa_payload,
}
use example_liquidity_layer.Buffer.{
  read_uint_be, subarray, read_uint_le, write_uint_be, alloc, be_bytes, be_value, read,
}
use example_liquidity_layer.MatchingEngine.Settle.{
  settle_auction_complete_ixs, prepare_order_response_cctp_ix, settle_auction_complete_ix,
}
use example_liquidity_layer.AuctionHistory.{bytes_equal}
use example_liquidity_layer.MatchingEngine.Addresses.{
  router_endpoint_address, auction_address, prepared_order_response_address,
}
use example_liquidity_layer.Cctp.Programs.{
  first_nonce, receive_token_messenger_minter_message_accounts, remote_token_messenger_address,
  token_pair_address, used_nonces_address,
}
use example_liquidity_layer.Cctp.{burn_from, decode_burn, decode_message}
use example_liquidity_layer.Uint64.{vaa_hash_to_buffer, vaa_hash_to_uint8_array, low_bytes}
use example_liquidity_layer.Messages.{Layouts, try_parse_fast_market_order, decode}
use example_liquidity_layer.MatchingEngine.State.{PreparedOrderResponse}
use example_liquidity_layer.MatchingEngine.Onchain.{SettleAuctionCompleteAccepted}
use example_liquidity_layer.MatchingEngine.SettledBy.{named}
use example_liquidity_layer.MatchingEngine.Fixture.{
  auction_data, endpoint, info, ledger, order, program, programs,
}
use example_liquidity_layer.MatchingEngine.Fixture.Served.{fast_vaa, fast_vaa_in}
use example_liquidity_layer.Solver.Config.{ComputeUnitsConfig}
use example_liquidity_layer.Solver.Transactions.{PreparedTransaction, program_instruction}
use example_liquidity_layer.Solver.Settle.{
  handle_settle_auction, create_settle_tx, fetch_our_auction, recognize, settle_completed,
  settle_response, settle_with,
}
use example_liquidity_layer.Solver.Settle.Client.{Network, client_settling, client_settle_ixs}
use example_liquidity_layer.Solver.Settle.Accepted.{
  Answered, SettlesOnChain, handle_settle_auction-accepted,
}

abbrev layouts : Layouts
layouts = record {
  deserialize_deposit = λ bytes. throw range_error;
  serialize_deposit = λ d. throw range_error;
  deserialize_order = λ bytes. ok order;
  serialize_order = λ o. throw range_error;
  is_chain = λ chain. true;
}

-- Every account exists, and the calls are counted.
abbrev network : Network ℕ
network = record {
  posted_vaa_key = λ hash. 30 ∷ [];
  chain_cfg = λ chain. ok true;
  fetch_vaa = λ sequence w. (ok (record { vaa = some []; tx_hash = some "0xab" }), w + 1);
  is_recognized_token_account = λ key. true;
  fetch_evm_args = λ tx_hash w.
      (ok (record { encoded_cctp_message = replicate 248 0; cctp_attestation = some [] }), w + 1);
  account_exists = λ key w. (ok true, w + 1);
  post_vaa_txs = λ w. (ok [], w + 1);
  lookup_table = λ w. (ok (6 ∷ []), w + 1);
  encode = λ ix. program_instruction [];
}

abbrev vaa : ParsedVaa
vaa = record {
  emitter_chain = "Ethereum";
  emitter_address = 9 ∷ [];
  sequence = 3;
  timestamp = 1000;
  payload = 11 ∷ [];
  hash = 40 ∷ 41 ∷ [];
}

answered : Answered program programs ledger layouts (5 ∷ []) (32 ∷ []) network vaa 0
unfolding fast_vaa_in
answered = record {
  response = record { vaa = some []; tx_hash = some "0xab" };
  seen = 1;
  fetched = refl;
  bytes = [];
  vaa_is = refl;
  fast = vaa;
  parses = refl;
  posted = fast_vaa;
  same_digest = refl;
  auction = auction_data;
  stored = refl;
  info = info;
  has_info = refl;
  owner = 63 ∷ [];
  owned = refl;
}

abbrev units : ComputeUnitsConfig
units = record {
  verify_signatures = 60000;
  post_vaa = 100000;
  settle_auction_none_cctp = 1;
  settle_auction_none_local = 1;
  settle_auction_complete = 400000;
  initiate_auction = 250000;
}

abbrev settlement : PreparedTransaction
settlement = record {
  ixs = program_instruction [] ∷ program_instruction [] ∷ [];
  signers = (32 ∷ []) ∷ [];
  compute_units = 400000;
  fee_micro_lamports = 10;
  nonce_account = none;
  address_lookup_table_accounts = some ((6 ∷ []) ∷ []);
  tx_name = some "settleAuctionComplete";
  confirm_options = some (record { commitment = some "finalized"; skip_preflight = some false });
}

abbrev response : PreparedOrderResponse
response = record {
  fast_vaa_hash = 42 ∷ 40 ∷ 41 ∷ [];
  bump = 255;
  info = record {
    prepared_by = 32 ∷ [];
    base_fee_token = 60 ∷ [];
    fast_vaa_timestamp = 1000;
    source_chain = 5;
    base_fee = pos 2;
    init_auction_fee = pos 1;
    sender = [];
    redeemer = [];
    amount_in = pos 1000;
  };
  to_endpoint = endpoint.info;
  redeemer_message = [];
}

one_settlement :
    handle_settle_auction
      (client_settling program programs ledger layouts (5 ∷ []) (32 ∷ []) network)
      units
      "finalized"
      (32 ∷ [])
      vaa
      []
      0
    ≡ (ok (settlement ∷ []), 4)
unfolding handle_settle_auction create_settle_tx fetch_our_auction recognize settle_completed
    settle_response settle_with try_parse_fast_market_order decode read_uint_be subarray
    read_uint_le write_uint_be alloc be_bytes be_value read client_settle_ixs
    settle_auction_complete_ixs prepare_order_response_cctp_ix settle_auction_complete_ix
    fetch_vaa_account fetch_encoded byte_at new_vaa_account emitter_info vaa_digest vaa_hash
    vaa_payload bytes_equal router_endpoint_address auction_address prepared_order_response_address
    first_nonce receive_token_messenger_minter_message_accounts remote_token_messenger_address
    token_pair_address used_nonces_address burn_from decode_burn decode_message ◌*ℤ◌ ◌+ℤ◌ ◌-ℤ◌ ◌/ℤ◌
    vaa_hash_to_buffer vaa_hash_to_uint8_array low_bytes
one_settlement = refl

handle_settle_auction-accepted_example :
    (on_chain : SettlesOnChain program programs ledger layouts
      (5 ∷ [])
      (32 ∷ [])
      network
      answered
      (settlement ∷ []))
    × (SettleAuctionCompleteAccepted program ledger response on_chain.settle
        ↔ (named (32 ∷ []) on_chain.penalty (63 ∷ []) ≡ 32 ∷ []))
unfolding fast_vaa_in answered
handle_settle_auction-accepted_example =
    handle_settle_auction-accepted program programs ledger layouts (5 ∷ []) (32 ∷ []) network
      answered units "finalized" [] 4 settlement [] response one_settlement
      (record { fast_vaa_hash = refl; prepared_by = refl; fee_token = refl })
