-- ===== src/Solver/Settle/Tests.antt =====
-- A network on which the theorem of the settlement is applied.

use example_liquidity_layer.Prelude.{[], false, none, ok, refl, some, true, ℕ, ◌+◌, ◌∷◌, ◌≡◌}
use example_liquidity_layer.Prelude.Int.{pos}
use example_liquidity_layer.Auction.{AuctionInfo}
use example_liquidity_layer.Vaa.{ParsedVaa}
use example_liquidity_layer.Solver.Config.{ComputeUnitsConfig}
use example_liquidity_layer.Solver.Transactions.{PreparedTransaction, program_instruction}
use example_liquidity_layer.Solver.Settle.{
  AuctionAccount, Settling, create_settle_tx, fetch_our_auction, handle_settle_auction, recognize,
  settle_completed, settle_response, settle_with,
}
use example_liquidity_layer.Solver.Settle.Txs.{
  FastVaa, Settleable, Settles, handle_settle_auction_lem,
}

abbrev info : AuctionInfo
info = record {
  config_id = 1;
  custody_token_bump = 255;
  vaa_sequence = pos 12;
  source_chain = 2;
  best_offer_token = 8 ∷ [];
  initial_offer_token = 8 ∷ [];
  start_slot = pos 100;
  amount_in = pos 990;
  security_deposit = pos 1000;
  offer_price = pos 10;
  redeemer_message_len = 0;
  destination_asset_info = none;
}

abbrev auction : AuctionAccount
auction = record {
  status = record {
    not_started = false;
    active = false;
    completed = some (pos 110);
    settled = none;
  };
  info = some info;
}

abbrev parsed : ParsedVaa
parsed = record {
  emitter_chain = "Ethereum";
  emitter_address = 9 ∷ [];
  sequence = 11;
  timestamp = 1700000000;
  payload = [];
  hash = 77 ∷ [];
}

-- The finalized VAA is posted, and the calls are counted.
abbrev network : Settling ℕ
network = record {
  sdk = record {
    is_chain_id = λ n. true;
    to_chain_id = λ chain. 2;
    deserialize = λ bytes. ok parsed;
    keccak256 = λ bytes. bytes;
  };
  posted_vaa_key = λ hash. 1 ∷ hash;
  auction_address = λ hash. 2 ∷ hash;
  chain_cfg = λ chain. ok true;
  fetch_vaa =
      λ sequence w. (ok (record { vaa = some (sequence ∷ []); tx_hash = some "0xab" }), w + 1);
  is_fast_order = λ payload. true;
  fetch_auction = λ place w. (ok auction, w + 1);
  is_recognized_token_account = λ key. true;
  fetch_evm_args =
      λ tx_hash w. (ok (record { encoded_cctp_message = []; cctp_attestation = some [] }), w + 1);
  account_exists = λ key w. (ok true, w + 1);
  post_vaa_txs = λ w. (ok [], w + 1);
  lookup_table = λ w. (ok (6 ∷ []), w + 1);
  settle_ixs = λ places best args w. (ok (program_instruction best ∷ []), w + 1);
}

abbrev units : ComputeUnitsConfig
units = record {
  verify_signatures = 60000;
  post_vaa = 100000;
  settle_auction_none_cctp = 1;
  settle_auction_none_local = 1;
  settle_auction_complete = 400000;
  initiate_auction = 250000;
}

abbrev settlement : PreparedTransaction
settlement = record {
  ixs = program_instruction (8 ∷ []) ∷ [];
  signers = (5 ∷ []) ∷ [];
  compute_units = 400000;
  fee_micro_lamports = 10;
  nonce_account = none;
  address_lookup_table_accounts = some ((6 ∷ []) ∷ []);
  tx_name = some "settleAuctionComplete";
  confirm_options = some (record { commitment = some "finalized"; skip_preflight = some false });
}

one_settlement :
    handle_settle_auction network units "finalized" (5 ∷ []) parsed [] 0 ≡ (ok (settlement ∷ []), 6)
unfolding handle_settle_auction settle_response settle_completed settle_with create_settle_tx
    fetch_our_auction recognize
one_settlement = refl

handle_settle_auction_lem_example :
    (fast_vaa : FastVaa network units "finalized" (5 ∷ []) parsed 0) × (settleable : Settleable
      network units "finalized"
      (5 ∷ [])
      fast_vaa.fast)
    × Settles network units "finalized" (5 ∷ []) [] fast_vaa.fast settleable.best (settlement ∷ [])
handle_settle_auction_lem_example =
    handle_settle_auction_lem network units "finalized" (5 ∷ []) parsed [] 0 6 settlement []
      one_settlement
