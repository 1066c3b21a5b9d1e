-- ===== src/Solver/Settle/Client.antt =====
-- The solver's settlement with the matching engine's client in it: the `matchingEngine` argument of
-- handleSettleAuction (solver/src/utils/settleAuction.ts), and the parser of messages.
use example_liquidity_layer.Prelude.{
  Bool, List, Result, String, false, map, none, ok, or_throw, some, true, type_error, ℕ, ◌>>=◌,
}
use example_liquidity_layer.Buffer.{Bytes}
use example_liquidity_layer.Auction.{PublicKey}
use example_liquidity_layer.Uint64.{uint8_array}
use example_liquidity_layer.Cctp.Programs.{CctpPrograms}
use example_liquidity_layer.Messages.{Layouts, try_parse_fast_market_order}
use example_liquidity_layer.MatchingEngine.Addresses.{Program, auction_address}
use example_liquidity_layer.MatchingEngine.State.{
  Auction, AuctionStatus, Ledger, active, completed, not_started, settled,
}
use example_liquidity_layer.MatchingEngine.Instructions.{Ix}
use example_liquidity_layer.MatchingEngine.Settle.{settle_auction_complete_ixs}
use example_liquidity_layer.Solver.Io.{Io, lift}
use example_liquidity_layer.Solver.Transactions.{Instruction, PreparedTransaction}
use example_liquidity_layer.Solver.Wormscan.{VaaResponse}
use example_liquidity_layer.Solver.Evm.{CctpArgs}
use example_liquidity_layer.Solver.Settle.{
  AuctionAccount, SettleAuctionAccounts, Settling, is_there,
}
use example_liquidity_layer.Solver.Settle

-- What the handler asks of others than the client.
pub record Network (W : Type 0) : Type 1 where
  pub posted_vaa_key : Bytes → PublicKey
  pub chain_cfg : String → Result Bool
  pub fetch_vaa : ℕ → Io W VaaResponse
  pub is_recognized_token_account : PublicKey → Bool
  pub fetch_evm_args : String → Io W CctpArgs
  pub account_exists : PublicKey → Io W Bool
  pub post_vaa_txs : Io W (List PreparedTransaction)
  pub lookup_table : Io W PublicKey
  pub encode : Ix → Instruction

-- An auction as Anchor decodes it: of the members of its status one is there.
abbrev pub status_of : AuctionStatus → Settle.AuctionStatus
status_of not_started = record {
  not_started = true;
  active = false;
  completed = none;
  settled = none;
}
status_of active = record { not_started = false; active = true; completed = none; settled = none }
status_of (completed slot penalty) = record {
  not_started = false;
  active = false;
  completed = some slot;
  settled = none;
}
status_of (settled fee penalty) = record {
  not_started = false;
  active = false;
  completed = none;
  settled = some fee;
}

abbrev pub account_of : Auction → AuctionAccount
account_of a = record { status = status_of a.status; info = a.info }

module _ (p : Program) (c : CctpPrograms) (l : Ledger) (layouts : Layouts)
    (core_bridge payer : PublicKey) {W : Type 0} (net : Network W) where
  abbrev pub fetch_account : PublicKey → Result AuctionAccount
  fetch_account auction = do fetched ← l.fetch_auction auction; ok (account_of fetched)

  -- An attestation that is not there cannot be encoded.
  unfoldable pub client_settle_ixs :
      SettleAuctionAccounts → PublicKey → CctpArgs → Result (List Instruction)
  client_settle_ixs places best args = do
    attestation ← or_throw args.cctp_attestation type_error
    ixs ←
        settle_auction_complete_ixs p c l core_bridge payer places.fast_vaa_account
          places.finalized_vaa_account best places.auction
          (record {
            encoded_cctp_message = args.encoded_cctp_message;
            cctp_attestation = attestation;
          })
    ok (map net.encode ixs)

  -- The ledger is the state of the chain while the transactions are made.
  abbrev pub client_settling : Settling W
  client_settling = record {
    sdk = l.sdk;
    posted_vaa_key = net.posted_vaa_key;
    auction_address = λ hash. auction_address p (uint8_array hash);
    chain_cfg = net.chain_cfg;
    fetch_vaa = net.fetch_vaa;
    is_fast_order = λ payload. is_there (try_parse_fast_market_order layouts payload);
    fetch_auction = λ auction. lift (fetch_account auction);
    is_recognized_token_account = net.is_recognized_token_account;
    fetch_evm_args = net.fetch_evm_args;
    account_exists = net.account_exists;
    post_vaa_txs = net.post_vaa_txs;
    lookup_table = net.lookup_table;
    settle_ixs = λ places best args. lift (client_settle_ixs places best args);
  }
