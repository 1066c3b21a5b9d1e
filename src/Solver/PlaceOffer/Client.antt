-- ===== src/Solver/PlaceOffer/Client.antt =====
-- The solver's handler with the matching engine's client in it: the `matchingEngine` argument of
-- handlePlaceInitialOffer (solver/src/utils/placeInitialOffer.ts), whose placeInitialOfferTx stands in
-- solana/ts/src/matchingEngine/index.ts. Anchor and the token program's client write an instruction in bytes.
use example_liquidity_layer.Prelude.{Bool, List, Result, map, none, ok, some, ◌>>=◌}
use example_liquidity_layer.Prelude.Int.{ℤ}
use example_liquidity_layer.Buffer.{Bytes}
use example_liquidity_layer.Auction.{PublicKey}
use example_liquidity_layer.Uint64.{bigint, uint8_array}
use example_liquidity_layer.MatchingEngine.Addresses.{
  Program, auction_address, router_endpoint_address,
}
use example_liquidity_layer.MatchingEngine.State.{Ledger}
use example_liquidity_layer.MatchingEngine.Composites.{program_accounts}
use example_liquidity_layer.MatchingEngine.Instructions.{Ix}
use example_liquidity_layer.MatchingEngine.Offers.{OfferAccounts, place_initial_offer_cctp_ix}
use example_liquidity_layer.Solver.Io.{Io, lift}
use example_liquidity_layer.Solver.Transactions.{Instruction, PreparedTransaction}
use example_liquidity_layer.Solver.PlaceOffer.{Offers, PlaceInitialOfferAccounts}

-- What the handler asks of others than the client.
pub record Network (W : Type 0) : Type 1 where
  pub posted_vaa_key : Bytes → PublicKey
  pub account_exists : PublicKey → Io W Bool
  pub is_balance_sufficient : PublicKey → ℤ → Io W Bool
  pub post_vaa_txs : Io W (List PreparedTransaction)
  pub encode : Ix → Instruction

-- The accounts that placeInitialOfferTx passes on; the first signer pays the fee.
abbrev pub offer_accounts : PlaceInitialOfferAccounts → PublicKey → OfferAccounts
offer_accounts places payer = record {
  payer = payer;
  fee_payer = some payer;
  fast_vaa = places.fast_vaa_account;
  offer_token = none;
  auction = some places.auction;
  auction_config = none;
  from_router_endpoint = some places.from_router_endpoint;
  to_router_endpoint = some places.to_router_endpoint;
}

module _ (p : Program) (l : Ledger) {W : Type 0} (net : Network W) where
  unfoldable pub client_offer_ixs :
      PlaceInitialOfferAccounts → ℤ → ℤ → PublicKey → Result (List Instruction)
  client_offer_ixs places offer_price total_deposit payer = do
    ixs ←
        place_initial_offer_cctp_ix p l (offer_accounts places payer) (bigint offer_price)
          (some (bigint total_deposit))
    ok (map net.encode ixs)

  -- The ledger is the state of the chain while the transactions are made.
  abbrev pub client_offers : Offers W
  client_offers = record {
    sdk = l.sdk;
    accounts = program_accounts p l;
    posted_vaa_key = net.posted_vaa_key;
    auction_address = λ hash. auction_address p (uint8_array hash);
    router_endpoint_address = router_endpoint_address p;
    account_exists = net.account_exists;
    is_balance_sufficient = net.is_balance_sufficient;
    post_vaa_txs = net.post_vaa_txs;
    initial_offer_ixs =
        λ places price total payer. lift (client_offer_ixs places price total payer);
  }
