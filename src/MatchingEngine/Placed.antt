-- ===== src/MatchingEngine/Placed.antt =====
-- The instructions with which an auction is opened are those that the Rust program accepts.

use example_liquidity_layer.MatchingEngine.Instructions.{PlaceInitialOfferCctp}
use example_liquidity_layer.Prelude.{Option, [], none, ok, or_else, ℕ, ◌∷◌, ◌≡◌}
use example_liquidity_layer.Prelude.Int.{ℤ, ◌+ℤ◌}
use example_liquidity_layer.Buffer.{be_bytes}
use example_liquidity_layer.Auction.{PublicKey}
use example_liquidity_layer.Uint64.{Uint64, bigint}
use example_liquidity_layer.Solana.{buffer_from}
use example_liquidity_layer.MatchingEngine.Addresses.{
  Program, address, auction_custody_token_address,
}
use example_liquidity_layer.MatchingEngine.State.{Ledger}
use example_liquidity_layer.MatchingEngine.Composites.{
  checked_custodian_composite, fast_order_path_composite,
}
use example_liquidity_layer.MatchingEngine.Offers.{
  OfferAccounts, OfferPlaces, current_config, event_cpi,
}
use example_liquidity_layer.MatchingEngine.Onchain.{
  auction_pda, endpoint_pda, transfer_authority_pda,
}
use example_liquidity_layer.MatchingEngine.Known.{Configured, FastVaa, IsDefault}

module _ (p : Program) (l : Ledger) (a : OfferAccounts) (v : FastVaa p l a.fast_vaa)
    (k : Configured p l) where
  -- What the caller leaves out, or gives as the client would derive it.
  pub record Defaults : Type 0 where
    pub auction : IsDefault a.auction (auction_pda p l v.digest)
    pub from_endpoint : IsDefault a.from_router_endpoint (endpoint_pda p l v.emitter.chain)
    pub to_endpoint :
        IsDefault a.to_router_endpoint (endpoint_pda p l (l.sdk.to_chain_id v.order.target_chain))
    pub auction_config :
        IsDefault a.auction_config
          (address p (buffer_from "auction-config" ∷ be_bytes 4 k.custodian.auction_config_id ∷ []))

  -- The places of the offer, and the deposit: the given one, or `notional` above the amount and the fee.
  record Resolved (deposit : Option Uint64) (notional : ℤ) (places : OfferPlaces) : Type 0 where
    at_auction : places.auction ≡ auction_pda p l v.digest
    at_from : places.from_endpoint ≡ endpoint_pda p l v.emitter.chain
    at_to : places.to_endpoint ≡ endpoint_pda p l (l.sdk.to_chain_id v.order.target_chain)
    with_deposit :
        places.total_deposit
        ≡ or_else deposit (bigint (v.order.amount_in +ℤ v.order.max_fee +ℤ notional))
    at_config :
        current_config p l places.fetched_config_id
        ≡ ok (
            address p
              (buffer_from "auction-config" ∷ be_bytes 4 k.custodian.auction_config_id ∷ []))

  abbrev offer_with : ℕ → PublicKey → PublicKey → PlaceInitialOfferCctp
  offer_with price config offer_token =
      let auction = auction_pda p l v.digest in
      record {
        payer = or_else a.fee_payer a.payer;
        transfer_authority = transfer_authority_pda p l auction price;
        custodian = checked_custodian_composite p none;
        auction_config = config;
        auction = auction;
        fast_order_path =
            fast_order_path_composite p a.fast_vaa (endpoint_pda p l v.emitter.chain)
              (endpoint_pda p l (l.sdk.to_chain_id v.order.target_chain));
        offer_token = offer_token;
        auction_custody_token = auction_custody_token_address p auction;
        usdc = p.mint;
        token_program = p.web3.token_program_id;
        system_program = p.web3.system_program_id;
        event_cpi = event_cpi p;
      }
