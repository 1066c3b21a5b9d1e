-- ===== src/Solver/PlaceOffer/Accepted.antt =====
-- The solver's offer on chain: the handler with the client of the matching engine, against the Rust program.
mod Tests
use example_liquidity_layer.Prelude.{List, [], ok, some, ℕ, ◌++◌, ◌+◌, ◌∷◌, ◌≡◌}
use example_liquidity_layer.Prelude.Int.{pos}
use example_liquidity_layer.Buffer.{Bytes}
use example_liquidity_layer.Auction.{PublicKey}
use example_liquidity_layer.Penalty.{AuctionParameters, fetch_auction_parameters}
use example_liquidity_layer.Vaa.{ParsedVaa}
use example_liquidity_layer.MatchingEngine.Addresses.{Program}
use example_liquidity_layer.MatchingEngine.State.{Ledger}
use example_liquidity_layer.MatchingEngine.Composites.{program_accounts}
use example_liquidity_layer.MatchingEngine.Instructions.{
  PlaceInitialOfferCctp, approve, place_initial_offer_cctp,
}
use example_liquidity_layer.MatchingEngine.Onchain.{
  PlaceInitialOfferAccepted, auction_pda, endpoint_pda,
}
use example_liquidity_layer.MatchingEngine.Known.{FastVaa}
use example_liquidity_layer.Solver.Transactions.{PreparedTransaction}
use example_liquidity_layer.Solver.PlaceOffer.{PlaceInitialOfferAccounts}
use example_liquidity_layer.Solver.PlaceOffer.Client.{Network}
use example_liquidity_layer.Solver.PlaceOffer.Funded.{notional}

module _ (p : Program) (l l' : Ledger) {W : Type 0} (net : Network W) where
  -- A raw VAA as it is posted when the offer runs: its account has the VAA's digest and its order.
  pub record Posted (raw_vaa : Bytes) (from_chain : ℕ) (amount fee to_chain : ℕ) : Type 0 where
    pub parsed : ParsedVaa
    pub parses : l.sdk.deserialize raw_vaa ≡ ok parsed
    pub posted : FastVaa p l' (net.posted_vaa_key parsed.hash)
    pub same_digest : l.sdk.keccak256 parsed.hash ≡ posted.digest
    pub same_source : from_chain ≡ posted.emitter.chain
    pub same_target : to_chain ≡ l'.sdk.to_chain_id posted.order.target_chain
    pub same_amount : posted.order.amount_in ≡ pos amount
    pub same_fee : posted.order.max_fee ≡ pos fee

  module _ {raw_vaa : Bytes} {from_chain amount fee to_chain : ℕ}
      (v : Posted raw_vaa from_chain amount fee to_chain) where
    abbrev places : PlaceInitialOfferAccounts
    places = record {
      fast_vaa_account = net.posted_vaa_key v.parsed.hash;
      auction = auction_pda p l' v.posted.digest;
      from_router_endpoint = endpoint_pda p l' v.posted.emitter.chain;
      to_router_endpoint = endpoint_pda p l' (l'.sdk.to_chain_id v.posted.order.target_chain);
    }

    -- The last of the transactions is the offer: an approval of the amount, the highest fee and the deposit
    -- by the second auction config, and an offer that the Rust program accepts.
    pub record OffersOnChain (payer token : PublicKey) (txs : List PreparedTransaction)
        : Type 0 where
      pub posts : List PreparedTransaction
      pub offer : PreparedTransaction
      pub in_order : txs ≡ posts ++ offer ∷ []
      pub parameters : AuctionParameters
      pub fetched : fetch_auction_parameters (program_accounts p l) (some 2) ≡ ok parameters
      pub ix : PlaceInitialOfferCctp
      pub instructions :
          offer.ixs
          ≡ net.encode (
              approve (record {
                account = token;
                delegate = ix.transfer_authority;
                owner = payer;
                amount = pos (amount + fee + notional parameters amount);
              }))
            ∷ net.encode (place_initial_offer_cctp (pos fee) ix)
            ∷ []
      pub accepted : PlaceInitialOfferAccepted p l' fee ix
