-- ===== src/Solver/ImproveOffer/Accepted.antt =====
-- The raised offer on chain: the callback with the client of the matching engine, against the Rust program.
mod Tests
use example_liquidity_layer.Prelude.{[], some, ℕ, ◌<◌, ◌^◌, ◌∷◌, ◌≡◌}
use example_liquidity_layer.Prelude.Int.{pos}
use example_liquidity_layer.Auction.{PublicKey}
use example_liquidity_layer.MatchingEngine.Addresses.{Program}
use example_liquidity_layer.MatchingEngine.State.{Ledger}
use example_liquidity_layer.MatchingEngine.Instructions.{ImproveOffer, Ix, approve, improve_offer}
use example_liquidity_layer.MatchingEngine.Onchain.{ImproveOfferAccepted}
use example_liquidity_layer.MatchingEngine.Improved.{IsActive, Opened}
use example_liquidity_layer.Solver.Transactions.{Instruction, PreparedTransaction}
use example_liquidity_layer.Solver.ImproveOffer.{AuctionUpdate, worth_at}

module _ (p : Program) (l : Ledger) (encode : Ix → Instruction) where
  -- An event of an open auction: its config and its best offer are the auction's, and price and deposit u64.
  pub record Announced (event : AuctionUpdate) (price total : ℕ) : Type 0 where
    pub opened : Opened p l event.auction
    pub active : IsActive p l event.auction opened
    pub same_config : event.config_id ≡ opened.info.config_id
    pub same_token : event.best_offer_token ≡ opened.info.best_offer_token
    pub allowed : event.max_offer_price_allowed ≡ some (pos price)
    pub price_fits : price < 2 ^ 64
    pub deposit : event.total_deposit ≡ pos total
    pub deposit_fits : total < 2 ^ 64

  -- What is sent: an approval of the whole deposit, and an offer that the Rust program accepts.
  pub record RaisesOnChain (event : AuctionUpdate) (price total : ℕ) (participant token : PublicKey)
      (tx : PreparedTransaction) : Type 0 where
    pub ix : ImproveOffer
    pub instructions :
        tx.ixs
        ≡ encode (
            approve (record {
              account = token;
              delegate = ix.transfer_authority;
              owner = participant;
              amount = pos total;
            }))
          ∷ encode (improve_offer (pos price) ix)
          ∷ []
    pub accepted : ImproveOfferAccepted p l price ix
    pub from_token : ix.offer_token ≡ token
