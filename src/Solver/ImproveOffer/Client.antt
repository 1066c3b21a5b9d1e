-- ===== src/Solver/ImproveOffer/Client.antt =====
-- The callback with the matching engine's client in it: improveOfferTx of
-- solana/ts/src/matchingEngine/index.ts, as onAuctionUpdateCallback (solver/src/improveOffer/app.ts) calls it.
use example_liquidity_layer.Prelude.{List, Result, map, ok, some, ◌>>=◌}
use example_liquidity_layer.Prelude.Int.{ℤ}
use example_liquidity_layer.Auction.{PublicKey}
use example_liquidity_layer.Uint64.{bn}
use example_liquidity_layer.MatchingEngine.Addresses.{Program, auction_config_address}
use example_liquidity_layer.MatchingEngine.State.{Ledger}
use example_liquidity_layer.MatchingEngine.Instructions.{Ix}
use example_liquidity_layer.MatchingEngine.Offers.{improve_offer_ix}
use example_liquidity_layer.Solver.Transactions.{Instruction}
use example_liquidity_layer.Solver.ImproveOffer.{AuctionUpdate}

-- The auction's config and its best offer's token account are those of the event.
unfoldable pub client_improve_ixs :
    Program
    → Ledger
    → (encode : Ix → Instruction) → PublicKey
    → AuctionUpdate
    → ℤ
    → Result (List Instruction)
client_improve_ixs p l encode participant event offer_price = do
  config ← auction_config_address p event.config_id
  ixs ←
      improve_offer_ix p l participant event.auction (some config) (some event.best_offer_token)
        (bn offer_price) (some (bn event.total_deposit))
  ok (map encode ixs)
