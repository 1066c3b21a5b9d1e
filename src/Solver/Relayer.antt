-- ===== src/Solver/Relayer.antt =====
-- The VAA auction relayer (solver/src/vaaAuctionRelayer/app.ts): what it does with an observed VAA, and the
-- queue of batches. An observation is one step, at the time at which it ends; sending a batch is not
-- waited for.
pub mod Observed
pub mod Queue
mod Tests
use example_liquidity_layer.Solver.Io.{Io, return}
use example_liquidity_layer.Prelude.{
  Bool, List, Option, Result, String, [], if◌then◌else◌, ltb, none, ok, some, throw, ℕ, ◌++◌, ◌+◌,
  ◌∷◌, ◌>>=◌, ◌>>◌,
}
use example_liquidity_layer.Buffer.{Bytes}
use example_liquidity_layer.Auction.{PublicKey}
use example_liquidity_layer.MatchingEngine.State.{FastMarketOrder}
use example_liquidity_layer.Messages.{
  Layouts, try_parse_fast_market_order, try_parse_slow_order_response,
}
use example_liquidity_layer.Vaa.{ParsedVaa}
use example_liquidity_layer.Solver.Config.{ComputeUnitsConfig, PricingParameters}
use example_liquidity_layer.Solver.AppConfig.{
  AppConfig, Platform, Pricing, is_fast_finality, pricing_parameters,
}
use example_liquidity_layer.Solver.Transactions.{PreparedTransaction}
use example_liquidity_layer.Solver.PlaceOffer.{FastOrder, Offers, handle_place_initial_offer}
use example_liquidity_layer.Solver.Settle.{Settling, handle_settle_auction}

abbrev pub delayed_vaa_threshold : ℕ
delayed_vaa_threshold = 60

pub record Observation : Type 0 where
  pub raw : Bytes
  pub parsed : ParsedVaa
  pub consistency_level : ℕ

pub record Relayer (W : Type 0) : Type 1 where
  pub platform : Platform
  pub config : AppConfig
  -- The scaled numbers of a chain's pricing, which the price test reads.
  pub scaled : Pricing → PricingParameters
  pub layouts : Layouts
  pub offers : Offers W
  pub settling : Settling W
  pub units : ComputeUnitsConfig
  pub commitment : String
  pub payer : PublicKey

abbrev pub is_stale : (now timestamp : ℕ) → Bool
is_stale now timestamp = ltb (timestamp + delayed_vaa_threshold) now

module _ {W : Type 0} (r : Relayer W) where
  abbrev pub order_of : FastMarketOrder → FastOrder
  order_of order = record {
    amount_in = order.amount_in;
    max_fee = order.max_fee;
    target_chain = r.platform.to_chain_id order.target_chain;
  }

  abbrev pub scaled_pricing : Option Pricing → Option PricingParameters
  scaled_pricing none = none
  scaled_pricing (some pricing) = some (r.scaled pricing)

  abbrev pub pricing_of : ParsedVaa → Option PricingParameters
  pricing_of parsed =
      scaled_pricing
        (pricing_parameters r.platform r.config (r.platform.to_chain_id parsed.emitter_chain))

  unfoldable pub open_auction :
      Observation → Option FastMarketOrder → Io W (List PreparedTransaction)
  open_auction o none = return []
  open_auction o (some order) =
      handle_place_initial_offer r.offers r.units r.commitment (pricing_of o.parsed) o.raw
        (r.platform.to_chain_id o.parsed.emitter_chain) (order_of order) r.payer

  unfoldable pub settle_auction : Observation → Option Bytes → Io W (List PreparedTransaction)
  settle_auction o none = return []
  settle_auction o (some response) =
      handle_settle_auction r.settling r.units r.commitment r.payer o.parsed o.raw

  -- The batch of an observation; a return before the queue is an empty one.
  unfoldable pub on_observation : (now : ℕ) → Observation → Io W (List PreparedTransaction)
  unfolding open_auction settle_auction
  on_observation now o =
      let offer = open_auction o (try_parse_fast_market_order r.layouts o.parsed.payload) in
      let settle = settle_auction o (try_parse_slow_order_response r.layouts o.parsed.payload) in
      if is_fast_finality r.platform r.config o.consistency_level o.parsed.emitter_chain
      then (if is_stale now o.parsed.timestamp then return [] else offer)
      else settle

pub record Relay (W : Type 0) : Type 0 where
  pub world : W
  pub transaction_batch_queue : List (List PreparedTransaction)
  -- The batches handed to sendTxBatch, in order.
  pub sent : List (List PreparedTransaction)

-- An observation with its time, or a turn of the loop of spawnTransactionProcessor.
pub data RelayEvent : Type 0 where
  observes : (now : ℕ) → Observation → RelayEvent
  turn : RelayEvent

-- `if (txnBatch.length > 0) queue.push(txnBatch)`
abbrev pub pushed : List PreparedTransaction → List (List PreparedTransaction)
pushed [] = []
pushed (tx ∷ txs) = (tx ∷ txs) ∷ []

module _ {W : Type 0} (r : Relayer W) (send : List PreparedTransaction → W → W) where
  -- Nobody catches what an observation throws: the rejection is unhandled, which ends the process.
  abbrev pub push_batch : Relay W → Result (List PreparedTransaction) × W → Result (Relay W)
  push_batch s (throw e, w) = throw e
  push_batch s (ok batch, w) = ok (record {
    world = w;
    transaction_batch_queue = s.transaction_batch_queue ++ pushed batch;
    sent = s.sent;
  })

  -- An empty queue is slept on.
  abbrev pub process_batch : Relay W → List (List PreparedTransaction) → Relay W
  process_batch s [] = s
  process_batch s (batch ∷ batches) = record {
    world = send batch s.world;
    transaction_batch_queue = batches;
    sent = s.sent ++ batch ∷ [];
  }

  unfoldable pub relay_step : Relay W → RelayEvent → Result (Relay W)
  relay_step s (observes now o) = push_batch s (on_observation r now o s.world)
  relay_step s turn = ok (process_batch s s.transaction_batch_queue)

  -- The state after the events, or what ended the process.
  unfoldable pub relay : Relay W → List RelayEvent → Result (Relay W)
  unfolding relay_step
  relay s [] = ok s
  relay s (e ∷ es) = do next ← relay_step s e; relay next es
