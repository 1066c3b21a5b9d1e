-- ===== src/Solver/ImproveOffer.antt =====
-- Raising offers: onAuctionUpdateCallback of solver/src/improveOffer/app.ts, with the balance of OfferToken
-- and the noise of CachedBlockhash (solver/src/containers). What the callback sends is its result; the
-- maker of the instructions is an argument, and log lines are left out.
pub mod Guards
pub mod Client
pub mod Accepted
pub mod Fixture
mod Tests
use example_liquidity_layer.Prelude.{
  Bool, List, Option, Result, [], false, if◌then◌else◌, none, ok, or_else, some, throw, true,
  type_error, ℕ, ◌+◌, ◌||◌, ◌∷◌, ◌>>=◌, ◌>>◌,
}
use example_liquidity_layer.Prelude.Int.{le_ℤ, pos, pos_part, ℤ, ◌*ℤ◌, ◌+ℤ◌, ◌-ℤ◌, ◌/ℤ◌}
use example_liquidity_layer.Uint64.{bn, uint64_to_bigint}
use example_liquidity_layer.Auction.{PublicKey}
use example_liquidity_layer.AuctionHistory.{bytes_equal}
use example_liquidity_layer.Solver.Config.{PricingParameters}
use example_liquidity_layer.Solver.Pricing.{should_improve_offer, value_with_edge}
use example_liquidity_layer.Solver.Transactions.{Instruction, PreparedTransaction}

pub record OfferToken : Type 0 where
  pub authority : PublicKey
  pub address : PublicKey
  pub balance : ℤ

-- The offer token, and the noise since the last blockhash.
pub record Player : Type 0 where
  pub offer_token : OfferToken
  pub noise : ℕ

-- The fields of the event that the callback reads.
pub record AuctionUpdate : Type 0 where
  pub config_id : ℕ
  pub auction : PublicKey
  pub source_chain : ℕ
  pub best_offer_token : PublicKey
  pub token_balance_before : ℤ
  pub end_slot : ℤ
  pub amount_in : ℤ
  pub total_deposit : ℤ
  pub max_offer_price_allowed : Option ℤ

-- `updateBalance`
unfoldable pub update_balance : ℤ → OfferToken → OfferToken
update_balance balance t = record {
  authority = t.authority;
  address = t.address;
  balance = balance;
}

-- `addNoise`, with the state it leaves.
unfoldable pub add_noise : ℤ → Player → ℤ × Player
add_noise value p =
    (value +ℤ pos p.noise, record { offer_token = p.offer_token; noise = p.noise + 1 })

-- `ours.find((key) => key.equals(best)) !== undefined`
unfoldable pub is_ours : List PublicKey → PublicKey → Bool
is_ours [] best = false
is_ours (key ∷ keys) best = bytes_equal key best || is_ours keys best

-- The test of the price; one that is null is a TypeError when it is converted, which is last.
unfoldable pub worth_at : PricingParameters → ℤ → Option ℤ → Result Bool
worth_at pricing amount_in none = do
  amount ← uint64_to_bigint (bn amount_in)
  value ← value_with_edge amount pricing
  throw type_error
worth_at pricing amount_in (some price) = should_improve_offer (bn amount_in) (bn price) pricing

abbrev pub base_fee : ℤ
base_fee = pos 42069

abbrev pub scale_amount_fee : ℤ
scale_amount_fee = pos 100

module _ (improve_ixs : PublicKey → AuctionUpdate → ℤ → Result (List Instruction)) where
  -- MatchingEngineProgram.improveOfferTx, with the options of the callback.
  unfoldable pub improve_offer_tx : PublicKey → AuctionUpdate → ℤ → ℤ → Result PreparedTransaction
  improve_offer_tx participant event price fee = do
    ixs ← improve_ixs participant event price
    ok (record {
      ixs = ixs;
      signers = participant ∷ [];
      compute_units = 50000;
      fee_micro_lamports = pos_part fee;
      nonce_account = none;
      address_lookup_table_accounts = none;
      tx_name = some "improveOffer";
      confirm_options = some (record { commitment = none; skip_preflight = some true });
    })

  -- The fee of an offer, which grows with the amount, before the noise.
  abbrev pub quiet_fee : AuctionUpdate → ℤ
  quiet_fee event = base_fee +ℤ scale_amount_fee *ℤ (event.amount_in /ℤ pos 1_000_000)

  abbrev pub some_tx : Result PreparedTransaction → Result (Option PreparedTransaction)
  some_tx (ok tx) = ok (some tx)
  some_tx (throw e) = throw e

  -- From the outcome of the test of the price on: the noise is taken before the transaction is made.
  unfoldable pub improve_on :
      Result Bool → Player → AuctionUpdate → Player × Result (Option PreparedTransaction)
  unfolding improve_offer_tx add_noise
  improve_on (throw e) player event = (player, throw e)
  improve_on (ok false) player event = (player, ok none)
  improve_on (ok true) player event =
      let (fee, noisy) = add_noise (quiet_fee event) player in
      (
        noisy,
        some_tx (
            improve_offer_tx player.offer_token.authority event
              (or_else event.max_offer_price_allowed (pos 0)) fee),
      )

  -- What an offer of one of our accounts does to the balance that we know.
  unfoldable pub note_our_offer : Player → AuctionUpdate → Player
  unfolding update_balance
  note_our_offer player event =
      if bytes_equal event.best_offer_token player.offer_token.address
      then record {
        offer_token =
            update_balance (event.token_balance_before -ℤ event.total_deposit) player.offer_token;
        noise = player.noise;
      }
      else player

  -- From the outcome of the test of the end on.
  unfoldable pub unless_ended :
      Result Bool
      → PricingParameters
      → Player
      → AuctionUpdate
      → Player × Result (Option PreparedTransaction)
  unfolding improve_on worth_at
  unless_ended (throw e) pricing player event = (player, throw e)
  unless_ended (ok true) pricing player event = (player, ok none)
  unless_ended (ok false) pricing player event =
      improve_on (worth_at pricing event.amount_in event.max_offer_price_allowed) player event

  -- The end of an auction is tested by a BN's `lten`, of the package bn.js.
  unfoldable pub on_auction_update :
      (lten : ℤ → ℕ → Result Bool)
      → List PublicKey
      → Option PricingParameters
      → ℕ
      → Player
      → AuctionUpdate
      → Player × Result (Option PreparedTransaction)
  unfolding unless_ended note_our_offer is_ours
  on_auction_update lten our_accounts none slot player event = (player, ok none)
  on_auction_update lten our_accounts (some pricing) slot player event =
      if is_ours our_accounts event.best_offer_token
      then (note_our_offer player event, ok none)
      else unless_ended (lten event.end_slot slot) pricing player event
