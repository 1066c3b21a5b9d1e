-- ===== src/Penalty.antt =====
-- The price arithmetic of MatchingEngineProgram (solana/ts/src/matchingEngine/index.ts) and the
-- account data that it reads (state/AuctionConfig.ts, state/Custodian.ts, state/Auction.ts).
pub mod Laws
pub mod Late
pub mod Deposit
mod Tests
use example_liquidity_layer.Prelude.{
  Option, Result, if◌then◌else◌, none, ok, some, ℕ, ◌==◌, ◌||◌, ◌>>=◌, ◌>>◌,
}
use example_liquidity_layer.Prelude.Int.{le_ℤ, pos, ℤ, ◌*ℤ◌, ◌+ℤ◌, ◌-ℤ◌, ◌/ℤ◌}
use example_liquidity_layer.Auction.{AuctionInfo}
use example_liquidity_layer.Uint64.{Uint64, bn, uint64_to_bigint}

pub record AuctionParameters : Type 0 where
  pub user_penalty_reward_bps : ℕ
  pub initial_penalty_bps : ℕ
  pub duration : ℕ
  pub grace_period : ℕ
  pub penalty_period : ℕ
  pub min_offer_delta_bps : ℕ
  pub security_deposit_base : ℕ
  pub security_deposit_bps : ℕ

pub record AuctionConfig : Type 0 where
  pub id : ℕ
  pub parameters : AuctionParameters

-- What the program's accounts hold, as the network answers: an account that is not there throws.
pub record Accounts : Type 0 where
  pub auction_config_id : Result ℕ
  pub fetch_auction_config : ℕ → Result AuctionConfig

abbrev pub fee_precision_max : ℕ
fee_precision_max = 1_000_000

unfoldable pub fetch_auction_parameters : Accounts → Option ℕ → Result AuctionParameters
fetch_auction_parameters accounts none = do
  id ← accounts.auction_config_id
  config ← accounts.fetch_auction_config id
  ok config.parameters
fetch_auction_parameters accounts (some id) = do
  config ← accounts.fetch_auction_config id
  ok config.parameters

pub record Penalty : Type 0 where
  pub penalty : ℤ
  pub user_reward : ℤ

-- The end of `computeDepositPenalty`: `penalty_period` slots after the grace period.
unfoldable pub penalty_after_grace : AuctionParameters → ℤ → ℤ → Penalty
penalty_after_grace params amount penalty_period =
    let auction_penalty_slots = pos params.penalty_period in
    let initial_penalty_bps = pos params.initial_penalty_bps in
    let user_penalty_reward_bps = pos params.user_penalty_reward_bps in
    let precision = pos fee_precision_max in
    let whole_reward = amount *ℤ user_penalty_reward_bps /ℤ precision in
    let base_penalty = amount *ℤ initial_penalty_bps /ℤ precision in
    let penalty =
      base_penalty +ℤ (amount -ℤ base_penalty) *ℤ penalty_period /ℤ auction_penalty_slots in
    let user_reward = penalty *ℤ user_penalty_reward_bps /ℤ precision in
    if le_ℤ auction_penalty_slots penalty_period || params.initial_penalty_bps == fee_precision_max
    then record { penalty = amount -ℤ whole_reward; user_reward = whole_reward }
    else record { penalty = penalty -ℤ user_reward; user_reward = user_reward }

unfoldable pub compute_deposit_penalty : Accounts → AuctionInfo → Uint64 → Option ℕ → Result Penalty
compute_deposit_penalty accounts info current_slot config_id = do
  params ← fetch_auction_parameters accounts config_id
  current ← uint64_to_bigint current_slot
  start ← uint64_to_bigint (bn info.start_slot)
  let slots_elapsed = current -ℤ start -ℤ pos params.duration
  let late = do
    amount ← uint64_to_bigint (bn info.security_deposit)
    ok (penalty_after_grace params amount (slots_elapsed -ℤ pos params.grace_period))
  if le_ℤ slots_elapsed (pos params.grace_period)
      then ok (record { penalty = pos 0; user_reward = pos 0 })
      else late

unfoldable pub compute_min_offer_delta : Accounts → Uint64 → Result ℤ
compute_min_offer_delta accounts offer_price = do
  params ← fetch_auction_parameters accounts none
  price ← uint64_to_bigint offer_price
  ok (price *ℤ pos params.min_offer_delta_bps /ℤ pos fee_precision_max +ℤ pos 1)

unfoldable pub compute_notional_security_deposit : Accounts → Uint64 → Option ℕ → Result ℤ
compute_notional_security_deposit accounts amount_in config_id = do
  params ← fetch_auction_parameters accounts config_id
  base ← uint64_to_bigint (bn (pos params.security_deposit_base))
  amount ← uint64_to_bigint amount_in
  ok (base +ℤ amount *ℤ pos params.security_deposit_bps /ℤ pos fee_precision_max)
