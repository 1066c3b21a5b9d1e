-- ===== src/MatchingEngine/State.antt =====
-- The accounts of the matching engine (solana/ts/src/matchingEngine/state/), and the network's answers.
use example_liquidity_layer.Prelude.{Bool, List, Option, Result, String, ℕ}
use example_liquidity_layer.Prelude.Int.{ℤ}
use example_liquidity_layer.Buffer.{Bytes}
use example_liquidity_layer.Auction.{AuctionInfo, PublicKey}
use example_liquidity_layer.Penalty.{AuctionConfig, AuctionParameters}
use example_liquidity_layer.Vaa.{Sdk}

pub record Custodian : Type 0 where
  pub owner : PublicKey
  pub pending_owner : Option PublicKey
  pub paused : Bool
  pub paused_set_by : Option PublicKey
  pub owner_assistant : PublicKey
  pub fee_recipient_token : PublicKey
  pub auction_config_id : ℕ
  pub next_proposal_id : ℤ

pub data MessageProtocol : Type 0 where
  local : (program_id : PublicKey) → MessageProtocol
  cctp : (domain : ℕ) → MessageProtocol
  no_protocol : MessageProtocol

pub record EndpointInfo : Type 0 where
  pub chain : ℕ
  pub address : List ℕ
  pub mint_recipient : List ℕ
  pub protocol : MessageProtocol

pub record RouterEndpoint : Type 0 where
  pub bump : ℕ
  pub info : EndpointInfo

pub data AuctionStatus : Type 0 where
  not_started active : AuctionStatus
  completed : (slot : ℤ) (execute_penalty : Option ℤ) → AuctionStatus
  settled : (fee : ℤ) (total_penalty : Option ℤ) → AuctionStatus

pub record Auction : Type 0 where
  pub bump : ℕ
  pub vaa_hash : List ℕ
  pub vaa_timestamp : ℕ
  pub target_protocol : MessageProtocol
  pub status : AuctionStatus
  pub prepared_by : PublicKey
  pub info : Option AuctionInfo

pub record PreparedOrderResponseInfo : Type 0 where
  pub prepared_by : PublicKey
  pub base_fee_token : PublicKey
  pub fast_vaa_timestamp : ℕ
  pub source_chain : ℕ
  pub base_fee : ℤ
  pub init_auction_fee : ℤ
  pub sender : List ℕ
  pub redeemer : List ℕ
  pub amount_in : ℤ

pub record PreparedOrderResponse : Type 0 where
  pub fast_vaa_hash : List ℕ
  pub bump : ℕ
  pub info : PreparedOrderResponseInfo
  pub to_endpoint : EndpointInfo
  pub redeemer_message : Bytes

pub data ProposalAction : Type 0 where
  no_action : ProposalAction
  update_auction_parameters : (id : ℕ) (parameters : AuctionParameters) → ProposalAction

pub record Proposal : Type 0 where
  pub id : ℤ
  pub bump : ℕ
  pub action : ProposalAction
  pub by : PublicKey
  pub owner : PublicKey
  pub slot_proposed_at : ℤ
  pub slot_enact_delay : ℤ
  pub slot_enacted_at : Option ℤ

pub record FastFillSeeds : Type 0 where
  pub source_chain : ℕ
  pub order_sender : List ℕ
  pub sequence : ℤ
  pub bump : ℕ

pub record ReservedFastFillSequence : Type 0 where
  pub fast_vaa_hash : List ℕ
  pub bump : ℕ
  pub beneficiary : PublicKey
  pub fast_fill_seeds : FastFillSeeds

-- The fields of FastMarketOrder that the client reads.
pub record FastMarketOrder : Type 0 where
  pub amount_in : ℤ
  pub max_fee : ℤ
  pub target_chain : String
  pub sender : List ℕ

pub record FastFillInfo : Type 0 where
  pub prepared_by : PublicKey
  pub amount : ℤ
  pub redeemer : PublicKey
  pub timestamp : ℤ

pub record FastFill : Type 0 where
  pub seeds : FastFillSeeds
  pub redeemed : Bool
  pub info : FastFillInfo
  pub redeemer_message : Bytes

-- One state of the chain, which all the fetches of a call see. An account that is not there, or that has
-- another type, throws. `decode` is LiquidityLayerMessage.decode, which gives no order for a deposit.
pub record Ledger : Type 0 where
  pub sdk : Sdk
  pub decode : Bytes → Result (Option FastMarketOrder)
  pub account_data : PublicKey → Option Bytes
  pub fetch_custodian : PublicKey → Result Custodian
  pub fetch_auction_config : PublicKey → Result AuctionConfig
  pub fetch_router_endpoint : PublicKey → Result RouterEndpoint
  pub fetch_auction : PublicKey → Result Auction
  pub fetch_prepared_order_response : PublicKey → Result PreparedOrderResponse
  pub fetch_reserved_fast_fill_sequence : PublicKey → Result ReservedFastFillSequence
  pub fetch_fast_fill : PublicKey → Result FastFill
  pub fetch_proposal : PublicKey → Result Proposal
  -- The owner of a token account.
  pub fetch_token_owner : PublicKey → Result PublicKey
