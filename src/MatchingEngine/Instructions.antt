-- ===== src/MatchingEngine/Instructions.antt =====
-- The instructions of the matching engine that deal with auctions, each with the accounts that
-- MatchingEngineProgram (solana/ts/src/matchingEngine/index.ts) gives to Anchor.

use example_liquidity_layer.Cctp.Programs.{ReceiveAccounts}
use example_liquidity_layer.Prelude.Int.{ℤ}
use example_liquidity_layer.Buffer.{Bytes}
use example_liquidity_layer.Auction.{PublicKey}
use example_liquidity_layer.Solana.{Approve}
use example_liquidity_layer.MatchingEngine.Composites.{
  ActiveAuction, CheckedCustodian, ClosePreparedOrderResponse, FastOrderPath, RequiredSysvars,
}

-- `eventAuthority` and `program`, of an instruction that emits an event.
pub record EventCpi : Type 0 where
  pub event_authority : PublicKey
  pub program : PublicKey

pub record PlaceInitialOfferCctp : Type 0 where
  pub payer : PublicKey
  pub transfer_authority : PublicKey
  pub custodian : CheckedCustodian
  pub auction_config : PublicKey
  pub auction : PublicKey
  pub fast_order_path : FastOrderPath
  pub offer_token : PublicKey
  pub auction_custody_token : PublicKey
  pub usdc : PublicKey
  pub token_program : PublicKey
  pub system_program : PublicKey
  pub event_cpi : EventCpi

pub record ImproveOffer : Type 0 where
  pub transfer_authority : PublicKey
  pub active_auction : ActiveAuction
  pub offer_token : PublicKey
  pub token_program : PublicKey
  pub event_cpi : EventCpi

pub record CctpMessageArgs : Type 0 where
  pub encoded_cctp_message : Bytes
  pub cctp_attestation : Bytes

pub record CctpReceiveMessage : Type 0 where
  pub mint_recipient : PublicKey
  pub message_transmitter_authority : PublicKey
  pub message_transmitter_config : PublicKey
  pub used_nonces : PublicKey
  pub message_transmitter_event_authority : PublicKey
  pub token_messenger : PublicKey
  pub remote_token_messenger : PublicKey
  pub token_minter : PublicKey
  pub local_token : PublicKey
  pub token_pair : PublicKey
  pub token_messenger_minter_custody_token : PublicKey
  pub token_messenger_minter_event_authority : PublicKey
  pub token_messenger_minter_program : PublicKey
  pub message_transmitter_program : PublicKey

-- What an instruction calls the accounts that the message transmitter's client gives.
abbrev pub receive_message : (mint_recipient : PublicKey) → ReceiveAccounts → CctpReceiveMessage
receive_message mint_recipient received = record {
  mint_recipient = mint_recipient;
  message_transmitter_authority = received.authority;
  message_transmitter_config = received.message_transmitter_config;
  used_nonces = received.used_nonces;
  message_transmitter_event_authority = received.message_transmitter_event_authority;
  token_messenger = received.token_messenger;
  remote_token_messenger = received.remote_token_messenger;
  token_minter = received.token_minter;
  local_token = received.local_token;
  token_pair = received.token_pair;
  token_messenger_minter_custody_token = received.custody_token;
  token_messenger_minter_event_authority = received.token_messenger_minter_event_authority;
  token_messenger_minter_program = received.token_messenger_minter_program;
  message_transmitter_program = received.message_transmitter_program;
}

pub record PrepareOrderResponseCctp : Type 0 where
  pub payer : PublicKey
  pub custodian : CheckedCustodian
  pub fast_order_path : FastOrderPath
  pub finalized_vaa : PublicKey
  pub prepared_order_response : PublicKey
  pub prepared_custody_token : PublicKey
  pub base_fee_token : PublicKey
  pub usdc : PublicKey
  pub cctp : CctpReceiveMessage
  pub token_program : PublicKey
  pub system_program : PublicKey

pub record SettleAuctionComplete : Type 0 where
  pub beneficiary : PublicKey
  pub base_fee_token : PublicKey
  pub prepared_order_response : PublicKey
  pub prepared_custody_token : PublicKey
  pub auction : PublicKey
  pub best_offer_token : PublicKey
  pub token_program : PublicKey
  pub event_cpi : EventCpi

pub record SettleAuctionNoneLocal : Type 0 where
  pub payer : PublicKey
  pub custodian : CheckedCustodian
  pub fee_recipient_token : PublicKey
  pub prepared : ClosePreparedOrderResponse
  pub auction : PublicKey
  pub reserved_sequence : PublicKey
  pub fast_fill : PublicKey
  pub event_cpi : EventCpi
  pub local_custody_token : PublicKey
  pub token_program : PublicKey
  pub system_program : PublicKey
  pub sysvars : RequiredSysvars

pub record WormholePublishMessage : Type 0 where
  pub config : PublicKey
  pub emitter_sequence : PublicKey
  pub fee_collector : PublicKey
  pub core_bridge_program : PublicKey

pub record CctpDepositForBurn : Type 0 where
  pub mint : PublicKey
  pub token_messenger_minter_sender_authority : PublicKey
  pub message_transmitter_config : PublicKey
  pub token_messenger : PublicKey
  pub remote_token_messenger : PublicKey
  pub token_minter : PublicKey
  pub local_token : PublicKey
  pub token_messenger_minter_event_authority : PublicKey
  pub token_messenger_minter_program : PublicKey
  pub message_transmitter_program : PublicKey

pub record SettleAuctionNoneCctp : Type 0 where
  pub payer : PublicKey
  pub core_message : PublicKey
  pub cctp_message : PublicKey
  pub custodian : CheckedCustodian
  pub fee_recipient_token : PublicKey
  pub prepared : ClosePreparedOrderResponse
  pub auction : PublicKey
  pub wormhole : WormholePublishMessage
  pub cctp : CctpDepositForBurn
  pub token_program : PublicKey
  pub system_program : PublicKey
  pub sysvars : RequiredSysvars
  pub event_cpi : EventCpi

pub record ExecuteOrder : Type 0 where
  pub fast_vaa : PublicKey
  pub active_auction : ActiveAuction
  pub executor_token : PublicKey
  pub initial_offer_token : PublicKey
  pub initial_participant : PublicKey

pub record ExecuteFastOrderCctp : Type 0 where
  pub payer : PublicKey
  pub core_message : PublicKey
  pub cctp_message : PublicKey
  pub execute_order : ExecuteOrder
  pub to_router_endpoint : PublicKey
  pub custodian : CheckedCustodian
  pub wormhole : WormholePublishMessage
  pub cctp : CctpDepositForBurn
  pub token_program : PublicKey
  pub system_program : PublicKey
  pub sysvars : RequiredSysvars
  pub event_cpi : EventCpi

pub record ExecuteFastOrderLocal : Type 0 where
  pub payer : PublicKey
  pub custodian : CheckedCustodian
  pub execute_order : ExecuteOrder
  pub reserved_sequence : PublicKey
  pub reserve_beneficiary : PublicKey
  pub fast_fill : PublicKey
  pub event_cpi : EventCpi
  pub local_custody_token : PublicKey
  pub token_program : PublicKey
  pub system_program : PublicKey
  pub sysvars : RequiredSysvars

pub record ReserveFastFillSequence : Type 0 where
  pub payer : PublicKey
  pub fast_order_path : FastOrderPath
  pub sequencer : PublicKey
  pub reserved : PublicKey
  pub auction : PublicKey
  pub system_program : PublicKey

pub record CloseAuction : Type 0 where
  pub auction : PublicKey
  pub beneficiary : PublicKey
  pub event_cpi : EventCpi

pub data Ix : Type 0 where
  approve : Approve → Ix
  place_initial_offer_cctp : (offer_price : ℤ) → PlaceInitialOfferCctp → Ix
  improve_offer : (offer_price : ℤ) → ImproveOffer → Ix
  prepare_order_response_cctp : CctpMessageArgs → PrepareOrderResponseCctp → Ix
  settle_auction_complete : SettleAuctionComplete → Ix
  settle_auction_none_local : SettleAuctionNoneLocal → Ix
  settle_auction_none_cctp : SettleAuctionNoneCctp → Ix
  execute_fast_order_cctp : ExecuteFastOrderCctp → Ix
  execute_fast_order_local : ExecuteFastOrderLocal → Ix
  reserve_fast_fill_sequence_active_auction :
      ReserveFastFillSequence → (auction_config : PublicKey) → EventCpi → Ix
  reserve_fast_fill_sequence_no_auction :
      ReserveFastFillSequence → (prepared_order_response : PublicKey) → EventCpi → Ix
  close_auction : CloseAuction → Ix
