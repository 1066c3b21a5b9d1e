-- ===== src/MatchingEngine/Onchain.antt =====
-- What the Rust program (solana/programs/matching-engine/src) asks of the accounts of an instruction: the
-- seeds, the stored keys and ids, and the states: that the program is not paused, an endpoint in use, an
-- auction active, and an account that is made not there yet. What it asks besides, of the time, the prices and
-- the balances, does not depend on which accounts are passed and is left out.

use example_liquidity_layer.Prelude.{Error, [], false, ok, some, throw, ℕ, ◌∷◌, ◌≡◌, ◌≢◌}
use example_liquidity_layer.Cctp.Programs.{CctpPrograms}
use example_liquidity_layer.Buffer.{Bytes, be_bytes}
use example_liquidity_layer.Auction.{AuctionInfo, PublicKey}
use example_liquidity_layer.Penalty.{AuctionConfig}
use example_liquidity_layer.Vaa.{EmitterInfo, VaaAccount, emitter_info, vaa_digest}
use example_liquidity_layer.Solana.{buffer_from}
use example_liquidity_layer.MatchingEngine.Addresses.{Program, address}
use example_liquidity_layer.MatchingEngine.State.{
  Auction, Custodian, FastMarketOrder, Ledger, PreparedOrderResponse, RouterEndpoint, active, cctp,
  no_protocol,
}
use example_liquidity_layer.MatchingEngine.Composites.{
  ActiveAuction, FastOrderPath, fetch_vaa, order_of,
}
use example_liquidity_layer.MatchingEngine.Instructions.{
  EventCpi, ExecuteFastOrderCctp, ExecuteOrder, ImproveOffer, PlaceInitialOfferCctp,
  SettleAuctionComplete,
}

module _ (p : Program) (l : Ledger) where
  abbrev pub endpoint_pda : ℕ → PublicKey
  endpoint_pda chain = address p (buffer_from "endpoint" ∷ be_bytes 2 chain ∷ [])

  abbrev pub auction_pda : Bytes → PublicKey
  auction_pda digest = address p (buffer_from "auction" ∷ digest ∷ [])

  abbrev pub order_response_pda : Bytes → PublicKey
  order_response_pda digest = address p (buffer_from "order-response" ∷ digest ∷ [])

  abbrev pub transfer_authority_pda : PublicKey → ℕ → PublicKey
  transfer_authority_pda auction offer_price =
      address p (buffer_from "transfer-authority" ∷ auction ∷ be_bytes 8 offer_price ∷ [])

  -- The accounts that `event_cpi` adds.
  pub record EventCpiAccepted (e : EventCpi) : Type 0 where
    pub authority : e.event_authority ≡ address p (buffer_from "__event_authority" ∷ [])
    pub program_is_self : e.program ≡ p.id

  pub record EndpointAccepted (key : PublicKey) (chain : ℕ) : Type 0 where
    pub endpoint : RouterEndpoint
    pub stored : l.fetch_router_endpoint key ≡ ok endpoint
    pub seeds : key ≡ endpoint_pda endpoint.info.chain
    pub same_chain : endpoint.info.chain ≡ chain
    pub enabled : endpoint.info.protocol ≢ no_protocol

  -- The path of an order: the endpoints of the chains that the VAA names.
  pub record FastOrderPathAccepted (f : FastOrderPath) : Type 0 where
    pub vaa : VaaAccount
    pub loaded : fetch_vaa p l f.fast_vaa ≡ ok vaa
    pub emitter : EmitterInfo
    pub emitted : emitter_info l.sdk vaa ≡ ok emitter
    pub order : FastMarketOrder
    pub is_order : order_of p l vaa ≡ ok order
    pub from_endpoint : EndpointAccepted f.path.from_endpoint emitter.chain
    pub same_address : from_endpoint.endpoint.info.address ≡ emitter.address
    pub to_endpoint : EndpointAccepted f.path.to_endpoint (l.sdk.to_chain_id order.target_chain)
    pub different : from_endpoint.endpoint.info.chain ≢ to_endpoint.endpoint.info.chain

  -- The key derived from the digest of a VAA.
  pub record DigestSeeds (fast_vaa key : PublicKey) (pda : Bytes → PublicKey) : Type 0 where
    pub vaa : VaaAccount
    pub loaded : fetch_vaa p l fast_vaa ≡ ok vaa
    pub digest : Bytes
    pub digested : vaa_digest l.sdk vaa ≡ ok digest
    pub seeds : key ≡ pda digest

  pub record ConfigAccepted (key : PublicKey) (id : ℕ) : Type 0 where
    pub config : AuctionConfig
    pub stored : l.fetch_auction_config key ≡ ok config
    pub same_id : config.id ≡ id

  pub record PlaceInitialOfferAccepted (offer_price : ℕ) (a : PlaceInitialOfferCctp) : Type 0 where
    pub transfer_authority : a.transfer_authority ≡ transfer_authority_pda a.auction offer_price
    pub custodian_seeds : a.custodian.custodian ≡ address p (buffer_from "emitter" ∷ [])
    pub custodian : Custodian
    pub custodian_stored : l.fetch_custodian a.custodian.custodian ≡ ok custodian
    pub not_paused : custodian.paused ≡ false
    pub auction_config : ConfigAccepted a.auction_config custodian.auction_config_id
    pub fast_order_path : FastOrderPathAccepted a.fast_order_path
    pub auction : DigestSeeds a.fast_order_path.fast_vaa a.auction auction_pda
    -- The auction's account is made, so it is not there yet.
    pub thrown : Error
    pub unopened : l.fetch_auction a.auction ≡ throw thrown
    pub custody_token :
        a.auction_custody_token ≡ address p (buffer_from "auction-custody" ∷ a.auction ∷ [])
    pub usdc : a.usdc ≡ p.mint
    pub token_program : a.token_program ≡ p.web3.token_program_id
    pub system_program : a.system_program ≡ p.web3.system_program_id
    pub event_cpi : EventCpiAccepted a.event_cpi

  pub record ActiveAuctionAccepted (a : ActiveAuction) : Type 0 where
    pub auction : Auction
    pub stored : l.fetch_auction a.auction ≡ ok auction
    pub seeds : a.auction ≡ auction_pda auction.vaa_hash
    pub is_active : auction.status ≡ active
    pub info : AuctionInfo
    pub has_info : auction.info ≡ some info
    pub custody_token : a.custody_token ≡ address p (buffer_from "auction-custody" ∷ a.auction ∷ [])
    pub config : ConfigAccepted a.config info.config_id
    pub best_offer_token : a.best_offer_token ≡ info.best_offer_token

  pub record ImproveOfferAccepted (offer_price : ℕ) (a : ImproveOffer) : Type 0 where
    pub transfer_authority :
        a.transfer_authority ≡ transfer_authority_pda a.active_auction.auction offer_price
    pub active_auction : ActiveAuctionAccepted a.active_auction
    pub other_token : a.offer_token ≢ a.active_auction.custody_token
    pub token_program : a.token_program ≡ p.web3.token_program_id
    pub event_cpi : EventCpiAccepted a.event_cpi

  -- `response` is the prepared response at the time, which the instruction before may have written.
  pub record SettleAuctionCompleteAccepted (response : PreparedOrderResponse)
      (a : SettleAuctionComplete) : Type 0 where
    pub beneficiary : a.beneficiary ≡ response.info.prepared_by
    pub base_fee_token : a.base_fee_token ≡ response.info.base_fee_token
    pub auction : Auction
    pub stored : l.fetch_auction a.auction ≡ ok auction
    pub info : AuctionInfo
    pub has_info : auction.info ≡ some info
    pub best_offer_token : a.best_offer_token ≡ info.best_offer_token
    pub response_seeds : a.prepared_order_response ≡ order_response_pda response.fast_vaa_hash
    pub custody_token :
        a.prepared_custody_token
        ≡ address p (buffer_from "prepared-custody" ∷ a.prepared_order_response ∷ [])
    pub auction_seeds : a.auction ≡ auction_pda response.fast_vaa_hash
    pub event_cpi : EventCpiAccepted a.event_cpi

  pub record ExecuteOrderAccepted (a : ExecuteOrder) : Type 0 where
    pub active_auction : ActiveAuctionAccepted a.active_auction
    pub fast_vaa : DigestSeeds a.fast_vaa a.active_auction.auction auction_pda
    pub same_hash : fast_vaa.digest ≡ active_auction.auction.vaa_hash
    pub order : FastMarketOrder
    pub is_order : order_of p l fast_vaa.vaa ≡ ok order
    pub initial_offer_token : a.initial_offer_token ≡ active_auction.info.initial_offer_token
    pub initial_participant : a.initial_participant ≡ active_auction.auction.prepared_by

  -- The endpoint must have the protocol of the auction; `chain` is the target chain of the order.
  pub record ExecuteFastOrderCctpAccepted (c : CctpPrograms) (core_bridge : PublicKey) (chain : ℕ)
      (a : ExecuteFastOrderCctp) : Type 0 where
    pub execute_order : ExecuteOrderAccepted a.execute_order
    pub core_message :
        a.core_message
        ≡ address p (buffer_from "core-msg" ∷ a.execute_order.active_auction.auction ∷ [])
    pub cctp_message :
        a.cctp_message
        ≡ address p (buffer_from "cctp-msg" ∷ a.execute_order.active_auction.auction ∷ [])
    pub custodian_seeds : a.custodian.custodian ≡ address p (buffer_from "emitter" ∷ [])
    pub custodian : Custodian
    pub custodian_stored : l.fetch_custodian a.custodian.custodian ≡ ok custodian
    pub to_router_endpoint : EndpointAccepted a.to_router_endpoint chain
    pub same_protocol :
        to_router_endpoint.endpoint.info.protocol
        ≡ execute_order.active_auction.auction.target_protocol
    pub domain : ℕ
    pub by_cctp : to_router_endpoint.endpoint.info.protocol ≡ cctp domain
    pub core_bridge_program : a.wormhole.core_bridge_program ≡ core_bridge
    pub mint : a.cctp.mint ≡ p.mint
    pub minter_program : a.cctp.token_messenger_minter_program ≡ c.token_messenger_minter_id
    pub transmitter_program : a.cctp.message_transmitter_program ≡ c.message_transmitter_id
    pub clock : a.sysvars.clock ≡ p.web3.sysvar_clock
    pub rent : a.sysvars.rent ≡ p.web3.sysvar_rent
    pub token_program : a.token_program ≡ p.web3.token_program_id
    pub system_program : a.system_program ≡ p.web3.system_program_id
    pub event_cpi : EventCpiAccepted a.event_cpi
