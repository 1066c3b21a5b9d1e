-- ===== src/MatchingEngine/Admin.antt =====
-- The instructions of the owner and the admins (solana/ts/src/matchingEngine/index.ts), each as its name, its
-- arguments and its accounts.
pub mod Build
pub mod Accepted
pub mod Proposed
mod Tests
use example_liquidity_layer.Prelude.{Bool, List, Option, ℕ}
use example_liquidity_layer.Auction.{PublicKey}
use example_liquidity_layer.Penalty.{AuctionParameters}
use example_liquidity_layer.MatchingEngine.Composites.{
  Admin, AdminMut, LocalTokenRouter, OwnerOnly, OwnerOnlyMut,
}
use example_liquidity_layer.MatchingEngine.Instructions.{EventCpi}

pub record AddCctpRouterEndpointArgs : Type 0 where
  pub chain : ℕ
  pub cctp_domain : ℕ
  pub address : List ℕ
  pub mint_recipient : Option (List ℕ)

pub record Initialize : Type 0 where
  pub owner : PublicKey
  pub custodian : PublicKey
  pub auction_config : PublicKey
  pub owner_assistant : PublicKey
  pub fee_recipient : PublicKey
  pub fee_recipient_token : PublicKey
  pub cctp_mint_recipient : PublicKey
  pub usdc : PublicKey
  pub program_data : PublicKey
  pub upgrade_manager_authority : PublicKey
  pub upgrade_manager_program : PublicKey
  pub bpf_loader_upgradeable_program : PublicKey
  pub associated_token_program : PublicKey
  pub token_program : PublicKey
  pub system_program : PublicKey

pub record AddCctpRouterEndpoint : Type 0 where
  pub payer : PublicKey
  pub admin : Admin
  pub router_endpoint : PublicKey
  pub local_custody_token : PublicKey
  pub remote_token_messenger : PublicKey
  pub usdc : PublicKey
  pub token_program : PublicKey
  pub system_program : PublicKey

pub record ProposeAuctionParameters : Type 0 where
  pub payer : PublicKey
  pub admin : Admin
  pub proposal : PublicKey
  pub epoch_schedule : PublicKey
  pub system_program : PublicKey
  pub event_cpi : EventCpi

pub record CloseProposal : Type 0 where
  pub admin : Admin
  pub proposed_by : PublicKey
  pub proposal : PublicKey

pub record UpdateAuctionParameters : Type 0 where
  pub payer : PublicKey
  pub admin : OwnerOnlyMut
  pub proposal : PublicKey
  pub auction_config : PublicKey
  pub system_program : PublicKey
  pub event_cpi : EventCpi

pub record AddLocalRouterEndpoint : Type 0 where
  pub payer : PublicKey
  pub admin : Admin
  pub router_endpoint : PublicKey
  pub token_router : LocalTokenRouter
  pub system_program : PublicKey

pub data AdminIx : Type 0 where
  initialize : AuctionParameters → Initialize → AdminIx
  set_pause : (paused : Bool) → AdminMut → AdminIx
  submit_ownership_transfer_request : OwnerOnlyMut → (new_owner : PublicKey) → AdminIx
  confirm_ownership_transfer_request : (pending_owner custodian : PublicKey) → AdminIx
  cancel_ownership_transfer_request : OwnerOnlyMut → AdminIx
  update_owner_assistant : OwnerOnlyMut → (new_owner_assistant : PublicKey) → AdminIx
  add_cctp_router_endpoint : AddCctpRouterEndpointArgs → AddCctpRouterEndpoint → AdminIx
  update_cctp_router_endpoint :
      AddCctpRouterEndpointArgs
      → OwnerOnly
      → (router_endpoint remote_token_messenger : PublicKey) → AdminIx
  propose_auction_parameters : AuctionParameters → ProposeAuctionParameters → AdminIx
  close_proposal : CloseProposal → AdminIx
  enact_auction_parameters : UpdateAuctionParameters → AdminIx
  add_local_router_endpoint : AddLocalRouterEndpoint → AdminIx
  update_local_router_endpoint :
      OwnerOnly → (router_endpoint : PublicKey) → LocalTokenRouter → AdminIx
  disable_router_endpoint : OwnerOnly → (router_endpoint : PublicKey) → AdminIx
  update_fee_recipient :
      AdminMut → (new_fee_recipient new_fee_recipient_token : PublicKey) → AdminIx
