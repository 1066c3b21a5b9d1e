-- ===== src/MatchingEngine/Admin/Build.antt =====
-- The functions that make the instructions of the owner and the admins (initializeIx to
-- updateFeeRecipientIx).

use example_liquidity_layer.Prelude.{
  Bool, Option, Result, [], false, none, ok, or_else, some, ℕ, ◌+◌, ◌∷◌, ◌>>=◌,
}
use example_liquidity_layer.Auction.{PublicKey}
use example_liquidity_layer.Penalty.{AuctionParameters}
use example_liquidity_layer.Uint64.{Uint64, bn}
use example_liquidity_layer.Solana.{buffer_from, given_or}
use example_liquidity_layer.Cctp.Programs.{CctpPrograms, remote_token_messenger_address}
use example_liquidity_layer.MatchingEngine.Addresses.{
  Program, auction_config_address, cctp_mint_recipient_address, custodian_address,
  local_custody_token_address, proposal_address, router_endpoint_address,
}
use example_liquidity_layer.MatchingEngine.State.{Ledger}
use example_liquidity_layer.MatchingEngine.Composites.{
  admin_composite, admin_mut_composite, custodian_or, local_token_router_composite,
  owner_only_composite, owner_only_mut_composite,
}
use example_liquidity_layer.MatchingEngine.Offers.{event_cpi}
use example_liquidity_layer.MatchingEngine.Admin.{
  AddCctpRouterEndpointArgs, AdminIx, add_cctp_router_endpoint, add_local_router_endpoint,
  cancel_ownership_transfer_request, close_proposal, confirm_ownership_transfer_request,
  disable_router_endpoint, enact_auction_parameters, initialize, propose_auction_parameters,
  set_pause, submit_ownership_transfer_request, update_cctp_router_endpoint, update_fee_recipient,
  update_local_router_endpoint, update_owner_assistant,
}

module _ (p : Program) where
  abbrev pub program_data_address : PublicKey
  program_data_address =
      p.web3.find_program_address (p.id ∷ []) p.web3.bpf_loader_upgradeable_program_id

  -- `upgrade_manager` is the id that upgradeManagerProgram has for the network.
  unfoldable pub initialize_ix :
      (upgrade_manager owner owner_assistant fee_recipient : PublicKey) (mint : Option PublicKey)
      → AuctionParameters
      → Result AdminIx
  initialize_ix upgrade_manager owner owner_assistant fee_recipient mint auction_params = do
    auction_config ← auction_config_address p 0
    fee_recipient_token ← p.web3.get_associated_token_address p.mint fee_recipient false
    cctp_mint_recipient ← cctp_mint_recipient_address p
    ok (
        initialize auction_params (record {
          owner = owner;
          custodian = custodian_address p;
          auction_config = auction_config;
          owner_assistant = owner_assistant;
          fee_recipient = fee_recipient;
          fee_recipient_token = fee_recipient_token;
          cctp_mint_recipient = cctp_mint_recipient;
          usdc = or_else mint p.mint;
          program_data = program_data_address;
          upgrade_manager_authority =
              p.web3.find_program_address (buffer_from "upgrade" ∷ []) upgrade_manager;
          upgrade_manager_program = upgrade_manager;
          bpf_loader_upgradeable_program = p.web3.bpf_loader_upgradeable_program_id;
          associated_token_program = p.web3.associated_token_program_id;
          token_program = p.web3.token_program_id;
          system_program = p.web3.system_program_id;
        }))

  unfoldable pub set_pause_ix : PublicKey → Option PublicKey → (paused : Bool) → AdminIx
  set_pause_ix owner_or_assistant custodian paused =
      set_pause paused (admin_mut_composite p owner_or_assistant custodian)

  unfoldable pub submit_ownership_transfer_ix :
      (owner new_owner : PublicKey) → Option PublicKey → AdminIx
  submit_ownership_transfer_ix owner new_owner custodian =
      submit_ownership_transfer_request (owner_only_mut_composite p owner custodian) new_owner

  unfoldable pub confirm_ownership_transfer_ix : PublicKey → Option PublicKey → AdminIx
  confirm_ownership_transfer_ix pending_owner custodian =
      confirm_ownership_transfer_request pending_owner (custodian_or p custodian)

  unfoldable pub cancel_ownership_transfer_ix : PublicKey → Option PublicKey → AdminIx
  cancel_ownership_transfer_ix owner custodian =
      cancel_ownership_transfer_request (owner_only_mut_composite p owner custodian)

  unfoldable pub update_owner_assistant_ix :
      (owner new_owner_assistant : PublicKey) → Option PublicKey → AdminIx
  update_owner_assistant_ix owner new_owner_assistant custodian =
      update_owner_assistant (owner_only_mut_composite p owner custodian) new_owner_assistant

  unfoldable pub update_fee_recipient_ix :
      (owner_or_assistant new_fee_recipient : PublicKey) → Option PublicKey → Result AdminIx
  update_fee_recipient_ix owner_or_assistant new_fee_recipient custodian = do
    token ← p.web3.get_associated_token_address p.mint new_fee_recipient false
    ok (
        update_fee_recipient (admin_mut_composite p owner_or_assistant custodian) new_fee_recipient
          token)

module _ (p : Program) (c : CctpPrograms) where
  unfoldable pub add_cctp_router_endpoint_ix :
      PublicKey
      → (payer custodian router_endpoint remote_token_messenger : Option PublicKey)
      → AddCctpRouterEndpointArgs
      → Result AdminIx
  add_cctp_router_endpoint_ix owner_or_assistant payer custodian endpoint messenger args = do
    router_endpoint ← given_or endpoint (router_endpoint_address p args.chain)
    local_custody_token ← local_custody_token_address p args.chain
    ok (
        add_cctp_router_endpoint args (record {
          payer = or_else payer owner_or_assistant;
          admin = admin_composite p owner_or_assistant custodian;
          router_endpoint = router_endpoint;
          local_custody_token = local_custody_token;
          remote_token_messenger =
              or_else messenger (remote_token_messenger_address c args.cctp_domain);
          usdc = p.mint;
          token_program = p.web3.token_program_id;
          system_program = p.web3.system_program_id;
        }))

  unfoldable pub update_cctp_router_endpoint_ix :
      PublicKey
      → (custodian router_endpoint remote_token_messenger : Option PublicKey)
      → AddCctpRouterEndpointArgs
      → Result AdminIx
  update_cctp_router_endpoint_ix owner custodian endpoint messenger args = do
    router_endpoint ← given_or endpoint (router_endpoint_address p args.chain)
    ok (
        update_cctp_router_endpoint args (owner_only_composite p owner custodian) router_endpoint
          (or_else messenger (remote_token_messenger_address c args.cctp_domain)))

module _ (p : Program) (l : Ledger) where
  unfoldable pub add_local_router_endpoint_ix :
      (owner_or_assistant token_router_program : PublicKey)
      (payer custodian router_endpoint : Option PublicKey)
      → Result AdminIx
  add_local_router_endpoint_ix owner_or_assistant token_router_program payer custodian endpoint = do
    router_endpoint ← given_or endpoint (router_endpoint_address p (l.sdk.to_chain_id "Solana"))
    token_router ← local_token_router_composite p token_router_program
    ok (
        add_local_router_endpoint (record {
          payer = or_else payer owner_or_assistant;
          admin = admin_composite p owner_or_assistant custodian;
          router_endpoint = router_endpoint;
          token_router = token_router;
          system_program = p.web3.system_program_id;
        }))

  unfoldable pub update_local_router_endpoint_ix :
      (owner token_router_program : PublicKey) (custodian router_endpoint : Option PublicKey)
      → Result AdminIx
  update_local_router_endpoint_ix owner token_router_program custodian endpoint = do
    router_endpoint ← given_or endpoint (router_endpoint_address p (l.sdk.to_chain_id "Solana"))
    token_router ← local_token_router_composite p token_router_program
    ok (
        update_local_router_endpoint (owner_only_composite p owner custodian) router_endpoint
          token_router)

  unfoldable pub disable_router_endpoint_ix :
      PublicKey → (custodian router_endpoint : Option PublicKey) → (chain : ℕ) → Result AdminIx
  disable_router_endpoint_ix owner custodian endpoint chain = do
    router_endpoint ← given_or endpoint (router_endpoint_address p chain)
    ok (disable_router_endpoint (owner_only_composite p owner custodian) router_endpoint)

  -- `proposalAddress`: the id of the custodian where none is given.
  unfoldable pub proposal_of : (proposal_id : Option Uint64) → Result PublicKey
  proposal_of (some id) = proposal_address p id
  proposal_of none = do
    custodian ← l.fetch_custodian (custodian_address p)
    proposal_address p (bn custodian.next_proposal_id)

  unfoldable pub propose_auction_parameters_ix :
      PublicKey
      → (payer custodian proposal : Option PublicKey) → AuctionParameters
      → (proposal_id : Option Uint64) → Result AdminIx
  unfolding proposal_of
  propose_auction_parameters_ix owner_or_assistant payer custodian given parameters id = do
    proposal ← given_or given (proposal_of id)
    ok (
        propose_auction_parameters parameters (record {
          payer = or_else payer owner_or_assistant;
          admin = admin_composite p owner_or_assistant custodian;
          proposal = proposal;
          epoch_schedule = p.web3.sysvar_epoch_schedule;
          system_program = p.web3.system_program_id;
          event_cpi = event_cpi p;
        }))

  unfoldable pub close_proposal_ix :
      PublicKey → (proposal : Option PublicKey) → (proposal_id : Option Uint64) → Result AdminIx
  unfolding proposal_of
  close_proposal_ix owner_or_assistant given id = do
    proposal ← given_or given (proposal_of id)
    stored ← l.fetch_proposal proposal
    ok (
        close_proposal (record {
          admin = admin_composite p owner_or_assistant none;
          proposed_by = stored.by;
          proposal = proposal;
        }))

  abbrev pub next_auction_config : Result PublicKey
  next_auction_config = do
    custodian ← l.fetch_custodian (custodian_address p)
    auction_config_address p (custodian.auction_config_id + 1)

  unfoldable pub update_auction_parameters_ix :
      PublicKey
      → (payer custodian proposal auction_config : Option PublicKey) → (proposal_id : Option Uint64)
      → Result AdminIx
  unfolding proposal_of
  update_auction_parameters_ix owner payer custodian given config id = do
    proposal ← given_or given (proposal_of id)
    auction_config ← given_or config next_auction_config
    ok (
        enact_auction_parameters (record {
          payer = or_else payer owner;
          admin = owner_only_mut_composite p owner custodian;
          proposal = proposal;
          auction_config = auction_config;
          system_program = p.web3.system_program_id;
          event_cpi = event_cpi p;
        }))
