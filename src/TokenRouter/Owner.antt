-- ===== src/TokenRouter/Owner.antt =====
-- The instructions of the token router's owner and its assistant: initializeIx to updateOwnerAssistantIx of
-- solana/ts/src/tokenRouter/index.ts.
pub mod Onchain
pub mod Ownership
mod Tests
use example_liquidity_layer.Prelude.{Bool, Option, Result, [], ok, or_else, ◌∷◌, ◌>>=◌}
use example_liquidity_layer.Auction.{PublicKey}
use example_liquidity_layer.Solana.{buffer_from}
use example_liquidity_layer.MatchingEngine.Addresses.{
  cctp_mint_recipient_address, custodian_address,
}
use example_liquidity_layer.MatchingEngine.Composites.{
  AdminMut, OwnerOnlyMut, admin_mut_composite, custodian_or, owner_only_mut_composite,
}
use example_liquidity_layer.MatchingEngine.Admin.Build.{program_data_address}
use example_liquidity_layer.TokenRouter.{TokenRouter}

pub record Initialize : Type 0 where
  pub owner : PublicKey
  pub custodian : PublicKey
  pub owner_assistant : PublicKey
  pub mint : PublicKey
  pub cctp_mint_recipient : PublicKey
  pub program_data : PublicKey
  pub upgrade_manager_authority : PublicKey
  pub upgrade_manager_program : PublicKey
  pub bpf_loader_upgradeable_program : PublicKey
  pub associated_token_program : PublicKey
  pub token_program : PublicKey
  pub system_program : PublicKey

pub data RouterIx : Type 0 where
  initialize : Initialize → RouterIx
  set_pause : (paused : Bool) → AdminMut → RouterIx
  submit_ownership_transfer_request : OwnerOnlyMut → (new_owner : PublicKey) → RouterIx
  confirm_ownership_transfer_request : (pending_owner custodian : PublicKey) → RouterIx
  cancel_ownership_transfer_request : OwnerOnlyMut → RouterIx
  update_owner_assistant : OwnerOnlyMut → (new_owner_assistant : PublicKey) → RouterIx

module _ (r : TokenRouter) where
  -- `upgrade_manager` is the id that upgradeManagerProgram has for the network.
  unfoldable pub initialize_ix :
      (upgrade_manager owner owner_assistant : PublicKey) (mint : Option PublicKey)
      → Result RouterIx
  initialize_ix upgrade_manager owner owner_assistant mint = do
    recipient ← cctp_mint_recipient_address r.program
    ok (
        initialize (record {
          owner = owner;
          custodian = custodian_address r.program;
          owner_assistant = owner_assistant;
          mint = or_else mint r.program.mint;
          cctp_mint_recipient = recipient;
          program_data = program_data_address r.program;
          upgrade_manager_authority =
              r.program.web3.find_program_address (buffer_from "upgrade" ∷ []) upgrade_manager;
          upgrade_manager_program = upgrade_manager;
          bpf_loader_upgradeable_program = r.program.web3.bpf_loader_upgradeable_program_id;
          associated_token_program = r.program.web3.associated_token_program_id;
          token_program = r.program.web3.token_program_id;
          system_program = r.program.web3.system_program_id;
        }))

  unfoldable pub set_pause_ix : PublicKey → Option PublicKey → (paused : Bool) → RouterIx
  set_pause_ix owner_or_assistant custodian paused =
      set_pause paused (admin_mut_composite r.program owner_or_assistant custodian)

  unfoldable pub submit_ownership_transfer_ix :
      (owner new_owner : PublicKey) → Option PublicKey → RouterIx
  submit_ownership_transfer_ix owner new_owner custodian =
      submit_ownership_transfer_request (owner_only_mut_composite r.program owner custodian)
        new_owner

  unfoldable pub confirm_ownership_transfer_ix : PublicKey → Option PublicKey → RouterIx
  confirm_ownership_transfer_ix pending_owner custodian =
      confirm_ownership_transfer_request pending_owner (custodian_or r.program custodian)

  unfoldable pub cancel_ownership_transfer_ix : PublicKey → Option PublicKey → RouterIx
  cancel_ownership_transfer_ix owner custodian =
      cancel_ownership_transfer_request (owner_only_mut_composite r.program owner custodian)

  unfoldable pub update_owner_assistant_ix :
      (owner new_owner_assistant : PublicKey) → Option PublicKey → RouterIx
  update_owner_assistant_ix owner new_owner_assistant custodian =
      update_owner_assistant (owner_only_mut_composite r.program owner custodian)
        new_owner_assistant
