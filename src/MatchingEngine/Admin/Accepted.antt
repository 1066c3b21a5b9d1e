-- ===== src/MatchingEngine/Admin/Accepted.antt =====
-- What the Rust program (solana/programs/matching-engine/src/processor/admin) asks of the accounts of a
-- proposal.
use example_liquidity_layer.Prelude.{Error, throw, ◌≤◌, [], none, ok, ℕ, ◌+◌, ◌∷◌, ◌≡◌, ◌⊎◌}
use example_liquidity_layer.Prelude.Int.{pos}
use example_liquidity_layer.Buffer.{be_bytes}
use example_liquidity_layer.Auction.{PublicKey}
use example_liquidity_layer.Penalty.{AuctionParameters}
use example_liquidity_layer.Solana.{buffer_from}
use example_liquidity_layer.MatchingEngine.Addresses.{Program, address}
use example_liquidity_layer.MatchingEngine.State.{
  Custodian, Ledger, Proposal, update_auction_parameters,
}
use example_liquidity_layer.MatchingEngine.Onchain.{EventCpiAccepted}
use example_liquidity_layer.MatchingEngine.Composites.{Admin}
use example_liquidity_layer.MatchingEngine.Admin.{
  CloseProposal, ProposeAuctionParameters, UpdateAuctionParameters,
}

module _ (p : Program) (l : Ledger) where
  abbrev pub proposal_pda : ℕ → PublicKey
  proposal_pda id = address p (buffer_from "proposal" ∷ be_bytes 8 id ∷ [])

  -- The custodian of an instruction, at its seeds.
  pub record CustodianAccepted (key : PublicKey) : Type 0 where
    pub seeds : key ≡ address p (buffer_from "emitter" ∷ [])
    pub custodian : Custodian
    pub stored : l.fetch_custodian key ≡ ok custodian

  -- A signer who is the owner or the owner's assistant.
  pub record AdminAccepted (a : Admin) : Type 0 where
    pub custodian : CustodianAccepted a.custodian.custodian
    pub authorized :
        (a.owner_or_assistant ≡ custodian.custodian.owner)
        ⊎ (a.owner_or_assistant ≡ custodian.custodian.owner_assistant)

  pub record ProposeAccepted (a : ProposeAuctionParameters) : Type 0 where
    pub admin : AdminAccepted a.admin
    pub next : ℕ
    pub next_is : admin.custodian.custodian.next_proposal_id ≡ pos next
    pub proposal_seeds : a.proposal ≡ proposal_pda next
    -- The proposal's account is made, so it is not there yet.
    pub thrown : Error
    pub unproposed : l.fetch_proposal a.proposal ≡ throw thrown
    pub epoch_schedule : a.epoch_schedule ≡ p.web3.sysvar_epoch_schedule
    pub system_program : a.system_program ≡ p.web3.system_program_id
    pub event_cpi : EventCpiAccepted p l a.event_cpi

  -- The stored proposal at its own seeds, not enacted yet.
  pub record PendingProposal (key : PublicKey) : Type 0 where
    pub proposal : Proposal
    pub stored : l.fetch_proposal key ≡ ok proposal
    pub id : ℕ
    pub id_is : proposal.id ≡ pos id
    pub seeds : key ≡ proposal_pda id
    pub not_enacted : proposal.slot_enacted_at ≡ none

  pub record CloseProposalAccepted (a : CloseProposal) : Type 0 where
    pub admin : AdminAccepted a.admin
    pub pending : PendingProposal a.proposal
    pub proposed_by : a.proposed_by ≡ pending.proposal.by

  -- At a slot of the clock.
  pub record UpdateAuctionParametersAccepted (slot : ℕ) (a : UpdateAuctionParameters) : Type 0 where
    pub custodian : CustodianAccepted a.admin.custodian
    pub owner : a.admin.owner ≡ custodian.custodian.owner
    pub pending : PendingProposal a.proposal
    pub delay : ℕ
    pub delay_is : pending.proposal.slot_enact_delay ≡ pos delay
    pub expired : delay ≤ slot
    pub same_owner : pending.proposal.owner ≡ a.admin.owner
    pub parameters : AuctionParameters
    pub action :
        pending.proposal.action
        ≡ update_auction_parameters (custodian.custodian.auction_config_id + 1) parameters
    pub config_seeds :
        a.auction_config
        ≡ address p (
            buffer_from "auction-config"
            ∷ be_bytes 4 (custodian.custodian.auction_config_id + 1)
            ∷ [])
    -- The config's account is made, so it is not there yet.
    pub thrown : Error
    pub unconfigured : l.fetch_auction_config a.auction_config ≡ throw thrown
    pub system_program : a.system_program ≡ p.web3.system_program_id
    pub event_cpi : EventCpiAccepted p l a.event_cpi
