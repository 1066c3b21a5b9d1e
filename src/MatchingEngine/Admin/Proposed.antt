-- ===== src/MatchingEngine/Admin/Proposed.antt =====
-- A proposal from its creation to its enactment.

use example_liquidity_layer.Buffer.{be_bytes}
use example_liquidity_layer.Solana.{buffer_from}
use example_liquidity_layer.MatchingEngine.Known.{auction_config_address-pda}
use example_liquidity_layer.Prelude.{
  Error, throw, ◌≤◌, Option, [], ap, none, ok, or_else, refl, sym, ℕ, ◌+◌, ◌<◌, ◌^◌, ◌∷◌, ◌≡◌, ◌⊎◌,
}
use example_liquidity_layer.Prelude.Int.{pos}
use example_liquidity_layer.Auction.{PublicKey}
use example_liquidity_layer.Penalty.{AuctionParameters}
use example_liquidity_layer.Uint64.{bn}
use example_liquidity_layer.Uint64.Laws.{uint64_to_bn_lem}
use example_liquidity_layer.MatchingEngine.Addresses.{
  Program, address, custodian_address, proposal_address,
}
use example_liquidity_layer.MatchingEngine.State.{
  Custodian, Ledger, Proposal, update_auction_parameters,
}
use example_liquidity_layer.MatchingEngine.Composites.{admin_composite, owner_only_mut_composite}
use example_liquidity_layer.MatchingEngine.Offers.{event_cpi}
use example_liquidity_layer.MatchingEngine.Admin.{
  CloseProposal, ProposeAuctionParameters, UpdateAuctionParameters, close_proposal,
  enact_auction_parameters, propose_auction_parameters,
}
use example_liquidity_layer.MatchingEngine.Admin.Build.{
  close_proposal_ix, proposal_of, propose_auction_parameters_ix, update_auction_parameters_ix,
}
use example_liquidity_layer.MatchingEngine.Admin.Accepted.{
  AdminAccepted, CloseProposalAccepted, CustodianAccepted, PendingProposal, ProposeAccepted,
  UpdateAuctionParametersAccepted, proposal_pda,
}

-- What the Rust program stores for a proposal.
pub record StoresProposal (custodian : Custodian) (by : PublicKey) (parameters : AuctionParameters)
    (next : ℕ) (proposal : Proposal) : Type 0 where
  pub id_is : proposal.id ≡ pos next
  pub action :
      proposal.action ≡ update_auction_parameters (custodian.auction_config_id + 1) parameters
  pub by_is : proposal.by ≡ by
  pub owner_is : proposal.owner ≡ custodian.owner
  pub not_enacted : proposal.slot_enacted_at ≡ none
  pub delay : ℕ
  pub delay_is : proposal.slot_enact_delay ≡ pos delay

-- The custodian, with ids that fit.
pub record Governed (p : Program) (l : Ledger) : Type 0 where
  pub custodian : Custodian
  pub fetched : l.fetch_custodian (custodian_address p) ≡ ok custodian
  pub next : ℕ
  pub next_is : custodian.next_proposal_id ≡ pos next
  pub small : next < 2 ^ 64
  pub small_config : custodian.auction_config_id + 1 < 256 ^ 4

module _ (p : Program) (l : Ledger) (g : Governed p l) where
  proposal_of-none : proposal_of p l none ≡ ok (proposal_pda p l g.next)
  unfolding proposal_of proposal_address
  proposal_of-none =
      rw (g.fetched, g.next_is, (uint64_to_bn_lem (bn (pos g.next)) g.next refl g.small).0) refl

  abbrev the_custodian : CustodianAccepted p l (custodian_address p)
  the_custodian = record { seeds = refl; custodian = g.custodian; stored = g.fetched }

  abbrev the_admin :
      (admin : PublicKey)
      → (admin ≡ g.custodian.owner) ⊎ (admin ≡ g.custodian.owner_assistant)
      → AdminAccepted p l (admin_composite p admin none)
  the_admin admin authorized = record {
    custodian = record { seeds = refl; custodian = g.custodian; stored = g.fetched };
    authorized = authorized;
  }

  abbrev the_proposal : PublicKey → Option PublicKey → ProposeAuctionParameters
  the_proposal admin payer = record {
    payer = or_else payer admin;
    admin = admin_composite p admin none;
    proposal = proposal_pda p l g.next;
    epoch_schedule = p.web3.sysvar_epoch_schedule;
    system_program = p.web3.system_program_id;
    event_cpi = event_cpi p;
  }

  propose_lem :
      (admin : PublicKey) (payer : Option PublicKey) (parameters : AuctionParameters)
      (thrown : Error)
      → l.fetch_proposal (proposal_pda p l g.next) ≡ throw thrown
      → (admin ≡ g.custodian.owner) ⊎ (admin ≡ g.custodian.owner_assistant)
      → (propose_auction_parameters_ix p l admin payer none none parameters none
          ≡ ok (propose_auction_parameters parameters (the_proposal admin payer)))
        × ProposeAccepted p l (the_proposal admin payer)
  unfolding propose_auction_parameters_ix
  propose_lem admin payer parameters thrown new authorized = (
    rw proposal_of-none refl,
    record {
      admin = the_admin admin authorized;
      next = g.next;
      next_is = g.next_is;
      proposal_seeds = refl;
      thrown = thrown;
      unproposed = new;
      epoch_schedule = refl;
      system_program = refl;
      event_cpi = record { authority = refl; program_is_self = refl };
    },
  )

  abbrev the_close : PublicKey → PublicKey → CloseProposal
  the_close admin by = record {
    admin = admin_composite p admin none;
    proposed_by = by;
    proposal = proposal_pda p l g.next;
  }

  abbrev the_update : Option PublicKey → UpdateAuctionParameters
  the_update payer = record {
    payer = or_else payer g.custodian.owner;
    admin = owner_only_mut_composite p g.custodian.owner none;
    proposal = proposal_pda p l g.next;
    auction_config =
        address p
          (buffer_from "auction-config" ∷ be_bytes 4 (g.custodian.auction_config_id + 1) ∷ []);
    system_program = p.web3.system_program_id;
    event_cpi = event_cpi p;
  }

  module _ (proposer : PublicKey) (parameters : AuctionParameters) (proposal : Proposal)
      (s : StoresProposal g.custodian proposer parameters g.next proposal)
      (stored : l.fetch_proposal (proposal_pda p l g.next) ≡ ok proposal) where
    abbrev the_pending : PendingProposal p l (proposal_pda p l g.next)
    the_pending = record {
      proposal = proposal;
      stored = stored;
      id = g.next;
      id_is = s.id_is;
      seeds = refl;
      not_enacted = s.not_enacted;
    }

    close_lem :
        (admin : PublicKey)
        → (admin ≡ g.custodian.owner) ⊎ (admin ≡ g.custodian.owner_assistant)
        → (close_proposal_ix p l admin none none ≡ ok (close_proposal (the_close admin proposer)))
          × CloseProposalAccepted p l (the_close admin proposer)
    unfolding close_proposal_ix
    close_lem admin authorized = (
      rw (proposal_of-none, stored, s.by_is) refl,
      record {
        admin = the_admin admin authorized;
        pending = the_pending;
        proposed_by = sym s.by_is;
      },
    )

    update_lem :
        (payer : Option PublicKey) (slot : ℕ) (thrown : Error)
        → s.delay ≤ slot
        → l.fetch_auction_config (the_update payer).auction_config ≡ throw thrown
        → (update_auction_parameters_ix p l g.custodian.owner payer none none none none
            ≡ ok (enact_auction_parameters (the_update payer)))
          × UpdateAuctionParametersAccepted p l slot (the_update payer)
    unfolding update_auction_parameters_ix
    update_lem payer slot thrown due new = (
      rw (proposal_of-none, g.fetched, auction_config_address-pda p l _ g.small_config) refl,
      record {
        custodian = the_custodian;
        owner = refl;
        pending = the_pending;
        same_owner = s.owner_is;
        parameters = parameters;
        action = s.action;
        delay = s.delay;
        delay_is = s.delay_is;
        expired = due;
        config_seeds = refl;
        thrown = thrown;
        unconfigured = new;
        system_program = refl;
        event_cpi = record { authority = refl; program_is_self = refl };
      },
    )

-- Where the ids of the custodian fit their widths and the next proposal is not there yet, an admin's proposal of
-- parameters succeeds, with accounts that the Rust program accepts. Once the proposal that the program stores
-- for it is there, its delay is over, the next auction config is not there yet, and the ids of the custodian are
-- the same, its owner's enactment and an admin's closing succeed too, with accounts that
-- the program accepts: though the caller names no proposal, all three name the same account, and the account
-- that closing refunds is that of the proposer.
pub proposal_lem :
    (p : Program) (l l' : Ledger) (g : Governed p l) (g' : Governed p l')
    (proposer closer : PublicKey) (payer : Option PublicKey) (parameters : AuctionParameters)
    (proposal : Proposal) (slot : ℕ) (thrown thrown_later : Error)
    → l.fetch_proposal (proposal_pda p l g.next) ≡ throw thrown
    → (proposer ≡ g.custodian.owner) ⊎ (proposer ≡ g.custodian.owner_assistant)
    → (closer ≡ g'.custodian.owner) ⊎ (closer ≡ g'.custodian.owner_assistant)
    → g.next ≡ g'.next
    → l'.fetch_proposal (proposal_pda p l' g'.next) ≡ ok proposal
    → (stores : StoresProposal g'.custodian proposer parameters g'.next proposal)
    → stores.delay ≤ slot
    → l'.fetch_auction_config (the_update p l' g' payer).auction_config ≡ throw thrown_later
    → (propose : ProposeAuctionParameters) × (update : UpdateAuctionParameters)
      × (close : CloseProposal) × (propose_auction_parameters_ix p l proposer payer none none
            parameters none
          ≡ ok (propose_auction_parameters parameters propose))
      × ProposeAccepted p l propose
      × (update_auction_parameters_ix p l' g'.custodian.owner payer none none none none
          ≡ ok (enact_auction_parameters update))
      × UpdateAuctionParametersAccepted p l' slot update
      × (close_proposal_ix p l' closer none none ≡ ok (close_proposal close))
      × CloseProposalAccepted p l' close
      × (update.proposal ≡ propose.proposal)
      × (close.proposal ≡ propose.proposal)
      × (close.proposed_by ≡ proposer)
proposal_lem p l l' g g' proposer closer payer parameters proposal slot thrown thrown_later new
      authorized closes same stored s due new' =
    let (proposes, accepted) = propose_lem p l g proposer payer parameters thrown new authorized in
    let (updates, enacted) =
      update_lem p l' g' proposer parameters proposal s stored payer slot thrown_later due new' in
    let (closing, closed) = close_lem p l' g' proposer parameters proposal s stored closer closes in
    (
      the_proposal p l g proposer payer,
      the_update p l' g' payer,
      the_close p l' g' closer proposer,
      proposes,
      accepted,
      updates,
      enacted,
      closing,
      closed,
      ap (proposal_pda p l) (sym same),
      ap (proposal_pda p l) (sym same),
      refl,
    )
