-- ===== src/MatchingEngine/Admin/Tests.antt =====
-- A proposal of the owner's assistant, which the owner enacts.

use example_liquidity_layer.Prelude.{error, throw, [], arith, inl, inr, none, ok, refl, ◌∷◌, ◌≡◌}
use example_liquidity_layer.MatchingEngine.Fixture.{config, custodian, ledger, program, proposal}
use example_liquidity_layer.MatchingEngine.State.{Ledger}
use example_liquidity_layer.MatchingEngine.Admin.{
  CloseProposal, ProposeAuctionParameters, UpdateAuctionParameters, close_proposal,
  enact_auction_parameters, propose_auction_parameters,
}
use example_liquidity_layer.MatchingEngine.Admin.Build.{
  close_proposal_ix, propose_auction_parameters_ix, update_auction_parameters_ix,
}
use example_liquidity_layer.MatchingEngine.Admin.Accepted.{
  CloseProposalAccepted, ProposeAccepted, UpdateAuctionParametersAccepted,
}
use example_liquidity_layer.MatchingEngine.Admin.Proposed.{Governed, StoresProposal, proposal_lem}

-- Before the proposal, and before the next config.
abbrev unproposed : Ledger
unproposed = record ledger { fetch_proposal = λ key. throw (error "Account does not exist") }

abbrev unconfigured : Ledger
unconfigured = record ledger {
  fetch_auction_config = λ key. throw (error "Account does not exist");
}

abbrev governed : Governed program unproposed
governed = record {
  custodian = custodian;
  fetched = refl;
  next = 1;
  next_is = refl;
  small = omega arith;
  small_config = omega arith;
}

abbrev governed_after : Governed program unconfigured
governed_after = record {
  custodian = custodian;
  fetched = refl;
  next = 1;
  next_is = refl;
  small = omega arith;
  small_config = omega arith;
}

stores : StoresProposal custodian (21 ∷ []) config.parameters 1 proposal
stores = record {
  id_is = refl;
  action = refl;
  by_is = refl;
  owner_is = refl;
  not_enacted = refl;
  delay = 20;
  delay_is = refl;
}

proposal_lem_example :
    (propose : ProposeAuctionParameters) × (update : UpdateAuctionParameters)
    × (close : CloseProposal) × (propose_auction_parameters_ix program unproposed
          (21 ∷ [])
          none
          none
          none
          config.parameters
          none
        ≡ ok (propose_auction_parameters config.parameters propose))
    × ProposeAccepted program unproposed propose
    × (update_auction_parameters_ix program unconfigured (20 ∷ []) none none none none none
        ≡ ok (enact_auction_parameters update))
    × UpdateAuctionParametersAccepted program unconfigured 20 update
    × (close_proposal_ix program unconfigured (20 ∷ []) none none ≡ ok (close_proposal close))
    × CloseProposalAccepted program unconfigured close
    × (update.proposal ≡ propose.proposal)
    × (close.proposal ≡ propose.proposal)
    × (close.proposed_by ≡ 21 ∷ [])
unfolding stores
proposal_lem_example =
    proposal_lem program unproposed unconfigured governed governed_after (21 ∷ []) (20 ∷ []) none
      config.parameters proposal 20 (error "Account does not exist")
      (error "Account does not exist") refl (inr refl) (inl refl) refl refl stores (omega arith)
      refl
