-- ===== src/Solver/ImproveOffer/Accepted/Tests.antt =====
-- A raised offer on the small state of the chain.
use example_liquidity_layer.Prelude.{[], none, ok, some, true, ℕ, ◌∷◌}
use example_liquidity_layer.Prelude.Int.{pos}
use example_liquidity_layer.MatchingEngine.Instructions.{Ix}
use example_liquidity_layer.MatchingEngine.Fixture.{during_auction, program}
use example_liquidity_layer.MatchingEngine.Onchain.{auction_pda}
use example_liquidity_layer.Solver.Config.{PricingParameters}
use example_liquidity_layer.Solver.Transactions.{
  Instruction, PreparedTransaction, program_instruction,
}
use example_liquidity_layer.Solver.ImproveOffer.{AuctionUpdate, Player}

abbrev encode : Ix → Instruction
encode ix = program_instruction []

abbrev player : ℕ → Player
player noise = record {
  offer_token = record { authority = 31 ∷ []; address = 8 ∷ []; balance = pos 5000 };
  noise = noise;
}

abbrev event : AuctionUpdate
event = record {
  config_id = 7;
  auction = auction_pda program during_auction (42 ∷ 40 ∷ 41 ∷ []);
  source_chain = 5;
  best_offer_token = 60 ∷ [];
  token_balance_before = pos 5000;
  end_slot = pos 120;
  amount_in = pos 1000;
  total_deposit = pos 1095;
  max_offer_price_allowed = some (pos 49);
}

abbrev pricing : PricingParameters
pricing = record {
  chain = 5;
  probability_scaled = ok (pos 400);
  edge_pct_of_fv_scaled = ok (pos 500);
}

abbrev raise : PreparedTransaction
raise = record {
  ixs = program_instruction [] ∷ program_instruction [] ∷ [];
  signers = (31 ∷ []) ∷ [];
  compute_units = 50000;
  fee_micro_lamports = 42076;
  nonce_account = none;
  address_lookup_table_accounts = none;
  tx_name = some "improveOffer";
  confirm_options = some (record { commitment = none; skip_preflight = some true });
}
