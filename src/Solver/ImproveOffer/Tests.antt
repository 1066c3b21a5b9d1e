-- ===== src/Solver/ImproveOffer/Tests.antt =====
-- An auction, on which the theorem of the callback is applied.
use example_liquidity_layer.Prelude.{List, Result, [], none, ok, some, true, ℕ, ◌∷◌}
use example_liquidity_layer.Prelude.Int.{pos, ℤ}
use example_liquidity_layer.Auction.{PublicKey}
use example_liquidity_layer.Solver.Config.{PricingParameters}
use example_liquidity_layer.Solver.Transactions.{
  Instruction, PreparedTransaction, program_instruction,
}
use example_liquidity_layer.Solver.ImproveOffer.{AuctionUpdate, Player}

abbrev player : ℕ → Player
player noise = record {
  offer_token = record { authority = 5 ∷ []; address = 8 ∷ []; balance = pos 1000 };
  noise = noise;
}

abbrev event : AuctionUpdate
event = record {
  config_id = 1;
  auction = 3 ∷ [];
  source_chain = 2;
  best_offer_token = 9 ∷ [];
  token_balance_before = pos 5000;
  end_slot = pos 300_000_120;
  amount_in = pos 2000000;
  total_deposit = pos 2004200;
  max_offer_price_allowed = some (pos 1500000);
}

abbrev pricing : PricingParameters
pricing = record {
  chain = 2;
  probability_scaled = ok (pos 6900);
  edge_pct_of_fv_scaled = ok (pos 500);
}

abbrev ixs : PublicKey → AuctionUpdate → ℤ → Result (List Instruction)
ixs participant e price = ok (program_instruction participant ∷ [])

abbrev raise : PreparedTransaction
raise = record {
  ixs = program_instruction (5 ∷ []) ∷ [];
  signers = (5 ∷ []) ∷ [];
  compute_units = 50000;
  fee_micro_lamports = 42276;
  nonce_account = none;
  address_lookup_table_accounts = none;
  tx_name = some "improveOffer";
  confirm_options = some (record { commitment = none; skip_preflight = some true });
}
