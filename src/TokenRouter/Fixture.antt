-- ===== src/TokenRouter/Fixture.antt =====
-- A token router with one prepared order, on the small state of the chain of MatchingEngine.Fixture.
use example_liquidity_layer.Prelude.{
  Result, [], arith, false, none, ok, range_error, refl, some, throw, ◌∷◌,
}
use example_liquidity_layer.Prelude.Int.{negsuc, pos, ℤ}
use example_liquidity_layer.Buffer.{Bytes, be_bytes}
use example_liquidity_layer.Auction.{PublicKey}
use example_liquidity_layer.MatchingEngine.Known.{Registered}
use example_liquidity_layer.MatchingEngine.Fixture.{endpoint, ledger, program, web3}
use example_liquidity_layer.TokenRouter.{Custodian, PreparedOrder, TokenRouter}

abbrev pub eight : ℤ → Result Bytes
eight (pos n) = ok (be_bytes 8 n)
eight (negsuc n) = throw range_error

abbrev pub prepared : PreparedOrder
prepared = record {
  info = record {
    prepared_custody_token_bump = 255;
    order_sender = 2 ∷ [];
    prepared_by = 2 ∷ [];
    order_type = record { market = some none };
    src_token = 3 ∷ [];
    refund_token = 3 ∷ [];
    target_chain = 5;
    redeemer = 9 ∷ [];
  };
  redeemer_message = [];
}

abbrev pub deployed : Custodian
deployed = record {
  paused = false;
  owner = 20 ∷ [];
  pending_owner = none;
  owner_assistant = 21 ∷ [];
  paused_set_by = 20 ∷ [];
}

abbrev pub router : TokenRouter
router = record {
  program = record { web3 = web3; id = 90 ∷ []; mint = program.mint };
  matching_engine = program;
  keccak256 = λ bytes. 42 ∷ bytes;
  to_buffer_be = eight;
  fetch_token_owner = λ key. ok (2 ∷ []);
  fetch_custodian = λ key. ok deployed;
  fetch_prepared_order = λ key. ok prepared;
}

unfoldable pub polygon : Registered program ledger 5
unfolding be_bytes
polygon = record {
  endpoint = endpoint;
  small = omega arith;
  stored = refl;
  same_chain = refl;
  enabled = λ e. cc;
}

abbrev pub core_bridge : PublicKey
core_bridge = 80 ∷ []
