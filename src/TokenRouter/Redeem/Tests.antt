-- ===== src/TokenRouter/Redeem/Tests.antt =====
-- Two fills that are redeemed: one from Polygon by CCTP, and a fast fill from Polygon.
use example_liquidity_layer.Prelude.{[], if◌then◌else◌, arith, ok, refl, replicate, ◌++◌, ◌∷◌, ◌≡◌}
use example_liquidity_layer.Prelude.Int.{pos}
use example_liquidity_layer.Auction.{PublicKey}
use example_liquidity_layer.AuctionHistory.{bytes_equal}
use example_liquidity_layer.Buffer.{be_bytes}
use example_liquidity_layer.Cctp.{CctpTokenBurnMessage}
use example_liquidity_layer.Solana.{buffer_from}
use example_liquidity_layer.Uint64.{low_bytes}
use example_liquidity_layer.MatchingEngine.Addresses.{address}
use example_liquidity_layer.MatchingEngine.State.{Ledger, RouterEndpoint, local}
use example_liquidity_layer.MatchingEngine.Instructions.{CctpMessageArgs}
use example_liquidity_layer.MatchingEngine.Onchain.{endpoint_pda}
use example_liquidity_layer.MatchingEngine.Fixture.{endpoint, fill, ledger, program, programs}
use example_liquidity_layer.TokenRouter.Fixture.{core_bridge, router}
use example_liquidity_layer.TokenRouter.Redeem.{RedeemFastFill, redeem_fast_fill_ix}
use example_liquidity_layer.TokenRouter.Redeem.Onchain.{FastFillToRedeem, RedeemFastFillAccepted}
use example_liquidity_layer.TokenRouter.Redeem.Redeemed.{redeem_fast_fill_ix_lem}

abbrev router_emitter : PublicKey
router_emitter = buffer_from "emitter" ++ router.program.id

abbrev router_recipient : PublicKey
router_recipient = router_emitter ++ program.mint

abbrev attested : CctpMessageArgs
attested = record { encoded_cctp_message = replicate 248 0; cctp_attestation = 1 ∷ [] }

abbrev burn : CctpTokenBurnMessage
burn = record {
  cctp = record {
    version = 0;
    source_domain = 0;
    destination_domain = 0;
    nonce = pos 0;
    sender = replicate 32 0;
    recipient = replicate 32 0;
    target_caller = replicate 32 0;
  };
  version = 0;
  burn_token_address = replicate 32 0;
  mint_recipient = replicate 32 0;
  amount = pos 0;
  sender = replicate 32 0;
}

-- Solana's endpoint is the router's custodian.
abbrev solana : RouterEndpoint
solana = record {
  bump = 255;
  info = record {
    chain = 1;
    address = router_emitter;
    mint_recipient = [];
    protocol = local router.program.id;
  };
}

abbrev two_chains : Ledger
two_chains = record ledger {
  fetch_router_endpoint =
      λ key. if bytes_equal key (endpoint_pda program ledger 1) then ok solana else ok endpoint;
}

abbrev fill_key : PublicKey
fill_key =
    address program
      (buffer_from "fast-fill" ∷ be_bytes 2 5 ∷ low_bytes (8 ∷ []) ∷ be_bytes 8 3 ∷ [])

fast_fill : FastFillToRedeem router programs two_chains core_bridge fill_key
unfolding be_bytes bytes_equal
fast_fill = record {
  fill = fill;
  stored = refl;
  not_redeemed = refl;
  sequence = 3;
  sequence_is = refl;
  fill_seeds = refl;
  is_chain = refl;
  from = record {
    endpoint = endpoint;
    small = omega arith;
    stored = refl;
    same_chain = refl;
    enabled = λ e. cc;
  };
  to = record {
    endpoint = solana;
    small = omega arith;
    stored = refl;
    same_chain = refl;
    enabled = λ e. cc;
  };
  elsewhere = omega arith;
  emitter = refl;
  mint_recipient = router_recipient;
  has_recipient = refl;
}

redeem_fast_fill_ix_lem_example :
    (ix : RedeemFastFill) × (redeem_fast_fill_ix router programs two_chains core_bridge
        (7 ∷ [])
        fill_key
      ≡ ok ix)
    × RedeemFastFillAccepted router programs two_chains core_bridge ix
    × (ix.payer ≡ 7 ∷ [])
    × (ix.fast_fill ≡ fill_key)
redeem_fast_fill_ix_lem_example =
    redeem_fast_fill_ix_lem router programs two_chains core_bridge (7 ∷ []) fill_key fast_fill
