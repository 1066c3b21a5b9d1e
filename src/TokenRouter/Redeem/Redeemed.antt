-- ===== src/TokenRouter/Redeem/Redeemed.antt =====
-- The instructions that redeem fills, against what the Rust programs ask of their accounts.
use example_liquidity_layer.Prelude.{[], ok, refl, sym, ℕ, ◌<◌, ◌^◌, ◌∙◌, ◌∷◌, ◌≡◌}
use example_liquidity_layer.Buffer.{be_bytes}
use example_liquidity_layer.Auction.{PublicKey}
use example_liquidity_layer.Cctp.Programs.{CctpPrograms, receive_accounts}
use example_liquidity_layer.Solana.{buffer_from}
use example_liquidity_layer.MatchingEngine.Addresses.{
  address as address_at, local_custody_token_address,
}
use example_liquidity_layer.MatchingEngine.State.{Ledger}
use example_liquidity_layer.MatchingEngine.Instructions.{CctpMessageArgs, receive_message}
use example_liquidity_layer.MatchingEngine.Onchain.{endpoint_pda}
use example_liquidity_layer.MatchingEngine.Known.{
  Registered-accepted, router_endpoint_address-pda, write_alloc,
}
use example_liquidity_layer.MatchingEngine.Execute.{
  redeem_fast_fill_accounts as engine_redeem_fast_fill_accounts,
}
use example_liquidity_layer.TokenRouter.{TokenRouter}
use example_liquidity_layer.TokenRouter.Redeem.{
  RedeemFastFill, RedeemFastFillAccounts, RedeemFillCctpAccounts, fast_redemption,
  prepared_fill_address, redeem_fast_fill_accounts, redeem_fast_fill_ix,
}
use example_liquidity_layer.TokenRouter.Redeem.Onchain.{
  CctpFill, FastFillToRedeem, RedeemFastFillAccepted,
}

module _ (r : TokenRouter) (c : CctpPrograms) (l : Ledger) (core_bridge : PublicKey) where
  local_custody_token_address-pda :
      (chain : ℕ)
      → chain < 256 ^ 2
      → local_custody_token_address r.matching_engine chain
        ≡ ok (address_at r.matching_engine (buffer_from "local-custody" ∷ be_bytes 2 chain ∷ []))
  unfolding local_custody_token_address
  local_custody_token_address-pda chain h = rw (write_alloc 2 chain h) refl

  module _ (payer fill_vaa : PublicKey) (args : CctpMessageArgs)
      (f : CctpFill r c l core_bridge fill_vaa args) where
    abbrev the_source : PublicKey
    the_source = endpoint_pda r.matching_engine l f.emitter.chain

    abbrev the_accounts : RedeemFillCctpAccounts
    the_accounts = record {
      custodian = address_at r.program (buffer_from "emitter" ∷ []);
      prepared_fill = prepared_fill_address r c l core_bridge fill_vaa;
      source_router_endpoint = the_source;
      cctp = receive_message f.mint_recipient (receive_accounts c r.program.mint f.message);
    }

  module _ (payer fast_fill : PublicKey) (f : FastFillToRedeem r c l core_bridge fast_fill) where
    abbrev the_fast_accounts : RedeemFastFillAccounts
    the_fast_accounts = record {
      custodian = address_at r.program (buffer_from "emitter" ∷ []);
      prepared_fill = prepared_fill_address r c l core_bridge fast_fill;
      cctp_mint_recipient = f.mint_recipient;
      matching_engine_custodian = address_at r.matching_engine (buffer_from "emitter" ∷ []);
      matching_engine_from_endpoint = endpoint_pda r.matching_engine l f.fill.seeds.source_chain;
      matching_engine_to_endpoint = endpoint_pda r.matching_engine l (l.sdk.to_chain_id "Solana");
      matching_engine_local_custody_token =
          address_at r.matching_engine
            (buffer_from "local-custody" ∷ be_bytes 2 f.fill.seeds.source_chain ∷ []);
      matching_engine_event_authority =
          address_at r.matching_engine (buffer_from "__event_authority" ∷ []);
      matching_engine_program = r.matching_engine.id;
    }

    redeem_fast_fill_accounts_lem :
        redeem_fast_fill_accounts r c l core_bridge fast_fill ≡ ok the_fast_accounts
    unfolding redeem_fast_fill_accounts engine_redeem_fast_fill_accounts
    redeem_fast_fill_accounts_lem =
        rw
          (
            f.stored,
            f.is_chain,
            router_endpoint_address-pda r.matching_engine l f.fill.seeds.source_chain f.from.small,
            router_endpoint_address-pda r.matching_engine l (l.sdk.to_chain_id "Solana") f.to.small,
            local_custody_token_address-pda f.fill.seeds.source_chain f.from.small,
            f.has_recipient,
          )
          refl

    -- A fast fill that is not redeemed, from a chain other than Solana, where the endpoints of both are
    -- registered and in use and Solana's is the router's custodian, is redeemed for any payer with
    -- accounts that the token router accepts and that the matching engine accepts from it, the custody
    -- token of the source chain among them.
    pub redeem_fast_fill_ix_lem :
        (ix : RedeemFastFill) × (redeem_fast_fill_ix r c l core_bridge payer fast_fill ≡ ok ix)
        × RedeemFastFillAccepted r c l core_bridge ix
        × (ix.payer ≡ payer)
        × (ix.fast_fill ≡ fast_fill)
    unfolding redeem_fast_fill_ix
    redeem_fast_fill_ix_lem = (
      fast_redemption r c l core_bridge payer fast_fill the_fast_accounts,
      rw redeem_fast_fill_accounts_lem refl,
      record {
        custodian_seeds = refl;
        prepared_fill_seeds = refl;
        custody_seeds = refl;
        usdc = refl;
        token_program = refl;
        system_program = refl;
        engine = refl;
        engine_custodian = refl;
        fill = f.fill;
        stored = f.stored;
        not_redeemed = f.not_redeemed;
        sequence = f.sequence;
        sequence_is = f.sequence_is;
        fill_seeds = f.fill_seeds;
        from = Registered-accepted r.matching_engine l f.from;
        to = Registered-accepted r.matching_engine l f.to;
        different = λ e. f.elsewhere (sym f.from.same_chain ∙ e ∙ f.to.same_chain);
        emitter = f.emitter;
        local_custody = refl;
        event_authority = refl;
      },
      refl,
      refl,
    )
