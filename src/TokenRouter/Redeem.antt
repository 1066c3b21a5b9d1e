-- ===== src/TokenRouter/Redeem.antt =====
-- Redeeming a fill: redeemCctpFillAccounts, redeemCctpFillIx, redeemFastFillAccounts and redeemFastFillIx of
-- solana/ts/src/tokenRouter/index.ts.
pub mod Onchain
pub mod Redeemed
mod Tests
use example_liquidity_layer.Prelude.{Option, Result, [], none, ok, or_else, some, ◌∷◌, ◌>>=◌, ◌>>◌}
use example_liquidity_layer.Buffer.{Bytes}
use example_liquidity_layer.Auction.{PublicKey}
use example_liquidity_layer.Vaa.{emitter_info}
use example_liquidity_layer.Cctp.{CctpTokenBurnMessage, Source, burn_from, decoded, encoded}
use example_liquidity_layer.Cctp.Programs.{
  CctpPrograms, ReceiveAccounts, receive_token_messenger_minter_message_accounts,
}
use example_liquidity_layer.Solana.{buffer_from}
use example_liquidity_layer.MatchingEngine.Addresses.{
  address, cctp_mint_recipient_address, custodian_address,
  prepared_custody_token_address as custody_token_address, router_endpoint_address,
}
use example_liquidity_layer.MatchingEngine.State.{Ledger}
use example_liquidity_layer.MatchingEngine.Composites.{fetch_vaa}
use example_liquidity_layer.MatchingEngine.Instructions.{
  CctpMessageArgs, CctpReceiveMessage, receive_message,
}
use example_liquidity_layer.MatchingEngine.Execute.{
  redeem_fast_fill_accounts as engine_redeem_fast_fill_accounts,
}
use example_liquidity_layer.TokenRouter.{TokenRouter, registered_endpoint_composite}

-- The mint recipient and the accounts of Circle's programs are one group.
pub record RedeemFillCctpAccounts : Type 0 where
  pub custodian : PublicKey
  pub prepared_fill : PublicKey
  pub source_router_endpoint : PublicKey
  pub cctp : CctpReceiveMessage

pub record RedeemCctpFill : Type 0 where
  pub payer : PublicKey
  pub custodian : PublicKey
  pub fill_vaa : PublicKey
  pub prepared_fill : PublicKey
  pub prepared_custody_token : PublicKey
  pub usdc : PublicKey
  pub source_router_endpoint : PublicKey
  pub cctp : CctpReceiveMessage
  pub token_program : PublicKey
  pub system_program : PublicKey

pub record RedeemFastFillAccounts : Type 0 where
  pub custodian : PublicKey
  pub prepared_fill : PublicKey
  pub cctp_mint_recipient : PublicKey
  pub matching_engine_custodian : PublicKey
  pub matching_engine_from_endpoint : PublicKey
  pub matching_engine_to_endpoint : PublicKey
  pub matching_engine_local_custody_token : PublicKey
  pub matching_engine_event_authority : PublicKey
  pub matching_engine_program : PublicKey

pub record RedeemFastFill : Type 0 where
  pub payer : PublicKey
  pub custodian : PublicKey
  pub fast_fill : PublicKey
  pub prepared_fill : PublicKey
  pub prepared_custody_token : PublicKey
  pub usdc : PublicKey
  pub matching_engine_custodian : PublicKey
  pub matching_engine_from_endpoint : PublicKey
  pub matching_engine_to_endpoint : PublicKey
  pub matching_engine_local_custody_token : PublicKey
  pub matching_engine_event_authority : PublicKey
  pub matching_engine_program : PublicKey
  pub token_program : PublicKey
  pub system_program : PublicKey

module _ (r : TokenRouter) (c : CctpPrograms) (l : Ledger) (core_bridge : PublicKey) where
  abbrev pub prepared_fill_address : (fill_source : PublicKey) → PublicKey
  prepared_fill_address fill_source = address r.program (buffer_from "fill" ∷ fill_source ∷ [])

  unfoldable pub redeem_cctp_fill_accounts :
      (fill_vaa : PublicKey) → Source CctpTokenBurnMessage → Result RedeemFillCctpAccounts
  unfolding burn_from receive_token_messenger_minter_message_accounts
  redeem_cctp_fill_accounts fill_vaa cctp_message = do
    msg ← burn_from cctp_message
    mint_recipient ← cctp_mint_recipient_address r.program
    vaa ← fetch_vaa r.matching_engine l fill_vaa
    emitter ← emitter_info l.sdk vaa
    received ← receive_token_messenger_minter_message_accounts c r.program.mint (decoded msg)
    endpoint ← router_endpoint_address r.matching_engine emitter.chain
    ok (record {
      custodian = custodian_address r.program;
      prepared_fill = prepared_fill_address fill_vaa;
      source_router_endpoint = endpoint;
      cctp = receive_message mint_recipient received;
    })

  abbrev pub cctp_redemption :
      (payer vaa source : PublicKey) → RedeemFillCctpAccounts → RedeemCctpFill
  cctp_redemption payer vaa source derived = record {
    payer = payer;
    custodian = custodian_address r.program;
    fill_vaa = vaa;
    prepared_fill = derived.prepared_fill;
    prepared_custody_token = custody_token_address r.program derived.prepared_fill;
    usdc = r.program.mint;
    source_router_endpoint = source;
    cctp = derived.cctp;
    token_program = r.program.web3.token_program_id;
    system_program = r.program.web3.system_program_id;
  }

  -- The arguments and the accounts of the instruction.
  unfoldable pub redeem_cctp_fill_ix :
      (payer vaa : PublicKey)
      → (source_router_endpoint : Option PublicKey) → CctpMessageArgs
      → Result (CctpMessageArgs × RedeemCctpFill)
  unfolding redeem_cctp_fill_accounts registered_endpoint_composite
  redeem_cctp_fill_ix payer vaa endpoint args = do
    derived ← redeem_cctp_fill_accounts vaa (encoded args.encoded_cctp_message)
    source ←
        registered_endpoint_composite r none
          (some (or_else endpoint derived.source_router_endpoint))
    ok (args, cctp_redemption payer vaa source derived)

  unfoldable pub redeem_fast_fill_accounts : PublicKey → Result RedeemFastFillAccounts
  unfolding engine_redeem_fast_fill_accounts
  redeem_fast_fill_accounts fast_fill = do
    e ← engine_redeem_fast_fill_accounts r.matching_engine c l core_bridge fast_fill
    recipient ← cctp_mint_recipient_address r.program
    ok (record {
      custodian = custodian_address r.program;
      prepared_fill = prepared_fill_address fast_fill;
      cctp_mint_recipient = recipient;
      matching_engine_custodian = e.custodian;
      matching_engine_from_endpoint = e.from_router_endpoint;
      matching_engine_to_endpoint = e.to_router_endpoint;
      matching_engine_local_custody_token = e.local_custody_token;
      matching_engine_event_authority = e.event_authority;
      matching_engine_program = e.matching_engine_program;
    })

  abbrev pub fast_redemption :
      (payer fast_fill : PublicKey) → RedeemFastFillAccounts → RedeemFastFill
  fast_redemption payer fast_fill derived = record {
    payer = payer;
    custodian = custodian_address r.program;
    fast_fill = fast_fill;
    prepared_fill = derived.prepared_fill;
    prepared_custody_token = custody_token_address r.program derived.prepared_fill;
    usdc = r.program.mint;
    matching_engine_custodian = derived.matching_engine_custodian;
    matching_engine_from_endpoint = derived.matching_engine_from_endpoint;
    matching_engine_to_endpoint = derived.matching_engine_to_endpoint;
    matching_engine_local_custody_token = derived.matching_engine_local_custody_token;
    matching_engine_event_authority = derived.matching_engine_event_authority;
    matching_engine_program = derived.matching_engine_program;
    token_program = r.program.web3.token_program_id;
    system_program = r.program.web3.system_program_id;
  }

  unfoldable pub redeem_fast_fill_ix : (payer fast_fill : PublicKey) → Result RedeemFastFill
  unfolding redeem_fast_fill_accounts
  redeem_fast_fill_ix payer fast_fill = do
    derived ← redeem_fast_fill_accounts fast_fill
    ok (fast_redemption payer fast_fill derived)
