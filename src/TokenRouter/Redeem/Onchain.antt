-- ===== src/TokenRouter/Redeem/Onchain.antt =====
-- What the Rust programs ask of the accounts of a redeemed fill (solana/programs/token-
-- router/src/processor/redeem_fill and, for a fast fill, the call of solana/programs/matching-
-- engine/src/processor/fast_fill/complete.rs), and fills that can be redeemed.
use example_liquidity_layer.Prelude.{false, [], ok, true, ℕ, ◌∷◌, ◌≡◌, ◌≢◌}
use example_liquidity_layer.Buffer.{be_bytes}
use example_liquidity_layer.Prelude.Int.{pos}
use example_liquidity_layer.Uint64.{low_bytes}
use example_liquidity_layer.Auction.{PublicKey}
use example_liquidity_layer.Vaa.{EmitterInfo, VaaAccount, emitter_info}
use example_liquidity_layer.Cctp.{CctpTokenBurnMessage, decode_burn}
use example_liquidity_layer.Cctp.Programs.{
  CctpPrograms, remote_token_messenger_address, token_pair_address, used_nonces_address,
}
use example_liquidity_layer.Solana.{buffer_from}
use example_liquidity_layer.MatchingEngine.Addresses.{
  address as address_at, cctp_mint_recipient_address,
}
use example_liquidity_layer.MatchingEngine.State.{FastFill, Ledger}
use example_liquidity_layer.MatchingEngine.Composites.{fetch_vaa}
use example_liquidity_layer.MatchingEngine.Instructions.{CctpMessageArgs}
use example_liquidity_layer.MatchingEngine.Onchain.{EndpointAccepted}
use example_liquidity_layer.MatchingEngine.Known.{Registered}
use example_liquidity_layer.TokenRouter.{TokenRouter}
use example_liquidity_layer.TokenRouter.Redeem.{RedeemCctpFill, RedeemFastFill}

module _ (r : TokenRouter) (c : CctpPrograms) (l : Ledger) (core_bridge : PublicKey) where
  -- What redeem_cctp_fill asks of its accounts, the payload of the VAA apart, and Circle's program of those of
  -- the message.
  pub record RedeemCctpFillAccepted (args : CctpMessageArgs) (a : RedeemCctpFill) : Type 0 where
    pub custodian_seeds : a.custodian ≡ address_at r.program (buffer_from "emitter" ∷ [])
    pub vaa : VaaAccount
    pub loaded : fetch_vaa r.matching_engine l a.fill_vaa ≡ ok vaa
    pub prepared_fill_seeds :
        a.prepared_fill ≡ address_at r.program (buffer_from "fill" ∷ a.fill_vaa ∷ [])
    pub custody_seeds :
        a.prepared_custody_token
        ≡ address_at r.program (buffer_from "prepared-custody" ∷ a.prepared_fill ∷ [])
    pub usdc : a.usdc ≡ r.program.mint
    pub emitter : EmitterInfo
    pub emitted : emitter_info l.sdk vaa ≡ ok emitter
    pub source : EndpointAccepted r.matching_engine l a.source_router_endpoint emitter.chain
    pub same_address : source.endpoint.info.address ≡ emitter.address
    pub mint_recipient : cctp_mint_recipient_address r.program ≡ ok a.cctp.mint_recipient
    pub message : CctpTokenBurnMessage
    pub decoded_message : decode_burn args.encoded_cctp_message ≡ ok message
    pub used_nonces :
        a.cctp.used_nonces ≡ used_nonces_address c message.cctp.source_domain message.cctp.nonce
    pub remote_messenger :
        a.cctp.remote_token_messenger ≡ remote_token_messenger_address c message.cctp.source_domain
    pub token_pair :
        a.cctp.token_pair
        ≡ token_pair_address c message.cctp.source_domain message.burn_token_address
    pub minter_program : a.cctp.token_messenger_minter_program ≡ c.token_messenger_minter_id
    pub transmitter_program : a.cctp.message_transmitter_program ≡ c.message_transmitter_id

  -- A VAA from an endpoint that is registered and in use, and a CCTP message that burns tokens.
  pub record CctpFill (fill_vaa : PublicKey) (args : CctpMessageArgs) : Type 0 where
    pub vaa : VaaAccount
    pub fetched : fetch_vaa r.matching_engine l fill_vaa ≡ ok vaa
    pub emitter : EmitterInfo
    pub emitted : emitter_info l.sdk vaa ≡ ok emitter
    pub source : Registered r.matching_engine l emitter.chain
    pub same_address : source.endpoint.info.address ≡ emitter.address
    pub mint_recipient : PublicKey
    pub has_recipient : cctp_mint_recipient_address r.program ≡ ok mint_recipient
    pub message : CctpTokenBurnMessage
    pub decoded_message : decode_burn args.encoded_cctp_message ≡ ok message

  -- What redeem_fast_fill and, through it, complete_fast_fill ask of the accounts.
  pub record RedeemFastFillAccepted (a : RedeemFastFill) : Type 0 where
    pub custodian_seeds : a.custodian ≡ address_at r.program (buffer_from "emitter" ∷ [])
    pub prepared_fill_seeds :
        a.prepared_fill ≡ address_at r.program (buffer_from "fill" ∷ a.fast_fill ∷ [])
    pub custody_seeds :
        a.prepared_custody_token
        ≡ address_at r.program (buffer_from "prepared-custody" ∷ a.prepared_fill ∷ [])
    pub usdc : a.usdc ≡ r.program.mint
    pub token_program : a.token_program ≡ r.program.web3.token_program_id
    pub system_program : a.system_program ≡ r.program.web3.system_program_id
    pub engine : a.matching_engine_program ≡ r.matching_engine.id
    pub engine_custodian :
        a.matching_engine_custodian ≡ address_at r.matching_engine (buffer_from "emitter" ∷ [])
    pub fill : FastFill
    pub stored : l.fetch_fast_fill a.fast_fill ≡ ok fill
    pub not_redeemed : fill.redeemed ≡ false
    pub sequence : ℕ
    pub sequence_is : fill.seeds.sequence ≡ pos sequence
    pub fill_seeds :
        a.fast_fill
        ≡ address_at r.matching_engine (
            buffer_from "fast-fill"
            ∷ be_bytes 2 fill.seeds.source_chain
            ∷ low_bytes fill.seeds.order_sender
            ∷ be_bytes 8 sequence
            ∷ [])
    pub from :
        EndpointAccepted r.matching_engine l a.matching_engine_from_endpoint fill.seeds.source_chain
    pub to :
        EndpointAccepted r.matching_engine l a.matching_engine_to_endpoint
          (l.sdk.to_chain_id "Solana")
    pub different : from.endpoint.info.chain ≢ to.endpoint.info.chain
    pub emitter : a.custodian ≡ to.endpoint.info.address
    pub local_custody :
        a.matching_engine_local_custody_token
        ≡ address_at r.matching_engine
            (buffer_from "local-custody" ∷ be_bytes 2 fill.seeds.source_chain ∷ [])
    pub event_authority :
        a.matching_engine_event_authority
        ≡ address_at r.matching_engine (buffer_from "__event_authority" ∷ [])

  -- A fast fill that is not redeemed, at its seeds, whose chain's endpoint and the endpoint of Solana,
  -- which is the router's, are in use.
  pub record FastFillToRedeem (fast_fill : PublicKey) : Type 0 where
    pub fill : FastFill
    pub stored : l.fetch_fast_fill fast_fill ≡ ok fill
    pub not_redeemed : fill.redeemed ≡ false
    pub sequence : ℕ
    pub sequence_is : fill.seeds.sequence ≡ pos sequence
    pub fill_seeds :
        fast_fill
        ≡ address_at r.matching_engine (
            buffer_from "fast-fill"
            ∷ be_bytes 2 fill.seeds.source_chain
            ∷ low_bytes fill.seeds.order_sender
            ∷ be_bytes 8 sequence
            ∷ [])
    pub is_chain : l.sdk.is_chain_id fill.seeds.source_chain ≡ true
    pub from : Registered r.matching_engine l fill.seeds.source_chain
    pub to : Registered r.matching_engine l (l.sdk.to_chain_id "Solana")
    pub elsewhere : fill.seeds.source_chain ≢ l.sdk.to_chain_id "Solana"
    pub emitter : address_at r.program (buffer_from "emitter" ∷ []) ≡ to.endpoint.info.address
    pub mint_recipient : PublicKey
    pub has_recipient : cctp_mint_recipient_address r.program ≡ ok mint_recipient
