-- ===== src/MatchingEngine/Settle.antt =====
-- Settling auctions: prepareOrderResponseCctpIx, settleAuctionCompleteIx and settleAuctionCompleteTx, the
-- accounts for publishing and burning, and the settlement where there was no auction
-- (solana/ts/src/matchingEngine/index.ts).

use example_liquidity_layer.Buffer.{Bytes}
use example_liquidity_layer.Prelude.{
  List, Option, Result, [], error, false, none, ok, or_else, some, throw, ℕ, ◌∷◌, ◌>>=◌,
}
use example_liquidity_layer.Auction.{PublicKey}
use example_liquidity_layer.Uint64.{array}
use example_liquidity_layer.Cctp.{encoded}
use example_liquidity_layer.Cctp.Programs.{
  CctpPrograms, deposit_for_burn_with_caller_accounts,
  receive_token_messenger_minter_message_accounts,
}
use example_liquidity_layer.Solana.{buffer_from, given_or}
use example_liquidity_layer.MatchingEngine.Addresses.{
  Program, address, auction_address, cctp_message_address, cctp_mint_recipient_address,
  core_message_address, custodian_address, prepared_custody_token_address,
  prepared_order_response_address, router_endpoint_address,
}
use example_liquidity_layer.MatchingEngine.State.{
  AuctionStatus, Ledger, MessageProtocol, active, cctp, completed, local, no_protocol, not_started,
  settled,
}
use example_liquidity_layer.MatchingEngine.Composites.{
  checked_custodian_composite, fast_order_path_composite, fetch_vaa, get_info, order_of,
}
use example_liquidity_layer.MatchingEngine.Instructions.{
  receive_message, CctpDepositForBurn, CctpMessageArgs, Ix, WormholePublishMessage,
  prepare_order_response_cctp, settle_auction_complete,
}
use example_liquidity_layer.MatchingEngine.Offers.{
  digest_address, event_cpi, source_endpoint, target_endpoint,
}

pub record PublishMessageAccounts : Type 0 where
  pub custodian : PublicKey
  pub core_message : PublicKey
  pub wormhole : WormholePublishMessage

pub record BurnAndPublishAccounts : Type 0 where
  pub custodian : PublicKey
  pub router_endpoint : PublicKey
  pub core_message : PublicKey
  pub cctp_message : PublicKey
  pub wormhole : WormholePublishMessage
  pub cctp : CctpDepositForBurn

abbrev pub cctp_domain : MessageProtocol → Result ℕ
cctp_domain (cctp domain) = ok domain
cctp_domain (local program_id) = throw (error "not CCTP endpoint")
cctp_domain no_protocol = throw (error "not CCTP endpoint")

module _ (p : Program) (c : CctpPrograms) (l : Ledger) (core_bridge : PublicKey) where
  unfoldable pub publish_message_accounts : PublicKey → PublishMessageAccounts
  publish_message_accounts auction =
      let derive = λ (seeds : List Bytes). p.web3.find_program_address seeds core_bridge in
      record {
        custodian = custodian_address p;
        core_message = core_message_address p auction;
        wormhole = record {
          config = derive (buffer_from "Bridge" ∷ []);
          emitter_sequence = derive (buffer_from "Sequence" ∷ custodian_address p ∷ []);
          fee_collector = derive (buffer_from "fee_collector" ∷ []);
          core_bridge_program = core_bridge;
        };
      }

  -- The domain of the chain's endpoint, unless the caller knows it.
  abbrev pub destination_domain_of : ℕ → Option ℕ → Result ℕ
  destination_domain_of target_chain (some domain) = ok domain
  destination_domain_of target_chain none = do
    address ← router_endpoint_address p target_chain
    endpoint ← l.fetch_router_endpoint address
    cctp_domain endpoint.info.protocol

  unfoldable pub burn_and_publish_accounts :
      PublicKey → ℕ → Option ℕ → Result BurnAndPublishAccounts
  unfolding publish_message_accounts deposit_for_burn_with_caller_accounts
  burn_and_publish_accounts auction target_chain destination_cctp_domain = do
    domain ← destination_domain_of target_chain destination_cctp_domain
    let burn = deposit_for_burn_with_caller_accounts c p.mint domain
    let publish = publish_message_accounts auction
    router_endpoint ← router_endpoint_address p target_chain
    ok (record {
      custodian = publish.custodian;
      router_endpoint = router_endpoint;
      core_message = publish.core_message;
      cctp_message = cctp_message_address p auction;
      wormhole = publish.wormhole;
      cctp = record {
        mint = p.mint;
        token_messenger_minter_sender_authority = burn.sender_authority;
        message_transmitter_config = burn.message_transmitter_config;
        token_messenger = burn.token_messenger;
        remote_token_messenger = burn.remote_token_messenger;
        token_minter = burn.token_minter;
        local_token = burn.local_token;
        token_messenger_minter_event_authority = burn.token_messenger_minter_event_authority;
        token_messenger_minter_program = burn.token_messenger_minter_program;
        message_transmitter_program = burn.message_transmitter_program;
      };
    })

  unfoldable pub prepare_order_response_cctp_ix :
      (payer fast_vaa finalized_vaa : PublicKey) → Option PublicKey → CctpMessageArgs → Result Ix
  unfolding receive_token_messenger_minter_message_accounts
  prepare_order_response_cctp_ix payer fast_vaa finalized_vaa base_fee_token args = do
    fee_token ← given_or base_fee_token (p.web3.get_associated_token_address p.mint payer false)
    fast_vaa_acct ← fetch_vaa p l fast_vaa
    from_endpoint ← source_endpoint p l fast_vaa_acct
    order ← order_of p l fast_vaa_acct
    to_endpoint ← target_endpoint p l order
    r ← receive_token_messenger_minter_message_accounts c p.mint (encoded args.encoded_cctp_message)
    response ← digest_address p l (prepared_order_response_address p) fast_vaa_acct
    mint_recipient ← cctp_mint_recipient_address p
    ok (
        prepare_order_response_cctp args (record {
          payer = payer;
          custodian = checked_custodian_composite p none;
          fast_order_path = fast_order_path_composite p fast_vaa from_endpoint to_endpoint;
          finalized_vaa = finalized_vaa;
          prepared_order_response = response;
          prepared_custody_token = prepared_custody_token_address p response;
          base_fee_token = fee_token;
          usdc = p.mint;
          cctp = receive_message mint_recipient r;
          token_program = p.web3.token_program_id;
          system_program = p.web3.system_program_id;
        }))

  -- The auction, the beneficiary and the base fee token: given, or what the prepared response says.
  abbrev pub settle_parties :
      PublicKey
      → Option PublicKey
      → Option PublicKey
      → Option PublicKey
      → Result (PublicKey × PublicKey × PublicKey)
  settle_parties response (some auction) (some beneficiary) (some fee_token) =
      ok (auction, beneficiary, fee_token)
  settle_parties response auction beneficiary fee_token = do
    fetched ← l.fetch_prepared_order_response response
    ok (
      or_else auction (auction_address p (array fetched.fast_vaa_hash)),
      or_else beneficiary fetched.info.prepared_by,
      or_else fee_token fetched.info.base_fee_token,
    )

  abbrev pub best_offer_token_of : PublicKey → Result PublicKey
  best_offer_token_of auction = do
    fetched ← l.fetch_auction auction
    info ← get_info p l fetched.info "no auction info found"
    ok info.best_offer_token

  unfoldable pub settle_auction_complete_ix :
      (prepared_order_response : PublicKey)
      (auction beneficiary base_fee_token best_offer_token : Option PublicKey)
      → Result Ix
  settle_auction_complete_ix response auction beneficiary base_fee_token best_offer_token = do
    (found_auction, found_beneficiary, found_fee_token) ←
        settle_parties response auction beneficiary base_fee_token
    best ← given_or best_offer_token (best_offer_token_of found_auction)
    ok (
        settle_auction_complete (record {
          beneficiary = found_beneficiary;
          base_fee_token = found_fee_token;
          prepared_order_response = response;
          prepared_custody_token = prepared_custody_token_address p response;
          auction = found_auction;
          best_offer_token = best;
          token_program = p.web3.token_program_id;
          event_cpi = event_cpi p;
        }))

  -- Without a penalty the beneficiary is the owner of the best offer token.
  abbrev pub beneficiary_of : AuctionStatus → PublicKey → PublicKey → Result PublicKey
  beneficiary_of (completed slot none) executor best_offer_token =
      l.fetch_token_owner best_offer_token
  beneficiary_of (completed slot (some penalty)) executor best_offer_token = ok executor
  beneficiary_of not_started executor best_offer_token = ok executor
  beneficiary_of active executor best_offer_token = ok executor
  beneficiary_of (settled fee penalty) executor best_offer_token = ok executor

  -- The instructions of settleAuctionCompleteTx.
  unfoldable pub settle_auction_complete_ixs :
      (executor fast_vaa finalized_vaa best_offer_token auction : PublicKey)
      → CctpMessageArgs
      → Result (List Ix)
  unfolding prepare_order_response_cctp_ix settle_auction_complete_ix
  settle_auction_complete_ixs executor fast_vaa finalized_vaa best_offer_token auction args = do
    prepare_ix ←
        prepare_order_response_cctp_ix executor fast_vaa finalized_vaa (some best_offer_token) args
    fast_vaa_account ← fetch_vaa p l fast_vaa
    response ← digest_address p l (prepared_order_response_address p) fast_vaa_account
    fetched ← l.fetch_auction auction
    beneficiary ← beneficiary_of fetched.status executor best_offer_token
    settle_ix ←
        settle_auction_complete_ix response (some auction) (some beneficiary)
          (some best_offer_token) (some best_offer_token)
    ok (prepare_ix ∷ settle_ix ∷ [])
