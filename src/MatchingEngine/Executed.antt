-- ===== src/MatchingEngine/Executed.antt =====
-- The instruction with which an order is executed is one that the Rust program accepts.

use example_liquidity_layer.Prelude.{[], none, ℕ}
use example_liquidity_layer.Auction.{PublicKey}
use example_liquidity_layer.Cctp.Programs.{CctpPrograms, deposit_for_burn_with_caller_accounts}
use example_liquidity_layer.MatchingEngine.Addresses.{
  Program, cctp_message_address, core_message_address, custodian_address,
}
use example_liquidity_layer.MatchingEngine.State.{Ledger, cctp}
use example_liquidity_layer.MatchingEngine.Composites.{
  checked_custodian_composite, required_sysvars_composite,
}
use example_liquidity_layer.MatchingEngine.Instructions.{ExecuteFastOrderCctp}
use example_liquidity_layer.MatchingEngine.Offers.{event_cpi}
use example_liquidity_layer.MatchingEngine.Settle.{BurnAndPublishAccounts, publish_message_accounts}
use example_liquidity_layer.MatchingEngine.Onchain.{auction_pda, endpoint_pda}
use example_liquidity_layer.MatchingEngine.Known.{FastVaa}
use example_liquidity_layer.MatchingEngine.Improved.{Opened, the_active_auction}

module _ (p : Program) (c : CctpPrograms) (l : Ledger) (core_bridge payer fast_vaa : PublicKey)
    (v : FastVaa p l fast_vaa) (o : Opened p l (auction_pda p l v.digest)) where
  abbrev target : ℕ
  target = l.sdk.to_chain_id v.order.target_chain

  abbrev the_auction : PublicKey
  the_auction = auction_pda p l v.digest

  -- The accounts of an order that goes to another chain by CCTP.
  abbrev the_execution : ℕ → PublicKey → ExecuteFastOrderCctp
  the_execution domain executor_token =
      let burn = deposit_for_burn_with_caller_accounts c p.mint domain in
      let publish = publish_message_accounts p c l core_bridge the_auction in
      record {
        payer = payer;
        core_message = core_message_address p the_auction;
        cctp_message = cctp_message_address p the_auction;
        execute_order = record {
          fast_vaa = fast_vaa;
          active_auction = the_active_auction p l the_auction o;
          executor_token = executor_token;
          initial_offer_token = o.info.initial_offer_token;
          initial_participant = o.auction.prepared_by;
        };
        to_router_endpoint = endpoint_pda p l target;
        custodian = checked_custodian_composite p none;
        wormhole = publish.wormhole;
        cctp = record {
          mint = p.mint;
          token_messenger_minter_sender_authority = burn.sender_authority;
          message_transmitter_config = burn.message_transmitter_config;
          token_messenger = burn.token_messenger;
          remote_token_messenger = burn.remote_token_messenger;
          token_minter = burn.token_minter;
          local_token = burn.local_token;
          token_messenger_minter_event_authority = burn.token_messenger_minter_event_authority;
          token_messenger_minter_program = burn.token_messenger_minter_program;
          message_transmitter_program = burn.message_transmitter_program;
        };
        token_program = p.web3.token_program_id;
        system_program = p.web3.system_program_id;
        sysvars = required_sysvars_composite p;
        event_cpi = event_cpi p;
      }

  abbrev the_burn : ℕ → BurnAndPublishAccounts
  the_burn domain = record {
    custodian = custodian_address p;
    router_endpoint = endpoint_pda p l target;
    core_message = core_message_address p the_auction;
    cctp_message = cctp_message_address p the_auction;
    wormhole = (the_execution domain []).wormhole;
    cctp = (the_execution domain []).cctp;
  }
