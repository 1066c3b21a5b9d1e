-- ===== src/TokenRouter/Market.antt =====
-- Placing a prepared order by CCTP, and consuming a fill: placeMarketOrderCctpIx, publishMessageAccounts and
-- consumePreparedFillIx of solana/ts/src/tokenRouter/index.ts.
pub mod Placed
use example_liquidity_layer.Prelude.{
  List, Option, Result, [], error, guard, none, ok, or_else, some, throw, ℕ, ◌∷◌, ◌>>=◌, ◌>>◌,
}
use example_liquidity_layer.Buffer.{Bytes}
use example_liquidity_layer.Auction.{PublicKey}
use example_liquidity_layer.Cctp.Programs.{CctpPrograms, deposit_for_burn_with_caller_accounts}
use example_liquidity_layer.Solana.{buffer_from, given_or}
use example_liquidity_layer.MatchingEngine.Addresses.{
  cctp_message_address, core_message_address, custodian_address,
  prepared_custody_token_address as custody_token_address,
}
use example_liquidity_layer.MatchingEngine.State.{Ledger, MessageProtocol, cctp, local, no_protocol}
use example_liquidity_layer.MatchingEngine.Instructions.{CctpDepositForBurn, WormholePublishMessage}
use example_liquidity_layer.TokenRouter.{PreparedOrder, TokenRouter, registered_endpoint_composite}

pub record PlaceOrderAccounts : Type 0 where
  pub payer : PublicKey
  pub prepared_order : PublicKey
  pub prepared_by : Option PublicKey
  pub target_router_endpoint : Option PublicKey
  pub target_chain : Option ℕ
  pub destination_domain : Option ℕ

-- The accounts of the instruction; those of the core bridge and of the token messenger are two groups.
pub record PlaceMarketOrderCctp : Type 0 where
  pub payer : PublicKey
  pub prepared_by : PublicKey
  pub custodian : PublicKey
  pub prepared_order : PublicKey
  pub prepared_custody_token : PublicKey
  pub target_router_endpoint : PublicKey
  pub core_message : PublicKey
  pub cctp_message : PublicKey
  pub wormhole : WormholePublishMessage
  pub burn : CctpDepositForBurn
  pub token_program : PublicKey
  pub system_program : PublicKey
  pub rent : PublicKey
  pub clock : PublicKey

pub record ConsumePreparedFill : Type 0 where
  pub redeemer : PublicKey
  pub beneficiary : PublicKey
  pub prepared_fill : PublicKey
  pub dst_token : PublicKey
  pub prepared_custody_token : PublicKey
  pub token_program : PublicKey

abbrev pub found_order : Result PreparedOrder → Result PreparedOrder
found_order (ok order) = ok order
found_order (throw e) = throw (error "Cannot find prepared order")

abbrev pub router_domain : MessageProtocol → Result ℕ
router_domain (cctp domain) = ok domain
router_domain (local program_id) = throw (error "invalid router endpoint")
router_domain no_protocol = throw (error "invalid router endpoint")

module _ (r : TokenRouter) (c : CctpPrograms) (l : Ledger) (core_bridge : PublicKey) where
  unfoldable pub publish_message_accounts : PublicKey → WormholePublishMessage
  publish_message_accounts emitter =
      let derive = λ (seeds : List Bytes). r.program.web3.find_program_address seeds core_bridge in
      record {
        config = derive (buffer_from "Bridge" ∷ []);
        emitter_sequence = derive (buffer_from "Sequence" ∷ emitter ∷ []);
        fee_collector = derive (buffer_from "fee_collector" ∷ []);
        core_bridge_program = core_bridge;
      }

  -- Who prepared the order, and its target chain; the order is fetched if one is missing.
  abbrev pub placing_parties : PublicKey → Option PublicKey → Option ℕ → Result (PublicKey × ℕ)
  placing_parties order (some by) (some chain) = ok (by, chain)
  placing_parties order by chain = do
    found ← found_order (r.fetch_prepared_order order)
    guard (l.sdk.is_chain_id found.info.target_chain)
        (error "Invalid chain found in prepared order")
    ok (or_else by found.info.prepared_by, or_else chain found.info.target_chain)

  abbrev pub domain_at : PublicKey → Result ℕ
  domain_at endpoint = do
    found ← l.fetch_router_endpoint endpoint
    router_domain found.info.protocol

  -- The accounts, once it is known who prepared the order, the endpoint and the domain.
  unfoldable pub placement :
      PlaceOrderAccounts → (prepared_by endpoint : PublicKey) → (domain : ℕ) → PlaceMarketOrderCctp
  unfolding publish_message_accounts deposit_for_burn_with_caller_accounts
  placement a prepared_by endpoint domain =
      let burn = deposit_for_burn_with_caller_accounts c r.program.mint domain in
      record {
        payer = a.payer;
        prepared_by = prepared_by;
        custodian = custodian_address r.program;
        prepared_order = a.prepared_order;
        prepared_custody_token = custody_token_address r.program a.prepared_order;
        target_router_endpoint = endpoint;
        core_message = core_message_address r.program a.prepared_order;
        cctp_message = cctp_message_address r.program a.prepared_order;
        wormhole = publish_message_accounts (custodian_address r.program);
        burn = record {
          mint = r.program.mint;
          token_messenger_minter_sender_authority = burn.sender_authority;
          message_transmitter_config = burn.message_transmitter_config;
          token_messenger = burn.token_messenger;
          remote_token_messenger = burn.remote_token_messenger;
          token_minter = burn.token_minter;
          local_token = burn.local_token;
          token_messenger_minter_event_authority = burn.token_messenger_minter_event_authority;
          token_messenger_minter_program = burn.token_messenger_minter_program;
          message_transmitter_program = burn.message_transmitter_program;
        };
        token_program = r.program.web3.token_program_id;
        system_program = r.program.web3.system_program_id;
        rent = r.program.web3.sysvar_rent;
        clock = r.program.web3.sysvar_clock;
      }

  unfoldable pub place_market_order_cctp_ix : PlaceOrderAccounts → Result PlaceMarketOrderCctp
  unfolding placement registered_endpoint_composite
  place_market_order_cctp_ix a = do
    (prepared_by, target_chain) ← placing_parties a.prepared_order a.prepared_by a.target_chain
    endpoint ← registered_endpoint_composite r (some target_chain) a.target_router_endpoint
    domain ← given_or a.destination_domain (domain_at endpoint)
    ok (placement a prepared_by endpoint domain)

  unfoldable pub consume_prepared_fill_ix :
      (prepared_fill redeemer dst_token beneficiary : PublicKey) → ConsumePreparedFill
  consume_prepared_fill_ix prepared_fill redeemer dst_token beneficiary = record {
    redeemer = redeemer;
    beneficiary = beneficiary;
    prepared_fill = prepared_fill;
    dst_token = dst_token;
    prepared_custody_token = custody_token_address r.program prepared_fill;
    token_program = r.program.web3.token_program_id;
  }
