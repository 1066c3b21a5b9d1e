-- ===== src/TokenRouter/Market/Placed.antt =====
-- Placing an order by CCTP, against the Rust program
-- (solana/programs/token-router/src/processor/market_order/place_cctp.rs).
use example_liquidity_layer.Prelude.{Option, [], false, none, ok, some, true, ℕ, ◌∷◌, ◌≡◌}
use example_liquidity_layer.Auction.{PublicKey}
use example_liquidity_layer.Cctp.Programs.{CctpPrograms, remote_token_messenger_address}
use example_liquidity_layer.Solana.{buffer_from}
use example_liquidity_layer.MatchingEngine.Addresses.{address as address_at}
use example_liquidity_layer.MatchingEngine.State.{Ledger, cctp}
use example_liquidity_layer.MatchingEngine.Onchain.{endpoint_pda}
use example_liquidity_layer.MatchingEngine.Known.{Registered}
use example_liquidity_layer.MatchingEngine.State.{RouterEndpoint}
use example_liquidity_layer.TokenRouter.{Custodian, PreparedOrder, TokenRouter}
use example_liquidity_layer.TokenRouter.Market.{PlaceMarketOrderCctp}

-- A number that is left out, or is the one that the client would find.
abbrev pub IsDefaultNumber : Option ℕ → ℕ → Type 0
IsDefaultNumber none found = Unit {0}
IsDefaultNumber (some given) found = given ≡ found

module _ (r : TokenRouter) (c : CctpPrograms) (l : Ledger) (core_bridge : PublicKey) where
  -- What place_market_order_cctp asks of its accounts, and Circle's program of the remote messenger.
  pub record PlaceMarketOrderCctpAccepted (a : PlaceMarketOrderCctp) : Type 0 where
    pub order : PreparedOrder
    pub stored : r.fetch_prepared_order a.prepared_order ≡ ok order
    pub prepared_by : a.prepared_by ≡ order.info.prepared_by
    pub custodian_seeds : a.custodian ≡ address_at r.program (buffer_from "emitter" ∷ [])
    pub custodian : Custodian
    pub custodian_stored : r.fetch_custodian a.custodian ≡ ok custodian
    pub not_paused : custodian.paused ≡ false
    pub custody_seeds :
        a.prepared_custody_token
        ≡ address_at r.program (buffer_from "prepared-custody" ∷ a.prepared_order ∷ [])
    pub endpoint : RouterEndpoint
    pub endpoint_stored : l.fetch_router_endpoint a.target_router_endpoint ≡ ok endpoint
    pub endpoint_seeds :
        a.target_router_endpoint ≡ endpoint_pda r.matching_engine l endpoint.info.chain
    pub same_chain : endpoint.info.chain ≡ order.info.target_chain
    pub domain : ℕ
    pub by_cctp : endpoint.info.protocol ≡ cctp domain
    pub remote_messenger : a.burn.remote_token_messenger ≡ remote_token_messenger_address c domain
    pub core_message_seeds :
        a.core_message ≡ address_at r.program (buffer_from "core-msg" ∷ a.prepared_order ∷ [])
    pub cctp_message_seeds :
        a.cctp_message ≡ address_at r.program (buffer_from "cctp-msg" ∷ a.prepared_order ∷ [])
    pub core_bridge_program : a.wormhole.core_bridge_program ≡ core_bridge
    pub minter_program : a.burn.token_messenger_minter_program ≡ c.token_messenger_minter_id
    pub transmitter_program : a.burn.message_transmitter_program ≡ c.message_transmitter_id
    pub clock : a.clock ≡ r.program.web3.sysvar_clock
    pub rent : a.rent ≡ r.program.web3.sysvar_rent

  -- A prepared order to a chain whose endpoint is registered and is reached by CCTP, while the router is not
  -- paused.
  pub record Placeable (key : PublicKey) : Type 0 where
    pub order : PreparedOrder
    pub stored : r.fetch_prepared_order key ≡ ok order
    pub custodian : Custodian
    pub custodian_stored :
        r.fetch_custodian (address_at r.program (buffer_from "emitter" ∷ [])) ≡ ok custodian
    pub not_paused : custodian.paused ≡ false
    pub is_chain : l.sdk.is_chain_id order.info.target_chain ≡ true
    pub target : Registered r.matching_engine l order.info.target_chain
    pub domain : ℕ
    pub by_cctp : target.endpoint.info.protocol ≡ cctp domain
