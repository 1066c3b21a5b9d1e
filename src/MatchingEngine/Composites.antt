-- ===== src/MatchingEngine/Composites.antt =====
-- The parts that the instructions of the matching engine share (solana/ts/src/matchingEngine/index.ts).

use example_liquidity_layer.Prelude.{
  Option, Result, String, [], error, none, ok, or_else, or_throw, some, true, ◌>>=◌, ◌∷◌,
}
use example_liquidity_layer.Auction.{AuctionInfo, PublicKey}
use example_liquidity_layer.Penalty.{Accounts}
use example_liquidity_layer.Vaa.{VaaAccount, fetch_vaa_account, vaa_payload}
use example_liquidity_layer.Solana.{buffer_from, given_or}
use example_liquidity_layer.MatchingEngine.Addresses.{
  Program, auction_config_address, auction_custody_token_address, custodian_address,
  prepared_custody_token_address,
}
use example_liquidity_layer.MatchingEngine.State.{FastMarketOrder, Ledger}

pub record CheckedCustodian : Type 0 where
  pub custodian : PublicKey

pub record Admin : Type 0 where
  pub owner_or_assistant : PublicKey
  pub custodian : CheckedCustodian

pub record AdminMut : Type 0 where
  pub owner_or_assistant : PublicKey
  pub custodian : PublicKey

pub record OwnerOnly : Type 0 where
  pub owner : PublicKey
  pub custodian : CheckedCustodian

pub record OwnerOnlyMut : Type 0 where
  pub owner : PublicKey
  pub custodian : PublicKey

pub record LocalTokenRouter : Type 0 where
  pub token_router_program : PublicKey
  pub token_router_emitter : PublicKey
  pub token_router_mint_recipient : PublicKey

pub record ActiveAuction : Type 0 where
  pub custody_token : PublicKey
  pub auction : PublicKey
  pub config : PublicKey
  pub best_offer_token : PublicKey

pub record ClosePreparedOrderResponse : Type 0 where
  pub by : PublicKey
  pub order_response : PublicKey
  pub custody_token : PublicKey

pub record LiveRouterPath : Type 0 where
  pub from_endpoint : PublicKey
  pub to_endpoint : PublicKey

pub record FastOrderPath : Type 0 where
  pub fast_vaa : PublicKey
  pub path : LiveRouterPath

pub record RequiredSysvars : Type 0 where
  pub rent : PublicKey
  pub clock : PublicKey

module _ (p : Program) where
  abbrev pub custodian_or : Option PublicKey → PublicKey
  custodian_or given = or_else given (custodian_address p)

  abbrev pub checked_custodian_composite : Option PublicKey → CheckedCustodian
  checked_custodian_composite given = record { custodian = custodian_or given }

  abbrev pub admin_composite : PublicKey → Option PublicKey → Admin
  admin_composite owner_or_assistant custodian = record {
    owner_or_assistant = owner_or_assistant;
    custodian = checked_custodian_composite custodian;
  }

  abbrev pub admin_mut_composite : PublicKey → Option PublicKey → AdminMut
  admin_mut_composite owner_or_assistant custodian = record {
    owner_or_assistant = owner_or_assistant;
    custodian = custodian_or custodian;
  }

  abbrev pub owner_only_composite : PublicKey → Option PublicKey → OwnerOnly
  owner_only_composite owner custodian = record {
    owner = owner;
    custodian = checked_custodian_composite custodian;
  }

  abbrev pub owner_only_mut_composite : PublicKey → Option PublicKey → OwnerOnlyMut
  owner_only_mut_composite owner custodian = record {
    owner = owner;
    custodian = custodian_or custodian;
  }

  abbrev pub local_token_router_composite : PublicKey → Result LocalTokenRouter
  local_token_router_composite token_router_program = do
    let emitter = p.web3.find_program_address (buffer_from "emitter" ∷ []) token_router_program
    mint_recipient ← p.web3.get_associated_token_address p.mint emitter true
    ok (record {
      token_router_program = token_router_program;
      token_router_emitter = emitter;
      token_router_mint_recipient = mint_recipient;
    })

  abbrev pub close_prepared_order_response_composite :
      PublicKey → PublicKey → ClosePreparedOrderResponse
  close_prepared_order_response_composite by order_response = record {
    by = by;
    order_response = order_response;
    custody_token = prepared_custody_token_address p order_response;
  }

  abbrev pub fast_order_path_composite : PublicKey → PublicKey → PublicKey → FastOrderPath
  fast_order_path_composite fast_vaa from_endpoint to_endpoint = record {
    fast_vaa = fast_vaa;
    path = record { from_endpoint = from_endpoint; to_endpoint = to_endpoint };
  }

  abbrev pub required_sysvars_composite : RequiredSysvars
  required_sysvars_composite = record { rent = p.web3.sysvar_rent; clock = p.web3.sysvar_clock }

module _ (p : Program) (l : Ledger) where
  abbrev pub get_info : Option AuctionInfo → String → Result AuctionInfo
  get_info info message = or_throw info (error message)

  abbrev pub config_of : Option PublicKey → AuctionInfo → Result PublicKey
  config_of config info = given_or config (auction_config_address p info.config_id)

  -- The two keys that the caller may give; the auction is fetched if one is missing.
  abbrev pub config_and_token :
      PublicKey
      → Option PublicKey
      → Option PublicKey
      → Option AuctionInfo
      → Result (PublicKey × PublicKey)
  config_and_token auction (some config) (some token) cached = ok (config, token)
  config_and_token auction config token (some info) = do
    found ← config_of config info
    ok (found, or_else token info.best_offer_token)
  config_and_token auction config token none = do
    fetched ← l.fetch_auction auction
    info ← get_info fetched.info "Auction info not found"
    found ← config_of config info
    ok (found, or_else token info.best_offer_token)

  unfoldable pub active_auction_composite :
      PublicKey → Option PublicKey → Option PublicKey → Option AuctionInfo → Result ActiveAuction
  active_auction_composite auction config best_offer_token cached = do
    (found_config, found_token) ← config_and_token auction config best_offer_token cached
    ok (record {
      custody_token = auction_custody_token_address p auction;
      auction = auction;
      config = found_config;
      best_offer_token = found_token;
    })

  -- The account data of the program that Penalty reads, at the addresses of this program.
  unfoldable pub program_accounts : Accounts
  program_accounts = record {
    auction_config_id = (do
      custodian ← l.fetch_custodian (custodian_address p)
      ok custodian.auction_config_id);
    fetch_auction_config = λ id. auction_config_address p id >>= l.fetch_auction_config;
  }

  -- `VaaAccount.fetch`
  abbrev pub fetch_vaa : PublicKey → Result VaaAccount
  fetch_vaa key = fetch_vaa_account l.sdk (l.account_data key)

  -- The order of a fast VAA.
  abbrev pub order_of : VaaAccount → Result FastMarketOrder
  order_of vaa = do
    payload ← vaa_payload l.sdk vaa
    order ← l.decode payload
    or_throw order (error "Message not FastMarketOrder")
