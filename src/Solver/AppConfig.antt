-- ===== src/Solver/AppConfig.antt =====
-- AppConfig (solver/src/utils/config.ts): the tables that its constructor makes of an accepted configuration,
-- and its answers. The Wormhole SDK's tables are the fields of `Platform`.
mod Finality
mod Tests
use example_liquidity_layer.Prelude.{
  Bool, List, Option, Result, String, [], error, false, if◌then◌else◌, map, none, not, ok, or_throw,
  some, throw, type_error, ℕ, ◌==◌, ◌||◌, ◌∷◌, ◌>>=◌, ◌>>◌,
}
use example_liquidity_layer.Prelude.Maps.{get, int_key, nat_key, put}
use example_liquidity_layer.Auction.{PublicKey}
use example_liquidity_layer.AuctionHistory.{bytes_equal}
use example_liquidity_layer.Solver.Json.{Double, Value, is_undefined}
use text.Mathlib.Text.{◌==◌ as text_eq}

pub record Platform : Type 0 where
  pub to_chain_id : String → ℕ
  -- `chainToPlatform(chain) === "Evm"`
  pub is_evm : String → Bool
  -- `contracts.coreBridge.get(environment, chain)`
  pub core_bridge : String → String → Option String
  -- `new PublicKey(key)`, and the owner's associated USDC account
  pub to_public_key : Value → Result PublicKey
  pub associated_token : PublicKey → Result PublicKey

-- An endpoint of the configuration, as validateEnvironmentConfig leaves it.
pub record EndpointConfig : Type 0 where
  pub chain : String
  pub rpc : Value
  pub endpoint : String
  pub chain_type : Value

pub record ChainConfig : Type 0 where
  pub input : EndpointConfig
  pub fast_consistency_level : Option ℕ

-- Pricing of a chain; the numbers are not looked at here.
pub record Pricing : Type 0 where
  pub chain : String
  pub probability : Double
  pub edge_pct_of_fv : Double

pub record AppConfig : Type 0 where
  pub environment : String
  pub endpoint_config : List EndpointConfig
  pub pricing : List Pricing
  pub nonce_account : Value
  pub known_ata_owners : List Value
  pub chain_cfgs : List (ℕ × ChainConfig)

pub record EmitterFilter : Type 0 where
  pub chain : String
  pub native_address : String

abbrev pub evm_fast_consistency_level : ℕ
evm_fast_consistency_level = 200

abbrev pub fast_level : Option ChainConfig → Option ℕ
fast_level none = none
fast_level (some cfg) = cfg.fast_consistency_level

abbrev pub level_is : ℕ → Option ℕ → Bool
level_is level none = false
level_is level (some l) = level == l

module _ (s : Platform) where
  abbrev pub chain_config : EndpointConfig → ChainConfig
  chain_config cfg = record {
    input = cfg;
    fast_consistency_level = if s.is_evm cfg.chain then some evm_fast_consistency_level else none;
  }

  -- `reduce((acc, cfg) => ({ ...acc, [toChainId(cfg.chain)]: cfg }), {})`
  unfoldable pub add_chains : List (ℕ × ChainConfig) → List EndpointConfig → List (ℕ × ChainConfig)
  add_chains acc [] = acc
  add_chains acc (cfg ∷ cfgs) =
      add_chains (put (s.to_chain_id cfg.chain) (chain_config cfg) acc) cfgs

  -- The constructor, from what validateEnvironmentConfig gives.
  unfoldable pub new_app_config :
      String → List EndpointConfig → List Pricing → Value → List Value → AppConfig
  unfolding add_chains
  new_app_config environment endpoints pricing nonce_account owners = record {
    environment = environment;
    endpoint_config = endpoints;
    pricing = pricing;
    nonce_account = nonce_account;
    known_ata_owners = owners;
    chain_cfgs = add_chains [] endpoints;
  }

  unfoldable pub solana_nonce_account : AppConfig → Result PublicKey
  solana_nonce_account a =
      if is_undefined a.nonce_account
      then throw (error "nonceAccount is not configured")
      else s.to_public_key a.nonce_account

  abbrev pub each {ℓ κ} : {A : Type ℓ} {B : Type κ} → (A → Result B) → List A → Result (List B)
  each f [] = ok []
  each f (x ∷ xs) = do y ← f x; ys ← each f xs; ok (y ∷ ys)

  unfoldable pub known_ata_owners : AppConfig → Result (List PublicKey)
  known_ata_owners a = each s.to_public_key a.known_ata_owners

  unfoldable pub recognized_token_accounts : AppConfig → Result (List PublicKey)
  unfolding known_ata_owners
  recognized_token_accounts a = do owners ← known_ata_owners a; each s.associated_token owners

  abbrev pub some_equal : PublicKey → List PublicKey → Bool
  some_equal key [] = false
  some_equal key (k ∷ ks) = bytes_equal k key || some_equal key ks

  unfoldable pub is_recognized_token_account : AppConfig → PublicKey → Result Bool
  unfolding recognized_token_accounts
  is_recognized_token_account a key = do
    accounts ← recognized_token_accounts a
    ok (some_equal key accounts)

  unfoldable pub find_pricing : ℕ → List Pricing → Option Pricing
  find_pricing chain [] = none
  find_pricing chain (x ∷ xs) =
      if s.to_chain_id x.chain == chain then some x else find_pricing chain xs

  unfoldable pub pricing_parameters : AppConfig → ℕ → Option Pricing
  unfolding find_pricing
  pricing_parameters a chain = find_pricing chain a.pricing

  -- A chain that is not configured has no fields to read.
  unfoldable pub unsafe_chain_cfg : AppConfig → ℕ → Result (Option String × ChainConfig)
  unsafe_chain_cfg a chain = do
    cfg ← or_throw (get chain a.chain_cfgs) type_error
    ok (s.core_bridge a.environment cfg.input.chain, cfg)

  unfoldable pub is_fast_finality :
      AppConfig → (consistency_level : ℕ) → (emitter_chain : String) → Bool
  is_fast_finality a level chain =
      level_is level (fast_level (get (s.to_chain_id chain) a.chain_cfgs))

abbrev pub is_mainnet : AppConfig → Bool
is_mainnet a = text_eq a.environment "Mainnet"

unfoldable pub cctp_attestation_endpoint : AppConfig → String
cctp_attestation_endpoint a =
    if is_mainnet a then "https://iris-api.circle.com" else "https://iris-api-sandbox.circle.com"

unfoldable pub wormhole_scan_vaa_endpoint : AppConfig → String
wormhole_scan_vaa_endpoint a =
    if is_mainnet a
    then "https://api.wormholescan.io/api/v1/vaas/"
    else "https://api.testnet.wormholescan.io/api/v1/vaas/"

unfoldable pub emitter_filter_for_spy : AppConfig → List EmitterFilter
emitter_filter_for_spy a =
    map (λ (cfg : EndpointConfig). record { chain = cfg.chain; native_address = cfg.endpoint })
      a.endpoint_config
