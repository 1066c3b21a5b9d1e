-- ===== src/Solver/AppConfig/Finality.antt =====
-- Which VAAs AppConfig counts as fast (solver/src/utils/config.ts, isFastFinality).
use example_liquidity_layer.Prelude.{
  Bool, List, Option, String, [], ap, false, if◌then◌else◌, none, refl, some, true, ℕ, ◌==◌, ◌∙◌,
  ◌∷◌, ◌≡◌,
}
use example_liquidity_layer.Prelude.Maps.{get, get-put, int_key, nat_key, put}
use example_liquidity_layer.Solver.AppConfig.{
  ChainConfig, EndpointConfig, Platform, Pricing, add_chains, chain_config,
  evm_fast_consistency_level, fast_level, is_fast_finality, level_is, new_app_config,
}
use example_liquidity_layer.Solver.Json.{Value}

-- The last endpoint of a chain, which is the one that counts.
abbrev pub last_endpoint :
    Platform → ℕ → Option EndpointConfig → List EndpointConfig → Option EndpointConfig
last_endpoint s chain found [] = found
last_endpoint s chain found (cfg ∷ cfgs) =
    last_endpoint s chain (if s.to_chain_id cfg.chain == chain then some cfg else found) cfgs

abbrev pub is_evm_endpoint : Platform → Option EndpointConfig → Bool
is_evm_endpoint s none = false
is_evm_endpoint s (some cfg) = s.is_evm cfg.chain

abbrev configured : Platform → Option EndpointConfig → Option ChainConfig
configured s none = none
configured s (some cfg) = some (chain_config s cfg)

configured-if :
    (s : Platform) (b : Bool) (cfg : EndpointConfig) (found : Option EndpointConfig)
    → (if b then some (chain_config s cfg) else configured s found)
      ≡ configured s (if b then some cfg else found)
configured-if s true cfg found = refl
configured-if s false cfg found = refl

get-add_chains :
    (s : Platform) (chain : ℕ) (acc : List (ℕ × ChainConfig)) (found : Option EndpointConfig)
    (cfgs : List EndpointConfig)
    → get chain acc ≡ configured s found
    → get chain (add_chains s acc cfgs) ≡ configured s (last_endpoint s chain found cfgs)
unfolding add_chains
get-add_chains s chain acc found [] eq = eq
get-add_chains s chain acc found (cfg ∷ cfgs) eq =
    get-add_chains s chain (put (s.to_chain_id cfg.chain) (chain_config s cfg) acc)
      (if s.to_chain_id cfg.chain == chain then some cfg else found) cfgs
      (get-put (s.to_chain_id cfg.chain) chain (chain_config s cfg) acc
        ∙ ap (λ x. if s.to_chain_id cfg.chain == chain then some (chain_config s cfg) else x) eq
        ∙ configured-if s (s.to_chain_id cfg.chain == chain) cfg found)

if-level :
    (b : Bool) (level : ℕ)
    → level_is level (if b then some evm_fast_consistency_level else none)
      ≡ (if b then level == evm_fast_consistency_level else false)
if-level true level = refl
if-level false level = refl

level-of :
    (s : Platform) (level : ℕ) (found : Option EndpointConfig)
    → level_is level (fast_level (configured s found))
      ≡ (if is_evm_endpoint s found then level == evm_fast_consistency_level else false)
level-of s level none = refl
level-of s level (some cfg) = if-level (s.is_evm cfg.chain) level

-- With a configuration that the constructor made, a VAA counts as fast exactly where the last endpoint
-- configured for its emitter's chain is an EVM chain and its consistency level is 200; of a chain that is
-- not configured none does.
pub is_fast_finality_lem :
    (s : Platform) (environment : String) (endpoints : List EndpointConfig) (pricing : List Pricing)
    (nonce_account : Value) (owners : List Value) (level : ℕ) (emitter_chain : String)
    → is_fast_finality s
        (new_app_config s environment endpoints pricing nonce_account owners)
        level
        emitter_chain
      ≡ (if is_evm_endpoint s (last_endpoint s (s.to_chain_id emitter_chain) none endpoints)
          then level == evm_fast_consistency_level
          else false)
unfolding is_fast_finality new_app_config get
is_fast_finality_lem s environment endpoints pricing nonce_account owners level emitter_chain =
    ap (λ x. level_is level (fast_level x))
      (get-add_chains s (s.to_chain_id emitter_chain) [] none endpoints refl)
    ∙ level-of s level (last_endpoint s (s.to_chain_id emitter_chain) none endpoints)
