-- ===== src/Solver/AppConfig/Tests.antt =====
-- A configuration of two chains; Solana is not an EVM chain.
use example_liquidity_layer.Prelude.{
  List, String, [], if◌then◌else◌, none, not, ok, throw, true, type_error, ◌∷◌, ◌≡◌,
}
use example_liquidity_layer.Solver.Json.{undefined}
use example_liquidity_layer.Solver.AppConfig.{
  EndpointConfig, Platform, is_fast_finality, new_app_config,
}
use example_liquidity_layer.Solver.AppConfig.Finality.{is_fast_finality_lem}
use text.Mathlib.Text.{◌==◌ as text_eq}

abbrev platform : Platform
platform = record {
  to_chain_id = λ chain. if text_eq chain "Solana" then 1 else 2;
  is_evm = λ chain. not (text_eq chain "Solana");
  core_bridge = λ environment chain. none;
  to_public_key = λ v. throw type_error;
  associated_token = λ owner. ok owner;
}

abbrev endpoint_of : String → EndpointConfig
endpoint_of chain = record { chain = chain; rpc = undefined; endpoint = ""; chain_type = undefined }

abbrev endpoints : List EndpointConfig
endpoints = endpoint_of "Solana" ∷ endpoint_of "Ethereum" ∷ []

is_fast_finality_lem_example :
    is_fast_finality platform
      (new_app_config platform "Testnet" endpoints [] undefined [])
      200
      "Ethereum"
    ≡ true
is_fast_finality_lem_example =
    is_fast_finality_lem platform "Testnet" endpoints [] undefined [] 200 "Ethereum"
