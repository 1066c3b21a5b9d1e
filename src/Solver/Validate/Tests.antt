-- ===== src/Solver/Validate/Tests.antt =====
-- A configuration that is accepted.
use example_liquidity_layer.Prelude.{[], ok, refl, replicate, true, ◌∷◌}
use example_liquidity_layer.Prelude.Int.{le_ℤ, lt_ℤ, pos}
use example_liquidity_layer.Solver.Json.{
  Value, array, cons, end, field, finite, gt_one, is_number, le_zero, lt_zero, nil, number, object,
  string, undefined,
}
use example_liquidity_layer.Solver.Validate.{Checks, EnvironmentConfig, validate_environment_config}
use example_liquidity_layer.Solver.Validate.Accepted.{
  ConfigIsValid, validate_environment_config_lem,
}

abbrev checks : Checks
checks = record {
  public_key = λ v. ok tt;
  is_chain = λ s. true;
  get_address = λ v. ok "0xAb";
  to_native = λ chain v. ok tt;
  show = λ v. "";
}

abbrev one_pricing : Value
one_pricing = object (
    field "chain" (string "Ethereum") (
      field "probability" (number (finite (pos 3) 2))
        (field "edgePctOfFv" (number (finite (pos 0) 0)) end)))

abbrev one_endpoint : Value
one_endpoint = object (
    field "chain" (string "Ethereum") (
      field "rpc" (string "http://localhost")
        (field "endpoint" (string "0xAb") (field "chainType" (number (finite (pos 0) 0)) end))))

-- The connection has no RPC, the logging no levels.
abbrev config : Value
config = object (
    field "environment" (string "Testnet") (
      field "connection"
        (object
          (field "ws" (string "ws://localhost") (field "addressLookupTable" (string "table") end)))
        (field "logging" (object end) (
          field "sourceTxHash" (object end) (
            field "computeUnits" (object end) (
              field "endpointConfig" (array (cons one_endpoint nil)) (
                field "pricing" (array (cons one_pricing nil))
                  (field "knownAtaOwners" (array (cons (string "owner") nil)) end))))))))

abbrev accepted : EnvironmentConfig
accepted = record {
  environment = "Testnet";
  connection = record {
    rpc = undefined;
    ws = undefined;
    commitment = undefined;
    nonce_account = undefined;
    address_lookup_table = string "table";
  };
  logging = undefined ∷ undefined ∷ [];
  source_tx_hash = undefined ∷ undefined ∷ [];
  compute_units = replicate 6 undefined;
  pricing = one_pricing ∷ [];
  known_ata_owners = string "owner" ∷ [];
  endpoint_config = one_endpoint ∷ [];
}

validate_environment_config_lem_example : ConfigIsValid checks config accepted
unfolding validate_environment_config le_zero lt_zero gt_one is_number le_ℤ lt_ℤ
validate_environment_config_lem_example =
    validate_environment_config_lem checks config accepted refl
