-- ===== src/Solver/Validate.antt =====
-- validateEnvironmentConfig (solver/src/utils/config.ts), on any value. web3.js, ethers and the Wormhole SDK
-- are the fields of `Checks`.
pub mod Sound
pub mod Accepted
mod Tests
use example_liquidity_layer.Prelude.{
  Bool, List, Result, String, [], error, false, guard, if◌then◌else◌, length, ltb, not, ok,
  or_throw, throw, type_error, ◌++◌, ◌||◌, ◌∷◌, ◌>>=◌, ◌>>◌,
}
use example_liquidity_layer.Solver.Json.{
  Double, Value, array, as_array, as_number, bool, cons, entries, fields, gt_one, is_number,
  is_undefined, le_zero, lookup, lt_zero, nil, null, number, object, property, string, undefined,
}
use Prim.Native.String
use text.Mathlib.Text.{◌==◌ as text_eq}

pub record Checks : Type 0 where
  -- `new PublicKey(v)`
  pub public_key : Value → Result (Unit {0})
  pub is_chain : String → Bool
  -- `ethers.utils.getAddress(v)`
  pub get_address : Value → Result String
  -- `toNative(chain, v).toString()`
  pub to_native : String → Value → Result (Unit {0})
  -- A value in a template literal.
  pub show : Value → String

pub record ConnectionConfig : Type 0 where
  pub rpc : Value
  pub ws : Value
  pub commitment : Value
  pub nonce_account : Value
  pub address_lookup_table : Value

pub record EnvironmentConfig : Type 0 where
  pub environment : String
  pub connection : ConnectionConfig
  pub logging : List Value
  pub source_tx_hash : List Value
  pub compute_units : List Value
  pub pricing : List Value
  pub known_ata_owners : List Value
  pub endpoint_config : List Value

abbrev pub one_of : List String → String → Bool
one_of [] k = false
one_of (j ∷ js) k = text_eq j k || one_of js k

infixr 65 ◌^^◌
abbrev ◌^^◌ : String → String → String
s ^^ t = String.◌++◌ s t

-- One of the loops over the keys of an object: `optional` are those that may be undefined.
unfoldable pub check_keys :
    String → List String → List String → List (String × Value) → Result (Unit {0})
check_keys prefix allowed optional [] = ok tt
check_keys prefix allowed optional ((k, v) ∷ kvs) = do
  guard (one_of allowed k) (error ("unexpected key: " ^^ prefix ^^ k))
  guard (one_of optional k || not (is_undefined v)) (error (prefix ^^ k ^^ " is required"))
  check_keys prefix allowed optional kvs

abbrev pub check_object : String → String → List String → List String → Value → Result Value
check_object name prefix allowed optional cfg = do
  v ← property cfg name
  kvs ← entries v
  check_keys prefix allowed optional kvs
  ok v

abbrev pub root_keys : List String
root_keys =
    "environment" ∷ "connection" ∷ "logging" ∷ "sourceTxHash" ∷ "computeUnits" ∷ "endpointConfig"
    ∷ "pricing" ∷ "knownAtaOwners" ∷ []

abbrev pub compute_unit_keys : List String
compute_unit_keys =
    "verifySignatures" ∷ "postVaa" ∷ "settleAuctionNoneCctp" ∷ "settleAuctionNoneLocal"
    ∷ "settleAuctionComplete" ∷ "initiateAuction" ∷ []

abbrev pub checked_connection : Value → Result Value
checked_connection =
    check_object "connection" "connection."
      ("rpc" ∷ "ws" ∷ "commitment" ∷ "nonceAccount" ∷ "addressLookupTable" ∷ []) ("ws" ∷ [])

abbrev pub checked_logging : Value → Result Value
checked_logging = check_object "logging" "logging." ("app" ∷ "logic" ∷ []) []

abbrev pub checked_source_tx_hash : Value → Result Value
checked_source_tx_hash =
    check_object "sourceTxHash" "sourceTxHash." ("maxRetries" ∷ "retryBackoff" ∷ []) []

abbrev pub checked_compute_units : Value → Result Value
checked_compute_units =
    check_object "computeUnits" "computeUnits." (compute_unit_keys ++ "improveOffer" ∷ []) []

abbrev pub properties : Value → List String → Result (List Value)
properties v [] = ok []
properties v (k ∷ ks) = do first ← property v k; rest ← properties v ks; ok (first ∷ rest)

abbrev pub for_each {ℓ} : {A : Type ℓ} → (A → Result (Unit {0})) → List A → Result (Unit {0})
for_each check [] = ok tt
for_each check (x ∷ xs) = do check x; for_each check xs

-- A value that must be one of the SDK's chains.
abbrev pub is_chain_value : Checks → Value → Bool
is_chain_value c (string s) = c.is_chain s
is_chain_value c _ = false

module _ (c : Checks) where
  abbrev pub check_chain : String → Value → Result (Unit {0})
  check_chain name chain = do
    guard (not (is_undefined chain)) (error (name ^^ ".chain is required"))
    guard (is_chain_value c chain) (error ("invalid chain: " ^^ c.show chain))

  abbrev pub check_double : String → (Double → Bool) → String → Value → Result (Unit {0})
  check_double name bad range v = do
    guard (not (is_undefined v)) (error (name ^^ " is required"))
    d ← or_throw (as_number v) (error (name ^^ " must be a number"))
    guard (not (bad d)) (error (name ^^ range))

  unfoldable pub check_pricing : Value → Result (Unit {0})
  check_pricing v = do
    chain ← property v "chain"
    probability ← property v "probability"
    edge ← property v "edgePctOfFv"
    check_chain "pricingParameter" chain
    check_double "pricingParameter.probability" (λ d. le_zero d || gt_one d) " must be in (0, 1]"
        probability
    check_double "pricingParameter.edgePctOfFv" lt_zero " must be non-negative" edge

  abbrev pub is_chain_type : Value → Bool
  is_chain_type (number d) = is_number d 0 || is_number d 1
  is_chain_type _ = false

  abbrev pub is_text : Value → String → Bool
  is_text (string s) t = text_eq s t
  is_text _ t = false

  abbrev pub chain_text : Value → String
  chain_text (string s) = s
  chain_text v = c.show v

  unfoldable pub check_endpoint : Value → Result (Unit {0})
  check_endpoint v = do
    chain ← property v "chain"
    rpc ← property v "rpc"
    endpoint ← property v "endpoint"
    chain_type ← property v "chainType"
    check_chain "endpointConfig" chain
    guard (not (is_undefined chain_type)) (error "endpointConfig.chainType is required")
    guard (is_chain_type chain_type) (error "endpointConfig.chainType must be either Evm or Solana")
    guard (not (is_undefined rpc)) (error "endpointConfig.rpc is required")
    guard (not (is_undefined endpoint)) (error "endpointConfig.endpoint is required")
    address ← c.get_address endpoint
    guard (is_text endpoint address)
        (error ("chain=" ^^ c.show chain ^^ " address must be check-summed: " ^^ address))
    c.to_native (chain_text chain) endpoint

  abbrev pub check_public_key : Value → Result (Unit {0})
  check_public_key v = c.public_key v

  -- `knownAtaOwners === undefined || knownAtaOwners.length === 0`
  abbrev pub check_not_empty : Value → Result (Unit {0})
  check_not_empty undefined = throw (error "knownAtaOwners must be a non-empty array")
  check_not_empty null = throw type_error
  check_not_empty (array nil) = throw (error "knownAtaOwners must be a non-empty array")
  check_not_empty (string s) =
      guard (not (text_eq s "")) (error "knownAtaOwners must be a non-empty array")
  check_not_empty (object fs) = elim (lookup "length" (fields fs)) [
    | number d ↦ guard (not (is_number d 0)) (error "knownAtaOwners must be a non-empty array")
    | _ ↦ ok tt
  ]
  check_not_empty (bool b) = ok tt
  check_not_empty (number d) = ok tt
  check_not_empty (array (cons v vs)) = ok tt

  abbrev pub environment_of : Value → Result String
  environment_of (string s) =
      if text_eq s "Mainnet" || text_eq s "Testnet"
      then ok s
      else throw (error "environment must be either Mainnet or Testnet")
  environment_of v = throw (error "environment must be either Mainnet or Testnet")

  abbrev pub check_nonce_account : Value → Result (Unit {0})
  check_nonce_account undefined = ok tt
  check_nonce_account v = c.public_key v

  -- The loops over the arrays of the configuration.
  abbrev pub valid_pricing : Value → Result (List Value)
  valid_pricing cfg = do
    v ← property cfg "pricing"
    pricing ← or_throw (as_array v) (error "pricing must be an array")
    for_each check_pricing pricing
    ok pricing

  abbrev pub valid_owners : Value → Result (List Value)
  valid_owners v = do
    owners ← or_throw (as_array v) (error "knownAtaOwners must be an array")
    for_each check_public_key owners
    ok owners

  abbrev pub valid_endpoints : Value → Result (List Value)
  valid_endpoints cfg = do
    v ← property cfg "endpointConfig"
    endpoints ← or_throw (as_array v) (error "endpointConfig must be an array")
    guard (ltb 0 (length endpoints)) (error "endpointConfig must contain at least one element")
    for_each check_endpoint endpoints
    ok endpoints

  -- The websocket is not among the properties that are returned.
  unfoldable pub validate_environment_config : Value → Result EnvironmentConfig
  unfolding check_keys property entries as_array check_pricing check_endpoint lookup
  validate_environment_config cfg = do
    root ← entries cfg
    check_keys "" root_keys [] root
    environment_value ← property cfg "environment"
    environment ← environment_of environment_value
    connection ← checked_connection cfg
    nonce_account ← property connection "nonceAccount"
    check_nonce_account nonce_account
    table ← property connection "addressLookupTable"
    check_public_key table
    owners_value ← property cfg "knownAtaOwners"
    check_not_empty owners_value
    logging ← checked_logging cfg
    source_tx_hash ← checked_source_tx_hash cfg
    compute_units ← checked_compute_units cfg
    pricing ← valid_pricing cfg
    owners ← valid_owners owners_value
    endpoints ← valid_endpoints cfg
    rpc ← property connection "rpc"
    commitment ← property connection "commitment"
    logging_values ← properties logging ("app" ∷ "logic" ∷ [])
    source_values ← properties source_tx_hash ("maxRetries" ∷ "retryBackoff" ∷ [])
    unit_values ← properties compute_units compute_unit_keys
    ok (record {
      environment = environment;
      connection = record {
        rpc = rpc;
        ws = undefined;
        commitment = commitment;
        nonce_account = nonce_account;
        address_lookup_table = table;
      };
      logging = logging_values;
      source_tx_hash = source_values;
      compute_units = unit_values;
      pricing = pricing;
      known_ata_owners = owners;
      endpoint_config = endpoints;
    })
