-- ===== src/Solver/PlaceOffer.antt =====
-- Opening an auction (solver/src/utils/placeInitialOffer.ts). What the accounts hold, the address functions
-- and the instruction builders of MatchingEngineProgram are the fields of `Offers`; log lines are left out.
pub mod Txs
pub mod Client
pub mod Funded
pub mod Accepted
mod Tests
use example_liquidity_layer.Solver.Io.{Io, lift, return, ◌>>=◌, ◌>>◌}
use example_liquidity_layer.Prelude.{
  Bool, List, Option, Result, String, [], false, if◌then◌else◌, none, not, or_throw, some, true,
  type_error, ℕ, ◌++◌, ◌∷◌,
}
use example_liquidity_layer.Prelude.Int.{ℤ, ◌+ℤ◌}
use example_liquidity_layer.Buffer.{Bytes}
use example_liquidity_layer.Uint64.{bigint}
use example_liquidity_layer.Auction.{PublicKey}
use example_liquidity_layer.Penalty.{Accounts, compute_notional_security_deposit}
use example_liquidity_layer.Vaa.{ParsedVaa, Sdk}
use example_liquidity_layer.Solver.Pricing.{FeeCheck, is_fee_high_enough}
use example_liquidity_layer.Solver.Config.{ComputeUnitsConfig, PricingParameters}
use example_liquidity_layer.Solver.Transactions.{
  ConfirmOptions, Instruction, PreparedTransaction, PreparedTransactionOptions,
}

pub record PlaceInitialOfferAccounts : Type 0 where
  pub fast_vaa_account : PublicKey
  pub auction : PublicKey
  pub from_router_endpoint : PublicKey
  pub to_router_endpoint : PublicKey

-- The fields of FastMarketOrder that the solver reads.
pub record FastOrder : Type 0 where
  pub amount_in : ℤ
  pub max_fee : ℤ
  pub target_chain : ℕ

-- The network, the addresses and the instruction builders that opening an auction uses.
pub record Offers (W : Type 0) : Type 1 where
  pub sdk : Sdk
  pub accounts : Accounts
  pub posted_vaa_key : Bytes → PublicKey
  pub auction_address : Bytes → PublicKey
  pub router_endpoint_address : ℕ → Result PublicKey
  pub account_exists : PublicKey → Io W Bool
  pub is_balance_sufficient : PublicKey → ℤ → Io W Bool
  pub post_vaa_txs : Io W (List PreparedTransaction)
  pub initial_offer_ixs : PlaceInitialOfferAccounts → ℤ → ℤ → PublicKey → Io W (List Instruction)

-- A promise is an object, so it counts as true before it is settled.
abbrev pub promise_is_true {ℓ} : {W A : Type ℓ} → Io W A → Bool
promise_is_true p = true

abbrev pub offer_opts : ComputeUnitsConfig → PreparedTransactionOptions
offer_opts units = record {
  fee_micro_lamports = 10;
  compute_units = units.initiate_auction;
  nonce_account = none;
  address_lookup_table_accounts = none;
}

abbrev pub offer_confirm_options : String → Bool → Option ConfirmOptions
offer_confirm_options commitment is_posted =
    some (record { commitment = some commitment; skip_preflight = some (not is_posted) })

module _ {W : Type 0} (offers : Offers W) where
  abbrev pub places_of :
      ParsedVaa → (from_endpoint to_endpoint : PublicKey) → PlaceInitialOfferAccounts
  places_of vaa from_endpoint to_endpoint = record {
    fast_vaa_account = offers.posted_vaa_key vaa.hash;
    auction = offers.auction_address (offers.sdk.keccak256 vaa.hash);
    from_router_endpoint = from_endpoint;
    to_router_endpoint = to_endpoint;
  }

  unfoldable pub get_place_initial_offer_accounts : Bytes → ℕ → ℕ → Io W PlaceInitialOfferAccounts
  get_place_initial_offer_accounts fast_vaa_bytes from_chain to_chain = do
    vaa ← lift (offers.sdk.deserialize fast_vaa_bytes)
    from_endpoint ← lift (offers.router_endpoint_address from_chain)
    to_endpoint ← lift (offers.router_endpoint_address to_chain)
    return (places_of vaa from_endpoint to_endpoint)

  -- MatchingEngineProgram.placeInitialOfferTx
  unfoldable pub place_initial_offer_tx :
      PlaceInitialOfferAccounts
      → ℤ
      → ℤ
      → PublicKey
      → PreparedTransactionOptions
      → Option ConfirmOptions
      → Io W PreparedTransaction
  place_initial_offer_tx places offer_price total_deposit payer opts confirm_options = do
    ixs ← offers.initial_offer_ixs places offer_price total_deposit payer
    return (record {
      ixs = ixs;
      signers = payer ∷ [];
      compute_units = opts.compute_units;
      fee_micro_lamports = opts.fee_micro_lamports;
      nonce_account = opts.nonce_account;
      address_lookup_table_accounts = opts.address_lookup_table_accounts;
      tx_name = some "placeInitialOffer";
      confirm_options = confirm_options;
    })

  -- The transactions that post the fast VAA, unless it is posted.
  abbrev pub post_if_needed : Bool → Io W (List PreparedTransaction)
  post_if_needed true = return []
  post_if_needed false = offers.post_vaa_txs

  -- From the check of the balance on.
  unfoldable pub offer_with_deposit :
      ComputeUnitsConfig
      → String
      → PlaceInitialOfferAccounts
      → FastOrder
      → PublicKey
      → ℤ
      → Io W (List PreparedTransaction)
  unfolding place_initial_offer_tx
  offer_with_deposit units commitment places order payer total_deposit =
      let is_sufficient = promise_is_true (offers.is_balance_sufficient payer total_deposit) in
      let offer = do
        is_posted ← offers.account_exists places.fast_vaa_account
        posts ← post_if_needed is_posted
        tx ←
            place_initial_offer_tx places order.max_fee total_deposit payer (offer_opts units)
              (offer_confirm_options commitment is_posted)
        return (posts ++ tx ∷ [])
      in if not is_sufficient then return [] else offer

  -- From the check of the fee on.
  unfoldable pub offer_if_wanted :
      ComputeUnitsConfig
      → String
      → PlaceInitialOfferAccounts
      → FastOrder
      → PublicKey
      → FeeCheck
      → Io W (List PreparedTransaction)
  unfolding offer_with_deposit
  offer_if_wanted units commitment places order payer check =
      let priced = (do
        deposit ←
            lift
              (compute_notional_security_deposit offers.accounts (bigint order.amount_in) (some 2))
        offer_with_deposit units commitment places order payer
            (order.amount_in +ℤ order.max_fee +ℤ deposit)) in
      if not check.should_place_offer then return [] else priced

  -- From the check of the auction on; the parameters of a chain that is not configured are null.
  unfoldable pub offer_if_open :
      ComputeUnitsConfig
      → String
      → PlaceInitialOfferAccounts
      → FastOrder
      → PublicKey
      → Option PricingParameters
      → Bool
      → Io W (List PreparedTransaction)
  unfolding offer_if_wanted
  offer_if_open units commitment places order payer pricing is_auction_started =
      let checked = (do
        parameters ← lift (or_throw pricing type_error)
        check ← lift (is_fee_high_enough order.amount_in order.max_fee parameters)
        offer_if_wanted units commitment places order payer check) in
      if is_auction_started then return [] else checked

  unfoldable pub handle_place_initial_offer :
      ComputeUnitsConfig
      → String
      → Option PricingParameters
      → Bytes
      → ℕ
      → FastOrder
      → PublicKey
      → Io W (List PreparedTransaction)
  unfolding get_place_initial_offer_accounts offer_if_open
  handle_place_initial_offer units commitment pricing raw_vaa from_chain order payer = do
    places ← get_place_initial_offer_accounts raw_vaa from_chain order.target_chain
    is_auction_started ← offers.account_exists places.auction
    offer_if_open units commitment places order payer pricing is_auction_started
