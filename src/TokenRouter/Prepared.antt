-- ===== src/TokenRouter/Prepared.antt =====
-- Preparing an order, against the Rust program (solana/programs/token-router/src/processor/market_order).

use example_liquidity_layer.Prelude.{
  Error, length, replicate, throw, ◌≢◌, ◌≤◌, Option, [], none, ok, or_else, some, ℕ, ◌++◌, ◌<◌, ◌^◌,
  ◌∷◌, ◌≡◌, ◌⊎◌,
}
use example_liquidity_layer.Prelude.Int.{pos, ℤ}
use example_liquidity_layer.Buffer.{Bytes, be_bytes}
use example_liquidity_layer.Auction.{PublicKey}
use example_liquidity_layer.Solana.{buffer_from}
use example_liquidity_layer.MatchingEngine.State.{Ledger}
use example_liquidity_layer.MatchingEngine.Onchain.{EndpointAccepted, endpoint_pda}
use example_liquidity_layer.TokenRouter.{
  PrepareMarketOrder, PrepareMarketOrderArgs, PrepareOrderAccounts, TokenRouter,
}
use example_liquidity_layer.MatchingEngine.Addresses.{
  address as address_at, custodian_address as emitter_address,
}

abbrev pub as_bigint : Option ℕ → Option ℤ
as_bigint none = none
as_bigint (some n) = some (pos n)

-- The arguments, as the numbers that they are.
abbrev pub order_args :
    (amount : ℕ)
    → (min_amount : Option ℕ) → (chain : ℕ) → (redeemer message : Bytes) → PrepareMarketOrderArgs
order_args amount min_amount chain redeemer message = record {
  amount_in = pos amount;
  min_amount_out = as_bigint min_amount;
  target_chain = chain;
  redeemer = redeemer;
  redeemer_message = message;
}

-- What a caller gives who leaves the sender and the transfer authority to the client.
abbrev pub accounts_of :
    (payer order token : PublicKey) (refund authority endpoint : Option PublicKey)
    → PrepareOrderAccounts
accounts_of payer order token refund authority endpoint = record {
  payer = payer;
  prepared_order = order;
  sender_token = token;
  sender_token_authority = authority;
  refund_token = refund;
  program_transfer_authority = none;
  sender = none;
  target_router_endpoint = endpoint;
  use_transfer_authority = none;
}

abbrev pub IsU64 : Option ℕ → Type 0
IsU64 none = Unit
IsU64 (some n) = n < 2 ^ 64

-- What the program asks of the arguments of an order.
pub record ArgumentsAccepted (amount : ℕ) (min_amount : Option ℕ) (redeemer message : Bytes)
    : Type 0 where
  pub some_amount : 0 < amount
  pub redeemer_size : length redeemer ≡ 32
  pub redeemer_is_key : redeemer ≢ replicate 32 0
  pub message_size : length message ≤ 500
  pub min_at_most : (n : ℕ) → min_amount ≡ some n → n ≤ amount

module _ (r : TokenRouter) where
  -- `PrepareMarketOrderArgs::hash`
  abbrev pub args_hash :
      (amount : ℕ) → (min_amount : Option ℕ) → (chain : ℕ) → (redeemer message : Bytes) → Bytes
  args_hash amount none chain redeemer message =
      r.keccak256 (be_bytes 8 amount ++ be_bytes 2 chain ++ redeemer ++ message)
  args_hash amount (some min_amount) chain redeemer message =
      r.keccak256
        (be_bytes 8 amount ++ be_bytes 8 min_amount ++ be_bytes 2 chain ++ redeemer ++ message)

  abbrev pub authority_pda : (prepared_order hash refund_token : Bytes) → PublicKey
  authority_pda prepared_order hash refund_token =
      address_at r.program
        (buffer_from "transfer-authority" ∷ prepared_order ∷ hash ∷ refund_token ∷ [])

  -- The accounts of prepare_market_order, for arguments with a hash and a target chain. Exactly one of the
  -- sender and the transfer authority must be there.
  pub record PrepareMarketOrderAccepted (l : Ledger) (hash : Bytes) (amount : ℕ)
      (min_amount : Option ℕ) (redeemer message : Bytes) (chain : ℕ) (a : PrepareMarketOrder)
      : Type 0 where
    pub arguments : ArgumentsAccepted amount min_amount redeemer message
    pub custodian_seeds : a.custodian ≡ address_at r.program (buffer_from "emitter" ∷ [])
    pub authority_seeds :
        (key : PublicKey)
        → a.program_transfer_authority ≡ some key
        → key ≡ authority_pda a.prepared_order hash a.refund_token
    pub one_authority :
        ((a.sender ≡ none) × ((key : PublicKey) × (a.program_transfer_authority ≡ some key)))
        ⊎ (((key : PublicKey) × (a.sender ≡ some key)) × (a.program_transfer_authority ≡ none))
    -- The order's account is made, so it is not there yet.
    pub thrown : Error
    pub unprepared : r.fetch_prepared_order a.prepared_order ≡ throw thrown
    pub usdc : a.usdc ≡ r.program.mint
    pub token_program : a.token_program ≡ r.program.web3.token_program_id
    pub system_program : a.system_program ≡ r.program.web3.system_program_id
    pub custody_seeds :
        a.prepared_custody_token
        ≡ address_at r.program (buffer_from "prepared-custody" ∷ a.prepared_order ∷ [])
    pub endpoint : EndpointAccepted r.matching_engine l a.target_router_endpoint chain

  module _ (to_buffer : (v : ℕ) → v < 2 ^ 64 → r.to_buffer_be (pos v) ≡ ok (be_bytes 8 v)) where
    module _ (l : Ledger) (payer order token owner : PublicKey) (refund : Option PublicKey)
        (amount : ℕ) (min_amount : Option ℕ) (chain : ℕ) (redeemer message : Bytes) where
      abbrev the_authority : PublicKey
      the_authority =
          authority_pda order (args_hash amount min_amount chain redeemer message)
            (or_else refund token)

      abbrev the_order : PrepareMarketOrder
      the_order = record {
        payer = payer;
        custodian = emitter_address r.program;
        program_transfer_authority = some the_authority;
        sender = none;
        prepared_order = order;
        sender_token = token;
        refund_token = or_else refund token;
        prepared_custody_token = address_at r.program (buffer_from "prepared-custody" ∷ order ∷ []);
        usdc = r.program.mint;
        target_router_endpoint = endpoint_pda r.matching_engine l chain;
        token_program = r.program.web3.token_program_id;
        system_program = r.program.web3.system_program_id;
      }
