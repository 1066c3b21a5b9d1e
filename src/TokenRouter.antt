-- ===== src/TokenRouter.antt =====
-- TokenRouterProgram (solana/ts/src/tokenRouter/index.ts): preparing and closing an order. The matching
-- engine's client is that of MatchingEngine.
pub mod Prepared
pub mod Market
pub mod Redeem
pub mod Owner
mod Fixture
mod Tests
use example_liquidity_layer.Prelude.{
  Bool, List, Option, Result, [], error, false, none, ok, or_else, some, throw, true, ℕ, ◌++◌, ◌∷◌,
  ◌>>=◌, ◌>>◌,
}
use example_liquidity_layer.Prelude.Int.{ℤ}
use example_liquidity_layer.Buffer.{Bytes, alloc, write_uint_be}
use example_liquidity_layer.Auction.{PublicKey}
use example_liquidity_layer.Uint64.{bigint, low_bytes, uint64_to_bn}
use example_liquidity_layer.Solana.{Approve, buffer_from, given_or}
use example_liquidity_layer.MatchingEngine.Addresses.{
  Program, address, custodian_address, prepared_custody_token_address as custody_token_address,
  router_endpoint_address,
}

-- A market order has a minimum amount or null.
pub record OrderType : Type 0 where
  pub market : Option (Option ℤ)

pub record PreparedOrderInfo : Type 0 where
  pub prepared_custody_token_bump : ℕ
  pub order_sender : PublicKey
  pub prepared_by : PublicKey
  pub order_type : OrderType
  pub src_token : PublicKey
  pub refund_token : PublicKey
  pub target_chain : ℕ
  pub redeemer : List ℕ

-- An order that was prepared.
pub record PreparedOrder : Type 0 where
  pub info : PreparedOrderInfo
  pub redeemer_message : Bytes

pub record Custodian : Type 0 where
  pub paused : Bool
  pub owner : PublicKey
  pub pending_owner : Option PublicKey
  pub owner_assistant : PublicKey
  pub paused_set_by : PublicKey

-- The addresses of the custodian and of a prepared custody token have the seeds of the matching engine's,
-- so the router is a `Program` too. `to_buffer_be` is the `toBuffer("be", 8)` of a BN, and `fetch_token_owner`
-- the owner of a token account.
pub record TokenRouter : Type 0 where
  pub program : Program
  pub matching_engine : Program
  pub keccak256 : Bytes → Bytes
  pub to_buffer_be : ℤ → Result Bytes
  pub fetch_token_owner : PublicKey → Result PublicKey
  pub fetch_custodian : PublicKey → Result Custodian
  pub fetch_prepared_order : PublicKey → Result PreparedOrder

pub record PrepareMarketOrderArgs : Type 0 where
  pub amount_in : ℤ
  pub min_amount_out : Option ℤ
  pub target_chain : ℕ
  pub redeemer : List ℕ
  pub redeemer_message : Bytes

pub record PrepareMarketOrder : Type 0 where
  pub payer : PublicKey
  pub custodian : PublicKey
  pub program_transfer_authority : Option PublicKey
  pub sender : Option PublicKey
  pub prepared_order : PublicKey
  pub sender_token : PublicKey
  pub refund_token : PublicKey
  pub prepared_custody_token : PublicKey
  pub usdc : PublicKey
  pub target_router_endpoint : PublicKey
  pub token_program : PublicKey
  pub system_program : PublicKey

-- What the caller gives. A transfer authority may be left out, null, or a key.
pub record PrepareOrderAccounts : Type 0 where
  pub payer : PublicKey
  pub prepared_order : PublicKey
  pub sender_token : PublicKey
  pub sender_token_authority : Option PublicKey
  pub refund_token : Option PublicKey
  pub program_transfer_authority : Option (Option PublicKey)
  pub sender : Option PublicKey
  pub target_router_endpoint : Option PublicKey
  pub use_transfer_authority : Option Bool

pub record ClosePreparedOrder : Type 0 where
  pub prepared_by : PublicKey
  pub custodian : PublicKey
  pub order_sender : PublicKey
  pub prepared_order : PublicKey
  pub refund_token : PublicKey
  pub prepared_custody_token : PublicKey
  pub token_program : PublicKey

module _ (r : TokenRouter) where
  -- `uint64ToBN(value).toBuffer("be", 8)`
  abbrev pub eight_bytes : ℤ → Result Bytes
  eight_bytes value = do n ← uint64_to_bn (bigint value); r.to_buffer_be n

  abbrev pub eight_bytes_if_there : Option ℤ → Result Bytes
  eight_bytes_if_there none = ok []
  eight_bytes_if_there (some value) = eight_bytes value

  -- A hasher that is updated in steps hashes the bytes one after the other.
  unfoldable pub transfer_authority_address :
      (prepared_order : PublicKey)
      → PrepareMarketOrderArgs
      → (refund_token : PublicKey) → Result PublicKey
  transfer_authority_address prepared_order args refund_token = do
    amount ← eight_bytes args.amount_in
    min_amount ← eight_bytes_if_there args.min_amount_out
    chain ← write_uint_be 2 (alloc 2) args.target_chain 0
    let hash =
        r.keccak256
          (amount ++ min_amount ++ chain ++ low_bytes args.redeemer ++ args.redeemer_message)
    ok (
        address r.program
          (buffer_from "transfer-authority" ∷ prepared_order ∷ hash ∷ refund_token ∷ []))

  unfoldable pub approve_transfer_authority_ix :
      (prepared_order sender_token refund_token : PublicKey)
      → (sender_token_authority : Option PublicKey) → PrepareMarketOrderArgs
      → Result (PublicKey × Approve)
  unfolding transfer_authority_address
  approve_transfer_authority_ix prepared_order sender_token refund_token authority args = do
    owner ← given_or authority (r.fetch_token_owner sender_token)
    transfer_authority ← transfer_authority_address prepared_order args refund_token
    ok (
      transfer_authority,
      record {
        account = sender_token;
        delegate = transfer_authority;
        owner = owner;
        amount = args.amount_in;
      },
    )

  unfoldable pub registered_endpoint_composite :
      (chain : Option ℕ) → (endpoint : Option PublicKey) → Result PublicKey
  registered_endpoint_composite chain (some endpoint) = ok endpoint
  registered_endpoint_composite (some chain) none = router_endpoint_address r.matching_engine chain
  registered_endpoint_composite none none = throw (error "chain or endpoint must be provided")

  -- The transfer authority, and the approval where one is made.
  abbrev pub authority_and_approval :
      PrepareOrderAccounts → PrepareMarketOrderArgs → Result (Option PublicKey × Option Approve)
  authority_and_approval a args = elim a.program_transfer_authority [
    | some given ↦ ok (given, none)
    | none ↦ elim (or_else a.use_transfer_authority true) [
      | false ↦ ok (none, none)
      | true ↦ do
        (authority, approval) ←
            approve_transfer_authority_ix a.prepared_order a.sender_token
              (or_else a.refund_token a.sender_token) a.sender_token_authority args
        ok (some authority, some approval)
    ]
  ]

  abbrev pub bn_if_there : Option ℤ → Result (Option ℤ)
  bn_if_there none = ok none
  bn_if_there (some value) = do n ← uint64_to_bn (bigint value); ok (some n)

  -- The approval, the numbers that the instruction gets, and its accounts.
  unfoldable pub prepare_market_order_ix :
      PrepareOrderAccounts
      → PrepareMarketOrderArgs
      → Result (Option Approve × PrepareMarketOrderArgs × PrepareMarketOrder)
  unfolding approve_transfer_authority_ix registered_endpoint_composite
  prepare_market_order_ix a args = do
    (authority, approval) ← authority_and_approval a args
    endpoint ← registered_endpoint_composite (some args.target_chain) a.target_router_endpoint
    amount_in ← uint64_to_bn (bigint args.amount_in)
    min_amount_out ← bn_if_there args.min_amount_out
    ok (
      approval,
      record {
        amount_in = amount_in;
        min_amount_out = min_amount_out;
        target_chain = args.target_chain;
        redeemer = args.redeemer;
        redeemer_message = args.redeemer_message;
      },
      record {
        payer = a.payer;
        custodian = custodian_address r.program;
        program_transfer_authority = authority;
        sender = a.sender;
        prepared_order = a.prepared_order;
        sender_token = a.sender_token;
        refund_token = or_else a.refund_token a.sender_token;
        prepared_custody_token = custody_token_address r.program a.prepared_order;
        usdc = r.program.mint;
        target_router_endpoint = endpoint;
        token_program = r.program.web3.token_program_id;
        system_program = r.program.web3.system_program_id;
      },
    )

  -- Who prepared the order, its sender and its refund token; the order is fetched if one is missing.
  abbrev pub closing_parties :
      PublicKey
      → (prepared_by order_sender refund_token : Option PublicKey)
      → Result (PublicKey × PublicKey × PublicKey)
  closing_parties order (some by) (some sender) (some token) = ok (by, sender, token)
  closing_parties order by sender token = do
    found ← r.fetch_prepared_order order
    ok (
      or_else by found.info.prepared_by,
      or_else sender found.info.order_sender,
      or_else token found.info.refund_token,
    )

  unfoldable pub close_prepared_order_ix :
      PublicKey
      → (prepared_by order_sender refund_token : Option PublicKey) → Result ClosePreparedOrder
  close_prepared_order_ix order by sender token = do
    (prepared_by, order_sender, refund_token) ← closing_parties order by sender token
    ok (record {
      prepared_by = prepared_by;
      custodian = custodian_address r.program;
      order_sender = order_sender;
      prepared_order = order;
      refund_token = refund_token;
      prepared_custody_token = custody_token_address r.program order;
      token_program = r.program.web3.token_program_id;
    })
