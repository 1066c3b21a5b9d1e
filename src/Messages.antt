-- ===== src/Messages.antt =====
-- The messages of the liquidity layer (solana/ts/src/common/messages/, universal/ts/src/messages.ts and
-- payloads.ts). The SDK reads and writes the layouts: the fields of `Layouts`.
pub mod RoundTrip
mod Tests
use example_liquidity_layer.Prelude.{
  Bool, Error, Option, Result, String, error, guard, if◌then◌else◌, none, ok, some, throw, ℕ, ◌==◌,
  ◌>>=◌, ◌>>◌,
}
use example_liquidity_layer.Buffer.{Bytes, read_uint_be}
use example_liquidity_layer.MatchingEngine.State.{FastMarketOrder}

-- A deposit, as far as its payload's id.
pub record CctpDeposit : Type 0 where
  pub payload_id : ℕ
  pub payload : Bytes

-- `Message.deserialize` and `Message.serialize` at the layouts of the two messages, and `isChain`.
pub record Layouts : Type 0 where
  pub deserialize_deposit : Bytes → Result CctpDeposit
  pub serialize_deposit : CctpDeposit → Result Bytes
  pub deserialize_order : Bytes → Result FastMarketOrder
  pub serialize_order : FastMarketOrder → Result Bytes
  pub is_chain : String → Bool

pub record LiquidityLayerMessage : Type 0 where
  pub deposit : Option CctpDeposit
  pub fast_market_order : Option FastMarketOrder

abbrev pub id_deposit : ℕ
id_deposit = 1

abbrev pub id_fast_market_order : ℕ
id_fast_market_order = 11

abbrev pub id_slow_order_response : ℕ
id_slow_order_response = 2

abbrev pub invalid_message : Error
invalid_message = error "Invalid Liquidity Layer message"

module _ (s : Layouts) where
  abbrev pub decode_deposit : Bytes → Result LiquidityLayerMessage
  decode_deposit buf = do
    deposit ← s.deserialize_deposit buf
    ok (record { deposit = some deposit; fast_market_order = none })

  abbrev pub decode_order : Bytes → Result LiquidityLayerMessage
  decode_order buf = do
    order ← s.deserialize_order buf
    guard (s.is_chain order.target_chain) (error "Invalid target chain")
    ok (record { deposit = none; fast_market_order = some order })

  abbrev pub decode_as : (payload_id : ℕ) → Bytes → Result LiquidityLayerMessage
  decode_as payload_id buf =
      if payload_id == id_deposit
      then decode_deposit buf
      else if payload_id == id_fast_market_order
      then decode_order buf
      else throw invalid_message

  unfoldable pub decode : Bytes → Result LiquidityLayerMessage
  decode buf = do payload_id ← read_uint_be 1 buf 0; decode_as payload_id buf

  unfoldable pub encode : LiquidityLayerMessage → Result Bytes
  encode message = elim message.deposit [
    | some deposit ↦ s.serialize_deposit deposit
    | none ↦ elim message.fast_market_order [
      | some order ↦ s.serialize_order order
      | none ↦ throw invalid_message
    ]
  ]

  -- tryParseFastMarketOrder of the solver (solver/src/utils/index.ts): what throws is undefined.
  unfoldable pub try_parse_fast_market_order : Bytes → Option FastMarketOrder
  try_parse_fast_market_order payload = elim (decode payload) [
    | throw e ↦ none
    | ok message ↦ message.fast_market_order
  ]

  abbrev pub slow_response : Option CctpDeposit → Option Bytes
  slow_response none = none
  slow_response (some d) = if d.payload_id == id_slow_order_response then some d.payload else none

  unfoldable pub try_parse_slow_order_response : Bytes → Option Bytes
  try_parse_slow_order_response payload = elim (decode payload) [
    | throw e ↦ none
    | ok message ↦ slow_response message.deposit
  ]
