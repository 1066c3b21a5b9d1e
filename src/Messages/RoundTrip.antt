-- ===== src/Messages/RoundTrip.antt =====
-- Encoding and decoding a message.
use example_liquidity_layer.Prelude.{inl, inr, none, ok, some, true, ◌≡◌, ◌⊎◌}
use example_liquidity_layer.Buffer.{Bytes, read_uint_be}
use example_liquidity_layer.MatchingEngine.State.{FastMarketOrder}
use example_liquidity_layer.Messages.{
  CctpDeposit, Layouts, LiquidityLayerMessage, decode, encode, id_deposit, id_fast_market_order,
}

-- The SDK reads back what it writes; a message starts with the id that its layout names.
pub record ReadsBack (s : Layouts) : Type 0 where
  pub deposit_back :
      (d : CctpDeposit) (bs : Bytes)
      → s.serialize_deposit d ≡ ok bs
      → s.deserialize_deposit bs ≡ ok d
  pub deposit_id :
      (d : CctpDeposit) (bs : Bytes)
      → s.serialize_deposit d ≡ ok bs
      → read_uint_be 1 bs 0 ≡ ok id_deposit
  pub order_back :
      (o : FastMarketOrder) (bs : Bytes)
      → s.serialize_order o ≡ ok bs
      → s.deserialize_order bs ≡ ok o
  pub order_id :
      (o : FastMarketOrder) (bs : Bytes)
      → s.serialize_order o ≡ ok bs
      → read_uint_be 1 bs 0 ≡ ok id_fast_market_order

-- A message is one of the two, and an order goes to a chain that there is.
abbrev pub IsOne : Layouts → LiquidityLayerMessage → Type 0
IsOne s m =
    ((d : CctpDeposit) × (m ≡ record { deposit = some d; fast_market_order = none }))
    ⊎ ((o : FastMarketOrder) × (m ≡ record { deposit = none; fast_market_order = some o })
        × (s.is_chain o.target_chain ≡ true))

-- Where the SDK reads back what it writes, a message that is a deposit, or an order to a chain that there
-- is, decodes from its encoding to itself.
pub decode-encode_message :
    (s : Layouts) (m : LiquidityLayerMessage) (bs : Bytes)
    → ReadsBack s
    → IsOne s m
    → encode s m ≡ ok bs
    → decode s bs ≡ ok m
unfolding decode encode
decode-encode_message s m bs back (inl (d, is)) e =
    let written : s.serialize_deposit d ≡ ok bs = rw is at e in
    rw (back.deposit_id d bs written, back.deposit_back d bs written, is)
decode-encode_message s m bs back (inr (o, is, known)) e =
    let written : s.serialize_order o ≡ ok bs = rw is at e in
    rw (back.order_id o bs written, back.order_back o bs written, known, is)
