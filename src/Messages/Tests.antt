-- ===== src/Messages/Tests.antt =====
-- A deposit with a payload of one byte.
use example_liquidity_layer.Prelude.{
  Result, [], arith, ok, range_error, refl, subst, sym, throw, true, ◌∷◌, ◌≡◌,
}
use example_liquidity_layer.Buffer.Laws.{read_uint_be_field}
use example_liquidity_layer.Buffer.{Bytes, be_bytes, read_uint_be}
use example_liquidity_layer.Messages.{CctpDeposit, Layouts}
use example_liquidity_layer.Messages.RoundTrip.{ReadsBack}

-- A deposit is written as the id of its message, of its payload, and the payload; an order cannot be written.
abbrev read_deposit : Bytes → Result CctpDeposit
read_deposit (b ∷ id ∷ bs) = ok (record { payload_id = id; payload = bs })
read_deposit bytes = throw range_error

abbrev layouts : Layouts
layouts = record {
  deserialize_deposit = read_deposit;
  serialize_deposit = λ d. ok (1 ∷ d.payload_id ∷ d.payload);
  deserialize_order = λ bytes. throw range_error;
  serialize_order = λ o. throw range_error;
  is_chain = λ chain. true;
}

layouts-ReadsBack : ReadsBack layouts
unfolding be_bytes
layouts-ReadsBack = record {
  deposit_back = λ d bs h. let e : 1 ∷ d.payload_id ∷ d.payload ≡ bs = cc in rw (sym e);
  deposit_id = λ d bs h.
      let e : 1 ∷ d.payload_id ∷ d.payload ≡ bs = cc in
      subst (λ x. read_uint_be 1 x 0 ≡ ok 1) e
        (read_uint_be_field [] (d.payload_id ∷ d.payload) 1 1 0 refl (omega arith));
  order_back = λ o bs h. absurd cc;
  order_id = λ o bs h. absurd cc;
}
