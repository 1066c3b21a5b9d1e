-- ===== src/Solver/Pricing/Value.antt =====
-- The two tests ask the same of an order, and what they ask.
use example_liquidity_layer.Uint64.{Uint64}
use example_liquidity_layer.Uint64.Laws.{meaning, uint64_to_bigint_u64}
use example_liquidity_layer.Prelude.{
  Bool-cases, arith, inl, inr, leb, ok, refl, some, suc, zero, ℕ, ◌*◌, ◌+◌, ◌/◌, ◌<◌, ◌^◌, ◌≡◌, ◌≤◌,
}
use example_liquidity_layer.Prelude.Int.{add_pos, div_pos, le_ℤ-pos, mul_pos, pos}
use example_liquidity_layer.Solver.Config.{PricingParameters}
use example_liquidity_layer.Solver.Pricing.{
  is_fee_high_enough, should_improve_offer, value_with_edge,
}

-- The value of an amount in natural numbers: the share of it that the probability says, and the edge.
abbrev pub fair : ℕ → ℕ → ℕ
fair amount probability = amount * probability / 10000

abbrev pub worth : ℕ → ℕ → ℕ → ℕ
worth amount probability edge = fair amount probability + fair amount probability * edge / 10000

le_mul : (a b c : ℕ) → b ≤ c → a * b ≤ a * c
le_mul zero b c h = omega arith
le_mul (suc a) b c h = omega (arith, le_mul a b c h)

le-fair : (amount probability : ℕ) → probability ≤ 10000 → fair amount probability ≤ amount
le-fair amount probability h =
    let bound : amount * probability ≤ amount * 10000 = le_mul amount probability 10000 h in
    omega (arith, bound)

module _ (pricing : PricingParameters) (probability edge : ℕ)
    (probability_is : pricing.probability_scaled ≡ ok (pos probability))
    (edge_is : pricing.edge_pct_of_fv_scaled ≡ ok (pos edge)) where
  value_with_edge_lem :
      (amount : ℕ) → value_with_edge (pos amount) pricing ≡ ok (pos (worth amount probability edge))
  unfolding value_with_edge
  value_with_edge_lem amount =
      let f : ℕ = fair amount probability in
      rw
        (
          probability_is,
          edge_is,
          mul_pos amount probability,
          div_pos (amount * probability) 10000,
          mul_pos f edge,
          div_pos (f * edge) 10000,
          add_pos f (f * edge / 10000),
        )
        refl

  -- At a u64 amount and fee the two tests agree: both ask that the fee is at least the worth of the order.
  -- The worth is at least the fair value, which is the share of the amount that the probability says,
  -- rounded down, and no more than the amount.
  pub fee_tests_agree :
      (amount fee : ℕ) (amount_in max_offer_price_allowed : Uint64)
      → probability ≤ 10000
      → meaning amount_in ≡ some (pos amount)
      → meaning max_offer_price_allowed ≡ some (pos fee)
      → amount < 2 ^ 64
      → fee < 2 ^ 64
      → let value = worth amount probability edge in
        (is_fee_high_enough (pos amount) (pos fee) pricing
          ≡ ok (record { should_place_offer = leb value fee; fv_with_edge = pos value }))
        × (should_improve_offer amount_in max_offer_price_allowed pricing ≡ ok (leb value fee))
        × (fair amount probability ≤ value)
        × (fair amount probability ≤ amount)
        × (fair amount probability * 10000 ≤ amount * probability)
        × (amount * probability < (fair amount probability + 1) * 10000)
  unfolding is_fee_high_enough should_improve_offer
  fee_tests_agree amount fee amount_in price share e e' h h' =
      let value : ℕ = worth amount probability edge in
      (
        rw (value_with_edge_lem amount, le_ℤ-pos value fee)
            (elim (Bool-cases (leb value fee)) [ inl y ↦ rw y refl | inr n ↦ rw n refl ]),
        rw
            (
              uint64_to_bigint_u64 amount_in amount e h,
              value_with_edge_lem amount,
              uint64_to_bigint_u64 price fee e' h',
              le_ℤ-pos value fee,
            )
            refl,
        omega arith,
        le-fair amount probability share,
        omega arith,
        omega arith,
      )
