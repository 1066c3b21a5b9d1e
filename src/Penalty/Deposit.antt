-- ===== src/Penalty/Deposit.antt =====
-- computeMinOfferDelta and computeNotionalSecurityDeposit over the u64 range.
use example_liquidity_layer.Prelude.{
  Option, arith, none, ok, refl, some, ℕ, ◌*◌, ◌+◌, ◌-◌, ◌/◌, ◌<◌, ◌^◌, ◌≡◌, ◌≤◌,
}
use example_liquidity_layer.Prelude.Int.{add_pos, div_pos, mul_pos, pos}
use example_liquidity_layer.Uint64.{Uint64, bn}
use example_liquidity_layer.Uint64.Laws.{meaning, uint64_to_bigint_u64}
use example_liquidity_layer.Penalty.{
  Accounts, AuctionParameters, compute_min_offer_delta, compute_notional_security_deposit,
  fee_precision_max, fetch_auction_parameters,
}
use example_liquidity_layer.Penalty.Laws.{IsSane, div_mono, share-le}

-- The least step of an improved offer is at least 1, and is the rate's share of the price rounded
-- up to the next unit: one unit less is at most the exact share, and one more is beyond it.
pub compute_min_offer_delta_lem :
    (accounts : Accounts) (p : AuctionParameters) (offer_price : Uint64) (price : ℕ)
    → fetch_auction_parameters accounts none ≡ ok p
    → meaning offer_price ≡ some (pos price)
    → price < 2 ^ 64
    → (delta : ℕ) × (compute_min_offer_delta accounts offer_price ≡ ok (pos delta))
      × (1 ≤ delta)
      × ((delta - 1) * fee_precision_max ≤ price * p.min_offer_delta_bps)
      × (price * p.min_offer_delta_bps < delta * fee_precision_max)
unfolding compute_min_offer_delta
compute_min_offer_delta_lem accounts p offer_price price fetched e fits =
    let share : ℕ = price * p.min_offer_delta_bps / fee_precision_max in
    (
      share + 1,
      rw (fetched, uint64_to_bigint_u64 offer_price price e fits)
          (simp (mul_pos, div_pos, add_pos)),
      omega arith,
      omega arith,
      omega arith,
    )

-- The security deposit is the base and the rate's share of the amount; it is at least the base, grows
-- with the amount, and at a sane rate adds no more than the amount itself.
pub compute_notional_security_deposit_lem :
    (accounts : Accounts) (config_id : Option ℕ) (p : AuctionParameters) (amount_in larger : Uint64)
    (amount amount' : ℕ)
    → fetch_auction_parameters accounts config_id ≡ ok p
    → IsSane p
    → p.security_deposit_bps ≤ fee_precision_max
    → meaning amount_in ≡ some (pos amount)
    → meaning larger ≡ some (pos amount')
    → amount ≤ amount'
    → amount' < 2 ^ 64
    → (d d' : ℕ) × (compute_notional_security_deposit accounts amount_in config_id ≡ ok (pos d))
      × (compute_notional_security_deposit accounts larger config_id ≡ ok (pos d'))
      × (p.security_deposit_base ≤ d)
      × (d ≤ d')
      × (d' ≤ p.security_deposit_base + amount')
unfolding compute_notional_security_deposit
compute_notional_security_deposit_lem accounts config_id p amount_in larger amount amount' fetched
      sane rate e e' h fits =
    let base : ℕ = p.security_deposit_base in
    let share : ℕ → ℕ = λ a. a * p.security_deposit_bps / fee_precision_max in
    (
      base + share amount,
      base + share amount',
      rw
          (
            fetched,
            uint64_to_bigint_u64 amount_in amount e (omega arith),
            uint64_to_bigint_u64 (bn (pos base)) base refl sane.base,
          )
          (simp (mul_pos, div_pos, add_pos)),
      rw
          (
            fetched,
            uint64_to_bigint_u64 larger amount' e' fits,
            uint64_to_bigint_u64 (bn (pos base)) base refl sane.base,
          )
          (simp (mul_pos, div_pos, add_pos)),
      omega arith,
      omega (
        arith,
        div_mono (amount * p.security_deposit_bps) (amount' * p.security_deposit_bps)
            fee_precision_max (grind arith),
      ),
      omega (arith, share-le amount' p.security_deposit_bps rate),
    )
