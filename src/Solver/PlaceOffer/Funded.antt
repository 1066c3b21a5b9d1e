-- ===== src/Solver/PlaceOffer/Funded.antt =====
-- What the solver's offer approves, and what the Rust program takes for it
-- (solana/programs/matching-engine/src/processor/auction/offer/place_initial/cctp.rs, utils/auction.rs).
use example_liquidity_layer.Prelude.{
  Bool-cases, Option, arith, if◌then◌else◌, inl, inr, ltb, none, ok, refl, some, sym, ap, ℕ,
  >>=-eq-ok, ◌%◌, ◌*◌, ◌+◌, ◌-◌, ◌/◌, ◌<◌, ◌^◌, ◌∙◌, ◌≡◌, ◌↔◌,
}
use example_liquidity_layer.Prelude.Int.{add_pos, div_pos, mul_pos, pos, ℤ, ◌*ℤ◌, ◌+ℤ◌, ◌/ℤ◌}
use example_liquidity_layer.Uint64.{bigint, bn, uint64_to_bigint}
use example_liquidity_layer.Uint64.Laws.{uint64_to_bigint_u64}
use example_liquidity_layer.Penalty.{
  Accounts, AuctionParameters, compute_notional_security_deposit, fee_precision_max,
  fetch_auction_parameters,
}

-- The base and the rate's share of the amount.
abbrev pub notional : AuctionParameters → ℕ → ℕ
notional p amount = p.security_deposit_base + amount * p.security_deposit_bps / fee_precision_max

pub uint64_to_bigint_bigint : (v : ℤ) → uint64_to_bigint (bigint v) ≡ ok v
unfolding uint64_to_bigint
uint64_to_bigint_bigint v = refl

bn-eq-ok : (n : ℕ) (v : ℤ) → uint64_to_bigint (bn (pos n)) ≡ ok v → v ≡ pos n
unfolding uint64_to_bigint
bn-eq-ok n v h = elim (Bool-cases (ltb (n + 0) (2 ^ 64))) [
  | inl e ↦ cc (rw e at h)
  | inr e ↦ cc (rw e at h)
]

notional_pos :
    (p : AuctionParameters) (amount : ℕ) (base : ℤ)
    → base ≡ pos p.security_deposit_base
    → base +ℤ pos amount *ℤ pos p.security_deposit_bps /ℤ pos fee_precision_max
      ≡ pos (notional p amount)
notional_pos p amount base e = rw e (simp (mul_pos, div_pos, add_pos))

-- A deposit that the client computes is the notional one, by the parameters that it fetches.
pub compute_notional_security_deposit-notional :
    (accounts : Accounts) (id : Option ℕ) (amount : ℕ) (deposit : ℤ)
    → compute_notional_security_deposit accounts (bigint (pos amount)) id ≡ ok deposit
    → (p : AuctionParameters) × (fetch_auction_parameters accounts id ≡ ok p)
      × (deposit ≡ pos (notional p amount))
unfolding compute_notional_security_deposit uint64_to_bigint
compute_notional_security_deposit-notional accounts id amount deposit h =
    let (p, fetched, h1) = >>=-eq-ok (fetch_auction_parameters accounts id) _ h in
    let (base, e, h2) = >>=-eq-ok (uint64_to_bigint (bn (pos p.security_deposit_base))) _ h1 in
    let sum : ℤ = base +ℤ pos amount *ℤ pos p.security_deposit_bps /ℤ pos fee_precision_max in
    let same : ok sum ≡ ok deposit = h2 in
    let is_sum : deposit ≡ sum = cc (same) in
    (p, fetched, is_sum ∙ notional_pos p amount base (bn-eq-ok p.security_deposit_base base e))

-- It is computed wherever the base fits u64.
pub notional-compute_notional_security_deposit :
    (accounts : Accounts) (id : Option ℕ) (amount : ℕ) (p : AuctionParameters)
    → fetch_auction_parameters accounts id ≡ ok p
    → p.security_deposit_base < 2 ^ 64
    → compute_notional_security_deposit accounts (bigint (pos amount)) id
      ≡ ok (pos (notional p amount))
unfolding compute_notional_security_deposit
notional-compute_notional_security_deposit accounts id amount p fetched fits =
    rw
      (
        fetched,
        uint64_to_bigint_u64 (bn (pos p.security_deposit_base)) p.security_deposit_base refl fits,
        uint64_to_bigint_bigint (pos amount),
        notional_pos p amount (pos p.security_deposit_base) refl,
      )
      refl

-- `saturating_add` of u64 values, by their sum.
abbrev saturated : ℕ → ℕ
saturated n = if ltb n (2 ^ 64) then n else 2 ^ 64 - 1

-- The amount that place_initial_offer_cctp transfers to the auction's custody token account; a sum beyond
-- u64 is an error.
unfoldable pub deposit_taken : AuctionParameters → (amount_in max_fee : ℕ) → Option ℕ
deposit_taken p amount_in max_fee =
    let share = (amount_in * p.security_deposit_bps / fee_precision_max) % 2 ^ 64 in
    let security_deposit = saturated (max_fee + saturated (p.security_deposit_base + share)) in
    let total = amount_in + security_deposit in if ltb total (2 ^ 64) then some total else none

pub deposit_taken-notional :
    (p : AuctionParameters) (amount fee : ℕ)
    → amount + fee + notional p amount < 2 ^ 64
    → deposit_taken p amount fee ≡ some (amount + fee + notional p amount)
unfolding deposit_taken
deposit_taken-notional p amount fee h = ground arith

-- The program takes an approved sum exactly where it has the deposit that the program asks for.
pub deposit_taken_iff :
    (p : AuctionParameters) (amount fee deposit : ℕ)
    → amount + fee + notional p amount < 2 ^ 64
    → (deposit_taken p amount fee ≡ some (amount + fee + deposit)) ↔ (deposit ≡ notional p amount)
deposit_taken_iff p amount fee deposit fits =
    let taken = deposit_taken-notional p amount fee fits in
    (
      λ h.
          let same : some (amount + fee + notional p amount) ≡ some (amount + fee + deposit) =
            sym taken ∙ h in
          ground arith,
      λ h. taken ∙ ap (λ d. some (amount + fee + d)) (sym h),
    )
