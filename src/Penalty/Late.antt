-- ===== src/Penalty/Late.antt =====
-- computeDepositPenalty against the natural-number description of a late auction's penalty.
use example_liquidity_layer.Prelude.{
  Bool-cases, Option, arith, if◌then◌else◌, inl, inr, leb, leb→lt, ok, refl, some, ℕ, ◌+◌, ◌-◌, ◌<◌,
  ◌^◌, ◌≡◌, ◌≤◌,
}
use example_liquidity_layer.Prelude.Int.{le_ℤ-sub_sub, pos, pos_part, sub_sub_sub_pos}
use example_liquidity_layer.Uint64.{Uint64, bn}
use example_liquidity_layer.Uint64.Laws.{meaning, uint64_to_bigint_u64}
use example_liquidity_layer.Penalty.{
  Accounts, AuctionParameters, Penalty, compute_deposit_penalty, fetch_auction_parameters,
}
use example_liquidity_layer.Auction.{AuctionInfo}
use example_liquidity_layer.Penalty.Laws.{
  IsSane, penalty_after_grace_pos, rewarded, rewarded-le, slashed, slashed-le, slashed_mono,
}

-- The last slot with no penalty.
abbrev pub grace_end : AuctionParameters → ℕ → ℕ
grace_end p start = start + p.duration + p.grace_period

-- What the auction loses of its deposit at a slot.
abbrev pub lost_at : AuctionParameters → ℕ → ℕ → ℕ → ℕ
lost_at p start deposit slot =
    if leb slot (grace_end p start) then 0 else slashed p deposit (slot - grace_end p start)

abbrev pub total : Penalty → ℕ
total x = pos_part x.penalty + pos_part x.user_reward

module _ (accounts : Accounts) (config_id : Option ℕ) (p : AuctionParameters) (start deposit : ℕ)
    (info : AuctionInfo) (start_is : info.start_slot ≡ pos start)
    (deposit_is : info.security_deposit ≡ pos deposit)
    (fetched : fetch_auction_parameters accounts config_id ≡ ok p) (sane : IsSane p)
    (start_fits : start < 2 ^ 64) (deposit_fits : deposit < 2 ^ 64) where
  -- At a u64 slot, in whatever form it comes, the function succeeds. The penalty and the reward
  -- together are what the auction loses, and the reward is its share of that: nothing up to the end
  -- of the grace period, and what the linear schedule takes after it.
  pub compute_deposit_penalty_lem :
      (current : Uint64) (slot : ℕ)
      → meaning current ≡ some (pos slot)
      → slot < 2 ^ 64
      → let lost = lost_at p start deposit slot in
        compute_deposit_penalty accounts info current config_id
        ≡ ok
            (record { penalty = pos (lost - rewarded p lost); user_reward = pos (rewarded p lost) })
  unfolding compute_deposit_penalty
  compute_deposit_penalty_lem current slot e fits =
      rw
        (
          fetched,
          start_is,
          deposit_is,
          uint64_to_bigint_u64 current slot e fits,
          uint64_to_bigint_u64 (bn (pos start)) start refl start_fits,
          uint64_to_bigint_u64 (bn (pos deposit)) deposit refl deposit_fits,
          le_ℤ-sub_sub slot start p.duration p.grace_period,
        )
        (elim (Bool-cases (leb slot (grace_end p start))) [
          | inl early ↦ rw early (ground arith)
          | inr late ↦
              let past : grace_end p start < slot = leb→lt slot (grace_end p start) late in
              rw (
                late,
                sub_sub_sub_pos slot start p.duration p.grace_period (omega arith),
                penalty_after_grace_pos p deposit (slot - grace_end p start) sane,
              )
        ])

  -- The penalty and the reward are no negative numbers, and together never more than the deposit:
  -- nothing up to the end of the grace period, and the whole deposit from the end of the penalty
  -- period on.
  pub deposit_penalty_bounds :
      (current : Uint64) (slot : ℕ)
      → meaning current ≡ some (pos slot)
      → slot < 2 ^ 64
      → (penalty reward : ℕ) × (compute_deposit_penalty accounts info current config_id
          ≡ ok (record { penalty = pos penalty; user_reward = pos reward }))
        × (penalty + reward ≤ deposit)
        × (slot ≤ grace_end p start → penalty + reward ≡ 0)
        × (grace_end p start < slot
            → grace_end p start + p.penalty_period ≤ slot
            → penalty + reward ≡ deposit)
  deposit_penalty_bounds current slot e fits =
      let lost : ℕ = lost_at p start deposit slot in
      (
        lost - rewarded p lost,
        rewarded p lost,
        compute_deposit_penalty_lem current slot e fits,
        ground
            (arith, slashed-le p deposit (slot - grace_end p start) sane, rewarded-le p lost sane),
        λ h. ground (arith, rewarded-le p lost sane),
        λ h k. ground (arith, rewarded-le p lost sane),
      )

  total_lost :
      (current : Uint64) (slot : ℕ) (x : Penalty)
      → meaning current ≡ some (pos slot)
      → slot < 2 ^ 64
      → compute_deposit_penalty accounts info current config_id ≡ ok x
      → total x ≡ lost_at p start deposit slot
  total_lost current slot x e fits a =
      let lost : ℕ = lost_at p start deposit slot in
      let same : x
          ≡ record { penalty = pos (lost - rewarded p lost); user_reward = pos (rewarded p lost) } =
        cc (a, compute_deposit_penalty_lem current slot e fits) in
      rw same (omega (arith, rewarded-le p lost sane))

  -- Waiting longer never lowers what the auction loses.
  pub deposit_penalty_mono :
      (current later : Uint64) (slot slot' : ℕ) (x y : Penalty)
      → meaning current ≡ some (pos slot)
      → meaning later ≡ some (pos slot')
      → slot ≤ slot'
      → slot' < 2 ^ 64
      → compute_deposit_penalty accounts info current config_id ≡ ok x
      → compute_deposit_penalty accounts info later config_id ≡ ok y
      → total x ≤ total y
  deposit_penalty_mono current later slot slot' x y e e' h fits a b =
      let l : ℕ = lost_at p start deposit slot in
      let l' : ℕ = lost_at p start deposit slot' in
      let grows : l ≤ l' = ground (
        arith,
        slashed_mono p deposit (slot - grace_end p start) (slot' - grace_end p start) sane,
      ) in
      omega (
        arith,
        grows,
        total_lost current slot x e (omega arith) a,
        total_lost later slot' y e' fits b,
      )
