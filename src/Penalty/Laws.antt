-- ===== src/Penalty/Laws.antt =====
-- The penalty of a late auction over the natural numbers, and its bounds.
use native.Mathlib.Nat.{div-le_of_le-mul}
use example_liquidity_layer.Prelude.{
  Bool, Bool-cases, arith, if◌then◌else◌, inl, inr, leb, refl, ℕ, ◌*◌, ◌+◌, ◌-◌, ◌/◌, ◌<◌, ◌==◌,
  ◌^◌, ◌||◌, ◌≡◌, ◌≤◌,
}
use example_liquidity_layer.Prelude.Int.{add_pos, div_pos, le_ℤ-pos, mul_pos, pos, sub_pos}
use example_liquidity_layer.Penalty.{AuctionParameters, fee_precision_max, penalty_after_grace}

-- The accounts hold u64 amounts and u32 rates that are at most the whole.
pub record IsSane (p : AuctionParameters) : Type 0 where
  pub reward : p.user_penalty_reward_bps ≤ fee_precision_max
  pub initial : p.initial_penalty_bps ≤ fee_precision_max
  pub base : p.security_deposit_base < 2 ^ 64

-- `late` slots after the grace period the auction loses this much of its deposit.
abbrev pub slashed : AuctionParameters → ℕ → ℕ → ℕ
slashed p amount late =
    let base = amount * p.initial_penalty_bps / fee_precision_max in
    if leb p.penalty_period late || p.initial_penalty_bps == fee_precision_max
    then amount
    else base + (amount - base) * late / p.penalty_period

-- And this much of that goes to the user.
abbrev pub rewarded : AuctionParameters → ℕ → ℕ
rewarded p lost = lost * p.user_penalty_reward_bps / fee_precision_max

pub share-le : (a r : ℕ) → r ≤ fee_precision_max → a * r / fee_precision_max ≤ a
share-le a r h = div-le_of_le-mul fee_precision_max {m = a * r} {n = a} (grind arith)

pub div_mono : (a b k : ℕ) → a ≤ b → a / k ≤ b / k
div_mono a b k h = grind arith

-- A part of the period takes a part of the rest.
part-le : (rest late period : ℕ) → late < period → rest * late / period ≤ rest
part-le rest late period h = div-le_of_le-mul period {m = rest * late} {n = rest} (grind arith)

pub slashed-le :
    (p : AuctionParameters) (amount late : ℕ) → IsSane p → slashed p amount late ≤ amount
slashed-le p amount late sane = ground (
  arith,
  share-le amount p.initial_penalty_bps sane.initial,
  part-le (amount - amount * p.initial_penalty_bps / fee_precision_max) late p.penalty_period,
)

pub rewarded-le : (p : AuctionParameters) (lost : ℕ) → IsSane p → rewarded p lost ≤ lost
rewarded-le p lost sane = share-le lost p.user_penalty_reward_bps sane.reward

pub penalty_after_grace_pos :
    (p : AuctionParameters) (amount late : ℕ)
    → IsSane p
    → penalty_after_grace p (pos amount) (pos late) ≡ record {
      penalty = pos (slashed p amount late - rewarded p (slashed p amount late));
      user_reward = pos (rewarded p (slashed p amount late));
    }
unfolding penalty_after_grace
penalty_after_grace_pos p amount late sane =
    let test : Bool = leb p.penalty_period late || p.initial_penalty_bps == fee_precision_max in
    let base : ℕ = amount * p.initial_penalty_bps / fee_precision_max in
    let lost : ℕ = base + (amount - base) * late / p.penalty_period in
    elim (Bool-cases test) [
      | inl all ↦
          rw (le_ℤ-pos p.penalty_period late, all)
            (simp (mul_pos, div_pos)
              (rw (sub_pos amount (rewarded p amount) (rewarded-le p amount sane)) refl))
      | inr some_of_it ↦
          rw (le_ℤ-pos p.penalty_period late, some_of_it)
            (simp
              (
                mul_pos,
                div_pos,
                add_pos,
                sub_pos amount base (share-le amount p.initial_penalty_bps sane.initial),
              )
              (rw (sub_pos lost (rewarded p lost) (rewarded-le p lost sane)) refl))
    ]

part_mono :
    (rest late later period : ℕ) → late ≤ later → rest * late / period ≤ rest * later / period
part_mono rest late later period h = div_mono (rest * late) (rest * later) period (grind arith)

pub slashed_mono :
    (p : AuctionParameters) (amount late later : ℕ)
    → IsSane p
    → late ≤ later
    → slashed p amount late ≤ slashed p amount later
slashed_mono p amount late later sane h = ground (
  arith,
  share-le amount p.initial_penalty_bps sane.initial,
  part-le (amount - amount * p.initial_penalty_bps / fee_precision_max) late p.penalty_period,
  part_mono (amount - amount * p.initial_penalty_bps / fee_precision_max) late later
      p.penalty_period,
)
