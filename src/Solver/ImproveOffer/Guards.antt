-- ===== src/Solver/ImproveOffer/Guards.antt =====
-- When an offer is raised, and with which transaction.
use example_liquidity_layer.Prelude.{
  Error, leb, ◌<◌, ◌≤◌, ◌^◌, ◌⊎◌, Bool, List, Option, Result, [], false, ok, or_else, some, throw,
  ℕ, ◌+◌, ◌∷◌, ◌≡◌,
}
use example_liquidity_layer.Prelude.Int.{pos, pos_part, ℤ, ◌+ℤ◌}
use example_liquidity_layer.Auction.{PublicKey}
use example_liquidity_layer.Solver.Config.{PricingParameters}
use example_liquidity_layer.Solver.Transactions.{Instruction, PreparedTransaction}
use example_liquidity_layer.Solver.ImproveOffer.{
  AuctionUpdate, Player, on_auction_update, quiet_fee,
}

-- `lten` of bn.js 5.2.1: a BN of more than one word of 26 bits is greater than every number, and a number of
-- more bits is refused where the BN has one word.
pub record IsLten (lten : ℤ → ℕ → Result Bool) : Type 0 where
  pub exact :
      (value number : ℕ)
      → value < 2 ^ 26
      → number < 2 ^ 26
      → lten (pos value) number ≡ ok (leb value number)
  pub large : (value number : ℕ) → 2 ^ 26 ≤ value → lten (pos value) number ≡ ok false
  pub refuses :
      (value number : ℕ)
      → value < 2 ^ 26
      → 2 ^ 26 ≤ number
      → (e : Error) × (lten (pos value) number ≡ throw e)

module _ (improve_ixs : PublicKey → AuctionUpdate → ℤ → Result (List Instruction)) where
  -- The transaction that raises an offer: it carries the fee with the noise, and the noise has grown by one.
  pub record Raises (player after : Player) (event : AuctionUpdate) (tx : PreparedTransaction)
      : Type 0 where
    pub made :
        improve_ixs player.offer_token.authority event
          (or_else event.max_offer_price_allowed (pos 0))
        ≡ ok tx.ixs
    pub signed : tx.signers ≡ player.offer_token.authority ∷ []
    pub fee : tx.fee_micro_lamports ≡ pos_part (quiet_fee improve_ixs event +ℤ pos player.noise)
    pub noise_grows : after.noise ≡ player.noise + 1
    pub same_token : after.offer_token ≡ player.offer_token

  module _ (lten : ℤ → ℕ → Result Bool) where
    -- Below 2^26 the auction has not ended; from there on, the callback does the same in a later slot.
    abbrev pub EndTested :
        List PublicKey
        → Option PricingParameters
        → (slot later : ℕ) → (player after : Player) → AuctionUpdate
        → PreparedTransaction
        → ℕ
        → Type 0
    EndTested our_accounts pricing slot later player after event tx end =
        ((end < 2 ^ 26) × (slot < end))
        ⊎ ((2 ^ 26 ≤ end)
            × (on_auction_update improve_ixs lten our_accounts pricing later player event
                ≡ (after, ok (some tx))))
