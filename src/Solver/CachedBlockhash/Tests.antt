-- ===== src/Solver/CachedBlockhash/Tests.antt =====
-- A run with a refreshed blockhash, in which four fees are handed out.

use example_liquidity_layer.Prelude.{String, [], arith, false, range_error, true, ◌∷◌}
use example_liquidity_layer.Prelude.Int.{pos, ℤ, ◌+ℤ◌}
use example_liquidity_layer.Solver.Transactions.{BlockhashWithExpiryBlockHeight}
use example_liquidity_layer.Solver.CachedBlockhash.{
  CachedBlockhash, Reached, add_noise, adds_noise, answers, fails, on_answer, on_slot_change,
  slot_changes, starts,
}
use example_liquidity_layer.Solver.CachedBlockhash.Noise.{IsDistinct, given-IsDistinct}
use text.Mathlib.TextEquality.{eq_iff}

abbrev first : BlockhashWithExpiryBlockHeight
first = record { blockhash = "first"; last_valid_block_height = 150 }

abbrev second : BlockhashWithExpiryBlockHeight
second = record { blockhash = "second"; last_valid_block_height = 190 }

abbrev used : CachedBlockhash
used = record { cached = first; noise = 2; try_again = true; requests = 1 }

abbrev refreshed : CachedBlockhash
refreshed = record { cached = second; noise = 2; try_again = false; requests = 0 }

-- The request at slot 64 fails, the one at slot 65 is answered.
two_hashes :
    Reached 32
      (pos 10)
      (("second", pos 11) ∷ ("second", pos 10) ∷ ("first", pos 11) ∷ ("first", pos 10) ∷ [])
      ("second" ∷ "first" ∷ [])
      refreshed
unfolding on_slot_change on_answer add_noise ◌+ℤ◌
two_hashes = adds_noise _ _ _ (
    adds_noise _ _ _ (
      answers _ _ used second (omega arith) (
        slot_changes _ _ _ 65 (
          fails _ _ _ range_error (omega arith)
            (slot_changes _ _ _ 64 (adds_noise _ _ _ (adds_noise _ _ _ (starts first))))))))

hashes-IsDistinct : IsDistinct {A = String} ("second" ∷ "first" ∷ [])
hashes-IsDistinct = (((λ same. cc ((eq_iff "second" "first").1 same)), tt), (tt, tt))

given-IsDistinct_example :
    IsDistinct {A = String × ℤ}
      (("second", pos 11) ∷ ("second", pos 10) ∷ ("first", pos 11) ∷ ("first", pos 10) ∷ [])
given-IsDistinct_example = given-IsDistinct two_hashes hashes-IsDistinct
