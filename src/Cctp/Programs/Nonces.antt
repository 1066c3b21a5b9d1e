-- ===== src/Cctp/Programs/Nonces.antt =====
-- Which used-nonces account a message has.
use example_liquidity_layer.Prelude.{
  ap, arith, refl, suc, zero, ℕ, ◌%◌, ◌*◌, ◌+◌, ◌/◌, ◌<◌, ◌∙◌, ◌≡◌, ◌≤◌,
}
use example_liquidity_layer.Prelude.Int.{add_pos, div_pos, mul_pos, pos, sub_pos, ◌-ℤ◌}
use example_liquidity_layer.Cctp.Programs.{first_nonce}

first_nonce_pos : (n : ℕ) → first_nonce (pos (suc n)) ≡ pos (n / 6400 * 6400 + 1)
unfolding first_nonce
first_nonce_pos n =
    let less : pos (suc n) -ℤ pos 1 ≡ pos n =
      sub_pos (suc n) 1 (omega arith) ∙ ap pos (omega arith) in
    rw (less, div_pos n 6400, mul_pos (n / 6400) 6400, add_pos (n / 6400 * 6400) 1) refl

-- A nonce from 1 on lies in the block of 6400 nonces that starts at its first nonce, and each block starts
-- one above a multiple of 6400.
pub first_nonce_lem :
    (n : ℕ)
    → 1 ≤ n
    → (first : ℕ) × (first_nonce (pos n) ≡ pos first)
      × (first ≤ n)
      × (n < first + 6400)
      × (first % 6400 ≡ 1)
first_nonce_lem zero h = absurd (omega arith)
first_nonce_lem (suc n) h =
    (n / 6400 * 6400 + 1, first_nonce_pos n, omega arith, omega arith, omega arith)
