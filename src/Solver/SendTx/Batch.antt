-- ===== src/Solver/SendTx/Batch.antt =====
-- Batches of transactions: each is tried until it succeeds, and the first that does not ends the batch.

use example_liquidity_layer.Prelude.{
  All, Bool, Bool-cases, List, Option, [], false, inl, inr, ok, or_else, refl, some, subst, suc,
  true, zero, ℕ, ◌∷◌, ◌≡◌,
}
use example_liquidity_layer.Solver.Transactions.{
  BlockhashWithExpiryBlockHeight, Connection, PreparedTransaction,
}
use example_liquidity_layer.Solver.SendTx.{Sent, attempts, send_tx, send_tx_batch, skips_preflight}

module _ {W : Type 0} (connection : Connection W)
    (cached : Option BlockhashWithExpiryBlockHeight) where
  -- Up to `n` attempts at one transaction, of which only the last may succeed.
  pub data Tries (tx : PreparedTransaction) : ℕ → Bool → W → W → Type 0 where
    gave_up : {w : W} → Tries tx 0 false w w
    succeeded :
        {n : ℕ} {w w' : W} (sent : Sent)
        → send_tx connection tx cached w ≡ (ok sent, w')
        → sent.success ≡ true
        → Tries tx (suc n) true w w'
    failed :
        {n : ℕ} {b : Bool} {w w' w'' : W} (sent : Sent)
        → send_tx connection tx cached w ≡ (ok sent, w')
        → sent.success ≡ false
        → Tries tx n b w' w''
        → Tries tx (suc n) b w w''

  -- A batch with `n` attempts for each transaction.
  pub data Sends (n : ℕ) : List PreparedTransaction → W → W → Type 0 where
    all_sent : {w : W} → Sends n [] w w
    sent_one :
        {tx : PreparedTransaction} {txs : List PreparedTransaction} {w w' w'' : W}
        → Tries tx n true w w'
        → Sends n txs w' w''
        → Sends n (tx ∷ txs) w w''
    stopped :
        {tx : PreparedTransaction} {txs : List PreparedTransaction} {w w' : W}
        → Tries tx n false w w'
        → Sends n (tx ∷ txs) w w'

  -- `sendTx` gives a result in every state of the world.
  abbrev pub Answers : PreparedTransaction → Type 0
  Answers tx = (w : W) → (sent : Sent) × (w' : W) × (send_tx connection tx cached w ≡ (ok sent, w'))

  attempts-Tries :
      (tx : PreparedTransaction)
      → skips_preflight tx ≡ false
      → Answers tx
      → (n : ℕ) (w : W)
      → (b : Bool) × (w' : W) × Tries tx n b w w' × (attempts connection n tx cached w ≡ (ok b, w'))
  unfolding attempts
  attempts-Tries tx keeps answers zero w = (false, w, gave_up, refl)
  attempts-Tries tx keeps answers (suc n) w =
      let (sent, w', e) = answers w in
      elim (Bool-cases sent.success) [
        | inl s ↦ (true, w', succeeded sent e s, rw (e, keeps, s) refl)
        | inr s ↦
            let (b, w'', tries, runs) = attempts-Tries tx keeps answers n w' in
            (b, w'', failed sent e s tries, rw (e, keeps, s) runs)
      ]

  send_tx_batch-Sends :
      (retry_count : Option ℕ) (txs : List PreparedTransaction)
      → All (λ tx. skips_preflight tx ≡ false) txs
      → All Answers txs
      → (w : W)
      → (w' : W) × Sends (or_else retry_count 5) txs w w'
        × (send_tx_batch connection txs retry_count cached w ≡ (ok tt, w'))
  unfolding send_tx_batch
  send_tx_batch-Sends retry_count [] keep answer w = (w, all_sent, refl)
  send_tx_batch-Sends retry_count (tx ∷ txs) keep answer w =
      let (b, w', tries, runs) = attempts-Tries tx keep.0 answer.0 (or_else retry_count 5) w in
      let (w'', sends, rest) = send_tx_batch-Sends retry_count txs keep.1 answer.1 w' in
      elim (Bool-cases b) [
        | inl e ↦ (
          w'',
          sent_one (subst (λ x. Tries tx (or_else retry_count 5) x w w') e tries) sends,
          rw (runs, e) rest,
        )
        | inr e ↦ (
          w',
          stopped (subst (λ x. Tries tx (or_else retry_count 5) x w w') e tries),
          rw (runs, e) refl,
        )
      ]

-- A batch of transactions that run the preflight checks ends, in every state of the world, if sending
-- gives a result: each transaction in its order is tried up to the retry count (5 if none is given) until
-- an attempt succeeds, and after one that never does nothing more is sent.
pub send_tx_batch_lem :
    {W : Type 0} (connection : Connection W) (cached : Option BlockhashWithExpiryBlockHeight)
    (retry_count : Option ℕ) (txs : List PreparedTransaction) (w : W)
    → All (λ tx. skips_preflight tx ≡ false) txs
    → All (Answers connection cached) txs
    → (w' : W) × Sends connection cached (or_else retry_count 5) txs w w'
      × (send_tx_batch connection txs retry_count cached w ≡ (ok tt, w'))
send_tx_batch_lem connection cached retry_count txs w keep answer =
    send_tx_batch-Sends connection cached retry_count txs keep answer w

-- A transaction that skips the preflight checks ends its batch: it is sent once, and those behind it
-- never, even if it succeeds.
pub send_tx_batch_skips :
    {W : Type 0} (connection : Connection W) (cached : Option BlockhashWithExpiryBlockHeight)
    (retries : ℕ) (tx : PreparedTransaction) (txs : List PreparedTransaction) (w w' : W)
    (sent : Sent)
    → skips_preflight tx ≡ true
    → send_tx connection tx cached w ≡ (ok sent, w')
    → send_tx_batch connection (tx ∷ txs) (some (suc retries)) cached w ≡ (ok tt, w')
unfolding send_tx_batch attempts
send_tx_batch_skips connection cached retries tx txs w w' sent skips e = rw (e, skips) refl
