-- ===== src/Solver/SendTx/Compiled.antt =====
-- Which errors leave `sendTx`.
use example_liquidity_layer.Solver.Io.{Io, caught}
use example_liquidity_layer.Prelude.{Error, Option, Result, ok, refl, throw, ◌≡◌}
use example_liquidity_layer.Solver.Transactions.{
  BlockhashWithExpiryBlockHeight, ConfirmStrategy, Connection, Message, PreparedTransaction,
}
use example_liquidity_layer.Solver.SendTx.{Sent, compile_message, send_tx}

-- A caught computation gives a result if its handler does.
pub caught-ok :
    {W A : Type 0} (r : Result A × W) (handler : Error → Io W A)
    → ((e : Error) (w : W) → (a : A) × (w' : W) × (handler e w ≡ (ok a, w')))
    → (a : A) × (w' : W) × (caught r handler ≡ (ok a, w'))
caught-ok (ok a, w) handler h = (a, w, refl)
caught-ok (throw e, w) handler h = h e w

-- The network refuses nothing that `sendTx` lets out: once the message is made, whatever the sending and
-- the confirmation throw, the call gives a result. What making the message throws is all that leaves it,
-- and nothing is sent then.
pub send_tx_errors :
    {W : Type 0} (connection : Connection W) (tx : PreparedTransaction)
    (cached : Option BlockhashWithExpiryBlockHeight) (w : W)
    → ((message : Message × ConfirmStrategy) (w' : W)
        → compile_message connection tx tx.nonce_account cached w ≡ (ok message, w')
        → (sent : Sent) × (w'' : W) × (send_tx connection tx cached w ≡ (ok sent, w'')))
      × ((e : Error) (w' : W)
          → compile_message connection tx tx.nonce_account cached w ≡ (throw e, w')
          → send_tx connection tx cached w ≡ (throw e, w'))
unfolding send_tx
send_tx_errors connection tx cached w =
    (λ message w' e. rw e (caught-ok _ _ (λ _ w''. (_, w'', refl))), λ e w' h. rw h refl)
