-- ===== src/Solver/SendTx/Tests.antt =====
-- A network on which the theorems of the sending are applied: each sending takes its answer from a list,
-- and the sent messages are counted.

use example_liquidity_layer.Prelude.{
  Bool, List, Option, Result, String, [], error, false, none, ok, refl, some, throw, true, ℕ, ◌+◌,
  ◌∷◌, ◌≡◌,
}
use example_liquidity_layer.Solver.Transactions.{
  BlockhashWithExpiryBlockHeight, Connection, PreparedTransaction, program_instruction,
}
use example_liquidity_layer.Solver.SendTx.{attempts, compile_message, send_tx, send_tx_batch}
use example_liquidity_layer.Solver.SendTx.Batch.{Answers, Sends, send_tx_batch_lem}

abbrev World : Type 0
World = List Bool × ℕ

abbrev answer : World → Result String × World
answer ([], n) = (ok "signature", ([], n + 1))
answer (true ∷ bs, n) = (ok "signature", (bs, n + 1))
answer (false ∷ bs, n) = (throw (error "refused"), (bs, n + 1))

abbrev network : Connection World
network = record {
  get_latest_blockhash = λ w. (throw (error "no node"), w);
  get_nonce_and_context = λ key w. (ok (none, none), w);
  send_transaction = λ message signers options w. answer w;
  confirm_transaction = λ signature strategy commitment w. (ok tt, w);
}

abbrev cached : Option BlockhashWithExpiryBlockHeight
cached = some (record { blockhash = "hash"; last_valid_block_height = 1 })

abbrev tx : Bool → PreparedTransaction
tx skip = record {
  ixs = program_instruction [] ∷ [];
  signers = (1 ∷ []) ∷ [];
  compute_units = 1000;
  fee_micro_lamports = 10;
  nonce_account = none;
  address_lookup_table_accounts = none;
  tx_name = none;
  confirm_options = some (record { commitment = none; skip_preflight = some skip });
}

tx-Answers : Answers network cached (tx false)
unfolding send_tx compile_message
tx-Answers ([], n) = (_, _, refl)
tx-Answers (true ∷ bs, n) = (_, _, refl)
tx-Answers (false ∷ bs, n) = (_, _, refl)

-- The first transaction is refused twice and sent, the second is refused as often as it is tried.
refused_batch :
    send_tx_batch network
      (tx false ∷ tx false ∷ tx false ∷ [])
      (some 3)
      cached
      (false ∷ false ∷ true ∷ false ∷ false ∷ false ∷ [], 0)
    ≡ (ok tt, ([], 6))
unfolding send_tx_batch attempts send_tx compile_message
refused_batch = refl

send_tx_batch_lem_example :
    (w' : World) × Sends network cached 3 (tx false ∷ tx false ∷ []) (false ∷ [], 0) w'
    × (send_tx_batch network (tx false ∷ tx false ∷ []) (some 3) cached (false ∷ [], 0)
        ≡ (ok tt, w'))
send_tx_batch_lem_example =
    send_tx_batch_lem network cached (some 3) (tx false ∷ tx false ∷ []) (false ∷ [], 0)
      (refl, (refl, tt)) (tx-Answers, (tx-Answers, tt))
