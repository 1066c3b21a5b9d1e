-- ===== src/Solver/SendTx.antt =====
-- Sending prepared transactions (solver/src/utils/sendTx.ts). The log lines and the pauses are left out.
pub mod Compiled
pub mod Batch
mod Tests
use example_liquidity_layer.Solver.Io.{Io, catch, fail, return, ◌>>=◌, ◌>>◌}
use example_liquidity_layer.Prelude.{
  Bool, List, Option, String, [], error, false, if◌then◌else◌, none, or_else, some, suc, true,
  type_error, zero, ℕ, ◌++◌, ◌∷◌,
}
use example_liquidity_layer.Auction.{PublicKey}
use example_liquidity_layer.Solver.Transactions.{
  BlockhashWithExpiryBlockHeight, ConfirmOptions, ConfirmStrategy, Connection, Instruction, Message,
  NonceAccount, PreparedTransaction, by_blockhash, by_nonce, nonce_advance, set_compute_unit_limit,
  set_compute_unit_price,
}

pub record NonceData : Type 0 where
  pub nonce : String
  pub recent_slot : ℕ
  pub advance_ixs : List Instruction

pub record Sent : Type 0 where
  pub success : Bool
  pub tx_sig : Option String

abbrev pub skips_preflight : PreparedTransaction → Bool
skips_preflight tx = elim tx.confirm_options [
  | none ↦ false
  | some o ↦ or_else o.skip_preflight false
]

module _ {W : Type 0} (connection : Connection W) where
  abbrev pub nonce_data : PublicKey → Option ℕ × Option NonceAccount → Io W NonceData
  nonce_data account (some slot, some value) = return (record {
    nonce = value.nonce;
    recent_slot = slot;
    advance_ixs = nonce_advance value.authorized_pubkey account ∷ [];
  })
  nonce_data account _ = fail (error "Failed to fetch nonce account data")

  unfoldable pub get_nonce_account_data : PublicKey → Io W NonceData
  get_nonce_account_data account = do
    fetched ← connection.get_nonce_and_context account
    nonce_data account fetched

  -- `signers[0].publicKey`
  abbrev pub payer_of : List PublicKey → Io W PublicKey
  payer_of [] = fail type_error
  payer_of (payer ∷ _) = return payer

  -- The blockhash, if it is cached it is not fetched.
  abbrev pub latest_blockhash :
      Option BlockhashWithExpiryBlockHeight → Io W BlockhashWithExpiryBlockHeight
  latest_blockhash (some cached) = return cached
  latest_blockhash none = connection.get_latest_blockhash

  abbrev pub budget_ixs : PreparedTransaction → List Instruction
  budget_ixs tx =
      set_compute_unit_limit tx.compute_units ∷ set_compute_unit_price tx.fee_micro_lamports ∷ []

  unfoldable pub compile_message :
      PreparedTransaction
      → Option PublicKey
      → Option BlockhashWithExpiryBlockHeight
      → Io W (Message × ConfirmStrategy)
  unfolding get_nonce_account_data
  compile_message tx none cached = do
    latest ← latest_blockhash cached
    payer ← payer_of tx.signers
    return (
      record {
        payer_key = payer;
        recent_blockhash = latest.blockhash;
        instructions = budget_ixs tx ++ tx.ixs;
        lookup_tables = tx.address_lookup_table_accounts;
      },
      by_blockhash latest,
    )
  compile_message tx (some account) cached = do
    fetched ← get_nonce_account_data account
    payer ← payer_of tx.signers
    return (
      record {
        payer_key = payer;
        recent_blockhash = fetched.nonce;
        instructions = fetched.advance_ixs ++ (budget_ixs tx ++ tx.ixs);
        lookup_tables = tx.address_lookup_table_accounts;
      },
      by_nonce fetched.recent_slot account fetched.nonce,
    )

  abbrev pub confirm : String → ConfirmStrategy → Option ConfirmOptions → Io W (Unit {0})
  confirm signature strategy none = return tt
  confirm signature strategy (some o) = elim o.commitment [
    | none ↦ return tt
    | some c ↦ connection.confirm_transaction signature strategy c
  ]

  -- An error of the sending or of the confirmation is caught.
  unfoldable pub send_tx : PreparedTransaction → Option BlockhashWithExpiryBlockHeight → Io W Sent
  unfolding compile_message
  send_tx tx cached = do
    (message, strategy) ← compile_message tx tx.nonce_account cached
    catch
        (do
          signature ← connection.send_transaction message tx.signers tx.confirm_options
          confirm signature strategy tx.confirm_options
          return (record { success = true; tx_sig = some signature }))
        (λ e. return (record { success = false; tx_sig = none }))

  -- `while (!success && counter < retries)`, with the number of attempts that are left.
  unfoldable pub attempts :
      ℕ → PreparedTransaction → Option BlockhashWithExpiryBlockHeight → Io W Bool
  unfolding send_tx
  attempts zero tx cached = return false
  attempts (suc left) tx cached = do
    response ← send_tx tx cached
    let again = attempts left tx cached
    if skips_preflight tx then return false else if response.success then return true else again

  unfoldable pub send_tx_batch :
      List PreparedTransaction → Option ℕ → Option BlockhashWithExpiryBlockHeight → Io W (Unit {0})
  unfolding attempts
  send_tx_batch [] retry_count cached = return tt
  send_tx_batch (tx ∷ txs) retry_count cached = do
    success ← attempts (or_else retry_count 5) tx cached
    let rest = send_tx_batch txs retry_count cached
    if success then rest else return tt
