-- ===== src/Solver/Transactions.antt =====
-- Transactions before they are sent: PreparedTransaction (solana/ts/src/index.ts), and what web3.js makes
-- of one. An instruction of web3.js is what its maker was given; a signer is its public key.
use example_liquidity_layer.Prelude.{Bool, List, Option, String, ℕ}
use example_liquidity_layer.Buffer.{Bytes}
use example_liquidity_layer.Auction.{PublicKey}
use example_liquidity_layer.Solver.Io.{Io}

pub data Instruction : Type 0 where
  set_compute_unit_limit : ℕ → Instruction
  set_compute_unit_price : ℕ → Instruction
  nonce_advance : (authorized nonce : PublicKey) → Instruction
  program_instruction : (contents : Bytes) → Instruction

pub record ConfirmOptions : Type 0 where
  pub commitment : Option String
  pub skip_preflight : Option Bool

pub record PreparedTransaction : Type 0 where
  pub ixs : List Instruction
  pub signers : List PublicKey
  pub compute_units : ℕ
  pub fee_micro_lamports : ℕ
  pub nonce_account : Option PublicKey
  pub address_lookup_table_accounts : Option (List PublicKey)
  pub tx_name : Option String
  pub confirm_options : Option ConfirmOptions

pub record PreparedTransactionOptions : Type 0 where
  pub fee_micro_lamports : ℕ
  pub compute_units : ℕ
  pub nonce_account : Option PublicKey
  pub address_lookup_table_accounts : Option (List PublicKey)

pub record BlockhashWithExpiryBlockHeight : Type 0 where
  pub blockhash : String
  pub last_valid_block_height : ℕ

-- `new TransactionMessage({...}).compileToV0Message(tables)`
pub record Message : Type 0 where
  pub payer_key : PublicKey
  pub recent_blockhash : String
  pub instructions : List Instruction
  pub lookup_tables : Option (List PublicKey)

pub record NonceAccount : Type 0 where
  pub nonce : String
  pub authorized_pubkey : PublicKey

pub data ConfirmStrategy : Type 0 where
  by_blockhash : BlockhashWithExpiryBlockHeight → ConfirmStrategy
  by_nonce : (min_context_slot : ℕ) (nonce_account : PublicKey) (nonce : String) → ConfirmStrategy

-- The calls of web3.js's `Connection` that the solver makes.
pub record Connection (W : Type 0) : Type 1 where
  pub get_latest_blockhash : Io W BlockhashWithExpiryBlockHeight
  pub get_nonce_and_context : PublicKey → Io W (Option ℕ × Option NonceAccount)
  pub send_transaction : Message → List PublicKey → Option ConfirmOptions → Io W String
  pub confirm_transaction : String → ConfirmStrategy → String → Io W (Unit {0})
