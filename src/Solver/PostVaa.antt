-- ===== src/Solver/PostVaa.antt =====
-- The transactions that post a VAA (solver/src/utils/preparePostVaaTx.ts). The instructions of the Solana
-- core SDK, which makes the verifying ones in pairs (the Secp256k1 instruction and the one that checks
-- it), and the new key of the signature set are arguments.
pub mod Fix
pub mod Place
mod Tests
use example_liquidity_layer.Prelude.{
  List, Option, Result, [], none, ok, some, suc, zero, ℕ, ◌*◌, ◌+◌, ◌∷◌, ◌>>=◌, ◌>>◌,
}
use example_liquidity_layer.Buffer.{Bytes, read_uint_be, write_uint_be}
use example_liquidity_layer.Auction.{PublicKey}
use example_liquidity_layer.Solver.Config.{ComputeUnitsConfig}
use example_liquidity_layer.Solver.Transactions.{
  ConfirmOptions, Instruction, PreparedTransaction, program_instruction,
}

-- The loop over the signatures: `left` are to come after the first `i`.
unfoldable pub fix_from : (left i : ℕ) → Bytes → ℕ → Result Bytes
fix_from zero i buf index = ok buf
fix_from (suc left) i buf index = do
  buf ← write_uint_be 1 buf index (3 + i * 11)
  buf ← write_uint_be 1 buf index (6 + i * 11)
  buf ← write_uint_be 1 buf index (11 + i * 11)
  fix_from left (i + 1) buf index

unfoldable pub unsafe_fix_sig_verify_ix : Bytes → ℕ → Result Bytes
unfolding fix_from
unsafe_fix_sig_verify_ix buf sig_verify_ix_index = do
  num_signatures ← read_uint_be 1 buf 0
  fix_from num_signatures 0 buf sig_verify_ix_index

unfoldable pub prepared_verify :
    ComputeUnitsConfig
    → PublicKey
    → PublicKey
    → Option ConfirmOptions
    → Bytes
    → Instruction
    → PreparedTransaction
prepared_verify units payer signature_set options sig_verify verify_sigs_ix = record {
  ixs = program_instruction sig_verify ∷ verify_sigs_ix ∷ [];
  signers = payer ∷ signature_set ∷ [];
  compute_units = units.verify_signatures;
  fee_micro_lamports = 10;
  nonce_account = none;
  address_lookup_table_accounts = none;
  tx_name = some "verifySignatures";
  confirm_options = options;
}

unfoldable pub prepared_post :
    ComputeUnitsConfig → PublicKey → Option ConfirmOptions → Instruction → PreparedTransaction
prepared_post units payer options vaa_post_ix = record {
  ixs = vaa_post_ix ∷ [];
  signers = payer ∷ [];
  compute_units = units.post_vaa;
  fee_micro_lamports = 10;
  nonce_account = none;
  address_lookup_table_accounts = none;
  tx_name = some "postVAA";
  confirm_options = options;
}

-- The instructions are reversed and taken from the end, which is from the front of what the SDK made.
unfoldable pub prepare_post_vaa_txs :
    ComputeUnitsConfig
    → PublicKey
    → PublicKey
    → Option ConfirmOptions
    → Instruction
    → List (Bytes × Instruction)
    → Result (List PreparedTransaction)
unfolding unsafe_fix_sig_verify_ix prepared_verify prepared_post
prepare_post_vaa_txs units payer signature_set options vaa_post_ix [] = ok []
prepare_post_vaa_txs units payer signature_set options vaa_post_ix
      ((sig_verify, verify_sigs_ix) ∷ ixs) =
    do
      fixed ← unsafe_fix_sig_verify_ix sig_verify 2
      rest ← prepare_post_vaa_txs units payer signature_set options vaa_post_ix ixs
      ok (
          prepared_verify units payer signature_set options fixed verify_sigs_ix
          ∷ prepared_post units payer options vaa_post_ix
          ∷ rest)
