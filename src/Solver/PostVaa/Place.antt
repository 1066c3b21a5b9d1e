-- ===== src/Solver/PostVaa/Place.antt =====
-- The transactions that post a VAA, and where their Secp256k1 instruction stands in the message.

use example_liquidity_layer.Prelude.{
  All, List, Option, [], arith, get_elem?, length, map, none, ok, refl, some, ℕ, ◌<◌, ◌∷◌, ◌≡◌,
}
use example_liquidity_layer.Buffer.{Bytes}
use example_liquidity_layer.Auction.{PublicKey}
use example_liquidity_layer.Solver.Config.{ComputeUnitsConfig}
use example_liquidity_layer.Solver.Transactions.{
  BlockhashWithExpiryBlockHeight, ConfirmOptions, Connection, Instruction, Message,
  PreparedTransaction, by_blockhash, program_instruction,
}
use example_liquidity_layer.Solver.SendTx.{compile_message}
use example_liquidity_layer.Solver.PostVaa.{prepare_post_vaa_txs, prepared_post, prepared_verify}
use example_liquidity_layer.Solver.PostVaa.Fix.{
  SignatureOffsets, point_at, secp_bytes, unsafe_fix_sig_verify_ix_lem,
}

-- A pair of verifying instructions: the signatures' offsets and what they point into, and the check.
pub record VerifyPair : Type 0 where
  pub offsets : List SignatureOffsets
  pub rest : Bytes
  pub verify_sigs_ix : Instruction

abbrev pub made_by_sdk : VerifyPair → Bytes × Instruction
made_by_sdk p = (secp_bytes p.offsets p.rest, p.verify_sigs_ix)

abbrev pub pointed_at : ℕ → VerifyPair → Bytes
pointed_at index p = secp_bytes (map (point_at index) p.offsets) p.rest

module _ (units : ComputeUnitsConfig) (payer signature_set : PublicKey)
    (options : Option ConfirmOptions) (vaa_post_ix : Instruction) where
  -- The two instructions that check the signatures, signed by the payer and the key of the signature set.
  abbrev pub verify_tx : VerifyPair → PreparedTransaction
  verify_tx p = record {
    ixs = program_instruction (pointed_at 2 p) ∷ p.verify_sigs_ix ∷ [];
    signers = payer ∷ signature_set ∷ [];
    compute_units = units.verify_signatures;
    fee_micro_lamports = 10;
    nonce_account = none;
    address_lookup_table_accounts = none;
    tx_name = some "verifySignatures";
    confirm_options = options;
  }

  -- The instruction that posts the VAA, signed by the payer.
  abbrev pub post_tx : PreparedTransaction
  post_tx = record {
    ixs = vaa_post_ix ∷ [];
    signers = payer ∷ [];
    compute_units = units.post_vaa;
    fee_micro_lamports = 10;
    nonce_account = none;
    address_lookup_table_accounts = none;
    tx_name = some "postVAA";
    confirm_options = options;
  }

  -- After every verifying transaction comes one that posts the VAA.
  abbrev pub expected_txs : List VerifyPair → List PreparedTransaction
  expected_txs [] = []
  expected_txs (p ∷ ps) = verify_tx p ∷ post_tx ∷ expected_txs ps

  -- The message of a verifying transaction has the Secp256k1 instruction in third place.
  verify_tx-place :
      {W : Type 0} (connection : Connection W) (p : VerifyPair)
      (cached : BlockhashWithExpiryBlockHeight) (w : W)
      → (message : Message) × (compile_message connection
            (verify_tx p)
            (verify_tx p).nonce_account
            (some cached)
            w
          ≡ (ok (message, by_blockhash cached), w))
        × (get_elem? message.instructions 2 ≡ some (program_instruction (pointed_at 2 p)))
  unfolding compile_message
  verify_tx-place connection p cached w = (_, refl, refl)

module _ {W : Type 0} (connection : Connection W) (units : ComputeUnitsConfig)
    (payer signature_set : PublicKey) (options : Option ConfirmOptions)
    (vaa_post_ix : Instruction) where
  -- For each pair of instructions that the SDK makes there is a transaction with the pair, signed by the payer
  -- and the key of the signature set, and one with the instruction that posts the VAA, signed by the payer, in
  -- this order. In the message that a verifying transaction is sent as, without a nonce
  -- account, the Secp256k1 instruction stands in third place, and every signature points at that place.
  pub prepare_post_vaa_txs_lem :
      (pairs : List VerifyPair)
      → All (λ p. length p.offsets < 256) pairs
      → (prepare_post_vaa_txs units payer signature_set options vaa_post_ix (map made_by_sdk pairs)
          ≡ ok (expected_txs units payer signature_set options vaa_post_ix pairs))
        × ((p : VerifyPair) (cached : BlockhashWithExpiryBlockHeight) (w : W)
            → (message : Message) × (compile_message connection
                  (verify_tx units payer signature_set options vaa_post_ix p)
                  (verify_tx units payer signature_set options vaa_post_ix p).nonce_account
                  (some cached)
                  w
                ≡ (ok (message, by_blockhash cached), w))
              × (get_elem? message.instructions 2 ≡ some (program_instruction (pointed_at 2 p))))
  unfolding prepare_post_vaa_txs prepared_verify prepared_post
  prepare_post_vaa_txs_lem [] few =
      (refl, verify_tx-place units payer signature_set options vaa_post_ix connection)
  prepare_post_vaa_txs_lem (p ∷ ps) few = (
    rw
        (
          unsafe_fix_sig_verify_ix_lem p.offsets p.rest 2 few.0 (omega arith),
          (prepare_post_vaa_txs_lem ps few.1).0,
        )
        refl,
    verify_tx-place units payer signature_set options vaa_post_ix connection,
  )
