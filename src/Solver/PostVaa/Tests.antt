-- ===== src/Solver/PostVaa/Tests.antt =====
-- A VAA with three signatures in two pairs of instructions, and its transactions.

use example_liquidity_layer.Prelude.{
  List, [], arith, get_elem?, map, none, ok, some, ℕ, ◌+◌, ◌∷◌, ◌≡◌,
}
use example_liquidity_layer.Solver.Config.{ComputeUnitsConfig}
use example_liquidity_layer.Solver.Transactions.{
  BlockhashWithExpiryBlockHeight, Connection, Instruction, Message, by_blockhash,
  program_instruction,
}
use example_liquidity_layer.Solver.SendTx.{compile_message}
use example_liquidity_layer.Solver.PostVaa.{prepare_post_vaa_txs, prepared_verify}
use example_liquidity_layer.Solver.PostVaa.Fix.{SignatureOffsets}
use example_liquidity_layer.Solver.PostVaa.Place.{
  VerifyPair, expected_txs, made_by_sdk, pointed_at, prepare_post_vaa_txs_lem, verify_tx,
}

abbrev offsets : ℕ → SignatureOffsets
offsets n = record {
  signature_offset = (n, 0);
  signature_index = 0;
  eth_address_offset = (n, 1);
  eth_address_index = 0;
  message_offset = (200, 0);
  message_size = (32, 0);
  message_index = 0;
}

abbrev units : ComputeUnitsConfig
units = record {
  verify_signatures = 60000;
  post_vaa = 100000;
  settle_auction_none_cctp = 1;
  settle_auction_none_local = 1;
  settle_auction_complete = 1;
  initiate_auction = 1;
}

abbrev pairs : List VerifyPair
pairs =
    record {
      offsets = offsets 20 ∷ offsets 110 ∷ [];
      rest = 5 ∷ [];
      verify_sigs_ix = program_instruction (1 ∷ []);
    }
    ∷ record {
      offsets = offsets 20 ∷ [];
      rest = 6 ∷ [];
      verify_sigs_ix = program_instruction (2 ∷ []);
    }
    ∷ []

-- A world that counts the calls.
abbrev counting : Connection ℕ
counting = record {
  get_latest_blockhash =
      λ w. (ok (record { blockhash = "hash"; last_valid_block_height = 1 }), w + 1);
  get_nonce_and_context = λ key w. (ok (none, none), w + 1);
  send_transaction = λ message signers options w. (ok "signature", w + 1);
  confirm_transaction = λ signature strategy commitment w. (ok tt, w + 1);
}

abbrev post_ix : Instruction
post_ix = program_instruction (9 ∷ [])

prepare_post_vaa_txs_lem_example :
    (prepare_post_vaa_txs units (1 ∷ []) (2 ∷ []) none post_ix (map made_by_sdk pairs)
      ≡ ok (expected_txs units (1 ∷ []) (2 ∷ []) none post_ix pairs))
    × ((p : VerifyPair) (cached : BlockhashWithExpiryBlockHeight) (w : ℕ)
        → (message : Message) × (compile_message counting
              (verify_tx units (1 ∷ []) (2 ∷ []) none post_ix p)
              none
              (some cached)
              w
            ≡ (ok (message, by_blockhash cached), w))
          × (get_elem? message.instructions 2 ≡ some (program_instruction (pointed_at 2 p))))
unfolding prepared_verify
prepare_post_vaa_txs_lem_example =
    prepare_post_vaa_txs_lem counting units (1 ∷ []) (2 ∷ []) none post_ix pairs
      (omega arith, (omega arith, tt))
