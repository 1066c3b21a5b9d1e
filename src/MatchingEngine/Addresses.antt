-- ===== src/MatchingEngine/Addresses.antt =====
-- The addresses that MatchingEngineProgram derives (solana/ts/src/matchingEngine/index.ts and state/).

use example_liquidity_layer.Prelude.{List, Result, String, [], none, ok, true, ℕ, ◌∷◌, ◌>>=◌}
use example_liquidity_layer.Buffer.{Bytes, alloc, write_uint_be}
use example_liquidity_layer.Auction.{PublicKey}
use example_liquidity_layer.Uint64.{Uint64, VaaHash, low_bytes, vaa_hash_to_buffer, write_uint64_be}
use example_liquidity_layer.Solana.{Web3, buffer_from}

pub record Program : Type 0 where
  pub web3 : Web3
  pub id : PublicKey
  pub mint : PublicKey

module _ (p : Program) where
  abbrev pub address : List Bytes → PublicKey
  address seeds = p.web3.find_program_address seeds p.id

  abbrev pub event_authority_address : PublicKey
  event_authority_address = address (buffer_from "__event_authority" ∷ [])

  -- The custodian is the emitter.
  abbrev pub custodian_address : PublicKey
  custodian_address = address (buffer_from "emitter" ∷ [])

  unfoldable pub auction_config_address : ℕ → Result PublicKey
  auction_config_address id = do
    encoded_id ← write_uint_be 4 (alloc 4) id 0
    ok (address (buffer_from "auction-config" ∷ encoded_id ∷ []))

  unfoldable pub router_endpoint_address : ℕ → Result PublicKey
  router_endpoint_address chain = do
    encoded_chain ← write_uint_be 2 (alloc 2) chain 0
    ok (address (buffer_from "endpoint" ∷ encoded_chain ∷ []))

  abbrev pub cctp_mint_recipient_address : Result PublicKey
  cctp_mint_recipient_address = p.web3.get_associated_token_address p.mint custodian_address true

  -- `Buffer.from(vaaHash)`, of a hash in any of its three forms.
  unfoldable pub auction_address : VaaHash → PublicKey
  auction_address vaa_hash = address (buffer_from "auction" ∷ vaa_hash_to_buffer vaa_hash ∷ [])

  unfoldable pub prepared_order_response_address : VaaHash → PublicKey
  prepared_order_response_address fast_vaa_hash =
      address (buffer_from "order-response" ∷ vaa_hash_to_buffer fast_vaa_hash ∷ [])

  unfoldable pub reserved_fast_fill_sequence_address : VaaHash → PublicKey
  reserved_fast_fill_sequence_address fast_vaa_hash =
      address (buffer_from "reserved-fast-fill-sequence" ∷ vaa_hash_to_buffer fast_vaa_hash ∷ [])

  unfoldable pub proposal_address : Uint64 → Result PublicKey
  proposal_address id = do
    encoded_id ← write_uint64_be (alloc 8) id none
    ok (address (buffer_from "proposal" ∷ encoded_id ∷ []))

  unfoldable pub auction_history_address : Uint64 → Result PublicKey
  auction_history_address id = do
    encoded_id ← write_uint64_be (alloc 8) id none
    ok (address (buffer_from "auction-history" ∷ encoded_id ∷ []))

  abbrev pub message_address : PublicKey → String → PublicKey
  message_address associated prefix = address (buffer_from prefix ∷ associated ∷ [])

  abbrev pub core_message_address : PublicKey → PublicKey
  core_message_address auction = message_address auction "core-msg"

  abbrev pub cctp_message_address : PublicKey → PublicKey
  cctp_message_address auction = message_address auction "cctp-msg"

  abbrev pub prepared_custody_token_address : PublicKey → PublicKey
  prepared_custody_token_address response = address (buffer_from "prepared-custody" ∷ response ∷ [])

  abbrev pub auction_custody_token_address : PublicKey → PublicKey
  auction_custody_token_address auction = address (buffer_from "auction-custody" ∷ auction ∷ [])

  unfoldable pub local_custody_token_address : ℕ → Result PublicKey
  local_custody_token_address source_chain = do
    encoded_source_chain ← write_uint_be 2 (alloc 2) source_chain 0
    ok (address (buffer_from "local-custody" ∷ encoded_source_chain ∷ []))

  unfoldable pub fast_fill_address : ℕ → List ℕ → Uint64 → Result PublicKey
  fast_fill_address source_chain order_sender sequence = do
    encoded_source_chain ← write_uint_be 2 (alloc 2) source_chain 0
    encoded_sequence ← write_uint64_be (alloc 8) sequence none
    ok (
        address (
          buffer_from "fast-fill"
          ∷ encoded_source_chain
          ∷ low_bytes order_sender
          ∷ encoded_sequence
          ∷ []))

  unfoldable pub fast_fill_sequencer_address : ℕ → List ℕ → Result PublicKey
  fast_fill_sequencer_address source_chain sender = do
    encoded_source_chain ← write_uint_be 2 (alloc 2) source_chain 0
    ok (address (buffer_from "fast-fill-sequencer" ∷ encoded_source_chain ∷ low_bytes sender ∷ []))

  unfoldable pub transfer_authority_address : PublicKey → Uint64 → Result PublicKey
  transfer_authority_address auction offer_price = do
    encoded_offer_price ← write_uint64_be (alloc 8) offer_price none
    ok (address (buffer_from "transfer-authority" ∷ auction ∷ encoded_offer_price ∷ []))
