-- ===== src/Vaa/Tests.antt =====
-- Accounts on which the theorems of VaaAccount are applied.
use example_liquidity_layer.Prelude.{
  [], arith, error, if◌then◌else◌, length, ltb, ok, refl, replicate, replicate-All, some, take,
  throw, ◌==◌, ◌∷◌, ◌≡◌,
}
use example_liquidity_layer.Buffer.{IsByte}
use example_liquidity_layer.Buffer.Chunks.{concat}
use example_liquidity_layer.Vaa.{
  EncodedVaa, ParsedVaa, PostedVaaV1, Sdk, VaaAccount, emitter_info, fetch_vaa_account,
  get_posted_vaa_v1, vaa_digest, vaa_hash, vaa_payload, vaa_timestamp,
}
use example_liquidity_layer.Vaa.Posted.{
  PostedFits, body_chunks, fetch_posted_account, posted_chunks,
}

abbrev parsed_vaa : ParsedVaa
parsed_vaa = record {
  emitter_chain = "Ethereum";
  emitter_address = replicate 32 9;
  sequence = 11;
  timestamp = 1700000000;
  payload = 1 ∷ 2 ∷ [];
  hash = replicate 32 77;
}

-- An SDK that knows one VAA, and whose hash keeps the first 32 bytes.
abbrev sdk : Sdk
sdk = record {
  is_chain_id = λ n. ltb n 100;
  to_chain_id = λ chain. 2;
  deserialize = λ bytes. if length bytes == 3 then ok parsed_vaa else throw (error "short");
  keccak256 = λ bytes. take 32 bytes;
}

abbrev posted : PostedVaaV1
posted = record {
  consistency_level = 1;
  timestamp = 1700000000;
  signature_set = replicate 32 4;
  guardian_set_index = 3;
  nonce = 0;
  sequence = 11;
  emitter_chain = 2;
  emitter_address = replicate 32 9;
  payload = 11 ∷ 12 ∷ 13 ∷ [];
}

posted-PostedFits : PostedFits posted
posted-PostedFits = record {
  level_fits = omega arith;
  timestamp_fits = omega arith;
  set_is = refl;
  guardians_fit = omega arith;
  nonce_fits = omega arith;
  sequence_fits = omega arith;
  chain_fits = omega arith;
  address_is = (refl, replicate-All IsByte 32 9 (omega arith));
  payload_fits = omega arith;
}

fetch_posted_account_example :
    (a : VaaAccount) × (fetch_vaa_account sdk (some (concat (posted_chunks posted []))) ≡ ok a)
    × (get_posted_vaa_v1 a ≡ ok posted)
    × (emitter_info sdk a ≡ ok (record { chain = 2; address = replicate 32 9; sequence = 11 }))
    × (vaa_timestamp sdk a ≡ ok 1700000000)
    × (vaa_payload sdk a ≡ ok (11 ∷ 12 ∷ 13 ∷ []))
    × (vaa_hash sdk a ≡ ok (take 32 (concat (body_chunks posted))))
    × (vaa_digest sdk a ≡ ok (take 32 (take 32 (concat (body_chunks posted)))))
fetch_posted_account_example = fetch_posted_account sdk posted posted-PostedFits [] refl

abbrev encoded : EncodedVaa
encoded = record { status = 2; write_authority = replicate 32 4; version = 1; buf = 1 ∷ 0 ∷ 0 ∷ [] }
