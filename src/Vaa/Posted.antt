-- ===== src/Vaa/Posted.antt =====
-- The account of a VAA that the Core Bridge posted, and the message that it stands for.

use example_liquidity_layer.Prelude.{
  List, [], arith, length, none, ok, refl, some, true, ◌+◌, ◌<◌, ◌^◌, ◌∷◌, ◌≡◌,
}
use example_liquidity_layer.Buffer.{Bytes, be_bytes, le_bytes, subarray}
use example_liquidity_layer.Buffer.Laws.{length-be_bytes, length-le_bytes}
use example_liquidity_layer.Buffer.Chunks.{
  alloc_zero, concat, read_uint_le_chunk, set_chunk, subarray_chunk, write_chunk,
}
use example_liquidity_layer.AuctionHistory.{bytes_equal}
use example_liquidity_layer.Cctp.Layout.{IsAddress, low_bytes-eq}
use example_liquidity_layer.Vaa.Encoded.{byte_at_chunk}
use example_liquidity_layer.Vaa.{
  PostedVaaV1, Sdk, VaaAccount, emitter_info, fetch_posted, fetch_vaa_account, get_posted_vaa_v1,
  new_vaa_account, posted_discriminator, posted_hash, vaa_digest, vaa_hash, vaa_payload,
  vaa_timestamp,
}

-- The fields are in the range of their widths.
pub record PostedFits (p : PostedVaaV1) : Type 0 where
  pub level_fits : p.consistency_level < 2 ^ 8
  pub timestamp_fits : p.timestamp < 2 ^ 32
  pub set_is : length p.signature_set ≡ 32
  pub guardians_fit : p.guardian_set_index < 2 ^ 32
  pub nonce_fits : p.nonce < 2 ^ 32
  pub sequence_fits : p.sequence < 2 ^ 64
  pub chain_fits : p.emitter_chain < 2 ^ 16
  pub address_is : IsAddress p.emitter_address
  pub payload_fits : length p.payload < 2 ^ 32

-- The account, in Borsh.
abbrev pub posted_chunks : PostedVaaV1 → Bytes → List Bytes
posted_chunks p padding =
    posted_discriminator
    ∷ (p.consistency_level ∷ [])
    ∷ le_bytes 4 p.timestamp
    ∷ p.signature_set
    ∷ le_bytes 4 p.guardian_set_index
    ∷ le_bytes 4 p.nonce
    ∷ le_bytes 8 p.sequence
    ∷ le_bytes 2 p.emitter_chain
    ∷ p.emitter_address
    ∷ le_bytes 4 (length p.payload)
    ∷ p.payload
    ∷ padding
    ∷ []

-- The body of a Wormhole message: its integers are written highest byte first.
abbrev pub body_chunks : PostedVaaV1 → List Bytes
body_chunks p =
    be_bytes 4 p.timestamp
    ∷ be_bytes 4 p.nonce
    ∷ be_bytes 2 p.emitter_chain
    ∷ p.emitter_address
    ∷ be_bytes 8 p.sequence
    ∷ be_bytes 1 p.consistency_level
    ∷ p.payload
    ∷ []

abbrev pub posted_account : PostedVaaV1 → VaaAccount
posted_account p = record { encoded_vaa = none; posted_vaa_v1 = some p }

module _ (sdk : Sdk) (p : PostedVaaV1) (fits : PostedFits p) where
  fetch_posted_lem :
      (padding : Bytes)
      → sdk.is_chain_id p.emitter_chain ≡ true
      → fetch_posted sdk (concat (posted_chunks p padding)) ≡ ok (posted_account p)
  unfolding fetch_posted new_vaa_account
  fetch_posted_lem padding known =
      let cs = posted_chunks p padding in
      let a = length-le_bytes 4 p.timestamp in
      let b = length-le_bytes 4 p.guardian_set_index in
      let c = length-le_bytes 4 p.nonce in
      let d = length-le_bytes 8 p.sequence in
      let e = length-le_bytes 2 p.emitter_chain in
      let f = length-le_bytes 4 (length p.payload) in
      let g = fits.set_is in
      let h = fits.address_is.0 in
      rw
        (
          byte_at_chunk cs 1 p.consistency_level [] 4 refl refl,
          read_uint_le_chunk cs 2 4 p.timestamp 5 refl (omega arith)
              (omega (arith, fits.timestamp_fits)),
          subarray_chunk cs 3 p.signature_set 9 41 refl (omega arith) (omega arith),
          read_uint_le_chunk cs 4 4 p.guardian_set_index 41 refl (omega arith)
              (omega (arith, fits.guardians_fit)),
          read_uint_le_chunk cs 5 4 p.nonce 45 refl (omega arith) (omega (arith, fits.nonce_fits)),
          read_uint_le_chunk cs 6 8 p.sequence 49 refl (omega arith)
              (omega (arith, fits.sequence_fits)),
          read_uint_le_chunk cs 7 2 p.emitter_chain 57 refl (omega arith)
              (omega (arith, fits.chain_fits)),
          known,
          subarray_chunk cs 8 p.emitter_address 59 91 refl (omega arith) (omega arith),
          read_uint_le_chunk cs 9 4 (length p.payload) 91 refl (omega arith)
              (omega (arith, fits.payload_fits)),
          subarray_chunk cs 10 p.payload 95 (95 + length p.payload) refl (omega arith) refl,
        )
        refl

  posted_hash_lem : posted_hash sdk p ≡ ok (sdk.keccak256 (concat (body_chunks p)))
  unfolding posted_hash
  posted_hash_lem =
      let a = be_bytes 4 p.timestamp in
      let b = be_bytes 4 p.nonce in
      let c = be_bytes 2 p.emitter_chain in
      let d = p.emitter_address in
      let e = be_bytes 8 p.sequence in
      let f = be_bytes 1 p.consistency_level in
      let l = length p.payload in
      let la = length-be_bytes 4 p.timestamp in
      let lb = length-be_bytes 4 p.nonce in
      let lc = length-be_bytes 2 p.emitter_chain in
      let ld = fits.address_is.0 in
      let le = length-be_bytes 8 p.sequence in
      let lf = length-be_bytes 1 p.consistency_level in
      rw
        (
          low_bytes-eq d fits.address_is.1,
          write_chunk [] 4 p.timestamp (51 + l) (47 + l) 0 refl (omega arith)
              (omega (arith, fits.timestamp_fits)),
          write_chunk (a ∷ []) 4 p.nonce (47 + l) (43 + l) 4 (omega arith) (omega arith)
              (omega (arith, fits.nonce_fits)),
          write_chunk (a ∷ b ∷ []) 2 p.emitter_chain (43 + l) (41 + l) 8 (omega arith) (omega arith)
              (omega (arith, fits.chain_fits)),
          set_chunk (a ∷ b ∷ c ∷ []) d (41 + l) (9 + l) 10 (omega arith) (omega arith),
          write_chunk (a ∷ b ∷ c ∷ d ∷ []) 8 p.sequence (9 + l) (1 + l) 42 (omega arith)
              (omega arith) (omega (arith, fits.sequence_fits)),
          write_chunk (a ∷ b ∷ c ∷ d ∷ e ∷ []) 1 p.consistency_level (1 + l) l 50 (omega arith)
              (omega arith) (omega (arith, fits.level_fits)),
          set_chunk (a ∷ b ∷ c ∷ d ∷ e ∷ f ∷ []) p.payload l 0 51 (omega arith) (omega arith),
          alloc_zero (concat (body_chunks p)),
        )
        refl

-- Of the account of a posted VAA, whose chain is one that the SDK knows, `fetch` reads the VAA, and
-- its accessors give the VAA's emitter, time and payload, the hash of its body, and the hash of that.
pub fetch_posted_account :
    (sdk : Sdk) (p : PostedVaaV1)
    → PostedFits p
    → (padding : Bytes) → sdk.is_chain_id p.emitter_chain ≡ true
    → (a : VaaAccount) × (fetch_vaa_account sdk (some (concat (posted_chunks p padding))) ≡ ok a)
      × (get_posted_vaa_v1 a ≡ ok p)
      × (emitter_info sdk a
          ≡ ok (record {
            chain = p.emitter_chain;
            address = p.emitter_address;
            sequence = p.sequence;
          }))
      × (vaa_timestamp sdk a ≡ ok p.timestamp)
      × (vaa_payload sdk a ≡ ok p.payload)
      × (vaa_hash sdk a ≡ ok (sdk.keccak256 (concat (body_chunks p))))
      × (vaa_digest sdk a ≡ ok (sdk.keccak256 (sdk.keccak256 (concat (body_chunks p)))))
unfolding fetch_vaa_account get_posted_vaa_v1 emitter_info vaa_timestamp vaa_payload vaa_hash
    vaa_digest bytes_equal subarray
fetch_posted_account sdk p fits padding known = (
  posted_account p,
  fetch_posted_lem sdk p fits padding known,
  refl,
  refl,
  refl,
  refl,
  posted_hash_lem sdk p fits,
  rw (posted_hash_lem sdk p fits) refl,
)
