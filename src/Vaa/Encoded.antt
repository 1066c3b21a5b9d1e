-- ===== src/Vaa/Encoded.antt =====
-- The account of an encoded VAA, whose accessors leave everything to the SDK's parser.

use example_liquidity_layer.Prelude.{
  List, [], arith, get_elem?, length, none, ok, refl, some, ℕ, ◌+◌, ◌<◌, ◌^◌, ◌∷◌, ◌≡◌,
}
use example_liquidity_layer.Buffer.{Bytes, le_bytes, subarray}
use example_liquidity_layer.Buffer.Laws.{length-le_bytes}
use example_liquidity_layer.Buffer.Chunks.{
  byte_chunk, concat, read_uint_le_chunk, size_before, subarray_chunk,
}
use example_liquidity_layer.AuctionHistory.{bytes_equal}
use example_liquidity_layer.Vaa.{
  EncodedVaa, ParsedVaa, Sdk, VaaAccount, byte_at, emitter_info, encoded_discriminator,
  fetch_encoded, fetch_vaa_account, get_encoded_vaa, new_vaa_account, vaa_digest, vaa_hash,
  vaa_payload, vaa_timestamp,
}

pub record EncodedFits (e : EncodedVaa) : Type 0 where
  pub authority_is : length e.write_authority ≡ 32
  pub buf_fits : length e.buf < 2 ^ 32

-- The account, in Borsh.
abbrev pub encoded_chunks : EncodedVaa → Bytes → List Bytes
encoded_chunks e padding =
    encoded_discriminator
    ∷ (e.status ∷ [])
    ∷ e.write_authority
    ∷ (e.version ∷ [])
    ∷ le_bytes 4 (length e.buf)
    ∷ e.buf
    ∷ padding
    ∷ []

abbrev pub encoded_account : EncodedVaa → VaaAccount
encoded_account e = record { encoded_vaa = some e; posted_vaa_v1 = none }

pub byte_at_chunk :
    (cs : List Bytes) (i b : ℕ) (c : Bytes) (offset : ℕ)
    → get_elem? cs i ≡ some (b ∷ c)
    → size_before cs i ≡ offset
    → byte_at (concat cs) offset ≡ ok b
unfolding byte_at
byte_at_chunk cs i b c offset e p = rw (byte_chunk cs i b c offset e p) refl

fetch_encoded_lem :
    (e : EncodedVaa)
    → EncodedFits e
    → (padding : Bytes) → fetch_encoded (concat (encoded_chunks e padding)) ≡ ok (encoded_account e)
unfolding fetch_encoded new_vaa_account
fetch_encoded_lem e fits padding =
    let cs = encoded_chunks e padding in
    let a = fits.authority_is in
    let b = length-le_bytes 4 (length e.buf) in
    rw
      (
        byte_at_chunk cs 1 e.status [] 8 refl refl,
        subarray_chunk cs 2 e.write_authority 9 41 refl refl (omega arith),
        byte_at_chunk cs 3 e.version [] 41 refl (omega arith),
        read_uint_le_chunk cs 4 4 (length e.buf) 42 refl (omega arith)
            (omega (arith, fits.buf_fits)),
        subarray_chunk cs 5 e.buf 46 (46 + length e.buf) refl (omega arith) refl,
      )
      refl

-- Of the account of an encoded VAA `fetch` reads the VAA, and where the SDK parses its bytes, the
-- accessors give the parsed message's emitter, time, payload and hash, and the hash of the hash.
pub fetch_encoded_account :
    (sdk : Sdk) (e : EncodedVaa)
    → EncodedFits e
    → (padding : Bytes) (parsed : ParsedVaa) → sdk.deserialize e.buf ≡ ok parsed
    → (a : VaaAccount) × (fetch_vaa_account sdk (some (concat (encoded_chunks e padding))) ≡ ok a)
      × (get_encoded_vaa a ≡ ok e)
      × (emitter_info sdk a
          ≡ ok (record {
            chain = sdk.to_chain_id parsed.emitter_chain;
            address = parsed.emitter_address;
            sequence = parsed.sequence;
          }))
      × (vaa_timestamp sdk a ≡ ok parsed.timestamp)
      × (vaa_payload sdk a ≡ ok parsed.payload)
      × (vaa_hash sdk a ≡ ok parsed.hash)
      × (vaa_digest sdk a ≡ ok (sdk.keccak256 parsed.hash))
unfolding fetch_vaa_account get_encoded_vaa emitter_info vaa_timestamp vaa_payload vaa_hash
    vaa_digest bytes_equal subarray
fetch_encoded_account sdk e fits padding parsed known = (
  encoded_account e,
  fetch_encoded_lem e fits padding,
  refl,
  rw known refl,
  rw known refl,
  rw known refl,
  rw known refl,
  rw known refl,
)
