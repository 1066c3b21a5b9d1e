-- ===== src/Vaa.antt =====
-- VaaAccount (solana/ts/src/wormhole/index.ts): a VAA as the Core Bridge posts it or as the VAA verifier
-- keeps it. The functions of the Wormhole SDK are the fields of `Sdk`.
pub mod Posted
pub mod Encoded
mod Tests
use example_liquidity_layer.Prelude.{
  Bool, List, Option, Result, String, [], error, get_elem?, guard, if◌then◌else◌, length, none, not,
  ok, or_throw, range_error, some, throw, ℕ, ◌+◌, ◌∷◌, ◌>>=◌, ◌>>◌,
}
use example_liquidity_layer.Buffer.{Bytes, alloc, read_uint_le, set_at, subarray, write_uint_be}
use example_liquidity_layer.Uint64.{low_bytes}
use example_liquidity_layer.Auction.{PublicKey}
use example_liquidity_layer.AuctionHistory.{bytes_equal}

-- What `deserialize("Uint8Array", buf)` gives, as far as the program reads it.
pub record ParsedVaa : Type 0 where
  pub emitter_chain : String
  pub emitter_address : Bytes
  pub sequence : ℕ
  pub timestamp : ℕ
  pub payload : Bytes
  pub hash : Bytes

pub record Sdk : Type 0 where
  pub is_chain_id : ℕ → Bool
  pub to_chain_id : String → ℕ
  pub deserialize : Bytes → Result ParsedVaa
  pub keccak256 : Bytes → Bytes

pub record EncodedVaa : Type 0 where
  pub status : ℕ
  pub write_authority : PublicKey
  pub version : ℕ
  pub buf : Bytes

pub record PostedVaaV1 : Type 0 where
  pub consistency_level : ℕ
  pub timestamp : ℕ
  pub signature_set : PublicKey
  pub guardian_set_index : ℕ
  pub nonce : ℕ
  pub sequence : ℕ
  pub emitter_chain : ℕ
  pub emitter_address : List ℕ
  pub payload : Bytes

pub record EmitterInfo : Type 0 where
  pub chain : ℕ
  pub address : List ℕ
  pub sequence : ℕ

pub record VaaAccount : Type 0 where
  pub encoded_vaa : Option EncodedVaa
  pub posted_vaa_v1 : Option PostedVaaV1

-- The constructor.
unfoldable pub new_vaa_account : Option EncodedVaa → Option PostedVaaV1 → Result VaaAccount
new_vaa_account (some e) (some p) =
    throw (error "VaaAccount cannot have both encodedVaa and postedVaaV1")
new_vaa_account e p = ok (record { encoded_vaa = e; posted_vaa_v1 = p })

-- `data[offset]`; where it is undefined, a read that follows throws this error.
unfoldable pub byte_at : Bytes → ℕ → Result ℕ
byte_at buf offset = or_throw (get_elem? buf offset) range_error

abbrev pub encoded_discriminator : Bytes
encoded_discriminator = 226 ∷ 101 ∷ 163 ∷ 4 ∷ 133 ∷ 160 ∷ 84 ∷ 245 ∷ []

abbrev pub posted_discriminator : Bytes
posted_discriminator = 118 ∷ 97 ∷ 97 ∷ 1 ∷ []

unfoldable pub fetch_encoded : Bytes → Result VaaAccount
fetch_encoded buf = do
  status ← byte_at buf 8
  let write_authority = subarray buf 9 41
  version ← byte_at buf 41
  buf_len ← read_uint_le 4 buf 42
  let vaa = subarray buf 46 (46 + buf_len)
  new_vaa_account
      (some (record {
        status = status;
        write_authority = write_authority;
        version = version;
        buf = vaa;
      }))
      none

module _ (sdk : Sdk) where
  unfoldable pub fetch_posted : Bytes → Result VaaAccount
  fetch_posted buf = do
    consistency_level ← byte_at buf 4
    timestamp ← read_uint_le 4 buf 5
    let signature_set = subarray buf 9 41
    guardian_set_index ← read_uint_le 4 buf 41
    nonce ← read_uint_le 4 buf 45
    sequence ← read_uint_le 8 buf 49
    emitter_chain ← read_uint_le 2 buf 57
    guard (sdk.is_chain_id emitter_chain) (error "invalid emitter chain")
    let emitter_address = subarray buf 59 91
    payload_len ← read_uint_le 4 buf 91
    let payload = subarray buf 95 (95 + payload_len)
    new_vaa_account none (
        some (record {
          consistency_level = consistency_level;
          timestamp = timestamp;
          signature_set = signature_set;
          guardian_set_index = guardian_set_index;
          nonce = nonce;
          sequence = sequence;
          emitter_chain = emitter_chain;
          emitter_address = emitter_address;
          payload = payload;
        }))

  unfoldable pub fetch_vaa_account : Option Bytes → Result VaaAccount
  unfolding fetch_posted
  fetch_vaa_account account = do
    buf ← or_throw account (error "no VAA account info found")
    let disc = subarray buf 0 8
    if bytes_equal disc encoded_discriminator
        then fetch_encoded buf
        else if bytes_equal (subarray disc 0 4) posted_discriminator
        then fetch_posted buf
        else throw (error "invalid VAA account data")

  unfoldable pub emitter_info : VaaAccount → Result EmitterInfo
  emitter_info a = elim a.encoded_vaa [
    | some e ↦ do
      parsed ← sdk.deserialize e.buf
      ok (record {
        chain = sdk.to_chain_id parsed.emitter_chain;
        address = parsed.emitter_address;
        sequence = parsed.sequence;
      })
    | none ↦ elim a.posted_vaa_v1 [
      | some p ↦
          ok
            (record { chain = p.emitter_chain; address = p.emitter_address; sequence = p.sequence })
      | none ↦ throw (error "impossible: emitterInfo() failed")
    ]
  ]

  unfoldable pub vaa_timestamp : VaaAccount → Result ℕ
  vaa_timestamp a = elim a.encoded_vaa [
    | some e ↦ do parsed ← sdk.deserialize e.buf; ok parsed.timestamp
    | none ↦ elim a.posted_vaa_v1 [
      | some p ↦ ok p.timestamp
      | none ↦ throw (error "impossible: timestamp() failed")
    ]
  ]

  unfoldable pub vaa_payload : VaaAccount → Result Bytes
  vaa_payload a = elim a.encoded_vaa [
    | some e ↦ do parsed ← sdk.deserialize e.buf; ok parsed.payload
    | none ↦ elim a.posted_vaa_v1 [
      | some p ↦ ok p.payload
      | none ↦ throw (error "impossible: payload() failed")
    ]
  ]

  -- The body of a posted VAA, whose hash is its message's.
  unfoldable pub posted_hash : PostedVaaV1 → Result Bytes
  posted_hash p = do
    buf ← write_uint_be 4 (alloc (51 + length p.payload)) p.timestamp 0
    buf ← write_uint_be 4 buf p.nonce 4
    buf ← write_uint_be 2 buf p.emitter_chain 8
    buf ← set_at buf (low_bytes p.emitter_address) 10
    buf ← write_uint_be 8 buf p.sequence 42
    buf ← write_uint_be 1 buf p.consistency_level 50
    buf ← set_at buf p.payload 51
    ok (sdk.keccak256 buf)

  unfoldable pub vaa_hash : VaaAccount → Result Bytes
  unfolding posted_hash
  vaa_hash a = elim a.encoded_vaa [
    | some e ↦ do parsed ← sdk.deserialize e.buf; ok parsed.hash
    | none ↦ elim a.posted_vaa_v1 [
      | some p ↦ posted_hash p
      | none ↦ throw (error "impossible: hash() failed")
    ]
  ]

  unfoldable pub vaa_digest : VaaAccount → Result Bytes
  unfolding vaa_hash
  vaa_digest a = do hash ← vaa_hash a; ok (sdk.keccak256 hash)

unfoldable pub get_encoded_vaa : VaaAccount → Result EncodedVaa
get_encoded_vaa a = or_throw a.encoded_vaa (error "VaaAccount does not have encodedVaa")

unfoldable pub get_posted_vaa_v1 : VaaAccount → Result PostedVaaV1
get_posted_vaa_v1 a = or_throw a.posted_vaa_v1 (error "VaaAccount does not have postedVaaV1")
