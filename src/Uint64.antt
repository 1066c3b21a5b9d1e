-- ===== src/Uint64.antt =====
-- solana/ts/src/common/index.ts: the three forms in which the SDK takes a 64-bit number, and the
-- three in which it takes a hash.
pub mod Laws
mod Tests
use example_liquidity_layer.Prelude.{
  Bool, List, Option, Result, [], error, if◌then◌else◌, ltb, none, ok, range_error, some, throw,
  true, ℕ, ◌%◌, ◌+◌, ◌^◌, ◌∷◌, ◌>>=◌, ◌>>◌,
}
use example_liquidity_layer.Prelude.Int.{neg_part, negsuc, pos, pos_part, ℤ}
use example_liquidity_layer.Buffer.{Bytes, alloc, be_value, write_uint_be}

-- `bigint | BN | number`. A BN is read by its magnitude and sign; a number that is no integer is
-- `fraction`, and only its conversion is looked at.
pub data Uint64 : Type 0 where
  bigint : ℤ → Uint64
  bn : ℤ → Uint64
  number : ℤ → Uint64
  fraction : Uint64

-- `typeof value` is never another type here, so the test passes at every form.
unfoldable pub is_uint64 : Uint64 → Bool
is_uint64 (bigint v) = true
is_uint64 (bn v) = true
is_uint64 (number v) = true
is_uint64 fraction = true

-- The magnitude of a BN, which its `byteLength` measures.
abbrev pub magnitude : ℤ → ℕ
magnitude v = pos_part v + neg_part v

-- `byteLength() <= 8` says that the magnitude is below 2 ^ 64; `BigInt` of a fraction is a RangeError.
unfoldable pub uint64_to_bigint : Uint64 → Result ℤ
uint64_to_bigint (bigint v) = ok v
uint64_to_bigint (number v) = ok v
uint64_to_bigint fraction = throw range_error
uint64_to_bigint (bn v) =
    if ltb (magnitude v) (2 ^ 64) then ok v else throw (error "Invalid uint64")

-- `buf.writeBigUInt64BE(value, offset)`: a negative value is a RangeError.
unfoldable pub write_bigint64_be : Bytes → ℤ → ℕ → Result Bytes
write_bigint64_be buf (pos v) offset = write_uint_be 8 buf v offset
write_bigint64_be buf (negsuc v) offset = throw range_error

-- `offset` is 0 where it is left out.
unfoldable pub write_uint64_be : Bytes → Uint64 → Option ℕ → Result Bytes
write_uint64_be buf value offset = do
  v ← uint64_to_bigint value
  write_bigint64_be buf v (elim offset [ none ↦ 0 | some o ↦ o ])

-- `new BN(buf)` reads the eight bytes, highest first.
unfoldable pub uint64_to_bn : Uint64 → Result ℤ
uint64_to_bn value = do buf ← write_uint64_be (alloc 8) value none; ok (pos (be_value buf))

-- `Array<number> | Buffer | Uint8Array`; `Uint8Array.from` keeps the low byte of each number.
pub data VaaHash : Type 0 where
  array : List ℕ → VaaHash
  buffer : Bytes → VaaHash
  uint8_array : Bytes → VaaHash

unfoldable pub low_bytes : List ℕ → Bytes
low_bytes [] = []
low_bytes (x ∷ xs) = (x % 256) ∷ low_bytes xs

unfoldable pub vaa_hash_to_uint8_array : VaaHash → Bytes
unfolding low_bytes
vaa_hash_to_uint8_array (array h) = low_bytes h
vaa_hash_to_uint8_array (buffer h) = low_bytes h
vaa_hash_to_uint8_array (uint8_array h) = h

unfoldable pub vaa_hash_to_buffer : VaaHash → Bytes
unfolding low_bytes vaa_hash_to_uint8_array
vaa_hash_to_buffer (buffer h) = h
vaa_hash_to_buffer (array h) = low_bytes (vaa_hash_to_uint8_array (array h))
vaa_hash_to_buffer (uint8_array h) = low_bytes (vaa_hash_to_uint8_array (uint8_array h))

unfoldable pub vaa_hash_to_array : VaaHash → List ℕ
unfolding vaa_hash_to_uint8_array
vaa_hash_to_array (array h) = h
vaa_hash_to_array (buffer h) = vaa_hash_to_uint8_array (buffer h)
vaa_hash_to_array (uint8_array h) = vaa_hash_to_uint8_array (uint8_array h)
