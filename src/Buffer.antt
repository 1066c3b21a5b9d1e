-- ===== src/Buffer.antt =====
-- Node's Buffer and Uint8Array, as far as the program uses them: a list of bytes.
pub mod Laws
pub mod Chunks
use mathlib.Core.List.{reverse}
use example_liquidity_layer.Prelude.{
  List, Result, [], drop, guard, if◌then◌else◌, leb, length, ltb, ok, range_error, replicate, suc,
  take, throw, zero, ℕ, ◌%◌, ◌*◌, ◌++◌, ◌+◌, ◌-◌, ◌/◌, ◌<◌, ◌^◌, ◌∷◌, ◌>>=◌, ◌>>◌,
}

abbrev pub Bytes : Type 0
Bytes = List ℕ

abbrev pub IsByte : ℕ → Type 0
IsByte b = b < 256

-- The `n` bytes of `v`, lowest first, and back.
unfoldable pub le_bytes : ℕ → ℕ → Bytes
le_bytes zero v = []
le_bytes (suc n) v = (v % 256) ∷ le_bytes n (v / 256)

unfoldable pub le_value : Bytes → ℕ
le_value [] = 0
le_value (b ∷ bs) = b + 256 * le_value bs

unfoldable pub be_bytes : ℕ → ℕ → Bytes
unfolding le_bytes
be_bytes n v = reverse (le_bytes n v)

unfoldable pub be_value : Bytes → ℕ
unfolding le_value
be_value bs = le_value (reverse bs)

-- `buf.subarray(start, end)`: both ends are clamped.
unfoldable pub subarray : Bytes → ℕ → ℕ → Bytes
subarray buf start end = take (end - start) (drop start buf)

-- The `n` bytes at an offset; a read past the end is a RangeError.
unfoldable pub read : ℕ → Bytes → ℕ → Result Bytes
read n buf offset =
    if leb (offset + n) (length buf) then ok (take n (drop offset buf)) else throw range_error

-- `readUInt8`, `readUInt16BE`, `readUInt32BE`, `readBigUInt64BE`: n = 1, 2, 4, 8.
unfoldable pub read_uint_be : ℕ → Bytes → ℕ → Result ℕ
unfolding read be_value
read_uint_be n buf offset = do bs ← read n buf offset; ok (be_value bs)

unfoldable pub read_uint_le : ℕ → Bytes → ℕ → Result ℕ
unfolding read le_value
read_uint_le n buf offset = do bs ← read n buf offset; ok (le_value bs)

-- `Buffer.alloc(n)`
unfoldable pub alloc : ℕ → Bytes
alloc n = replicate n 0

-- `buf.set(bytes, offset)`; a write past the end is a RangeError.
unfoldable pub set_at : Bytes → Bytes → ℕ → Result Bytes
set_at buf bs offset =
    if leb (offset + length bs) (length buf)
    then ok (take offset buf ++ (bs ++ drop (offset + length bs) buf))
    else throw range_error

-- `writeUInt32BE` and its kin; a value that does not fit is a RangeError too.
unfoldable pub write_uint_be : ℕ → Bytes → ℕ → ℕ → Result Bytes
unfolding set_at be_bytes
write_uint_be n buf v offset = do
  guard (ltb v (256 ^ n)) range_error
  set_at buf (be_bytes n v) offset
