-- ===== src/Uint64/Tests.antt =====
-- Runs of the conversions, and their theorems at concrete numbers.
use example_liquidity_layer.Prelude.{[], none, ok, refl, ◌∷◌, ◌≡◌}
use example_liquidity_layer.Prelude.Int.{pos}
use example_liquidity_layer.Buffer.{alloc, be_bytes, le_bytes, set_at, write_uint_be}
use example_liquidity_layer.Uint64.{bigint, uint64_to_bigint, write_bigint64_be, write_uint64_be}

bytes_of_258 :
    write_uint64_be (alloc 8) (bigint (pos 258)) none ≡ ok (0 ∷ 0 ∷ 0 ∷ 0 ∷ 0 ∷ 0 ∷ 1 ∷ 2 ∷ [])
unfolding write_uint64_be write_bigint64_be write_uint_be set_at be_bytes le_bytes alloc
    uint64_to_bigint
bytes_of_258 = refl
