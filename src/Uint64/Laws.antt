-- ===== src/Uint64/Laws.antt =====
-- Which numbers the conversions take, and what they give.
use example_liquidity_layer.Buffer.Laws.{be_value-be_bytes, write_uint_be_next}
use example_liquidity_layer.Prelude.{
  Bool-cases, Error, Option, [], ap, append-nil, arith, error, inl, inr, le→ltb, ltb, lt→ltb, none,
  ok, range_error, refl, some, throw, ℕ, ◌+◌, ◌<◌, ◌^◌, ◌∙◌, ◌≡◌, ◌≤◌,
}
use example_liquidity_layer.Prelude.Int.{negsuc, pos, ℤ}
use example_liquidity_layer.Buffer.{Bytes, alloc, be_bytes, write_uint_be}
use example_liquidity_layer.Uint64.{
  Uint64, bigint, bn, fraction, magnitude, number, uint64_to_bigint, uint64_to_bn,
  write_bigint64_be, write_uint64_be,
}

-- The integer that a form stands for, if it is one.
abbrev pub meaning : Uint64 → Option ℤ
meaning (bigint v) = some v
meaning (bn v) = some v
meaning (number v) = some v
meaning fraction = none

pub uint64_to_bigint_u64 :
    (x : Uint64) (v : ℕ) → meaning x ≡ some (pos v) → v < 2 ^ 64 → uint64_to_bigint x ≡ ok (pos v)
unfolding uint64_to_bigint
uint64_to_bigint_u64 (bigint w) v e h = cc
uint64_to_bigint_u64 (number w) v e h = cc
uint64_to_bigint_u64 fraction v e h = cc
uint64_to_bigint_u64 (bn w) v e h =
    let same : w ≡ pos v = cc in rw (same, lt→ltb (v + 0) (2 ^ 64) (omega arith))

-- Every form of a number below 2 ^ 64 converts to the BN of that number, through the eight bytes,
-- highest first, that `writeUint64BE` leaves in a fresh buffer.
pub uint64_to_bn_lem :
    (x : Uint64) (v : ℕ)
    → meaning x ≡ some (pos v)
    → v < 2 ^ 64
    → (write_uint64_be (alloc 8) x none ≡ ok (be_bytes 8 v)) × (uint64_to_bn x ≡ ok (pos v))
uint64_to_bn_lem x v e h = (
  written,
  unfold uint64_to_bn in rw written (ap (λ n. ok (pos n)) (be_value-be_bytes 8 v (omega arith))),
)
  where
    fresh : write_uint_be 8 (alloc 8) v 0 ≡ ok (be_bytes 8 v)
    fresh =
        write_uint_be_next [] 8 v 8 0 0 refl refl (omega arith)
        ∙ unfold alloc in ap ok (append-nil (be_bytes 8 v))

    written : write_uint64_be (alloc 8) x none ≡ ok (be_bytes 8 v)
    written = unfold write_uint64_be write_bigint64_be in rw (uint64_to_bigint_u64 x v e h) fresh

write_bigint64_be_refuses :
    (buf : Bytes) (w : ℤ) (offset : ℕ)
    → ((v : ℕ) → w ≡ pos v → 2 ^ 64 ≤ v)
    → write_bigint64_be buf w offset ≡ throw range_error
unfolding write_bigint64_be write_uint_be
write_bigint64_be_refuses buf (negsuc n) offset h = refl
write_bigint64_be_refuses buf (pos n) offset h = rw (le→ltb n (256 ^ 8) (h n refl))

-- A negative number, one from 2 ^ 64 on and a fraction are refused, in whatever form they come.
pub uint64_to_bn_refuses :
    (x : Uint64)
    → ((v : ℕ) → meaning x ≡ some (pos v) → 2 ^ 64 ≤ v)
    → (e : Error) × (uint64_to_bn x ≡ throw e)
unfolding uint64_to_bn write_uint64_be uint64_to_bigint
uint64_to_bn_refuses (bigint w) h =
    (range_error, rw (write_bigint64_be_refuses (alloc 8) w 0 (λ v e. h v (ap some e))))
uint64_to_bn_refuses (number w) h =
    (range_error, rw (write_bigint64_be_refuses (alloc 8) w 0 (λ v e. h v (ap some e))))
uint64_to_bn_refuses fraction h = (range_error, refl)
uint64_to_bn_refuses (bn w) h = elim (Bool-cases (ltb (magnitude w) (2 ^ 64))) [
  | inl fits ↦
      (range_error, rw (fits, write_bigint64_be_refuses (alloc 8) w 0 (λ v e. h v (ap some e))))
  | inr big ↦ (error "Invalid uint64", rw big)
]
