-- ===== src/Cctp/Layout.antt =====
-- The fields of an encoded message, and what `encodeCctp` writes.
use native.Mathlib.Nat.{mod-eq_of_lt}
use example_liquidity_layer.Prelude.{
  All, List, [], ap, arith, length, ok, refl, ℕ, ◌<◌, ◌^◌, ◌∷◌, ◌≡◌,
}
use example_liquidity_layer.Prelude.Int.{pos}
use example_liquidity_layer.Buffer.{Bytes, IsByte, be_bytes}
use example_liquidity_layer.Buffer.Laws.{length-be_bytes}
use example_liquidity_layer.Buffer.Chunks.{alloc_zero, concat, set_chunk, write_chunk}
use example_liquidity_layer.Uint64.{low_bytes, write_bigint64_be}
use example_liquidity_layer.Cctp.{Cctp, encode_cctp}

-- 32 bytes.
abbrev pub IsAddress : List ℕ → Type 0
IsAddress a = (length a ≡ 32) × All IsByte a

-- The fields are in the range of their widths.
pub record Fits (c : Cctp) : Type 0 where
  pub nonce_value : ℕ
  pub version_fits : c.version < 2 ^ 32
  pub source_fits : c.source_domain < 2 ^ 32
  pub destination_fits : c.destination_domain < 2 ^ 32
  pub nonce_is : c.nonce ≡ pos nonce_value
  pub nonce_fits : nonce_value < 2 ^ 64
  pub sender_is : IsAddress c.sender
  pub recipient_is : IsAddress c.recipient
  pub caller_is : IsAddress c.target_caller

pub low_bytes-eq : (xs : List ℕ) → All IsByte xs → low_bytes xs ≡ xs
unfolding low_bytes
low_bytes-eq [] h = refl
low_bytes-eq (x ∷ xs) h = rw (low_bytes-eq xs h.1, mod-eq_of_lt h.0)

abbrev pub cctp_chunks : Cctp → ℕ → List Bytes
cctp_chunks c n =
    be_bytes 4 c.version
    ∷ be_bytes 4 c.source_domain
    ∷ be_bytes 4 c.destination_domain
    ∷ be_bytes 8 n
    ∷ c.sender
    ∷ c.recipient
    ∷ c.target_caller
    ∷ []

module _ (c : Cctp) (fits : Fits c) where
  -- The header is 116 bytes.
  pub chunk_sizes :
      (length (be_bytes 4 c.version) ≡ 4)
      × (length (be_bytes 4 c.source_domain) ≡ 4)
      × (length (be_bytes 4 c.destination_domain) ≡ 4)
      × (length (be_bytes 8 fits.nonce_value) ≡ 8)
      × (length c.sender ≡ 32)
      × (length c.recipient ≡ 32)
      × (length c.target_caller ≡ 32)
  chunk_sizes = (
    length-be_bytes 4 c.version,
    length-be_bytes 4 c.source_domain,
    length-be_bytes 4 c.destination_domain,
    length-be_bytes 8 fits.nonce_value,
    fits.sender_is.0,
    fits.recipient_is.0,
    fits.caller_is.0,
  )

  -- `encodeCctp` writes the fields in a row.
  pub encode_cctp_lem : encode_cctp c ≡ ok (concat (cctp_chunks c fits.nonce_value))
  unfolding encode_cctp write_bigint64_be
  encode_cctp_lem =
      let n : ℕ = fits.nonce_value in
      let a = be_bytes 4 c.version in
      let b = be_bytes 4 c.source_domain in
      let d = be_bytes 4 c.destination_domain in
      let e = be_bytes 8 n in
      let sizes = chunk_sizes in
      rw
        (
          fits.nonce_is,
          low_bytes-eq c.sender fits.sender_is.1,
          low_bytes-eq c.recipient fits.recipient_is.1,
          low_bytes-eq c.target_caller fits.caller_is.1,
          write_chunk [] 4 c.version 116 112 0 refl (omega arith)
              (omega (arith, fits.version_fits)),
          write_chunk (a ∷ []) 4 c.source_domain 112 108 4 (omega arith) (omega arith)
              (omega (arith, fits.source_fits)),
          write_chunk (a ∷ b ∷ []) 4 c.destination_domain 108 104 8 (omega arith) (omega arith)
              (omega (arith, fits.destination_fits)),
          write_chunk (a ∷ b ∷ d ∷ []) 8 n 104 96 12 (omega arith) (omega arith)
              (omega (arith, fits.nonce_fits)),
          set_chunk (a ∷ b ∷ d ∷ e ∷ []) c.sender 96 64 20 (omega arith) (omega arith),
          set_chunk (a ∷ b ∷ d ∷ e ∷ c.sender ∷ []) c.recipient 64 32 52 (omega arith)
              (omega arith),
          set_chunk (a ∷ b ∷ d ∷ e ∷ c.sender ∷ c.recipient ∷ []) c.target_caller 32 0 84
              (omega arith) (omega arith),
        )
        (ap ok (alloc_zero (concat (cctp_chunks c n))))
