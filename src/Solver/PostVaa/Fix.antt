-- ===== src/Solver/PostVaa/Fix.antt =====
-- What the fix does to the data of a Secp256k1 instruction.

use example_liquidity_layer.Solver.PostVaa.{fix_from, unsafe_fix_sig_verify_ix}
use native.Mathlib.Nat.{mod-eq_of_lt}
use example_liquidity_layer.Prelude.{
  List, [], ap, append-nil, append_assoc, arith, length, length-append, length-map, le→leb, lt→ltb,
  map, ok, refl, suc, sym, ℕ, ◌*◌, ◌++◌, ◌+◌, ◌<◌, ◌∙◌, ◌∷◌, ◌≡◌,
}
use example_liquidity_layer.Buffer.{
  Bytes, be_bytes, be_value, le_bytes, le_value, read, read_uint_be, write_uint_be,
}
use example_liquidity_layer.Buffer.Chunks.{concat, overwrite, total_size}

-- The eleven bytes of one signature: three offsets, each with the index of an instruction, and a size.
pub record SignatureOffsets : Type 0 where
  pub signature_offset : ℕ × ℕ
  pub signature_index : ℕ
  pub eth_address_offset : ℕ × ℕ
  pub eth_address_index : ℕ
  pub message_offset : ℕ × ℕ
  pub message_size : ℕ × ℕ
  pub message_index : ℕ

abbrev pair_bytes : ℕ × ℕ → Bytes
pair_bytes (a, b) = a ∷ b ∷ []

abbrev pub offsets_bytes : SignatureOffsets → Bytes
offsets_bytes o = concat (
    pair_bytes o.signature_offset
    ∷ (o.signature_index ∷ [])
    ∷ pair_bytes o.eth_address_offset
    ∷ (o.eth_address_index ∷ [])
    ∷ (pair_bytes o.message_offset ++ pair_bytes o.message_size)
    ∷ (o.message_index ∷ [])
    ∷ [])

-- All three point at the instruction with this index.
abbrev pub point_at : ℕ → SignatureOffsets → SignatureOffsets
point_at index o = record {
  signature_offset = o.signature_offset;
  signature_index = index;
  eth_address_offset = o.eth_address_offset;
  eth_address_index = index;
  message_offset = o.message_offset;
  message_size = o.message_size;
  message_index = index;
}

-- The instruction's data: the count, the offsets, and what they point into.
abbrev pub secp_bytes : List SignatureOffsets → Bytes → Bytes
secp_bytes os rest = length os ∷ (concat (map offsets_bytes os) ++ rest)

write_byte :
    (before after : List Bytes) (old index offset : ℕ)
    → index < 256
    → total_size before ≡ offset
    → write_uint_be 1 (concat (before ++ (old ∷ []) ∷ after)) index offset
      ≡ ok (concat (before ++ (index ∷ []) ∷ after))
unfolding write_uint_be be_bytes le_bytes
write_byte before after old index offset h p = rw (lt→ltb index 256 h) (
    overwrite before after (old ∷ []) (be_bytes 1 index) offset p refl
    ∙ ap (λ x. ok (concat (before ++ (x ∷ []) ∷ after))) (mod-eq_of_lt h))

-- The fields of the first signature between a prefix and what follows.
abbrev fields : Bytes → SignatureOffsets → Bytes → List Bytes
fields pre o rest =
    pre
    ∷ pair_bytes o.signature_offset
    ∷ (o.signature_index ∷ [])
    ∷ pair_bytes o.eth_address_offset
    ∷ (o.eth_address_index ∷ [])
    ∷ (pair_bytes o.message_offset ++ pair_bytes o.message_size)
    ∷ (o.message_index ∷ [])
    ∷ rest
    ∷ []

fields_whole :
    (pre : Bytes) (o : SignatureOffsets) (rest : Bytes)
    → concat (fields pre o rest) ≡ (pre ++ offsets_bytes o) ++ rest
fields_whole pre o rest =
    ap (λ x. pre ++ (offsets_bytes o ++ x)) (append-nil rest)
    ∙ sym (append_assoc pre (offsets_bytes o) rest)

module _ (index : ℕ) (h : index < 256) where
  -- One turn of the loop.
  fix_one :
      (pre : Bytes) (o : SignatureOffsets) (rest : Bytes) (left i : ℕ)
      → length pre ≡ 1 + i * 11
      → fix_from (suc left) i ((pre ++ offsets_bytes o) ++ rest) index
        ≡ fix_from left (i + 1) ((pre ++ offsets_bytes (point_at index o)) ++ rest) index
  unfolding fix_from
  fix_one pre o rest left i p =
      let s = pair_bytes o.signature_offset in
      let e = pair_bytes o.eth_address_offset in
      let m = pair_bytes o.message_offset ++ pair_bytes o.message_size in
      let at = index ∷ [] in
      rw
        (
          sym (fields_whole pre o rest),
          write_byte (pre ∷ s ∷ [])
              (e ∷ (o.eth_address_index ∷ []) ∷ m ∷ (o.message_index ∷ []) ∷ rest ∷ [])
              o.signature_index index (3 + i * 11) h (omega arith),
          write_byte (pre ∷ s ∷ at ∷ e ∷ []) (m ∷ (o.message_index ∷ []) ∷ rest ∷ [])
              o.eth_address_index index (6 + i * 11) h (omega arith),
          write_byte (pre ∷ s ∷ at ∷ e ∷ at ∷ m ∷ []) (rest ∷ []) o.message_index index
              (11 + i * 11) h (omega arith),
          fields_whole pre (point_at index o) rest,
        )
        refl

  fix_from_lem :
      (os : List SignatureOffsets) (pre rest : Bytes) (i : ℕ)
      → length pre ≡ 1 + i * 11
      → fix_from (length os) i (pre ++ (concat (map offsets_bytes os) ++ rest)) index
        ≡ ok (pre ++ (concat (map offsets_bytes (map (point_at index) os)) ++ rest))
  fix_from_lem [] pre rest i p = unfold fix_from in refl
  fix_from_lem (o ∷ os) pre rest i p =
      let tail = concat (map offsets_bytes os) ++ rest in
      let fixed = concat (map offsets_bytes (map (point_at index) os)) ++ rest in
      rw (sym (append_assoc pre (offsets_bytes o) tail), fix_one pre o tail (length os) i p)
        (fix_from_lem os (pre ++ offsets_bytes (point_at index o)) rest (i + 1)
            (omega (arith, length-append pre (offsets_bytes (point_at index o))))
          ∙ ap ok (append_assoc pre (offsets_bytes (point_at index o)) fixed))

count_read : (n : ℕ) (rest : Bytes) → read_uint_be 1 (n ∷ rest) 0 ≡ ok n
unfolding read_uint_be read be_value le_value
count_read n rest = rw (le→leb 1 (suc (length rest)) (omega arith)) (ap ok (omega arith))

-- In the data of a Secp256k1 instruction, whose count of signatures fits its byte, the fix points every
-- signature at the instruction with the index that it is given, and changes nothing else.
pub unsafe_fix_sig_verify_ix_lem :
    (os : List SignatureOffsets) (rest : Bytes) (index : ℕ)
    → length os < 256
    → index < 256
    → unsafe_fix_sig_verify_ix (secp_bytes os rest) index
      ≡ ok (secp_bytes (map (point_at index) os) rest)
unfolding unsafe_fix_sig_verify_ix
unsafe_fix_sig_verify_ix_lem os rest index few h =
    rw (count_read (length os) (concat (map offsets_bytes os) ++ rest)) (
      fix_from_lem index h os (length os ∷ []) rest 0 refl
      ∙ ap (λ n. ok (n ∷ (concat (map offsets_bytes (map (point_at index) os)) ++ rest)))
          (sym (length-map (point_at index) os)))
