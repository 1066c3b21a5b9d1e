-- ===== src/AuctionHistory/Misread.antt =====
-- What is read of an entry that concerns another asset.

use example_liquidity_layer.Buffer.Laws.{le_value-le_bytes, length-le_bytes}
use example_liquidity_layer.Uint64.{bigint}
use example_liquidity_layer.Uint64.Laws.{uint64_to_bn_lem}
use example_liquidity_layer.AuctionHistory.Entries.{entry_sizes, read_entry_lem}
use example_liquidity_layer.Prelude.{
  List, [], ap, append-nil, arith, length, ok, refl, some, sym, ℕ, ◌%◌, ◌*◌, ◌++◌, ◌+◌, ◌/◌, ◌<◌,
  ◌^◌, ◌∙◌, ◌∷◌, ◌≡◌,
}
use example_liquidity_layer.Prelude.Int.{pos}
use example_liquidity_layer.Buffer.{Bytes, le_bytes, le_value, read_uint_le}
use example_liquidity_layer.Buffer.Chunks.{
  byte_chunk, concat, concat-append, length-concat, read_chunk,
}
use example_liquidity_layer.AuctionHistory.{
  is_set, read_bn, read_destination_asset_info, read_entry,
}
use example_liquidity_layer.AuctionHistory.Layout.{StoredEntry, StoredFits, as_entry, entry_chunks}

-- The last field of such an entry: a byte that is 1, the bump and the amount.
abbrev pub destination_bytes : ℕ → ℕ → Bytes
destination_bytes bump amount_out = 1 ∷ bump ∷ le_bytes 8 amount_out

-- The eighth byte of an amount.
abbrev top_byte : ℕ → ℕ
top_byte a = a / 256 / 256 / 256 / 256 / 256 / 256 / 256 % 256

-- The last field cut where it is read, and what follows.
abbrev tail : ℕ → ℕ → Bytes → List Bytes
tail bump a post = (1 ∷ []) ∷ (bump ∷ le_bytes 7 a) ∷ (top_byte a ∷ post) ∷ []

abbrev with_tail : Bytes → StoredEntry → ℕ → ℕ → Bytes → List Bytes
with_tail pre s bump a post = pre ∷ entry_chunks s ++ tail bump a post

tail_whole :
    (bump a : ℕ) (post : Bytes)
    → concat (destination_bytes bump a ∷ post ∷ []) ≡ concat (tail bump a post)
unfolding le_bytes
tail_whole bump a post = refl

entry_whole :
    (pre : Bytes) (s : StoredEntry) (bump a : ℕ) (post : Bytes)
    → pre ++ (concat (entry_chunks s ++ destination_bytes bump a ∷ []) ++ post)
      ≡ concat (with_tail pre s bump a post)
entry_whole pre s bump a post =
    let last = destination_bytes bump a in
    ap (◌++◌ pre) (
      ap (◌++◌ (concat (entry_chunks s ++ last ∷ []))) (sym (append-nil post))
      ∙ sym (concat-append (entry_chunks s ++ last ∷ []) (post ∷ []))
      ∙ concat-append (entry_chunks s) (last ∷ post ∷ [])
      ∙ ap (◌++◌ (concat (entry_chunks s))) (tail_whole bump a post)
      ∙ sym (concat-append (entry_chunks s) (tail bump a post)))

read_destination :
    (pre : Bytes) (s : StoredEntry)
    → StoredFits s
    → (bump a : ℕ) (post : Bytes) (offset : ℕ) → bump < 256
    → a < 2 ^ 56
    → length pre ≡ offset
    → read_destination_asset_info (concat (with_tail pre s bump a post)) (offset + 149)
      ≡ ok (some (record { custody_token_bump = bump; amount_out = pos (bump + 256 * a) }))
unfolding read_destination_asset_info is_set read_uint_le read_bn le_value
read_destination pre s fits bump a post offset hb ha p =
    let cs = with_tail pre s bump a post in
    let front = entry_chunks s in
    let apart = pre ∷ front ++ (1 ∷ []) ∷ (bump ∷ []) ∷ le_bytes 7 a ∷ (top_byte a ∷ post) ∷ [] in
    let sizes = entry_sizes pre s fits in
    rw
      (
        byte_chunk cs 14 1 [] (offset + 149) refl (omega arith),
        read_chunk apart 15 (bump ∷ []) 1 (offset + 149 + 1) refl (omega arith) refl,
        read_chunk cs 15 (bump ∷ le_bytes 7 a) 8 (offset + 149 + 1) refl (omega arith)
            (omega (arith, length-le_bytes 7 a)),
        le_value-le_bytes 7 a (omega arith),
        (uint64_to_bn_lem (bigint (pos (bump + 256 * a))) (bump + 256 * a) refl (omega arith)).1,
      )
      (ap (λ k. ok (some (record { custody_token_bump = k; amount_out = pos (bump + 256 * a) })))
        (omega arith))

-- The amount of an entry that concerns another asset is read from the bump on: an amount below 2 ^ 56
-- comes out as 256 times the amount plus the bump. What is read next is read nine bytes too early.
pub read_entry_destination :
    (pre : Bytes) (s : StoredEntry) (bump amount_out : ℕ) (post : Bytes) (offset : ℕ)
    → StoredFits s
    → bump < 256
    → amount_out < 2 ^ 56
    → length pre ≡ offset
    → (read_entry
          (pre ++ (concat (entry_chunks s ++ destination_bytes bump amount_out ∷ []) ++ post))
          offset
        ≡ ok (
          as_entry s (
              some
                (record { custody_token_bump = bump; amount_out = pos (bump + 256 * amount_out) })),
          offset + 150,
        ))
      × (length (concat (entry_chunks s ++ destination_bytes bump amount_out ∷ [])) ≡ 150 + 9)
unfolding read_destination_asset_info is_set
read_entry_destination pre s bump a post offset fits hb ha p =
    let sizes = entry_sizes pre s fits in
    (
      rw (entry_whole pre s bump a post) (
          read_entry_lem pre s fits (tail bump a post) offset
            (some (record { custody_token_bump = bump; amount_out = pos (bump + 256 * a) })) p
            (read_destination pre s fits bump a post offset hb ha p)),
      omega (
        arith,
        length-concat (entry_chunks s ++ destination_bytes bump a ∷ []),
        length-le_bytes 8 a,
        sizes,
      ),
    )
