-- ===== src/AuctionHistory/Entries.antt =====
-- What is read of an account that the Rust program wrote.
use example_liquidity_layer.Prelude.{
  All, List, Option, [], ap, append-nil, append_assoc, arith, get_elem?, length, length-append, map,
  none, ok, refl, some, sym, ℕ, ◌++◌, ◌+◌, ◌<◌, ◌^◌, ◌∙◌, ◌∷◌, ◌≡◌,
}
use example_liquidity_layer.Prelude.Int.{pos}
use example_liquidity_layer.Buffer.{Bytes, alloc, le_bytes}
use example_liquidity_layer.Buffer.Laws.{length-le_bytes}
use example_liquidity_layer.Buffer.Chunks.{
  byte_chunk, concat, concat-append, length-concat, read_uint_le_chunk, size_before, subarray_chunk,
}
use example_liquidity_layer.Uint64.{bigint}
use example_liquidity_layer.Uint64.Laws.{uint64_to_bn_lem}
use example_liquidity_layer.Auction.{AuctionDestinationAssetInfo}
use example_liquidity_layer.AuctionHistory.{
  bytes_equal, fetch_auction_history, history_discriminator, is_set, read_bn,
  read_destination_asset_info, read_entries, read_entry, read_header, read_timestamp,
}
use example_liquidity_layer.AuctionHistory.Layout.{
  HistoryFits, StoredEntry, StoredFits, StoredHistory, account_bytes, account_chunks, as_entry,
  as_header, as_history, entries_bytes, entry_bytes, entry_chunks, fresh, kept, stored_entries,
}

pub read_bn_chunk :
    (cs : List Bytes) (i v offset : ℕ)
    → get_elem? cs i ≡ some (le_bytes 8 v)
    → size_before cs i ≡ offset
    → v < 256 ^ 8
    → read_bn (concat cs) offset ≡ ok (pos v)
unfolding read_bn
read_bn_chunk cs i v offset e p h =
    rw (read_uint_le_chunk cs i 8 v offset e p h)
      (uint64_to_bn_lem (bigint (pos v)) v refl (omega arith)).1

module _ (pre : Bytes) (s : StoredEntry) (fits : StoredFits s) where
  pub entry_sizes :
      (length s.vaa_hash ≡ 32)
      × (length (le_bytes 4 s.vaa_timestamp) ≡ 4)
      × (length (le_bytes 4 s.config_id) ≡ 4)
      × (length (le_bytes 1 s.custody_token_bump) ≡ 1)
      × (length (le_bytes 8 s.vaa_sequence) ≡ 8)
      × (length (le_bytes 2 s.source_chain) ≡ 2)
      × (length s.best_offer_token ≡ 32)
      × (length s.initial_offer_token ≡ 32)
      × (length (le_bytes 8 s.start_slot) ≡ 8)
      × (length (le_bytes 8 s.amount_in) ≡ 8)
      × (length (le_bytes 8 s.security_deposit) ≡ 8)
      × (length (le_bytes 8 s.offer_price) ≡ 8)
      × (length (le_bytes 2 s.redeemer_message_len) ≡ 2)
  entry_sizes = (
    fits.hash_is,
    length-le_bytes 4 s.vaa_timestamp,
    length-le_bytes 4 s.config_id,
    length-le_bytes 1 s.custody_token_bump,
    length-le_bytes 8 s.vaa_sequence,
    length-le_bytes 2 s.source_chain,
    fits.best_is,
    fits.initial_is,
    length-le_bytes 8 s.start_slot,
    length-le_bytes 8 s.amount_in,
    length-le_bytes 8 s.security_deposit,
    length-le_bytes 8 s.offer_price,
    length-le_bytes 2 s.redeemer_message_len,
  )

  -- The entry at an offset, whatever its destination info is read as.
  pub read_entry_lem :
      (post : List Bytes) (offset : ℕ) (destination : Option AuctionDestinationAssetInfo)
      → length pre ≡ offset
      → read_destination_asset_info (concat (pre ∷ entry_chunks s ++ post)) (offset + 149)
        ≡ ok destination
      → read_entry (concat (pre ∷ entry_chunks s ++ post)) offset
        ≡ ok (as_entry s destination, offset + 150)
  unfolding read_entry
  read_entry_lem post offset destination p e =
      let cs = pre ∷ entry_chunks s ++ post in
      let sizes = entry_sizes in
      rw
        (
          subarray_chunk cs 1 s.vaa_hash offset (offset + 32) refl (omega arith) (omega arith),
          read_uint_le_chunk cs 2 4 s.vaa_timestamp (offset + 32) refl (omega arith)
              (omega (arith, fits.timestamp_fits)),
          read_uint_le_chunk cs 3 4 s.config_id (offset + 36) refl (omega arith)
              (omega (arith, fits.config_fits)),
          read_uint_le_chunk cs 4 1 s.custody_token_bump (offset + 40) refl (omega arith)
              (omega (arith, fits.bump_fits)),
          read_bn_chunk cs 5 s.vaa_sequence (offset + 41) refl (omega arith)
              (omega (arith, fits.sequence_fits)),
          read_uint_le_chunk cs 6 2 s.source_chain (offset + 49) refl (omega arith)
              (omega (arith, fits.chain_fits)),
          subarray_chunk cs 7 s.best_offer_token (offset + 51) (offset + 83) refl (omega arith)
              (omega arith),
          subarray_chunk cs 8 s.initial_offer_token (offset + 83) (offset + 115) refl (omega arith)
              (omega arith),
          read_bn_chunk cs 9 s.start_slot (offset + 115) refl (omega arith)
              (omega (arith, fits.start_fits)),
          read_bn_chunk cs 10 s.amount_in (offset + 123) refl (omega arith)
              (omega (arith, fits.amount_fits)),
          read_bn_chunk cs 11 s.security_deposit (offset + 131) refl (omega arith)
              (omega (arith, fits.deposit_fits)),
          read_bn_chunk cs 12 s.offer_price (offset + 139) refl (omega arith)
              (omega (arith, fits.price_fits)),
          read_uint_le_chunk cs 13 2 s.redeemer_message_len (offset + 147) refl (omega arith)
              (omega (arith, fits.len_fits)),
          e,
        )
        refl

  -- An entry that ends in a zero byte has no destination info.
  read_entry-none :
      (post : Bytes) (offset : ℕ)
      → length pre ≡ offset
      → read_entry (pre ++ (entry_bytes s ++ post)) offset ≡ ok (as_entry s none, offset + 150)
  unfolding read_destination_asset_info is_set
  read_entry-none post offset p =
      let ends = (0 ∷ []) ∷ post ∷ [] in
      let cs = pre ∷ entry_chunks s ++ ends in
      let sizes = entry_sizes in
      let whole : pre ++ (entry_bytes s ++ post) ≡ concat cs = ap (◌++◌ pre) (
        ap (◌++◌ (entry_bytes s)) (sym (append-nil post))
        ∙ sym (concat-append (entry_chunks s ++ (0 ∷ []) ∷ []) (post ∷ []))) in
      rw whole (
        read_entry_lem ends offset none p
          (rw (byte_chunk cs 14 0 [] (offset + 149) refl (omega arith)) refl))

  length-entry_bytes : length (entry_bytes s) ≡ 150
  length-entry_bytes = omega (arith, length-concat (entry_chunks s ++ (0 ∷ []) ∷ []), entry_sizes)

read_entries_lem :
    (pre : Bytes) (ss : List StoredEntry) (post : Bytes) (offset : ℕ)
    → All StoredFits ss
    → length pre ≡ offset
    → read_entries (length ss) (pre ++ (entries_bytes ss ++ post)) offset
      ≡ ok (map (λ s. as_entry s none) ss)
unfolding read_entries
read_entries_lem pre [] post offset fits p = refl
read_entries_lem pre (s ∷ ss) post offset fits p =
    let rest = entries_bytes ss ++ post in
    let first : pre ++ (entries_bytes (s ∷ ss) ++ post) ≡ pre ++ (entry_bytes s ++ rest) =
      ap (◌++◌ pre) (append_assoc (entry_bytes s) (entries_bytes ss) post) in
    let later : pre ++ (entry_bytes s ++ rest) ≡ (pre ++ entry_bytes s) ++ rest =
      sym (append_assoc pre (entry_bytes s) rest) in
    rw (first, read_entry-none pre s fits.0 rest offset p, later)
      (rw
        (read_entries_lem (pre ++ entry_bytes s) ss post (offset + 150) fits.1
          (omega (arith, length-append pre (entry_bytes s), length-entry_bytes [] s fits.0)))
        refl)

module _ (h : StoredHistory) (post : Bytes) where
  header_whole : concat (account_chunks h) ++ post ≡ concat (account_chunks h ++ post ∷ [])
  header_whole =
      ap (◌++◌ (concat (account_chunks h))) (sym (append-nil post))
      ∙ sym (concat-append (account_chunks h) (post ∷ []))

read_header_lem :
    (h : StoredHistory) (post : Bytes)
    → HistoryFits h
    → read_header (concat (account_chunks h) ++ post) ≡ ok (as_header h, length (stored_entries h))
unfolding read_header read_timestamp is_set alloc bytes_equal
read_header_lem (fresh id) post fits =
    let cs = account_chunks (fresh id) ++ post ∷ [] in
    let a = length-le_bytes 8 id in
    rw
      (
        header_whole (fresh id) post,
        subarray_chunk cs 0 history_discriminator 0 8 refl refl refl,
        read_bn_chunk cs 1 id 8 refl refl (omega (arith, fits)),
        byte_chunk cs 2 0 [] 16 refl (omega arith),
        byte_chunk cs 4 0 [] 21 refl (omega arith),
        read_uint_le_chunk cs 6 4 0 26 refl (omega arith) (omega arith),
      )
      refl
read_header_lem (kept id lo hi entries) post fits =
    let cs = account_chunks (kept id lo hi entries) ++ post ∷ [] in
    let a = length-le_bytes 8 id in
    let b = length-le_bytes 4 lo in
    let c = length-le_bytes 4 hi in
    rw
      (
        header_whole (kept id lo hi entries) post,
        subarray_chunk cs 0 history_discriminator 0 8 refl refl refl,
        read_bn_chunk cs 1 id 8 refl refl (omega (arith, fits.0)),
        byte_chunk cs 2 1 [] 16 refl (omega arith),
        read_uint_le_chunk cs 3 4 lo 17 refl (omega arith) (omega (arith, fits.1)),
        byte_chunk cs 4 1 [] 21 refl (omega arith),
        read_uint_le_chunk cs 5 4 hi 22 refl (omega arith) (omega (arith, fits.2)),
        read_uint_le_chunk cs 6 4 (length entries) 26 refl (omega arith) (omega (arith, fits.3)),
      )
      refl

length-account_chunks : (h : StoredHistory) → length (concat (account_chunks h)) ≡ 30
unfolding alloc le_bytes
length-account_chunks (fresh id) =
    omega (arith, length-concat (account_chunks (fresh id)), length-le_bytes 8 id)
length-account_chunks (kept id lo hi entries) = omega (
  arith,
  length-concat (account_chunks (kept id lo hi entries)),
  length-le_bytes 8 id,
  length-le_bytes 4 lo,
  length-le_bytes 4 hi,
  length-le_bytes 4 (length entries),
)

stored_entries-fit : (h : StoredHistory) → HistoryFits h → All StoredFits (stored_entries h)
stored_entries-fit (fresh id) fits = tt
stored_entries-fit (kept id lo hi entries) fits = fits.4

-- Of an account that holds a history whose entries concern no other asset, all of it is read, with
-- whatever the account is padded.
pub fetch_auction_history_lem :
    (h : StoredHistory) (padding : Bytes)
    → HistoryFits h
    → fetch_auction_history (some (account_bytes h padding)) ≡ ok (as_history h)
unfolding fetch_auction_history
fetch_auction_history_lem h padding fits =
    let ss = stored_entries h in
    rw
      (
        read_header_lem h (entries_bytes ss ++ padding) fits,
        read_entries_lem (concat (account_chunks h)) ss padding 30 (stored_entries-fit h fits)
            (length-account_chunks h),
      )
      refl
