-- ===== src/AuctionHistory.antt =====
-- MatchingEngineProgram.fetchAuctionHistory and fetchAuctionHistoryHeader, which read the account of
-- an auction history by hand (solana/ts/src/matchingEngine/index.ts). What the network answers for
-- the account's address is an argument.
pub mod Header
pub mod Layout
pub mod Entries
pub mod Misread
mod Tests
use example_liquidity_layer.Prelude.{
  Bool, List, Option, Result, [], error, false, get_elem?, guard, if◌then◌else◌, none, not, ok,
  or_throw, some, suc, take, true, zero, ℕ, ◌&&◌, ◌+◌, ◌==◌, ◌∷◌, ◌>>=◌, ◌>>◌,
}
use example_liquidity_layer.Prelude.Int.{pos, ℤ}
use example_liquidity_layer.Buffer.{Bytes, read, read_uint_le, subarray}
use example_liquidity_layer.Uint64.{bigint, uint64_to_bn}
use example_liquidity_layer.Auction.{
  AuctionDestinationAssetInfo, AuctionEntry, AuctionHistory, AuctionHistoryHeader,
}

abbrev pub history_discriminator : Bytes
history_discriminator = 149 ∷ 208 ∷ 45 ∷ 154 ∷ 47 ∷ 248 ∷ 102 ∷ 245 ∷ []

-- `equals` of two byte strings.
unfoldable pub bytes_equal : Bytes → Bytes → Bool
bytes_equal [] [] = true
bytes_equal (x ∷ xs) (y ∷ ys) = (x == y) && bytes_equal xs ys
bytes_equal _ _ = false

-- `data[offset] === 1`, which is false past the end.
abbrev pub is_one : Option ℕ → Bool
is_one none = false
is_one (some b) = b == 1

unfoldable pub is_set : Bytes → ℕ → Bool
is_set buf offset = is_one (get_elem? buf offset)

-- `data[offset++] === 1 ? data.readUInt32LE(offset) : null`
unfoldable pub read_timestamp : Bytes → ℕ → Result (Option ℕ)
read_timestamp buf offset =
    let read = (do n ← read_uint_le 4 buf (offset + 1); ok (some n)) in
    if is_set buf offset then read else ok none

-- `uint64ToBN(data.readBigUInt64LE(offset))`
unfoldable pub read_bn : Bytes → ℕ → Result ℤ
read_bn buf offset = do n ← read_uint_le 8 buf offset; uint64_to_bn (bigint (pos n))

-- The header and the number of entries.
unfoldable pub read_header : Bytes → Result (AuctionHistoryHeader × ℕ)
read_header buf = do
  guard (bytes_equal (subarray buf 0 8) history_discriminator)
      (error "Invalid account history discriminator")
  id ← read_bn buf 8
  min_timestamp ← read_timestamp buf 16
  max_timestamp ← read_timestamp buf 21
  num_entries ← read_uint_le 4 buf 26
  ok (record { id = id; min_timestamp = min_timestamp; max_timestamp = max_timestamp }, num_entries)

-- The two fields are read at the same offset.
unfoldable pub read_destination_asset_info : Bytes → ℕ → Result (Option AuctionDestinationAssetInfo)
read_destination_asset_info buf offset = do
  let read = do
    bump ← read_uint_le 1 buf (offset + 1)
    amount_out ← read_bn buf (offset + 1)
    ok (some (record { custody_token_bump = bump; amount_out = amount_out }))
  if is_set buf offset then read else ok none

-- The entry at an offset, and the offset behind it.
unfoldable pub read_entry : Bytes → ℕ → Result (AuctionEntry × ℕ)
read_entry buf offset = do
  let vaa_hash = subarray buf offset (offset + 32)
  vaa_timestamp ← read_uint_le 4 buf (offset + 32)
  config_id ← read_uint_le 4 buf (offset + 36)
  custody_token_bump ← read_uint_le 1 buf (offset + 40)
  vaa_sequence ← read_bn buf (offset + 41)
  source_chain ← read_uint_le 2 buf (offset + 49)
  let best_offer_token = subarray buf (offset + 51) (offset + 83)
  let initial_offer_token = subarray buf (offset + 83) (offset + 115)
  start_slot ← read_bn buf (offset + 115)
  amount_in ← read_bn buf (offset + 123)
  security_deposit ← read_bn buf (offset + 131)
  offer_price ← read_bn buf (offset + 139)
  redeemer_message_len ← read_uint_le 2 buf (offset + 147)
  destination_asset_info ← read_destination_asset_info buf (offset + 149)
  ok (
    record {
      vaa_hash = vaa_hash;
      vaa_timestamp = vaa_timestamp;
      info = record {
        config_id = config_id;
        custody_token_bump = custody_token_bump;
        vaa_sequence = vaa_sequence;
        source_chain = source_chain;
        best_offer_token = best_offer_token;
        initial_offer_token = initial_offer_token;
        start_slot = start_slot;
        amount_in = amount_in;
        security_deposit = security_deposit;
        offer_price = offer_price;
        redeemer_message_len = redeemer_message_len;
        destination_asset_info = destination_asset_info;
      };
    },
    offset + 150,
  )

unfoldable pub read_entries : ℕ → Bytes → ℕ → Result (List AuctionEntry)
read_entries zero buf offset = ok []
read_entries (suc n) buf offset = do
  (entry, next) ← read_entry buf offset
  entries ← read_entries n buf next
  ok (entry ∷ entries)

unfoldable pub fetch_auction_history : Option Bytes → Result AuctionHistory
fetch_auction_history account = do
  buf ← or_throw account (error "Auction history not found")
  (header, num_entries) ← read_header buf
  entries ← read_entries num_entries buf 30
  ok (record { header = header; entries = entries })

-- The network is asked for the first 30 bytes only.
unfoldable pub fetch_auction_history_header : Option Bytes → Result (AuctionHistoryHeader × ℕ)
fetch_auction_history_header account = do
  buf ← or_throw account (error "Auction history not found")
  read_header (take 30 buf)
