-- ===== src/AuctionHistory/Layout.antt =====
-- What the Rust program stores in the account of an auction history, in Borsh
-- (solana/programs/matching-engine/src/state/auction_history.rs and auction.rs).
use example_liquidity_layer.Prelude.{
  All, List, Option, [], length, map, none, some, ℕ, ◌++◌, ◌<◌, ◌^◌, ◌∷◌, ◌≡◌,
}
use example_liquidity_layer.Prelude.Int.{pos}
use example_liquidity_layer.Buffer.{Bytes, alloc, le_bytes}
use example_liquidity_layer.Buffer.Chunks.{concat}
use example_liquidity_layer.Auction.{
  AuctionDestinationAssetInfo, AuctionEntry, AuctionHistory, AuctionHistoryHeader, AuctionInfo,
}
use example_liquidity_layer.AuctionHistory.{history_discriminator}

pub record StoredEntry : Type 0 where
  pub vaa_hash : Bytes
  pub vaa_timestamp : ℕ
  pub config_id : ℕ
  pub custody_token_bump : ℕ
  pub vaa_sequence : ℕ
  pub source_chain : ℕ
  pub best_offer_token : Bytes
  pub initial_offer_token : Bytes
  pub start_slot : ℕ
  pub amount_in : ℕ
  pub security_deposit : ℕ
  pub offer_price : ℕ
  pub redeemer_message_len : ℕ

-- Every field is in the range of its width.
pub record StoredFits (s : StoredEntry) : Type 0 where
  pub hash_is : length s.vaa_hash ≡ 32
  pub timestamp_fits : s.vaa_timestamp < 2 ^ 32
  pub config_fits : s.config_id < 2 ^ 32
  pub bump_fits : s.custody_token_bump < 2 ^ 8
  pub sequence_fits : s.vaa_sequence < 2 ^ 64
  pub chain_fits : s.source_chain < 2 ^ 16
  pub best_is : length s.best_offer_token ≡ 32
  pub initial_is : length s.initial_offer_token ≡ 32
  pub start_fits : s.start_slot < 2 ^ 64
  pub amount_fits : s.amount_in < 2 ^ 64
  pub deposit_fits : s.security_deposit < 2 ^ 64
  pub price_fits : s.offer_price < 2 ^ 64
  pub len_fits : s.redeemer_message_len < 2 ^ 16

-- The fields before `destination_asset_info`: 149 bytes.
abbrev pub entry_chunks : StoredEntry → List Bytes
entry_chunks s =
    s.vaa_hash
    ∷ le_bytes 4 s.vaa_timestamp
    ∷ le_bytes 4 s.config_id
    ∷ le_bytes 1 s.custody_token_bump
    ∷ le_bytes 8 s.vaa_sequence
    ∷ le_bytes 2 s.source_chain
    ∷ s.best_offer_token
    ∷ s.initial_offer_token
    ∷ le_bytes 8 s.start_slot
    ∷ le_bytes 8 s.amount_in
    ∷ le_bytes 8 s.security_deposit
    ∷ le_bytes 8 s.offer_price
    ∷ le_bytes 2 s.redeemer_message_len
    ∷ []

-- An entry without other assets ends in a zero byte.
abbrev pub entry_bytes : StoredEntry → Bytes
entry_bytes s = concat (entry_chunks s ++ (0 ∷ []) ∷ [])

abbrev pub entries_bytes : List StoredEntry → Bytes
entries_bytes [] = []
entries_bytes (s ∷ ss) = entry_bytes s ++ entries_bytes ss

-- A history has no timestamps until its first entry; its account is made with room for them.
pub data StoredHistory : Type 0 where
  fresh : (id : ℕ) → StoredHistory
  kept : (id min_timestamp max_timestamp : ℕ) (entries : List StoredEntry) → StoredHistory

abbrev pub HistoryFits : StoredHistory → Type 0
HistoryFits (fresh id) = id < 2 ^ 64
HistoryFits (kept id min_timestamp max_timestamp entries) =
    (id < 2 ^ 64)
    × (min_timestamp < 2 ^ 32)
    × (max_timestamp < 2 ^ 32)
    × (length entries < 2 ^ 32)
    × All StoredFits entries

abbrev pub account_chunks : StoredHistory → List Bytes
account_chunks (fresh id) =
    history_discriminator
    ∷ le_bytes 8 id
    ∷ (0 ∷ [])
    ∷ alloc 4
    ∷ (0 ∷ [])
    ∷ alloc 4
    ∷ le_bytes 4 0
    ∷ []
account_chunks (kept id min_timestamp max_timestamp entries) =
    history_discriminator
    ∷ le_bytes 8 id
    ∷ (1 ∷ [])
    ∷ le_bytes 4 min_timestamp
    ∷ (1 ∷ [])
    ∷ le_bytes 4 max_timestamp
    ∷ le_bytes 4 (length entries)
    ∷ []

abbrev pub stored_entries : StoredHistory → List StoredEntry
stored_entries (fresh id) = []
stored_entries (kept id min_timestamp max_timestamp entries) = entries

-- The account may be longer than what it holds.
abbrev pub account_bytes : StoredHistory → Bytes → Bytes
account_bytes h padding = concat (account_chunks h) ++ (entries_bytes (stored_entries h) ++ padding)

-- The values that stand for what is stored.
abbrev pub as_info : StoredEntry → Option AuctionDestinationAssetInfo → AuctionInfo
as_info s destination = record {
  config_id = s.config_id;
  custody_token_bump = s.custody_token_bump;
  vaa_sequence = pos s.vaa_sequence;
  source_chain = s.source_chain;
  best_offer_token = s.best_offer_token;
  initial_offer_token = s.initial_offer_token;
  start_slot = pos s.start_slot;
  amount_in = pos s.amount_in;
  security_deposit = pos s.security_deposit;
  offer_price = pos s.offer_price;
  redeemer_message_len = s.redeemer_message_len;
  destination_asset_info = destination;
}

abbrev pub as_entry : StoredEntry → Option AuctionDestinationAssetInfo → AuctionEntry
as_entry s destination = record {
  vaa_hash = s.vaa_hash;
  vaa_timestamp = s.vaa_timestamp;
  info = as_info s destination;
}

abbrev pub as_header : StoredHistory → AuctionHistoryHeader
as_header (fresh id) = record { id = pos id; min_timestamp = none; max_timestamp = none }
as_header (kept id min_timestamp max_timestamp entries) = record {
  id = pos id;
  min_timestamp = some min_timestamp;
  max_timestamp = some max_timestamp;
}

abbrev pub as_history : StoredHistory → AuctionHistory
as_history h = record {
  header = as_header h;
  entries = map (λ s. as_entry s none) (stored_entries h);
}
