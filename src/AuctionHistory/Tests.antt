-- ===== src/AuctionHistory/Tests.antt =====
-- An account on which the theorems of the auction history are applied.

use example_liquidity_layer.Prelude.{
  [], arith, length, ok, refl, replicate, some, ℕ, ◌++◌, ◌+◌, ◌<◌, ◌∷◌, ◌≡◌,
}
use example_liquidity_layer.Prelude.Int.{pos}
use example_liquidity_layer.Buffer.Chunks.{concat}
use example_liquidity_layer.AuctionHistory.{fetch_auction_history, read_entry}
use example_liquidity_layer.AuctionHistory.Layout.{
  HistoryFits, StoredEntry, StoredFits, StoredHistory, account_bytes, as_entry, as_history,
  entry_chunks, kept,
}
use example_liquidity_layer.AuctionHistory.Entries.{fetch_auction_history_lem}
use example_liquidity_layer.AuctionHistory.Misread.{destination_bytes, read_entry_destination}

abbrev entry_of : ℕ → StoredEntry
entry_of n = record {
  vaa_hash = replicate 32 n;
  vaa_timestamp = 1700000000;
  config_id = 1;
  custody_token_bump = 254;
  vaa_sequence = n;
  source_chain = 23;
  best_offer_token = replicate 32 17;
  initial_offer_token = replicate 32 18;
  start_slot = 250000000;
  amount_in = 1000000;
  security_deposit = 4205000;
  offer_price = 1000;
  redeemer_message_len = 2;
}

entry_of-StoredFits : (n : ℕ) → n < 256 → StoredFits (entry_of n)
entry_of-StoredFits n h = record {
  hash_is = refl;
  timestamp_fits = omega arith;
  config_fits = omega arith;
  bump_fits = omega arith;
  sequence_fits = omega arith;
  chain_fits = omega arith;
  best_is = refl;
  initial_is = refl;
  start_fits = omega arith;
  amount_fits = omega arith;
  deposit_fits = omega arith;
  price_fits = omega arith;
  len_fits = omega arith;
}

abbrev stored : StoredHistory
stored = kept 3 1700000000 1700000600 (entry_of 7 ∷ entry_of 8 ∷ [])

stored-HistoryFits : HistoryFits stored
stored-HistoryFits = (
  omega arith,
  omega arith,
  omega arith,
  omega arith,
  (entry_of-StoredFits 7 (omega arith), (entry_of-StoredFits 8 (omega arith), tt)),
)

fetch_auction_history_lem_example :
    fetch_auction_history (some (account_bytes stored (0 ∷ 0 ∷ []))) ≡ ok (as_history stored)
fetch_auction_history_lem_example = fetch_auction_history_lem stored (0 ∷ 0 ∷ []) stored-HistoryFits

read_entry_destination_example :
    (read_entry (concat (entry_chunks (entry_of 7) ++ destination_bytes 253 5000000 ∷ []) ++ []) 0
      ≡ ok (
        as_entry
            (entry_of 7)
            (some (record { custody_token_bump = 253; amount_out = pos 1280000253 })),
        150,
      ))
    × (length (concat (entry_chunks (entry_of 7) ++ destination_bytes 253 5000000 ∷ [])) ≡ 150 + 9)
read_entry_destination_example =
    read_entry_destination [] (entry_of 7) 253 5000000 [] 0 (entry_of-StoredFits 7 (omega arith))
      (omega arith) (omega arith) refl
