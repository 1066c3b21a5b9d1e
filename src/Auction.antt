-- ===== src/Auction.antt =====
-- The auction account, and the history of auctions: solana/ts/src/matchingEngine/state/Auction.ts and
-- AuctionHistory.ts. A BN is an integer, a PublicKey the bytes that it was made from.
use example_liquidity_layer.Prelude.{List, Option, ℕ}
use example_liquidity_layer.Prelude.Int.{ℤ}
use example_liquidity_layer.Buffer.{Bytes}

-- A class of web3.js, of which the program only keeps, compares and passes on values.
abbrev pub PublicKey : Type 0
PublicKey = Bytes

pub record AuctionDestinationAssetInfo : Type 0 where
  pub custody_token_bump : ℕ
  pub amount_out : ℤ

pub record AuctionInfo : Type 0 where
  pub config_id : ℕ
  pub custody_token_bump : ℕ
  pub vaa_sequence : ℤ
  pub source_chain : ℕ
  pub best_offer_token : PublicKey
  pub initial_offer_token : PublicKey
  pub start_slot : ℤ
  pub amount_in : ℤ
  pub security_deposit : ℤ
  pub offer_price : ℤ
  pub redeemer_message_len : ℕ
  pub destination_asset_info : Option AuctionDestinationAssetInfo

pub record AuctionHistoryHeader : Type 0 where
  pub id : ℤ
  pub min_timestamp : Option ℕ
  pub max_timestamp : Option ℕ

pub record AuctionEntry : Type 0 where
  pub vaa_hash : List ℕ
  pub vaa_timestamp : ℕ
  pub info : AuctionInfo

pub record AuctionHistory : Type 0 where
  pub header : AuctionHistoryHeader
  pub entries : List AuctionEntry
