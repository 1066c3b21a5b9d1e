-- ===== src/MatchingEngine/Fixture/Served.antt =====
-- The order of the small state of the chain can be served.
use example_liquidity_layer.Prelude.{
  error, throw, Result, ok, [], arith, none, refl, replicate, some, ◌∷◌,
}
use example_liquidity_layer.Buffer.{be_bytes, read_uint_le, subarray}
use example_liquidity_layer.AuctionHistory.{bytes_equal}
use example_liquidity_layer.Vaa.{
  VaaAccount, byte_at, emitter_info, fetch_encoded, fetch_vaa_account, new_vaa_account, vaa_digest,
  vaa_hash, vaa_payload,
}
use example_liquidity_layer.Auction.{PublicKey}
use example_liquidity_layer.MatchingEngine.State.{Auction}
use example_liquidity_layer.MatchingEngine.Known.{ConfigAt, Configured, FastVaa, Registered}
use example_liquidity_layer.MatchingEngine.Fixture.{
  active_data, auction_data, config, custodian, endpoint, ledger, ledger_with, order, program,
  source_endpoint,
}

unfoldable pub the_vaa : VaaAccount
the_vaa = record {
  encoded_vaa =
      some (record { status = 0; write_authority = replicate 32 0; version = 0; buf = [] });
  posted_vaa_v1 = none;
}

module _ (auctions : PublicKey → Result Auction) where
  unfoldable pub registered_at : Registered program (ledger_with auctions) 5
  unfolding be_bytes
  registered_at = record {
    endpoint = endpoint;
    small = omega arith;
    stored = refl;
    same_chain = refl;
    enabled = λ e. cc;
  }

  unfoldable pub source_at : Registered program (ledger_with auctions) 2
  unfolding be_bytes
  source_at = record {
    endpoint = source_endpoint;
    small = omega arith;
    stored = refl;
    same_chain = refl;
    enabled = λ e. cc;
  }

  unfoldable pub config_in : ConfigAt program (ledger_with auctions) 7
  config_in = record { config = config; small = omega arith; stored = refl; same_id = refl }

  unfoldable pub configured_in : Configured program (ledger_with auctions)
  configured_in = record { custodian = custodian; fetched = refl; current = config_in }

  unfoldable pub fast_vaa_in : FastVaa program (ledger_with auctions) (30 ∷ [])
  unfolding fetch_vaa_account fetch_encoded byte_at bytes_equal subarray read_uint_le
      new_vaa_account vaa_digest vaa_hash emitter_info vaa_payload the_vaa registered_at source_at
  fast_vaa_in = record {
    vaa = the_vaa;
    fetched = refl;
    digest = 42 ∷ 40 ∷ 41 ∷ [];
    digested = refl;
    bytes = omega arith;
    emitter = record { chain = 2; address = 9 ∷ []; sequence = 3 };
    emitted = refl;
    order = order;
    ordered = refl;
    source = source_at;
    target = registered_at;
    same_address = refl;
    elsewhere = omega arith;
  }

abbrev pub over : PublicKey → Result Auction
over key = ok auction_data

abbrev pub running : PublicKey → Result Auction
running key = ok active_data

abbrev pub missing : PublicKey → Result Auction
missing key = throw (error "Account does not exist")

abbrev pub config_at : ConfigAt program ledger 7
config_at = config_in over

abbrev pub fast_vaa : FastVaa program ledger (30 ∷ [])
fast_vaa = fast_vaa_in over
