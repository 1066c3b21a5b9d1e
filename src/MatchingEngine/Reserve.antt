-- ===== src/MatchingEngine/Reserve.antt =====
-- Reserving a fast fill: reserveFastFillSequence* (solana/ts/src/matchingEngine/index.ts).
use example_liquidity_layer.Prelude.{List, Option, Result, none, ok, or_else, some, ℕ, ◌>>=◌}
use example_liquidity_layer.Auction.{PublicKey}
use example_liquidity_layer.Uint64.{VaaHash, uint8_array}
use example_liquidity_layer.Vaa.{emitter_info, vaa_digest}
use example_liquidity_layer.Solana.{given_or}
use example_liquidity_layer.MatchingEngine.Addresses.{
  Program, auction_address, auction_config_address, fast_fill_sequencer_address,
  prepared_order_response_address, reserved_fast_fill_sequence_address, router_endpoint_address,
}
use example_liquidity_layer.MatchingEngine.State.{Ledger}
use example_liquidity_layer.MatchingEngine.Composites.{
  fast_order_path_composite, fetch_vaa, get_info, order_of,
}
use example_liquidity_layer.MatchingEngine.Instructions.{
  Ix, ReserveFastFillSequence, reserve_fast_fill_sequence_active_auction,
  reserve_fast_fill_sequence_no_auction,
}
use example_liquidity_layer.MatchingEngine.Offers.{event_cpi}

-- ReserveFastFillSequenceCompositeOpts, all of it known.
pub record DefinedOpts : Type 0 where
  pub fast_vaa_hash : VaaHash
  pub source_chain : ℕ
  pub order_sender : List ℕ
  pub target_chain : ℕ

pub record ReserveOpts : Type 0 where
  pub fast_vaa_hash : Option VaaHash
  pub source_chain : Option ℕ
  pub order_sender : Option (List ℕ)
  pub target_chain : Option ℕ

pub record ReserveAccounts : Type 0 where
  pub payer : PublicKey
  pub fast_vaa : PublicKey
  pub from_endpoint : Option PublicKey
  pub to_endpoint : Option PublicKey
  pub sequencer : Option PublicKey
  pub reserved : Option PublicKey
  pub auction : Option PublicKey

module _ (p : Program) (l : Ledger) where
  abbrev pub defined_opts :
      PublicKey → Option VaaHash → Option ℕ → Option (List ℕ) → Option ℕ → Result DefinedOpts
  defined_opts fast_vaa (some hash) (some source) (some sender) (some target) = ok (record {
    fast_vaa_hash = hash;
    source_chain = source;
    order_sender = sender;
    target_chain = target;
  })
  defined_opts fast_vaa hash source sender target = do
    vaa ← fetch_vaa p l fast_vaa
    found_hash ← given_or hash (do digest ← vaa_digest l.sdk vaa; ok (uint8_array digest))
    found_source ← given_or source (do info ← emitter_info l.sdk vaa; ok info.chain)
    order ← order_of p l vaa
    ok (record {
      fast_vaa_hash = found_hash;
      source_chain = found_source;
      order_sender = or_else sender order.sender;
      target_chain = or_else target (l.sdk.to_chain_id order.target_chain);
    })

  unfoldable pub reserve_fast_fill_sequence_composite :
      ReserveAccounts → ReserveOpts → Result (ReserveFastFillSequence × DefinedOpts)
  reserve_fast_fill_sequence_composite a opts = do
    d ←
        defined_opts a.fast_vaa opts.fast_vaa_hash opts.source_chain opts.order_sender
          opts.target_chain
    from_endpoint ← given_or a.from_endpoint (router_endpoint_address p d.source_chain)
    to_endpoint ← given_or a.to_endpoint (router_endpoint_address p d.target_chain)
    sequencer ← given_or a.sequencer (fast_fill_sequencer_address p d.source_chain d.order_sender)
    ok (
      record {
        payer = a.payer;
        fast_order_path = fast_order_path_composite p a.fast_vaa from_endpoint to_endpoint;
        sequencer = sequencer;
        reserved = or_else a.reserved (reserved_fast_fill_sequence_address p d.fast_vaa_hash);
        auction = or_else a.auction (auction_address p d.fast_vaa_hash);
        system_program = p.web3.system_program_id;
      },
      d,
    )

  abbrev pub auction_config_of : PublicKey → Result PublicKey
  auction_config_of auction = do
    fetched ← l.fetch_auction auction
    info ← get_info p l fetched.info "no auction info found"
    auction_config_address p info.config_id

  unfoldable pub reserve_fast_fill_sequence_active_auction_ix :
      ReserveAccounts → Option PublicKey → ReserveOpts → Result Ix
  unfolding reserve_fast_fill_sequence_composite
  reserve_fast_fill_sequence_active_auction_ix a auction_config opts = do
    (reserve, _) ← reserve_fast_fill_sequence_composite a opts
    config ← given_or auction_config (auction_config_of reserve.auction)
    ok (reserve_fast_fill_sequence_active_auction reserve config (event_cpi p))

  -- The auction that the caller gives is not passed on.
  unfoldable pub reserve_fast_fill_sequence_no_auction_ix :
      ReserveAccounts → Option PublicKey → ReserveOpts → Result Ix
  unfolding reserve_fast_fill_sequence_composite
  reserve_fast_fill_sequence_no_auction_ix a prepared_order_response opts = do
    (reserve, d) ← reserve_fast_fill_sequence_composite (record a { auction = none }) opts
    ok (
        reserve_fast_fill_sequence_no_auction reserve
          (or_else prepared_order_response (prepared_order_response_address p d.fast_vaa_hash))
          (event_cpi p))
