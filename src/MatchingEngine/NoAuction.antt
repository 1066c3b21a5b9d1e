-- ===== src/MatchingEngine/NoAuction.antt =====
-- Settling where there was no auction: settleAuctionNoneTx, settleAuctionNoneLocalIx and
-- settleAuctionNoneCctpIx (solana/ts/src/matchingEngine/index.ts).
use example_liquidity_layer.Prelude.{
  List, Option, Result, [], error, guard, if◌then◌else◌, none, ok, or_else, some, ℕ, ◌∷◌, ◌>>=◌,
  ◌>>◌,
}
use example_liquidity_layer.Auction.{PublicKey}
use example_liquidity_layer.Uint64.{Uint64, array, bn}
use example_liquidity_layer.Vaa.{emitter_info}
use example_liquidity_layer.Cctp.Programs.{CctpPrograms}
use example_liquidity_layer.Solana.{given_or}
use example_liquidity_layer.MatchingEngine.Addresses.{
  Program, auction_address, custodian_address, fast_fill_address, local_custody_token_address,
  prepared_order_response_address, reserved_fast_fill_sequence_address,
}
use example_liquidity_layer.MatchingEngine.State.{Ledger}
use example_liquidity_layer.MatchingEngine.Composites.{
  checked_custodian_composite, close_prepared_order_response_composite, fetch_vaa, order_of,
  required_sysvars_composite,
}
use example_liquidity_layer.MatchingEngine.Instructions.{
  CctpMessageArgs, Ix, settle_auction_none_cctp, settle_auction_none_local,
}
use example_liquidity_layer.MatchingEngine.Offers.{digest_address, event_cpi}
use example_liquidity_layer.MatchingEngine.Settle.{
  burn_and_publish_accounts, prepare_order_response_cctp_ix,
}
use text.Mathlib.Text.{◌==◌ as text_eq}

-- The source chain, the sender and the sequence of a fast fill, as far as the caller gives them.
pub record FillOpts : Type 0 where
  pub source_chain : Option ℕ
  pub order_sender : Option (List ℕ)
  pub sequence : Option Uint64

pub record FillPlaces : Type 0 where
  pub auction : PublicKey
  pub prepared_order_response : PublicKey
  pub source_chain : ℕ
  pub order_sender : List ℕ
  pub sequence : Uint64

module _ (p : Program) (c : CctpPrograms) (l : Ledger) (core_bridge : PublicKey) where
  abbrev pub fee_recipient_token : Result PublicKey
  fee_recipient_token = do
    custodian ← l.fetch_custodian (custodian_address p)
    ok custodian.fee_recipient_token

  abbrev pub fill_from_reserved :
      PublicKey → Option PublicKey → Option PublicKey → FillOpts → Result FillPlaces
  fill_from_reserved reserved_sequence auction response opts = do
    r ← l.fetch_reserved_fast_fill_sequence reserved_sequence
    guard (l.sdk.is_chain_id r.fast_fill_seeds.source_chain) (error "Invalid source chain")
    ok (record {
      auction = or_else auction (auction_address p (array r.fast_vaa_hash));
      prepared_order_response =
          or_else response (prepared_order_response_address p (array r.fast_vaa_hash));
      source_chain = or_else opts.source_chain r.fast_fill_seeds.source_chain;
      order_sender = or_else opts.order_sender r.fast_fill_seeds.order_sender;
      sequence = or_else opts.sequence (bn r.fast_fill_seeds.sequence);
    })

  -- The reserved sequence is fetched if anything is missing.
  abbrev pub fill_given :
      PublicKey
      → Option PublicKey
      → Option PublicKey
      → Option ℕ
      → Option (List ℕ)
      → Option Uint64
      → Result FillPlaces
      → Result FillPlaces
  fill_given reserved (some auction) (some response) (some chain) (some sender) (some n) fetched =
      ok (record {
        auction = auction;
        prepared_order_response = response;
        source_chain = chain;
        order_sender = sender;
        sequence = n;
      })
  fill_given reserved auction response chain sender n fetched = fetched

  unfoldable pub settle_auction_none_local_ix :
      (payer reserved_sequence : PublicKey) (prepared_order_response auction : Option PublicKey)
      → FillOpts
      → Result Ix
  settle_auction_none_local_ix payer reserved_sequence response auction opts = do
    places ←
        fill_given reserved_sequence auction response opts.source_chain opts.order_sender
          opts.sequence (fill_from_reserved reserved_sequence auction response opts)
    fee_token ← fee_recipient_token
    fast_fill ← fast_fill_address p places.source_chain places.order_sender places.sequence
    custody ← local_custody_token_address p places.source_chain
    ok (
        settle_auction_none_local (record {
          payer = payer;
          custodian = checked_custodian_composite p none;
          fee_recipient_token = fee_token;
          prepared = close_prepared_order_response_composite p payer places.prepared_order_response;
          auction = places.auction;
          reserved_sequence = reserved_sequence;
          fast_fill = fast_fill;
          event_cpi = event_cpi p;
          local_custody_token = custody;
          token_program = p.web3.token_program_id;
          system_program = p.web3.system_program_id;
          sysvars = required_sysvars_composite p;
        }))

  abbrev pub auction_and_response :
      PublicKey → Option PublicKey → Option PublicKey → Result (PublicKey × PublicKey)
  auction_and_response fast_vaa (some auction) (some response) = ok (auction, response)
  auction_and_response fast_vaa auction response = do
    vaa ← fetch_vaa p l fast_vaa
    found_auction ← given_or auction (digest_address p l (auction_address p) vaa)
    found_response ← given_or response (digest_address p l (prepared_order_response_address p) vaa)
    ok (found_auction, found_response)

  -- The source chain is not used, but it is read where it or the target is missing.
  abbrev pub target_of : PublicKey → Option ℕ → Option ℕ → Result ℕ
  target_of fast_vaa (some source) (some target) = ok target
  target_of fast_vaa source target = do
    vaa ← fetch_vaa p l fast_vaa
    _ ← given_or source (do info ← emitter_info l.sdk vaa; ok info.chain)
    order ← order_of p l vaa
    ok (or_else target (l.sdk.to_chain_id order.target_chain))

  unfoldable pub settle_auction_none_cctp_ix :
      (payer fast_vaa : PublicKey) (prepared_order_response auction : Option PublicKey)
      (source_chain target_chain : Option ℕ)
      → Result Ix
  unfolding burn_and_publish_accounts
  settle_auction_none_cctp_ix payer fast_vaa response auction source_chain target_chain = do
    (found_auction, found_response) ← auction_and_response fast_vaa auction response
    target ← target_of fast_vaa source_chain target_chain
    b ← burn_and_publish_accounts p c l core_bridge found_auction target none
    fee_token ← fee_recipient_token
    ok (
        settle_auction_none_cctp (record {
          payer = payer;
          core_message = b.core_message;
          cctp_message = b.cctp_message;
          custodian = checked_custodian_composite p (some b.custodian);
          fee_recipient_token = fee_token;
          prepared = close_prepared_order_response_composite p payer found_response;
          auction = found_auction;
          wormhole = b.wormhole;
          cctp = b.cctp;
          token_program = p.web3.token_program_id;
          system_program = p.web3.system_program_id;
          sysvars = required_sysvars_composite p;
          event_cpi = event_cpi p;
        }))

  -- The instructions of settleAuctionNoneTx; an order to Solana is filled there.
  unfoldable pub settle_auction_none_ixs :
      (executor fast_vaa finalized_vaa : PublicKey) (auction : Option PublicKey)
      → CctpMessageArgs
      → Result (List Ix)
  unfolding prepare_order_response_cctp_ix settle_auction_none_local_ix settle_auction_none_cctp_ix
  settle_auction_none_ixs executor fast_vaa finalized_vaa auction args = do
    fee_token ← fee_recipient_token
    prepare_ix ←
        prepare_order_response_cctp_ix p c l core_bridge executor fast_vaa finalized_vaa
          (some fee_token) args
    vaa ← fetch_vaa p l fast_vaa
    order ← order_of p l vaa
    response ← digest_address p l (prepared_order_response_address p) vaa
    reserved ← digest_address p l (reserved_fast_fill_sequence_address p) vaa
    let local_ix =
        settle_auction_none_local_ix executor reserved (some response) auction
          (record { source_chain = none; order_sender = none; sequence = none })
    let cctp_ix =
        settle_auction_none_cctp_ix executor fast_vaa (some response) none none
          (some (l.sdk.to_chain_id order.target_chain))
    settle_ix ← if text_eq order.target_chain "Solana" then local_ix else cctp_ix
    ok (prepare_ix ∷ settle_ix ∷ [])
