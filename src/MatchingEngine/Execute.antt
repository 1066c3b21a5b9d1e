-- ===== src/MatchingEngine/Execute.antt =====
-- Executing orders and closing auctions: executeFastOrderTx, executeFastOrderCctpIx, executeFastOrderLocalIx,
-- closeAuctionIx and redeemFastFillAccounts (solana/ts/src/matchingEngine/index.ts).

use example_liquidity_layer.Prelude.{
  List, Option, Result, error, false, guard, if◌then◌else◌, none, ok, or_else, some, ℕ, ◌==◌, ◌>>=◌,
  ◌>>◌,
}
use example_liquidity_layer.Auction.{AuctionInfo, PublicKey}
use example_liquidity_layer.Uint64.{Uint64, bn, uint8_array}
use example_liquidity_layer.Vaa.{emitter_info, vaa_digest}
use example_liquidity_layer.Cctp.Programs.{CctpPrograms}
use example_liquidity_layer.Solana.{given_or}
use example_liquidity_layer.MatchingEngine.Addresses.{
  Program, auction_address, custodian_address, event_authority_address, fast_fill_address,
  local_custody_token_address, reserved_fast_fill_sequence_address, router_endpoint_address,
}
use example_liquidity_layer.MatchingEngine.State.{Ledger}
use example_liquidity_layer.MatchingEngine.Composites.{
  active_auction_composite, checked_custodian_composite, fetch_vaa, get_info, order_of,
  required_sysvars_composite,
}
use example_liquidity_layer.MatchingEngine.Instructions.{
  Ix, close_auction, execute_fast_order_cctp, execute_fast_order_local,
}
use example_liquidity_layer.MatchingEngine.Offers.{digest_address, event_cpi}
use example_liquidity_layer.MatchingEngine.Settle.{burn_and_publish_accounts}

pub record ExecuteAccounts : Type 0 where
  pub payer : PublicKey
  pub fast_vaa : PublicKey
  pub executor_token : Option PublicKey
  pub auction : Option PublicKey
  pub auction_config : Option PublicKey
  pub best_offer_token : Option PublicKey
  pub initial_offer_token : Option PublicKey
  pub initial_participant : Option PublicKey

-- Who opened the auction, and the info that it was read from.
pub record Initial : Type 0 where
  pub offer_token : PublicKey
  pub participant : PublicKey
  pub auction_info : Option AuctionInfo

pub record LocalPlaces : Type 0 where
  pub auction : PublicKey
  pub reserved_sequence : PublicKey
  pub source_chain : ℕ
  pub order_sender : List ℕ

pub record RedeemFastFillAccounts : Type 0 where
  pub custodian : PublicKey
  pub from_router_endpoint : PublicKey
  pub to_router_endpoint : PublicKey
  pub local_custody_token : PublicKey
  pub event_authority : PublicKey
  pub matching_engine_program : PublicKey

module _ (p : Program) (c : CctpPrograms) (l : Ledger) (core_bridge : PublicKey) where
  abbrev pub initial_of : PublicKey → Option PublicKey → Option PublicKey → Result Initial
  initial_of auction (some token) (some participant) =
      ok (record { offer_token = token; participant = participant; auction_info = none })
  initial_of auction token participant = do
    fetched ← l.fetch_auction auction
    info ← get_info p l fetched.info "no auction info found"
    ok (record {
      offer_token = or_else token info.initial_offer_token;
      participant = or_else participant fetched.prepared_by;
      auction_info = some info;
    })

  abbrev pub target_chain_of : PublicKey → Result ℕ
  target_chain_of fast_vaa = do
    vaa ← fetch_vaa p l fast_vaa
    order ← order_of p l vaa
    ok (l.sdk.to_chain_id order.target_chain)

  abbrev pub auction_of_vaa : PublicKey → Result PublicKey
  auction_of_vaa fast_vaa = do
    vaa ← fetch_vaa p l fast_vaa
    digest_address p l (auction_address p) vaa

  unfoldable pub execute_fast_order_cctp_ix : ExecuteAccounts → Option ℕ → Result Ix
  unfolding burn_and_publish_accounts active_auction_composite
  execute_fast_order_cctp_ix a target_chain = do
    executor_token ←
        given_or a.executor_token (p.web3.get_associated_token_address p.mint a.payer false)
    auction ← given_or a.auction (auction_of_vaa a.fast_vaa)
    target ← given_or target_chain (target_chain_of a.fast_vaa)
    initial ← initial_of auction a.initial_offer_token a.initial_participant
    b ← burn_and_publish_accounts p c l core_bridge auction target none
    composite ←
        active_auction_composite p l auction a.auction_config a.best_offer_token
          initial.auction_info
    ok (
        execute_fast_order_cctp (record {
          payer = a.payer;
          core_message = b.core_message;
          cctp_message = b.cctp_message;
          execute_order = record {
            fast_vaa = a.fast_vaa;
            active_auction = composite;
            executor_token = executor_token;
            initial_offer_token = initial.offer_token;
            initial_participant = initial.participant;
          };
          to_router_endpoint = b.router_endpoint;
          custodian = checked_custodian_composite p (some b.custodian);
          wormhole = b.wormhole;
          cctp = b.cctp;
          token_program = p.web3.token_program_id;
          system_program = p.web3.system_program_id;
          sysvars = required_sysvars_composite p;
          event_cpi = event_cpi p;
        }))

  abbrev pub local_places :
      PublicKey
      → Option PublicKey
      → Option PublicKey
      → Option ℕ
      → Option (List ℕ)
      → Result LocalPlaces
  local_places fast_vaa (some auction) (some reserved) (some chain) (some sender) = ok (record {
    auction = auction;
    reserved_sequence = reserved;
    source_chain = chain;
    order_sender = sender;
  })
  local_places fast_vaa auction reserved chain sender = do
    vaa ← fetch_vaa p l fast_vaa
    digest ← vaa_digest l.sdk vaa
    found_chain ← given_or chain (do info ← emitter_info l.sdk vaa; ok info.chain)
    order ← order_of p l vaa
    ok (record {
      auction = or_else auction (auction_address p (uint8_array digest));
      reserved_sequence =
          or_else reserved (reserved_fast_fill_sequence_address p (uint8_array digest));
      source_chain = found_chain;
      order_sender = or_else sender order.sender;
    })

  abbrev pub sequence_and_beneficiary :
      PublicKey → Option Uint64 → Option PublicKey → Result (Uint64 × PublicKey)
  sequence_and_beneficiary reserved (some sequence) (some beneficiary) = ok (sequence, beneficiary)
  sequence_and_beneficiary reserved sequence beneficiary = do
    r ← l.fetch_reserved_fast_fill_sequence reserved
    ok (or_else sequence (bn r.fast_fill_seeds.sequence), or_else beneficiary r.beneficiary)

  unfoldable pub execute_fast_order_local_ix :
      ExecuteAccounts
      → (reserved_sequence reserve_beneficiary : Option PublicKey) → (source_chain : Option ℕ)
      → (order_sender : Option (List ℕ)) → (sequence : Option Uint64) → Result Ix
  unfolding active_auction_composite
  execute_fast_order_local_ix a reserved beneficiary source_chain order_sender sequence = do
    executor_token ←
        given_or a.executor_token (p.web3.get_associated_token_address p.mint a.payer false)
    places ← local_places a.fast_vaa a.auction reserved source_chain order_sender
    (found_sequence, found_beneficiary) ←
        sequence_and_beneficiary places.reserved_sequence sequence beneficiary
    initial ← initial_of places.auction a.initial_offer_token a.initial_participant
    composite ←
        active_auction_composite p l places.auction a.auction_config a.best_offer_token
          initial.auction_info
    fast_fill ← fast_fill_address p places.source_chain places.order_sender found_sequence
    custody ← local_custody_token_address p places.source_chain
    ok (
        execute_fast_order_local (record {
          payer = a.payer;
          custodian = checked_custodian_composite p none;
          execute_order = record {
            fast_vaa = a.fast_vaa;
            active_auction = composite;
            executor_token = executor_token;
            initial_offer_token = initial.offer_token;
            initial_participant = initial.participant;
          };
          reserved_sequence = places.reserved_sequence;
          reserve_beneficiary = found_beneficiary;
          fast_fill = fast_fill;
          event_cpi = event_cpi p;
          local_custody_token = custody;
          token_program = p.web3.token_program_id;
          system_program = p.web3.system_program_id;
          sysvars = required_sysvars_composite p;
        }))

  -- The auction and the reserved sequence of executeFastOrderTx: where one is missing, both are derived.
  abbrev pub auction_and_reserved :
      PublicKey → Option PublicKey → Option PublicKey → Result (PublicKey × PublicKey)
  auction_and_reserved fast_vaa (some auction) (some reserved) = ok (auction, reserved)
  auction_and_reserved fast_vaa auction reserved = do
    vaa ← fetch_vaa p l fast_vaa
    digest ← vaa_digest l.sdk vaa
    ok (
      auction_address p (uint8_array digest),
      reserved_fast_fill_sequence_address p (uint8_array digest),
    )

  -- The instruction of executeFastOrderTx; an order to Solana is filled there.
  unfoldable pub execute_fast_order_ix :
      (payer fast_vaa : PublicKey) (auction executor_token reserved_sequence : Option PublicKey)
      → Result Ix
  unfolding execute_fast_order_cctp_ix execute_fast_order_local_ix
  execute_fast_order_ix payer fast_vaa auction executor_token reserved = do
    (found_auction, found_reserved) ← auction_and_reserved fast_vaa auction reserved
    target ← target_chain_of fast_vaa
    let accounts : ExecuteAccounts = record {
      payer = payer;
      fast_vaa = fast_vaa;
      executor_token = executor_token;
      auction = some found_auction;
      auction_config = none;
      best_offer_token = none;
      initial_offer_token = none;
      initial_participant = none;
    }
    if target == l.sdk.to_chain_id "Solana"
        then execute_fast_order_local_ix accounts (some found_reserved) none none none none
        else execute_fast_order_cctp_ix accounts (some target)

  unfoldable pub close_auction_ix : PublicKey → Option PublicKey → Result Ix
  close_auction_ix auction beneficiary = do
    found ← given_or beneficiary (do fetched ← l.fetch_auction auction; ok fetched.prepared_by)
    ok (close_auction (record { auction = auction; beneficiary = found; event_cpi = event_cpi p }))

  unfoldable pub redeem_fast_fill_accounts : PublicKey → Result RedeemFastFillAccounts
  redeem_fast_fill_accounts fast_fill = do
    fill ← l.fetch_fast_fill fast_fill
    let source_chain = fill.seeds.source_chain
    guard (l.sdk.is_chain_id source_chain) (error "invalid source chain")
    from_endpoint ← router_endpoint_address p source_chain
    to_endpoint ← router_endpoint_address p (l.sdk.to_chain_id "Solana")
    custody ← local_custody_token_address p source_chain
    ok (record {
      custodian = custodian_address p;
      from_router_endpoint = from_endpoint;
      to_router_endpoint = to_endpoint;
      local_custody_token = custody;
      event_authority = event_authority_address p;
      matching_engine_program = p.id;
    })
