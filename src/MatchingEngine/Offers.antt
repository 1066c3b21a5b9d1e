-- ===== src/MatchingEngine/Offers.antt =====
-- Making and improving offers: approveTransferAuthorityIx, placeInitialOfferCctpIx and improveOfferIx
-- (solana/ts/src/matchingEngine/index.ts).
use example_liquidity_layer.Prelude.{
  List, Option, Result, [], false, none, ok, or_else, some, ℕ, ◌∷◌, ◌>>=◌,
}
use example_liquidity_layer.Prelude.Int.{◌+ℤ◌}
use example_liquidity_layer.Auction.{AuctionInfo, PublicKey}
use example_liquidity_layer.Uint64.{
  Uint64, VaaHash, bigint, uint64_to_bigint, uint64_to_bn, uint8_array,
}
use example_liquidity_layer.Penalty.{compute_notional_security_deposit}
use example_liquidity_layer.Vaa.{VaaAccount, emitter_info, vaa_digest}
use example_liquidity_layer.Solana.{Approve, given_or}
use example_liquidity_layer.MatchingEngine.Addresses.{
  Program, auction_address, auction_config_address, auction_custody_token_address,
  custodian_address, event_authority_address, router_endpoint_address, transfer_authority_address,
}
use example_liquidity_layer.MatchingEngine.State.{FastMarketOrder, Ledger}
use example_liquidity_layer.MatchingEngine.Composites.{
  active_auction_composite, checked_custodian_composite, fast_order_path_composite, fetch_vaa,
  get_info, order_of, program_accounts,
}
use example_liquidity_layer.MatchingEngine.Instructions.{
  EventCpi, Ix, approve, improve_offer, place_initial_offer_cctp,
}

-- The accounts that a caller may leave out.
pub record OfferAccounts : Type 0 where
  pub payer : PublicKey
  pub fee_payer : Option PublicKey
  pub fast_vaa : PublicKey
  pub offer_token : Option PublicKey
  pub auction : Option PublicKey
  pub auction_config : Option PublicKey
  pub from_router_endpoint : Option PublicKey
  pub to_router_endpoint : Option PublicKey

-- What the fast VAA says, where it was read.
pub record OfferPlaces : Type 0 where
  pub auction : PublicKey
  pub from_endpoint : PublicKey
  pub to_endpoint : PublicKey
  pub total_deposit : Uint64
  pub fetched_config_id : Option ℕ

module _ (p : Program) where
  abbrev pub event_cpi : EventCpi
  event_cpi = record { event_authority = event_authority_address p; program = p.id }

  unfoldable pub approve_transfer_authority_ix :
      PublicKey → PublicKey → Uint64 → Uint64 → Result (PublicKey × Approve)
  approve_transfer_authority_ix auction owner offer_price total_deposit = do
    transfer_authority ← transfer_authority_address p auction offer_price
    token ← p.web3.get_associated_token_address p.mint owner false
    amount ← uint64_to_bigint total_deposit
    ok (
      transfer_authority,
      record { account = token; delegate = transfer_authority; owner = owner; amount = amount },
    )

module _ (p : Program) (l : Ledger) where
  abbrev pub digest_address : (VaaHash → PublicKey) → VaaAccount → Result PublicKey
  digest_address to_address vaa = do
    digest ← vaa_digest l.sdk vaa
    ok (to_address (uint8_array digest))

  abbrev pub source_endpoint : VaaAccount → Result PublicKey
  source_endpoint vaa = do info ← emitter_info l.sdk vaa; router_endpoint_address p info.chain

  abbrev pub target_endpoint : FastMarketOrder → Result PublicKey
  target_endpoint order = router_endpoint_address p (l.sdk.to_chain_id order.target_chain)

  -- Where one of the four is missing, the fast VAA is fetched, and the custodian.
  unfoldable pub places_from_vaa :
      PublicKey
      → Option PublicKey
      → Option PublicKey
      → Option PublicKey
      → Option Uint64
      → Result OfferPlaces
  places_from_vaa fast_vaa auction from_endpoint to_endpoint total_deposit = do
    vaa ← fetch_vaa p l fast_vaa
    found_auction ← given_or auction (digest_address (auction_address p) vaa)
    found_from ← given_or from_endpoint (source_endpoint vaa)
    order ← order_of p l vaa
    found_to ← given_or to_endpoint (target_endpoint order)
    custodian ← l.fetch_custodian (custodian_address p)
    notional_deposit ←
        compute_notional_security_deposit (program_accounts p l) (bigint order.amount_in)
          (some custodian.auction_config_id)
    ok (record {
      auction = found_auction;
      from_endpoint = found_from;
      to_endpoint = found_to;
      total_deposit =
          or_else total_deposit (bigint (order.amount_in +ℤ order.max_fee +ℤ notional_deposit));
      fetched_config_id = some custodian.auction_config_id;
    })

  abbrev pub offer_places :
      PublicKey
      → Option PublicKey
      → Option PublicKey
      → Option PublicKey
      → Option Uint64
      → Result OfferPlaces
  offer_places fast_vaa (some auction) (some from_endpoint) (some to_endpoint) (some deposit) =
      ok (record {
        auction = auction;
        from_endpoint = from_endpoint;
        to_endpoint = to_endpoint;
        total_deposit = deposit;
        fetched_config_id = none;
      })
  offer_places fast_vaa auction from_endpoint to_endpoint deposit =
      places_from_vaa fast_vaa auction from_endpoint to_endpoint deposit

  abbrev pub current_config : Option ℕ → Result PublicKey
  current_config (some id) = auction_config_address p id
  current_config none = do
    custodian ← l.fetch_custodian (custodian_address p)
    auction_config_address p custodian.auction_config_id

  unfoldable pub place_initial_offer_cctp_ix :
      OfferAccounts → (offer_price : Uint64) → (total_deposit : Option Uint64) → Result (List Ix)
  unfolding places_from_vaa approve_transfer_authority_ix
  place_initial_offer_cctp_ix a offer_price total_deposit = do
    offer_token ← given_or a.offer_token (p.web3.get_associated_token_address p.mint a.payer false)
    places ←
        offer_places a.fast_vaa a.auction a.from_router_endpoint a.to_router_endpoint total_deposit
    auction_config ← given_or a.auction_config (current_config places.fetched_config_id)
    (transfer_authority, approve_ix) ←
        approve_transfer_authority_ix p places.auction a.payer offer_price places.total_deposit
    price ← uint64_to_bn offer_price
    ok (
        approve approve_ix
        ∷ place_initial_offer_cctp price (record {
          payer = or_else a.fee_payer a.payer;
          transfer_authority = transfer_authority;
          custodian = checked_custodian_composite p none;
          auction_config = auction_config;
          auction = places.auction;
          fast_order_path =
              fast_order_path_composite p a.fast_vaa places.from_endpoint places.to_endpoint;
          offer_token = offer_token;
          auction_custody_token = auction_custody_token_address p places.auction;
          usdc = p.mint;
          token_program = p.web3.token_program_id;
          system_program = p.web3.system_program_id;
          event_cpi = event_cpi p;
        })
        ∷ [])

  -- The deposit of the offer that is to be improved, with the info that it was read from.
  abbrev pub deposit_and_info : PublicKey → Option Uint64 → Result (Uint64 × Option AuctionInfo)
  deposit_and_info auction (some deposit) = ok (deposit, none)
  deposit_and_info auction none = do
    fetched ← l.fetch_auction auction
    info ← get_info p l fetched.info "no auction info found"
    ok (bigint (info.amount_in +ℤ info.security_deposit), some info)

  unfoldable pub improve_offer_ix :
      (participant auction : PublicKey) (auction_config best_offer_token : Option PublicKey)
      → Uint64
      → Option Uint64
      → Result (List Ix)
  unfolding approve_transfer_authority_ix active_auction_composite
  improve_offer_ix participant auction auction_config best_offer_token offer_price total_deposit =
      do
        (deposit, auction_info) ← deposit_and_info auction total_deposit
        (transfer_authority, approve_ix) ←
            approve_transfer_authority_ix p auction participant offer_price deposit
        price ← uint64_to_bn offer_price
        composite ←
            active_auction_composite p l auction auction_config best_offer_token auction_info
        offer_token ← p.web3.get_associated_token_address p.mint participant false
        ok (
            approve approve_ix
            ∷ improve_offer price (record {
              transfer_authority = transfer_authority;
              active_auction = composite;
              offer_token = offer_token;
              token_program = p.web3.token_program_id;
              event_cpi = event_cpi p;
            })
            ∷ [])
