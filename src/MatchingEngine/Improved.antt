-- ===== src/MatchingEngine/Improved.antt =====
-- The instructions with which an offer is improved are those that the Rust program accepts.
use example_liquidity_layer.Prelude.{
  Option, [], ap, false, none, ok, or_else, refl, some, ℕ, ◌<◌, ◌^◌, ◌∷◌, ◌≡◌, ◌≢◌,
}
use example_liquidity_layer.Prelude.Int.{pos, ◌+ℤ◌}
use example_liquidity_layer.Buffer.{be_bytes, read}
use example_liquidity_layer.Auction.{AuctionInfo, PublicKey}
use example_liquidity_layer.Uint64.{Uint64, bigint, uint64_to_bigint}
use example_liquidity_layer.Uint64.Laws.{meaning, uint64_to_bn_lem}
use example_liquidity_layer.Solana.{buffer_from}
use example_liquidity_layer.MatchingEngine.Addresses.{
  Program, address, auction_custody_token_address,
}
use example_liquidity_layer.MatchingEngine.State.{Auction, Ledger, active}
use example_liquidity_layer.MatchingEngine.Composites.{
  ActiveAuction, active_auction_composite, config_and_token, config_of,
}
use example_liquidity_layer.MatchingEngine.Instructions.{ImproveOffer, approve, improve_offer}
use example_liquidity_layer.MatchingEngine.Offers.{
  approve_transfer_authority_ix, deposit_and_info, event_cpi, improve_offer_ix,
}
use example_liquidity_layer.MatchingEngine.Onchain.{
  ActiveAuctionAccepted, ImproveOfferAccepted, auction_pda, transfer_authority_pda,
}
use example_liquidity_layer.MatchingEngine.Known.{
  ConfigAt, IsDefault, auction_config_address-pda, transfer_authority_address-pda,
}

module _ (p : Program) (l : Ledger) where
  -- An auction that has offers, under the config that it was opened with.
  pub record Opened (key : PublicKey) : Type 0 where
    pub auction : Auction
    pub fetched : l.fetch_auction key ≡ ok auction
    pub info : AuctionInfo
    pub has_info : auction.info ≡ some info
    pub config : ConfigAt p l info.config_id

  -- The auction is active, at the seeds of its VAA.
  pub record IsActive (key : PublicKey) (o : Opened key) : Type 0 where
    pub seeds : key ≡ auction_pda p l o.auction.vaa_hash
    pub is_active : o.auction.status ≡ active

module _ (p : Program) (l : Ledger) (auction : PublicKey) (o : Opened p l auction) where
  abbrev pub config_pda : PublicKey
  config_pda = address p (buffer_from "auction-config" ∷ be_bytes 4 o.info.config_id ∷ [])

  -- Info that was read before is the auction's.
  abbrev pub IsCached : Option AuctionInfo → Type 0
  IsCached none = Unit {0}
  IsCached (some info) = info ≡ o.info

  config_of_lem :
      (config : Option PublicKey) (info : AuctionInfo)
      → IsDefault config config_pda
      → info ≡ o.info
      → config_of p l config info ≡ ok config_pda
  config_of_lem (some c) info d e = ap ok d
  config_of_lem none info d e =
      rw e (auction_config_address-pda p l o.info.config_id o.config.small)

  token_lem :
      (token : Option PublicKey) (info : AuctionInfo)
      → IsDefault token o.info.best_offer_token
      → info ≡ o.info
      → or_else token info.best_offer_token ≡ o.info.best_offer_token
  token_lem (some t) info d e = d
  token_lem none info d e = rw e refl

  config_and_token_lem :
      (config token : Option PublicKey) (cached : Option AuctionInfo)
      → IsDefault config config_pda
      → IsDefault token o.info.best_offer_token
      → IsCached cached
      → config_and_token p l auction config token cached ≡ ok (config_pda, o.info.best_offer_token)
  config_and_token_lem (some c) (some t) cached d e h = rw (d, e) refl
  config_and_token_lem none token (some info) d e h =
      rw (config_of_lem none info d h, token_lem token info e h) refl
  config_and_token_lem (some c) none (some info) d e h = rw (d, h) refl
  config_and_token_lem none token none d e h =
      rw (o.fetched, o.has_info, config_of_lem none o.info d refl, token_lem token o.info e refl)
        refl
  config_and_token_lem (some c) none none d e h = rw (o.fetched, o.has_info, d) refl

  abbrev pub the_active_auction : ActiveAuction
  the_active_auction = record {
    custody_token = auction_custody_token_address p auction;
    auction = auction;
    config = config_pda;
    best_offer_token = o.info.best_offer_token;
  }

  abbrev pub the_active_auction-accepted :
      IsActive p l auction o → ActiveAuctionAccepted p l the_active_auction
  the_active_auction-accepted t = record {
    auction = o.auction;
    stored = o.fetched;
    seeds = t.seeds;
    is_active = t.is_active;
    info = o.info;
    has_info = o.has_info;
    custody_token = refl;
    config = record {
      config = o.config.config;
      stored = o.config.stored;
      same_id = o.config.same_id;
    };
    best_offer_token = refl;
  }

  pub active_auction_composite_lem :
      (config token : Option PublicKey) (cached : Option AuctionInfo)
      → IsDefault config config_pda
      → IsDefault token o.info.best_offer_token
      → IsCached cached
      → active_auction_composite p l auction config token cached ≡ ok the_active_auction
  unfolding active_auction_composite
  active_auction_composite_lem config token cached d e h =
      rw (config_and_token_lem config token cached d e h) refl

  deposit_and_info_lem :
      (deposit : Option Uint64)
      → (info : Option AuctionInfo) × (deposit_and_info p l auction deposit
          ≡ ok (or_else deposit (bigint (o.info.amount_in +ℤ o.info.security_deposit)), info))
        × IsCached info
  deposit_and_info_lem (some d) = (none, refl, tt)
  deposit_and_info_lem none = (some o.info, rw (o.fetched, o.has_info) refl, refl)

  -- Where an auction is active, improving its offer succeeds at every price and deposit below 2^64: the
  -- instructions are an approval of the whole deposit for the transfer authority, and an offer at that
  -- price from the participant's token account, which is not the auction's own; its accounts the Rust
  -- program accepts; the deposit is the given one, or the amount and the security deposit of the auction.
  pub improve_offer_ix_lem :
      (participant : PublicKey) (config token : Option PublicKey) (given : Uint64)
      (offer_price total : ℕ) (deposit : Option Uint64) (offer_token : PublicKey)
      → IsActive p l auction o
      → offer_token ≢ auction_custody_token_address p auction
      → IsDefault config config_pda
      → IsDefault token o.info.best_offer_token
      → meaning given ≡ some (pos offer_price)
      → offer_price < 2 ^ 64
      → uint64_to_bigint (or_else deposit (bigint (o.info.amount_in +ℤ o.info.security_deposit)))
        ≡ ok (pos total)
      → p.web3.get_associated_token_address p.mint participant false ≡ ok offer_token
      → (ix : ImproveOffer) × (improve_offer_ix p l participant auction config token given deposit
          ≡ ok (
              approve (record {
                account = offer_token;
                delegate = ix.transfer_authority;
                owner = participant;
                amount = pos total;
              })
              ∷ improve_offer (pos offer_price) ix
              ∷ []))
        × ImproveOfferAccepted p l offer_price ix
        × (ix.offer_token ≡ offer_token)
  unfolding improve_offer_ix approve_transfer_authority_ix
  improve_offer_ix_lem participant config token given price total deposit offer_token t other d e is
        small sum tok =
      let (info, read, cached) = deposit_and_info_lem deposit in
      (
        record {
          transfer_authority = transfer_authority_pda p l auction price;
          active_auction = the_active_auction;
          offer_token = offer_token;
          token_program = p.web3.token_program_id;
          event_cpi = event_cpi p;
        },
        rw
            (
              read,
              transfer_authority_address-pda p l auction given price is small,
              tok,
              sum,
              (uint64_to_bn_lem given price is small).1,
              active_auction_composite_lem config token info d e cached,
            )
            refl,
        record {
          transfer_authority = refl;
          active_auction = the_active_auction-accepted t;
          other_token = other;
          token_program = refl;
          event_cpi = record { authority = refl; program_is_self = refl };
        },
        refl,
      )
