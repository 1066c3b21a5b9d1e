-- ===== src/MatchingEngine/Known.antt =====
-- What the network holds for an order that can be served, and the addresses that the client derives from it.

use example_liquidity_layer.Prelude.{
  All, Error, Option, false, throw, ◌≢◌, [], ap, append-nil, arith, none, ok, refl, some, sym, ℕ,
  ◌++◌, ◌<◌, ◌^◌, ◌∙◌, ◌∷◌, ◌≡◌,
}
use example_liquidity_layer.Prelude.Int.{pos}
use example_liquidity_layer.Buffer.{Bytes, IsByte, alloc, be_bytes, write_uint_be}
use example_liquidity_layer.Buffer.Chunks.{write_chunk}
use example_liquidity_layer.Auction.{PublicKey}
use example_liquidity_layer.Uint64.{
  Uint64, uint8_array, vaa_hash_to_buffer, vaa_hash_to_uint8_array,
}
use example_liquidity_layer.Uint64.Laws.{meaning, uint64_to_bn_lem}
use example_liquidity_layer.Penalty.{AuctionConfig}
use example_liquidity_layer.Vaa.{EmitterInfo, VaaAccount, emitter_info, vaa_digest}
use example_liquidity_layer.Cctp.Layout.{low_bytes-eq}
use example_liquidity_layer.Solana.{buffer_from}
use example_liquidity_layer.MatchingEngine.Addresses.{
  Program, address, auction_address, auction_config_address, custodian_address,
  prepared_order_response_address, router_endpoint_address, transfer_authority_address,
}
use example_liquidity_layer.MatchingEngine.State.{
  Custodian, FastMarketOrder, Ledger, RouterEndpoint, no_protocol,
}
use example_liquidity_layer.MatchingEngine.Composites.{
  fast_order_path_composite, fetch_vaa, order_of,
}
use example_liquidity_layer.MatchingEngine.Onchain.{
  EndpointAccepted, FastOrderPathAccepted, auction_pda, endpoint_pda, order_response_pda,
  transfer_authority_pda,
}

-- An optional account is left out, or is the one that the client would derive.
abbrev pub IsDefault : Option PublicKey → PublicKey → Type 0
IsDefault none derived = Unit {0}
IsDefault (some given) derived = given ≡ derived

pub write_alloc : (n v : ℕ) → v < 256 ^ n → write_uint_be n (alloc n) v 0 ≡ ok (be_bytes n v)
unfolding alloc
write_alloc n v h =
    write_chunk [] n v n 0 0 refl (omega arith) h
    ∙ ap ok (append-nil (be_bytes n v ++ []) ∙ append-nil (be_bytes n v))

module _ (p : Program) (l : Ledger) where
  -- An endpoint in use that is stored where the program stores the endpoint of its chain.
  pub record Registered (chain : ℕ) : Type 0 where
    pub endpoint : RouterEndpoint
    pub small : chain < 256 ^ 2
    pub stored : l.fetch_router_endpoint (endpoint_pda p l chain) ≡ ok endpoint
    pub same_chain : endpoint.info.chain ≡ chain
    pub enabled : endpoint.info.protocol ≢ no_protocol

  -- A fast VAA, from the endpoint of its chain, with its order to another chain; both endpoints are registered.
  pub record FastVaa (key : PublicKey) : Type 0 where
    pub vaa : VaaAccount
    pub fetched : fetch_vaa p l key ≡ ok vaa
    pub digest : Bytes
    pub digested : vaa_digest l.sdk vaa ≡ ok digest
    pub bytes : All IsByte digest
    pub emitter : EmitterInfo
    pub emitted : emitter_info l.sdk vaa ≡ ok emitter
    pub order : FastMarketOrder
    pub ordered : order_of p l vaa ≡ ok order
    pub source : Registered emitter.chain
    pub target : Registered (l.sdk.to_chain_id order.target_chain)
    pub same_address : source.endpoint.info.address ≡ emitter.address
    pub elsewhere : emitter.chain ≢ l.sdk.to_chain_id order.target_chain

  -- The custodian, and the auction config that it names, where the program stores it.
  pub record ConfigAt (id : ℕ) : Type 0 where
    pub config : AuctionConfig
    pub small : id < 256 ^ 4
    pub stored :
        l.fetch_auction_config (address p (buffer_from "auction-config" ∷ be_bytes 4 id ∷ []))
        ≡ ok config
    pub same_id : config.id ≡ id

  pub record Configured : Type 0 where
    pub custodian : Custodian
    pub fetched : l.fetch_custodian (custodian_address p) ≡ ok custodian
    pub current : ConfigAt custodian.auction_config_id

  -- The program is not paused, and there is no auction for the VAA.
  pub record TakesOffers {key : PublicKey} (v : FastVaa key) (k : Configured) : Type 0 where
    pub not_paused : k.custodian.paused ≡ false
    pub thrown : Error
    pub unopened : l.fetch_auction (auction_pda p l v.digest) ≡ throw thrown

  pub auction_config_address-pda :
      (id : ℕ)
      → id < 256 ^ 4
      → auction_config_address p id
        ≡ ok (address p (buffer_from "auction-config" ∷ be_bytes 4 id ∷ []))
  unfolding auction_config_address
  auction_config_address-pda id h = rw (write_alloc 4 id h) refl

  pub router_endpoint_address-pda :
      (chain : ℕ) → chain < 256 ^ 2 → router_endpoint_address p chain ≡ ok (endpoint_pda p l chain)
  unfolding router_endpoint_address
  router_endpoint_address-pda chain h = rw (write_alloc 2 chain h) refl

  -- Whatever form the price has.
  pub transfer_authority_address-pda :
      (auction : PublicKey) (given : Uint64) (price : ℕ)
      → meaning given ≡ some (pos price)
      → price < 2 ^ 64
      → transfer_authority_address p auction given ≡ ok (transfer_authority_pda p l auction price)
  unfolding transfer_authority_address
  transfer_authority_address-pda auction given price e h =
      rw ((uint64_to_bn_lem given price e h).0) refl

  pub auction_address-pda :
      (digest : Bytes)
      → All IsByte digest
      → auction_address p (uint8_array digest) ≡ auction_pda p l digest
  unfolding auction_address vaa_hash_to_buffer vaa_hash_to_uint8_array
  auction_address-pda digest h = rw (low_bytes-eq digest h) refl

  pub prepared_order_response_address-pda :
      (digest : Bytes)
      → All IsByte digest
      → prepared_order_response_address p (uint8_array digest) ≡ order_response_pda p l digest
  unfolding prepared_order_response_address vaa_hash_to_buffer vaa_hash_to_uint8_array
  prepared_order_response_address-pda digest h = rw (low_bytes-eq digest h) refl

  abbrev pub Registered-accepted :
      {chain : ℕ} → Registered chain → EndpointAccepted p l (endpoint_pda p l chain) chain
  Registered-accepted r = record {
    endpoint = r.endpoint;
    stored = r.stored;
    seeds = ap (endpoint_pda p l) (sym r.same_chain);
    same_chain = r.same_chain;
    enabled = r.enabled;
  }

  pub FastVaa-accepted :
      {key : PublicKey} (v : FastVaa key)
      → FastOrderPathAccepted p l (
          fast_order_path_composite p key
            (endpoint_pda p l v.emitter.chain)
            (endpoint_pda p l (l.sdk.to_chain_id v.order.target_chain)))
  FastVaa-accepted v = record {
    vaa = v.vaa;
    loaded = v.fetched;
    emitter = v.emitter;
    emitted = v.emitted;
    order = v.order;
    is_order = v.ordered;
    from_endpoint = Registered-accepted v.source;
    same_address = v.same_address;
    to_endpoint = Registered-accepted v.target;
    different = λ e. v.elsewhere (sym v.source.same_chain ∙ e ∙ v.target.same_chain);
  }
