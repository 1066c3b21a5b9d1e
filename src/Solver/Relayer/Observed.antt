-- ===== src/Solver/Relayer/Observed.antt =====
-- What the batches of the relayer are made for.

use example_liquidity_layer.Prelude.{
  Bool-cases, List, Option, arith, false, inl, inr, none, ok, refl, some, true, ℕ, ◌+◌, ◌∷◌, ◌≡◌,
  ◌≤◌, ◌⊎◌,
}
use example_liquidity_layer.Buffer.{Bytes}
use example_liquidity_layer.MatchingEngine.State.{FastMarketOrder}
use example_liquidity_layer.Messages.{try_parse_fast_market_order, try_parse_slow_order_response}
use example_liquidity_layer.Solver.AppConfig.{is_fast_finality}
use example_liquidity_layer.Solver.Transactions.{PreparedTransaction}
use example_liquidity_layer.Solver.PlaceOffer.Txs.{
  NoAuction, OpensAuction, WorthIt, handle_place_initial_offer_lem,
}
use example_liquidity_layer.Solver.Settle.Txs.{
  FastVaa, Settleable, Settles, handle_settle_auction_lem,
}
use example_liquidity_layer.Solver.Relayer.{
  Observation, Relayer, delayed_vaa_threshold, is_stale, on_observation, open_auction, order_of,
  pricing_of, settle_auction,
}

fresh-le :
    (now timestamp : ℕ) → is_stale now timestamp ≡ false → now ≤ timestamp + delayed_vaa_threshold
fresh-le now timestamp h = ground arith

module _ {W : Type 0} (r : Relayer W) (now : ℕ) (o : Observation) (w : W)
    (batch : List PreparedTransaction) where
  pub record Opened : Type 0 where
    pub order : FastMarketOrder
    pub is_fast :
        is_fast_finality r.platform r.config o.consistency_level o.parsed.emitter_chain ≡ true
    pub in_time : now ≤ o.parsed.timestamp + delayed_vaa_threshold
    pub parses : try_parse_fast_market_order r.layouts o.parsed.payload ≡ some order
    pub no_auction :
        NoAuction r.offers r.units r.commitment
          (order_of r order)
          r.payer
          o.raw
          (r.platform.to_chain_id o.parsed.emitter_chain)
          w
    pub worth_it :
        WorthIt r.offers r.units r.commitment (order_of r order) r.payer (pricing_of r o.parsed)
    pub opens :
        OpensAuction r.offers r.units r.commitment
          (order_of r order)
          r.payer
          no_auction.places
          batch

  pub record Settled : Type 0 where
    pub response : Bytes
    pub not_fast :
        is_fast_finality r.platform r.config o.consistency_level o.parsed.emitter_chain ≡ false
    pub parses : try_parse_slow_order_response r.layouts o.parsed.payload ≡ some response
    pub fast_vaa : FastVaa r.settling r.units r.commitment r.payer o.parsed w
    pub settleable : Settleable r.settling r.units r.commitment r.payer fast_vaa.fast
    pub settles :
        Settles r.settling r.units r.commitment r.payer o.raw fast_vaa.fast settleable.best batch

module _ {W : Type 0} (r : Relayer W) (now : ℕ) (o : Observation) (w w' : W)
    (tx : PreparedTransaction) (txs : List PreparedTransaction) where
  open_auction-Opened :
      (found : Option FastMarketOrder)
      → try_parse_fast_market_order r.layouts o.parsed.payload ≡ found
      → is_fast_finality r.platform r.config o.consistency_level o.parsed.emitter_chain ≡ true
      → now ≤ o.parsed.timestamp + delayed_vaa_threshold
      → open_auction r o found w ≡ (ok (tx ∷ txs), w')
      → Opened r now o w (tx ∷ txs)
  unfolding open_auction
  open_auction-Opened none found fast in_time h = absurd cc
  open_auction-Opened (some order) found fast in_time h =
      let (no_auction, worth_it, opens) =
        handle_place_initial_offer_lem r.offers r.units r.commitment (order_of r order) r.payer
          (pricing_of r o.parsed) o.raw (r.platform.to_chain_id o.parsed.emitter_chain) w w' tx txs
          h in
      record {
        order = order;
        is_fast = fast;
        in_time = in_time;
        parses = found;
        no_auction = no_auction;
        worth_it = worth_it;
        opens = opens;
      }

  settle_auction-Settled :
      (found : Option Bytes)
      → try_parse_slow_order_response r.layouts o.parsed.payload ≡ found
      → is_fast_finality r.platform r.config o.consistency_level o.parsed.emitter_chain ≡ false
      → settle_auction r o found w ≡ (ok (tx ∷ txs), w')
      → Settled r now o w (tx ∷ txs)
  unfolding settle_auction
  settle_auction-Settled none found slow h = absurd cc
  settle_auction-Settled (some response) found slow h =
      let (fast_vaa, settleable, settles) =
        handle_settle_auction_lem r.settling r.units r.commitment r.payer o.parsed o.raw w w' tx txs
          h in
      record {
        response = response;
        not_fast = slow;
        parses = found;
        fast_vaa = fast_vaa;
        settleable = settleable;
        settles = settles;
      }

  -- Where an observation gives a batch, either its VAA counts as fast and is at most 60 seconds old, it has a
  -- fast order whose auction is not started and whose fee is worth it by the pricing of the VAA's chain, and
  -- the batch opens that auction; or the VAA does not count as fast, it has a slow order response, its fast
  -- VAA's auction was won by a recognized token account and is completed and not settled, and the batch
  -- settles.
  pub on_observation_lem :
      on_observation r now o w ≡ (ok (tx ∷ txs), w')
      → Opened r now o w (tx ∷ txs) ⊎ Settled r now o w (tx ∷ txs)
  unfolding on_observation
  on_observation_lem h =
      elim (Bool-cases
        (is_fast_finality r.platform r.config o.consistency_level o.parsed.emitter_chain)) [
          | inr slow ↦ inr (settle_auction-Settled _ refl slow (rw slow at h))
          | inl fast ↦ elim (Bool-cases (is_stale now o.parsed.timestamp)) [
            | inl stale ↦ absurd (cc (rw (fast, stale) at h))
            | inr fresh ↦
                inl (open_auction-Opened _ refl fast (fresh-le now _ fresh) (rw (fast, fresh) at h))
          ]
        ]
