-- ===== src/Solver/PlaceOffer/Txs.antt =====
-- When an auction is opened, and with which transactions.

use example_liquidity_layer.Uint64.{bigint}
use example_liquidity_layer.Penalty.{compute_notional_security_deposit}
use example_liquidity_layer.Vaa.{ParsedVaa}
use example_liquidity_layer.Solver.Pricing.{FeeCheck, is_fee_high_enough}
use example_liquidity_layer.Solver.Io.{Io, continue-eq-ok, lift-eq-ok}
use example_liquidity_layer.Prelude.{
  Bool, Bool-cases, List, Option, String, [], ap, arith, false, inl, inr, none, not, ok, refl, some,
  sym, true, ℕ, ◌++◌, ◌∙◌, ◌∷◌, ◌≡◌,
}
use example_liquidity_layer.Prelude.Int.{ℤ, ◌+ℤ◌}
use example_liquidity_layer.Buffer.{Bytes}
use example_liquidity_layer.Auction.{PublicKey}
use example_liquidity_layer.Solver.Config.{ComputeUnitsConfig, PricingParameters}
use example_liquidity_layer.Solver.Transactions.{
  ConfirmOptions, PreparedTransaction, PreparedTransactionOptions,
}
use example_liquidity_layer.Solver.PlaceOffer.{
  FastOrder, Offers, PlaceInitialOfferAccounts, get_place_initial_offer_accounts,
  handle_place_initial_offer, offer_confirm_options, offer_if_open, offer_if_wanted, offer_opts,
  offer_with_deposit, place_initial_offer_tx, places_of, post_if_needed,
}

-- The same network, with another answer to the question for the balance.
abbrev pub with_balance : {W : Type 0} → (PublicKey → ℤ → Io W Bool) → Offers W → Offers W
with_balance answer offers = record {
  sdk = offers.sdk;
  accounts = offers.accounts;
  posted_vaa_key = offers.posted_vaa_key;
  auction_address = offers.auction_address;
  router_endpoint_address = offers.router_endpoint_address;
  account_exists = offers.account_exists;
  is_balance_sufficient = answer;
  post_vaa_txs = offers.post_vaa_txs;
  initial_offer_ixs = offers.initial_offer_ixs;
}

-- Whatever the balance is, the solver does the same: its check is never waited for.
pub balance_is_not_checked :
    {W : Type 0} (offers : Offers W) (answer : PublicKey → ℤ → Io W Bool)
    (units : ComputeUnitsConfig) (commitment : String) (pricing : Option PricingParameters)
    (raw_vaa : Bytes) (from_chain : ℕ) (order : FastOrder) (payer : PublicKey) (w : W)
    → handle_place_initial_offer
        (with_balance answer offers)
        units
        commitment
        pricing
        raw_vaa
        from_chain
        order
        payer
        w
      ≡ handle_place_initial_offer offers units commitment pricing raw_vaa from_chain order payer w
unfolding handle_place_initial_offer get_place_initial_offer_accounts offer_if_open offer_if_wanted
    offer_with_deposit place_initial_offer_tx
balance_is_not_checked offers answer units commitment pricing raw_vaa from_chain order payer w =
    refl

module _ {W : Type 0} (offers : Offers W) (units : ComputeUnitsConfig) (commitment : String)
    (order : FastOrder) (payer : PublicKey) where
  -- The places of a raw VAA's order.
  pub record Located (raw_vaa : Bytes) (from_chain : ℕ) (places : PlaceInitialOfferAccounts)
      : Type 0 where
    pub vaa : ParsedVaa
    pub from_endpoint : PublicKey
    pub to_endpoint : PublicKey
    pub parsed : offers.sdk.deserialize raw_vaa ≡ ok vaa
    pub from_derived : offers.router_endpoint_address from_chain ≡ ok from_endpoint
    pub to_derived : offers.router_endpoint_address order.target_chain ≡ ok to_endpoint
    pub same : places ≡ places_of offers vaa from_endpoint to_endpoint

  -- The auction of a raw VAA's order has no account.
  pub record NoAuction (raw_vaa : Bytes) (from_chain : ℕ) (w : W) : Type 0 where
    pub places : PlaceInitialOfferAccounts
    pub located : Located raw_vaa from_chain places
    pub seen : W
    pub not_started : offers.account_exists places.auction w ≡ (ok false, seen)

  -- The transactions that open an auction: those that post the VAA, and the offer at the highest fee, with
  -- the deposit by the second auction config, which skips the preflight checks if the VAA is not posted yet.
  pub record OpensAuction (places : PlaceInitialOfferAccounts) (txs : List PreparedTransaction)
      : Type 0 where
    pub is_posted : Bool
    pub asked : W
    pub answered : W
    pub posted_at : offers.account_exists places.fast_vaa_account asked ≡ (ok is_posted, answered)
    pub posts : List PreparedTransaction
    pub offer : PreparedTransaction
    pub in_order : txs ≡ posts ++ offer ∷ []
    pub none_if_posted : is_posted ≡ true → posts ≡ []
    pub posted : W
    pub posts_otherwise : is_posted ≡ false → offers.post_vaa_txs answered ≡ (ok posts, posted)
    pub deposit : ℤ
    pub computed :
        compute_notional_security_deposit offers.accounts (bigint order.amount_in) (some 2)
        ≡ ok deposit
    pub before : W
    pub after : W
    pub made :
        offers.initial_offer_ixs places order.max_fee
          (order.amount_in +ℤ order.max_fee +ℤ deposit)
          payer
          before
        ≡ (ok offer.ixs, after)
    pub signed : offer.signers ≡ payer ∷ []
    pub confirmed :
        offer.confirm_options
        ≡ some (record { commitment = some commitment; skip_preflight = some (not is_posted) })

  post_if_needed-posted :
      (is_posted : Bool) (posts : List PreparedTransaction) (w w' : W)
      → post_if_needed offers is_posted w ≡ (ok posts, w')
      → is_posted ≡ true
      → posts ≡ []
  post_if_needed-posted true posts w w' h e = cc
  post_if_needed-posted false posts w w' h e = cc

  post_if_needed-otherwise :
      (is_posted : Bool) (posts : List PreparedTransaction) (w w' : W)
      → post_if_needed offers is_posted w ≡ (ok posts, w')
      → is_posted ≡ false
      → offers.post_vaa_txs w ≡ (ok posts, w')
  post_if_needed-otherwise true posts w w' h e = cc
  post_if_needed-otherwise false posts w w' h e = h

  place_initial_offer_tx-fields :
      (places : PlaceInitialOfferAccounts) (price total_deposit : ℤ)
      (opts : PreparedTransactionOptions) (confirm_options : Option ConfirmOptions)
      (tx : PreparedTransaction) (w w' : W)
      → place_initial_offer_tx offers places price total_deposit payer opts confirm_options w
        ≡ (ok tx, w')
      → (offers.initial_offer_ixs places price total_deposit payer w ≡ (ok tx.ixs, w'))
        × (tx.signers ≡ payer ∷ [])
        × (tx.confirm_options ≡ confirm_options)
  unfolding place_initial_offer_tx
  place_initial_offer_tx-fields places price total_deposit opts confirm_options tx w w' h =
      let (ixs, w1, e, h1) =
        continue-eq-ok (offers.initial_offer_ixs places price total_deposit payer w) _ h in
      ground arith

  offer_with_deposit-opens :
      (places : PlaceInitialOfferAccounts) (deposit : ℤ) (txs : List PreparedTransaction) (w w' : W)
      → compute_notional_security_deposit offers.accounts (bigint order.amount_in) (some 2)
        ≡ ok deposit
      → offer_with_deposit offers units commitment places order payer
          (order.amount_in +ℤ order.max_fee +ℤ deposit)
          w
        ≡ (ok txs, w')
      → OpensAuction places txs
  unfolding offer_with_deposit
  offer_with_deposit-opens places deposit txs w w' computed h =
      let total = order.amount_in +ℤ order.max_fee +ℤ deposit in
      let (is_posted, w1, e1, h1) =
        continue-eq-ok (offers.account_exists places.fast_vaa_account w) _ h in
      let (posts, w2, e2, h2) = continue-eq-ok (post_if_needed offers is_posted w1) _ h1 in
      let (tx, w3, e3, h3) =
        continue-eq-ok
          (place_initial_offer_tx offers places order.max_fee total payer (offer_opts units)
            (offer_confirm_options commitment is_posted) w2)
          _ h2 in
      let (made, signed, confirmed) =
        place_initial_offer_tx-fields places order.max_fee total (offer_opts units)
          (offer_confirm_options commitment is_posted) tx w2 w3 e3 in
      let same : (ok (posts ++ tx ∷ []), w3) ≡ (ok txs, w') = h3 in
      record {
        is_posted = is_posted;
        asked = w;
        answered = w1;
        posted_at = e1;
        posts = posts;
        offer = tx;
        in_order = cc (same);
        none_if_posted = post_if_needed-posted is_posted posts w1 w2 e2;
        posted = w2;
        posts_otherwise = post_if_needed-otherwise is_posted posts w1 w2 e2;
        deposit = deposit;
        computed = computed;
        before = w2;
        after = w3;
        made = made;
        signed = signed;
        confirmed = confirmed;
      }

  -- The fee is high enough by the parameters of the chain.
  pub record WorthIt (pricing : Option PricingParameters) : Type 0 where
    pub parameters : PricingParameters
    pub check : FeeCheck
    pub configured : pricing ≡ some parameters
    pub checked : is_fee_high_enough order.amount_in order.max_fee parameters ≡ ok check
    pub wanted : check.should_place_offer ≡ true

  offer_if_wanted-opens :
      (places : PlaceInitialOfferAccounts) (check : FeeCheck) (w w' : W) (tx : PreparedTransaction)
      (txs : List PreparedTransaction)
      → offer_if_wanted offers units commitment places order payer check w ≡ (ok (tx ∷ txs), w')
      → (check.should_place_offer ≡ true) × OpensAuction places (tx ∷ txs)
  unfolding offer_if_wanted
  offer_if_wanted-opens places check w w' tx txs h = elim (Bool-cases check.should_place_offer) [
    | inl e ↦
        let (deposit, computed, h1) =
          lift-eq-ok
            (compute_notional_security_deposit offers.accounts (bigint order.amount_in) (some 2)) w
            _ (rw e at h) in
        (e, offer_with_deposit-opens places deposit (tx ∷ txs) w w' computed h1)
    | inr e ↦ absurd (cc (rw e at h))
  ]

  offer_if_open-opens :
      (places : PlaceInitialOfferAccounts) (pricing : Option PricingParameters) (started : Bool)
      (w w' : W) (tx : PreparedTransaction) (txs : List PreparedTransaction)
      → offer_if_open offers units commitment places order payer pricing started w
        ≡ (ok (tx ∷ txs), w')
      → (started ≡ false) × WorthIt pricing × OpensAuction places (tx ∷ txs)
  unfolding offer_if_open
  offer_if_open-opens places none started w w' tx txs h =
      absurd (elim (Bool-cases started) [ inl e ↦ cc (rw e at h) | inr e ↦ cc (rw e at h) ])
  offer_if_open-opens places (some parameters) true w w' tx txs h = absurd cc
  offer_if_open-opens places (some parameters) false w w' tx txs h =
      let (check, checked, h1) =
        lift-eq-ok (is_fee_high_enough order.amount_in order.max_fee parameters) w _ h in
      let (wanted, opens) = offer_if_wanted-opens places check w w' tx txs h1 in
      (
        refl,
        record {
          parameters = parameters;
          check = check;
          configured = refl;
          checked = checked;
          wanted = wanted;
        },
        opens,
      )

  get_place_initial_offer_accounts-Located :
      (raw_vaa : Bytes) (from_chain : ℕ) (places : PlaceInitialOfferAccounts) (w w' : W)
      → get_place_initial_offer_accounts offers raw_vaa from_chain order.target_chain w
        ≡ (ok places, w')
      → Located raw_vaa from_chain places × (w' ≡ w)
  unfolding get_place_initial_offer_accounts
  get_place_initial_offer_accounts-Located raw_vaa from_chain places w w' h =
      let (vaa, e1, h1) = lift-eq-ok (offers.sdk.deserialize raw_vaa) w _ h in
      let (from_endpoint, e2, h2) = lift-eq-ok (offers.router_endpoint_address from_chain) w _ h1 in
      let (to_endpoint, e3, h3) =
        lift-eq-ok (offers.router_endpoint_address order.target_chain) w _ h2 in
      let same : (ok (places_of offers vaa from_endpoint to_endpoint), w) ≡ (ok places, w') = h3 in
      (
        record {
          vaa = vaa;
          from_endpoint = from_endpoint;
          to_endpoint = to_endpoint;
          parsed = e1;
          from_derived = e2;
          to_derived = e3;
          same = cc (same);
        },
        cc (same),
      )

  -- Where the solver does something about an order, its auction has no account yet, its fee is high enough
  -- by the parameters of its chain, and the transactions are those that post the VAA, none if its account is
  -- there, and then the offer: at the highest fee, with the deposit by auction config 2, signed by the payer, and
  -- skipping the preflight checks exactly if the VAA was not posted.
  pub handle_place_initial_offer_lem :
      (pricing : Option PricingParameters) (raw_vaa : Bytes) (from_chain : ℕ) (w w' : W)
      (tx : PreparedTransaction) (txs : List PreparedTransaction)
      → handle_place_initial_offer offers units commitment pricing raw_vaa from_chain order payer w
        ≡ (ok (tx ∷ txs), w')
      → (unopened : NoAuction raw_vaa from_chain w) × WorthIt pricing
        × OpensAuction unopened.places (tx ∷ txs)
  unfolding handle_place_initial_offer
  handle_place_initial_offer_lem pricing raw_vaa from_chain w w' tx txs h =
      let (places, w1, e1, h1) =
        continue-eq-ok
          (get_place_initial_offer_accounts offers raw_vaa from_chain order.target_chain w) _ h in
      let (located, same) =
        get_place_initial_offer_accounts-Located raw_vaa from_chain places w w1 e1 in
      let (started, w2, seen, h2) = continue-eq-ok (offers.account_exists places.auction w1) _ h1 in
      let (unstarted, worth, opens) = offer_if_open-opens places pricing started w2 w' tx txs h2 in
      (
        record {
          places = places;
          located = located;
          seen = w2;
          not_started =
              ap (offers.account_exists places.auction) (sym same)
              ∙ seen
              ∙ ap (λ b. (ok b, w2)) unstarted;
        },
        worth,
        opens,
      )
